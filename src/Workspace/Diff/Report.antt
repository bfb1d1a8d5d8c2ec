-- ===== src/Workspace/Diff/Report.antt =====
-- diff.rs: what the comparison reports.
use mathlib.Core.Bool.{false≢true}
use llmdevsilo.Prelude.{
  or_true, or_cases, ℕ, ◌≡◌, refl, sym, ap, ◌∙◌, ◌↔◌, inl, inr, Bool, true, false, ◌||◌, String,
  List, [], ◌∷◌, map, Option, none, some, is_some, ◌==◌, nat_eq, string_eq, list_eq, list_beq_iff,
  Text, All, Exists, if◌then◌else◌,
}
use llmdevsilo.Workspace.Diff.{
  TreeEntry, ChangeKind, added, modified, deleted, FileChange, Checked, ok, err, TreeMap, Files,
  text_lt, lookup, content_equal, mode_note, and_then, change, push, compare_path, modified_diff,
  diff_paths,
}
use llmdevsilo.Workspace.Diff.Kinds.{same_entry, kind_of}
use llmdevsilo.Workspace.Diff.Paths.{Ascending, has}

-- A report line: its path and kind.
abbrev pub entry_of : FileChange → Text × ChangeKind
entry_of c = (c.path, c.kind)

abbrev pub listed : Text → Option ChangeKind → List (Text × ChangeKind) → List (Text × ChangeKind)
listed p none rest = rest
listed p (some kind) rest = (p, kind) ∷ rest

abbrev pub expected : TreeMap → TreeMap → List Text → List (Text × ChangeKind)
expected locked current [] = []
expected locked current (p ∷ ps) =
    listed p (kind_of (lookup p locked) (lookup p current)) (expected locked current ps)

module _ (files : Files) where
  abbrev Reports : Text → Option ChangeKind → Checked (Option FileChange) → Type 0
  Reports p kind (ok none) = kind ≡ none
  Reports p kind (ok (some c)) = (c.path ≡ p) × (kind ≡ some c.kind)
  Reports p kind (err e) = Unit

  change-Reports :
      (p : Text) (kind : ChangeKind) (note : Option (ℕ × ℕ)) (diff : Checked (Option String))
      → Reports p (some kind) (change files p kind note diff)
  change-Reports p kind _ (ok d) = (refl, refl)
  change-Reports p kind _ (err e) = tt

  compare_path-Reports :
      (p : Text) (old new : Option TreeEntry)
      → Reports p (kind_of old new) (compare_path files p old new)
  unfolding compare_path
  compare_path-Reports p none none = refl
  compare_path-Reports p none (some new) = change-Reports p added none _
  compare_path-Reports p (some old) none = change-Reports p deleted none _
  compare_path-Reports p (some old) (some new) =
      go (same_entry old new)
        (if content_equal old new then ok none else modified_diff files p old new)
    where
      go :
          (b : Bool) (d : Checked (Option String))
          → Reports p
              (if b then none else some modified)
              (if b then ok none else change files p modified (mode_note old new) d)
      go true d = refl
      go false d = change-Reports p modified (mode_note old new) d

  -- The lines of a report that is made, or nothing to say of an error.
  abbrev pub Lines : List (Text × ChangeKind) → Checked (List FileChange) → Type 0
  Lines want (ok changes) = map entry_of changes ≡ want
  Lines want (err e) = Unit

  Lines-push :
      (p : Text) (kind : Option ChangeKind) (want : List (Text × ChangeKind))
      (c : Checked (Option FileChange)) (rest : Checked (List FileChange))
      → Reports p kind c
      → Lines want rest
      → Lines
          (listed p kind want)
          (and_then files c (λ one. and_then files rest (λ cs. ok (push files one cs))))
  Lines-push p kind want (err e) rest r h = tt
  Lines-push p kind want (ok one) (err e) r h = tt
  Lines-push p kind want (ok none) (ok cs) r h = h ∙ ap (λ k. listed p k want) (sym r)
  Lines-push p kind want (ok (some c)) (ok cs) r h =
      ap (λ q. (q, c.kind) ∷ map entry_of cs) r.0
      ∙ ap (λ es. (p, c.kind) ∷ es) h
      ∙ ap (λ k. listed p k want) (sym r.1)

  pub diff_paths-Lines :
      (locked current : TreeMap) (ps : List Text)
      → Lines (expected locked current ps) (diff_paths files locked current ps)
  unfolding diff_paths
  diff_paths-Lines locked current [] = refl
  diff_paths-Lines locked current (p ∷ ps) =
      Lines-push p (kind_of (lookup p locked) (lookup p current)) (expected locked current ps)
        (compare_path files p (lookup p locked) (lookup p current))
        (diff_paths files locked current ps)
        (compare_path-Reports p (lookup p locked) (lookup p current))
        (diff_paths-Lines locked current ps)

-- The expected lines, by their paths.
abbrev pub LineFor : Text → ChangeKind → List (Text × ChangeKind) → Type 0
LineFor p kind es = Exists (λ e. e ≡ (p, kind)) es

listed-All :
    (P : Text → Type 0) (p : Text) (kind : Option ChangeKind) (es : List (Text × ChangeKind))
    → P p
    → All P (map (λ (e : Text × ChangeKind). e.0) es)
    → All P (map (λ (e : Text × ChangeKind). e.0) (listed p kind es))
listed-All P p none es h hs = hs
listed-All P p (some kind) es h hs = (h, hs)

expected-All :
    (P : Text → Type 0) (locked current : TreeMap) (ps : List Text)
    → All P ps
    → All P (map (λ (e : Text × ChangeKind). e.0) (expected locked current ps))
expected-All P locked current [] h = tt
expected-All P locked current (p ∷ ps) h =
    listed-All P p (kind_of (lookup p locked) (lookup p current)) (expected locked current ps) h.0
      (expected-All P locked current ps h.1)

pub expected-Ascending :
    (locked current : TreeMap) (ps : List Text)
    → Ascending ps
    → Ascending (map (λ (e : Text × ChangeKind). e.0) (expected locked current ps))
expected-Ascending locked current [] h = tt
expected-Ascending locked current (p ∷ ps) h =
    go (kind_of (lookup p locked) (lookup p current))
      (expected-All (λ q. text_lt p q ≡ true) locked current ps h.0)
      (expected-Ascending locked current ps h.1)
  where
    go :
        (kind : Option ChangeKind)
        → All
            (λ q. text_lt p q ≡ true)
            (map (λ (e : Text × ChangeKind). e.0) (expected locked current ps))
        → Ascending (map (λ (e : Text × ChangeKind). e.0) (expected locked current ps))
        → Ascending
            (map (λ (e : Text × ChangeKind). e.0) (listed p kind (expected locked current ps)))
    go none a b = b
    go (some kind) a b = (a, b)

pub LineFor-expected :
    (locked current : TreeMap) (p : Text) (kind : ChangeKind) (ps : List Text)
    → LineFor p kind (expected locked current ps)
      ↔ ((has p ps ≡ true) × (kind_of (lookup p locked) (lookup p current) ≡ some kind))
LineFor-expected locked current p kind [] = (λ h. absurd h, λ h. absurd (false≢true h.0))
LineFor-expected locked current p kind (q ∷ qs) =
    go (kind_of (lookup q locked) (lookup q current)) refl
      (LineFor-expected locked current p kind qs)
  where
    go :
        (k : Option ChangeKind)
        → kind_of (lookup q locked) (lookup q current) ≡ k
        → (LineFor p kind (expected locked current qs)
            ↔ ((has p qs ≡ true) × (kind_of (lookup p locked) (lookup p current) ≡ some kind)))
        → LineFor p kind (listed q k (expected locked current qs)) ↔ (
            ((q == p) || has p qs ≡ true)
            × (kind_of (lookup p locked) (lookup p current) ≡ some kind))
    go none eq rest = (
      λ h. let (a, b) = rest.0 h in (ap (λ c. (q == p) || c) a ∙ or_true (q == p), b),
      λ h. elim (or_cases (q == p) (has p qs) h.0) [
        | inl e ↦ absurd (
            false≢true (
              ap is_some (
                sym eq
                ∙ ap (λ r. kind_of (lookup r locked) (lookup r current)) ((list_beq_iff q p).0 e)
                ∙ h.1)))
        | inr e ↦ rest.1 (e, h.1)
      ],
    )
    go (some k) eq rest = (
      elim [
        | inl e ↦ (
          ap (λ c. c || has p qs) ((list_beq_iff q p).1 (ap (λ (x : Text × ChangeKind). x.0) e)),
          ap (λ r. kind_of (lookup r locked) (lookup r current))
                (sym (ap (λ (x : Text × ChangeKind). x.0) e))
              ∙ eq
              ∙ ap (λ (x : Text × ChangeKind). some x.1) e,
        )
        | inr h ↦ let (a, b) = rest.0 h in (ap (λ c. (q == p) || c) a ∙ or_true (q == p), b)
      ],
      λ h. elim (or_cases (q == p) (has p qs) h.0) [
        | inl e ↦ inl (let e' = (list_beq_iff q p).0 e in let eq' = eq in let h' = h.1 in cc)
        | inr e ↦ inr (rest.1 (e, h.1))
      ],
    )
