-- ===== src/Workspace/AutoExec/Depth.antt =====
-- autoexec.rs: the table against the shapes that it is meant to cover, and the depth of a path.
use mathlib.Core.Bool.{false≢true}
use mathlib.Core.List.{append_assoc}
use llmdevsilo.Prelude.{
  or_true, or_cases, ◌≡◌, refl, sym, ap, ◌∙◌, ◌↔◌, inl, inr, Bool, true, false, not, ◌||◌, String,
  List, [], ◌∷◌, ◌++◌, Option, none, some, is_some, ◌==◌, nat_eq, list_eq, list_beq_iff, Text, find,
  keep, is_empty, All, Exists, if◌then◌else◌, if_elim, arith, strip_prefix, strip_suffix,
  strip_suffix-append, strip_suffix-eq-some,
}
use llmdevsilo.Workspace.AutoExec.{
  Pattern, under_dir, name, path_suffix, name_suffix, init, matches, rules, split_slash,
  segments_of, first_match, match_path,
}
use llmdevsilo.Workspace.AutoExec.Surfaces.{
  Shape, Usable, init-last, init-push, last-push, has_window-from, has_window-to,
}

is_suffix-to :
    (suffix xs : List Text)
    → is_some (strip_suffix suffix xs) ≡ true
    → (outer : List Text) × (xs ≡ outer ++ suffix)
is_suffix-to suffix xs h = go (strip_suffix suffix xs) refl h
  where
    go :
        (o : Option (List Text))
        → strip_suffix suffix xs ≡ o
        → is_some o ≡ true
        → (outer : List Text) × (xs ≡ outer ++ suffix)
    go none e h' = absurd (false≢true h')
    go (some outer) e h' = (outer, strip_suffix-eq-some suffix xs e)

is_end-to :
    (suffix n : Text)
    → is_some (strip_suffix suffix n) ≡ true
    → (stem : Text) × (n ≡ stem ++ suffix)
is_end-to suffix n h = go (strip_suffix suffix n) refl h
  where
    go :
        (o : Option Text)
        → strip_suffix suffix n ≡ o
        → is_some o ≡ true
        → (stem : Text) × (n ≡ stem ++ suffix)
    go none e h' = absurd (false≢true h')
    go (some stem) e h' = (stem, strip_suffix-eq-some suffix n e)

matches-to : (p : Pattern) (segments : List Text) → matches p segments ≡ true → Shape p segments
unfolding matches
matches-to (under_dir dirs) segments h = elim (init-last segments) [
  | inl e ↦ absurd (false≢true (rw (e) at h))
  | inr (l, e, e') ↦
      let (outer, rest, eq) = has_window-to dirs (init segments) h in
      (
        outer,
        rest,
        l,
        e
            ∙ ap (λ xs. xs ++ (l ∷ [])) eq
            ∙ append_assoc outer (dirs ++ rest) (l ∷ [])
            ∙ ap (λ xs. outer ++ xs) (append_assoc dirs rest (l ∷ [])),
      )
]
matches-to (name n) segments h = elim (init-last segments) [
  | inl e ↦ absurd (false≢true (rw (e) at h))
  | inr (l, e, e') ↦ (
    init segments,
    e ∙ ap (λ x. init segments ++ (x ∷ [])) ((list_beq_iff l n).0 (rw (matches, e') at h)),
  )
]
matches-to (path_suffix suffix) segments h = is_suffix-to suffix segments h
matches-to (name_suffix suffix) segments h = elim (init-last segments) [
  | inl e ↦ absurd (false≢true (rw (e) at h))
  | inr (l, e, e') ↦
      let (stem, eq) = is_end-to suffix l (rw (matches, e') at h) in
      (init segments, stem, e ∙ ap (λ x. init segments ++ (x ∷ [])) eq)
]

matches-from :
    (p : Pattern) (segments : List Text) → Usable p → Shape p segments → matches p segments ≡ true
unfolding matches
matches-from (under_dir dirs) segments u (outer, inner, leaf, e) =
    rw
      (
        e,
        sym (append_assoc dirs inner (leaf ∷ [])),
        sym (append_assoc outer (dirs ++ inner) (leaf ∷ [])),
        init-push (outer ++ (dirs ++ inner)) leaf,
      )
      (has_window-from dirs outer inner u)
matches-from (name n) segments u (outer, e) =
    rw (e, matches, last-push outer n) ((list_beq_iff n n).1 refl)
matches-from (path_suffix suffix) segments u (outer, e) =
    rw (e, strip_suffix-append outer suffix) refl
matches-from (name_suffix suffix) segments u (outer, stem, e) =
    rw (e, matches, last-push outer (stem ++ suffix), strip_suffix-append stem suffix) refl

-- Some rule of the table has a shape that the path has.
abbrev pub Covered : List Text → List (Pattern × String) → Type 0
Covered segments table = Exists (λ rule. Shape rule.0 segments) table

first_match-cons :
    (rule : Pattern × String) (table : List (Pattern × String)) (segments : List Text)
    → is_some (first_match (rule ∷ table) segments)
      ≡ matches rule.0 segments || is_some (first_match table segments)
first_match-cons rule table segments =
    go (matches rule.0 segments) (find (λ r. matches r.0 segments) table)
  where
    reason : Option (Pattern × String) → Option String
    reason o = elim o [ some r ↦ some r.1 | none ↦ none ]

    go :
        (b : Bool) (o : Option (Pattern × String))
        → is_some (reason (if b then some rule else o)) ≡ b || is_some (reason o)
    go true o = refl
    go false o = refl

first_match_iff :
    (table : List (Pattern × String)) (segments : List Text)
    → All (λ rule. Usable rule.0) table
    → (is_some (first_match table segments) ≡ true) ↔ Covered segments table
first_match_iff [] segments u = (λ h. absurd (false≢true h), λ c. absurd c)
first_match_iff (rule ∷ table) segments u = (
  λ h. elim (or_cases _ _ (sym (first_match-cons rule table segments) ∙ h)) [
    | inl m ↦ inl (matches-to rule.0 segments m)
    | inr m ↦ inr ((first_match_iff table segments u.1).0 m)
  ],
  elim [
    | inl c ↦
        first_match-cons rule table segments
        ∙ ap (λ b. b || is_some (first_match table segments)) (matches-from rule.0 segments u.0 c)
    | inr c ↦
        first_match-cons rule table segments
        ∙ ap (λ b. matches rule.0 segments || b) ((first_match_iff table segments u.1).1 c)
        ∙ or_true (matches rule.0 segments)
  ],
)

rules-Usable : All (λ (rule : Pattern × String). Usable rule.0) rules
rules-Usable = (
  refl,
  (
    refl,
    (tt, (tt, (tt, (refl, (refl, (refl, (tt, (refl, (tt, (tt, (refl, (refl, (tt, tt))))))))))))),
  ),
)

-- The guard for a path without segments changes nothing.
match_path-first : (path : Text) → match_path path ≡ first_match rules (segments_of path)
unfolding match_path matches strip_prefix
match_path-first path = go (segments_of path)
  where
    go :
        (segments : List Text)
        → (if is_empty segments then none else first_match rules segments)
          ≡ first_match rules segments
    go [] = refl
    go (s ∷ ss) = refl

-- A path is flagged just when its segments have the shape of some rule of the table: below one of the
-- directories, named like one of the files, or ending like them, at any depth.
pub match_path-Covered :
    (path : Text) → (is_some (match_path path) ≡ true) ↔ Covered (segments_of path) rules
match_path-Covered path =
    rw (match_path-first path) (first_match_iff rules (segments_of path) rules-Usable)

Shape-deeper :
    (p : Pattern) (outer segments : List Text) → Shape p segments → Shape p (outer ++ segments)
Shape-deeper (under_dir dirs) outer segments (o, i, l, e) =
    (outer ++ o, i, l, ap (λ xs. outer ++ xs) e ∙ sym (append_assoc outer o _))
Shape-deeper (name n) outer segments (o, e) =
    (outer ++ o, ap (λ xs. outer ++ xs) e ∙ sym (append_assoc outer o _))
Shape-deeper (path_suffix s) outer segments (o, e) =
    (outer ++ o, ap (λ xs. outer ++ xs) e ∙ sym (append_assoc outer o _))
Shape-deeper (name_suffix s) outer segments (o, stem, e) =
    (outer ++ o, stem, ap (λ xs. outer ++ xs) e ∙ sym (append_assoc outer o _))

Covered-deeper :
    (table : List (Pattern × String)) (outer segments : List Text)
    → Covered segments table
    → Covered (outer ++ segments) table
Covered-deeper [] outer segments c = absurd c
Covered-deeper (rule ∷ table) outer segments (inl s) = inl (Shape-deeper rule.0 outer segments s)
Covered-deeper (rule ∷ table) outer segments (inr c) = inr (Covered-deeper table outer segments c)

split_slash-cons : (cs : Text) → (s : Text) × (ss : List Text) × (split_slash cs ≡ s ∷ ss)
split_slash-cons [] = ([], [], refl)
split_slash-cons (c ∷ cs) =
    if_elim (λ (xs : List Text). (s : Text) × (ss : List Text) × (xs ≡ s ∷ ss)) (c == 47)
      (λ _. ([], split_slash cs, refl)) (λ _. first (split_slash cs))
  where
    first :
        (rest : List Text)
        → (s : Text) × (ss : List Text) × ((elim rest [
          | [] ↦ (c ∷ []) ∷ []
          | s' ∷ ss' ↦ (c ∷ s') ∷ ss'
        ])
            ≡ s ∷ ss)
    first [] = (c ∷ [], [], refl)
    first (s ∷ ss) = (c ∷ s, ss, refl)

if-append :
    (b : Bool) (xs ys zs : List Text)
    → (if b then xs else ys) ++ zs ≡ (if b then xs ++ zs else ys ++ zs)
if-append true xs ys zs = refl
if-append false xs ys zs = refl

split_slash-append :
    (dir path : Text) → split_slash (dir ++ (47 ∷ path)) ≡ split_slash dir ++ split_slash path
split_slash-append [] path = refl
split_slash-append (c ∷ dir) path =
    let (s, ss, e) = split_slash-cons dir in
    rw (split_slash-append dir path, e)
      (sym (if-append (c == 47) ([] ∷ (s ∷ ss)) ((c ∷ s) ∷ ss) (split_slash path)))

keep-append : (f : Text → Bool) (xs ys : List Text) → keep f (xs ++ ys) ≡ keep f xs ++ keep f ys
keep-append f [] ys = refl
keep-append f (x ∷ xs) ys = ground (arith, keep-append f xs ys)

-- What is flagged in a directory is flagged below any other directory as well, with `dir` any text, so
-- also with empty segments (doubled slashes) in it.
pub match_path-deeper :
    (dir path : Text)
    → is_some (match_path path) ≡ true
    → is_some (match_path (dir ++ (47 ∷ path))) ≡ true
match_path-deeper dir path h = (match_path-Covered (dir ++ (47 ∷ path))).1 (
    rw
      (
        split_slash-append dir path,
        keep-append (λ s. not (is_empty s)) (split_slash dir) (split_slash path),
      )
      (Covered-deeper rules (segments_of dir) (segments_of path) ((match_path-Covered path).0 h)))
