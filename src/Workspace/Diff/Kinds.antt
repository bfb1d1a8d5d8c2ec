-- ===== src/Workspace/Diff/Kinds.antt =====
-- diff.rs: what is a change of one path.
use mathlib.Core.Bool.{false≢true}
use llmdevsilo.Prelude.{
  eqb_iff, Bool-cases, arith, ℕ, ◌≡◌, refl, sym, ap, ◌∙◌, ◌↔◌, inl, inr, Bool, true, not, ◌&&◌,
  Option, none, some, is_some, nat_eq, string_eq, list_eq, if◌then◌else◌,
}
use llmdevsilo.Workspace.Diff.{
  TreeEntry, file, symlink, dir, modes_differ, ChangeKind, added, modified, deleted, content_equal,
  mode_note,
}

-- The modes do not differ where both sides record one.
abbrev pub ModesAgree : Option ℕ → Option ℕ → Type 0
ModesAgree old new = (m n : ℕ) → old ≡ some m → new ≡ some n → m ≡ n

-- Nothing to report: files of one digest and size, symbolic links to one target, or directories, with
-- modes that agree.
abbrev pub SameEntry : TreeEntry → TreeEntry → Type 0
SameEntry (file sha size mode) (file sha' size' mode') =
    (sha ≡ sha') × (size ≡ size') × ModesAgree mode mode'
SameEntry (symlink target) (symlink target') = target ≡ target'
SameEntry (dir mode) (dir mode') = ModesAgree mode mode'
SameEntry _ _ = ⊥

-- What is to be reported of a path, by what stands there on either side.
abbrev pub IsChange : Option TreeEntry → Option TreeEntry → ChangeKind → Type 0
IsChange none none kind = ⊥
IsChange none (some new) kind = added ≡ kind
IsChange (some old) none kind = deleted ≡ kind
IsChange (some old) (some new) kind = (modified ≡ kind) × (SameEntry old new → ⊥)

-- The test of the comparison.
abbrev pub same_entry : TreeEntry → TreeEntry → Bool
same_entry old new = content_equal old new && not (is_some (mode_note old new))

modes_differ-ModesAgree :
    (old new : Option ℕ) → (not (is_some (modes_differ old new)) ≡ true) ↔ ModesAgree old new
modes_differ-ModesAgree none new = (λ _ m n e _. absurd (ground arith), λ _. refl)
modes_differ-ModesAgree (some m) none = (λ _ m n _ e. absurd (ground arith), λ _. refl)
modes_differ-ModesAgree (some m) (some n) =
    (λ h x y e f. ground arith, λ h. let e = h m n refl refl in rw ((eqb_iff m n).1 e) refl)

same_entry-SameEntry : (old new : TreeEntry) → (same_entry old new ≡ true) ↔ SameEntry old new
same_entry-SameEntry (file sha size mode) (file sha' size' mode') =
    let same = modes_differ-ModesAgree mode mode' in
    ground (arith, string_eq.equals_iff sha sha', same)
same_entry-SameEntry (file sha size mode) (symlink target) = (λ h. false≢true h, λ h. absurd h)
same_entry-SameEntry (file sha size mode) (dir mode') = (λ h. false≢true h, λ h. absurd h)
same_entry-SameEntry (symlink target) (file sha size mode) = (λ h. false≢true h, λ h. absurd h)
same_entry-SameEntry (symlink target) (symlink target') =
    ground (arith, string_eq.equals_iff target target')
same_entry-SameEntry (symlink target) (dir mode) = (λ h. false≢true h, λ h. absurd h)
same_entry-SameEntry (dir mode) (file sha size mode') = (λ h. false≢true h, λ h. absurd h)
same_entry-SameEntry (dir mode) (symlink target) = (λ h. false≢true h, λ h. absurd h)
same_entry-SameEntry (dir mode) (dir mode') = modes_differ-ModesAgree mode mode'

-- The kind of the change between what stands at a path on either side.
abbrev pub kind_of : Option TreeEntry → Option TreeEntry → Option ChangeKind
kind_of none none = none
kind_of none (some new) = some added
kind_of (some old) none = some deleted
kind_of (some old) (some new) = if same_entry old new then none else some modified

pub kind_of-IsChange :
    (old new : Option TreeEntry) (kind : ChangeKind)
    → (kind_of old new ≡ some kind) ↔ IsChange old new kind
kind_of-IsChange none none kind = (λ h. ground arith, λ h. absurd h)
kind_of-IsChange none (some new) kind = (λ h. ground arith, λ h. ap some h)
kind_of-IsChange (some old) none kind = (λ h. ground arith, λ h. ap some h)
kind_of-IsChange (some old) (some new) kind = elim (Bool-cases (same_entry old new)) [
  | inl e ↦
      rw (e) (λ h. absurd (ground arith), λ h. absurd (h.1 ((same_entry-SameEntry old new).0 e)))
  | inr e ↦ rw (e) (
    λ h. (ground arith, λ same. false≢true (sym e ∙ (same_entry-SameEntry old new).1 same)),
    λ h. ap some h.0,
  )
]
