-- ===== src/Workspace/Diff/Examples.antt =====
-- Tests and witnesses for diff.rs.
use llmdevsilo.Prelude.{
  ◌⊎◌, inl, inr, Bool, false, Bool-cases, ap, ℕ, String, Option, is_some, ◌==◌, string_eq, list_eq,
  nat_eq, if◌then◌else◌, ◌||◌, arith, ◌≡◌, refl, ◌↔◌, true, List, [], ◌∷◌, map, none, some, Text,
  codes, Exists,
}
use mathlib.Core.Bool.{false≢true}
use llmdevsilo.Workspace.Diff.{
  TreeEntry, file, dir, ChangeKind, added, modified, deleted, FileChange, ok, TreeMap, Files,
  text_lt, lookup, diff_trees,
}
use llmdevsilo.Workspace.Diff.Paths.{Ascending}
use llmdevsilo.Workspace.Diff.Report.{entry_of}
use llmdevsilo.Workspace.Diff.Kinds.{IsChange}
use llmdevsilo.Workspace.Diff.Complete.{
  is_ok, diff_trees-IsChange, diff_trees-Ascending, diff_trees-is_ok,
}

abbrev files : Files
files = record {
  read_blob = λ sha. some (codes "old");
  metadata_len = λ p. some 3;
  read_current = λ p. some (codes "new");
  from_utf8_lossy = λ bytes. "text";
  unified = λ old new. "diff";
}

abbrev after_b : TreeMap
after_b = (codes "c", dir none) ∷ []

abbrev after_a : TreeMap
after_a = (codes "b", file "2" 3 (some 420)) ∷ after_b

abbrev locked : TreeMap
locked = (codes "a", file "1" 3 (some 420)) ∷ after_a

abbrev current : TreeMap
current =
    (codes "a", file "1" 3 (some 493))
    ∷ ((codes "c", dir (some 493)) ∷ ((codes "d", file "4" 3 none) ∷ []))

abbrev changes : List FileChange
changes =
    record { path = codes "a"; kind = modified; diff = none; note = some (420, 493) }
    ∷ (record { path = codes "b"; kind = deleted; diff = some "diff"; note = none }
        ∷ (record { path = codes "d"; kind = added; diff = some "diff"; note = none } ∷ []))

diff_trees_test : diff_trees files locked current ≡ ok changes
unfolding diff_trees text_lt
diff_trees_test = refl

diff_trees-IsChange_example :
    Exists (λ e. e ≡ (codes "a", modified)) (map entry_of changes)
    ↔ IsChange (lookup (codes "a") locked) (lookup (codes "a") current) modified
diff_trees-IsChange_example =
    diff_trees-IsChange files locked current changes (codes "a") modified diff_trees_test

diff_trees-Ascending_example :
    Ascending (map (λ (line : Text × ChangeKind). line.0) (map entry_of changes))
diff_trees-Ascending_example = diff_trees-Ascending files locked current changes diff_trees_test

abbrev is_file : Option TreeEntry → Bool
is_file (some (file sha size mode)) = true
is_file _ = false

-- Of the blobs and files, only those of the two trees are there.
abbrev own_files : Files
own_files = record files {
  read_blob = λ sha. if (sha == "1") || (sha == "2") then some (codes "old") else none;
  metadata_len = λ p. if is_file (lookup p current) then some 3 else none;
  read_current = λ p. if is_file (lookup p current) then some (codes "new") else none;
}

abbrev sha_of : TreeEntry → String
sha_of (file sha size mode) = sha
sha_of _ = ""

lookup-cases :
    (p q : Text) (here there : TreeEntry) (tree : TreeMap)
    → lookup p ((q, here) ∷ tree) ≡ some there
    → (here ≡ there) ⊎ (lookup p tree ≡ some there)
lookup-cases p q here there tree = elim (Bool-cases (q == p)) [
  | inl e ↦ rw (e) (λ h. inl (ground arith))
  | inr e ↦ rw (e) (λ h. inr h)
]

locked_kept :
    (p : Text) (sha : String) (size : ℕ) (mode : Option ℕ)
    → lookup p locked ≡ some (file sha size mode)
    → is_some (own_files.read_blob sha) ≡ true
locked_kept p sha size mode h =
    elim (lookup-cases p (codes "a") (file "1" 3 (some 420)) (file sha size mode) after_a h) [
      | inl e ↦ rw (← ap sha_of e) refl
      | inr r ↦
          elim (lookup-cases p (codes "b") (file "2" 3 (some 420)) (file sha size mode) after_b r) [
            | inl e ↦ rw (← ap sha_of e) refl
            | inr q ↦ elim (lookup-cases p (codes "c") (dir none) (file sha size mode) [] q) [
              | inl e ↦ absurd (false≢true (ap (λ x. is_file (some x)) e))
              | inr n ↦ absurd (false≢true (ap is_some n))
            ]
          ]
    ]

current_readable :
    (p : Text) (sha : String) (size : ℕ) (mode : Option ℕ)
    → lookup p current ≡ some (file sha size mode)
    → (is_some (own_files.metadata_len p) ≡ true) × (is_some (own_files.read_current p) ≡ true)
current_readable p sha size mode h = rw (h) (refl, refl)

diff_trees-is_ok_example : is_ok (diff_trees own_files locked current) ≡ true
diff_trees-is_ok_example = diff_trees-is_ok own_files locked current locked_kept current_readable
