-- ===== src/Workspace/Diff.antt =====
-- crates/silo-workspace/src/diff.rs: the comparison of the locked tree with the current one. A tree is
-- a map from paths to entries, a `BTreeMap`, as the list of its pairs.
pub mod Paths
pub mod Kinds
pub mod Report
pub mod Complete
mod Examples
use llmdevsilo.Prelude.{
  ℕ, Bool, true, false, not, ◌&&◌, String, List, [], ◌∷◌, ◌++◌, map, Option, none, some, is_some,
  ◌==◌, nat_eq, string_eq, list_eq, Text, length, take, any, eqb, ltb, leb, if◌then◌else◌,
}

-- snapshot.rs.
pub data TreeEntry : Type 0 where
  -- The digest, the size and the mode.
  file : String → ℕ → Option ℕ → TreeEntry
  symlink : String → TreeEntry
  dir : Option ℕ → TreeEntry

-- lib.rs.
pub data ChangeKind : Type 0 where
  added modified deleted : ChangeKind

pub record FileChange : Type 0 where
  pub path : Text
  pub kind : ChangeKind
  pub diff : Option String
  pub note : Option (ℕ × ℕ)

pub data WorkspaceError : Type 0 where
  damaged : String → WorkspaceError
  io : WorkspaceError

pub data Checked (A : Type 0) : Type 0 where
  ok : A → Checked A
  err : WorkspaceError → Checked A

abbrev pub TreeMap : Type 0
TreeMap = List (Text × TreeEntry)

-- The files and the libraries that turn bytes into texts and texts into a unified diff.
pub record Files : Type 0 where
  pub read_blob : String → Option (List ℕ)
  pub metadata_len : Text → Option ℕ
  pub read_current : Text → Option (List ℕ)
  pub from_utf8_lossy : List ℕ → String
  pub unified : String → String → String

abbrev pub max_diff_bytes : ℕ
max_diff_bytes = 1048576

abbrev pub binary_sniff_bytes : ℕ
binary_sniff_bytes = 8192

-- The order of the paths, byte by byte.
unfoldable pub text_lt : Text → Text → Bool
text_lt [] [] = false
text_lt [] (y ∷ ys) = true
text_lt (x ∷ xs) [] = false
text_lt (x ∷ xs) (y ∷ ys) = if eqb x y then text_lt xs ys else ltb x y

-- A `BTreeSet` as the list of its elements in their order.
unfoldable pub insert_path : Text → List Text → List Text
unfolding text_lt
insert_path p [] = p ∷ []
insert_path p (q ∷ qs) =
    let rest = insert_path p qs in
    if p == q then q ∷ qs else if text_lt p q then p ∷ (q ∷ qs) else q ∷ rest

unfoldable pub path_set : List Text → List Text
unfolding insert_path
path_set [] = []
path_set (p ∷ ps) = insert_path p (path_set ps)

abbrev pub keys : TreeMap → List Text
keys tree = map (λ (entry : Text × TreeEntry). entry.0) tree

abbrev pub lookup : Text → TreeMap → Option TreeEntry
lookup p [] = none
lookup p (entry ∷ tree) = if entry.0 == p then some entry.1 else lookup p tree

abbrev pub content_equal : TreeEntry → TreeEntry → Bool
content_equal (file sha size mode) (file sha' size' mode') = (sha == sha') && eqb size size'
content_equal (symlink target) (symlink target') = target == target'
content_equal (dir mode) (dir mode') = true
content_equal _ _ = false

abbrev pub entry_mode : TreeEntry → Option ℕ
entry_mode (file sha size mode) = mode
entry_mode (dir mode) = mode
entry_mode (symlink target) = none

-- The two modes of the note.
abbrev pub modes_differ : Option ℕ → Option ℕ → Option (ℕ × ℕ)
modes_differ (some old) (some new) = if eqb old new then none else some (old, new)
modes_differ (some old) none = none
modes_differ none _ = none

abbrev pub mode_note : TreeEntry → TreeEntry → Option (ℕ × ℕ)
mode_note old new = modes_differ (entry_mode old) (entry_mode new)

module _ (files : Files) where
  open files use {read_blob, metadata_len, read_current, from_utf8_lossy, unified}

  unfoldable pub bytes_to_text : List ℕ → Option String
  bytes_to_text bytes =
      if ltb max_diff_bytes (length bytes)
      then none
      else if any (λ b. eqb b 0) (take binary_sniff_bytes bytes)
      then none
      else some (from_utf8_lossy bytes)

  unfoldable pub read_current_text : Text → Checked (Option String)
  unfolding bytes_to_text
  read_current_text rel = elim (metadata_len rel) [
    | none ↦ err io
    | some len ↦
        if ltb max_diff_bytes len
        then ok none
        else elim (read_current rel) [ none ↦ err io | some bytes ↦ ok (bytes_to_text bytes) ]
  ]

  unfoldable pub read_blob_text : String → ℕ → Checked (Option String)
  unfolding bytes_to_text
  read_blob_text sha size =
      if ltb max_diff_bytes size
      then ok none
      else elim (read_blob sha) [ none ↦ err (damaged sha) | some bytes ↦ ok (bytes_to_text bytes) ]

  abbrev pub and_then : {A B : Type 0} → Checked A → (A → Checked B) → Checked B
  and_then (ok a) f = f a
  and_then (err e) f = err e

  abbrev both_texts : Option String → Option String → Option String
  both_texts (some old) (some new) = some (unified old new)
  both_texts (some old) none = none
  both_texts none _ = none

  unfoldable pub added_diff : Text → TreeEntry → Checked (Option String)
  unfolding read_current_text
  added_diff p (file sha size mode) =
      and_then (read_current_text p)
        (λ text. ok (elim text [ none ↦ none | some new ↦ some (unified "" new) ]))
  added_diff p (symlink target) = ok none
  added_diff p (dir mode) = ok none

  unfoldable pub deleted_diff : TreeEntry → Checked (Option String)
  unfolding read_blob_text
  deleted_diff (file sha size mode) =
      and_then (read_blob_text sha size)
        (λ text. ok (elim text [ none ↦ none | some old ↦ some (unified old "") ]))
  deleted_diff (symlink target) = ok none
  deleted_diff (dir mode) = ok none

  -- Only two files are compared as texts.
  unfoldable pub modified_diff : Text → TreeEntry → TreeEntry → Checked (Option String)
  unfolding read_blob_text read_current_text
  modified_diff p (file sha size mode) (file sha' size' mode') =
      and_then (read_blob_text sha size)
        (λ old. and_then (read_current_text p) (λ new. ok (both_texts old new)))
  modified_diff p _ _ = ok none

  abbrev pub change :
      Text → ChangeKind → Option (ℕ × ℕ) → Checked (Option String) → Checked (Option FileChange)
  change p kind note diff =
      and_then diff (λ d. ok (some (record { path = p; kind = kind; diff = d; note = note })))

  -- The body of the loop of `diff_trees`.
  unfoldable pub compare_path :
      Text → Option TreeEntry → Option TreeEntry → Checked (Option FileChange)
  unfolding added_diff deleted_diff modified_diff
  compare_path p none none = ok none
  compare_path p none (some new) = change p added none (added_diff p new)
  compare_path p (some old) none = change p deleted none (deleted_diff old)
  compare_path p (some old) (some new) =
      if content_equal old new && not (is_some (mode_note old new))
      then ok none
      else change p modified (mode_note old new)
          (if content_equal old new then ok none else modified_diff p old new)

  abbrev pub push : Option FileChange → List FileChange → List FileChange
  push none changes = changes
  push (some c) changes = c ∷ changes

  unfoldable pub diff_paths : TreeMap → TreeMap → List Text → Checked (List FileChange)
  unfolding compare_path
  diff_paths locked current [] = ok []
  diff_paths locked current (p ∷ ps) =
      let rest = diff_paths locked current ps in
      and_then (compare_path p (lookup p locked) (lookup p current))
        (λ c. and_then rest (λ cs. ok (push c cs)))

  unfoldable pub diff_trees : TreeMap → TreeMap → Checked (List FileChange)
  unfolding diff_paths path_set
  diff_trees locked current = diff_paths locked current (path_set (keys locked ++ keys current))
