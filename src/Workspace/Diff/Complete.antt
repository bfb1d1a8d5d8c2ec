-- ===== src/Workspace/Diff/Complete.antt =====
-- diff.rs: the report is complete, in order, and made whenever the files can be read.
use llmdevsilo.Prelude.{
  ℕ, ◌≡◌, refl, subst, ◌∙◌, ◌↔◌, Bool, true, false, ◌||◌, String, List, [], ◌∷◌, ◌++◌, map, Option,
  none, some, is_some, Text, Exists, arith, if◌then◌else◌, if_elim,
}
use llmdevsilo.Workspace.Diff.{
  TreeEntry, file, symlink, dir, ChangeKind, FileChange, Checked, ok, err, TreeMap, Files, path_set,
  keys, lookup, content_equal, and_then, read_current_text, read_blob_text, added_diff,
  deleted_diff, modified_diff, compare_path, diff_paths, diff_trees,
}
use llmdevsilo.Workspace.Diff.Paths.{Ascending, path_set-Ascending, has-all_paths}
use llmdevsilo.Workspace.Diff.Kinds.{same_entry, kind_of, IsChange, kind_of-IsChange}
use llmdevsilo.Workspace.Diff.Report.{
  entry_of, expected, Lines, diff_paths-Lines, expected-Ascending, LineFor-expected,
}

module _ (files : Files) (locked current : TreeMap) where
  abbrev all_paths : List Text
  all_paths = path_set (keys locked ++ keys current)

  diff_trees-lines :
      (changes : List FileChange)
      → diff_trees files locked current ≡ ok changes
      → map entry_of changes ≡ expected locked current all_paths
  unfolding diff_trees
  diff_trees-lines changes e =
      subst (Lines files (expected locked current all_paths)) e
        (diff_paths-Lines files locked current all_paths)

  some_side :
      (old new : Option TreeEntry) (kind : ChangeKind)
      → kind_of old new ≡ some kind
      → is_some old || is_some new ≡ true
  some_side none none kind h = ground arith
  some_side none (some new) kind h = refl
  some_side (some old) new kind h = refl

  diff_trees-kind_of :
      (changes : List FileChange) (path : Text) (kind : ChangeKind)
      → diff_trees files locked current ≡ ok changes
      → Exists (λ e. e ≡ (path, kind)) (map entry_of changes)
        ↔ (kind_of (lookup path locked) (lookup path current) ≡ some kind)
  diff_trees-kind_of changes path kind e = rw (diff_trees-lines changes e) (
      let (to, from) = LineFor-expected locked current path kind all_paths in
      (
        λ h. (to h).1,
        λ k. from (
          has-all_paths path locked current
              ∙ some_side (lookup path locked) (lookup path current) kind k,
          k,
        ),
      ))

  -- A report that is made has for each path just the change that the two sides say: an addition or a
  -- deletion where one side lacks it, and a modification where both have it, unless they are files of
  -- one digest and size, links to one target or two directories, and no two modes are recorded that
  -- differ. (A mode that one side alone records is no change.)
  pub diff_trees-IsChange :
      (changes : List FileChange) (path : Text) (kind : ChangeKind)
      → diff_trees files locked current ≡ ok changes
      → Exists (λ e. e ≡ (path, kind)) (map entry_of changes)
        ↔ IsChange (lookup path locked) (lookup path current) kind
  diff_trees-IsChange changes path kind e =
      let (to, from) = diff_trees-kind_of changes path kind e in
      let (there, back) = kind_of-IsChange (lookup path locked) (lookup path current) kind in
      (λ h. there (to h), λ h. from (back h))

  -- The report lists its paths in strictly ascending order, so no path twice.
  pub diff_trees-Ascending :
      (changes : List FileChange)
      → diff_trees files locked current ≡ ok changes
      → Ascending (map (λ (line : Text × ChangeKind). line.0) (map entry_of changes))
  diff_trees-Ascending changes e = rw (diff_trees-lines changes e) (
      expected-Ascending locked current all_paths
        (path_set-Ascending (keys locked ++ keys current)))

abbrev pub is_ok : {A : Type 0} → Checked A → Bool
is_ok (ok a) = true
is_ok (err e) = false

-- The file can be read.
abbrev Readable : Files → Text → Option TreeEntry → Type 0
Readable files p (some (file sha size mode)) =
    (is_some (files.metadata_len p) ≡ true) × (is_some (files.read_current p) ≡ true)
Readable files p _ = Unit

-- The blob of the file is kept.
abbrev Kept : Files → Option TreeEntry → Type 0
Kept files (some (file sha size mode)) = is_some (files.read_blob sha) ≡ true
Kept files _ = Unit

module _ (files : Files) where
  and_then-is_ok :
      {A B : Type 0} (c : Checked A) (f : A → Checked B)
      → is_ok c ≡ true
      → ((a : A) → is_ok (f a) ≡ true)
      → is_ok (and_then files c f) ≡ true
  and_then-is_ok (ok a) f h k = k a
  and_then-is_ok (err e) f h k = ground arith

  read_current_text-is_ok :
      (p : Text)
      → is_some (files.metadata_len p) ≡ true
      → is_some (files.read_current p) ≡ true
      → is_ok (read_current_text files p) ≡ true
  unfolding read_current_text
  read_current_text-is_ok p len bytes = ground (arith, len, bytes)

  read_blob_text-is_ok :
      (sha : String) (size : ℕ)
      → is_some (files.read_blob sha) ≡ true
      → is_ok (read_blob_text files sha size) ≡ true
  unfolding read_blob_text
  read_blob_text-is_ok sha size blob = ground (arith, blob)

  added_diff-is_ok :
      (p : Text) (new : TreeEntry)
      → Readable files p (some new)
      → is_ok (added_diff files p new) ≡ true
  unfolding added_diff
  added_diff-is_ok p (file sha size mode) r =
      and_then-is_ok (read_current_text files p) _ (read_current_text-is_ok p r.0 r.1) (λ _. refl)
  added_diff-is_ok p (symlink target) r = refl
  added_diff-is_ok p (dir mode) r = refl

  deleted_diff-is_ok :
      (old : TreeEntry) → Kept files (some old) → is_ok (deleted_diff files old) ≡ true
  unfolding deleted_diff
  deleted_diff-is_ok (file sha size mode) k =
      and_then-is_ok (read_blob_text files sha size) _ (read_blob_text-is_ok sha size k) (λ _. refl)
  deleted_diff-is_ok (symlink target) k = refl
  deleted_diff-is_ok (dir mode) k = refl

  modified_diff-is_ok :
      (p : Text) (old new : TreeEntry)
      → Kept files (some old)
      → Readable files p (some new)
      → is_ok (modified_diff files p old new) ≡ true
  unfolding modified_diff
  modified_diff-is_ok p (file sha size mode) (file sha' size' mode') k r =
      and_then-is_ok (read_blob_text files sha size) _ (read_blob_text-is_ok sha size k) (λ _.
        and_then-is_ok (read_current_text files p) _ (read_current_text-is_ok p r.0 r.1)
          (λ _. refl))
  modified_diff-is_ok p (file sha size mode) (symlink target) k r = refl
  modified_diff-is_ok p (file sha size mode) (dir mode') k r = refl
  modified_diff-is_ok p (symlink target) new k r = refl
  modified_diff-is_ok p (dir mode) new k r = refl

  compare_path-is_ok :
      (p : Text) (old new : Option TreeEntry)
      → Kept files old
      → Readable files p new
      → is_ok (compare_path files p old new) ≡ true
  unfolding compare_path
  compare_path-is_ok p none none k r = refl
  compare_path-is_ok p none (some new) k r =
      and_then-is_ok (added_diff files p new) _ (added_diff-is_ok p new r) (λ _. refl)
  compare_path-is_ok p (some old) none k r =
      and_then-is_ok (deleted_diff files old) _ (deleted_diff-is_ok old k) (λ _. refl)
  compare_path-is_ok p (some old) (some new) k r =
      if_elim (λ (c : Checked (Option FileChange)). is_ok c ≡ true) (same_entry old new) (λ _. refl)
        (λ _.
          and_then-is_ok (if content_equal old new then ok none else modified_diff files p old new)
            _
            (if_elim (λ (c : Checked (Option String)). is_ok c ≡ true) (content_equal old new)
              (λ _. refl) (λ _. modified_diff-is_ok p old new k r))
            (λ _. refl))

  module _ (locked current : TreeMap)
      (kept : (p : Text) (sha : String) (size : ℕ) (mode : Option ℕ)
        → lookup p locked ≡ some (file sha size mode)
        → is_some (files.read_blob sha) ≡ true)
      (readable : (p : Text) (sha : String) (size : ℕ) (mode : Option ℕ)
        → lookup p current ≡ some (file sha size mode)
        → (is_some (files.metadata_len p) ≡ true) × (is_some (files.read_current p) ≡ true)) where
    lookup-Kept : (p : Text) → Kept files (lookup p locked)
    lookup-Kept p = go (lookup p locked) refl
      where
        go : (o : Option TreeEntry) → lookup p locked ≡ o → Kept files o
        go none e = tt
        go (some (file sha size mode)) e = kept p sha size mode e
        go (some (symlink target)) e = tt
        go (some (dir mode)) e = tt

    lookup-Readable : (p : Text) → Readable files p (lookup p current)
    lookup-Readable p = go (lookup p current) refl
      where
        go : (o : Option TreeEntry) → lookup p current ≡ o → Readable files p o
        go none e = tt
        go (some (file sha size mode)) e = readable p sha size mode e
        go (some (symlink target)) e = tt
        go (some (dir mode)) e = tt

    diff_paths-is_ok : (ps : List Text) → is_ok (diff_paths files locked current ps) ≡ true
    unfolding diff_paths
    diff_paths-is_ok [] = refl
    diff_paths-is_ok (p ∷ ps) =
        and_then-is_ok (compare_path files p (lookup p locked) (lookup p current)) _
          (compare_path-is_ok p (lookup p locked) (lookup p current) (lookup-Kept p)
            (lookup-Readable p))
          (λ _.
            and_then-is_ok (diff_paths files locked current ps) _ (diff_paths-is_ok ps) (λ _. refl))

    -- Where the blobs of the locked tree's files are there, and the files of the current tree can be
    -- read, the comparison succeeds, whatever else is missing or cannot be read.
    pub diff_trees-is_ok : is_ok (diff_trees files locked current) ≡ true
    unfolding diff_trees
    diff_trees-is_ok = diff_paths-is_ok (path_set (keys locked ++ keys current))
