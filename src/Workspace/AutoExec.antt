-- ===== src/Workspace/AutoExec.antt =====
-- crates/silo-workspace/src/autoexec.rs: files that the host may execute outside the sandbox. A path
-- is the list of its code points.
pub mod Surfaces
pub mod Depth
mod Examples
use llmdevsilo.Prelude.{
  ℕ, zero, suc, Bool, true, false, String, List, [], ◌∷◌, ◌++◌, Option, none, some, is_some, ◌==◌,
  nat_eq, list_eq, Text, codes, length, take, any, find, keep, is_empty, not, leb, if◌then◌else◌,
  strip_suffix,
}

pub data Pattern : Type 0 where
  under_dir : List Text → Pattern
  name : Text → Pattern
  path_suffix : List Text → Pattern
  name_suffix : Text → Pattern

-- `segments[..segments.len() - 1]` and `segments.last()`.
abbrev pub init : List Text → List Text
init [] = []
init (x ∷ []) = []
init (x ∷ (y ∷ xs)) = x ∷ init (y ∷ xs)

abbrev pub last : List Text → Option Text
last [] = none
last (x ∷ []) = some x
last (x ∷ (y ∷ xs)) = last (y ∷ xs)

-- `slice::windows`, for n > 0.
abbrev pub windows : ℕ → List Text → List (List Text)
windows n [] = []
windows n (x ∷ xs) =
    let rest = windows n xs in if leb n (length (x ∷ xs)) then take n (x ∷ xs) ∷ rest else []

unfoldable pub matches : Pattern → List Text → Bool
unfolding strip_suffix
matches (under_dir dirs) segments =
    any (λ window. window == dirs) (windows (length dirs) (init segments))
matches (name n) segments = elim (last segments) [ some l ↦ l == n | none ↦ false ]
matches (path_suffix suffix) segments = is_some (strip_suffix suffix segments)
matches (name_suffix suffix) segments = elim (last segments) [
  | some l ↦ is_some (strip_suffix suffix l)
  | none ↦ false
]

abbrev pub rules : List (Pattern × String)
rules =
    (
      under_dir (codes ".git" ∷ codes "hooks" ∷ []),
      "git hook: git runs these scripts on commit, checkout, merge, push, and other operations",
    )
    ∷ (
      path_suffix (codes ".git" ∷ codes "config" ∷ []),
      "git repository configuration: core.hooksPath, core.fsmonitor, and filter drivers name programs git executes",
    )
    ∷ (
      name (codes ".gitattributes"),
      "git attributes: filter and diff driver assignments make git run the bound driver commands on checkout, diff, and other operations",
    )
    ∷ (
      name (codes ".gitmodules"),
      "git submodules: URL and path changes control what git fetches and checks out on submodule update",
    )
    ∷ (
      name (codes ".envrc"),
      "direnv configuration: the shell executes .envrc when entering the directory",
    )
    ∷ (
      under_dir (codes ".direnv" ∷ []),
      "direnv state: contents are loaded by direnv when entering the directory",
    )
    ∷ (
      under_dir (codes ".vscode" ∷ []),
      "VS Code workspace configuration: tasks.json, settings.json, and launch.json can run commands when the folder is opened",
    )
    ∷ (
      under_dir (codes ".idea" ∷ []),
      "JetBrains IDE configuration: run configurations and tool settings can run commands when the project is opened",
    )
    ∷ (
      name (codes "package.json"),
      "npm manifest: lifecycle scripts such as postinstall run on package installation",
    )
    ∷ (
      under_dir (codes ".husky" ∷ []),
      "husky git hook: git runs these scripts on commit and other operations",
    )
    ∷ (
      name (codes ".pre-commit-config.yaml"),
      "pre-commit configuration: defines hooks that run on git commit",
    )
    ∷ (name (codes "build.rs"), "cargo build script: compiled and run by cargo build")
    ∷ (
      path_suffix (codes ".cargo" ∷ codes "config.toml" ∷ []),
      "cargo configuration: runner and rustc-wrapper settings redirect build and run commands",
    )
    ∷ (
      path_suffix (codes ".cargo" ∷ codes "config" ∷ []),
      "cargo configuration: runner and rustc-wrapper settings redirect build and run commands",
    )
    ∷ (
      name_suffix (codes ".code-workspace"),
      "VS Code workspace file: embedded settings and tasks can run commands when opened",
    )
    ∷ []

-- `split('/')`: the segment that is being read is the first of the result.
abbrev pub split_slash : Text → List Text
split_slash [] = [] ∷ []
split_slash (c ∷ cs) =
    let rest = split_slash cs in
    if c == 47 then [] ∷ rest else elim rest [ [] ↦ (c ∷ []) ∷ [] | s ∷ ss ↦ (c ∷ s) ∷ ss ]

abbrev pub segments_of : Text → List Text
segments_of path = keep (λ s. not (is_empty s)) (split_slash path)

-- The first rule of a table that matches.
abbrev pub first_match : List (Pattern × String) → List Text → Option String
first_match table segments = elim (find (λ rule. matches rule.0 segments) table) [
  | some rule ↦ some rule.1
  | none ↦ none
]

unfoldable pub match_path : Text → Option String
unfolding matches
match_path rel_path =
    if is_empty (segments_of rel_path) then none else first_match rules (segments_of rel_path)
