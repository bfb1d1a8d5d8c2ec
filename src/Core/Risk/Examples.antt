-- ===== src/Core/Risk/Examples.antt =====
-- risk.rs and validate.rs at concrete paths.
use llmdevsilo.Prelude.{
  ◌≡◌, ◌↔◌, ◌++◌, none, if◌then◌else◌, ◌⊎◌, refl, Bool, true, false, [], ◌∷◌, map, Option, some,
  ◌==◌, list_eq, string_eq, All, strip_prefix,
}
use llmdevsilo.Core.Risk.{
  Route, home_relative_risks, known_risky_paths, listed, normalize_path, hits_of,
  scan_allowlist_entry, scan_allowlist, validate_read_allowlist,
}
use llmdevsilo.Core.Risk.Exposed.{is_accepted, Harmless, normal, validate_read_allowlist_iff}

abbrev home : Route
home = "/" ∷ "home" ∷ "me" ∷ []

abbrev keys : Route
keys = "/" ∷ "home" ∷ "me" ∷ ".ssh" ∷ []

abbrev state_dir : Route
state_dir = "/" ∷ "home" ∷ "me" ∷ ".llmdevsilo" ∷ []

abbrev tools : Route
tools = "/" ∷ "usr" ∷ "bin" ∷ []

-- A file system without links.
abbrev canonicalize : Route → Option Route
canonicalize path = some path

abbrev exists : Route → Bool
exists path = path == keys

accepts_tools :
    is_accepted (validate_read_allowlist canonicalize exists (tools ∷ []) home state_dir []) ≡ true
unfolding validate_read_allowlist scan_allowlist scan_allowlist_entry hits_of known_risky_paths
    home_relative_risks normalize_path strip_prefix
accepts_tools = refl

refuses_home :
    is_accepted (validate_read_allowlist canonicalize exists (home ∷ []) home state_dir []) ≡ false
unfolding validate_read_allowlist scan_allowlist scan_allowlist_entry hits_of known_risky_paths
    home_relative_risks normalize_path strip_prefix
refuses_home = refl

-- A missing path that ends in `..` stays as it is.
normalize_path_dots :
    normalize_path (λ path. if path == tools then some home else none) exists (tools ++ (".." ∷ []))
    ≡ tools ++ (".." ∷ [])
unfolding normalize_path
normalize_path_dots = refl

normalize_path_missing :
    normalize_path (λ path. if path == tools then some home else none) exists (tools ++ ("x" ∷ []))
    ≡ home ++ ("x" ∷ [])
unfolding normalize_path
normalize_path_missing = refl

validate_read_allowlist_iff_example :
    (is_accepted
        (validate_read_allowlist canonicalize exists (tools ∷ home ∷ []) home state_dir (home ∷ []))
      ≡ true)
    ↔ All
        (λ entry.
          (listed (normal canonicalize exists entry) (map (normal canonicalize exists) (home ∷ []))
            ≡ true)
          ⊎ Harmless canonicalize exists (known_risky_paths home state_dir) entry)
        (tools ∷ home ∷ [])
validate_read_allowlist_iff_example =
    validate_read_allowlist_iff canonicalize exists (tools ∷ home ∷ []) home state_dir (home ∷ [])
