-- ===== src/Core/Risk.antt =====
-- crates/silo-core/src/risk.rs and crates/silo-harness/src/validate.rs: which paths the sandbox may read.
-- A path is its components, with the root as one; the file system is what `canonicalize` and `exists` answer. The
-- texts of the warnings and errors are what they are made of.
pub mod Exposed
mod Examples
use llmdevsilo.Prelude.{
  Bool, true, false, not, ◌&&◌, ◌||◌, String, List, [], ◌∷◌, ◌++◌, map, reverse, Option, none, some,
  ◌==◌, string_eq, list_eq, any, keep, is_empty, starts_with, if◌then◌else◌,
}

abbrev pub Route : Type 0
Route = List String

pub record RiskHit : Type 0 where
  pub path : Route
  pub reason : String

unfoldable pub home_relative_risks : List (Route × String)
home_relative_risks =
    ((".ssh" ∷ []), "SSH private keys")
    ∷ ((".gnupg" ∷ []), "GPG private keys")
    ∷ ((".aws" ∷ []), "AWS credentials")
    ∷ ((".azure" ∷ []), "Azure credentials")
    ∷ ((".config" ∷ "gcloud" ∷ []), "Google Cloud credentials")
    ∷ ((".kube" ∷ []), "Kubernetes credentials")
    ∷ ((".docker" ∷ "config.json" ∷ []), "Docker registry credentials")
    ∷ ((".netrc" ∷ []), "netrc passwords")
    ∷ ((".npmrc" ∷ []), "npm tokens")
    ∷ ((".pypirc" ∷ []), "PyPI tokens")
    ∷ ((".cargo" ∷ "credentials" ∷ []), "crates.io tokens")
    ∷ ((".cargo" ∷ "credentials.toml" ∷ []), "crates.io tokens")
    ∷ ((".git-credentials" ∷ []), "git stored passwords")
    ∷ ((".password-store" ∷ []), "pass(1) password store")
    ∷ ((".gitconfig" ∷ []), "git config may embed credentials")
    ∷ ((".mozilla" ∷ []), "Firefox profile (cookies, passwords)")
    ∷ ((".thunderbird" ∷ []), "Thunderbird profile")
    ∷ ((".config" ∷ "google-chrome" ∷ []), "Chrome profile (cookies, passwords)")
    ∷ ((".config" ∷ "chromium" ∷ []), "Chromium profile (cookies, passwords)")
    ∷ ((".config" ∷ "BraveSoftware" ∷ []), "Brave profile (cookies, passwords)")
    ∷ (("Library" ∷ "Keychains" ∷ []), "macOS keychains")
    ∷ (("Library" ∷ "Cookies" ∷ []), "macOS cookies")
    ∷ (("Library" ∷ "Safari" ∷ []), "Safari browsing data")
    ∷ (
      ("Library" ∷ "Application Support" ∷ "Google" ∷ "Chrome" ∷ []),
      "Chrome profile (cookies, passwords)",
    )
    ∷ (("Library" ∷ "Application Support" ∷ "Firefox" ∷ []), "Firefox profile (cookies, passwords)")
    ∷ (
      ("Library" ∷ "Application Support" ∷ "BraveSoftware" ∷ []),
      "Brave profile (cookies, passwords)",
    )
    ∷ ((".claude" ∷ []), "Claude Code credentials and state")
    ∷ ((".openai" ∷ []), "OpenAI credentials")
    ∷ ((".anthropic" ∷ []), "Anthropic credentials")
    ∷ []

unfoldable pub known_risky_paths : Route → Route → List (Route × String)
unfolding home_relative_risks
known_risky_paths home state_dir =
    map (λ r. (home ++ r.0, r.1)) home_relative_risks
    ++ ((state_dir, "llmdevsilo state (journals, frontend keys, harness credentials)") ∷ [])

-- The config error: the entries with what each exposes, or the journal and the entry that shows it.
pub data Refusal : Type 0 where
  risky_entries : List (Route × RiskHit) → Refusal
  readable_journal : Route → Route → Refusal

pub data Validated (A : Type 0) : Type 0 where
  accepted : A → Validated A
  refused : Refusal → Validated A

-- The two paths are equal, or one contains the other.
abbrev pub overlaps : Route → Route → Bool
overlaps a b = starts_with a b || starts_with b a

abbrev pub listed : Route → List Route → Bool
listed path paths = any (λ other. other == path) paths

module _ (canonicalize : Route → Option Route) (exists : Route → Bool) where
  -- `normalize_path`, of the components from the last one to the root. A last component `..` is not a
  -- file name: such a path is returned as it is.
  abbrev pub normalize_back : List String → Route
  normalize_back [] = elim (canonicalize []) [ some real ↦ real | none ↦ [] ]
  normalize_back (name ∷ parent) =
      let above = normalize_back parent in
      elim (canonicalize (reverse (name ∷ parent))) [
        | some real ↦ real
        | none ↦
            if is_empty parent || name == ".."
            then reverse (name ∷ parent)
            else above ++ (name ∷ [])
      ]

  unfoldable pub normalize_path : Route → Route
  normalize_path path = normalize_back (reverse path)

  unfoldable pub hits_of : Route → List (Route × String) → List RiskHit
  unfolding normalize_path
  hits_of entry [] = []
  hits_of entry ((risky, reason) ∷ rest) =
      let more = hits_of entry rest in
      if exists risky && overlaps (normalize_path risky) entry
      then record { path = normalize_path risky; reason = reason } ∷ more
      else more

  unfoldable pub scan_allowlist_entry : Route → Route → Route → List RiskHit
  unfolding hits_of known_risky_paths
  scan_allowlist_entry entry home state_dir =
      hits_of (normalize_path entry) (known_risky_paths home state_dir)

  unfoldable pub scan_allowlist : List Route → Route → Route → List (Route × RiskHit)
  unfolding scan_allowlist_entry
  scan_allowlist [] home state_dir = []
  scan_allowlist (entry ∷ entries) home state_dir =
      map (λ hit. (entry, hit)) (scan_allowlist_entry entry home state_dir)
      ++ scan_allowlist entries home state_dir

  -- The overrides that match no entry, or what is refused.
  unfoldable pub validate_read_allowlist :
      List Route → Route → Route → List Route → Validated (List Route)
  unfolding scan_allowlist
  validate_read_allowlist entries home state_dir allow_risky =
      let overrides = map normalize_path allow_risky in
      let lines =
        keep (λ x. not (listed (normalize_path x.0) overrides))
          (scan_allowlist entries home state_dir) in
      if is_empty lines
      then accepted (
          keep (λ path. not (listed (normalize_path path) (map normalize_path entries)))
            allow_risky)
      else refused (risky_entries lines)

  -- `journal_dir`, by the parent of the journal's path, where it has one that is not empty.
  unfoldable pub journal_dir : Route → Option Route → Route
  unfolding normalize_path
  journal_dir journal_path none = normalize_path journal_path
  journal_dir journal_path (some parent) =
      if is_empty parent then normalize_path journal_path else normalize_path parent

  unfoldable pub validate_journal_path : Route → Option Route → List Route → Validated Unit
  unfolding journal_dir
  validate_journal_path journal_path parent [] = accepted tt
  validate_journal_path journal_path parent (entry ∷ rest) =
      let later = validate_journal_path journal_path parent rest in
      if overlaps (normalize_path entry) (journal_dir journal_path parent)
      then refused (readable_journal journal_path (normalize_path entry))
      else later
