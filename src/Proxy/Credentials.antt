-- ===== src/Proxy/Credentials.antt =====
-- crates/silo-proxy/src/credentials.rs: which header the proxy sets for which host. The map from
-- hosts is an association list, and the environment a function.
pub mod Injection
use llmdevsilo.Prelude.{
  ℕ, zero, suc, ◌-◌, ◌≡◌, Bool, true, false, List, [], ◌∷◌, ◌++◌, Option, none, some, Text, codes,
  ◌==◌, list_eq, nat_eq, strip_prefix, if◌then◌else◌, length,
}
use llmdevsilo.Proxy.Allowlist.{normalize_host}
use llmdevsilo.Proxy.Outside.{Headers}

-- silo-core, secrets.rs.
pub record CredentialInjection : Type 0 where
  pub host : Text
  pub header : Text
  pub value_env : Text
  pub format : Text

pub record Resolved : Type 0 where
  pub header : Text
  pub format : Text
  pub secret : Text

pub record CredentialStore : Type 0 where
  pub by_host : List (Text × Resolved)

pub data SetupError : Type 0 where
  -- The host and the variable that the message names.
  missing_variable : Text → Text → SetupError

pub data Setup {ℓ} (A : Type ℓ) : Type ℓ where
  ok : A → Setup A
  err : SetupError → Setup A

-- `HashMap::get` and `HashMap::insert`.
unfoldable pub get : Text → List (Text × Resolved) → Option Resolved
get k [] = none
get k ((j, r) ∷ m) = if j == k then some r else get k m

unfoldable pub put : Text → Resolved → List (Text × Resolved) → List (Text × Resolved)
put k r [] = (k, r) ∷ []
put k r ((j, q) ∷ m) = if j == k then (k, r) ∷ m else (j, q) ∷ put k r m

unfoldable pub read_secret : (Text → Option Text) → CredentialInjection → Setup Text
read_secret env injection = elim (env injection.value_env) [
  | some value ↦ ok value
  | none ↦ err (missing_variable injection.host injection.value_env)
]

-- The loop of `from_settings`.
unfoldable pub insert_all :
    (Text → Option Text)
    → List CredentialInjection
    → List (Text × Resolved)
    → Setup (List (Text × Resolved))
insert_all env [] by_host = ok by_host
insert_all env (injection ∷ rest) by_host = elim (read_secret env injection) [
  | ok value ↦ insert_all env rest (
      put (normalize_host injection.host)
        (record { header = injection.header; format = injection.format; secret = value }) by_host)
  | err e ↦ err e
]

unfoldable pub from_settings :
    (Text → Option Text) → List CredentialInjection → Setup CredentialStore
unfolding insert_all
from_settings env credentials = elim (insert_all env credentials []) [
  | ok by_host ↦ ok (record { by_host = by_host })
  | err e ↦ err e
]

unfoldable pub has_host : CredentialStore → Text → Bool
unfolding get
has_host store host = elim (get (normalize_host host) store.by_host) [
  | some _ ↦ true
  | none ↦ false
]

-- `str::replace`: the pattern is sought from left to right, and `skip` characters of the last
-- match are still to be passed over.
unfoldable pub replace_from : ℕ → Text → Text → Text → Text
replace_from skip pattern sub [] = []
replace_from (suc skip) pattern sub (c ∷ s) = replace_from skip pattern sub s
replace_from zero pattern sub (c ∷ s) = elim (strip_prefix pattern (c ∷ s)) [
  | some _ ↦ sub ++ replace_from (length pattern - 1) pattern sub s
  | none ↦ c ∷ replace_from zero pattern sub s
]

unfoldable pub fill : Resolved → Text
unfolding replace_from strip_prefix
fill resolved = replace_from 0 (codes "{secret}") resolved.secret resolved.format

module _ (H : Headers) where
  open H use {HeaderMap, remove, insert, header_name, header_value}

  -- The new headers, and whether a credential was injected.
  unfoldable pub apply : CredentialStore → Text → HeaderMap → HeaderMap × Bool
  apply store host headers = elim (get (normalize_host host) store.by_host) [
    | none ↦ (headers, false)
    | some resolved ↦ elim (header_name resolved.header) [
      | none ↦ (headers, false)
      | some name ↦ elim (header_value (fill resolved)) [
        | some value ↦ (insert name value (remove name headers), true)
        | none ↦ (remove name headers, false)
      ]
    ]
  ]
