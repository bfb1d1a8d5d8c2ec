-- ===== src/Proxy/Credentials/Injection.antt =====
-- credentials.rs: what a request leaves with, and what the store is built from.
use llmdevsilo.Prelude.{
  ◌≡◌, refl, ◌≢◌, inl, inr, Bool, true, false, List, [], ◌∷◌, Option, none, some, Text, arith, ◌==◌,
  list_beq_iff, list_eq, nat_eq, Exists, Option-cases, any, ◌↔◌, if◌then◌else◌, ◌||◌, is_some,
}
use llmdevsilo.Proxy.Allowlist.{normalize_host}
use llmdevsilo.Proxy.Outside.{Headers}
use llmdevsilo.Proxy.Credentials.{
  CredentialInjection, Resolved, CredentialStore, Setup, ok, err, get, put, read_secret, insert_all,
  from_settings, has_host, fill, apply,
}

module _ (H : Headers) where
  open H use {
    HeaderMap, get_all, header_name, header_value, get_all-remove, get_all-remove_ne,
    get_all-insert, get_all-insert_ne,
  }

  -- The values of a header that is set to a text, if the text is a legal value.
  abbrev pub values_of : Option Text → List Text
  values_of none = []
  values_of (some value) = value ∷ []

  -- Where a credential is configured under the header `name`: the request leaves with the filled
  -- template as the only value of that header, or, where that is no legal header value, without the
  -- header. What the client sent under it never leaves, the other headers stay, and the result says
  -- whether the credential was injected.
  pub apply-get_all :
      (store : CredentialStore) (host : Text) (headers : HeaderMap) (resolved : Resolved)
      (name other : Text)
      → get (normalize_host host) store.by_host ≡ some resolved
      → header_name resolved.header ≡ some name
      → name ≢ other
      → (get_all (apply H store host headers).0 name ≡ values_of (header_value (fill resolved)))
        × (get_all (apply H store host headers).0 other ≡ get_all headers other)
        × ((apply H store host headers).1 ≡ is_some (header_value (fill resolved)))
  unfolding apply
  apply-get_all store host headers resolved name other e n ne =
      go (header_value (fill resolved)) refl
    where
      go :
          (o : Option Text)
          → header_value (fill resolved) ≡ o
          → (get_all (apply H store host headers).0 name ≡ values_of o)
            × (get_all (apply H store host headers).0 other ≡ get_all headers other)
            × ((apply H store host headers).1 ≡ is_some o)
      go none v = (
        ground (arith, get_all-remove name headers),
        ground (arith, get_all-remove_ne name other headers ne),
        ground arith,
      )
      go (some value) v = (
        ground (arith, get_all-insert name value (H.remove name headers)),
        ground (
          arith,
          get_all-insert_ne name other value (H.remove name headers) ne,
          get_all-remove_ne name other headers ne,
        ),
        ground arith,
      )

  -- A host without a credential: the headers are untouched, and nothing counts as injected.
  pub apply-no_host :
      (store : CredentialStore) (host : Text) (headers : HeaderMap)
      → has_host store host ≡ false
      → apply H store host headers ≡ (headers, false)
  unfolding apply has_host
  apply-no_host store host headers h = ground arith

get-put :
    (k j : Text) (r : Resolved) (m : List (Text × Resolved))
    → get j (put k r m) ≡ (if k == j then some r else get j m)
unfolding get put
get-put k j r [] = refl
get-put k j r ((i, q) ∷ m) =
    ground (arith, list_beq_iff i k, list_beq_iff i j, list_beq_iff k j, get-put k j r m)

abbrev pub is_ok {ℓ} : {A : Type ℓ} → Setup A → Bool
is_ok (ok a) = true
is_ok (err e) = false

-- The credentials that are for a host.
abbrev pub is_for : Text → CredentialInjection → Bool
is_for host injection = normalize_host injection.host == normalize_host host

is_some-get-insert_all :
    (env : Text → Option Text) (k : Text) (cs : List CredentialInjection)
    (m m' : List (Text × Resolved))
    → insert_all env cs m ≡ ok m'
    → is_some (get k m') ≡ any (λ c. normalize_host c.host == k) cs || is_some (get k m)
unfolding insert_all read_secret
is_some-get-insert_all env k [] m m' h = ground arith
is_some-get-insert_all env k (c ∷ cs) m m' h = elim (Option-cases (env c.value_env)) [
  | inl e ↦ ground arith
  | inr (value, e) ↦
      let r : Resolved = record { header = c.header; format = c.format; secret = value } in
      ground (
        arith,
        is_some-get-insert_all env k cs (put (normalize_host c.host) r m) m',
        get-put (normalize_host c.host) k r m,
      )
]

insert_all_fails :
    (env : Text → Option Text) (cs : List CredentialInjection) (m : List (Text × Resolved))
    → (is_ok (insert_all env cs m) ≡ false) ↔ Exists (λ c. env c.value_env ≡ none) cs
unfolding insert_all read_secret
insert_all_fails env [] m = (λ h. cc, λ h. absurd h)
insert_all_fails env (c ∷ cs) m = elim (Option-cases (env c.value_env)) [
  | inl e ↦ (λ h. inl e, λ h. ground arith)
  | inr (value, e) ↦
      let r : Resolved = record { header = c.header; format = c.format; secret = value } in
      ground (arith, insert_all_fails env cs (put (normalize_host c.host) r m))
]

-- The store fails to be built exactly when a named variable is not set.
pub from_settings_fails :
    (env : Text → Option Text) (cs : List CredentialInjection)
    → (is_ok (from_settings env cs) ≡ false) ↔ Exists (λ c. env c.value_env ≡ none) cs
unfolding from_settings
from_settings_fails env cs = (
  λ h. (insert_all_fails env cs []).0 (ground arith),
  λ x. ground (arith, (insert_all_fails env cs []).1 x),
)

-- In a store that is built, a host has a credential exactly when one is configured for it, both
-- names normalized.
pub has_host-from_settings :
    (env : Text → Option Text) (cs : List CredentialInjection) (store : CredentialStore)
    (host : Text)
    → from_settings env cs ≡ ok store
    → has_host store host ≡ any (is_for host) cs
unfolding from_settings has_host get
has_host-from_settings env cs store host h =
    ground (arith, is_some-get-insert_all env (normalize_host host) cs [] store.by_host)
