-- ===== src/Proxy/Allowlist.antt =====
-- crates/silo-proxy/src/allowlist.rs: the domain allowlist. Host names are texts.
pub mod Matching
pub mod Spelling
mod Examples
use llmdevsilo.Prelude.{
  Bool, true, false, ◌||◌, List, [], ◌∷◌, map, Option, none, some, ◌==◌, nat_eq, list_eq, Text,
  codes, to_lower, strip_prefix, strip_suffix, any, is_empty,
}

-- `host.strip_suffix('.').unwrap_or(host)`.
unfoldable pub trim_dot : Text → Text
unfolding strip_suffix strip_prefix
trim_dot host = elim (strip_suffix (codes ".") host) [ some trimmed ↦ trimmed | none ↦ host ]

unfoldable pub normalize_host : Text → Text
unfolding trim_dot to_lower
normalize_host host = map to_lower (trim_dot host)

pub data Entry : Type 0 where
  exact : Text → Entry
  wildcard : Text → Entry

pub record DomainAllowlist : Type 0 where
  pub entries : List Entry

-- One round of the loop in `DomainAllowlist::new`.
unfoldable pub entry_of : Text → Entry
unfolding normalize_host strip_prefix
entry_of raw =
    let normalized = normalize_host raw in
    elim (strip_prefix (codes "*.") normalized) [
      | some suffix ↦ wildcard suffix
      | none ↦ exact normalized
    ]

unfoldable pub new : List Text → DomainAllowlist
unfolding entry_of
new domains = record { entries = map entry_of domains }

-- `prefix.ends_with('.')`.
unfoldable pub ends_with_dot : Text → Bool
unfolding strip_suffix strip_prefix
ends_with_dot prefix = elim (strip_suffix (codes ".") prefix) [ some _ ↦ true | none ↦ false ]

-- `host.strip_suffix(suffix).map(|prefix| prefix.ends_with('.')).unwrap_or(false)`.
unfoldable pub below_dot : Text → Text → Bool
unfolding strip_suffix strip_prefix ends_with_dot
below_dot suffix host = elim (strip_suffix suffix host) [
  | some prefix ↦ ends_with_dot prefix
  | none ↦ false
]

unfoldable pub entry_allows : Text → Entry → Bool
unfolding below_dot
entry_allows host (exact name) = name == host
entry_allows host (wildcard suffix) = host == suffix || below_dot suffix host

unfoldable pub allows : DomainAllowlist → Text → Bool
unfolding normalize_host entry_allows
allows list host = any (entry_allows (normalize_host host)) list.entries

unfoldable pub no_entries : DomainAllowlist → Bool
no_entries list = is_empty list.entries
