-- ===== src/Proxy/Dns.antt =====
-- crates/silo-proxy/src/dns.rs: the policy of the DNS filter, on messages that hickory has parsed
-- and before it encodes them. The resolver is an argument.
pub mod Answers
use llmdevsilo.Prelude.{
  ℕ, suc, ◌+◌, Bool, true, false, not, List, [], ◌∷◌, ◌++◌, map, reverse, Option, none, some, Text,
  String, codes, ◌==◌, nat_eq, list_eq, eqb, if◌then◌else◌, to_lower, length,
}
use llmdevsilo.Core.Journal.{NetworkRecord, network_record}
use llmdevsilo.Proxy.IpGuard.{IpGuard, IpAddr, v4, v6, Ipv4Addr, Ipv6Addr, is_blocked}
use llmdevsilo.Proxy.Allowlist.{DomainAllowlist, allows}

pub data RecordType : Type 0 where
  a aaaa : RecordType
  other : ℕ → RecordType

pub data ResponseCode : Type 0 where
  no_error nx_domain form_err : ResponseCode

pub record Query : Type 0 where
  -- `query.name().to_ascii()`.
  pub name : Text
  pub query_type : RecordType

pub record DnsRequest : Type 0 where
  pub id : ℕ
  pub recursion_desired : Bool
  pub queries : List Query

pub record DnsResponse : Type 0 where
  pub id : ℕ
  pub recursion_desired : Bool
  pub queries : List Query
  pub answers : List IpAddr
  pub response_code : ResponseCode

pub record DnsFilter : Type 0 where
  pub allowlist : DomainAllowlist
  pub guard : IpGuard

-- `name.trim_end_matches('.')`, on the reversed name.
unfoldable pub drop_dots : Text → Text
drop_dots [] = []
drop_dots (c ∷ s) = elim (eqb c b'.') [ true ↦ drop_dots s | false ↦ c ∷ s ]

unfoldable pub query_host : Query → Text
unfolding drop_dots to_lower
query_host query = map to_lower (reverse (drop_dots (reverse query.name)))

-- `match (want_v4, addr)`.
abbrev pub wanted : Bool → IpAddr → Bool
wanted true (v4 _) = true
wanted false (v6 _) = true
wanted _ _ = false

-- The loop over the resolved addresses.
unfoldable pub permitted : IpGuard → Bool → List IpAddr → List IpAddr
permitted guard want_v4 [] = []
permitted guard want_v4 (addr ∷ addrs) =
    let rest = permitted guard want_v4 addrs in
    if is_blocked guard addr then rest else if wanted want_v4 addr then addr ∷ rest else rest

abbrev pub dns_block : Text → NetworkRecord
dns_block host = record (network_record host 53) {
  method = some (codes "DNS");
  note = some "domain not allowlisted";
}

-- The note repeats the number of answers and is left out.
abbrev pub dns_answer : Text → ℕ → NetworkRecord
dns_answer host answered = record (network_record host 53) {
  method = some (codes "DNS");
  bytes_received = answered;
  allowed = true;
}

-- The fields that are set before the first query is looked at.
abbrev pub respond : DnsRequest → List IpAddr → ResponseCode → DnsResponse
respond request answers code = record {
  id = request.id;
  recursion_desired = request.recursion_desired;
  queries = request.queries;
  answers = answers;
  response_code = code;
}

abbrev is_v4 : RecordType → Option Bool
is_v4 a = some true
is_v4 aaaa = some false
is_v4 (other _) = none

-- The part of `handle_query` for an allowlisted host.
unfoldable pub answer :
    DnsFilter
    → (Text → List IpAddr)
    → DnsRequest
    → Text
    → RecordType
    → DnsResponse × List NetworkRecord
unfolding permitted
answer filter resolve request host query_type = elim (is_v4 query_type) [
  | none ↦ (respond request [] no_error, [])
  | some want_v4 ↦
      let answers = permitted filter.guard want_v4 (resolve host) in
      (respond request answers no_error, dns_answer host (length answers) ∷ [])
]

-- The response, and what is appended to the journal.
unfoldable pub handle_query :
    DnsFilter → (Text → List IpAddr) → DnsRequest → DnsResponse × List NetworkRecord
unfolding query_host answer
handle_query filter resolve request = elim request.queries [
  | [] ↦ (respond request [] form_err, [])
  | query ∷ _ ↦
      if not (allows filter.allowlist (query_host query))
      then (respond request [] nx_domain, dns_block (query_host query) ∷ [])
      else answer filter resolve request (query_host query) query.query_type
]
