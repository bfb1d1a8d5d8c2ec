-- ===== src/Proxy/Examples.antt =====
-- Tests and witnesses for upstream.rs, credentials.rs, proxy.rs and dns.rs.
use mathlib.Core.List.{reverse-append}
use llmdevsilo.Prelude.{
  ℕ, ap, ◌∙◌, reverse, to_lower, arith, ◌≡◌, refl, ◌↔◌, inl, inr, true, false, List, [], ◌∷◌, ◌++◌,
  map, Option, none, some, Text, codes, All, Exists, any, if◌then◌else◌, strip_prefix,
}
use llmdevsilo.Proxy.IpGuard.{v4, new, check, is_blocked, check_v4}
use llmdevsilo.Proxy.Allowlist.{allows, normalize_host, DomainAllowlist}
use llmdevsilo.Proxy.Allowlist as Allowlist
use llmdevsilo.Proxy.Outside.{Network, SocketAddr, table_headers}
use llmdevsilo.Proxy.Credentials.{
  CredentialInjection, Resolved, CredentialStore, get, put, read_secret, fill, apply, from_settings,
  has_host,
}
use llmdevsilo.Proxy.Credentials.Injection.{
  values_of, is_ok, is_for, apply-get_all, from_settings_fails, has_host-from_settings,
}
use llmdevsilo.Proxy.Upstream.{UpstreamConnector, resolve, connect_tcp, connect_tls}
use llmdevsilo.Proxy.Upstream.Dialled.{Permits, is_block, connect-Permits, connect_tcp-blocked}
use llmdevsilo.Proxy.Target.{parse_u16, split_host_port, read_request_head}
use llmdevsilo.Proxy.Target.Head.{IsHead, read_request_head-IsHead}
use llmdevsilo.Proxy.Target.Authority.{split_host_port_forms}
use llmdevsilo.Proxy.Serve.{World, ProxyState, Request, serve_connection, serve_inner_http}
use llmdevsilo.Proxy.Serve.Policy.{IsSafe, serve_connection-IsSafe}
use llmdevsilo.Proxy.Serve.Records.{line, records, records-serve_inner_http}
use llmdevsilo.Proxy.Dns.{a, Query, DnsRequest, DnsFilter, handle_query, no_error, nx_domain}
use llmdevsilo.Proxy.Dns.Answers.{asks_for, NoDotEnd, handle_query-answers}

abbrev public_addr : SocketAddr
public_addr = record { ip = v4 (record { o0 = 203; o1 = 0; o2 = 113; o3 = 7 }); port = 443 }

abbrev private_addr : SocketAddr
private_addr = record { ip = v4 (record { o0 = 10; o1 = 0; o2 = 0; o3 = 1 }); port = 443 }

abbrev network : Network
network = record {
  lookup_host = λ host port. some (public_addr ∷ private_addr ∷ []);
  tcp_connect = λ addr. true;
  tls_connect = λ host. true;
  tls_accept = true;
  write_ok = true;
  parse_ip = λ host. none;
}

abbrev world : World
world = record {
  headers = table_headers;
  net = network;
  to_str = λ v. some v;
  exchange = λ addr headers. some (200, 12);
}

abbrev connector : UpstreamConnector
connector = record { guard = new; resolver_overrides = (codes "docs.rs", public_addr) ∷ [] }

abbrev injection : CredentialInjection
injection = record {
  host = codes "Docs.rs.";
  header = codes "authorization";
  value_env = codes "TOKEN";
  format = codes "Bearer {secret}";
}

abbrev resolved : Resolved
resolved = record {
  header = codes "authorization";
  format = codes "Bearer {secret}";
  secret = codes "s3";
}

abbrev store : CredentialStore
store = record { by_host = (codes "docs.rs", resolved) ∷ [] }

abbrev env : Text → Option Text
env name = some (codes "s3")

abbrev state : ProxyState
state = record {
  allowlist = Allowlist.new (codes "docs.rs" ∷ codes "*.evil.com" ∷ []);
  credentials = store;
  upstream = connector;
}

abbrev request : Request (Text → List Text)
request = record {
  method = codes "GET";
  path = codes "/";
  headers = λ name. [];
  body_len = 0;
  is_valid = true;
}

abbrev head : Text
head = codes "CONNECT docs.rs:443 HTTP/1.1" ++ (13 ∷ 10 ∷ 13 ∷ 10 ∷ [])

filled : fill resolved ≡ codes "Bearer s3"
unfolding fill
filled = refl

connect-Permits_example :
    All (Permits new) (connect_tcp network connector (codes "docs.rs") 443).0
    × All (Permits new) (connect_tls network connector (codes "docs.rs") 443).0
connect-Permits_example = connect-Permits network connector (codes "docs.rs") 443

connect_tcp-blocked_example :
    ((connect_tcp network connector (codes "x.evil.com") 443).0 ≡ [])
    × (is_block (connect_tcp network connector (codes "x.evil.com") 443).1 ≡ true)
unfolding resolve check check_v4 normalize_host
connect_tcp-blocked_example =
    connect_tcp-blocked network connector (codes "x.evil.com") 443 (public_addr ∷ private_addr ∷ [])
      refl (inr (inl refl))

apply-get_all_example :
    (apply table_headers store (codes "DOCS.rs") request.headers).0 (codes "authorization")
      ≡ values_of table_headers (some (fill resolved))
    × (apply table_headers store (codes "DOCS.rs") request.headers).0 (codes "accept") ≡ []
    × (apply table_headers store (codes "DOCS.rs") request.headers).1 ≡ true
unfolding get normalize_host
apply-get_all_example =
    apply-get_all table_headers store (codes "DOCS.rs") request.headers resolved
      (codes "authorization") (codes "accept") refl refl (λ e. cc)

from_settings_fails_example :
    (is_ok (from_settings env (injection ∷ [])) ≡ false)
    ↔ Exists (λ c. env c.value_env ≡ none) (injection ∷ [])
from_settings_fails_example = from_settings_fails env (injection ∷ [])

has_host-from_settings_example :
    has_host store (codes "docs.rs") ≡ any (is_for (codes "docs.rs")) (injection ∷ [])
unfolding from_settings read_secret put normalize_host
has_host-from_settings_example =
    has_host-from_settings env (injection ∷ []) store (codes "docs.rs") refl

split_host_port_forms_example :
    (split_host_port (codes "::1" ++ (b':' ∷ codes "443")) 80 ≡ (codes "::1", 443))
    × (split_host_port (b'[' ∷ (codes "::1" ++ (b']' ∷ b':' ∷ codes "443"))) 80
        ≡ (codes "::1", 443))
    × (split_host_port (b'[' ∷ (codes "::1" ++ (b']' ∷ []))) 80 ≡ (codes "::1", 80))
unfolding parse_u16 strip_prefix
split_host_port_forms_example =
    split_host_port_forms (codes "::1") (codes "443") 443 80 refl refl (refl, (refl, (refl, tt)))

read_request_head-IsHead_example : IsHead head head
unfolding read_request_head
read_request_head-IsHead_example = read_request_head-IsHead head head refl

serve_connection-IsSafe_example :
    All (IsSafe world state) (serve_connection world state head (request ∷ []))
serve_connection-IsSafe_example = serve_connection-IsSafe world state head (request ∷ [])

records-serve_inner_http_example :
    map
      (line world state)
      (records world state (serve_inner_http world state (codes "docs.rs") 443 true (request ∷ [])))
    ≡ (codes "docs.rs", 443, some (codes "GET"), some (codes "/")) ∷ []
records-serve_inner_http_example =
    records-serve_inner_http world state (codes "docs.rs") 443 true (request ∷ [])

abbrev filter : DnsFilter
filter = record { allowlist = Allowlist.new (codes "*.evil.com" ∷ []); guard = new }

abbrev query : Query
query = record { name = codes "a.evil.com."; query_type = a }

abbrev head_code : Text → ℕ
head_code [] = 0
head_code (c ∷ text) = c

abbrev asked : DnsRequest
asked = record { id = 7; recursion_desired = true; queries = query ∷ [] }

host-NoDotEnd : NoDotEnd (codes "a.evil.com")
host-NoDotEnd front e =
    let d = ap head_code (ap reverse e ∙ reverse-append front (b'.' ∷ [])) in omega (arith, d)

handle_query-answers_example :
    (Exists
        (λ x. x ≡ private_addr.ip)
        (handle_query filter (λ host. private_addr.ip ∷ []) asked).0.answers
      ↔ ((allows filter.allowlist (map to_lower (codes "a.evil.com")) ≡ true)
          × (is_blocked new private_addr.ip ≡ false)
          × (asks_for a private_addr.ip ≡ true)
          × Exists (λ x. x ≡ private_addr.ip) (private_addr.ip ∷ [])))
    × ((handle_query filter (λ host. private_addr.ip ∷ []) asked).0.response_code ≡ (
        if allows filter.allowlist (map to_lower (codes "a.evil.com"))
        then no_error
        else nx_domain))
handle_query-answers_example =
    handle_query-answers filter (λ host. private_addr.ip ∷ []) asked query [] private_addr.ip
      (codes "a.evil.com") 1 refl refl host-NoDotEnd
