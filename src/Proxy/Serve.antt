-- ===== src/Proxy/Serve.antt =====
-- crates/silo-proxy/src/proxy.rs: the policy of a connection, and what a connection does, as the
-- list of its actions. What hyper parses (the requests inside a connection) and the answers of the
-- upstream host are arguments.
pub mod Policy
pub mod Records
use llmdevsilo.Prelude.{
  ℕ, Bool, true, false, not, ◌||◌, List, [], ◌∷◌, ◌++◌, map, Option, none, some, Text, String,
  codes, ◌==◌, list_eq, nat_eq, if◌then◌else◌, strip_prefix, is_some, is_empty, to_lower,
}
use llmdevsilo.Core.Journal.{NetworkRecord, network_record}
use llmdevsilo.Proxy.IpGuard.{IpAddr, is_blocked, v4, v6}
use llmdevsilo.Proxy.Allowlist.{DomainAllowlist, allows}
use llmdevsilo.Proxy.Credentials.{CredentialStore, apply}
use llmdevsilo.Proxy.Outside.{Headers, Network, SocketAddr}
use llmdevsilo.Proxy.Upstream.{
  UpstreamConnector, UpstreamError, blocked, resolve_failed, connect_failed, tls_failed, Outcome,
  ok, err, connect_tcp, connect_tls,
}
use llmdevsilo.Proxy.Target.{parse_request_line, split_host_port, split_once}

pub record ProxyState : Type 0 where
  pub allowlist : DomainAllowlist
  pub credentials : CredentialStore
  pub upstream : UpstreamConnector

pub record Request (HeaderMap : Type 0) : Type 0 where
  pub method : Text
  pub path : Text
  pub headers : HeaderMap
  pub body_len : ℕ
  -- Whether `http::Request::builder` accepts the method and the target.
  pub is_valid : Bool

-- What is visible outside: a record in the journal, a status to the client, an address dialled for
-- a host, and a request head sent to a host.
pub data Action (HeaderMap : Type 0) : Type 0 where
  journal : NetworkRecord → Action HeaderMap
  reply : ℕ → Action HeaderMap
  dial : Text → SocketAddr → Action HeaderMap
  send : Text → HeaderMap → Action HeaderMap

pub record Response : Type 0 where
  pub status : ℕ
  pub sent : ℕ
  pub received : ℕ
  pub injected : Bool

-- `s.contains(pattern)`.
unfoldable pub contains_text : Text → Text → Bool
unfolding strip_prefix
contains_text pattern [] = is_some (strip_prefix pattern [])
contains_text pattern (c ∷ s) = is_some (strip_prefix pattern (c ∷ s)) || contains_text pattern s

-- The journal's note for a rejection, or `none` where the host may proceed.
unfoldable pub host_policy : (Text → Option IpAddr) → ProxyState → Text → Option String
host_policy parse_ip state host =
    if not (allows state.allowlist host)
    then some "domain not allowlisted"
    else elim (parse_ip host) [
      | some ip ↦ if is_blocked state.upstream.guard ip then some "blocked address" else none
      | none ↦ none
    ]

abbrev pub blocked_record : Text → ℕ → String → NetworkRecord
blocked_record host port note = record (network_record host port) { note = some note }

abbrev pub request_record : Text → ℕ → Text → Text → NetworkRecord
request_record host port method path = record (network_record host port) {
  method = some method;
  path = some path;
}

abbrev pub error_note : UpstreamError → String
error_note (blocked _ _) = "blocked address"
error_note resolve_failed = "resolve failed"
error_note connect_failed = "connect failed"
error_note tls_failed = "upstream tls failed"

-- `!matches!(err, UpstreamError::Blocked(_))`.
abbrev pub not_blocked : UpstreamError → Bool
not_blocked (blocked _ _) = false
not_blocked _ = true

-- What the proxy uses of the outside: header maps, the network, `HeaderValue::to_str`, and the
-- answer of an upstream host to a request head, `none` where the exchange fails.
pub record World : Type 1 where
  pub headers : Headers
  pub net : Network
  pub to_str : Text → Option Text
  pub exchange : SocketAddr → headers.HeaderMap → Option (ℕ × ℕ)

module _ (w : World) where
  open w use {
    net,
    to_str,
    exchange,
    headers.{HeaderMap, get_all, insert, header_value},
    net.{tls_accept, write_ok, parse_ip},
  }

  -- `headers.get(CONNECTION)` is the first value of that name.
  unfoldable pub connection_upgrade : List Text → Bool
  unfolding contains_text to_lower
  connection_upgrade [] = false
  connection_upgrade (v ∷ vs) = elim (to_str v) [
    | some s ↦ contains_text (codes "upgrade") (map to_lower s)
    | none ↦ false
  ]

  unfoldable pub is_upgrade : HeaderMap → Bool
  unfolding connection_upgrade
  is_upgrade headers =
      not (is_empty (get_all headers (codes "upgrade")))
      || connection_upgrade (get_all headers (codes "connection"))

  abbrev host_value : Text → Text
  host_value host = elim (header_value host) [ some v ↦ v | none ↦ [] ]

  -- The headers that leave, and whether a credential is among them.
  unfoldable pub rewrite : ProxyState → Text → HeaderMap → HeaderMap × Bool
  rewrite state host headers = (
    insert (codes "host") (host_value host) (apply w.headers state.credentials host headers).0,
    (apply w.headers state.credentials host headers).1,
  )

  abbrev connect : ProxyState → Text → ℕ → Bool → List SocketAddr × Outcome SocketAddr
  connect state host port true = connect_tls net state.upstream host port
  connect state host port false = connect_tcp net state.upstream host port

  -- `send_over` on an established connection.
  unfoldable pub send_over :
      Text → SocketAddr → HeaderMap × Bool → ℕ → List (Action HeaderMap) × Outcome Response
  send_over host addr out sent = elim (exchange addr out.0) [
    | some (status, received) ↦ (
      send host out.0 ∷ [],
      ok (record { status = status; sent = sent; received = received; injected = out.1 }),
    )
    | none ↦ (send host out.0 ∷ [], err connect_failed)
  ]

  abbrev after_connect :
      Text
      → List SocketAddr × Outcome SocketAddr
      → HeaderMap × Bool
      → ℕ
      → List (Action HeaderMap) × Outcome Response
  after_connect host (dialled, ok addr) out sent = (
    map (dial host) dialled ++ (send_over host addr out sent).0,
    (send_over host addr out sent).1,
  )
  after_connect host (dialled, err e) out sent = (map (dial host) dialled, err e)

  unfoldable pub forward_request :
      ProxyState → Text → ℕ → Bool → Request HeaderMap → List (Action HeaderMap) × Outcome Response
  unfolding rewrite send_over
  forward_request state host port secure req =
      if req.is_valid
      then after_connect host (connect state host port secure) (rewrite state host req.headers)
          req.body_len
      else ([], err connect_failed)

  -- The journal record and the reply at the end of `handle_inner`.
  abbrev finish : NetworkRecord → Outcome Response → List (Action HeaderMap)
  finish r (ok response) =
      journal (record r {
        status = some response.status;
        bytes_sent = response.sent;
        bytes_received = response.received;
        allowed = true;
        credential_injected = response.injected;
      })
      ∷ reply response.status
      ∷ []
  finish r (err e) =
      journal (record r { allowed = not_blocked e; note = some (error_note e) }) ∷ reply 502 ∷ []

  unfoldable pub handle_inner :
      ProxyState → Text → ℕ → Bool → Request HeaderMap → List (Action HeaderMap)
  unfolding is_upgrade forward_request
  handle_inner state host port secure req =
      if is_upgrade req.headers
      then journal
          (record (request_record host port req.method req.path) { note = some "upgrade blocked" })
        ∷ reply 403
        ∷ []
      else (forward_request state host port secure req).0
        ++ finish (request_record host port req.method req.path)
            (forward_request state host port secure req).1

  -- The requests that hyper reads from one connection, in order.
  unfoldable pub serve_inner_http :
      ProxyState → Text → ℕ → Bool → List (Request HeaderMap) → List (Action HeaderMap)
  unfolding handle_inner
  serve_inner_http state host port secure [] = []
  serve_inner_http state host port secure (req ∷ reqs) =
      handle_inner state host port secure req ++ serve_inner_http state host port secure reqs

  abbrev refuse : Text → ℕ → String → List (Action HeaderMap)
  refuse host port note = journal (blocked_record host port note) ∷ reply 403 ∷ []

  -- The policy test of both request shapes, before what a host that passes it is served.
  unfoldable pub gate : ProxyState → Text × ℕ → List (Action HeaderMap) → List (Action HeaderMap)
  unfolding host_policy
  gate state (host, port) served = elim (host_policy parse_ip state host) [
    | some note ↦ refuse host port note
    | none ↦ served
  ]

  -- `serve_connect` behind the policy test.
  unfoldable pub tunnel : ProxyState → Text × ℕ → List (Request HeaderMap) → List (Action HeaderMap)
  unfolding serve_inner_http
  tunnel state (host, port) reqs =
      if not write_ok
      then reply 200 ∷ []
      else if tls_accept
      then reply 200 ∷ serve_inner_http state host port true reqs
      else reply 200 ∷ journal (blocked_record host port "tls handshake failed") ∷ []

  unfoldable pub serve_connect :
      ProxyState → Text → List (Request HeaderMap) → List (Action HeaderMap)
  unfolding gate tunnel split_host_port
  serve_connect state target reqs =
      gate state (split_host_port target 443) (tunnel state (split_host_port target 443) reqs)

  -- `rest.split('/').next()`.
  unfoldable pub before_slash : Text → Text
  unfolding split_once
  before_slash rest = elim (split_once b'/' rest) [ some (a, _) ↦ a | none ↦ rest ]

  unfoldable pub plain : ProxyState → Text × ℕ → List (Request HeaderMap) → List (Action HeaderMap)
  unfolding gate serve_inner_http
  plain state (host, port) reqs =
      gate state (host, port) (serve_inner_http state host port false reqs)

  unfoldable pub serve_plain :
      ProxyState → Text → List (Request HeaderMap) → List (Action HeaderMap)
  unfolding plain split_host_port before_slash strip_prefix
  serve_plain state target reqs = elim (strip_prefix (codes "http://") target) [
    | none ↦ reply 400 ∷ []
    | some rest ↦ plain state (split_host_port (before_slash rest) 80) reqs
  ]

  -- `serve_connection`, on a head that was read and decoded.
  unfoldable pub serve_connection :
      ProxyState → Text → List (Request HeaderMap) → List (Action HeaderMap)
  unfolding parse_request_line serve_connect serve_plain to_lower
  serve_connection state head reqs = elim (parse_request_line head) [
    | none ↦ []
    | some (method, target) ↦
        if map to_lower method == codes "connect"
        then serve_connect state target reqs
        else serve_plain state target reqs
  ]
