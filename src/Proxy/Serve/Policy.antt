-- ===== src/Proxy/Serve/Policy.antt =====
-- proxy.rs: nothing leaves the proxy but what the policy allows.
use llmdevsilo.Prelude.{
  ℕ, ◌≡◌, refl, Bool, true, false, not, List, [], ◌∷◌, map, Option, none, some, Text, String, codes,
  arith, All, All-append, All-map, All-mono, Option-cases, if_elim, inl, inr, ◌⊎◌, strip_prefix,
  ◌==◌, list_eq, nat_eq, to_lower,
}
use llmdevsilo.Core.Journal.{NetworkRecord}
use llmdevsilo.Proxy.IpGuard.{IpAddr}
use llmdevsilo.Proxy.Allowlist.{allows}
use llmdevsilo.Proxy.Outside.{SocketAddr}
use llmdevsilo.Proxy.Upstream.{Outcome, ok, err}
use llmdevsilo.Proxy.Upstream.Dialled.{Permits, connect-Permits}
use llmdevsilo.Proxy.Target.{parse_request_line, split_host_port}
use llmdevsilo.Proxy.Serve.{
  World, ProxyState, Request, Action, journal, reply, dial, send, Response, host_policy, is_upgrade,
  host_value, rewrite, connect, send_over, after_connect, forward_request, finish, handle_inner,
  serve_inner_http, serve_connect, serve_plain, gate, tunnel, plain, serve_connection,
  request_record, refuse,
}

host_policy-none :
    (parse_ip : Text → Option IpAddr) (state : ProxyState) (host : Text)
    → host_policy parse_ip state host ≡ none
    → allows state.allowlist host ≡ true
unfolding host_policy
host_policy-none parse_ip state host h = ground arith

module _ (w : World) (state : ProxyState) where
  open w use {headers.{HeaderMap, get_all, get_all-insert}}

  -- An address is dialled only for an allowed host and where the guard permits it. A request goes
  -- only to an allowed host and names that host and no other. The journal says "allowed" only of an
  -- allowed host.
  abbrev pub IsSafe : Action HeaderMap → Type 0
  IsSafe (journal r) = (r.allowed ≡ false) ⊎ (allows state.allowlist r.host ≡ true)
  IsSafe (reply code) = Unit
  IsSafe (dial host addr) = (allows state.allowlist host ≡ true) × Permits state.upstream.guard addr
  IsSafe (send host headers) =
      (allows state.allowlist host ≡ true)
      × (get_all headers (codes "host") ≡ host_value w host ∷ [])

  module _ (host : Text) (allowed : allows state.allowlist host ≡ true) where
    connect-All :
        (port : ℕ) (secure : Bool)
        → All (λ addr. IsSafe (dial host addr)) (connect w state host port secure).0
    connect-All port true =
        All-mono (Permits state.upstream.guard) (λ addr. IsSafe (dial host addr))
          (λ addr p. (allowed, p)) _ (connect-Permits w.net state.upstream host port).1
    connect-All port false =
        All-mono (Permits state.upstream.guard) (λ addr. IsSafe (dial host addr))
          (λ addr p. (allowed, p)) _ (connect-Permits w.net state.upstream host port).0

    send_over-All :
        (addr : SocketAddr) (headers : HeaderMap) (sent : ℕ)
        → All IsSafe (send_over w host addr (rewrite w state host headers) sent).0
    unfolding send_over rewrite
    send_over-All addr headers sent = go (w.exchange addr (rewrite w state host headers).0) refl
      where
        named : get_all (rewrite w state host headers).0 (codes "host") ≡ host_value w host ∷ []
        named = get_all-insert (codes "host") (host_value w host) _

        go :
            (o : Option (ℕ × ℕ))
            → w.exchange addr (rewrite w state host headers).0 ≡ o
            → All IsSafe (send_over w host addr (rewrite w state host headers) sent).0
        go none e = rw (e, send_over) ((allowed, named), tt)
        go (some r) e = rw (e, send_over) ((allowed, named), tt)

    after_connect-All :
        (c : List SocketAddr × Outcome SocketAddr) (headers : HeaderMap) (sent : ℕ)
        → All (λ addr. IsSafe (dial host addr)) c.0
        → All IsSafe (after_connect w host c (rewrite w state host headers) sent).0
    after_connect-All (dialled, ok addr) headers sent h =
        All-append IsSafe (map (dial host) dialled) _ (All-map IsSafe (dial host) dialled h)
          (send_over-All addr headers sent)
    after_connect-All (dialled, err e) headers sent h = All-map IsSafe (dial host) dialled h

    forward_request-All :
        (port : ℕ) (secure : Bool) (req : Request HeaderMap)
        → All IsSafe (forward_request w state host port secure req).0
    unfolding forward_request
    forward_request-All port secure req =
        if_elim (λ (r : List (Action HeaderMap) × Outcome Response). All IsSafe r.0) req.is_valid
          (λ _.
            after_connect-All (connect w state host port secure) req.headers req.body_len
              (connect-All port secure))
          (λ _. tt)

    finish-All :
        (r : NetworkRecord) (o : Outcome Response) → r.host ≡ host → All IsSafe (finish w r o)
    finish-All r (ok response) e = (inr (rw e allowed), (tt, tt))
    finish-All r (err x) e = (inr (rw e allowed), (tt, tt))

    handle_inner-All :
        (port : ℕ) (secure : Bool) (req : Request HeaderMap)
        → All IsSafe (handle_inner w state host port secure req)
    unfolding handle_inner
    handle_inner-All port secure req =
        if_elim (All IsSafe) (is_upgrade w req.headers) (λ _. (inl refl, (tt, tt)))
          (λ _.
            All-append IsSafe (forward_request w state host port secure req).0 _
              (forward_request-All port secure req)
              (finish-All (request_record host port req.method req.path)
                (forward_request w state host port secure req).1 refl))

    serve_inner_http-All :
        (port : ℕ) (secure : Bool) (reqs : List (Request HeaderMap))
        → All IsSafe (serve_inner_http w state host port secure reqs)
    unfolding serve_inner_http
    serve_inner_http-All port secure [] = tt
    serve_inner_http-All port secure (req ∷ reqs) =
        All-append IsSafe (handle_inner w state host port secure req) _
          (handle_inner-All port secure req) (serve_inner_http-All port secure reqs)

  refuse-All : (host : Text) (port : ℕ) (note : String) → All IsSafe (refuse w host port note)
  refuse-All host port note = (inl refl, (tt, tt))

  gate-All :
      (host : Text) (port : ℕ) (served : List (Action HeaderMap))
      → (allows state.allowlist host ≡ true → All IsSafe served)
      → All IsSafe (gate w state (host, port) served)
  unfolding gate
  gate-All host port served h = elim (Option-cases (host_policy w.net.parse_ip state host)) [
    | inl e ↦ rw (e, gate) (h (host_policy-none w.net.parse_ip state host e))
    | inr (note, e) ↦ rw (e, gate) (refuse-All host port note)
  ]

  tunnel-All :
      (host : Text) (port : ℕ) (reqs : List (Request HeaderMap))
      → allows state.allowlist host ≡ true
      → All IsSafe (tunnel w state (host, port) reqs)
  unfolding tunnel
  tunnel-All host port reqs h =
      if_elim (All IsSafe) (not w.net.write_ok) (λ _. (tt, tt))
        (λ _.
          if_elim (All IsSafe) w.net.tls_accept
            (λ _. (tt, serve_inner_http-All host h port true reqs)) (λ _. (tt, (inl refl, tt))))

  serve_connect-All :
      (target : Text) (reqs : List (Request HeaderMap))
      → All IsSafe (serve_connect w state target reqs)
  unfolding serve_connect
  serve_connect-All target reqs =
      gate-All (split_host_port target 443).0 (split_host_port target 443).1 _
        (tunnel-All (split_host_port target 443).0 (split_host_port target 443).1 reqs)

  plain-All : (hp : Text × ℕ) (reqs : List (Request HeaderMap)) → All IsSafe (plain w state hp reqs)
  unfolding plain
  plain-All (host, port) reqs =
      gate-All host port _ (λ h. serve_inner_http-All host h port false reqs)

  serve_plain-All :
      (target : Text) (reqs : List (Request HeaderMap))
      → All IsSafe (serve_plain w state target reqs)
  unfolding serve_plain
  serve_plain-All target reqs = elim (Option-cases (strip_prefix (codes "http://") target)) [
    | inl e ↦ rw (e, serve_plain) (tt, tt)
    | inr (rest, e) ↦ rw (e, serve_plain) (plain-All _ reqs)
  ]

  -- Whatever a client sends, in the clear or through a tunnel, every action of its connection is
  -- safe: addresses are dialled only for an allowed host and where the guard permits them, and a
  -- request goes out only to an allowed host, under that host's name.
  pub serve_connection-IsSafe :
      (head : Text) (reqs : List (Request HeaderMap))
      → All IsSafe (serve_connection w state head reqs)
  unfolding serve_connection
  serve_connection-IsSafe head reqs = elim (Option-cases (parse_request_line head)) [
    | inl e ↦ rw (e, serve_connection) tt
    | inr ((method, target), e) ↦
        rw (e, serve_connection)
          (if_elim (All IsSafe) (map to_lower method == codes "connect")
            (λ _. serve_connect-All target reqs) (λ _. serve_plain-All target reqs))
  ]
