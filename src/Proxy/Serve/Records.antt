-- ===== src/Proxy/Serve/Records.antt =====
-- proxy.rs: the journal has one record for each request inside a connection, and one for each
-- refused connection.
use mathlib.Core.List.{map-append}
use llmdevsilo.Prelude.{
  ap, ℕ, ◌≡◌, refl, Bool, List, [], ◌∷◌, ◌++◌, map, Option, some, Text, if_elim, Option-cases, inl,
  inr,
}
use llmdevsilo.Core.Journal.{NetworkRecord}
use llmdevsilo.Proxy.Outside.{SocketAddr}
use llmdevsilo.Proxy.Upstream.{Outcome, ok, err}
use llmdevsilo.Proxy.Serve.{
  World, ProxyState, Request, Action, journal, reply, dial, send, Response, is_upgrade, connect,
  send_over, after_connect, forward_request, finish, handle_inner, serve_inner_http, request_record,
}

module _ (w : World) (state : ProxyState) where
  open w use {headers.{HeaderMap}}

  abbrev pub records : List (Action HeaderMap) → List NetworkRecord
  records [] = []
  records (journal r ∷ acts) = r ∷ records acts
  records (reply code ∷ acts) = records acts
  records (dial host addr ∷ acts) = records acts
  records (send host hs ∷ acts) = records acts

  records-append :
      (acts more : List (Action HeaderMap)) → records (acts ++ more) ≡ records acts ++ records more
  records-append [] more = refl
  records-append (journal r ∷ acts) more = ap (λ rs. r ∷ rs) (records-append acts more)
  records-append (reply code ∷ acts) more = records-append acts more
  records-append (dial host addr ∷ acts) more = records-append acts more
  records-append (send host hs ∷ acts) more = records-append acts more

  -- Dialling and sending leave no record.
  records-dial : (host : Text) (addrs : List SocketAddr) → records (map (dial host) addrs) ≡ []
  records-dial host [] = refl
  records-dial host (addr ∷ addrs) = records-dial host addrs

  send_over-records :
      (host : Text) (addr : SocketAddr) (out : HeaderMap × Bool) (sent : ℕ)
      → records (send_over w host addr out sent).0 ≡ []
  unfolding send_over
  send_over-records host addr out sent = elim (Option-cases (w.exchange addr out.0)) [
    | inl e ↦ rw (e, send_over) refl
    | inr (r, e) ↦ rw (e, send_over) refl
  ]

  after_connect-records :
      (host : Text) (c : List SocketAddr × Outcome SocketAddr) (out : HeaderMap × Bool) (sent : ℕ)
      → records (after_connect w host c out sent).0 ≡ []
  after_connect-records host (dialled, ok addr) out sent =
      rw
        (
          records-append (map (dial host) dialled) (send_over w host addr out sent).0,
          records-dial host dialled,
        )
        (send_over-records host addr out sent)
  after_connect-records host (dialled, err e) out sent = records-dial host dialled

  forward_request-records :
      (host : Text) (port : ℕ) (secure : Bool) (req : Request HeaderMap)
      → records (forward_request w state host port secure req).0 ≡ []
  unfolding forward_request
  forward_request-records host port secure req =
      if_elim (λ (r : List (Action HeaderMap) × Outcome Response). records r.0 ≡ []) req.is_valid
        (λ _. after_connect-records host (connect w state host port secure) _ req.body_len)
        (λ _. refl)

  -- What a record says of the request.
  abbrev pub Line : Type 0
  Line = Text × ℕ × Option Text × Option Text

  abbrev pub line : NetworkRecord → Line
  line r = (r.host, r.port, r.method, r.path)

  finish-line :
      (r : NetworkRecord) (o : Outcome Response) → map line (records (finish w r o)) ≡ line r ∷ []
  finish-line r (ok response) = refl
  finish-line r (err e) = refl

  handle_inner-line :
      (host : Text) (port : ℕ) (secure : Bool) (req : Request HeaderMap)
      → map line (records (handle_inner w state host port secure req))
        ≡ (host, port, some req.method, some req.path) ∷ []
  unfolding handle_inner
  handle_inner-line host port secure req =
      if_elim (λ acts. map line (records acts) ≡ (host, port, some req.method, some req.path) ∷ [])
        (is_upgrade w req.headers) (λ _. refl)
        (λ _.
          rw
            (
              records-append (forward_request w state host port secure req).0 (
                  finish w (request_record host port req.method req.path)
                    (forward_request w state host port secure req).1),
              forward_request-records host port secure req,
            )
            (finish-line (request_record host port req.method req.path)
              (forward_request w state host port secure req).1))

  -- Each request inside a connection leaves exactly one record in the journal, in order, under the
  -- host and port of the connection, with its method and path; so also if it is refused as an
  -- upgrade or fails upstream.
  pub records-serve_inner_http :
      (host : Text) (port : ℕ) (secure : Bool) (reqs : List (Request HeaderMap))
      → map line (records (serve_inner_http w state host port secure reqs))
        ≡ map (λ req. (host, port, some req.method, some req.path)) reqs
  unfolding serve_inner_http
  records-serve_inner_http host port secure [] = refl
  records-serve_inner_http host port secure (req ∷ reqs) =
      rw
        (
          records-append (handle_inner w state host port secure req)
              (serve_inner_http w state host port secure reqs),
          map-append line (records (handle_inner w state host port secure req))
              (records (serve_inner_http w state host port secure reqs)),
          handle_inner-line host port secure req,
        )
        (ap (λ ls. (host, port, some req.method, some req.path) ∷ ls)
          (records-serve_inner_http host port secure reqs))
