-- ===== src/Proxy/Upstream/Dialled.antt =====
-- upstream.rs: which addresses are ever dialled.
use mathlib.Core.Bool.{false≢true}
use llmdevsilo.Prelude.{
  ℕ, ◌≡◌, refl, Bool, true, false, List, [], ◌∷◌, none, some, Text, All, Exists, inl, inr,
  Option-cases, Bool-cases, arith, is_some,
}
use llmdevsilo.Proxy.IpGuard.{IpGuard, IpAddr, BlockReason, check}
use llmdevsilo.Proxy.Outside.{SocketAddr, Network}
use llmdevsilo.Proxy.Upstream.{
  UpstreamConnector, Outcome, ok, err, blocked, resolve, first_blocked, try_connect, connect_addrs,
  Outcome-cases, connect_tcp, connect_tls,
}

abbrev pub is_block : Outcome SocketAddr → Bool
is_block (err (blocked ip reason)) = true
is_block _ = false

abbrev pub Permits : IpGuard → SocketAddr → Type 0
Permits guard addr = check guard addr.ip ≡ none

module _ (net : Network) where
  first_blocked-All :
      (guard : IpGuard) (addrs : List SocketAddr)
      → first_blocked net guard addrs ≡ none
      → All (Permits guard) addrs
  unfolding first_blocked
  first_blocked-All guard [] h = tt
  first_blocked-All guard (addr ∷ addrs) h = ground (arith, first_blocked-All guard addrs)

  try_connect-All :
      (P : SocketAddr → Type 0) (addrs : List SocketAddr)
      → All P addrs
      → All P (try_connect net addrs).0
  unfolding try_connect
  try_connect-All P [] h = tt
  try_connect-All P (addr ∷ addrs) h = elim (Bool-cases (net.tcp_connect addr)) [
    | inl e ↦ rw (e, try_connect) (h.0, tt)
    | inr e ↦ rw (e, try_connect) (h.0, try_connect-All P addrs h.1)
  ]

  connect_addrs-All :
      (guard : IpGuard) (addrs : List SocketAddr)
      → All (Permits guard) (connect_addrs net guard addrs).0
  unfolding connect_addrs
  connect_addrs-All guard addrs = elim (Option-cases (first_blocked net guard addrs)) [
    | inl e ↦
        rw (e, connect_addrs)
          (try_connect-All (Permits guard) addrs (first_blocked-All guard addrs e))
    | inr (x, e) ↦ rw (e, connect_addrs) tt
  ]

  connect_tcp-All :
      (c : UpstreamConnector) (host : Text) (port : ℕ)
      → All (Permits c.guard) (connect_tcp net c host port).0
  unfolding connect_tcp
  connect_tcp-All c host port = elim (Outcome-cases (resolve net c host port)) [
    | inl (e, q) ↦ rw (q, connect_tcp) tt
    | inr (addrs, q) ↦ rw (q, connect_tcp) (connect_addrs-All c.guard addrs)
  ]

  connect_tls-dialled :
      (c : UpstreamConnector) (host : Text) (port : ℕ)
      → (connect_tls net c host port).0 ≡ (connect_tcp net c host port).0
  unfolding connect_tls
  connect_tls-dialled c host port = elim (Outcome-cases (connect_tcp net c host port).1) [
    | inl (e, q) ↦ rw (q, connect_tls) refl
    | inr (addr, q) ↦ rw (q, connect_tls) refl
  ]

  first_blocked-Exists :
      (guard : IpGuard) (addrs : List SocketAddr)
      → Exists (λ addr. is_some (check guard addr.ip) ≡ true) addrs
      → (reason : BlockReason) × (ip : IpAddr) × (first_blocked net guard addrs
          ≡ some (blocked ip reason))
  unfolding first_blocked
  first_blocked-Exists guard [] h = absurd h
  first_blocked-Exists guard (addr ∷ addrs) h = elim (Option-cases (check guard addr.ip)) [
    | inr (reason, e) ↦ (reason, addr.ip, rw (e, first_blocked) refl)
    | inl e ↦ rw (e, first_blocked) (first_blocked-Exists guard addrs (later h e))
  ]
    where
      later :
          Exists (λ x. is_some (check guard x.ip) ≡ true) (addr ∷ addrs)
          → check guard addr.ip ≡ none
          → Exists (λ x. is_some (check guard x.ip) ≡ true) addrs
      later (inl b) e = absurd (false≢true (rw e at b))
      later (inr t) e = t

  -- Whether over TCP or over TLS, only addresses that the guard permits are dialled.
  pub connect-Permits :
      (c : UpstreamConnector) (host : Text) (port : ℕ)
      → All (Permits c.guard) (connect_tcp net c host port).0
        × All (Permits c.guard) (connect_tls net c host port).0
  connect-Permits c host port = (
    connect_tcp-All c host port,
    rw (connect_tls-dialled c host port) (connect_tcp-All c host port),
  )

  -- If a host resolves to a list with even one blocked address, none of the list is dialled and the
  -- connection fails as blocked.
  pub connect_tcp-blocked :
      (c : UpstreamConnector) (host : Text) (port : ℕ) (addrs : List SocketAddr)
      → resolve net c host port ≡ ok addrs
      → Exists (λ addr. is_some (check c.guard addr.ip) ≡ true) addrs
      → ((connect_tcp net c host port).0 ≡ []) × (is_block (connect_tcp net c host port).1 ≡ true)
  unfolding connect_tcp connect_addrs
  connect_tcp-blocked c host port addrs q x =
      let (reason, addr, e) = first_blocked-Exists c.guard addrs x in
      rw (q, e, connect_tcp, connect_addrs) (refl, refl)
