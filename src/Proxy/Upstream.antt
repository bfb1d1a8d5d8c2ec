-- ===== src/Proxy/Upstream.antt =====
-- crates/silo-proxy/src/upstream.rs: from a host name to a connection. A function returns the
-- addresses that it dialled, in order, beside its result.
pub mod Dialled
use llmdevsilo.Prelude.{
  ℕ, ◌≡◌, refl, ◌⊎◌, inl, inr, Bool, true, false, List, [], ◌∷◌, Option, none, some, Text, ◌==◌,
  list_eq, nat_eq, if◌then◌else◌,
}
use llmdevsilo.Proxy.IpGuard.{IpGuard, BlockReason, IpAddr, check}
use llmdevsilo.Proxy.Allowlist.{normalize_host}
use llmdevsilo.Proxy.Outside.{SocketAddr, Network}

-- The messages are left out, but for the address that a block names.
pub data UpstreamError : Type 0 where
  blocked : IpAddr → BlockReason → UpstreamError
  resolve_failed connect_failed tls_failed : UpstreamError

pub data Outcome {ℓ} (A : Type ℓ) : Type ℓ where
  ok : A → Outcome A
  err : UpstreamError → Outcome A

pub Outcome-cases {ℓ} :
    {A : Type ℓ} (r : Outcome A) → ((e : UpstreamError) × (r ≡ err e)) ⊎ ((a : A) × (r ≡ ok a))
Outcome-cases (ok a) = inr (a, refl)
Outcome-cases (err e) = inl (e, refl)

pub record UpstreamConnector : Type 0 where
  pub guard : IpGuard
  pub resolver_overrides : List (Text × SocketAddr)

unfoldable pub override : Text → List (Text × SocketAddr) → Option SocketAddr
override k [] = none
override k ((j, a) ∷ m) = if j == k then some a else override k m

module _ (net : Network) where
  open net use {lookup_host, tcp_connect, tls_connect}

  unfoldable pub resolve : UpstreamConnector → Text → ℕ → Outcome (List SocketAddr)
  unfolding override
  resolve c host port = elim (override (normalize_host host) c.resolver_overrides) [
    | some addr ↦ ok (addr ∷ [])
    | none ↦ elim (lookup_host host port) [
      | none ↦ err resolve_failed
      | some [] ↦ err resolve_failed
      | some (addr ∷ addrs) ↦ ok (addr ∷ addrs)
    ]
  ]

  -- The first loop of `connect_tcp`.
  unfoldable pub first_blocked : IpGuard → List SocketAddr → Option UpstreamError
  first_blocked guard [] = none
  first_blocked guard (addr ∷ addrs) = elim (check guard addr.ip) [
    | some reason ↦ some (blocked addr.ip reason)
    | none ↦ first_blocked guard addrs
  ]

  -- The second loop: the stream is named by its address.
  unfoldable pub try_connect : List SocketAddr → List SocketAddr × Outcome SocketAddr
  try_connect [] = ([], err connect_failed)
  try_connect (addr ∷ addrs) = elim (tcp_connect addr) [
    | true ↦ (addr ∷ [], ok addr)
    | false ↦ (addr ∷ (try_connect addrs).0, (try_connect addrs).1)
  ]

  -- `connect_tcp` behind the name resolution.
  unfoldable pub connect_addrs : IpGuard → List SocketAddr → List SocketAddr × Outcome SocketAddr
  unfolding first_blocked try_connect
  connect_addrs guard addrs = elim (first_blocked guard addrs) [
    | some e ↦ ([], err e)
    | none ↦ try_connect addrs
  ]

  unfoldable pub connect_tcp : UpstreamConnector → Text → ℕ → List SocketAddr × Outcome SocketAddr
  unfolding resolve connect_addrs
  connect_tcp c host port = elim (resolve c host port) [
    | err e ↦ ([], err e)
    | ok addrs ↦ connect_addrs c.guard addrs
  ]

  -- An invalid server name fails as the handshake does.
  unfoldable pub connect_tls : UpstreamConnector → Text → ℕ → List SocketAddr × Outcome SocketAddr
  unfolding connect_tcp
  connect_tls c host port = elim ((connect_tcp c host port).1) [
    | err e ↦ ((connect_tcp c host port).0, err e)
    | ok addr ↦ ((connect_tcp c host port).0, if tls_connect host then ok addr else err tls_failed)
  ]
