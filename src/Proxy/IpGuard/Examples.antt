-- ===== src/Proxy/IpGuard/Examples.antt =====
-- Tests and witnesses for ipguard.rs.
use llmdevsilo.Prelude.{◌≡◌, ◌↔◌, ◌⊎◌, ap, refl, true, some, none, arith, any, is_some}
use llmdevsilo.Proxy.IpGuard.{
  Ipv4Addr, Ipv6Addr, v4, v6, new, with_loopback_allowed, check, is_blocked, check_v4,
  embedded_ipv4, last_v4, private,
}
use llmdevsilo.Proxy.IpGuard.Ranges.{value, contains, blocked_v4, prefix_range, is_blocked-v4}
use llmdevsilo.Proxy.IpGuard.Embedded.{
  mapped, nat64, compatible, IsIpv6, CarriesNone, only_last, check-embedded, check-compatible,
  is_blocked-v6,
}

abbrev lan : Ipv4Addr
lan = record { o0 = 192; o1 = 168; o2 = 1; o3 = 20 }

abbrev unique : Ipv6Addr
unique = record { s0 = 0xfd12; s1 = 1; s2 = 0; s3 = 0; s4 = 0; s5 = 0; s6 = 0; s7 = 1 }

lan_private : check new (v6 (nat64 lan)) ≡ some private
unfolding check check_v4 embedded_ipv4 last_v4
lan_private = refl

last_of_range : check new (v4 (record { o0 = 172; o1 = 32; o2 = 0; o3 = 1 })) ≡ none
unfolding check check_v4
last_of_range = refl

is_blocked-v4_example : is_blocked new (v4 lan) ≡ any (λ k. contains k (value lan)) blocked_v4
is_blocked-v4_example = is_blocked-v4 lan (omega arith)

check-embedded_example :
    (check (with_loopback_allowed true) (v6 (mapped lan))
      ≡ check (with_loopback_allowed true) (v4 lan))
    × (check (with_loopback_allowed true) (v6 (nat64 lan))
        ≡ check (with_loopback_allowed true) (v4 lan))
check-embedded_example = check-embedded (with_loopback_allowed true) lan (omega arith)

check-compatible_example : check new (v6 (compatible lan)) ≡ check new (v4 lan)
check-compatible_example = check-compatible new lan (omega arith) (omega arith)

unique-IsIpv6 : IsIpv6 unique
unique-IsIpv6 = record { b0 = omega arith; b6 = omega arith; b7 = omega arith }

unique-CarriesNone : CarriesNone unique
unique-CarriesNone a h = (
  λ e. let d = ap (λ (w : Ipv6Addr). w.s0) e in omega (arith, d),
  λ e. let d = ap (λ (w : Ipv6Addr). w.s0) e in omega (arith, d),
  λ _ e. let d = ap (λ (w : Ipv6Addr). w.s0) e in omega (arith, d),
)

is_blocked-v6_example :
    (is_blocked new (v6 unique) ≡ true)
    ↔ ((unique ≡ only_last 1) ⊎ ((unique ≡ only_last 0) ⊎ (is_some (prefix_range 0xfd12) ≡ true)))
is_blocked-v6_example = is_blocked-v6 unique unique-IsIpv6 unique-CarriesNone
