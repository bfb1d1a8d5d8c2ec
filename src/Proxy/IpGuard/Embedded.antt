-- ===== src/Proxy/IpGuard/Embedded.antt =====
-- ipguard.rs, addresses that carry an IPv4 address: an IPv6 spelling of a blocked IPv4 address is
-- no way around the guard.
use mathlib.Core.Bool.{false≢true}
use llmdevsilo.Prelude.{
  Bool, Option, if_elim, not, ◌&&◌, eqb, leb, is_some, ◌↔◌, ◌⊎◌, true, false, eqb_iff, inl, inr, ℕ,
  ◌+◌, ◌*◌, ◌<◌, ◌≡◌, refl, ap, ◌||◌, none, some, arith,
}
use llmdevsilo.Proxy.IpGuard.{
  IpGuard, Ipv4Addr, Ipv6Addr, v4, v6, new, last_v4, embedded_ipv4, check_v6, check_native_v6,
  check, is_blocked, zero_but_last, zero_to_4, zero_from_2,
}
use llmdevsilo.Proxy.IpGuard.Ranges.{value, IsIpv4, prefix_range, check_prefix-range, is_some-if}

-- The IPv6 address with the prefix `s0:s1:0:0:0:s5::/96` that carries `a`.
abbrev pub carry : ℕ → ℕ → ℕ → Ipv4Addr → Ipv6Addr
carry p0 p1 p5 a = record {
  s0 = p0;
  s1 = p1;
  s2 = 0;
  s3 = 0;
  s4 = 0;
  s5 = p5;
  s6 = a.o0 * 256 + a.o1;
  s7 = a.o2 * 256 + a.o3;
}

abbrev pub mapped : Ipv4Addr → Ipv6Addr
mapped = carry 0 0 0xffff

abbrev pub nat64 : Ipv4Addr → Ipv6Addr
nat64 = carry 0x0064 0xff9b 0

abbrev pub compatible : Ipv4Addr → Ipv6Addr
compatible = carry 0 0 0

last_v4-carry : (p0 p1 p5 : ℕ) (a : Ipv4Addr) → IsIpv4 a → last_v4 (carry p0 p1 p5 a) ≡ a
unfolding last_v4
last_v4-carry p0 p1 p5 a h = ground arith

-- What is read back of the three embeddings is the address that was put in.
embedded_ipv4-mapped : (a : Ipv4Addr) → IsIpv4 a → embedded_ipv4 (mapped a) ≡ some a
unfolding embedded_ipv4
embedded_ipv4-mapped a h = ap some (last_v4-carry 0 0 0xffff a h)

embedded_ipv4-nat64 : (a : Ipv4Addr) → IsIpv4 a → embedded_ipv4 (nat64 a) ≡ some a
unfolding embedded_ipv4
embedded_ipv4-nat64 a h = ap some (last_v4-carry 0x0064 0xff9b 0 a h)

embedded_ipv4-compatible :
    (a : Ipv4Addr) → IsIpv4 a → 1 < value a → embedded_ipv4 (compatible a) ≡ some a
unfolding embedded_ipv4
embedded_ipv4-compatible a h big = ground (arith, last_v4-carry 0 0 0 a h)

check-of_embedded :
    (g : IpGuard) (w : Ipv6Addr) (a : Ipv4Addr)
    → embedded_ipv4 w ≡ some a
    → check g (v6 w) ≡ check g (v4 a)
unfolding check
check-of_embedded g w a e = rw (e, check_v6) refl

-- An IPv4 address in its IPv4-mapped or NAT64 form is judged as the address itself, whatever the
-- guard.
pub check-embedded :
    (g : IpGuard) (a : Ipv4Addr)
    → IsIpv4 a
    → (check g (v6 (mapped a)) ≡ check g (v4 a)) × (check g (v6 (nat64 a)) ≡ check g (v4 a))
check-embedded g a h = (
  check-of_embedded g _ a (embedded_ipv4-mapped a h),
  check-of_embedded g _ a (embedded_ipv4-nat64 a h),
)

-- An IPv4 address other than 0.0.0.0 and 0.0.0.1 is judged in its IPv4-compatible form as the
-- address itself, whatever the guard.
pub check-compatible :
    (g : IpGuard) (a : Ipv4Addr)
    → IsIpv4 a
    → 1 < value a
    → check g (v6 (compatible a)) ≡ check g (v4 a)
check-compatible g a h big = check-of_embedded g _ a (embedded_ipv4-compatible a h big)

pub record IsIpv6 (w : Ipv6Addr) : Type 0 where
  pub b0 : w.s0 < 65536
  pub b6 : w.s6 < 65536
  pub b7 : w.s7 < 65536

-- Segments that agree one by one.
same_segments :
    (w v : Ipv6Addr)
    → w.s0 ≡ v.s0
    → w.s1 ≡ v.s1
    → w.s2 ≡ v.s2
    → w.s3 ≡ v.s3
    → w.s4 ≡ v.s4
    → w.s5 ≡ v.s5
    → w.s6 ≡ v.s6
    → w.s7 ≡ v.s7
    → w ≡ v
same_segments w v e0 e1 e2 e3 e4 e5 e6 e7 i = record {
  s0 = e0 i;
  s1 = e1 i;
  s2 = e2 i;
  s3 = e3 i;
  s4 = e4 i;
  s5 = e5 i;
  s6 = e6 i;
  s7 = e7 i;
}

-- `::` with a last segment, written out.
abbrev pub only_last : ℕ → Ipv6Addr
only_last x = record { s0 = 0; s1 = 0; s2 = 0; s3 = 0; s4 = 0; s5 = 0; s6 = 0; s7 = x }

-- The address is not the IPv4-mapped or NAT64 form of an IPv4 address, nor the IPv4-compatible form of
-- one above 0.0.0.1.
abbrev pub CarriesNone : Ipv6Addr → Type 0
CarriesNone w =
    (a : Ipv4Addr)
    → IsIpv4 a
    → ¬ (w ≡ mapped a) × ¬ (w ≡ nat64 a) × (1 < value a → ¬ (w ≡ compatible a))

last_v4-IsIpv4 : (w : Ipv6Addr) → IsIpv4 (last_v4 w)
unfolding last_v4
last_v4-IsIpv4 w = record { b0 = omega arith; b1 = omega arith; b2 = omega arith; b3 = omega arith }

-- An address of one of the three forms is that form of its last two segments.
carry-last_v4 :
    (w : Ipv6Addr) (p0 p1 p5 : ℕ)
    → IsIpv6 w
    → w.s0 ≡ p0
    → w.s1 ≡ p1
    → w.s2 ≡ 0
    → w.s3 ≡ 0
    → w.s4 ≡ 0
    → w.s5 ≡ p5
    → w ≡ carry p0 p1 p5 (last_v4 w)
unfolding last_v4
carry-last_v4 w p0 p1 p5 h e0 e1 e2 e3 e4 e5 =
    let b6 = h.b6 in
    let b7 = h.b7 in
    same_segments w (carry p0 p1 p5 (last_v4 w)) e0 e1 e2 e3 e4 e5 (omega arith) (omega arith)

embedded_ipv4-CarriesNone : (w : Ipv6Addr) → IsIpv6 w → CarriesNone w → embedded_ipv4 w ≡ none
unfolding embedded_ipv4 last_v4
embedded_ipv4-CarriesNone w h c =
    let no = c (last_v4 w) (last_v4-IsIpv4 w) in
    let b6 = h.b6 in
    let b7 = h.b7 in
    if_elim (λ (r : Option Ipv4Addr). r ≡ none) (zero_to_4 w && eqb w.s5 0xffff)
      (λ e. absurd (
        no.0 (
          carry-last_v4 w 0 0 0xffff h (ground arith) (ground arith) (ground arith) (ground arith)
            (ground arith) (ground arith))))
      (λ _.
        if_elim (λ (r : Option Ipv4Addr). r ≡ none)
          (eqb w.s0 0x0064 && (eqb w.s1 0xff9b && (zero_from_2 w && eqb w.s5 0)))
          (λ e. absurd (
            no.1 (
              carry-last_v4 w 0x0064 0xff9b 0 h (ground arith) (ground arith) (ground arith)
                (ground arith) (ground arith) (ground arith))))
          (λ _.
            if_elim (λ (r : Option Ipv4Addr). r ≡ none)
              ((zero_to_4 w && eqb w.s5 0) && not (eqb w.s6 0 && leb w.s7 1))
              (λ e. absurd (
                no.2 (ground arith) (
                  carry-last_v4 w 0 0 0 h (ground arith) (ground arith) (ground arith)
                    (ground arith) (ground arith) (ground arith))))
              (λ _. refl)))

zero_but_last_iff : (w : Ipv6Addr) (x : ℕ) → (zero_but_last w x ≡ true) ↔ (w ≡ only_last x)
zero_but_last_iff w x = (
  λ h.
      same_segments w (only_last x) (ground arith) (ground arith) (ground arith) (ground arith)
        (ground arith) (ground arith) (ground arith) (ground arith),
  λ e. rw (e) ((eqb_iff x x).1 refl),
)

either_of :
    {X Y : Type 0} {b c : Bool} → ((b ≡ true) ↔ X) → ((c ≡ true) ↔ Y) → (b || c ≡ true) ↔ (X ⊎ Y)
either_of {b = true} x y = (λ _. inl (x.0 refl), λ _. refl)
either_of {b = false} x y =
    (λ e. inr (y.0 e), λ h. elim h [ inl q ↦ absurd (false≢true (x.1 q)) | inr q ↦ y.1 q ])

-- An IPv6 address that carries no IPv4 address, that is, is not the IPv4-mapped or NAT64 form of one,
-- nor the IPv4-compatible form of one above 0.0.0.1, is blocked exactly when it is `::1`, `::`, or its
-- first segment lies in fe80::/10, fc00::/7 or ff00::/8.
pub is_blocked-v6 :
    (w : Ipv6Addr)
    → IsIpv6 w
    → CarriesNone w
    → (is_blocked new (v6 w) ≡ true)
      ↔ ((w ≡ only_last 1) ⊎ ((w ≡ only_last 0) ⊎ (is_some (prefix_range w.s0) ≡ true)))
unfolding is_blocked check check_native_v6
is_blocked-v6 w h c =
    let e = embedded_ipv4-CarriesNone w h c in
    let one = zero_but_last_iff w 1 in
    let zero_all = zero_but_last_iff w 0 in
    let same : is_blocked new (v6 w)
        ≡ (zero_but_last w 1 || (zero_but_last w 0 || is_some (prefix_range w.s0))) =
      rw (e, check_v6, check, is_blocked) (simp (is_some-if, check_prefix-range w.s0 h.b0)) in
    rw (same) (either_of one (either_of zero_all (λ q. q, λ q. q)))
