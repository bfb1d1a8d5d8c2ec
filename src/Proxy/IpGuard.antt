-- ===== src/Proxy/IpGuard.antt =====
-- crates/silo-proxy/src/ipguard.rs: which destination addresses the proxy may connect to. Octets and
-- segments are numbers; the theorems state their range where it matters.
pub mod Ranges
pub mod Embedded
mod Examples
use Prim.Native.Nat.{bit_and}
use llmdevsilo.Prelude.{
  ℕ, ◌+◌, ◌/◌, ◌%◌, ◌^◌, Bool, true, false, not, ◌&&◌, ◌||◌, Option, none, some, eqb, leb,
  if◌then◌else◌, is_some,
}

pub data BlockReason : Type 0 where
  loopback private link_local shared_cgnat multicast broadcast unspecified unique_local :
      BlockReason

pub record Ipv4Addr : Type 0 where
  pub o0 : ℕ
  pub o1 : ℕ
  pub o2 : ℕ
  pub o3 : ℕ

pub record Ipv6Addr : Type 0 where
  pub s0 : ℕ
  pub s1 : ℕ
  pub s2 : ℕ
  pub s3 : ℕ
  pub s4 : ℕ
  pub s5 : ℕ
  pub s6 : ℕ
  pub s7 : ℕ

pub data IpAddr : Type 0 where
  v4 : Ipv4Addr → IpAddr
  v6 : Ipv6Addr → IpAddr

pub record IpGuard : Type 0 where
  pub allow_loopback : Bool

abbrev pub new : IpGuard
new = record { allow_loopback = false }

abbrev pub with_loopback_allowed : Bool → IpGuard
with_loopback_allowed allow = record { allow_loopback = allow }

-- `lo..=hi` contains the value.
abbrev within : ℕ → ℕ → ℕ → Bool
within lo hi x = leb lo x && leb x hi

abbrev all_octets : Ipv4Addr → ℕ → Bool
all_octets a x = eqb a.o0 x && (eqb a.o1 x && (eqb a.o2 x && eqb a.o3 x))

unfoldable pub check_v4 : IpGuard → Ipv4Addr → Option BlockReason
check_v4 g a =
    if eqb a.o0 127
    then (if g.allow_loopback then none else some loopback)
    else if all_octets a 0
    then some unspecified
    else if all_octets a 255
    then some broadcast
    else if eqb a.o0 10 || ((eqb a.o0 172 && within 16 31 a.o1) || (eqb a.o0 192 && eqb a.o1 168))
    then some private
    else if eqb a.o0 169 && eqb a.o1 254
    then some link_local
    else if eqb a.o0 100 && within 64 127 a.o1
    then some shared_cgnat
    else if within 224 239 a.o0
    then some multicast
    else none

-- `(x >> 8) as u8` and `(x & 0xff) as u8` of a 16-bit segment.
unfoldable pub last_v4 : Ipv6Addr → Ipv4Addr
last_v4 a = record {
  o0 = a.s6 / 256 % 256;
  o1 = a.s6 % 256;
  o2 = a.s7 / 256 % 256;
  o3 = a.s7 % 256;
}

-- The segments `lo..5` are zero, with `lo` 2 or 0.
abbrev pub zero_from_2 : Ipv6Addr → Bool
zero_from_2 a = eqb a.s2 0 && (eqb a.s3 0 && eqb a.s4 0)

abbrev pub zero_to_4 : Ipv6Addr → Bool
zero_to_4 a = eqb a.s0 0 && (eqb a.s1 0 && zero_from_2 a)

unfoldable pub embedded_ipv4 : Ipv6Addr → Option Ipv4Addr
embedded_ipv4 a =
    if zero_to_4 a && eqb a.s5 0xffff
    then some (last_v4 a)
    else if eqb a.s0 0x0064 && (eqb a.s1 0xff9b && (zero_from_2 a && eqb a.s5 0))
    then some (last_v4 a)
    else if (zero_to_4 a && eqb a.s5 0) && not (eqb a.s6 0 && leb a.s7 1)
    then some (last_v4 a)
    else none

-- `::` with a last segment.
abbrev zero_but_last : Ipv6Addr → ℕ → Bool
zero_but_last a x = (zero_to_4 a && eqb a.s5 0) && (eqb a.s6 0 && eqb a.s7 x)

-- The mask tests on the first segment, in their order.
unfoldable pub check_prefix : ℕ → Option BlockReason
check_prefix s =
    if eqb (bit_and s 0xffc0) 0xfe80
    then some link_local
    else if eqb (bit_and s 0xfe00) 0xfc00
    then some unique_local
    else if eqb (bit_and s 0xff00) 0xff00
    then some multicast
    else none

-- The part of `check_v6` behind the test for an embedded address.
unfoldable pub check_native_v6 : IpGuard → Ipv6Addr → Option BlockReason
check_native_v6 g a =
    if zero_but_last a 1
    then (if g.allow_loopback then none else some loopback)
    else if zero_but_last a 0
    then some unspecified
    else check_prefix a.s0

unfoldable pub check_v6 : IpGuard → Ipv6Addr → Option BlockReason
check_v6 g a = elim (embedded_ipv4 a) [ some w ↦ check_v4 g w | none ↦ check_native_v6 g a ]

unfoldable pub check : IpGuard → IpAddr → Option BlockReason
unfolding check_v6
check g (v4 a) = check_v4 g a
check g (v6 a) = check_v6 g a

unfoldable pub is_blocked : IpGuard → IpAddr → Bool
is_blocked g a = is_some (check g a)
