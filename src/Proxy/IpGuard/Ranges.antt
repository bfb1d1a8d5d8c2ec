-- ===== src/Proxy/IpGuard/Ranges.antt =====
-- ipguard.rs against the address blocks that its tests stand for.
use Prim.Native.Nat.{bit_and}
use llmdevsilo.Prelude.{
  is_some, ℕ, zero, suc, ◌+◌, ◌-◌, ◌*◌, ◌/◌, ◌^◌, ◌<◌, ◌≡◌, refl, Bool, true, false, ◌&&◌, ◌||◌,
  List, [], ◌∷◌, Option, none, some, arith, eqb, leb, any, if◌then◌else◌,
}
use llmdevsilo.Proxy.IpGuard.{
  BlockReason, Ipv4Addr, v4, new, check_v4, check_prefix, all_octets, within, check, is_blocked,
  link_local, unique_local, multicast,
}

-- The 32-bit number of an address.
abbrev pub value : Ipv4Addr → ℕ
value a = ((a.o0 * 256 + a.o1) * 256 + a.o2) * 256 + a.o3

pub record IsIpv4 (a : Ipv4Addr) : Type 0 where
  pub b0 : a.o0 < 256
  pub b1 : a.o1 < 256
  pub b2 : a.o2 < 256
  pub b3 : a.o3 < 256

-- A block in CIDR notation: its first address and the bits that are left free.
pub record Cidr : Type 0 where
  pub base : ℕ
  pub free : ℕ

abbrev pub cidr : ℕ → ℕ → ℕ → ℕ → ℕ → Cidr
cidr a b c d len = record {
  base = value (record { o0 = a; o1 = b; o2 = c; o3 = d });
  free = 32 - len;
}

unfoldable pub contains : Cidr → ℕ → Bool
contains k x = eqb (x / 2 ^ k.free) (k.base / 2 ^ k.free)

abbrev pub blocked_v4 : List Cidr
blocked_v4 =
    cidr 127 0 0 0 8
    ∷ cidr 0 0 0 0 32
    ∷ cidr 255 255 255 255 32
    ∷ cidr 10 0 0 0 8
    ∷ cidr 172 16 0 0 12
    ∷ cidr 192 168 0 0 16
    ∷ cidr 169 254 0 0 16
    ∷ cidr 100 64 0 0 10
    ∷ cidr 224 0 0 0 4
    ∷ []

-- The tests of `check_v4`, each as the block that it stands for.
module _ (a : Ipv4Addr) (h : IsIpv4 a) where
  slash_8 : (n : ℕ) → n < 256 → contains (cidr n 0 0 0 8) (value a) ≡ eqb a.o0 n
  unfolding contains
  slash_8 n hn =
      let same : value a / 2 ^ 24 ≡ a.o0 = omega arith in
      let base : n * 256 * 256 * 256 / 2 ^ 24 ≡ n = omega arith in ground arith

  slash_16 :
      (n m : ℕ)
      → n < 256
      → m < 256
      → contains (cidr n m 0 0 16) (value a) ≡ eqb a.o0 n && eqb a.o1 m
  unfolding contains
  slash_16 n m hn hm = ground arith

  slash_32 : (n : ℕ) → n < 256 → contains (cidr n n n n 32) (value a) ≡ all_octets a n
  unfolding contains
  slash_32 n hn = ground arith

  private_12 : contains (cidr 172 16 0 0 12) (value a) ≡ eqb a.o0 172 && within 16 31 a.o1
  unfolding contains
  private_12 = ground arith

  cgnat_10 : contains (cidr 100 64 0 0 10) (value a) ≡ eqb a.o0 100 && within 64 127 a.o1
  unfolding contains
  cgnat_10 = ground arith

  multicast_4 : contains (cidr 224 0 0 0 4) (value a) ≡ within 224 239 a.o0
  unfolding contains
  multicast_4 = ground arith

pub is_some-if :
    (b : Bool) (r : BlockReason) (o : Option BlockReason)
    → is_some (if b then some r else o) ≡ b || is_some o
is_some-if true r o = refl
is_some-if false r o = refl

or_nil : (b : Bool) → b || false ≡ b
or_nil b = ground arith

or_assoc : (b c d : Bool) → (b || c) || d ≡ b || (c || d)
or_assoc b c d = ground arith

-- An IPv4 address is blocked exactly when it lies in one of the nine listed CIDR blocks.
pub is_blocked-v4 :
    (a : Ipv4Addr) → IsIpv4 a → is_blocked new (v4 a) ≡ any (λ k. contains k (value a)) blocked_v4
unfolding is_blocked check check_v4
is_blocked-v4 a h = simp (
  is_some-if,
  or_nil,
  or_assoc,
  slash_8 a h 127 (omega arith),
  slash_32 a h 0 (omega arith),
  slash_32 a h 255 (omega arith),
  slash_8 a h 10 (omega arith),
  private_12 a h,
  slash_16 a h 192 168 (omega arith) (omega arith),
  slash_16 a h 169 254 (omega arith) (omega arith),
  cgnat_10 a h,
  multicast_4 a h,
)

-- The mask tests on a 16-bit segment, as ranges.
abbrev pub prefix_range : ℕ → Option BlockReason
prefix_range s =
    if leb 0xfe80 s && leb s 0xfebf
    then some link_local
    else if leb 0xfc00 s && leb s 0xfdff
    then some unique_local
    else if leb 0xff00 s
    then some multicast
    else none

holds_below : (ℕ → Bool) → ℕ → Bool
holds_below test zero = true
holds_below test (suc bound) = holds_below test bound && test bound

holds_below-at :
    (test : ℕ → Bool) (bound i : ℕ) → i < bound → holds_below test bound ≡ true → test i ≡ true
unfolding holds_below
holds_below-at test zero i below h = absurd (omega arith)
holds_below-at test (suc bound) i below h = ground (arith, holds_below-at test bound i)

abbrev masks_agree : ℕ → Bool
masks_agree s =
    eqb (bit_and s 0xffc0) (s / 64 * 64)
    && (eqb (bit_and s 0xfe00) (s / 512 * 512) && eqb (bit_and s 0xff00) (s / 256 * 256))

mask_table : holds_below masks_agree 65536 ≡ true
unfolding holds_below
mask_table = refl

mask_ranges :
    (s : ℕ)
    → s < 65536
    → (bit_and s 0xffc0 ≡ s / 64 * 64)
      × (bit_and s 0xfe00 ≡ s / 512 * 512)
      × (bit_and s 0xff00 ≡ s / 256 * 256)
mask_ranges s h = ground (arith, holds_below-at masks_agree 65536 s h mask_table)

-- The masks of the first segment select fe80::/10, fc00::/7 and ff00::/8.
pub check_prefix-range : (s : ℕ) → s < 65536 → check_prefix s ≡ prefix_range s
unfolding check_prefix
check_prefix-range s h = ground (arith, mask_ranges s h)
