-- ===== src/Netip.antt =====
-- The types of Go's net/netip that the program computes with: addresses without zones, prefixes,
-- and the order of the addresses.
pub mod Ranges
pub mod Codec
use Prim.Native.Nat.{min}
use wg_access_server.Prelude.{
  ℕ, ◌+◌, ◌-◌, ◌/◌, ◌%◌, ◌^◌, ◌≤◌, ◌<◌, Bool, true, false, ◌&&◌, ◌≡◌, ◌↔◌, refl, arith, Eq, ◌==◌,
  nat_eq, leb, ltb, nat_beq_iff, if◌then◌else◌,
}

-- `none_addr` is the zero `netip.Addr`, which no network holds.
pub data Addr : Type 0 where
  none_addr : Addr
  v4 v6 : ℕ → Addr

abbrev pub addr_beq : Addr → Addr → Bool
addr_beq none_addr none_addr = true
addr_beq (v4 a) (v4 b) = a == b
addr_beq (v6 a) (v6 b) = a == b
addr_beq _ _ = false

pub addr_beq_iff : (a b : Addr) → (addr_beq a b ≡ true) ↔ (a ≡ b)
addr_beq_iff none_addr none_addr = ((λ h. refl), (λ h. refl))
addr_beq_iff (v4 a) (v4 b) = ((λ h. ground arith), (λ h. ground arith))
addr_beq_iff (v6 a) (v6 b) = ((λ h. ground arith), (λ h. ground arith))
addr_beq_iff _ _ = ((λ h. cc), (λ h. cc))

instance abbrev pub addr_eq : Eq Addr
addr_eq = record { test = addr_beq; test_iff = addr_beq_iff }

-- `Addr.BitLen`
abbrev pub bit_len : Addr → ℕ
bit_len none_addr = 0
bit_len (v4 a) = 32
bit_len (v6 a) = 128

-- `Addr.Next`, the zero address past the last one.
unfoldable pub next : Addr → Addr
next none_addr = none_addr
next (v4 a) = if ltb (a + 1) (2 ^ 32) then v4 (a + 1) else none_addr
next (v6 a) = if ltb (a + 1) (2 ^ 128) then v6 (a + 1) else none_addr

abbrev pub is4 : Addr → Bool
is4 (v4 a) = true
is4 _ = false

abbrev pub is6 : Addr → Bool
is6 (v6 a) = true
is6 _ = false

-- `Addr.Unmap`: an IPv4-mapped IPv6 address becomes the IPv4 address.
unfoldable pub unmap : Addr → Addr
unmap (v6 a) = if a / 2 ^ 32 == 0xffff then v4 (a % 2 ^ 32) else v6 a
unmap a = a

pub record Prefix : Type 0 where
  pub addr : Addr
  pub bits : ℕ

abbrev pub prefix_beq : Prefix → Prefix → Bool
prefix_beq p q = p.addr == q.addr && p.bits == q.bits

pub prefix_beq_iff : (p q : Prefix) → (prefix_beq p q ≡ true) ↔ (p ≡ q)
prefix_beq_iff p q = (
  (λ h. ground (arith, addr_beq_iff p.addr q.addr, nat_beq_iff p.bits q.bits)),
  (λ h. ground (arith, addr_beq_iff p.addr q.addr, nat_beq_iff p.bits q.bits)),
)

instance abbrev pub prefix_eq : Eq Prefix
prefix_eq = record { test = prefix_beq; test_iff = prefix_beq_iff }

-- What the address with the first `bits` bits kept is.
unfoldable pub mask : Addr → ℕ → Addr
mask none_addr bits = none_addr
mask (v4 a) bits = v4 (a - a % 2 ^ (32 - bits))
mask (v6 a) bits = v6 (a - a % 2 ^ (128 - bits))

-- `Prefix.Masked`
unfoldable pub masked : Prefix → Prefix
masked p = record p { addr = mask p.addr p.bits }

-- `Prefix.Contains`: the families differ, or the first bits are compared.
unfoldable pub contains_addr : Addr → ℕ → Addr → Bool
contains_addr (v4 n) bits (v4 x) = n / 2 ^ (32 - bits) == x / 2 ^ (32 - bits)
contains_addr (v6 n) bits (v6 x) = n / 2 ^ (128 - bits) == x / 2 ^ (128 - bits)
contains_addr _ bits _ = false

unfoldable pub contains : Prefix → Addr → Bool
unfolding contains_addr
contains p a = contains_addr p.addr p.bits a

-- `Prefix.Overlaps`: of two networks of one family, whether they agree in the shorter one's bits.
unfoldable pub overlaps_addr : Addr → Addr → ℕ → Bool
overlaps_addr (v4 a) (v4 b) bits = a / 2 ^ (32 - bits) == b / 2 ^ (32 - bits)
overlaps_addr (v6 a) (v6 b) bits = a / 2 ^ (128 - bits) == b / 2 ^ (128 - bits)
overlaps_addr _ _ bits = false

unfoldable pub overlaps : Prefix → Prefix → Bool
unfolding overlaps_addr
overlaps p q = overlaps_addr p.addr q.addr (min p.bits q.bits)

-- What `netip.ParsePrefix` and `netip.ParseAddr` return: addresses and lengths in range.
abbrev pub AddrIsValid : Addr → Type 0
AddrIsValid none_addr = ⊥
AddrIsValid (v4 a) = a < 2 ^ 32
AddrIsValid (v6 a) = a < 2 ^ 128

pub record IsValid (p : Prefix) : Type 0 where
  pub addr_valid : AddrIsValid p.addr
  pub bits_valid : p.bits ≤ bit_len p.addr
