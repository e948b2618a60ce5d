-- ===== src/Netip/Ranges.antt =====
-- Which addresses a network holds: an interval that starts at the masked address.
use native.Mathlib.Nat.{one-le-pow, div-add-mod, mod-lt}
use wg_access_server.Prelude.{
  ℕ, ◌+◌, ◌-◌, ◌*◌, ◌/◌, ◌%◌, ◌^◌, ◌≤◌, ◌<◌, true, ◌≡◌, ◌≢◌, ap, arith, nat_eq, nat_beq_iff,
}
use wg_access_server.Netip.{
  Addr, none_addr, v4, v6, bit_len, Prefix, AddrIsValid, next, contains_addr, addr_eq,
}

pub pow_pos : (n : ℕ) → 0 < 2 ^ n
pow_pos n = one-le-pow n 2 (omega arith)

same_block : (a x m : ℕ) → 0 < m → a / m ≡ x / m → (a - a % m ≤ x) × (x < a - a % m + m)
same_block a x m h e =
    omega (arith, mod-lt a h, mod-lt x h, div-add-mod a m, div-add-mod x m, ap (λ (t : ℕ). m * t) e)

block_same : (a x m : ℕ) → 0 < m → a - a % m ≤ x → x < a - a % m + m → a / m ≡ x / m
block_same a x m h lo hi = grind (arith, mod-lt a h, mod-lt x h, div-add-mod a m, div-add-mod x m)

-- The position of an address in its family; the zero address stands past all.
abbrev pub num : Addr → ℕ
num none_addr = 2 ^ 128
num (v4 a) = a
num (v6 a) = a

-- How many addresses the network holds.
abbrev pub size : Prefix → ℕ
size p = 2 ^ (bit_len p.addr - p.bits)

-- The address is of the network's family and not before it, or is past all.
abbrev pub From : Addr → ℕ → Addr → Type 0
From n bits none_addr = Unit
From (v4 n) bits (v4 x) = n - n % 2 ^ (32 - bits) ≤ x
From (v6 n) bits (v6 x) = n - n % 2 ^ (128 - bits) ≤ x
From _ bits _ = ⊥

pub contains-From : (n x : Addr) (bits : ℕ) → contains_addr n bits x ≡ true → From n bits x
unfolding contains_addr
contains-From (v4 n) (v4 x) bits h =
    (same_block n x (2 ^ (32 - bits)) (pow_pos (32 - bits)) ((nat_beq_iff _ _).0 h)).0
contains-From (v6 n) (v6 x) bits h =
    (same_block n x (2 ^ (128 - bits)) (pow_pos (128 - bits)) ((nat_beq_iff _ _).0 h)).0
contains-From _ none_addr bits h = tt
contains-From _ _ bits h = cc

-- Between an address that is not before the network and one in it, all are in it.
pub contains_convex :
    (n x b : Addr) (bits : ℕ)
    → From n bits x
    → contains_addr n bits b ≡ true
    → AddrIsValid b
    → num x ≤ num b
    → contains_addr n bits x ≡ true
unfolding contains_addr
contains_convex (v4 n) (v4 x) (v4 b) bits from h v le =
    let m : ℕ = 2 ^ (32 - bits) in
    let block = same_block n b m (pow_pos (32 - bits)) ((nat_beq_iff _ _).0 h) in
    (nat_beq_iff _ _).1 (block_same n x m (pow_pos (32 - bits)) from (omega arith))
contains_convex (v6 n) (v6 x) (v6 b) bits from h v le =
    let m : ℕ = 2 ^ (128 - bits) in
    let block = same_block n b m (pow_pos (128 - bits)) ((nat_beq_iff _ _).0 h) in
    (nat_beq_iff _ _).1 (block_same n x m (pow_pos (128 - bits)) from (omega arith))
contains_convex n none_addr (v4 b) bits from h v le = absurd (omega arith)
contains_convex n none_addr (v6 b) bits from h v le = absurd (omega arith)
contains_convex _ _ _ bits from h v le = ground arith

-- The next address is one further, and past the last one there is none.
pub next-From : (n x : Addr) (bits : ℕ) → From n bits x → From n bits (next x)
unfolding next
next-From n none_addr bits h = tt
next-From (v4 n) (v4 x) bits h = ground arith
next-From (v6 n) (v6 x) bits h = ground arith
next-From none_addr (v4 x) bits h = absurd h
next-From none_addr (v6 x) bits h = absurd h
next-From (v4 n) (v6 x) bits h = absurd h
next-From (v6 n) (v4 x) bits h = absurd h

pub num-next :
    (n x b : Addr) (bits : ℕ)
    → contains_addr n bits x ≡ true
    → contains_addr n bits b ≡ true
    → AddrIsValid b
    → num x ≤ num b
    → x ≢ b
    → (num (next x) ≤ num b) × (num (next x) ≡ num x + 1)
unfolding next contains_addr
num-next (v4 n) (v4 x) (v4 b) bits hx hb v le ne = ground arith
num-next (v6 n) (v6 x) (v6 b) bits hx hb v le ne = ground arith
num-next _ _ _ bits hx hb v le ne = ground arith

-- No address of the network is `size` or further past one that is not before it.
pub num-lt-size :
    (n x b : Addr) (bits : ℕ)
    → From n bits x
    → contains_addr n bits b ≡ true
    → AddrIsValid b
    → num b < num x + 2 ^ (bit_len n - bits)
unfolding contains_addr
num-lt-size (v4 n) (v4 x) (v4 b) bits from h v =
    let block = same_block n b (2 ^ (32 - bits)) (pow_pos (32 - bits)) ((nat_beq_iff _ _).0 h) in
    omega arith
num-lt-size (v6 n) (v6 x) (v6 b) bits from h v =
    let block = same_block n b (2 ^ (128 - bits)) (pow_pos (128 - bits)) ((nat_beq_iff _ _).0 h) in
    omega arith
num-lt-size (v4 n) none_addr (v4 b) bits from h v = omega arith
num-lt-size (v6 n) none_addr (v6 b) bits from h v = omega arith
num-lt-size _ _ _ bits from h v = ground arith
