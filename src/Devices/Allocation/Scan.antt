-- ===== src/Devices/Allocation/Scan.antt =====
-- The walk through a subnet finds the first free address, and ends without one only if there is none.
use wg_access_server.Prelude.{
  ℕ, zero, suc, ◌+◌, ◌^◌, ◌≤◌, ◌<◌, true, false, ◌≡◌, ◌≢◌, refl, sym, ◌⊎◌, inl, inr, none, some,
  List, ◌∷◌, ◌==◌, arith, elem, Bool-cases, ltb,
}
use wg_access_server.Netip.{
  Addr, none_addr, v4, v6, Prefix, AddrIsValid, addr_eq, addr_beq_iff, next, mask, masked, contains,
  contains_addr,
}
use wg_access_server.Netip.Ranges.{
  num, size, From, contains-From, contains_convex, next-From, num-next, num-lt-size,
}
use wg_access_server.Devices.Allocation.{first_free, free_in}

module _ (subnet : Prefix) (used : List Addr) where
  abbrev HeldFrom : Addr → Type 0
  HeldFrom ip = From subnet.addr subnet.bits ip

  -- An address of the subnet that is not the present one is at the next one or after it.
  after_next :
      (ip b : Addr)
      → HeldFrom ip
      → contains subnet b ≡ true
      → AddrIsValid b
      → num ip ≤ num b
      → ip ≢ b
      → (num (next ip) ≤ num b) × (num (next ip) ≡ num ip + 1)
  unfolding contains
  after_next ip b from h v le ne =
      num-next subnet.addr ip b subnet.bits
        (contains_convex subnet.addr ip b subnet.bits from h v le) h v le ne

  contains_between :
      (ip b : Addr)
      → HeldFrom ip
      → contains subnet b ≡ true
      → AddrIsValid b
      → num ip ≤ num b
      → contains subnet ip ≡ true
  unfolding contains
  contains_between ip b from h v le = contains_convex subnet.addr ip b subnet.bits from h v le

  -- What is found is in the subnet and free, and all before it are used.
  first_free-some :
      (fuel : ℕ) (ip a : Addr)
      → HeldFrom ip
      → first_free fuel subnet used ip ≡ some a
      → (contains subnet a ≡ true)
        × (elem a used ≡ false)
        × ((b : Addr)
            → contains subnet b ≡ true
            → AddrIsValid b
            → num ip ≤ num b
            → num b < num a
            → elem b used ≡ true)
  unfolding first_free
  first_free-some zero ip a from h = cc
  first_free-some (suc fuel) ip a from h = elim (Bool-cases (contains subnet ip)) [
    | inr out ↦ ground arith
    | inl held ↦ elim (Bool-cases (elem ip used)) [
      | inr free ↦
          let e : ip ≡ a = ground arith in
          rw (← e) (held, free, λ b hb v le lt. absurd (omega arith))
      | inl taken ↦
          let (inside, free, before) =
            first_free-some fuel (next ip) a (next-From subnet.addr ip subnet.bits from)
              (ground arith) in
          (
            inside,
            free,
            λ b hb v le lt. elim (Bool-cases (ip == b)) [
              | inl same ↦ rw (← (addr_beq_iff ip b).0 same) taken
              | inr other ↦
                  before b hb v
                    (after_next ip b from hb v le (λ e. ground (arith, addr_beq_iff ip b))).0 lt
            ],
          )
    ]
  ]

  -- With fuel for the rest of the subnet, nothing is found only if all the rest is used.
  first_free-none :
      (fuel : ℕ) (ip : Addr)
      → HeldFrom ip
      → first_free fuel subnet used ip ≡ none
      → (b : Addr) → contains subnet b ≡ true
      → AddrIsValid b
      → num ip ≤ num b
      → num b < num ip + fuel
      → elem b used ≡ true
  unfolding first_free
  first_free-none zero ip from h b hb v le lt = absurd (omega arith)
  first_free-none (suc fuel) ip from h b hb v le lt = elim (Bool-cases (elem ip used)) [
    | inr free ↦ ground (arith, contains_between ip b from hb v le)
    | inl taken ↦ elim (Bool-cases (ip == b)) [
      | inl same ↦ rw (← (addr_beq_iff ip b).0 same) taken
      | inr other ↦
          let (le', step) = after_next ip b from hb v le (λ e. ground (arith, addr_beq_iff ip b)) in
          first_free-none fuel (next ip) (next-From subnet.addr ip subnet.bits from)
            (ground (arith, contains_between ip b from hb v le)) b hb v le' (omega arith)
    ]
  ]

-- An address in range, or the one past all.
abbrev InRange : Addr → Type 0
InRange a = (a ≡ none_addr) ⊎ AddrIsValid a

next-InRange : (a : Addr) → InRange (next a)
unfolding next
next-InRange none_addr = inl refl
next-InRange (v4 x) = elim (Bool-cases (ltb (x + 1) (2 ^ 32))) [
  | inl e ↦ rw e (inr (ground arith))
  | inr e ↦ rw e (inl refl)
]
next-InRange (v6 x) = elim (Bool-cases (ltb (x + 1) (2 ^ 128))) [
  | inl e ↦ rw e (inr (ground arith))
  | inr e ↦ rw e (inl refl)
]

contains-none : (n : Addr) (bits : ℕ) → contains_addr n bits none_addr ≡ false
unfolding contains_addr
contains-none none_addr bits = refl
contains-none (v4 n) bits = refl
contains-none (v6 n) bits = refl

first_free-InRange :
    (subnet : Prefix) (used : List Addr) (fuel : ℕ) (ip a : Addr)
    → InRange ip
    → first_free fuel subnet used ip ≡ some a
    → AddrIsValid a
unfolding first_free contains
first_free-InRange subnet used zero ip a r h = cc
first_free-InRange subnet used (suc fuel) ip a (inl e) h =
    ground (arith, contains-none subnet.addr subnet.bits)
first_free-InRange subnet used (suc fuel) ip a (inr v) h = elim (Bool-cases (contains subnet ip)) [
  | inr out ↦ ground arith
  | inl held ↦ elim (Bool-cases (elem ip used)) [
    | inr free ↦ let e : ip ≡ a = ground arith in rw (← e) v
    | inl taken ↦ first_free-InRange subnet used fuel (next ip) a (next-InRange ip) (ground arith)
  ]
]

mask-From : (n : Addr) (bits : ℕ) → From n bits (mask n bits)
unfolding mask
mask-From none_addr bits = tt
mask-From (v4 n) bits = omega arith
mask-From (v6 n) bits = omega arith

num-mask-le : (n b : Addr) (bits : ℕ) → From n bits b → AddrIsValid b → num (mask n bits) ≤ num b
unfolding mask
num-mask-le (v4 n) (v4 b) bits h v = h
num-mask-le (v6 n) (v6 b) bits h v = h
num-mask-le n none_addr bits h v = absurd v
num-mask-le none_addr (v4 b) bits h v = absurd h
num-mask-le none_addr (v6 b) bits h v = absurd h
num-mask-le (v4 n) (v6 b) bits h v = absurd h
num-mask-le (v6 n) (v4 b) bits h v = absurd h

-- An address that clients get: in the subnet, and neither the network's address nor the server's.
pub record IsClient (subnet : Prefix) (b : Addr) : Type 0 where
  pub inside : contains subnet b ≡ true
  pub in_range : AddrIsValid b
  pub not_network : b ≢ (masked subnet).addr
  pub not_server : b ≢ next (masked subnet).addr

-- The address is the first client address that is not used.
pub record IsFirstFree (subnet : Prefix) (used : List Addr) (a : Addr) : Type 0 where
  pub inside : contains subnet a ≡ true
  pub in_range : AddrIsValid a
  pub not_network : a ≢ (masked subnet).addr
  pub not_server : a ≢ next (masked subnet).addr
  pub unused : elem a used ≡ false
  pub first : (b : Addr) → IsClient subnet b → num b < num a → elem b used ≡ true

module _ (subnet : Prefix) (used : List Addr) where
  abbrev start : Addr
  start = (masked subnet).addr

  start-From : From subnet.addr subnet.bits start
  unfolding masked
  start-From = mask-From subnet.addr subnet.bits

  third-From : From subnet.addr subnet.bits (next (next start))
  third-From =
      next-From subnet.addr (next start) subnet.bits
        (next-From subnet.addr start subnet.bits start-From)

  -- Every client address is at the third address of the subnet or after it.
  third-le : (b : Addr) → IsClient subnet b → num (next (next start)) ≤ num b
  unfolding contains masked
  third-le b c =
      let le =
        num-mask-le subnet.addr b subnet.bits (contains-From subnet.addr b subnet.bits c.inside)
          c.in_range in
      let le' =
        after_next subnet used start b start-From c.inside c.in_range le
          (λ e. c.not_network (sym e)) in
      (after_next subnet used (next start) b (next-From subnet.addr start subnet.bits start-From)
        c.inside c.in_range le'.0 (λ e. c.not_server (sym e))).0

  reserved-elem :
      (b : Addr)
      → IsClient subnet b
      → elem b (next start ∷ start ∷ used) ≡ true
      → elem b used ≡ true
  unfolding elem
  reserved-elem b c h =
      ground (arith, addr_beq_iff b start, addr_beq_iff b (next start), c.not_network, c.not_server)

  -- What the walk gives is a client address of the subnet - in it, in range, and neither the network's
  -- address nor the server's - that is not used, and all client addresses before it are used.
  pub free_in-some : (a : Addr) → free_in subnet used ≡ some a → IsFirstFree subnet used a
  unfolding free_in elem
  free_in-some a h =
      let (inside, free, before) =
        first_free-some subnet (next start ∷ start ∷ used) (size subnet) (next (next start)) a
          third-From h in
      record {
        inside = inside;
        in_range =
            first_free-InRange subnet (next start ∷ start ∷ used) (size subnet) (next (next start))
              a (next-InRange (next start)) h;
        not_network = λ e. ground (arith, addr_beq_iff a start);
        not_server = λ e. ground (arith, addr_beq_iff a (next start));
        unused = ground arith;
        first = λ b c lt. reserved-elem b c (before b c.inside c.in_range (third-le b c) lt);
      }

  -- Where the walk gives nothing, every client address of the subnet is used.
  pub free_in-none :
      free_in subnet used ≡ none → (b : Addr) → IsClient subnet b → elem b used ≡ true
  unfolding free_in contains
  free_in-none h b c = reserved-elem b c (
      first_free-none subnet (next start ∷ start ∷ used) (size subnet) (next (next start))
        third-From h b c.inside c.in_range (third-le b c)
        (num-lt-size subnet.addr (next (next start)) b subnet.bits third-From c.inside c.in_range))
