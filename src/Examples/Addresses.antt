-- ===== src/Examples/Addresses.antt =====
-- A text form of addresses for the examples: a number past every separator and white space.
use wg_access_server.Prelude.{
  ℕ, ◌+◌, ◌-◌, ◌^◌, ◌≤◌, ◌&&◌, ◌≡◌, Option, none, some, [], ◌∷◌, arith, nat_eq, ltb, leb,
  if◌then◌else◌, elem, Bool-cases, inl, inr,
}
use wg_access_server.Prelude.Text.{Text, trim_left, trim_right, is_space}
use wg_access_server.Prelude.Text.Lists.{IsEntry}
use wg_access_server.Netip.{Addr, none_addr, v4, v6, Prefix, AddrIsValid, IsValid, bit_len}
use wg_access_server.Netip.Codec.{Codec, IsCodec}

abbrev base : ℕ
base = 20000

abbrev six : ℕ
six = 40000

abbrev show : Addr → ℕ → Text
show none_addr bits = []
show (v4 a) bits = (base + a) ∷ (base + bits) ∷ []
show (v6 a) bits = (base + a) ∷ (six + bits) ∷ []

abbrev read : Text → Option Prefix
read (x ∷ y ∷ []) =
    if leb base x && leb base y && ltb (x - base) (2 ^ 32) && leb (y - base) 32
    then some (record { addr = v4 (x - base); bits = y - base })
    else if leb base x && leb six y && ltb (x - base) (2 ^ 128) && leb (y - six) 128
    then some (record { addr = v6 (x - base); bits = y - six })
    else none
read _ = none

abbrev read_addr : Text → Option Addr
read_addr (x ∷ []) = if leb base x && ltb (x - base) (2 ^ 32) then some (v4 (x - base)) else none
read_addr _ = none

abbrev show_addr : Addr → Text
show_addr (v4 a) = (base + a) ∷ []
show_addr _ = []

abbrev pub codec : Codec
codec = record {
  parse_addr = read_addr;
  parse_prefix = read;
  print_addr = show_addr;
  print_prefix = λ p. show p.addr p.bits;
}

read-show :
    (a : Addr) (bits : ℕ)
    → AddrIsValid a
    → bits ≤ bit_len a
    → read (show a bits) ≡ some (record { addr = a; bits = bits })
read-show none_addr bits v le = absurd v
read-show (v4 a) bits v le = ground arith
read-show (v6 a) bits v le = ground arith

show-IsEntry : (a : Addr) (bits : ℕ) → AddrIsValid a → IsEntry 44 (show a bits)
unfolding elem trim_left trim_right is_space
show-IsEntry none_addr bits v = absurd v
show-IsEntry (v4 a) bits v = record {
  nonempty = λ e. cc;
  whole = ground arith;
  front = ground arith;
  back = ground arith;
}
show-IsEntry (v6 a) bits v = record {
  nonempty = λ e. cc;
  whole = ground arith;
  front = ground arith;
  back = ground arith;
}

read-IsValid : (t : Text) (p : Prefix) → read t ≡ some p → IsValid p
read-IsValid (x ∷ y ∷ []) p h =
    elim (Bool-cases (leb base x && leb base y && ltb (x - base) (2 ^ 32) && leb (y - base) 32)) [
      | inl is_v4 ↦
          let e : record { addr = v4 (x - base); bits = y - base } ≡ p = ground arith in
          rw (← e) (record { addr_valid = ground arith; bits_valid = ground arith })
      | inr not_v4 ↦
          elim (Bool-cases
            (leb base x && leb six y && ltb (x - base) (2 ^ 128) && leb (y - six) 128)) [
              | inl is_v6 ↦
                  let e : record { addr = v6 (x - base); bits = y - six } ≡ p = ground arith in
                  rw (← e) (record { addr_valid = ground arith; bits_valid = ground arith })
              | inr bad ↦ ground arith
            ]
    ]
read-IsValid _ p h = cc

read_addr-IsValid : (t : Text) (a : Addr) → read_addr t ≡ some a → AddrIsValid a
read_addr-IsValid (x ∷ []) a h = elim (Bool-cases (leb base x && ltb (x - base) (2 ^ 32))) [
  | inl is_v4 ↦ let e : v4 (x - base) ≡ a = ground arith in rw (← e) (ground arith)
  | inr bad ↦ ground arith
]
read_addr-IsValid _ a h = cc

pub codec-IsCodec : IsCodec codec
codec-IsCodec = record {
  parse-print = λ p h. read-show p.addr p.bits h.addr_valid h.bits_valid;
  print-IsEntry = λ p h. show-IsEntry p.addr p.bits h.addr_valid;
  parse_prefix-IsValid = read-IsValid;
  parse_addr-IsValid = read_addr-IsValid;
}
