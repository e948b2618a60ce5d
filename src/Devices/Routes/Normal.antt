-- ===== src/Devices/Routes/Normal.antt =====
-- What normalizeRoutes lets through.
use wg_access_server.Prelude.{
  ℕ, false, ◌≡◌, ◌≢◌, refl, inl, inr, List, [], ◌∷◌, arith, elem, list_eq, nat_eq, All, Bool-cases,
  Option-cases, ok, Result-cases,
}
use wg_access_server.Prelude.Text.{Text, is_nil, trim_space}
use wg_access_server.Netip.{
  Addr, none_addr, v4, v6, AddrIsValid, Prefix, prefix_eq, IsValid, mask, masked, bit_len,
}
use wg_access_server.Netip.Codec.{Codec, IsCodec}
use wg_access_server.Devices.Routes.{normalize_each, normalize_routes}

mask_valid : (a : Addr) (bits : ℕ) → AddrIsValid a → AddrIsValid (mask a bits)
unfolding mask
mask_valid (v4 a) bits h = omega arith
mask_valid (v6 a) bits h = omega arith
mask_valid none_addr bits h = h

bit_len-mask : (a : Addr) (bits : ℕ) → bit_len (mask a bits) ≡ bit_len a
unfolding mask
bit_len-mask (v4 a) bits = refl
bit_len-mask (v6 a) bits = refl
bit_len-mask none_addr bits = refl

masked-IsValid : (p : Prefix) → IsValid p → IsValid (masked p)
unfolding masked
masked-IsValid p h = record {
  addr_valid = mask_valid p.addr p.bits h.addr_valid;
  bits_valid = rw (bit_len-mask p.addr p.bits) h.bits_valid;
}

-- A network of the list is in range, not the default route, and not seen before.
pub record IsRoute (seen : List Prefix) (p : Prefix) : Type 0 where
  pub valid : IsValid p
  pub nonzero : p.bits ≢ 0
  pub unseen : elem p seen ≡ false

-- Every network is one, and none stands twice.
abbrev pub AreRoutes : List Prefix → List Prefix → Type 0
AreRoutes seen [] = Unit
AreRoutes seen (p ∷ ps) = IsRoute seen p × AreRoutes (p ∷ seen) ps

pub normalize_each-AreRoutes :
    {c : Codec} (k : IsCodec c) (routes : List Text) (seen ps : List Prefix)
    → normalize_each c routes seen ≡ ok ps
    → AreRoutes seen ps
unfolding normalize_each masked
normalize_each-AreRoutes {c} k [] seen ps h = let e : [] ≡ ps = ground arith in rw (← e) tt
normalize_each-AreRoutes {c} k (route ∷ routes) seen ps h =
    elim (Bool-cases (is_nil (trim_space route))) [
      | inl nil ↦ normalize_each-AreRoutes k routes seen ps (ground arith)
      | inr given ↦ elim (Option-cases (c.parse_prefix (trim_space route))) [
        | inl bad ↦ ground arith
        | inr (p, parsed) ↦ elim (Bool-cases (elem (masked p) seen)) [
          | inl old ↦ normalize_each-AreRoutes k routes seen ps (ground arith)
          | inr new ↦ elim (Result-cases (normalize_each c routes (masked p ∷ seen))) [
            | inr (x, bad) ↦ ground arith
            | inl (qs, good) ↦
                let e : masked p ∷ qs ≡ ps = ground arith in
                rw (← e) (
                  record {
                    valid = masked-IsValid p (k.parse_prefix-IsValid (trim_space route) p parsed);
                    nonzero = ground arith;
                    unseen = new;
                  },
                  normalize_each-AreRoutes k routes (masked p ∷ seen) qs good,
                )
          ]
        ]
      ]
    ]

AreRoutes-IsValid : (seen ps : List Prefix) → AreRoutes seen ps → All IsValid ps
AreRoutes-IsValid seen [] h = tt
AreRoutes-IsValid seen (p ∷ ps) h = (h.0.valid, AreRoutes-IsValid (p ∷ seen) ps h.1)

pub normalize_routes-AreRoutes :
    {c : Codec} (k : IsCodec c) (routes : List Text) (ps : List Prefix)
    → normalize_routes c routes ≡ ok ps
    → AreRoutes [] ps
unfolding normalize_routes
normalize_routes-AreRoutes k routes ps h = normalize_each-AreRoutes k routes [] ps (ground arith)

pub normalize_routes-IsValid :
    {c : Codec} (k : IsCodec c) (routes : List Text) (ps : List Prefix)
    → normalize_routes c routes ≡ ok ps
    → All IsValid ps
normalize_routes-IsValid k routes ps h =
    AreRoutes-IsValid [] ps (normalize_routes-AreRoutes k routes ps h)
