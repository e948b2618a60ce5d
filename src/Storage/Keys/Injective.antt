-- ===== src/Storage/Keys/Injective.antt =====
-- No two devices share a key: what was quoted can be read back.
use wg_access_server.Prelude.{
  ℕ, ◌+◌, ◌-◌, ◌*◌, ◌≡◌, refl, sym, ap, ◌∙◌, Option, some, none, [], ◌∷◌, ◌++◌, ◌==◌, nat_eq, ltb,
  arith, if◌then◌else◌,
}
use wg_access_server.Prelude.Text.{Text}
use wg_access_server.Storage.Keys.{quote_rune, quote_onto, key_str}

digit_value : ℕ → ℕ
digit_value d = if ltb d 58 then d - 48 else d - 87

read_hex : Text → Option (ℕ × Text)
unfolding digit_value
read_hex (a ∷ b ∷ s) = some (16 * digit_value a + digit_value b, s)
read_hex _ = none

read_escape : Text → Option (ℕ × Text)
unfolding read_hex
read_escape [] = none
read_escape (e ∷ s) =
    if e == 34
    then some (34, s)
    else if e == 92
    then some (92, s)
    else if e == 97
    then some (7, s)
    else if e == 98
    then some (8, s)
    else if e == 102
    then some (12, s)
    else if e == 110
    then some (10, s)
    else if e == 114
    then some (13, s)
    else if e == 116
    then some (9, s)
    else if e == 118
    then some (11, s)
    else read_hex s

-- Reads one rune of a quoted text; `none` at the closing quote.
read_rune : Text → Option (ℕ × Text)
unfolding read_escape
read_rune [] = none
read_rune (c ∷ s) = if c == 92 then read_escape s else if c == 34 then none else some (c, s)

read_rune-quote_rune : (c : ℕ) (rest : Text) → read_rune (quote_rune c ++ rest) ≡ some (c, rest)
unfolding read_rune quote_rune
read_rune-quote_rune c rest = ground arith

read_rune-quote : (rest : Text) → read_rune (34 ∷ rest) ≡ none
unfolding read_rune
read_rune-quote rest = refl

module _ (c d : ℕ) (p q : Text) (h : quote_rune c ++ p ≡ quote_rune d ++ q) where
  same : ◌≡◌ {A = Option (ℕ × Text)} (some (c, p)) (some (d, q))
  same = sym (read_rune-quote_rune c p) ∙ ap read_rune h ∙ read_rune-quote_rune d q

  same_rune : c ≡ d
  same_rune = ground (arith, same)

  same_rest : p ≡ q
  same_rest = ground (arith, same)

quote_onto-injective :
    (s t : Text) (p q : Text) → quote_onto s p ≡ quote_onto t q → (s ≡ t) × (p ≡ q)
unfolding quote_onto
quote_onto-injective [] [] p q h = ground arith
quote_onto-injective [] (d ∷ t) p q h =
    cc (read_rune-quote_rune d (quote_onto t q), read_rune-quote p)
quote_onto-injective (c ∷ s) [] p q h =
    cc (read_rune-quote_rune c (quote_onto s p), read_rune-quote q)
quote_onto-injective (c ∷ s) (d ∷ t) p q h =
    let (e, r) = quote_onto-injective s t p q (same_rest c d _ _ h) in
    (cc (same_rune c d _ _ h, e), r)

-- Devices of different owners or names have different keys, whatever their owners and names hold.
pub key_str-injective :
    (owner name owner' name' : Text)
    → key_str owner name ≡ key_str owner' name'
    → (owner ≡ owner') × (name ≡ name')
unfolding key_str
key_str-injective owner name owner' name' h =
    let (e, r) =
      quote_onto-injective owner owner' (47 ∷ 34 ∷ quote_onto name [])
        (47 ∷ 34 ∷ quote_onto name' []) (ground arith) in
    (e, (quote_onto-injective name name' [] [] (ground (arith, r))).0)
