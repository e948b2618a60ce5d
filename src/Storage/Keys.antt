-- ===== src/Storage/Keys.antt =====
-- internal/storage/utils.go: the key of a device in the in-memory storage, "owner"/"name" with both
-- parts quoted as Go's %q quotes them. Runes past ASCII stand in the quotes as they are.
pub mod Injective
use wg_access_server.Prelude.{
  ℕ, ◌+◌, ◌/◌, ◌%◌, ◌||◌, Bool, List, [], ◌∷◌, ◌++◌, ◌==◌, nat_eq, ltb, if◌then◌else◌,
}
use wg_access_server.Prelude.Text.{Text}

unfoldable pub hex_digit : ℕ → ℕ
hex_digit n = if ltb n 10 then 48 + n else 87 + n

-- One rune inside the quotes.
unfoldable pub quote_rune : ℕ → Text
unfolding hex_digit
quote_rune c =
    if c == 34
    then 92 ∷ 34 ∷ []
    else if c == 92
    then 92 ∷ 92 ∷ []
    else if c == 7
    then 92 ∷ 97 ∷ []
    else if c == 8
    then 92 ∷ 98 ∷ []
    else if c == 12
    then 92 ∷ 102 ∷ []
    else if c == 10
    then 92 ∷ 110 ∷ []
    else if c == 13
    then 92 ∷ 114 ∷ []
    else if c == 9
    then 92 ∷ 116 ∷ []
    else if c == 11
    then 92 ∷ 118 ∷ []
    else if ltb c 32 || c == 127
    then 92 ∷ 120 ∷ hex_digit (c / 16) ∷ hex_digit (c % 16) ∷ []
    else c ∷ []

-- The text with its closing quote, before what follows.
unfoldable pub quote_onto : Text → Text → Text
quote_onto [] rest = 34 ∷ rest
quote_onto (c ∷ s) rest = quote_rune c ++ quote_onto s rest

-- `fmt.Sprintf("%q/%q", owner, name)`
unfoldable pub key_str : Text → Text → Text
unfolding quote_onto
key_str owner name = 34 ∷ quote_onto owner (47 ∷ 34 ∷ quote_onto name [])
