-- ===== src/Prelude/Text/Lists.antt =====
-- Lists written with separators and read back.
use Prim.Native.Nat.{ℕ}
use mathlib.Core.Path.{◌≡◌, refl, ap, ◌∙◌}
use mathlib.Core.Logic.{◌≢◌}
use mathlib.Core.Bool.{false}
use mathlib.Core.List.{List, [], ◌∷◌, ◌++◌, map}
use native.Mathlib.Omega.{arith}
use wg_access_server.Prelude.Tests.{nat_eq, nat_beq_iff}
use wg_access_server.Prelude.Lists.{All, elem}
use wg_access_server.Prelude.Text.{
  Text, is_space, trim_left, trim_right, trim_space, split, join, cons_head,
}

-- The text can stand in a list with separators: it does not hold the separator, is not empty, and
-- neither starts nor ends with white space.
pub record IsEntry (sep : ℕ) (t : Text) : Type 0 where
  pub nonempty : t ≢ []
  pub whole : elem sep t ≡ false
  pub front : trim_left t ≡ t
  pub back : trim_right t ≡ t

pub split-whole : (sep : ℕ) (t : Text) → elem sep t ≡ false → split sep t ≡ t ∷ []
unfolding split elem
split-whole sep [] h = refl
split-whole sep (c ∷ t) h = ground (arith, split-whole sep t, nat_beq_iff sep c, nat_beq_iff c sep)

pub split-append :
    (sep : ℕ) (t rest : Text)
    → elem sep t ≡ false
    → split sep (t ++ sep ∷ rest) ≡ t ∷ split sep rest
unfolding split elem
split-append sep [] rest h = ground arith
split-append sep (c ∷ t) rest h =
    ground (arith, split-append sep t rest, nat_beq_iff sep c, nat_beq_iff c sep)

pub trim_space-IsEntry : {sep : ℕ} {t : Text} → IsEntry sep t → trim_space t ≡ t
unfolding trim_space
trim_space-IsEntry {t = t} h = ap trim_left h.back ∙ h.front

trim_right-blank : (t : Text) → t ≢ [] → trim_right t ≡ t → trim_right (32 ∷ t) ≡ 32 ∷ t
unfolding trim_right
trim_right-blank [] h e = absurd (h refl)
trim_right-blank (c ∷ t) h e = rw e refl

-- The space after a comma is trimmed.
trim_space-blank : {sep : ℕ} {t : Text} → IsEntry sep t → trim_space (32 ∷ t) ≡ t
unfolding trim_space is_space
trim_space-blank {t = t} h = rw (trim_right-blank t h.nonempty h.back) h.front

-- The separator that the program writes.
abbrev pub comma_space : Text
comma_space = 44 ∷ 32 ∷ []

abbrev blank : Text → Text
blank t = 32 ∷ t

split-blank : (s : Text) → split 44 (blank s) ≡ cons_head 32 (split 44 s)
unfolding split
split-blank s = refl

-- The parts of a joined list, each but the first with the space before it.
pub split-join :
    (x : Text) (xs : List Text)
    → All (IsEntry 44) (x ∷ xs)
    → split 44 (join comma_space (x ∷ xs)) ≡ x ∷ map blank xs
unfolding join
split-join x [] h = split-whole 44 x h.0.whole
split-join x (y ∷ xs) h =
    split-append 44 x (32 ∷ join comma_space (y ∷ xs)) h.0.whole
    ∙ rw (split-blank (join comma_space (y ∷ xs)), split-join y xs h.1)

pub trim_space-blanks : (xs : List Text) → All (IsEntry 44) xs → map trim_space (map blank xs) ≡ xs
trim_space-blanks [] h = refl
trim_space-blanks (x ∷ xs) h = cc (trim_space-blank h.0, trim_space-blanks xs h.1)

-- Splitting and trimming a joined list gives its entries back.
pub trimmed-join :
    (x : Text) (xs : List Text)
    → All (IsEntry 44) (x ∷ xs)
    → map trim_space (split 44 (join comma_space (x ∷ xs))) ≡ x ∷ xs
trimmed-join x xs h = rw (split-join x xs h) (cc (trim_space-IsEntry h.0, trim_space-blanks xs h.1))
