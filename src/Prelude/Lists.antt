-- ===== src/Prelude/Lists.antt =====
-- Lists: membership and quantifiers by recursion, which the tactics read, and loops that filter.
use Prim.Native.Nat.{ℕ, suc, ◌+◌}
use mathlib.Core.Path.{◌≡◌, refl}
use mathlib.Core.Logic.{◌⊎◌, inl, inr}
use mathlib.Core.Bool.{Bool, true, false, ◌||◌}
use mathlib.Core.List.{List, [], ◌∷◌, ◌++◌}
use native.Mathlib.Omega.{arith}
use wg_access_server.Prelude.Tests.{Eq, ◌==◌, if◌then◌else◌, Bool-cases}

-- The empty type at every level.
pub data Never {ℓ} : Type ℓ where

module _ {ℓ} {A : Type ℓ} where
  abbrev pub length : List A → ℕ
  length [] = 0
  length (x ∷ xs) = suc (length xs)

  pub length-append : (xs ys : List A) → length (xs ++ ys) ≡ length xs + length ys
  length-append [] ys = omega arith
  length-append (x ∷ xs) ys = omega (arith, length-append xs ys)

  -- `x` stands in the list.
  abbrev pub In : A → List A → Type ℓ
  In x [] = Never
  In x (y ∷ ys) = (x ≡ y) ⊎ In x ys

  abbrev pub All {κ} : (A → Type κ) → List A → Type κ
  All P [] = Unit
  All P (x ∷ xs) = P x × All P xs

  pub All-In {κ} : (P : A → Type κ) (xs : List A) (x : A) → All P xs → In x xs → P x
  All-In P [] x h m = elim m [ ]
  All-In P (y ∷ ys) x h (inl e) = rw e h.0
  All-In P (y ∷ ys) x h (inr m) = All-In P ys x h.1 m

  pub In-append : (x : A) (xs ys : List A) → In x (xs ++ ys) → In x xs ⊎ In x ys
  In-append x [] ys m = inr m
  In-append x (y ∷ zs) ys (inl e) = inl (inl e)
  In-append x (y ∷ zs) ys (inr m) = elim (In-append x zs ys m) [
    | inl l ↦ inl (inr l)
    | inr r ↦ inr r
  ]

  pub In-append_left : (x : A) (xs ys : List A) → In x xs → In x (xs ++ ys)
  In-append_left x [] ys m = elim m [ ]
  In-append_left x (y ∷ zs) ys (inl e) = inl e
  In-append_left x (y ∷ zs) ys (inr m) = inr (In-append_left x zs ys m)

  pub In-append_right : (x : A) (xs ys : List A) → In x ys → In x (xs ++ ys)
  In-append_right x [] ys m = m
  In-append_right x (y ∷ zs) ys m = inr (In-append_right x zs ys m)

  -- `for x in xs { if p(x) { kept = append(kept, x) } }`
  unfoldable pub keep : (A → Bool) → List A → List A
  keep p [] = []
  keep p (x ∷ xs) = let rest = keep p xs in if p x then x ∷ rest else rest

  pub In-keep : (p : A → Bool) (x : A) (xs : List A) → In x (keep p xs) → In x xs × (p x ≡ true)
  unfolding keep
  In-keep p x [] m = elim m [ ]
  In-keep p x (y ∷ ys) m = ground (arith, In-keep p x ys)

  pub keep-In : (p : A → Bool) (x : A) (xs : List A) → In x xs → p x ≡ true → In x (keep p xs)
  unfolding keep
  keep-In p x [] m h = elim m [ ]
  keep-In p x (y ∷ ys) m h = ground (arith, keep-In p x ys)

  -- Some element passes the test.
  unfoldable pub any : (A → Bool) → List A → Bool
  any p [] = false
  any p (x ∷ xs) = p x || any p xs

  pub any-In : (p : A → Bool) (xs : List A) → any p xs ≡ true → (x : A) × In x xs × (p x ≡ true)
  unfolding any
  any-In p [] h = cc
  any-In p (x ∷ xs) h = elim (Bool-cases (p x)) [
    | inl e ↦ (x, inl refl, e)
    | inr e ↦ let r = any-In p xs (ground arith) in (r.0, inr r.1, r.2)
  ]

  pub any-eq-false : (p : A → Bool) (xs : List A) (x : A) → any p xs ≡ false → In x xs → p x ≡ false
  unfolding any
  any-eq-false p [] x h m = elim m [ ]
  any-eq-false p (y ∷ ys) x h m = ground (arith, any-eq-false p ys x)

module _ {ℓ} {A : Type ℓ} ⦃e : Eq A⦄ where
  -- A Go map that is used as a set.
  unfoldable pub elem : A → List A → Bool
  elem x [] = false
  elem x (y ∷ ys) = x == y || elem x ys

  pub elem-In : (x : A) (xs : List A) → elem x xs ≡ true → In x xs
  unfolding elem
  elem-In x [] h = cc
  elem-In x (y ∷ ys) h = ground (arith, e.test_iff x y, elem-In x ys)

  pub In-elem : (x : A) (xs : List A) → In x xs → elem x xs ≡ true
  unfolding elem
  In-elem x [] m = elim m [ ]
  In-elem x (y ∷ ys) m = ground (arith, e.test_iff x y, In-elem x ys)
