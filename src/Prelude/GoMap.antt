-- ===== src/Prelude/GoMap.antt =====
-- Go maps. The order of the entries is the order of one iteration over the map.
use mathlib.Core.Path.{◌≡◌, refl, ap}
use mathlib.Core.Logic.{◌⊎◌, inl, inr, ◌≢◌}
use mathlib.Core.Option.{Option, none, some}
use mathlib.Core.List.{List, [], ◌∷◌}
use native.Mathlib.Omega.{arith}
use wg_access_server.Prelude.Tests.{Eq, ◌==◌, if◌then◌else◌, Bool-cases}
use wg_access_server.Prelude.Lists.{In}

abbrev pub GoMap {ℓ} : Type ℓ → Type ℓ → Type ℓ
GoMap K V = List (K × V)

module _ {ℓ} {K V : Type ℓ} ⦃eq : Eq K⦄ where
  -- `v, ok := m[k]`
  unfoldable pub get : GoMap K V → K → Option V
  get [] k = none
  get ((j, v) ∷ m) k = if j == k then some v else get m k

  -- `m[k] = v`
  unfoldable pub put : GoMap K V → K → V → GoMap K V
  put [] k v = (k, v) ∷ []
  put ((j, w) ∷ m) k v = let rest = put m k v in if j == k then (k, v) ∷ m else (j, w) ∷ rest

  -- `delete(m, k)`
  unfoldable pub delete : GoMap K V → K → GoMap K V
  delete [] k = []
  delete ((j, w) ∷ m) k = let rest = delete m k in if j == k then rest else (j, w) ∷ rest

  pub get-put :
      (m : GoMap K V) (k j : K) (v : V) → get (put m k v) j ≡ (if k == j then some v else get m j)
  unfolding get put
  get-put [] k j v = refl
  get-put ((i, w) ∷ m) k j v =
      ground (arith, eq.test_iff k j, eq.test_iff i k, eq.test_iff i j, get-put m k j v)

  -- What stands under a key after a write is what was written there, or what was there before.
  pub get-put_cases :
      (m : GoMap K V) (k j : K) (v w : V)
      → get (put m k v) j ≡ some w
      → ((k ≡ j) × (v ≡ w)) ⊎ ((k ≢ j) × (get m j ≡ some w))
  get-put_cases m k j v w h = elim (Bool-cases (k == j)) [
    | inl e ↦ inl ((eq.test_iff k j).0 e, ground (arith, get-put m k j v))
    | inr e ↦ inr ((λ z. ground (arith, eq.test_iff k j)), ground (arith, get-put m k j v))
  ]

  pub get-delete :
      (m : GoMap K V) (k j : K) → get (delete m k) j ≡ (if k == j then none else get m j)
  unfolding get delete
  get-delete [] k j = ground arith
  get-delete ((i, w) ∷ m) k j =
      ground (arith, eq.test_iff k j, eq.test_iff i k, eq.test_iff i j, get-delete m k j)

  -- Every key stands once: what makes a list of entries a map.
  abbrev pub IsMap : GoMap K V → Type ℓ
  IsMap [] = Unit
  IsMap ((k, v) ∷ m) = (get m k ≡ none) × IsMap m

  pub put-IsMap : (m : GoMap K V) (k : K) (v : V) → IsMap m → IsMap (put m k v)
  unfolding get put
  put-IsMap [] k v h = (refl, tt)
  put-IsMap ((i, w) ∷ m) k v h =
      ground (arith, eq.test_iff i k, eq.test_iff k i, get-put m k i v, put-IsMap m k v h.1)

  pub delete-IsMap : (m : GoMap K V) (k : K) → IsMap m → IsMap (delete m k)
  unfolding get delete
  delete-IsMap [] k h = tt
  delete-IsMap ((i, w) ∷ m) k h = ground (arith, get-delete m k i, delete-IsMap m k h.1)

  pub get-In : (m : GoMap K V) (k : K) (v : V) → get m k ≡ some v → In (k, v) m
  unfolding get
  get-In [] k v h = cc
  get-In ((i, w) ∷ m) k v h = ground (arith, eq.test_iff i k, get-In m k v)

  pub In-get-ne-none : (m : GoMap K V) (k : K) (v : V) → In (k, v) m → get m k ≢ none
  unfolding get
  In-get-ne-none [] k v h = elim h [ ]
  In-get-ne-none ((i, w) ∷ m) k v (inl e) =
      ground (arith, eq.test_iff i k, ap (λ (p : K × V). p.0) e)
  In-get-ne-none ((i, w) ∷ m) k v (inr h) = ground (arith, In-get-ne-none m k v h)

  pub In-get : (m : GoMap K V) (k : K) (v : V) → IsMap m → In (k, v) m → get m k ≡ some v
  unfolding get
  In-get [] k v w h = elim h [ ]
  In-get ((i, w) ∷ m) k v u (inl e) =
      ground (arith, eq.test_iff i k, ap (λ (p : K × V). p.0) e, ap (λ (p : K × V). p.1) e)
  In-get ((i, w) ∷ m) k v u (inr h) =
      ground (arith, eq.test_iff i k, In-get m k v u.1 h, In-get-ne-none m k v h)

  -- The values, in the order of the iteration.
  unfoldable pub values : GoMap K V → List V
  values [] = []
  values ((k, v) ∷ m) = v ∷ values m

  pub In-values : (m : GoMap K V) (v : V) → IsMap m → In v (values m) → (k : K) × (get m k ≡ some v)
  unfolding values get
  In-values [] v w n = elim n [ ]
  In-values ((j, u) ∷ m) v w (inl e) = (j, ground (arith, eq.test_iff j j))
  In-values ((j, u) ∷ m) v w (inr n) =
      let (k, g) = In-values m v w.1 n in (k, ground (arith, eq.test_iff j k, w.0))

  pub values-In : (m : GoMap K V) (k : K) (v : V) → get m k ≡ some v → In v (values m)
  unfolding values get
  values-In [] k v h = cc
  values-In ((j, u) ∷ m) k v h = ground (arith, values-In m k v)

pub ruleset map_laws = (get-put, get-delete)
