-- ===== src/Users/TwoFactor/Recovery.antt =====
-- A recovery code signs in once.
use wg_access_server.Prelude.{
  ◌≤◌, ◌<◌, length, true, false, ◌≡◌, refl, ap, ◌∙◌, List, [], ◌∷◌, All, elem, list_beq_iff, nat_eq,
  list_eq, arith,
}
use wg_access_server.Prelude.Text.{Text, trim_space, split, join}
use wg_access_server.Prelude.Text.Lists.{IsEntry, split-append, split-whole, trim_space-IsEntry}
use wg_access_server.Storage.{trimmed_parts}
use wg_access_server.Storage.Entries.{nonempty-is_nil}
use wg_access_server.Users.TwoFactor.{split_codes, use_hash, use_recovery_code, hash_recovery_code}

abbrev comma : Text
comma = 44 ∷ []

split-join-comma :
    (x : Text) (xs : List Text)
    → All (IsEntry 44) (x ∷ xs)
    → split 44 (join comma (x ∷ xs)) ≡ x ∷ xs
unfolding join
split-join-comma x [] h = split-whole 44 x h.0.whole
split-join-comma x (y ∷ xs) h =
    split-append 44 x (join comma (y ∷ xs)) h.0.whole
    ∙ ap (λ ts. x ∷ ts) (split-join-comma y xs h.1)

trimmed_parts-IsEntry : (xs : List Text) → All (IsEntry 44) xs → trimmed_parts xs ≡ xs
unfolding trimmed_parts
trimmed_parts-IsEntry [] h = refl
trimmed_parts-IsEntry (x ∷ xs) h =
    ground
      (arith, trim_space-IsEntry h.0, nonempty-is_nil x h.0.nonempty, trimmed_parts-IsEntry xs h.1)

-- The hashes are read back as they were written.
pub split_codes-join : (xs : List Text) → All (IsEntry 44) xs → split_codes (join comma xs) ≡ xs
unfolding split_codes
split_codes-join [] h = unfold join split trimmed_parts trim_space in refl
split_codes-join (x ∷ xs) h = rw (split-join-comma x xs h) (trimmed_parts-IsEntry (x ∷ xs) h)

-- What is left does not hold the hash that was used.
elem-use_hash : (wanted : Text) (xs : List Text) → elem wanted (use_hash wanted xs).0 ≡ false
unfolding use_hash elem
elem-use_hash wanted [] = refl
elem-use_hash wanted (x ∷ xs) =
    ground (arith, elem-use_hash wanted xs, list_beq_iff x wanted, list_beq_iff wanted x)

use_hash-used : (wanted : Text) (xs : List Text) → elem wanted xs ≡ (use_hash wanted xs).1
unfolding use_hash elem
use_hash-used wanted [] = refl
use_hash-used wanted (x ∷ xs) =
    ground (arith, use_hash-used wanted xs, list_beq_iff x wanted, list_beq_iff wanted x)

use_hash-All :
    (P : Text → Type 0) (wanted : Text) (xs : List Text) → All P xs → All P (use_hash wanted xs).0
unfolding use_hash
use_hash-All P wanted [] h = tt
use_hash-All P wanted (x ∷ xs) h = ground (arith, use_hash-All P wanted xs)

use_hash-length :
    (wanted : Text) (xs : List Text)
    → (length (use_hash wanted xs).0 ≤ length xs)
      × ((use_hash wanted xs).1 ≡ true → length (use_hash wanted xs).0 < length xs)
unfolding use_hash
use_hash-length wanted [] = ground arith
use_hash-length wanted (x ∷ xs) = ground (arith, use_hash-length wanted xs)

-- A recovery code that is accepted is refused from then on, and at least one code fewer is left.
pub use_recovery_code-once :
    (sha : Text → Text) (hashes : List Text) (given : Text)
    → All (IsEntry 44) hashes
    → (use_recovery_code sha (join comma hashes) given).1 ≡ true
    → let left = (use_recovery_code sha (join comma hashes) given).0 in
      (use_recovery_code sha left given ≡ (left, false))
      × (length (split_codes left) < length hashes)
unfolding use_recovery_code
use_recovery_code-once sha hashes given h used =
    let wanted = hash_recovery_code sha given in
    ground (
      arith,
      split_codes-join hashes h,
      split_codes-join (use_hash wanted hashes).0 (use_hash-All (IsEntry 44) wanted hashes h),
      elem-use_hash wanted hashes,
      use_hash-used wanted (use_hash wanted hashes).0,
      use_hash-length wanted hashes,
    )
