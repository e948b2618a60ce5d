-- ===== src/Storage/Entries.antt =====
-- The lists that a device and a user keep in one column.
use wg_access_server.Prelude.{
  ℕ, ◌≤◌, length, ◌≡◌, ◌≢◌, refl, ap, List, [], ◌∷◌, map, All, arith, false,
}
use wg_access_server.Prelude.Text.{
  Text, join, split, trim_space, trim_left, trim_right, is_nil, is_space,
}
use wg_access_server.Prelude.Text.Lists.{IsEntry, comma_space, trimmed-join}
use wg_access_server.Storage.{trimmed_parts, split_list}

pub nonempty-is_nil : (t : Text) → t ≢ [] → is_nil t ≡ false
nonempty-is_nil [] h = absurd (h refl)
nonempty-is_nil (c ∷ t) h = refl

trimmed_parts-map :
    (parts : List Text)
    → All (IsEntry 44) (map trim_space parts)
    → trimmed_parts parts ≡ map trim_space parts
unfolding trimmed_parts
trimmed_parts-map [] h = refl
trimmed_parts-map (p ∷ parts) h =
    ground (arith, nonempty-is_nil (trim_space p) h.0.nonempty, trimmed_parts-map parts h.1)

length-trim_left : (t : Text) → length (trim_left t) ≤ length t
unfolding trim_left
length-trim_left [] = omega arith
length-trim_left (c ∷ t) = ground (arith, length-trim_left t)

front-is_space : (c : ℕ) (t : Text) → trim_left (c ∷ t) ≡ c ∷ t → is_space c ≡ false
unfolding trim_left
front-is_space c t h = ground (arith, length-trim_left t, ap length h)

is_nil-trim_space : (c : ℕ) (t : Text) → is_space c ≡ false → is_nil (trim_space (c ∷ t)) ≡ false
unfolding trim_space
is_nil-trim_space c t h = ground arith

is_nil-join :
    (x : Text) (xs : List Text)
    → IsEntry 44 x
    → is_nil (trim_space (join comma_space (x ∷ xs))) ≡ false
unfolding join
is_nil-join [] xs h = absurd (h.nonempty refl)
is_nil-join (c ∷ t) [] h = is_nil-trim_space c t (front-is_space c t h.front)
is_nil-join (c ∷ t) (y ∷ xs) h = is_nil-trim_space c _ (front-is_space c t h.front)

-- The entries that are joined by a comma and a space are read back as they were.
pub split_list-join :
    (entries : List Text)
    → All (IsEntry 44) entries
    → split_list (join comma_space entries) ≡ entries
unfolding split_list
split_list-join [] h = unfold join trim_space trim_right trim_left in refl
split_list-join (x ∷ xs) h = ground (
  arith,
  is_nil-join x xs h.0,
  trimmed_parts-map (split 44 (join comma_space (x ∷ xs))) (rw (trimmed-join x xs h) h),
  trimmed-join x xs h,
)
