-- ===== src/Storage/Memory/Wellformed/Bulk.antt =====
-- The operations of inmemory.go that write many devices keep the invariant.
use wg_access_server.Prelude.{
  true, false, ◌≡◌, refl, sym, ◌∙◌, inl, inr, Option, none, some, List, [], ◌∷◌, ◌==◌, list_eq,
  list_beq_iff, nat_eq, arith, ok, Option-cases, Bool-cases, if◌then◌else◌,
}
use wg_access_server.Prelude.GoMap.{GoMap, get, IsMap, get-put, put-IsMap}
use wg_access_server.Prelude.Text.{Text}
use wg_access_server.Storage.{Device, MetadataUpdate, device_key}
use wg_access_server.Storage.Memory.{
  Memory, Outcome, record_updates, with_update, with_metadata, record_metadata, by_public_key,
  without_owner, delete_for_owner, block_owner, block_for_owner,
}
use wg_access_server.Storage.Memory.Wellformed.{IsWellformed}

-- What is left is what was there of the other owners.
pub get-without_owner :
    (owner : Text) (m : GoMap Text Device) (k : Text) (d : Device)
    → get (without_owner owner m).0 k ≡ some d
    → IsMap m
    → (get m k ≡ some d) × ((d.owner == owner) ≡ false)
unfolding get without_owner
get-without_owner owner [] k d h w = cc
get-without_owner owner ((j, x) ∷ m) k d h w =
    ground (arith, list_beq_iff j k, get-without_owner owner m k d)

get-without_owner-none :
    (owner : Text) (m : GoMap Text Device) (k : Text)
    → get m k ≡ none
    → get (without_owner owner m).0 k ≡ none
unfolding get without_owner
get-without_owner-none owner [] k h = refl
get-without_owner-none owner ((j, x) ∷ m) k h =
    ground (arith, list_beq_iff j k, get-without_owner-none owner m k)

without_owner-IsMap :
    (owner : Text) (m : GoMap Text Device) → IsMap m → IsMap (without_owner owner m).0
unfolding without_owner
without_owner-IsMap owner [] w = tt
without_owner-IsMap owner ((j, x) ∷ m) w =
    ground (arith, get-without_owner-none owner m j, without_owner-IsMap owner m w.1)

pub without_owner-IsWellformed :
    (owner : Text) (db : GoMap Text Device)
    → IsWellformed db
    → IsWellformed (without_owner owner db).0
without_owner-IsWellformed owner db w = record {
  is_map = without_owner-IsMap owner db w.is_map;
  keyed = λ k d h. w.keyed k d (get-without_owner owner db k d h w.is_map).0;
  unique = λ j k d e p q.
      w.unique j k d e (get-without_owner owner db j d p w.is_map).0
        (get-without_owner owner db k e q w.is_map).0;
}

-- A device as `BlockForOwner` leaves it.
abbrev pub blocked_for : Text → Device → Device
blocked_for owner d = if d.owner == owner then record d { disabled = true } else d

abbrev pub map_option {ℓ κ} : {A : Type ℓ} {B : Type κ} → (A → B) → Option A → Option B
map_option f none = none
map_option f (some a) = some (f a)

pub get-block_owner :
    (owner : Text) (m : GoMap Text Device) (k : Text)
    → get (block_owner owner m).0 k ≡ map_option (blocked_for owner) (get m k)
unfolding get block_owner
get-block_owner owner [] k = refl
get-block_owner owner ((j, x) ∷ m) k = ground (arith, get-block_owner owner m k)

block_owner-IsMap : (owner : Text) (m : GoMap Text Device) → IsMap m → IsMap (block_owner owner m).0
unfolding block_owner
block_owner-IsMap owner [] w = tt
block_owner-IsMap owner ((j, x) ∷ m) w =
    ground (arith, get-block_owner owner m j, block_owner-IsMap owner m w.1)

-- The stores hold devices of the same owners, names and public keys under the same keys.
pub record SameIdentities (m m' : GoMap Text Device) : Type 0 where
  pub same_map : IsMap m → IsMap m'
  pub same_at :
      (k : Text) (d' : Device)
      → get m' k ≡ some d'
      → (d : Device) × (get m k ≡ some d)
        × (d.owner ≡ d'.owner)
        × (d.name ≡ d'.name)
        × (d.public_key ≡ d'.public_key)

pub SameIdentities-IsWellformed :
    {m m' : GoMap Text Device} → SameIdentities m m' → IsWellformed m → IsWellformed m'
unfolding device_key
SameIdentities-IsWellformed {m} {m'} s w = record {
  is_map = s.same_map w.is_map;
  keyed = λ k d' h. let (d, g, o, n, p) = s.same_at k d' h in rw (← o, ← n) (w.keyed k d g);
  unique = λ j k d' e' hd he same named.
      let (d, g, o, n, p) = s.same_at j d' hd in
      let (e, g', o', n', p') = s.same_at k e' he in
      w.unique j k d e g g' (p ∙ same ∙ sym p') (λ z. named (sym p ∙ z));
}

block_owner-SameIdentities :
    (owner : Text) (m : GoMap Text Device) → SameIdentities m (block_owner owner m).0
block_owner-SameIdentities owner m = record {
  same_map = block_owner-IsMap owner m;
  same_at = λ k d' h. elim (Option-cases (get m k)) [
    | inl e ↦ ground (arith, get-block_owner owner m k)
    | inr (d, e) ↦ (
      d,
      e,
      ground (arith, get-block_owner owner m k),
      ground (arith, get-block_owner owner m k),
      ground (arith, get-block_owner owner m k),
    )
  ];
}

with_metadata_identity :
    (d : Device) (u : MetadataUpdate)
    → (d.owner ≡ (with_metadata d u).owner)
      × (d.name ≡ (with_metadata d u).name)
      × (d.public_key ≡ (with_metadata d u).public_key)
unfolding with_metadata
with_metadata_identity d u = ground arith

with_update-SameIdentities :
    (m : GoMap Text Device) (key : Option Text) (u : MetadataUpdate)
    → SameIdentities m (with_update m key u)
with_update-SameIdentities m none u = record {
  same_map = λ w. w;
  same_at = λ k d' h. (d', h, refl, refl, refl);
}
with_update-SameIdentities m (some key) u = elim (Option-cases (get m key)) [
  | inl e ↦
      rw (e, with_update)
        (record { same_map = λ w. w; same_at = λ k d' h. (d', h, refl, refl, refl) })
  | inr (d, e) ↦
      rw (e, with_update)
        (record {
          same_map = put-IsMap m key (with_metadata d u);
          same_at = λ k d'. rw get-put (λ h. elim (Bool-cases (key == k)) [
            | inl hit ↦
                let (o, n, p) = with_metadata_identity d u in
                let at : with_metadata d u ≡ d' = ground arith in
                (d, ground (arith, list_beq_iff key k), rw (← at) o, rw (← at) n, rw (← at) p)
            | inr miss ↦ (d', ground arith, refl, refl, refl)
          ]);
        })
]

SameIdentities-trans :
    {m n o : GoMap Text Device} → SameIdentities m n → SameIdentities n o → SameIdentities m o
SameIdentities-trans s t = record {
  same_map = λ w. t.same_map (s.same_map w);
  same_at = λ k d' h.
      let (e, g, o, n, p) = t.same_at k d' h in
      let (d, g', o', n', p') = s.same_at k e g in (d, g', o' ∙ o, n' ∙ n, p' ∙ p);
}

record_updates-SameIdentities :
    (index : GoMap Text Text) (m : GoMap Text Device) (updates : List MetadataUpdate)
    → SameIdentities m (record_updates index m updates)
unfolding record_updates
record_updates-SameIdentities index m [] = record {
  same_map = λ w. w;
  same_at = λ k d' h. (d', h, refl, refl, refl);
}
record_updates-SameIdentities index m (u ∷ updates) =
    SameIdentities-trans (with_update-SameIdentities m (get index u.public_key) u)
      (record_updates-SameIdentities index (with_update m (get index u.public_key) u) updates)

pub record_metadata-IsWellformed :
    (s : Memory) (updates : List MetadataUpdate) (o : Outcome Unit)
    → record_metadata s updates ≡ ok o
    → IsWellformed s.db
    → IsWellformed o.after.db
unfolding record_metadata
record_metadata-IsWellformed s updates o h w = ground (
  arith,
  SameIdentities-IsWellformed (record_updates-SameIdentities (by_public_key s.db []) s.db updates)
      w,
)

pub delete_for_owner-IsWellformed :
    (s : Memory) (owner : Text) (o : Outcome (List Device))
    → delete_for_owner s owner ≡ ok o
    → IsWellformed s.db
    → IsWellformed o.after.db
unfolding delete_for_owner
delete_for_owner-IsWellformed s owner o h w =
    ground (arith, without_owner-IsWellformed owner s.db w)

pub block_for_owner-IsWellformed :
    (s : Memory) (owner : Text) (o : Outcome (List Device))
    → block_for_owner s owner ≡ ok o
    → IsWellformed s.db
    → IsWellformed o.after.db
unfolding block_for_owner
block_for_owner-IsWellformed s owner o h w =
    ground (arith, SameIdentities-IsWellformed (block_owner-SameIdentities owner s.db) w)
