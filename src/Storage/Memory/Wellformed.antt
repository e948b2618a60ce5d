-- ===== src/Storage/Memory/Wellformed.antt =====
-- The invariant of the in-memory devices, which the SQL backends keep by their indexes, and that
-- every operation keeps it.
pub mod Steps
pub mod Bulk
pub mod Fields
pub mod Runs
use wg_access_server.Prelude.{
  ℕ, Bool, true, false, not, ◌≡◌, ◌≢◌, refl, sym, ap, ◌∙◌, ◌⊎◌, inl, inr, Option, none, some, List,
  [], ◌∷◌, ◌==◌, list_eq, list_beq_iff, nat_eq, arith, Result, ok, err, Option-cases, Bool-cases,
}
use wg_access_server.Prelude.GoMap.{
  GoMap, get, put, delete, IsMap, get-put, get-delete, put-IsMap, delete-IsMap, map_laws,
}
use wg_access_server.Prelude.Text.{Text, is_nil}
use wg_access_server.Storage.{Device, MetadataUpdate, device_key}
use wg_access_server.Storage.Memory.{
  Memory, Outcome, key_taken, save, record_updates, with_update, with_metadata, record_metadata,
  delete_device, rename, set_access, set_routes, set_keys, without_owner, delete_for_owner,
  block_owner, block_for_owner,
}

pub record IsWellformed (db : GoMap Text Device) : Type 0 where
  pub is_map : IsMap db
  -- a device stands under its own key
  pub keyed : (k : Text) (d : Device) → get db k ≡ some d → device_key d ≡ k
  -- no two devices have one public key
  pub unique :
      (j k : Text) (d e : Device)
      → get db j ≡ some d
      → get db k ≡ some e
      → d.public_key ≡ e.public_key
      → d.public_key ≢ []
      → j ≡ k

pub key_taken-eq-false :
    (m : GoMap Text Device) (public_key key j : Text) (e : Device)
    → key_taken m public_key key ≡ false
    → get m j ≡ some e
    → e.public_key ≡ public_key
    → j ≡ key
unfolding key_taken get
key_taken-eq-false [] public_key key j e free h same = cc
key_taken-eq-false ((i, d) ∷ m) public_key key j e free h same = ground (
  arith,
  list_beq_iff i j,
  list_beq_iff i key,
  list_beq_iff d.public_key public_key,
  key_taken-eq-false m public_key key j e,
)

-- Writing a device under its own key keeps the invariant if its public key is empty or no other's.
pub put-IsWellformed :
    (db : GoMap Text Device) (d : Device)
    → IsWellformed db
    → ((j : Text) (e : Device)
        → get db j ≡ some e
        → e.public_key ≡ d.public_key
        → d.public_key ≢ []
        → j ≡ device_key d)
    → IsWellformed (put db (device_key d) d)
put-IsWellformed db d w free = record {
  is_map = put-IsMap db (device_key d) d w.is_map;
  keyed = λ k e. rw get-put (ground (arith, list_beq_iff (device_key d) k, w.keyed k e));
  unique = λ j k x e.
      rw (get-put db (device_key d) j d, get-put db (device_key d) k d)
        (ground (
          arith,
          list_beq_iff (device_key d) j,
          list_beq_iff (device_key d) k,
          w.unique j k x e,
          free j x,
          free k e,
        ));
}

pub delete-IsWellformed :
    (db : GoMap Text Device) (key : Text) → IsWellformed db → IsWellformed (delete db key)
delete-IsWellformed db key w = record {
  is_map = delete-IsMap db key w.is_map;
  keyed = λ k e. rw get-delete (ground (arith, w.keyed k e));
  unique =
      λ j k x e. rw (get-delete db key j, get-delete db key k) (ground (arith, w.unique j k x e));
}
