-- ===== src/Storage/Memory.antt =====
-- internal/storage/inmemory.go, and the in-memory parts of sessions.go, tokens.go and passkeys.go.
-- The order in which a map is walked is the order of its entries, whatever that is. An operation that
-- fails changes nothing and emits nothing. `after` and `events` are the stores and the events that
-- the watchers are told.
pub mod Users
pub mod Tokens
pub mod Sessions
pub mod Passkeys
pub mod Wellformed
use wg_access_server.Prelude.{
  ℕ, ◌+◌, ◌%◌, ◌^◌, Bool, true, false, not, ◌&&◌, ◌||◌, Option, none, some, List, [], ◌∷◌, ◌==◌,
  list_eq, nat_eq, if◌then◌else◌, Result, ok, err, keep, map,
}
use wg_access_server.Prelude.GoMap.{GoMap, get, put, delete, values}
use wg_access_server.Prelude.Text.{Text, is_nil}
use wg_access_server.Storage.{
  Device, User, Session, ApiToken, Passkey, MetadataUpdate, TotpState, device_key,
}
use wg_access_server.Storage.Keys.{key_str}

pub record Memory : Type 0 where
  pub db : GoMap Text Device
  pub tokens : GoMap Text ApiToken
  pub users : GoMap Text User
  pub sessions : GoMap Text Session
  pub passkeys : GoMap Text Passkey

-- `NewMemoryStorage`
abbrev pub new_memory : Memory
new_memory = record { db = []; tokens = []; users = []; sessions = []; passkeys = [] }

pub data Event : Type 0 where
  added updated deleted : Device → Event

pub data StorageError : Type 0 where
  key_in_use device_missing user_not_found hash_exists token_not_found session_not_found :
      StorageError
  passkey_exists passkey_not_found backend_failed : StorageError

pub record Outcome (A : Type 0) : Type 0 where
  pub after : Memory
  pub events : List Event
  pub value : A

abbrev pub Op : Type 0 → Type 0
Op A = Result StorageError (Outcome A)

-- Another entry than that of the key has the public key.
unfoldable pub key_taken : GoMap Text Device → Text → Text → Bool
key_taken [] public_key key = false
key_taken ((stored_key, stored) ∷ m) public_key key =
    stored.public_key == public_key && not (stored_key == key) || key_taken m public_key key

unfoldable pub save : Memory → Device → Op Unit
save s device =
    if not (is_nil device.public_key) && key_taken s.db device.public_key (device_key device)
    then err key_in_use
    else ok (record {
      after = record s { db = put s.db (device_key device) device };
      events = added device ∷ [];
      value = tt;
    })

-- The keys of the devices by their public keys; of two with one public key the later counts.
unfoldable pub by_public_key : GoMap Text Device → GoMap Text Text → GoMap Text Text
by_public_key [] index = index
by_public_key ((key, device) ∷ m) index = by_public_key m (put index device.public_key key)

-- `int64` addition.
abbrev pub add64 : ℕ → ℕ → ℕ
add64 a b = (a + b) % 2 ^ 64

abbrev with_connection : Device → Option (Text × ℕ) → Device
with_connection d none = d
with_connection d (some (endpoint, handshake)) = record d {
  endpoint = endpoint;
  last_handshake_time = some handshake;
}

unfoldable pub with_metadata : Device → MetadataUpdate → Device
with_metadata d update =
    with_connection
      (record d {
        receive_bytes = add64 d.receive_bytes update.receive_bytes;
        transmit_bytes = add64 d.transmit_bytes update.transmit_bytes;
      })
      update.connection

abbrev pub with_update : GoMap Text Device → Option Text → MetadataUpdate → GoMap Text Device
with_update db none update = db
with_update db (some key) update = elim (get db key) [
  | none ↦ db
  | some device ↦ put db key (with_metadata device update)
]

-- The loop over the updates; the index is not rebuilt.
unfoldable pub record_updates :
    GoMap Text Text → GoMap Text Device → List MetadataUpdate → GoMap Text Device
record_updates index db [] = db
record_updates index db (update ∷ updates) =
    record_updates index (with_update db (get index update.public_key) update) updates

unfoldable pub record_metadata : Memory → List MetadataUpdate → Op Unit
unfolding record_updates by_public_key
record_metadata s updates = ok (record {
  after = record s { db = record_updates (by_public_key s.db []) s.db updates };
  events = [];
  value = tt;
})

unfoldable pub addresses : Memory → List Text
addresses s = map (λ (d : Device). d.address) (values s.db)

-- `List` and `list`
unfoldable pub list_devices : Memory → Text → List Device
list_devices s username =
    keep (λ (d : Device). is_nil username || d.owner == username) (values s.db)

abbrev pub or_missing {ℓ} : {A : Type ℓ} → Option A → StorageError → Result StorageError A
or_missing none e = err e
or_missing (some a) e = ok a

unfoldable pub get_device : Memory → Text → Text → Result StorageError Device
get_device s owner name = or_missing (get s.db (key_str owner name)) device_missing

abbrev first_device : List Device → Option Device
first_device [] = none
first_device (d ∷ ds) = some d

unfoldable pub get_by_public_key : Memory → Text → Result StorageError Device
unfolding list_devices
get_by_public_key s public_key =
    or_missing
      (first_device (keep (λ (d : Device). d.public_key == public_key) (list_devices s [])))
      device_missing

unfoldable pub delete_device : Memory → Device → Op Unit
delete_device s device = ok (record {
  after = record s { db = delete s.db (device_key device) };
  events = deleted device ∷ [];
  value = tt;
})

-- What `Rename`, `SetAccess`, `SetRoutes` and `SetKeys` return: the changed device, and its event.
abbrev pub changed_to : Memory → Device → Op Device
changed_to s changed = ok (record {
  after = record s { db = put s.db (device_key changed) changed };
  events = updated changed ∷ [];
  value = changed;
})

unfoldable pub rename : Memory → Device → Text → Op Device
rename s device new_name = elim (get s.db (device_key device)) [
  | none ↦ err device_missing
  | some stored ↦
      changed_to (record s { db = delete s.db (device_key stored) })
        (record stored { name = new_name })
]

unfoldable pub set_access : Memory → Device → Bool → Option ℕ → Op Device
set_access s device disabled expires_at = elim (get s.db (device_key device)) [
  | none ↦ err device_missing
  | some stored ↦ changed_to s (record stored { disabled = disabled; expires_at = expires_at })
]

unfoldable pub set_routes : Memory → Device → Text → Op Device
set_routes s device routes = elim (get s.db (device_key device)) [
  | none ↦ err device_missing
  | some stored ↦ changed_to s (record stored { routes = routes })
]

unfoldable pub set_keys : Memory → Device → Text → Text → Op Device
set_keys s device public_key preshared_key = elim (get s.db (device_key device)) [
  | none ↦ err device_missing
  | some stored ↦
      if key_taken s.db public_key (device_key device)
      then err key_in_use
      else changed_to s (record stored { public_key = public_key; preshared_key = preshared_key })
]

-- The entries that stay, and the devices that go.
unfoldable pub without_owner : Text → GoMap Text Device → GoMap Text Device × List Device
without_owner owner [] = ([], [])
without_owner owner ((key, device) ∷ m) =
    let (rest, gone) = without_owner owner m in
    if device.owner == owner then (rest, device ∷ gone) else ((key, device) ∷ rest, gone)

unfoldable pub delete_for_owner : Memory → Text → Op (List Device)
unfolding without_owner
delete_for_owner s owner = ok (record {
  after = record s { db = (without_owner owner s.db).0 };
  events = map deleted (without_owner owner s.db).1;
  value = (without_owner owner s.db).1;
})

-- The entries with the owner's devices blocked, and the devices that were not blocked before.
unfoldable pub block_owner : Text → GoMap Text Device → GoMap Text Device × List Device
block_owner owner [] = ([], [])
block_owner owner ((key, device) ∷ m) =
    let (rest, blocked) = block_owner owner m in
    let changed = record device { disabled = true } in
    if not (device.owner == owner) || device.disabled
    then ((key, device) ∷ rest, blocked)
    else ((key, changed) ∷ rest, changed ∷ blocked)

unfoldable pub block_for_owner : Memory → Text → Op (List Device)
unfolding block_owner
block_for_owner s owner = ok (record {
  after = record s { db = (block_owner owner s.db).0 };
  events = map updated (block_owner owner s.db).1;
  value = (block_owner owner s.db).1;
})
