-- ===== src/Devices/Manager.antt =====
-- The operations of internal/devices/devices.go on the stored devices. What runs under the
-- allocation lock runs as one step, as the lock has it for all replicas.
pub mod Addresses
use wg_access_server.Prelude.{
  ℕ, Bool, true, false, not, ◌&&◌, ◌||◌, Option, none, some, List, [], ◌∷◌, ◌++◌, ◌==◌, list_eq,
  nat_eq, ltb, leb, if◌then◌else◌, Result, ok, err, ◌>>=◌, ◌>>◌, reject_if, length, any, elem,
}
use wg_access_server.Prelude.Text.{Text, is_nil}
use wg_access_server.Prelude.Text.Lists.{comma_space}
use wg_access_server.Netip.{Addr, Prefix, addr_eq, bit_len, is4, is6, next, masked, contains}
use wg_access_server.Netip.Codec.{Codec}
use wg_access_server.Storage.{Device}
use wg_access_server.Storage.Memory.{
  Memory, Outcome, Op, StorageError, save, list_devices, get_device, get_by_public_key, rename,
  set_access, set_keys, delete_device, delete_for_owner, block_for_owner,
}
use wg_access_server.Devices.{
  DeviceError, invalid, storage, panics, name_taken, too_many_devices, manual_without_address,
  subnet_not_configured, not_an_address, wrong_family, not_in_subnet, address_reserved,
  address_in_use, same_key, key_of_another, expiry_not_in_future,
}
use wg_access_server.Devices.Validation.{validate_device_name, validate_keys}
use wg_access_server.Devices.Allocation.{
  Used, used_addresses, next_client_address, must_parse, host_text,
}

-- What `New` is given: the subnets, "" for one that is not configured, and the limit per user, 0
-- for none.
pub record Config : Type 0 where
  pub cidr : Text
  pub cidrv6 : Text
  pub max_devices_per_user : ℕ

-- The owner of a new device (`authsession.Identity`).
pub record Owner : Type 0 where
  pub subject : Text
  pub name : Text
  pub email : Text
  pub provider : Text

-- `manualIPAssignment` and the two addresses.
pub record Manual : Type 0 where
  pub enabled : Bool
  pub ipv4 : Text
  pub ipv6 : Text

abbrev pub from_storage {ℓ} : {A : Type ℓ} → Result StorageError A → Result DeviceError A
from_storage (ok a) = ok a
from_storage (err e) = err (storage e)

abbrev parse_or_reject : Codec → Text → Result DeviceError Addr
parse_or_reject c text = elim (c.parse_addr text) [
  | none ↦ err (invalid not_an_address)
  | some a ↦ ok a
]

-- The checks on one address that a user chose; "" if they chose none of the family.
unfoldable pub manual_family :
    Codec → (Addr → Bool) → Text → Text → List Addr → Result DeviceError Text
manual_family c of_family cidr text used = if is_nil text then ok [] else do
  reject_if (is_nil cidr) (invalid subnet_not_configured)
  ip ← parse_or_reject c text
  reject_if (not (of_family ip)) (invalid wrong_family)
  subnet ← must_parse c cidr
  reject_if (not (contains subnet ip)) (invalid not_in_subnet)
  let start = (masked subnet).addr
  reject_if (ip == start || ip == next start) (invalid address_reserved)
  reject_if (elem ip used) (invalid address_in_use)
  ok (host_text c (some ip))

-- One text or both.
unfoldable pub join_manual : Text → Text → Text
join_manual ipv4 ipv6 =
    if not (is_nil ipv4) && not (is_nil ipv6)
    then ipv4 ++ (comma_space ++ ipv6)
    else if not (is_nil ipv4)
    then ipv4
    else ipv6

unfoldable pub manual_address : Codec → Config → Memory → Manual → Result DeviceError Text
unfolding manual_family join_manual used_addresses
manual_address c config s manual = do
  reject_if (is_nil manual.ipv4 && is_nil manual.ipv6) (invalid manual_without_address)
  let used = used_addresses c s
  ipv4 ← manual_family c is4 config.cidr manual.ipv4 used.ipv4s
  ipv6 ← manual_family c is6 config.cidrv6 manual.ipv6 used.ipv6s
  ok (join_manual ipv4 ipv6)

unfoldable pub client_address : Codec → Config → Memory → Manual → Result DeviceError Text
unfolding manual_address next_client_address
client_address c config s manual =
    if manual.enabled
    then manual_address c config s manual
    else next_client_address c config.cidr config.cidrv6 s

-- The device as it is added.
abbrev pub new_device : Owner → Text → Text → Text → Text → ℕ → Device
new_device owner name public_key preshared_key address now = record {
  owner = owner.subject;
  owner_name = owner.name;
  owner_email = owner.email;
  owner_provider = owner.provider;
  name = name;
  public_key = public_key;
  preshared_key = preshared_key;
  address = address;
  created_at = now;
  disabled = false;
  expires_at = none;
  routes = [];
  last_handshake_time = none;
  receive_bytes = 0;
  transmit_bytes = 0;
  endpoint = [];
}

-- One of the devices has the name.
abbrev pub name_in : Text → List Device → Bool
name_in name = any (λ (d : Device). d.name == name)

-- The stored device in place of what the storage returns.
abbrev pub returning : {A B : Type 0} → B → Outcome A → Outcome B
returning b o = record { after = o.after; events = o.events; value = b }

unfoldable pub add_device_locked :
    Codec
    → Config
    → Memory
    → Owner
    → Text
    → Text
    → Text
    → Manual
    → ℕ
    → Result DeviceError (Outcome Device)
unfolding client_address list_devices
add_device_locked c config s owner name public_key preshared_key manual now = do
  let devices = list_devices s owner.subject
  reject_if (name_in name devices) (invalid name_taken)
  reject_if (ltb 0 config.max_devices_per_user && leb config.max_devices_per_user (length devices))
      (invalid too_many_devices)
  address ← client_address c config s manual
  let device = new_device owner name public_key preshared_key address now
  o ← from_storage (save s device)
  ok (returning device o)

unfoldable pub add_device :
    Codec
    → Config
    → Memory
    → Owner
    → Text
    → Text
    → Text
    → Manual
    → ℕ
    → Result DeviceError (Outcome Device)
unfolding validate_device_name validate_keys
add_device c config s owner name public_key preshared_key manual now = do
  validate_device_name name
  validate_keys public_key preshared_key
  add_device_locked c config s owner name public_key preshared_key manual now

abbrev unchanged : {A : Type 0} → Memory → A → Outcome A
unchanged s a = record { after = s; events = []; value = a }

unfoldable pub rename_device : Memory → Text → Text → Text → Result DeviceError (Outcome Device)
unfolding validate_device_name list_devices get_device
rename_device s user name new_name = do
  validate_device_name new_name
  if name == new_name
      then (do d ← from_storage (get_device s user name); ok (unchanged s d))
      else (do
        device ← from_storage (get_device s user name)
        reject_if (name_in new_name (list_devices s user)) (invalid name_taken)
        from_storage (rename s device new_name))

-- What `SetDeviceAccess` should change; what is `none` is left.
pub record AccessChange : Type 0 where
  pub disabled : Option Bool
  pub expires_at : Option ℕ
  pub clear_expires_at : Bool

abbrev pub new_disabled : Option Bool → Bool → Bool
new_disabled none old = old
new_disabled (some b) old = b

-- `ExpiresAt.After(time.Now())`, or the expiry that stays.
abbrev pub new_expiry : Bool → Option ℕ → Option ℕ → ℕ → Result DeviceError (Option ℕ)
new_expiry true asked old now = ok none
new_expiry false none old now = ok old
new_expiry false (some t) old now =
    if ltb now t then ok (some t) else err (invalid expiry_not_in_future)

unfoldable pub set_device_access :
    Memory → Text → Text → AccessChange → ℕ → Result DeviceError (Outcome Device)
unfolding get_device
set_device_access s user name change now = do
  device ← from_storage (get_device s user name)
  expires_at ← new_expiry change.clear_expires_at change.expires_at device.expires_at now
  from_storage (set_access s device (new_disabled change.disabled device.disabled) expires_at)

abbrev is_ok {ℓ} : {E : Type 0} {A : Type ℓ} → Result E A → Bool
is_ok (ok a) = true
is_ok (err e) = false

-- The part of `RotateDeviceKey` before the peers: the key that is replaced, and the new device.
unfoldable pub rotate_keys :
    Memory → Text → Text → Text → Text → Result DeviceError (Text × Outcome Device)
unfolding validate_keys get_device get_by_public_key
rotate_keys s user name public_key preshared_key = do
  validate_keys public_key preshared_key
  device ← from_storage (get_device s user name)
  reject_if (device.public_key == public_key) (invalid same_key)
  reject_if (is_ok (get_by_public_key s public_key)) (invalid key_of_another)
  o ← from_storage (set_keys s device public_key preshared_key)
  ok (device.public_key, o)

unfoldable pub remove_device : Memory → Text → Text → Result DeviceError (Outcome Unit)
unfolding get_device
remove_device s user name = do
  device ← from_storage (get_device s user name)
  from_storage (delete_device s device)
