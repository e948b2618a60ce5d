-- ===== src/Api/Devices.antt =====
-- internal/api/device_service.go. The peers that a rotation moves are those of Devices/Sync/Rotation.
use wg_access_server.Prelude.{ℕ, Bool, false, not, Option, none, some, List, map, Result, ok, err}
use wg_access_server.Prelude.Text.{Text}
use wg_access_server.Netip.{Prefix}
use wg_access_server.Authnz.{Identity, is_admin}
use wg_access_server.Storage.{Device, route_list}
use wg_access_server.Storage.Memory.{Outcome, list_devices}
use wg_access_server.Devices.{DeviceError, invalid}
use wg_access_server.Devices.Manager.{
  Owner, Manual, AccessChange, add_device, rename_device, set_device_access, rotate_keys,
  remove_device,
}
use wg_access_server.Devices.Routes.{set_device_routes}
use wg_access_server.Devices.Traffic.{is_connected}
use wg_access_server.Devices.Sync.{list_all_devices}
use wg_access_server.Api.{
  ApiError, not_admin, internal, device_refused, Caller, External, Action, pure, ◌>>=◌, ◌>>◌,
  refuse_if, reading, writing, current_user, current_admin,
}

-- `proto.Device`: what is copied from the stored device, and what is read off it.
pub record Item : Type 0 where
  pub stored : Device
  pub routes : List Text
  pub connected : Bool

abbrev connected_at : Option ℕ → ℕ → Bool
connected_at none now = false
connected_at (some handshake) now = is_connected handshake now

-- `mapDevice`
unfoldable pub map_device : ℕ → Device → Item
unfolding route_list is_connected
map_device now d = record {
  stored = d;
  routes = route_list d;
  connected = connected_at d.last_handshake_time now;
}

-- `mapDevices`
unfoldable pub map_devices : ℕ → List Device → List Item
unfolding map_device
map_devices now ds = map (map_device now) ds

-- `deviceError`: only a validation error carries what it is about to the client.
unfoldable pub device_error : DeviceError → ApiError
device_error (invalid why) = device_refused why
device_error _ = internal

abbrev pub owner_of : Identity → Owner
owner_of user = record {
  subject = user.subject;
  name = user.name;
  email = user.email;
  provider = user.provider;
}

-- The owner that a request names, which is an admin's to do.
abbrev pub named_owner : Identity → Option Text → Action Text
named_owner user none = pure user.subject
named_owner user (some owner) = do refuse_if (not (is_admin user.claims)) not_admin; pure owner

abbrev pub owner_or_own : Identity → Option Text → Text
owner_or_own user none = user.subject
owner_or_own user (some owner) = owner

abbrev pub responding : {A B : Type 0} → (A → B) → Action A → Action B
responding f action = action >>= λ a. pure (f a)

abbrev pub new_of_rotation :
    {A : Type 0} → Result DeviceError (Text × Outcome A) → Result DeviceError (Outcome A)
new_of_rotation (ok (old, o)) = ok o
new_of_rotation (err e) = err e

module _ (x : External) (who : Caller) (now : ℕ) where
  unfoldable pub add_device_for : Text → Text → Text → Manual → Action Item
  unfolding current_user map_device device_error
  add_device_for name public_key preshared_key manual = do
    user ← current_user who
    responding (map_device now) (
        writing device_error (λ s.
          add_device x.codec x.config s (owner_of user) name public_key preshared_key manual now))

  unfoldable pub list_own_devices : Action (List Item)
  unfolding current_user map_devices
  list_own_devices = do
    user ← current_user who
    responding (map_devices now) (reading (λ s. list_devices s user.subject))

  unfoldable pub delete_device_for : Option Text → Text → Action (Unit {0})
  unfolding current_user device_error
  delete_device_for owner name = do
    user ← current_user who
    device_owner ← named_owner user owner
    writing device_error (λ s. remove_device s device_owner name)

  unfoldable pub rename_device_for : Option Text → Text → Text → Action Item
  unfolding current_user map_device device_error
  rename_device_for owner name new_name = do
    user ← current_user who
    device_owner ← named_owner user owner
    responding (map_device now)
        (writing device_error (λ s. rename_device s device_owner name new_name))

  -- Your own devices only.
  unfoldable pub rotate_key_for : Text → Text → Text → Action Item
  unfolding current_user map_device device_error
  rotate_key_for name public_key preshared_key = do
    user ← current_user who
    responding (map_device now) (
        writing device_error
          (λ s. new_of_rotation (rotate_keys s user.subject name public_key preshared_key)))

  unfoldable pub set_access_for : Option Text → Text → AccessChange → Action Item
  unfolding current_admin map_device device_error
  set_access_for owner name change = do
    user ← current_admin who
    responding (map_device now)
        (writing device_error (λ s. set_device_access s (owner_or_own user owner) name change now))

  -- The networks of the host are an argument.
  unfoldable pub set_routes_for :
      Option (List Prefix) → Option Text → Text → List Text → Action Item
  unfolding current_admin map_device device_error
  set_routes_for host owner name routes = do
    user ← current_admin who
    responding (map_device now) (
        writing device_error
          (λ s. set_device_routes x.codec x.config host s (owner_or_own user owner) name routes))

  unfoldable pub list_every_device : Action (List Item)
  unfolding current_admin map_devices
  list_every_device = do
    user ← current_admin who
    responding (map_devices now) (reading list_all_devices)
