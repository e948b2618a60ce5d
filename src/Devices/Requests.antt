-- ===== src/Devices/Requests.antt =====
-- What the device manager is asked for, in any order: the operations of internal/devices/devices.go
-- and routes.go that change the stored devices.
pub mod Steps
pub mod Safe
pub mod Blocked
pub mod Frame
use wg_access_server.Prelude.{ℕ, Option, List, [], ◌∷◌, Result, ok, err}
use wg_access_server.Prelude.Text.{Text}
use wg_access_server.Netip.{Prefix}
use wg_access_server.Netip.Codec.{Codec}
use wg_access_server.Storage.{MetadataUpdate}
use wg_access_server.Storage.Memory.{
  Memory, Outcome, record_metadata, delete_for_owner, block_for_owner,
}
use wg_access_server.Devices.Manager.{
  Config, Owner, Manual, AccessChange, add_device, rename_device, set_device_access, rotate_keys,
  remove_device,
}
use wg_access_server.Devices.Routes.{set_device_routes}

pub data Request : Type 0 where
  adds : Owner → Text → Text → Text → Manual → ℕ → Request
  renames : Text → Text → Text → Request
  changes_access : Text → Text → AccessChange → ℕ → Request
  routes : Option (List Prefix) → Text → Text → List Text → Request
  rotates : Text → Text → Text → Text → Request
  removes : Text → Text → Request
  clears blocks : Text → Request
  records : List MetadataUpdate → Request

-- The store afterwards; a request that is refused changes nothing.
abbrev pub after {ℓ} : {E : Type 0} {A : Type ℓ} → (A → Memory) → Memory → Result E A → Memory
after store s (ok a) = store a
after store s (err e) = s

abbrev pub store_of : {A : Type 0} → Outcome A → Memory
store_of o = o.after

-- `RotateDeviceKey` gives the replaced key as well.
abbrev pub store_of_rotation : {A : Type 0} → Text × Outcome A → Memory
store_of_rotation (key, o) = o.after

unfoldable pub handle : Codec → Config → Memory → Request → Memory
handle c config s (adds owner name public_key preshared_key manual now) =
    after store_of s (add_device c config s owner name public_key preshared_key manual now)
handle c config s (renames user name new_name) =
    after store_of s (rename_device s user name new_name)
handle c config s (changes_access user name change now) =
    after store_of s (set_device_access s user name change now)
handle c config s (routes host user name networks) =
    after store_of s (set_device_routes c config host s user name networks)
handle c config s (rotates user name public_key preshared_key) =
    after store_of_rotation s (rotate_keys s user name public_key preshared_key)
handle c config s (removes user name) = after store_of s (remove_device s user name)
handle c config s (clears user) = after store_of s (delete_for_owner s user)
handle c config s (blocks user) = after store_of s (block_for_owner s user)
handle c config s (records updates) = after store_of s (record_metadata s updates)

unfoldable pub serve : Codec → Config → Memory → List Request → Memory
unfolding handle
serve c config s [] = s
serve c config s (r ∷ rs) = serve c config (handle c config s r) rs
