-- ===== src/Devices.antt =====
-- internal/devices
pub mod Inactive
pub mod Allocation
pub mod Validation
pub mod Manager
pub mod Routes
pub mod Traffic
pub mod Sync
pub mod Firewall
pub mod Requests
pub mod People
use wg_access_server.Prelude.{ℕ}
use wg_access_server.Prelude.Text.{Text}
use wg_access_server.Storage.Memory.{StorageError}

-- What a user is told (`ValidationError`).
pub data Invalid : Type 0 where
  name_empty name_too_long name_control public_key_format preshared_key_format name_taken : Invalid
  too_many_devices manual_without_address subnet_not_configured not_an_address wrong_family :
      Invalid
  not_in_subnet address_reserved address_in_use same_key key_of_another expiry_not_in_future :
      Invalid
  too_many_routes not_a_network default_route overlaps_vpn overlaps_host overlaps_device : Invalid

pub data DeviceError : Type 0 where
  invalid : Invalid → DeviceError
  no_free_address : DeviceError
  -- the storage failed, or has not what was asked for
  storage : StorageError → DeviceError
  -- `netip.MustParsePrefix` panics on a configured network that is none
  panics : DeviceError
  -- a configured network is none, and the networks of the host are not known
  misconfigured host_unknown : DeviceError
