-- ===== src/Devices/Sync/Rotation.antt =====
-- RotateDeviceKey of internal/devices/devices.go with the peers: the peer of the replaced key goes and
-- the peer of the new key comes at once.
use wg_access_server.Prelude.{ℕ, list_eq, nat_eq, Result, ok, err}
use wg_access_server.Prelude.Text.{Text}
use wg_access_server.Storage.{Device}
use wg_access_server.Storage.Memory.{Memory, Outcome}
use wg_access_server.Devices.{DeviceError}
use wg_access_server.Devices.Manager.{rotate_keys}
use wg_access_server.Devices.Sync.{WireGuard, apply_peer}

module _ (wg : WireGuard) where
  abbrev with_peers :
      ℕ
      → wg.State
      → Result DeviceError (Text × Outcome Device)
      → wg.State × Result DeviceError (Outcome Device)
  with_peers now st (err e) = (st, err e)
  with_peers now st (ok (previous, o)) =
      (apply_peer wg o.value now (wg.remove_peer st previous), ok o)

  unfoldable pub rotate_device_key :
      Memory
      → Text
      → Text
      → Text
      → Text
      → ℕ
      → wg.State
      → wg.State × Result DeviceError (Outcome Device)
  rotate_device_key s user name public_key preshared_key now st =
      with_peers now st (rotate_keys s user name public_key preshared_key)
