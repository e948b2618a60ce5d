-- ===== src/Devices/Inactive.antt =====
-- checkAndRemove of internal/devices/inactive.go, one pass of the loop.
pub mod Gone
use wg_access_server.Prelude.{
  ℕ, ◌-◌, Bool, Option, none, some, List, [], ◌∷◌, ◌==◌, nat_eq, ltb, if◌then◌else◌, Result, ok,
  err,
}
use wg_access_server.Prelude.Text.{Text}
use wg_access_server.Storage.{Device}
use wg_access_server.Storage.Memory.{Memory, Outcome}
use wg_access_server.Devices.{DeviceError}
use wg_access_server.Devices.Manager.{remove_device}
use wg_access_server.Devices.Sync.{list_all_devices}

-- Since the device was last there, or made where it never was; 0 stands for Go's zero time.
abbrev pub last_there : Option ℕ → ℕ → ℕ
last_there none created = created
last_there (some handshake) created = if handshake == 0 then created else handshake

unfoldable pub is_inactive : ℕ → ℕ → Device → Bool
is_inactive grace now d = ltb grace (now - last_there d.last_handshake_time d.created_at)

-- A failure is only logged.
abbrev pub after_removal : {A : Type 0} → Memory → Result DeviceError (Outcome A) → Memory
after_removal s (ok o) = o.after
after_removal s (err e) = s

unfoldable pub remove_inactive : ℕ → ℕ → List Device → Memory → Memory
unfolding is_inactive remove_device
remove_inactive grace now [] s = s
remove_inactive grace now (d ∷ devices) s =
    remove_inactive grace now devices
      (if is_inactive grace now d then after_removal s (remove_device s d.owner d.name) else s)

unfoldable pub check_and_remove : ℕ → ℕ → Memory → Memory
unfolding remove_inactive list_all_devices
check_and_remove grace now s = remove_inactive grace now (list_all_devices s) s
