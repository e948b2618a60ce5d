-- ===== src/Devices/Inactive/Gone.antt =====
-- One pass removes exactly the devices that are inactive.
use wg_access_server.Prelude.{
  ℕ, Bool, true, false, ◌&&◌, ◌||◌, ◌≡◌, refl, ap, ◌∙◌, inl, inr, Option, none, some, List, [], ◌∷◌,
  map, any, keep, ◌==◌, list_eq, list_beq_iff, nat_eq, arith, Option-cases, Bool-cases,
  if◌then◌else◌,
}
use wg_access_server.Prelude.GoMap.{GoMap, get, get-delete, values, IsMap}
use wg_access_server.Prelude.Text.{Text}
use wg_access_server.Storage.{Device, User, device_key}
use wg_access_server.Storage.Keys.{key_str}
use wg_access_server.Storage.Memory.{Memory, get_device, delete_device, list_devices}
use wg_access_server.Storage.Memory.Wellformed.{delete-IsWellformed}
use wg_access_server.Storage.Memory.Wellformed.Steps.{Sound}
use wg_access_server.Devices.Manager.{remove_device}
use wg_access_server.Devices.Sync.{complete_with, is_incomplete, with_owner_names, list_all_devices}
use wg_access_server.Devices.Inactive.{
  is_inactive, after_removal, remove_inactive, check_and_remove,
}

module _ (owner name : Text) (s : Memory) (w : Sound s) where
  abbrev removed : Memory
  removed = after_removal s (remove_device s owner name)

  removed-Sound : Sound removed
  unfolding remove_device get_device delete_device
  removed-Sound = elim (Option-cases (get s.db (key_str owner name))) [
    | inl e ↦ ground (arith, w)
    | inr (d, e) ↦ ground (arith, delete-IsWellformed s.db (device_key d) w)
  ]

  get-removed :
      (k : Text) → get removed.db k ≡ (if key_str owner name == k then none else get s.db k)
  unfolding remove_device get_device delete_device
  get-removed k = elim (Option-cases (get s.db (key_str owner name))) [
    | inl e ↦ ground (arith, list_beq_iff (key_str owner name) k)
    | inr (d, e) ↦
        ground (arith, get-delete s.db (device_key d) k, w.keyed (key_str owner name) d e)
  ]

keep_all : (devices : List Device) → keep (λ (d : Device). true) devices ≡ devices
unfolding keep
keep_all [] = refl
keep_all (d ∷ devices) = ap (λ (ds : List Device). d ∷ ds) (keep_all devices)

module _ (grace now : ℕ) where
  -- The device is inactive and stands under the key.
  abbrev goes : Text → Device → Bool
  goes k d = is_inactive grace now d && device_key d == k

  get-remove_inactive :
      (devices : List Device) (s : Memory) (k : Text)
      → Sound s
      → get (remove_inactive grace now devices s).db k
        ≡ (if any (goes k) devices then none else get s.db k)
  unfolding remove_inactive any device_key
  get-remove_inactive [] s k w = refl
  get-remove_inactive (d ∷ devices) s k w = elim (Bool-cases (is_inactive grace now d)) [
    | inr active ↦ ground (arith, get-remove_inactive devices s k w)
    | inl inactive ↦ ground (
      arith,
      get-remove_inactive devices (removed d.owner d.name s w) k (removed-Sound d.owner d.name s w),
      get-removed d.owner d.name s w k,
    )
  ]

  goes-complete_with :
      (k : Text) (d : Device) (o : Option User) → goes k (complete_with d o) ≡ goes k d
  unfolding is_inactive device_key
  goes-complete_with k d none = refl
  goes-complete_with k d (some user) = refl

  abbrev completed : GoMap Text User → Device → Device
  completed known d = if is_incomplete d then complete_with d (get known d.owner) else d

  any-goes-completed :
      (known : GoMap Text User) (k : Text) (devices : List Device)
      → any (goes k) (map (completed known) devices) ≡ any (goes k) devices
  unfolding any
  any-goes-completed known k [] = refl
  any-goes-completed known k (d ∷ devices) = elim (Bool-cases (is_incomplete d)) [
    | inl e ↦ rw e (
        ap (λ (b : Bool). b || any (goes k) (map (completed known) devices))
          (goes-complete_with k d (get known d.owner))
        ∙ ap (λ (b : Bool). goes k d || b) (any-goes-completed known k devices))
    | inr e ↦ rw e (ap (λ (b : Bool). goes k d || b) (any-goes-completed known k devices))
  ]

  any-goes-with_owner_names :
      (s : Memory) (k : Text) (devices : List Device)
      → any (goes k) (with_owner_names s devices) ≡ any (goes k) devices
  unfolding with_owner_names
  any-goes-with_owner_names s k devices = elim (Bool-cases (any is_incomplete devices)) [
    | inl e ↦ rw e (any-goes-completed _ k devices)
    | inr e ↦ rw e refl
  ]

  -- What stands under a key and is inactive.
  abbrev pub inactive_at : Option Device → Bool
  inactive_at none = false
  inactive_at (some d) = is_inactive grace now d

  any-goes-values :
      (m : GoMap Text Device) (k : Text)
      → IsMap m
      → ((j : Text) (d : Device) → get m j ≡ some d → device_key d ≡ j)
      → any (goes k) (values m) ≡ inactive_at (get m k)
  unfolding any get values
  any-goes-values [] k w keyed = refl
  any-goes-values ((j, d) ∷ m) k w keyed =
      let own : device_key d ≡ j = keyed j d (ground (arith, list_beq_iff j j)) in
      let rest =
        any-goes-values m k w.1 (λ i e h. keyed i e (ground (arith, list_beq_iff j i, w.0))) in
      ground (arith, own, rest, list_beq_iff j k, w.0)

  any-goes-all :
      (s : Memory) (k : Text)
      → Sound s
      → any (goes k) (list_all_devices s) ≡ inactive_at (get s.db k)
  unfolding list_all_devices list_devices
  any-goes-all s k w =
      any-goes-with_owner_names s k (list_devices s [])
      ∙ ap (any (goes k)) (keep_all (values s.db))
      ∙ any-goes-values s.db k w.is_map w.keyed

  -- Of well-formed devices: after a pass, exactly the devices are gone that were inactive for longer
  -- than the grace period, whatever happened to the others in the same pass, and every other device is
  -- as it was.
  pub get-check_and_remove :
      (s : Memory) (k : Text)
      → Sound s
      → get (check_and_remove grace now s).db k
        ≡ (if inactive_at (get s.db k) then none else get s.db k)
  unfolding check_and_remove
  get-check_and_remove s k w =
      ground (arith, get-remove_inactive (list_all_devices s) s k w, any-goes-all s k w)
