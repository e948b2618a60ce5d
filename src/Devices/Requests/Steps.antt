-- ===== src/Devices/Requests/Steps.antt =====
-- The operation of the storage that a request of the manager comes down to.
use wg_access_server.Prelude.{
  ℕ, Bool, ◌≡◌, ◌⊎◌, inl, inr, Option, List, ◌==◌, list_eq, nat_eq, arith, Result, ok, err,
  >>=-eq-ok, Bool-cases, Result-cases,
}
use wg_access_server.Prelude.Text.{Text}
use wg_access_server.Netip.{Prefix}
use wg_access_server.Netip.Codec.{Codec}
use wg_access_server.Storage.{Device}
use wg_access_server.Storage.Memory.{
  Memory, Outcome, StorageError, save, rename, set_access, set_routes, set_keys, delete_device,
  get_device,
}
use wg_access_server.Devices.Manager.{
  Config, Owner, Manual, AccessChange, from_storage, add_device, add_device_locked, client_address,
  new_device, rename_device, set_device_access, rotate_keys, remove_device, new_disabled,
  new_expiry,
}
use wg_access_server.Devices.Routes.{set_device_routes, normalize_routes, check_routes, route_text}

pub from_storage-eq-ok :
    {A : Type 0} (r : Result StorageError A) (a : A) → from_storage r ≡ ok a → r ≡ ok a
from_storage-eq-ok (ok x) a h = ground arith
from_storage-eq-ok (err e) a h = cc

pub add_device-save :
    (c : Codec) (config : Config) (s : Memory) (owner : Owner)
    (name public_key preshared_key : Text) (manual : Manual) (now : ℕ) (o : Outcome Device)
    → add_device c config s owner name public_key preshared_key manual now ≡ ok o
    → (t : Text) × (o' : Outcome Unit) × (save s
          (new_device owner name public_key preshared_key t now)
        ≡ ok o')
      × (o.after ≡ o'.after)
unfolding add_device add_device_locked
add_device-save c config s owner name public_key preshared_key manual now o h =
    elim (Result-cases (client_address c config s manual)) [
      | inr (x, e) ↦ ground arith
      | inl (t, e) ↦
          elim (Result-cases (save s (new_device owner name public_key preshared_key t now))) [
            | inr (x, e') ↦ ground arith
            | inl (o', e') ↦ (t, o', e', ground arith)
          ]
    ]

module _ (s : Memory) (user name : Text) (o : Outcome Device) where
  pub rename_device-rename :
      (new_name : Text)
      → rename_device s user name new_name ≡ ok o
      → (o.after ≡ s)
        ⊎ ((d : Device) × (get_device s user name ≡ ok d) × (rename s d new_name ≡ ok o))
  unfolding rename_device
  rename_device-rename new_name h = elim (Result-cases (get_device s user name)) [
    | inr (x, e) ↦ ground arith
    | inl (d, e) ↦ elim (Bool-cases (name == new_name)) [
      | inl same ↦ inl (ground arith)
      | inr other ↦ elim (Result-cases (rename s d new_name)) [
        | inr (x, e') ↦ ground arith
        | inl (o', e') ↦ inr (d, e, ground arith)
      ]
    ]
  ]

  pub set_device_access-set_access :
      (change : AccessChange) (now : ℕ)
      → set_device_access s user name change now ≡ ok o
      → (d : Device) × (blocked : Bool) × (expiry : Option ℕ) × (get_device s user name ≡ ok d)
        × (set_access s d blocked expiry ≡ ok o)
  unfolding set_device_access
  set_device_access-set_access change now h =
      let (d, at, r) = >>=-eq-ok (from_storage (get_device s user name)) _ h in
      let (expiry, at', r') =
        >>=-eq-ok (new_expiry change.clear_expires_at change.expires_at d.expires_at now) _ r in
      let blocked : Bool = new_disabled change.disabled d.disabled in
      (
        d,
        blocked,
        expiry,
        from_storage-eq-ok (get_device s user name) d at,
        from_storage-eq-ok (set_access s d blocked expiry) o r',
      )

  pub set_device_routes-set_routes :
      (c : Codec) (config : Config) (host : Option (List Prefix)) (networks : List Text)
      → set_device_routes c config host s user name networks ≡ ok o
      → (d : Device) × (text : Text) × (get_device s user name ≡ ok d)
        × (set_routes s d text ≡ ok o)
  unfolding set_device_routes
  set_device_routes-set_routes c config host networks h =
      let (ps, at, r) = >>=-eq-ok (normalize_routes c networks) _ h in
      let (d, at', r') = >>=-eq-ok (from_storage (get_device s user name)) _ r in
      let (u, at'', r'') = >>=-eq-ok (check_routes c config host s ps d) _ r' in
      (
        d,
        route_text c ps,
        from_storage-eq-ok (get_device s user name) d at',
        from_storage-eq-ok _ o r'',
      )

pub rotate_keys-set_keys :
    (s : Memory) (user name public_key preshared_key old : Text) (o : Outcome Device)
    → rotate_keys s user name public_key preshared_key ≡ ok (old, o)
    → (d : Device) × (get_device s user name ≡ ok d)
      × (set_keys s d public_key preshared_key ≡ ok o)
unfolding rotate_keys
rotate_keys-set_keys s user name public_key preshared_key old o h =
    elim (Result-cases (get_device s user name)) [
      | inr (x, e) ↦ ground arith
      | inl (d, e) ↦ elim (Result-cases (set_keys s d public_key preshared_key)) [
        | inr (x, e') ↦ ground arith
        | inl (o', e') ↦ (d, e, ground arith)
      ]
    ]

pub remove_device-delete :
    (s : Memory) (user name : Text) (o : Outcome Unit)
    → remove_device s user name ≡ ok o
    → (d : Device) × (get_device s user name ≡ ok d) × (delete_device s d ≡ ok o)
unfolding remove_device
remove_device-delete s user name o h = elim (Result-cases (get_device s user name)) [
  | inr (x, e) ↦ ground arith
  | inl (d, e) ↦ (d, e, from_storage-eq-ok (delete_device s d) o (ground arith))
]
