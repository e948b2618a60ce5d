-- ===== src/Storage/Memory/Wellformed/Steps.antt =====
-- Each operation of inmemory.go keeps the invariant of the devices.
use wg_access_server.Prelude.{
  ℕ, Bool, ◌≡◌, refl, inl, inr, Option, some, list_eq, list_beq_iff, nat_eq, arith, ok,
  Option-cases,
}
use wg_access_server.Prelude.GoMap.{GoMap, get, put, delete, get-delete}
use wg_access_server.Prelude.Text.{Text}
use wg_access_server.Storage.{Device, device_key}
use wg_access_server.Storage.Memory.{
  Memory, Outcome, save, rename, set_access, set_routes, set_keys,
}
use wg_access_server.Storage.Memory.Wellformed.{
  IsWellformed, put-IsWellformed, delete-IsWellformed, key_taken-eq-false,
}

-- The devices of a store keep the invariant.
abbrev pub Sound : Memory → Type 0
Sound s = IsWellformed s.db

pub save-IsWellformed :
    (s : Memory) (d : Device) (o : Outcome Unit) → save s d ≡ ok o → Sound s → Sound o.after
unfolding save
save-IsWellformed s d o h w = ground (
  arith,
  put-IsWellformed s.db d w (λ j e p same named.
      key_taken-eq-false s.db d.public_key (device_key d) j e (ground arith) p same),
)

-- A device that is replaced by one of its owner, name and public key.
replace-IsWellformed :
    (db : GoMap Text Device) (k : Text) (stored changed : Device)
    → get db k ≡ some stored
    → device_key changed ≡ device_key stored
    → changed.public_key ≡ stored.public_key
    → IsWellformed db
    → IsWellformed (put db (device_key changed) changed)
replace-IsWellformed db k stored changed h key same w =
    put-IsWellformed db changed w
      (λ j e p q named. ground (arith, w.unique j k e stored, w.keyed k stored))

module _ (s : Memory) (d : Device) (o : Outcome Device) where
  pub set_access-IsWellformed :
      (blocked : Bool) (expiry : Option ℕ)
      → set_access s d blocked expiry ≡ ok o
      → Sound s
      → Sound o.after
  unfolding set_access device_key
  set_access-IsWellformed blocked expiry h w = elim (Option-cases (get s.db (device_key d))) [
    | inl e ↦ ground arith
    | inr (stored, e) ↦ ground (
      arith,
      replace-IsWellformed s.db (device_key d) stored
          (record stored { disabled = blocked; expires_at = expiry }) e refl refl w,
    )
  ]

  pub set_routes-IsWellformed :
      (networks : Text) → set_routes s d networks ≡ ok o → Sound s → Sound o.after
  unfolding set_routes device_key
  set_routes-IsWellformed networks h w = elim (Option-cases (get s.db (device_key d))) [
    | inl e ↦ ground arith
    | inr (stored, e) ↦ ground (
      arith,
      replace-IsWellformed s.db (device_key d) stored (record stored { routes = networks }) e refl
          refl w,
    )
  ]

  pub set_keys-IsWellformed :
      (public preshared : Text) → set_keys s d public preshared ≡ ok o → Sound s → Sound o.after
  unfolding set_keys device_key
  set_keys-IsWellformed public preshared h w = elim (Option-cases (get s.db (device_key d))) [
    | inl e ↦ ground arith
    | inr (stored, e) ↦ ground (
      arith,
      w.keyed (device_key d) stored e,
      put-IsWellformed s.db (record stored { public_key = public; preshared_key = preshared }) w
          (λ j x p q named. ground (
            arith,
            key_taken-eq-false s.db public (device_key d) j x,
            w.keyed (device_key d) stored e,
          )),
    )
  ]

  pub rename-IsWellformed : (new_name : Text) → rename s d new_name ≡ ok o → Sound s → Sound o.after
  unfolding rename
  rename-IsWellformed new_name h w = elim (Option-cases (get s.db (device_key d))) [
    | inl e ↦ ground arith
    | inr (stored, e) ↦ ground (
      arith,
      put-IsWellformed (delete s.db (device_key stored)) (record stored { name = new_name })
          (delete-IsWellformed s.db (device_key stored) w)
          (λ j x p q named. ground (
            arith,
            get-delete s.db (device_key stored) j,
            list_beq_iff (device_key stored) j,
            w.keyed (device_key d) stored e,
            w.unique j (device_key d) x stored,
          )),
    )
  ]
