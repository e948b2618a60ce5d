-- ===== src/Api/Spares/Devices.antt =====
-- The device manager leaves the others alone when it works for one user.
use wg_access_server.Prelude.{
  ℕ, ◌≡◌, refl, sym, ◌∙◌, some, list_eq, nat_eq, arith, ok, Bool-cases, inl, inr, subst,
}
use wg_access_server.Prelude.GoMap.{get, put, delete}
use wg_access_server.Prelude.Text.{Text}
use wg_access_server.Netip.Codec.{Codec}
use wg_access_server.Storage.{Device, device_key}
use wg_access_server.Storage.Keys.Injective.{key_str-injective}
use wg_access_server.Storage.Memory.{
  Memory, Outcome, save, rename, set_keys, delete_device, key_taken, get_device, changed_to,
}
use wg_access_server.Storage.Memory.Wellformed.{delete-IsWellformed}
use wg_access_server.Storage.Memory.Wellformed.Steps.{
  Sound, save-IsWellformed, set_keys-IsWellformed, rename-IsWellformed,
}
use wg_access_server.Websessions.Invariant.{IsSessionMap}
use wg_access_server.Devices.Manager.{
  Config, Owner, Manual, add_device, new_device, rename_device, rotate_keys, remove_device,
}
use wg_access_server.Devices.Requests.Steps.{
  add_device-save, rename_device-rename, rotate_keys-set_keys, remove_device-delete,
}
use wg_access_server.Devices.Requests.Frame.{get_device-key}
use wg_access_server.Api.Spares.{
  IsStored, Spares, Keeps, Keeps-refl, Spares-trans, Spares-db_put, Spares-db_delete,
}

save-after :
    (s : Memory) (d : Device) (o : Outcome Unit)
    → save s d ≡ ok o
    → record s { db = put s.db (device_key d) d } ≡ o.after
unfolding save
save-after s d o h = ground (arith, h)

changed_to-after :
    (s : Memory) (d : Device) (o : Outcome Device)
    → changed_to s d ≡ ok o
    → record s { db = put s.db (device_key d) d } ≡ o.after
changed_to-after s d o h = ground (arith, h)

pub add_device-Keeps :
    (c : Codec) (config : Config) (s : Memory) (owner : Owner) (name public preshared : Text)
    (manual : Manual) (now : ℕ) (o : Outcome Device)
    → add_device c config s owner name public preshared manual now ≡ ok o
    → Keeps owner.subject s o.after
add_device-Keeps c config s owner name public preshared manual now o h w =
    let (t, o', saved, same) =
      add_device-save c config s owner name public preshared manual now o h in
    let d = new_device owner name public preshared t now in
    subst (λ (m : Memory). IsStored m × Spares owner.subject s m)
      (save-after s d o' saved ∙ sym same)
      (
        record {
          sound =
              subst Sound (sym (save-after s d o' saved)) (save-IsWellformed s d o' saved w.sound);
          sessions = w.sessions;
        },
        Spares-db_put owner.subject s d refl w.sound,
      )

module _ (s : Memory) (user name : Text) where
  get_device-owner :
      (d : Device)
      → Sound s
      → get_device s user name ≡ ok d
      → (get s.db (device_key d) ≡ some d) × (d.owner ≡ user)
  unfolding device_key
  get_device-owner d w h =
      let (found, key) = get_device-key s user name d w h in
      (found, (key_str-injective d.owner d.name user name key).0)

  rename-after :
      (d : Device) (new_name : Text) (o : Outcome Device)
      → get s.db (device_key d) ≡ some d
      → rename s d new_name ≡ ok o
      → let renamed : Device = record d { name = new_name } in
        record s { db = put (delete s.db (device_key d)) (device_key renamed) renamed } ≡ o.after
  unfolding rename
  rename-after d new_name o found r =
      let without : Memory = record s { db = delete s.db (device_key d) } in
      let written : changed_to without (record d { name = new_name }) ≡ ok o =
        ground (arith, r, found) in
      changed_to-after without (record d { name = new_name }) o written

  set_keys-after :
      (d : Device) (public preshared : Text) (o : Outcome Device)
      → get s.db (device_key d) ≡ some d
      → set_keys s d public preshared ≡ ok o
      → let changed : Device = record d { public_key = public; preshared_key = preshared } in
        record s { db = put s.db (device_key d) changed } ≡ o.after
  unfolding set_keys device_key
  set_keys-after d public preshared o found r =
      elim (Bool-cases (key_taken s.db public (device_key d))) [
        | inl taken ↦ ground arith
        | inr free ↦
            let changed : Device = record d { public_key = public; preshared_key = preshared } in
            let written : changed_to s changed ≡ ok o = ground (arith, r, found) in
            changed_to-after s changed o written
      ]

  pub rename_device-Keeps :
      (new_name : Text) (o : Outcome Device)
      → rename_device s user name new_name ≡ ok o
      → Keeps user s o.after
  rename_device-Keeps new_name o h w = elim (rename_device-rename s user name o new_name h) [
    | inl same ↦ subst (Keeps user s) (sym same) (Keeps-refl user s) w
    | inr (d, at, r) ↦
        let (found, own) = get_device-owner d w.sound at in
        let without : Memory = record s { db = delete s.db (device_key d) } in
        let renamed = rename-after d new_name o found r in
        (
          record {
            sound = rename-IsWellformed s d o new_name r w.sound;
            sessions = subst (λ (m : Memory). IsSessionMap m.sessions) renamed w.sessions;
          },
          subst (Spares user s) renamed (
              Spares-trans (Spares-db_delete user s d own w.sound) (
                Spares-db_put user without (record d { name = new_name }) own
                  (delete-IsWellformed s.db (device_key d) w.sound))),
        )
  ]

  pub rotate_keys-Keeps :
      (public preshared old : Text) (o : Outcome Device)
      → rotate_keys s user name public preshared ≡ ok (old, o)
      → Keeps user s o.after
  unfolding device_key
  rotate_keys-Keeps public preshared old o h w =
      let (d, at, r) = rotate_keys-set_keys s user name public preshared old o h in
      let (found, own) = get_device-owner d w.sound at in
      let written = set_keys-after d public preshared o found r in
      (
        record {
          sound = set_keys-IsWellformed s d o public preshared r w.sound;
          sessions = subst (λ (m : Memory). IsSessionMap m.sessions) written w.sessions;
        },
        subst (Spares user s) written (
            Spares-db_put user s (record d { public_key = public; preshared_key = preshared }) own
              w.sound),
      )

  pub remove_device-Keeps :
      (o : Outcome Unit) → remove_device s user name ≡ ok o → Keeps user s o.after
  unfolding delete_device
  remove_device-Keeps o h w =
      let (d, at, r) = remove_device-delete s user name o h in
      let (found, own) = get_device-owner d w.sound at in
      let same : record s { db = delete s.db (device_key d) } ≡ o.after = ground (arith, r) in
      subst (λ (m : Memory). IsStored m × Spares user s m) same
        (
          record { sound = delete-IsWellformed s.db (device_key d) w.sound; sessions = w.sessions },
          Spares-db_delete user s d own w.sound,
        )
