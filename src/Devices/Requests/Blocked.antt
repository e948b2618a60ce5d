-- ===== src/Devices/Requests/Blocked.antt =====
-- From the request that blocks a device to the interface.
use wg_access_server.Prelude.{
  ℕ, Bool, true, false, ◌≡◌, ◌≢◌, refl, sym, ap, ◌∙◌, Option, some, List, [], ◌∷◌, arith, ==_refl,
  elem, list_eq, nat_eq, Bool-cases, Option-cases, inl, inr, ok, >>=-eq-ok, subst,
}
use wg_access_server.Prelude.GoMap.{get, put, get-put}
use wg_access_server.Prelude.Text.{Text}
use wg_access_server.Storage.{Device, access_allowed, device_key}
use wg_access_server.Storage.Memory.{Memory, Outcome, changed_to, set_access, get_device, updated}
use wg_access_server.Storage.Memory.Wellformed.Steps.{Sound, set_access-IsWellformed}
use wg_access_server.Devices.Manager.{
  AccessChange, from_storage, new_disabled, new_expiry, set_device_access,
}
use wg_access_server.Devices.Sync.{
  Peer, WireGuard, KeyForms, list_all_devices, allowed_keys, sync_peers,
}
use wg_access_server.Devices.Requests.Steps.{from_storage-eq-ok}
use wg_access_server.Devices.Sync.Peers.{IsReliable, has-sync_peers}
use wg_access_server.Devices.Sync.Stored.{allowed-get}

changed_to-stored :
    (s : Memory) (changed : Device) (o : Outcome Device)
    → changed_to s changed ≡ ok o
    → (changed ≡ o.value) × (get o.after.db (device_key o.value) ≡ some o.value)
changed_to-stored s changed o h =
    let written : Outcome Device = record {
      after = record s { db = put s.db (device_key changed) changed };
      events = updated changed ∷ [];
      value = changed;
    } in
    let same : written ≡ o = ground (arith, h) in
    let stored : get written.after.db (device_key changed) ≡ some changed = ground (
      arith,
      ==_refl (device_key changed),
      get-put s.db (device_key changed) (device_key changed) changed,
    ) in
    subst
      (λ (p : Outcome Device).
        (changed ≡ p.value) × (get p.after.db (device_key p.value) ≡ some p.value))
      same (refl, stored)

set_access-stored :
    (s : Memory) (d : Device) (blocked : Bool) (expiry : Option ℕ) (o : Outcome Device)
    → set_access s d blocked expiry ≡ ok o
    → (o.value.disabled ≡ blocked) × (get o.after.db (device_key o.value) ≡ some o.value)
unfolding set_access
set_access-stored s d blocked expiry o h = elim (Option-cases (get s.db (device_key d))) [
  | inl e ↦ ground arith
  | inr (stored, e) ↦
      let changed : Device = record stored { disabled = blocked; expires_at = expiry } in
      let written : changed_to s changed ≡ ok o = ground (arith, h, e) in
      let (same, g) = changed_to-stored s changed o written in
      (ap (λ (x : Device). x.disabled) (sym same), g)
]

-- A change that blocks the device blocks it in the store.
set_device_access-blocks :
    (s : Memory) (user name : Text) (change : AccessChange) (now : ℕ) (o : Outcome Device)
    → Sound s
    → change.disabled ≡ some true
    → set_device_access s user name change now ≡ ok o
    → Sound o.after × (o.value.disabled ≡ true) × ((k : Text) × (get o.after.db k ≡ some o.value))
unfolding set_device_access
set_device_access-blocks s user name change now o w asked h =
    let (d, at, r) = >>=-eq-ok (from_storage (get_device s user name)) _ h in
    let (expiry, at', r') =
      >>=-eq-ok (new_expiry change.clear_expires_at change.expires_at d.expires_at now) _ r in
    let blocked : Bool = new_disabled change.disabled d.disabled in
    let done = from_storage-eq-ok (set_access s d blocked expiry) o r' in
    let (q, g) = set_access-stored s d blocked expiry o done in
    (
      set_access-IsWellformed s d o blocked expiry done w,
      q ∙ ap (λ (x : Option Bool). new_disabled x d.disabled) asked,
      (device_key o.value, g),
    )

pub blocked-refused :
    (s : Memory) (later : ℕ) (k : Text) (d : Device)
    → Sound s
    → get s.db k ≡ some d
    → d.disabled ≡ true
    → d.public_key ≢ []
    → elem d.public_key (allowed_keys (list_all_devices s) later) ≡ false
unfolding access_allowed
blocked-refused s later k d w g blocked named =
    elim (Bool-cases (elem d.public_key (allowed_keys (list_all_devices s) later))) [
      | inr absent ↦ absent
      | inl present ↦
          let (j, e, at, same, allowed) = allowed-get s later d.public_key w.is_map present in
          ground (arith, w.unique j k e d at g same (λ z. named (sym same ∙ z)))
    ]

-- With a reliable interface and well-formed devices: once a request to block a device has been
-- served, a sync at any later or earlier time, whatever peers there are, leaves no peer for the
-- device's public key, if that key is not empty.
pub sync_peers-blocked :
    {wg : WireGuard} (r : IsReliable wg) (f : KeyForms) (s : Memory) (user name : Text)
    (change : AccessChange) (now later : ℕ) (o : Outcome Device) (st : wg.State) (ps : List Peer)
    → Sound s
    → change.disabled ≡ some true
    → set_device_access s user name change now ≡ ok o
    → o.value.public_key ≢ []
    → wg.list_peers st ≡ some ps
    → r.has (sync_peers wg f o.after later st).0 o.value.public_key ≡ false
sync_peers-blocked r f s user name change now later o st ps w asked h named listed =
    let (w', blocked, (k, g)) = set_device_access-blocks s user name change now o w asked h in
    has-sync_peers r f o.after later st ps o.value.public_key listed
    ∙ blocked-refused o.after later k o.value w' g blocked named
