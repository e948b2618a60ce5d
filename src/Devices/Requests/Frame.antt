-- ===== src/Devices/Requests/Frame.antt =====
-- What a request about one device leaves as it is.
use wg_access_server.Prelude.{
  ℕ, Bool, ◌≡◌, ◌≢◌, refl, sym, ap, ◌∙◌, inl, inr, Option, none, some, [], ◌∷◌, arith, list_eq,
  nat_eq, list_beq_iff, Bool-cases, Option-cases, Result, ok, err,
}
use wg_access_server.Prelude.GoMap.{get, put, delete, get-put, get-delete}
use wg_access_server.Prelude.Text.{Text}
use wg_access_server.Netip.Codec.{Codec}
use wg_access_server.Storage.{Device, device_key}
use wg_access_server.Storage.Keys.{key_str}
use wg_access_server.Storage.Memory.{
  Memory, Outcome, updated, changed_to, set_access, set_routes, set_keys, delete_device, key_taken,
  get_device,
}
use wg_access_server.Storage.Memory.Wellformed.Steps.{Sound}
use wg_access_server.Devices.Manager.{Config, set_device_access, rotate_keys, remove_device}
use wg_access_server.Devices.Routes.{set_device_routes}
use wg_access_server.Devices.Requests.{
  Request, adds, renames, changes_access, routes, rotates, removes, clears, blocks, records, after,
  store_of, store_of_rotation, handle,
}
use wg_access_server.Devices.Requests.Steps.{
  set_device_access-set_access, set_device_routes-set_routes, rotate_keys-set_keys,
  remove_device-delete,
}

changed_to-frame :
    (s : Memory) (changed : Device) (o : Outcome Device) (k : Text)
    → changed_to s changed ≡ ok o
    → k ≢ device_key changed
    → get o.after.db k ≡ get s.db k
changed_to-frame s changed o k h other =
    let written : Outcome Device = record {
      after = record s { db = put s.db (device_key changed) changed };
      events = updated changed ∷ [];
      value = changed;
    } in
    let same : written ≡ o = ground (arith, h) in
    ap (λ (p : Outcome Device). get p.after.db k) (sym same)
    ∙ ground (
      arith,
      get-put s.db (device_key changed) k changed,
      list_beq_iff (device_key changed) k,
      other,
    )

-- The device that is found for a user has the key of the user and the name.
pub get_device-key :
    (s : Memory) (user name : Text) (d : Device)
    → Sound s
    → get_device s user name ≡ ok d
    → (get s.db (device_key d) ≡ some d) × (device_key d ≡ key_str user name)
unfolding get_device
get_device-key s user name d w h = elim (Option-cases (get s.db (key_str user name))) [
  | inl e ↦ ground arith
  | inr (x, e) ↦
      let same : x ≡ d = ground arith in
      let found : get s.db (key_str user name) ≡ some d = ground arith in
      let key = w.keyed (key_str user name) d found in (ap (get s.db) key ∙ found, key)
]

module _ (s : Memory) (d : Device) (o : Outcome Device) (k : Text) (w : Sound s)
    (other : k ≢ device_key d) where
  set_access-frame :
      (blocked : Bool) (expiry : Option ℕ)
      → set_access s d blocked expiry ≡ ok o
      → get o.after.db k ≡ get s.db k
  unfolding set_access device_key
  set_access-frame blocked expiry h = elim (Option-cases (get s.db (device_key d))) [
    | inl e ↦ ground arith
    | inr (x, e) ↦
        changed_to-frame s (record x { disabled = blocked; expires_at = expiry }) o k (ground arith)
          (λ z. other (z ∙ w.keyed (device_key d) x e))
  ]

  set_routes-frame : (text : Text) → set_routes s d text ≡ ok o → get o.after.db k ≡ get s.db k
  unfolding set_routes device_key
  set_routes-frame text h = elim (Option-cases (get s.db (device_key d))) [
    | inl e ↦ ground arith
    | inr (x, e) ↦
        changed_to-frame s (record x { routes = text }) o k (ground arith)
          (λ z. other (z ∙ w.keyed (device_key d) x e))
  ]

  set_keys-frame :
      (public preshared : Text)
      → set_keys s d public preshared ≡ ok o
      → get o.after.db k ≡ get s.db k
  unfolding set_keys device_key
  set_keys-frame public preshared h = elim (Option-cases (get s.db (device_key d))) [
    | inl e ↦ ground arith
    | inr (x, e) ↦ elim (Bool-cases (key_taken s.db public (device_key d))) [
      | inl taken ↦ ground arith
      | inr free ↦
          changed_to-frame s (record x { public_key = public; preshared_key = preshared }) o k
            (ground arith) (λ z. other (z ∙ w.keyed (device_key d) x e))
    ]
  ]

delete_device-frame :
    (s : Memory) (d : Device) (k : Text) (other : k ≢ device_key d) (o : Outcome Unit)
    → delete_device s d ≡ ok o
    → get o.after.db k ≡ get s.db k
unfolding delete_device
delete_device-frame s d k other o h =
    let same : record s { db = delete s.db (device_key d) } ≡ o.after = ground (arith, h) in
    ap (λ (m : Memory). get m.db k) (sym same)
    ∙ ground (arith, get-delete s.db (device_key d) k, list_beq_iff (device_key d) k, other)

-- The device that a request is about, where it is about one and does not rename it.
abbrev subject : Request → Option (Text × Text)
subject (changes_access user name change now) = some (user, name)
subject (routes host user name networks) = some (user, name)
subject (rotates user name public_key preshared_key) = some (user, name)
subject (removes user name) = some (user, name)
subject (adds owner name public_key preshared_key manual now) = none
subject (renames user name new_name) = none
subject (clears user) = none
subject (blocks user) = none
subject (records updates) = none

after-frame :
    {E : Type 0} {A : Type 0} (store : A → Memory) (s : Memory) (k : Text) (r : Result E A)
    → ((a : A) → r ≡ ok a → get (store a).db k ≡ get s.db k)
    → get (after store s r).db k ≡ get s.db k
after-frame store s k (ok a) h = h a refl
after-frame store s k (err e) h = refl

module _ (c : Codec) (config : Config) (s : Memory) (k : Text) (w : Sound s) where
  apart :
      (user name user' name' : Text) (d : Device)
      → ◌≡◌ {A = Option (Text × Text)} (some (user, name)) (some (user', name'))
      → k ≢ key_str user' name'
      → get_device s user name ≡ ok d
      → k ≢ device_key d
  apart user name user' name' d about other at z =
      let (found, key) = get_device-key s user name d w at in
      let same : user ≡ user' = ground arith in
      let same' : name ≡ name' = ground arith in
      other (z ∙ key ∙ ap (λ (u : Text). key_str u name) same ∙ ap (key_str user') same')

  -- For well-formed devices: a request that blocks, unblocks or limits a device, sets its routes,
  -- rotates its keys or removes it, refused or not, leaves what stands under every other key than
  -- that of the user and the name it gives.
  pub handle-frame :
      (r : Request) (user name : Text)
      → subject r ≡ some (user, name)
      → k ≢ key_str user name
      → get (handle c config s r).db k ≡ get s.db k
  unfolding handle
  handle-frame (changes_access u n change now) user name about other =
      after-frame store_of s k (set_device_access s u n change now) (λ o h.
        let (d, b, e, at, q) = set_device_access-set_access s u n o change now h in
        set_access-frame s d o k w (apart u n user name d about other at) b e q)
  handle-frame (routes host u n networks) user name about other =
      after-frame store_of s k (set_device_routes c config host s u n networks) (λ o h.
        let (d, t, at, q) = set_device_routes-set_routes s u n o c config host networks h in
        set_routes-frame s d o k w (apart u n user name d about other at) t q)
  handle-frame (rotates u n public preshared) user name about other =
      after-frame store_of_rotation s k (rotate_keys s u n public preshared) (λ a h.
        let (d, at, q) = rotate_keys-set_keys s u n public preshared a.0 a.1 h in
        set_keys-frame s d a.1 k w (apart u n user name d about other at) public preshared q)
  handle-frame (removes u n) user name about other =
      after-frame store_of s k (remove_device s u n) (λ o h.
        let (d, at, q) = remove_device-delete s u n o h in
        delete_device-frame s d k (apart u n user name d about other at) o q)
  handle-frame (adds o n p q m now) user name about other = ground arith
  handle-frame (renames u n n') user name about other = ground arith
  handle-frame (clears u) user name about other = ground arith
  handle-frame (blocks u) user name about other = ground arith
  handle-frame (records updates) user name about other = ground arith
