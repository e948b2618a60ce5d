-- ===== src/Devices/Sync/Stored.antt =====
-- The peers of the interface, and the devices in the storage.
use wg_access_server.Prelude.{
  ℕ, ◌<◌, Bool, true, false, not, ◌&&◌, ◌≡◌, refl, sym, ap, ◌∙◌, ◌↔◌, inl, inr, Option, none, some,
  List, [], ◌∷◌, map, any, arith, ◌==◌, elem, list_eq, list_beq_iff, nat_eq, In, In-keep, keep-In,
  keep, Bool-cases, Option-cases, if◌then◌else◌, subst,
}
use wg_access_server.Prelude.GoMap.{GoMap, get, IsMap, values, In-values, values-In}
use wg_access_server.Prelude.Text.{Text}
use wg_access_server.Storage.{Device, User, access_allowed, expired}
use wg_access_server.Storage.Memory.{Memory, list_devices}
use wg_access_server.Devices.Sync.{
  Peer, WireGuard, KeyForms, complete_with, is_incomplete, with_owner_names, list_all_devices,
  allowed_keys, blocked_keys, sync_peers, remove_blocked_peers,
}
use wg_access_server.Devices.Sync.Peers.{IsReliable, has-sync_peers, has-remove_blocked_peers}

-- No expiry, or one that is still to come.
abbrev pub StillAhead : Option ℕ → ℕ → Type 0
StillAhead none now = Unit
StillAhead (some expiry) now = now < expiry

-- The device may connect.
abbrev pub MayConnect : Device → ℕ → Type 0
MayConnect d now = (d.disabled ≡ false) × StillAhead d.expires_at now

pub access_allowed-MayConnect :
    (d : Device) (now : ℕ) → access_allowed d now ≡ true ↔ MayConnect d now
unfolding access_allowed expired
access_allowed-MayConnect d now = elim (Option-cases d.expires_at) [
  | inl e ↦ rw e ((λ h. ground (arith, e)), (λ h. ground (arith, e)))
  | inr (expiry, e) ↦ rw e ((λ h. ground (arith, e)), (λ h. ground (arith, e)))
]

-- A stored device has the key, and may connect.
abbrev pub IsAdmitted : Memory → ℕ → Text → Type 0
IsAdmitted s now key =
    (k : Text) × (d : Device) × (get s.db k ≡ some d) × (d.public_key ≡ key) × MayConnect d now

module _ (q : Device → Bool) where
  -- The keys of the devices that pass a test.
  abbrev keys_where : List Device → List Text
  keys_where devices = map (λ (d : Device). d.public_key) (keep q devices)

  elem-keys_where :
      (devices : List Device) (key : Text)
      → elem key (keys_where devices) ≡ true
      → (d : Device) × In d devices × (d.public_key ≡ key) × (q d ≡ true)
  unfolding keep elem
  elem-keys_where [] key h = cc
  elem-keys_where (d ∷ devices) key h = elim (Bool-cases (q d && key == d.public_key)) [
    | inl e ↦ (d, inl refl, ground (arith, list_beq_iff key d.public_key), ground arith)
    | inr e ↦ let (x, n, p, r) = elem-keys_where devices key (ground arith) in (x, inr n, p, r)
  ]

  keys_where-elem :
      (devices : List Device) (d : Device)
      → In d devices
      → q d ≡ true
      → elem d.public_key (keys_where devices) ≡ true
  unfolding keep elem
  keys_where-elem [] d n e = elim n [ ]
  keys_where-elem (x ∷ devices) d (inl same) e = ground (
    arith,
    same,
    ap q same,
    ap (λ (y : Device). y.public_key) same,
    list_beq_iff d.public_key x.public_key,
  )
  keys_where-elem (x ∷ devices) d (inr n) e = ground (arith, keys_where-elem devices d n e)

  abbrev completed : GoMap Text User → Device → Device
  completed known d = if is_incomplete d then complete_with d (get known d.owner) else d

  module _ (same_test : (d : Device) (o : Option User) → q (complete_with d o) ≡ q d) where
    complete_with-key :
        (d : Device) (o : Option User) → (complete_with d o).public_key ≡ d.public_key
    complete_with-key d none = refl
    complete_with-key d (some user) = refl

    completed-same :
        (known : GoMap Text User) (d : Device)
        → ((completed known d).public_key ≡ d.public_key) × (q (completed known d) ≡ q d)
    completed-same known d = elim (Bool-cases (is_incomplete d)) [
      | inl e ↦ rw e (complete_with-key d (get known d.owner), same_test d (get known d.owner))
      | inr e ↦ rw e (refl, refl)
    ]

    keys_where-completed :
        (known : GoMap Text User) (devices : List Device)
        → keys_where (map (completed known) devices) ≡ keys_where devices
    unfolding keep
    keys_where-completed known [] = refl
    keys_where-completed known (d ∷ devices) =
        let (key, test) = completed-same known d in
        let rest = keys_where-completed known devices in
        elim (Bool-cases (q d)) [
          | inl e ↦ rw (test, e) (rw (key, rest) refl)
          | inr e ↦ rw (test, e) rest
        ]

    keys_where-with_owner_names :
        (s : Memory) (devices : List Device)
        → keys_where (with_owner_names s devices) ≡ keys_where devices
    unfolding with_owner_names
    keys_where-with_owner_names s devices = elim (Bool-cases (any is_incomplete devices)) [
      | inl e ↦ rw e (keys_where-completed _ devices)
      | inr e ↦ rw e refl
    ]

    -- The keys of the stored devices that pass the test.
    elem-stored :
        (s : Memory) (key : Text)
        → IsMap s.db
        → elem key (keys_where (list_all_devices s)) ≡ true
        → (k : Text) × (d : Device) × (get s.db k ≡ some d) × (d.public_key ≡ key) × (q d ≡ true)
    unfolding list_all_devices list_devices
    elem-stored s key w h =
        let (d, n, p, e) =
          elem-keys_where (list_devices s []) key
            (ap (elem key) (sym (keys_where-with_owner_names s (list_devices s []))) ∙ h) in
        let (v, always) = In-keep _ d (values s.db) n in
        let (k, g) = In-values s.db d w v in (k, d, g, p, e)

    stored-elem :
        (s : Memory) (k : Text) (d : Device)
        → get s.db k ≡ some d
        → q d ≡ true
        → elem d.public_key (keys_where (list_all_devices s)) ≡ true
    unfolding list_all_devices list_devices
    stored-elem s k d g e =
        ap (elem d.public_key) (keys_where-with_owner_names s (list_devices s []))
        ∙ keys_where-elem (list_devices s []) d
            (keep-In _ d (values s.db) (values-In s.db k d g) refl) e

complete_with-access_allowed :
    (now : ℕ) (d : Device) (o : Option User)
    → access_allowed (complete_with d o) now ≡ access_allowed d now
unfolding access_allowed expired
complete_with-access_allowed now d none = refl
complete_with-access_allowed now d (some user) = refl

complete_with-blocked :
    (now : ℕ) (d : Device) (o : Option User)
    → not (access_allowed (complete_with d o) now) ≡ not (access_allowed d now)
complete_with-blocked now d o = ap not (complete_with-access_allowed now d o)

-- A key of the list is that of a stored device that may connect.
pub allowed-get :
    (s : Memory) (now : ℕ) (key : Text)
    → IsMap s.db
    → elem key (allowed_keys (list_all_devices s) now) ≡ true
    → (k : Text) × (d : Device) × (get s.db k ≡ some d)
      × (d.public_key ≡ key)
      × (access_allowed d now ≡ true)
unfolding allowed_keys
allowed-get s now key = elem-stored _ (complete_with-access_allowed now) s key

module _ {wg : WireGuard} (r : IsReliable wg) (s : Memory) (now : ℕ) (st : wg.State)
    (ps : List Peer) (key : Text) where
  -- With a reliable interface whose peers can be listed, and a store with each key once: after a sync,
  -- a key has a peer if and only if it is the public key of a stored device that is not blocked and
  -- whose expiry, if there is one, is still to come, whatever peers there were before.
  pub sync_peers-has :
      (f : KeyForms)
      → IsMap s.db
      → wg.list_peers st ≡ some ps
      → r.has (sync_peers wg f s now st).0 key ≡ true ↔ IsAdmitted s now key
  unfolding allowed_keys
  sync_peers-has f w listed =
      let at = has-sync_peers r f s now st ps key listed in
      (
        (λ h.
            let (k, d, g, same, allowed) = allowed-get s now key w (sym at ∙ h) in
            (k, d, g, same, (access_allowed-MayConnect d now).0 allowed)),
        (λ (k, d, g, same, may).
            at
            ∙ subst (λ (x : Text). elem x (allowed_keys (list_all_devices s) now) ≡ true) same
                (stored-elem _ (complete_with-access_allowed now) s k d g
                  ((access_allowed-MayConnect d now).1 may))),
      )

  blocked-stored :
      elem key (blocked_keys wg (list_all_devices s) now) ≡ false
      → (k : Text) (d : Device) → get s.db k ≡ some d
      → d.public_key ≡ key
      → MayConnect d now
  unfolding blocked_keys
  blocked-stored free k d g same = elim (Bool-cases (access_allowed d now)) [
    | inl allowed ↦ (access_allowed-MayConnect d now).0 allowed
    | inr refused ↦
        let listed : elem key (blocked_keys wg (list_all_devices s) now) ≡ true =
          subst (λ (x : Text). elem x (blocked_keys wg (list_all_devices s) now) ≡ true) same
            (stored-elem _ (complete_with-blocked now) s k d g (ground (arith, refused))) in
        ground (arith, listed, free)
  ]

  stored-blocked :
      IsMap s.db
      → ((k : Text) (d : Device) → get s.db k ≡ some d → d.public_key ≡ key → MayConnect d now)
      → elem key (blocked_keys wg (list_all_devices s) now) ≡ false
  unfolding blocked_keys
  stored-blocked w may = elim (Bool-cases (elem key (blocked_keys wg (list_all_devices s) now))) [
    | inr absent ↦ absent
    | inl present ↦
        let (k, d, g, same, refused) = elem-stored _ (complete_with-blocked now) s key w present in
        let allowed = (access_allowed-MayConnect d now).1 (may k d g same) in
        ground (arith, refused, allowed)
  ]

  -- With a reliable interface whose peers can be listed, and a store with each key once: after the
  -- pass over the access, a key has a peer if and only if it had one before and every stored device
  -- with that public key is not blocked and has an expiry, if any, that is still to come.
  pub remove_blocked_peers-has :
      IsMap s.db
      → wg.list_peers st ≡ some ps
      → r.has (remove_blocked_peers wg s now st) key ≡ true
        ↔ (r.has st key ≡ true)
          × ((k : Text) (d : Device) → get s.db k ≡ some d → d.public_key ≡ key → MayConnect d now)
  remove_blocked_peers-has w listed =
      let at = has-remove_blocked_peers r s now st ps key listed in
      (
        (λ h. (ground (arith, at, h), blocked-stored (ground (arith, at, h)))),
        (λ (there, may). ground (arith, at, there, stored-blocked w may)),
      )
