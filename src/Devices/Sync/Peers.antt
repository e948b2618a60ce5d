-- ===== src/Devices/Sync/Peers.antt =====
-- Which peers the interface has after the operations on it.
use wg_access_server.Prelude.{
  ℕ, Bool, true, false, not, ◌&&◌, ◌||◌, ◌≡◌, refl, inl, inr, none, some, List, [], ◌∷◌, map, arith,
  ◌==◌, elem, list_eq, list_beq_iff, nat_eq, keep, Bool-cases, if◌then◌else◌,
}
use wg_access_server.Prelude.GoMap.{GoMap, get, put, get-put}
use wg_access_server.Prelude.Text.{Text}
use wg_access_server.Storage.{Device, access_allowed, allowed_ips}
use wg_access_server.Storage.Memory.{Memory}
use wg_access_server.Devices.Sync.{
  Peer, WireGuard, KeyForms, list_all_devices, allowed_keys, remove_stale, configured,
  is_configured, add_missing, sync_peers, apply_peer, blocked_keys, remove_each, remove_listed,
  remove_blocked_peers,
}

abbrev pub key_of : Peer → Text
key_of p = p.public_key

-- An interface whose operations do what they are asked: which keys have a peer, and how that changes.
pub record IsReliable (wg : WireGuard) : Type 0 where
  pub has : wg.State → Text → Bool
  -- the peers that are listed are those that are there
  pub has-list :
      (st : wg.State) (ps : List Peer) (key : Text)
      → wg.list_peers st ≡ some ps
      → has st key ≡ elem key (map key_of ps)
  pub has-add :
      (st : wg.State) (k preshared : Text) (ips : List Text) (key : Text)
      → has (wg.add_peer st k preshared ips) key ≡ (k == key || has st key)
  pub has-remove :
      (st : wg.State) (k key : Text)
      → has (wg.remove_peer st k) key ≡ (not (k == key) && has st key)

module _ {wg : WireGuard} (r : IsReliable wg) where
  has-remove_stale :
      (allowed : List Text) (ps : List Peer) (st : wg.State) (key : Text)
      → r.has (remove_stale wg allowed ps st) key
        ≡ (r.has st key && (elem key allowed || not (elem key (map key_of ps))))
  unfolding remove_stale elem
  has-remove_stale allowed [] st key = ground arith
  has-remove_stale allowed (p ∷ ps) st key = ground (
    arith,
    has-remove_stale allowed ps st key,
    has-remove_stale allowed ps (wg.remove_peer st p.public_key) key,
    r.has-remove st p.public_key key,
    list_beq_iff p.public_key key,
    list_beq_iff key p.public_key,
  )

  get-configured :
      (ps : List Peer) (m : GoMap Text Peer) (key : Text)
      → elem key (map key_of ps) ≡ false
      → get (configured wg ps m) key ≡ get m key
  unfolding configured elem
  get-configured [] m key h = refl
  get-configured (p ∷ ps) m key h = ground (
    arith,
    get-configured ps (put m p.public_key p) key,
    get-put m p.public_key key p,
    list_beq_iff p.public_key key,
    list_beq_iff key p.public_key,
  )

  module _ (f : KeyForms) (allowed : List Text) (present : GoMap Text Peer) (key : Text) where
    has-add_missing-refused :
        (devices : List Device) (st : wg.State)
        → elem key allowed ≡ false
        → r.has (add_missing wg f allowed present devices st) key ≡ r.has st key
    unfolding add_missing
    has-add_missing-refused [] st h = refl
    has-add_missing-refused (d ∷ devices) st h =
        elim (Bool-cases
          (not (elem d.public_key allowed) || is_configured wg f (get present d.public_key) d)) [
            | inl skipped ↦ ground (arith, has-add_missing-refused devices st h)
            | inr added ↦ ground (
              arith,
              has-add_missing-refused devices
                  (wg.add_peer st d.public_key d.preshared_key (allowed_ips d)) h,
              r.has-add st d.public_key d.preshared_key (allowed_ips d) key,
              list_beq_iff d.public_key key,
            )
          ]

    has-add_missing-kept :
        (devices : List Device) (st : wg.State)
        → r.has st key ≡ true
        → r.has (add_missing wg f allowed present devices st) key ≡ true
    unfolding add_missing
    has-add_missing-kept [] st h = h
    has-add_missing-kept (d ∷ devices) st h =
        let st' = wg.add_peer st d.public_key d.preshared_key (allowed_ips d) in
        ground (
          arith,
          has-add_missing-kept devices st,
          has-add_missing-kept devices st',
          r.has-add st d.public_key d.preshared_key (allowed_ips d) key,
        )

    has-add_missing-added :
        (devices : List Device) (st : wg.State)
        → elem key allowed ≡ true
        → get present key ≡ none
        → elem key (map (λ (d : Device). d.public_key) devices) ≡ true
        → r.has (add_missing wg f allowed present devices st) key ≡ true
    unfolding add_missing elem
    has-add_missing-added [] st h missing m = cc
    has-add_missing-added (d ∷ devices) st h missing m =
        let st' = wg.add_peer st d.public_key d.preshared_key (allowed_ips d) in
        elim (Bool-cases (key == d.public_key)) [
          | inl e ↦
              let same : key ≡ d.public_key = (list_beq_iff key d.public_key).0 e in
              ground (
                arith,
                has-add_missing-kept devices st',
                r.has-add st d.public_key d.preshared_key (allowed_ips d) key,
                list_beq_iff d.public_key key,
              )
          | inr e ↦
              ground (arith, has-add_missing-added devices st, has-add_missing-added devices st')
        ]

  allowed-listed :
      (devices : List Device) (now : ℕ) (key : Text)
      → elem key (allowed_keys devices now) ≡ true
      → elem key (map (λ (d : Device). d.public_key) devices) ≡ true
  unfolding allowed_keys keep elem
  allowed-listed [] now key h = h
  allowed-listed (d ∷ devices) now key h = ground (arith, allowed-listed devices now key)

  pub has-sync_peers :
      (f : KeyForms) (s : Memory) (now : ℕ) (st : wg.State) (ps : List Peer) (key : Text)
      → wg.list_peers st ≡ some ps
      → r.has (sync_peers wg f s now st).0 key ≡ elem key (allowed_keys (list_all_devices s) now)
  unfolding sync_peers get
  has-sync_peers f s now st ps key listed =
      let devices = list_all_devices s in
      let allowed = allowed_keys devices now in
      let present = configured wg ps [] in
      let st' = remove_stale wg allowed ps st in
      ground (
        arith,
        r.has-list st ps key listed,
        has-remove_stale allowed ps st key,
        get-configured ps [] key,
        allowed-listed devices now key,
        has-add_missing-refused f allowed present key devices st',
        has-add_missing-kept f allowed present key devices st',
        has-add_missing-added f allowed present key devices st',
      )

  -- With a reliable interface, the peer of a device's key is there after `applyPeer` if and only if
  -- the device may connect, and no other peer comes or goes.
  pub apply_peer-has :
      (d : Device) (now : ℕ) (st : wg.State) (key : Text)
      → r.has (apply_peer wg d now st) key
        ≡ (if d.public_key == key then access_allowed d now else r.has st key)
  unfolding apply_peer
  apply_peer-has d now st key = ground (
    arith,
    r.has-add st d.public_key d.preshared_key (allowed_ips d) key,
    r.has-remove st d.public_key key,
  )

  has-remove_each :
      (blocked : List Text) (ps : List Peer) (st : wg.State) (key : Text)
      → r.has (remove_each wg blocked ps st) key
        ≡ (r.has st key && not (elem key blocked && elem key (map key_of ps)))
  unfolding remove_each elem
  has-remove_each blocked [] st key = ground arith
  has-remove_each blocked (p ∷ ps) st key = ground (
    arith,
    has-remove_each blocked ps st key,
    has-remove_each blocked ps (wg.remove_peer st p.public_key) key,
    r.has-remove st p.public_key key,
    list_beq_iff p.public_key key,
    list_beq_iff key p.public_key,
  )

  has-remove_listed :
      (blocked : List Text) (ps : List Peer) (st : wg.State) (key : Text)
      → r.has st key ≡ elem key (map key_of ps)
      → r.has (remove_listed wg blocked (some ps) st) key ≡ (r.has st key && not (elem key blocked))
  has-remove_listed [] ps st key h = unfold elem in ground arith
  has-remove_listed (k ∷ ks) ps st key h = ground (arith, has-remove_each (k ∷ ks) ps st key)

  pub has-remove_blocked_peers :
      (s : Memory) (now : ℕ) (st : wg.State) (ps : List Peer) (key : Text)
      → wg.list_peers st ≡ some ps
      → r.has (remove_blocked_peers wg s now st) key
        ≡ (r.has st key && not (elem key (blocked_keys wg (list_all_devices s) now)))
  unfolding remove_blocked_peers
  has-remove_blocked_peers s now st ps key listed = rw listed (
      has-remove_listed (blocked_keys wg (list_all_devices s) now) ps st key
        (r.has-list st ps key listed))
