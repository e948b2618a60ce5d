-- ===== src/Devices/Sync.antt =====
-- The WireGuard peers: sync, applyPeer and peerMatches of internal/devices/devices.go, and
-- removeBlockedPeers of internal/devices/access.go. The interface of wg-embed is a parameter, and so
-- are the text forms of keys and networks. What fails there is only logged, so the operations give
-- the state that is left.
pub mod Peers
pub mod Stored
pub mod Rotation
use wg_access_server.Prelude.{
  ℕ, Bool, true, false, not, ◌&&◌, ◌||◌, Option, none, some, List, [], ◌∷◌, map, ◌==◌, list_eq,
  nat_eq, if◌then◌else◌, elem, keep, length, any,
}
use wg_access_server.Prelude.GoMap.{GoMap, get, put, values}
use wg_access_server.Prelude.Text.{Text, is_nil}
use wg_access_server.Storage.{Device, User, access_allowed, allowed_ips}
use wg_access_server.Storage.Memory.{Memory, list_devices}
use wg_access_server.Storage.Memory.Users.{list_users}

-- `wgtypes.Peer`, the fields that are read, as text.
pub record Peer : Type 0 where
  pub public_key : Text
  pub preshared_key : Text
  pub allowed_ips : List Text

-- `wgembed.WireGuardInterface`
pub record WireGuard : Type 1 where
  pub State : Type 0
  pub list_peers : State → Option (List Peer)
  pub add_peer : State → Text → Text → List Text → State
  pub remove_peer : State → Text → State

-- `wgtypes.ParseKey` and `net.ParseCIDR`, each with `String` of what it reads.
pub record KeyForms : Type 0 where
  pub zero_key : Text
  pub parse_key : Text → Option Text
  pub parse_cidr : Text → Option Text

unfoldable pub known_users : List User → GoMap Text User → GoMap Text User
known_users [] known = known
known_users (user ∷ users) known = known_users users (put known user.subject user)

abbrev pub complete_with : Device → Option User → Device
complete_with d none = d
complete_with d (some user) = record d {
  owner_name = if is_nil d.owner_name then user.name else d.owner_name;
  owner_email = if is_nil d.owner_email then user.email else d.owner_email;
}

abbrev pub is_incomplete : Device → Bool
is_incomplete d = is_nil d.owner_name || is_nil d.owner_email

unfoldable pub with_owner_names : Memory → List Device → List Device
unfolding known_users list_users
with_owner_names s devices =
    if any is_incomplete devices
    then (let known = known_users (list_users s) [] in
        map (λ (d : Device). if is_incomplete d then complete_with d (get known d.owner) else d)
          devices)
    else devices

unfoldable pub list_all_devices : Memory → List Device
unfolding list_devices with_owner_names
list_all_devices s = with_owner_names s (list_devices s [])

-- The keys of the devices that may connect.
unfoldable pub allowed_keys : List Device → ℕ → List Text
allowed_keys devices now =
    map (λ (d : Device). d.public_key) (keep (λ (d : Device). access_allowed d now) devices)

unfoldable pub preshared_key_of : KeyForms → Device → Text
preshared_key_of f d =
    if is_nil d.preshared_key
    then f.zero_key
    else elim (f.parse_key d.preshared_key) [ none ↦ [] | some key ↦ key ]

unfoldable pub all_carried : KeyForms → List Text → List Text → Bool
all_carried f allowed [] = true
all_carried f allowed (address ∷ stored) = elim (f.parse_cidr address) [
  | none ↦ false
  | some network ↦ elem network allowed && all_carried f allowed stored
]

unfoldable pub peer_matches : KeyForms → Peer → Device → Bool
unfolding preshared_key_of all_carried
peer_matches f peer d =
    peer.preshared_key == preshared_key_of f d
    && length peer.allowed_ips == length (allowed_ips d)
    && all_carried f peer.allowed_ips (allowed_ips d)

module _ (wg : WireGuard) where
  -- The peers of devices that are gone or may not connect are removed.
  unfoldable pub remove_stale : List Text → List Peer → wg.State → wg.State
  remove_stale allowed [] st = st
  remove_stale allowed (peer ∷ peers) st =
      remove_stale allowed peers
        (if elem peer.public_key allowed then st else wg.remove_peer st peer.public_key)

  unfoldable pub configured : List Peer → GoMap Text Peer → GoMap Text Peer
  configured [] m = m
  configured (peer ∷ peers) m = configured peers (put m peer.public_key peer)

  abbrev pub is_configured : KeyForms → Option Peer → Device → Bool
  is_configured f none d = false
  is_configured f (some peer) d = peer_matches f peer d

  abbrev pub add : wg.State → Device → wg.State
  add st d = wg.add_peer st d.public_key d.preshared_key (allowed_ips d)

  unfoldable pub add_missing :
      KeyForms → List Text → GoMap Text Peer → List Device → wg.State → wg.State
  add_missing f allowed present [] st = st
  add_missing f allowed present (d ∷ devices) st = add_missing f allowed present devices (
      if not (elem d.public_key allowed) || is_configured f (get present d.public_key) d
      then st
      else add st d)

  -- `sync` up to the firewall; `false` where the peers cannot be listed.
  unfoldable pub sync_peers : KeyForms → Memory → ℕ → wg.State → wg.State × Bool
  unfolding list_all_devices allowed_keys remove_stale configured add_missing
  sync_peers f s now st =
      let devices = list_all_devices s in
      let allowed = allowed_keys devices now in
      elim (wg.list_peers st) [
        | none ↦ (st, false)
        | some peers ↦ (
          add_missing f allowed (configured peers []) devices (remove_stale allowed peers st),
          true,
        )
      ]

  unfoldable pub apply_peer : Device → ℕ → wg.State → wg.State
  apply_peer d now st = if access_allowed d now then add st d else wg.remove_peer st d.public_key

  -- The keys of the devices that may not connect.
  unfoldable pub blocked_keys : List Device → ℕ → List Text
  blocked_keys devices now =
      map (λ (d : Device). d.public_key) (keep (λ (d : Device). not (access_allowed d now)) devices)

  unfoldable pub remove_each : List Text → List Peer → wg.State → wg.State
  remove_each blocked [] st = st
  remove_each blocked (peer ∷ peers) st =
      remove_each blocked peers
        (if elem peer.public_key blocked then wg.remove_peer st peer.public_key else st)

  -- The peers are read only where there is a key to look for.
  abbrev pub remove_listed : List Text → Option (List Peer) → wg.State → wg.State
  remove_listed [] listed st = st
  remove_listed (key ∷ keys) none st = st
  remove_listed (key ∷ keys) (some peers) st = remove_each (key ∷ keys) peers st

  unfoldable pub remove_blocked_peers : Memory → ℕ → wg.State → wg.State
  unfolding list_all_devices blocked_keys remove_each
  remove_blocked_peers s now st =
      remove_listed (blocked_keys (list_all_devices s) now) (wg.list_peers st) st
