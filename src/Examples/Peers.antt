-- ===== src/Examples/Peers.antt =====
-- An interface that keeps the keys of its peers, and runs on it.
use wg_access_server.Prelude.{
  ℕ, ◌+◌, not, ◌&&◌, ◌≡◌, refl, ◌↔◌, inl, some, List, [], ◌∷◌, map, elem, keep, list_eq,
  list_beq_iff, nat_eq, arith, ◌==◌, if◌then◌else◌, In,
}
use wg_access_server.Prelude.GoMap.{get, put, get-put, IsMap}
use wg_access_server.Prelude.Text.{Text, codes}
use wg_access_server.Storage.{Device, device_key}
use wg_access_server.Storage.Memory.{Memory, new_memory}
use wg_access_server.Devices.Sync.{Peer, WireGuard, KeyForms, sync_peers, remove_blocked_peers}
use wg_access_server.Devices.Sync.Peers.{IsReliable, key_of}
use wg_access_server.Devices.Sync.Stored.{
  IsAdmitted, MayConnect, sync_peers-has, remove_blocked_peers-has,
}
use wg_access_server.Prelude.{list_beq, ==_refl, ◌-◌, ◌%◌, ◌^◌, none, true, if◌then◌else◌, ◌==◌}
use wg_access_server.Storage.Keys.{key_str}
use wg_access_server.Devices.Traffic.{PeerReading}
use wg_access_server.Devices.Traffic.Totals.{Grows}
use wg_access_server.Devices.Traffic.Recorded.{passes, passes-grown}
use wg_access_server.Storage.Memory.Wellformed.Steps.{Sound}
use wg_access_server.Storage.Memory.Wellformed.{put-IsWellformed}
use wg_access_server.Storage.Memory.Wellformed.Runs.{new_memory-Sound}
use wg_access_server.Devices.Firewall.{entries, firewall_state}
use wg_access_server.Devices.Firewall.Members.{IsMember, firewall_state-Member}
use wg_access_server.Examples.Stored.{device}

abbrev peer : Text → Peer
peer key = record { public_key = key; preshared_key = []; allowed_ips = [] }

abbrev pub peers : List Text → List Peer
peers [] = []
peers (key ∷ keys) = peer key ∷ peers keys

abbrev pub keys_only : WireGuard
keys_only = record {
  State = List Text;
  list_peers = λ st. some (peers st);
  add_peer = λ st key preshared ips. key ∷ st;
  remove_peer = λ st key. keep (λ (k : Text). not (key == k)) st;
}

elem-peers : (st : List Text) (key : Text) → elem key st ≡ elem key (map key_of (peers st))
unfolding elem
elem-peers [] key = refl
elem-peers (k ∷ st) key = ground (arith, elem-peers st key)

elem-keep :
    (st : List Text) (k key : Text)
    → elem key (keep (λ (j : Text). not (k == j)) st) ≡ (not (k == key) && elem key st)
unfolding elem keep
elem-keep [] k key = ground arith
elem-keep (j ∷ st) k key =
    ground (arith, elem-keep st k key, list_beq_iff key j, list_beq_iff k j, list_beq_iff k key)

pub keys_only-IsReliable : IsReliable keys_only
unfolding elem
keys_only-IsReliable = record {
  has = λ st key. elem key st;
  has-list = λ st ps key h. ground (arith, elem-peers st key);
  has-add = λ st k preshared ips key. ground (arith, list_beq_iff k key, list_beq_iff key k);
  has-remove = λ st k key. elem-keep st k key;
}

abbrev pub forms : KeyForms
forms = record { zero_key = codes "0"; parse_key = λ t. some t; parse_cidr = λ t. some t }

abbrev pc : Device
pc = device (codes "ann") (codes "pc") (codes "k1") (codes "a")

abbrev old : Device
old = record (device (codes "bob") (codes "old") (codes "k2") (codes "b")) { expires_at = some 5 }

abbrev two : Memory
two = record new_memory { db = (codes "1", pc) ∷ (codes "2", old) ∷ [] }

-- The interface has a peer of an expired device and one of nobody.
abbrev before : List Text
before = codes "k2" ∷ codes "k3" ∷ []

two-IsMap : IsMap two.db
unfolding get list_beq
two-IsMap = (refl, (refl, tt))

sync_peers-has_example :
    elem (codes "k2") (sync_peers keys_only forms two 9 before).0 ≡ true
    ↔ IsAdmitted two 9 (codes "k2")
unfolding elem keys_only-IsReliable
sync_peers-has_example =
    sync_peers-has keys_only-IsReliable two 9 before (peers before) (codes "k2") forms two-IsMap
      refl

remove_blocked_peers-has_example :
    elem (codes "k2") (remove_blocked_peers keys_only two 9 before) ≡ true
    ↔ (elem (codes "k2") before ≡ true)
      × ((k : Text) (d : Device)
          → get two.db k ≡ some d
          → d.public_key ≡ codes "k2"
          → MayConnect d 9)
unfolding elem keys_only-IsReliable
remove_blocked_peers-has_example =
    remove_blocked_peers-has keys_only-IsReliable two 9 before (peers before) (codes "k2") two-IsMap
      refl

abbrev one_peer : ℕ → PeerReading
one_peer bytes = record {
  public_key = codes "k1";
  receive_bytes = bytes;
  transmit_bytes = 0;
  endpoint = some (codes "e");
  last_handshake_time = 1;
}

abbrev reading : ℕ → List PeerReading
reading bytes = one_peer bytes ∷ []

abbrev readings : List (List PeerReading × ℕ)
readings = (reading 10, 1) ∷ (reading 10, 2) ∷ (reading 25, 3) ∷ []

growing : Grows (codes "k1") 0 readings 25
unfolding elem
growing = (
  one_peer 10,
  inl refl,
  refl,
  (refl, tt),
  omega arith,
  (
    one_peer 10,
    inl refl,
    refl,
    (refl, tt),
    omega arith,
    (one_peer 25, inl refl, refl, (refl, tt), omega arith, refl),
  ),
)

abbrev counting : Device
counting = record pc { receive_bytes = 7 }

abbrev counted : Memory
counted = record new_memory { db = put [] (device_key counting) counting }

counted-Sound : Sound counted
unfolding get
counted-Sound = put-IsWellformed [] counting new_memory-Sound (λ j e g. cc)

held : get counted.db (device_key counting) ≡ some counting
unfolding get
held = ground (
  arith,
  get-put [] (device_key counting) (device_key counting) counting,
  ==_refl (device_key counting),
)

passes-grown_example :
    (d : Device) × (get (passes readings [] counted).1.db (device_key counting) ≡ some d)
    × (d.receive_bytes ≡ (7 + (25 - 0)) % 2 ^ 64)
unfolding get
passes-grown_example =
    passes-grown readings [] counted (device_key counting) counting 25 counted-Sound held (λ e. cc)
      (omega arith) growing

-- Ann is in two policies.
abbrev with_ann : Memory
with_ann = record two {
  users =
      (
        codes "ann",
        record {
          subject = codes "ann";
          provider = codes "simple";
          name = [];
          email = [];
          policies = codes "o,p";
          last_login = 1;
          password_hash = [];
          password_from = [];
          webauthn_challenge = [];
          webauthn_challenge_until = none;
          totp_secret = [];
          totp_enabled_at = none;
          totp_recovery = [];
          totp_last_step = 0;
        },
      )
      ∷ [];
}

with_ann-IsMap : IsMap with_ann.users
unfolding get
with_ann-IsMap = (refl, tt)

firewall_state-Member_example :
    In (codes "a") (entries (get (firewall_state with_ann (pc ∷ old ∷ []) 9).policies (codes "p")))
    ↔ IsMember with_ann (pc ∷ old ∷ []) 9 (codes "p") (codes "a")
firewall_state-Member_example =
    firewall_state-Member with_ann (pc ∷ old ∷ []) 9 (codes "p") (codes "a") with_ann-IsMap
      (refl, tt)

abbrev rotated_key : Text
rotated_key = codes "CAAAAAAAAAAAAAAAAAAAAAAAAAAAAAAAAAAAAAAAAAA="

abbrev keyed : Memory
keyed = record new_memory { db = (key_str (codes "ann") (codes "pc"), pc) ∷ [] }
