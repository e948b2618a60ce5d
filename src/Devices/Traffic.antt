-- ===== src/Devices/Traffic.antt =====
-- internal/devices/metadata.go: what one reading of the WireGuard peers adds to the stored devices.
-- The counters are the kernel's byte counters, which are not negative.
pub mod Totals
pub mod Recorded
use wg_access_server.Prelude.{
  ℕ, ◌+◌, ◌-◌, Bool, true, false, not, ◌&&◌, ◌||◌, Option, none, some, List, [], ◌∷◌, map, ◌==◌,
  list_eq, nat_eq, ltb, if◌then◌else◌, elem, ok, err,
}
use wg_access_server.Prelude.GoMap.{GoMap, get, put}
use wg_access_server.Prelude.Text.{Text}
use wg_access_server.Storage.{MetadataUpdate}
use wg_access_server.Storage.Memory.{Memory, Op, record_metadata}

-- `wgtypes.Peer`, the fields that are read: the key as text, and the endpoint's address as text.
pub record PeerReading : Type 0 where
  pub public_key : Text
  pub receive_bytes : ℕ
  pub transmit_bytes : ℕ
  pub endpoint : Option Text
  pub last_handshake_time : ℕ

pub record ByteCounters : Type 0 where
  pub receive : ℕ
  pub transmit : ℕ

-- `trafficTracker`
abbrev pub Tracker : Type 0
Tracker = GoMap Text ByteCounters

unfoldable pub counter_delta : ℕ → ℕ → ℕ
counter_delta previous current = if ltb current previous then current else current - previous

-- `t.last[key]`, the zero counters for a peer that was not seen.
abbrev pub counters_of : Option ByteCounters → ByteCounters
counters_of none = record { receive = 0; transmit = 0 }
counters_of (some b) = b

unfoldable pub observe : Tracker → Text → ℕ → ℕ → Tracker × (ℕ × ℕ)
unfolding counter_delta
observe t key receive transmit =
    let previous = counters_of (get t key) in
    (
      put t key (record { receive = receive; transmit = transmit }),
      (counter_delta previous.receive receive, counter_delta previous.transmit transmit),
    )

-- The entries of the peers that are there.
unfoldable pub only_keys : List Text → Tracker → Tracker
only_keys present [] = []
only_keys present ((key, b) ∷ t) =
    let rest = only_keys present t in if elem key present then (key, b) ∷ rest else rest

unfoldable pub forget_all_but : Tracker → List PeerReading → Tracker
unfolding only_keys
forget_all_but t peers = only_keys (map (λ (p : PeerReading). p.public_key) peers) t

-- Three minutes in nanoseconds.
abbrev connected_for : ℕ
connected_for = 180000000000

-- `IsConnected`: `lastHandshake.After(now.Add(-3 * time.Minute))`
unfoldable pub is_connected : ℕ → ℕ → Bool
is_connected last_handshake now = ltb now (last_handshake + connected_for)

unfoldable pub connection_of : PeerReading → ℕ → Option (Text × ℕ)
unfolding is_connected
connection_of p now = elim p.endpoint [
  | none ↦ none
  | some endpoint ↦
      if is_connected p.last_handshake_time now
      then some (endpoint, p.last_handshake_time)
      else none
]

abbrev is_none : Option (Text × ℕ) → Bool
is_none none = true
is_none (some c) = false

abbrev pub is_empty : MetadataUpdate → Bool
is_empty u = u.receive_bytes == 0 && u.transmit_bytes == 0 && is_none u.connection

abbrev pub update_of : PeerReading → ℕ × ℕ → ℕ → MetadataUpdate
update_of p (receive, transmit) now = record {
  public_key = p.public_key;
  receive_bytes = receive;
  transmit_bytes = transmit;
  connection = connection_of p now;
}

-- The loop over the peers.
unfoldable pub collect_each : Tracker → List PeerReading → ℕ → Tracker × List MetadataUpdate
unfolding observe connection_of
collect_each t [] now = (t, [])
collect_each t (p ∷ peers) now =
    let (t', delta) = observe t p.public_key p.receive_bytes p.transmit_bytes in
    let update = update_of p delta now in
    let (t'', updates) = collect_each t' peers now in
    (t'', if is_empty update then updates else update ∷ updates)

unfoldable pub collect_metadata : Tracker → List PeerReading → ℕ → Tracker × List MetadataUpdate
unfolding forget_all_but collect_each
collect_metadata t peers now = collect_each (forget_all_but t peers) peers now

abbrev recorded : Memory → Op (Unit {0}) → Memory
recorded s (ok o) = o.after
recorded s (err e) = s

-- `syncMetrics`, with the peers of the interface, or nothing where they cannot be listed.
unfoldable pub sync_metrics : Option (List PeerReading) → Tracker → Memory → ℕ → Tracker × Memory
unfolding collect_metadata record_metadata
sync_metrics none t s now = (t, s)
sync_metrics (some peers) t s now =
    let (t', updates) = collect_metadata t peers now in (t', recorded s (record_metadata s updates))
