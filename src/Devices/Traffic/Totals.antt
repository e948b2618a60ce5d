-- ===== src/Devices/Traffic/Totals.antt =====
-- The updates of the passes report all traffic of a peer, and report it once.
use wg_access_server.Prelude.{
  ℕ, ◌+◌, ◌≤◌, true, false, ◌≡◌, refl, sym, ap, ◌∙◌, inl, inr, Option, List, [], ◌∷◌, map, arith,
  ◌==◌, elem, list_eq, list_beq_iff, nat_eq, In, if◌then◌else◌, ==_refl, subst,
}
use wg_access_server.Prelude.GoMap.{get, put, get-put}
use wg_access_server.Prelude.Text.{Text}
use wg_access_server.Storage.{MetadataUpdate}
use wg_access_server.Devices.Traffic.{
  PeerReading, ByteCounters, Tracker, counter_delta, counters_of, observe, only_keys,
  forget_all_but, collect_each, collect_metadata,
}

abbrev pub key_of : PeerReading → Text
key_of p = p.public_key

-- The received bytes in the updates for the key.
unfoldable pub received : Text → List MetadataUpdate → ℕ
received key [] = 0
received key (u ∷ updates) =
    if u.public_key == key then u.receive_bytes + received key updates else received key updates

abbrev pub KeysDistinct : List PeerReading → Type 0
KeysDistinct [] = Unit
KeysDistinct (p ∷ ps) = (elem (key_of p) (map key_of ps) ≡ false) × KeysDistinct ps

get-only_keys :
    (present : List Text) (t : Tracker) (key : Text)
    → elem key present ≡ true
    → get (only_keys present t) key ≡ get t key
unfolding only_keys get
get-only_keys present [] key h = refl
get-only_keys present ((k, b) ∷ t) key h =
    ground (arith, get-only_keys present t key h, list_beq_iff k key)

-- A peer that is not read is not counted, and its counters stay.
collect_each-absent :
    (t : Tracker) (ps : List PeerReading) (now : ℕ) (key : Text)
    → elem key (map key_of ps) ≡ false
    → (received key (collect_each t ps now).1 ≡ 0) × (get (collect_each t ps now).0 key ≡ get t key)
unfolding collect_each observe received elem
collect_each-absent t [] now key h = (refl, refl)
collect_each-absent t (p ∷ ps) now key h =
    let b : ByteCounters = record { receive = p.receive_bytes; transmit = p.transmit_bytes } in
    ground (
      arith,
      collect_each-absent (put t p.public_key b) ps now key,
      get-put t p.public_key key b,
      list_beq_iff p.public_key key,
      list_beq_iff key p.public_key,
    )

abbrev Counted : Tracker → List PeerReading → ℕ → PeerReading → Type 0
Counted t ps now p =
    (received (key_of p) (collect_each t ps now).1
      ≡ counter_delta (counters_of (get t (key_of p))).receive p.receive_bytes)
    × ((counters_of (get (collect_each t ps now).0 (key_of p))).receive ≡ p.receive_bytes)

collect_each-head :
    (t : Tracker) (q : PeerReading) (ps : List PeerReading) (now : ℕ)
    → elem (key_of q) (map key_of ps) ≡ false
    → Counted t (q ∷ ps) now q
unfolding collect_each observe received
collect_each-head t q ps now d =
    let b : ByteCounters = record { receive = q.receive_bytes; transmit = q.transmit_bytes } in
    let (none_counted, kept) = collect_each-absent (put t q.public_key b) ps now q.public_key d in
    (
      ground (arith, none_counted, ==_refl q.public_key),
      ap (λ (o : Option ByteCounters). (counters_of o).receive)
            (kept ∙ get-put t q.public_key q.public_key b)
          ∙ ground (arith, ==_refl q.public_key),
    )

In-keys :
    (p : PeerReading) (ps : List PeerReading) → In p ps → elem (key_of p) (map key_of ps) ≡ true
unfolding elem
In-keys p [] m = elim m [ ]
In-keys p (q ∷ ps) (inl e) =
    ground (arith, list_beq_iff p.public_key q.public_key, ap (λ (x : PeerReading). x.public_key) e)
In-keys p (q ∷ ps) (inr m) = ground (arith, In-keys p ps m)

-- The reading of another peer changes nothing.
collect_each-skip :
    (t : Tracker) (q : PeerReading) (ps : List PeerReading) (now : ℕ) (p : PeerReading)
    → (q.public_key == p.public_key) ≡ false
    → Counted
        (put t q.public_key (record { receive = q.receive_bytes; transmit = q.transmit_bytes }))
        ps
        now
        p
    → Counted t (q ∷ ps) now p
unfolding collect_each observe received
collect_each-skip t q ps now p other (counted, kept) =
    let b : ByteCounters = record { receive = q.receive_bytes; transmit = q.transmit_bytes } in
    let old : get (put t q.public_key b) p.public_key ≡ get t p.public_key =
      ground (arith, get-put t q.public_key p.public_key b) in
    (
      ground (arith, counted)
          ∙ ap (λ (o : Option ByteCounters). counter_delta (counters_of o).receive p.receive_bytes)
              old,
      kept,
    )

collect_each-present :
    (t : Tracker) (ps : List PeerReading) (now : ℕ) (p : PeerReading)
    → KeysDistinct ps
    → In p ps
    → Counted t ps now p
collect_each-present t [] now p d m = elim m [ ]
collect_each-present t (q ∷ ps) now p d (inl e) =
    subst (λ (x : PeerReading). Counted t (q ∷ ps) now x) (sym e) (collect_each-head t q ps now d.0)
collect_each-present t (q ∷ ps) now p d (inr m) =
    collect_each-skip t q ps now p
      (ground (arith, d.0, In-keys p ps m, list_beq_iff q.public_key p.public_key))
      (collect_each-present
        (put t q.public_key (record { receive = q.receive_bytes; transmit = q.transmit_bytes })) ps
        now p d.1 m)

pub collect_metadata-Counted :
    (t : Tracker) (ps : List PeerReading) (now : ℕ) (p : PeerReading)
    → KeysDistinct ps
    → In p ps
    → (received (key_of p) (collect_metadata t ps now).1
        ≡ counter_delta (counters_of (get t (key_of p))).receive p.receive_bytes)
      × ((counters_of (get (collect_metadata t ps now).0 (key_of p))).receive ≡ p.receive_bytes)
unfolding collect_metadata forget_all_but
collect_metadata-Counted t ps now p d m =
    let (counted, kept) = collect_each-present (forget_all_but t ps) ps now p d m in
    (
      counted
          ∙ ap (λ (o : Option ByteCounters). counter_delta (counters_of o).receive p.receive_bytes)
              (get-only_keys (map key_of ps) t (key_of p) (In-keys p ps m)),
      kept,
    )

-- The readings of one peer after `previous`: it is in each, and its counter never falls.
abbrev pub Grows : Text → ℕ → List (List PeerReading × ℕ) → ℕ → Type 0
Grows key previous [] last = previous ≡ last
Grows key previous ((ps, now) ∷ readings) last =
    (p : PeerReading) × In p ps
    × (key_of p ≡ key)
    × KeysDistinct ps
    × (previous ≤ p.receive_bytes)
    × Grows key p.receive_bytes readings last

-- The received bytes in the updates for the key of all passes over the peers.
unfoldable pub total_received : Text → Tracker → List (List PeerReading × ℕ) → ℕ
total_received key t [] = 0
total_received key t ((ps, now) ∷ readings) =
    received key (collect_metadata t ps now).1
    + total_received key (collect_metadata t ps now).0 readings

-- While a peer's counter never falls, the received bytes in the updates of all passes add up to what
-- the counter grew by, however often the peers were read.
pub collect_metadata-total_received :
    (key : Text) (t : Tracker) (readings : List (List PeerReading × ℕ)) (last : ℕ)
    → Grows key (counters_of (get t key)).receive readings last
    → (counters_of (get t key)).receive + total_received key t readings ≡ last
unfolding total_received counter_delta
collect_metadata-total_received key t [] last g = omega arith
collect_metadata-total_received key t ((ps, now) ∷ readings) last (p, m, same, d, le, g) =
    let t' = (collect_metadata t ps now).0 in
    let (counted, kept) =
      subst
        (λ (k : Text).
          (received k (collect_metadata t ps now).1
            ≡ counter_delta (counters_of (get t k)).receive p.receive_bytes)
          × ((counters_of (get t' k)).receive ≡ p.receive_bytes))
        same (collect_metadata-Counted t ps now p d m) in
    let rest =
      collect_metadata-total_received key t' readings last
        (subst (λ (b : ℕ). Grows key b readings last) (sym kept) g) in
    ground (arith, counted, kept, rest, le)
