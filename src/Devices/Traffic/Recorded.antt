-- ===== src/Devices/Traffic/Recorded.antt =====
-- What the passes over the peers leave in the storage.
use wg_access_server.Prelude.{
  ℕ, ◌+◌, ◌-◌, ◌%◌, ◌^◌, ◌<◌, ◌≡◌, ◌≢◌, refl, sym, ap, ◌∙◌, ◌⊎◌, inl, inr, Option, none, some, List,
  [], ◌∷◌, arith, ◌==◌, list_eq, list_beq_iff, nat_eq, In, Bool-cases, Option-cases,
}
use wg_access_server.Prelude.GoMap.{GoMap, get, put, get-put, get-put_cases, get-In, In-get}
use wg_access_server.Prelude.Text.{Text}
use wg_access_server.Storage.{Device, MetadataUpdate}
use wg_access_server.Storage.Memory.{
  Memory, by_public_key, with_metadata, with_update, record_updates, record_metadata,
}
use wg_access_server.Storage.Memory.Wellformed.Steps.{Sound}
use wg_access_server.Storage.Memory.Wellformed.Bulk.{record_metadata-IsWellformed}
use wg_access_server.Devices.Traffic.{
  PeerReading, Tracker, counters_of, collect_metadata, sync_metrics,
}
use wg_access_server.Devices.Traffic.Totals.{
  received, Grows, total_received, collect_metadata-total_received,
}

-- What the index has for a public key was there, or is the key of a device with that public key.
by_public_key-cases :
    (m : GoMap Text Device) (index : GoMap Text Text) (public_key k : Text)
    → get (by_public_key m index) public_key ≡ some k
    → (get index public_key ≡ some k) ⊎ ((d : Device) × In (k, d) m × (d.public_key ≡ public_key))
unfolding by_public_key
by_public_key-cases [] index public_key k h = inl h
by_public_key-cases ((j, d) ∷ m) index public_key k h =
    elim (by_public_key-cases m (put index d.public_key j) public_key k h) [
      | inr (e, n, same) ↦ inr (e, inr n, same)
      | inl here ↦ elim (get-put_cases index d.public_key public_key j k here) [
        | inl (same, at) ↦ inr (d, inl (ap (λ (i : Text). (i, d)) (sym at)), same)
        | inr (other, old) ↦ inl old
      ]
    ]

-- A public key that is in the index stays there.
by_public_key-stays :
    (m : GoMap Text Device) (index : GoMap Text Text) (public_key : Text)
    → get index public_key ≢ none
    → get (by_public_key m index) public_key ≢ none
unfolding by_public_key
by_public_key-stays [] index public_key h = h
by_public_key-stays ((j, d) ∷ m) index public_key h =
    by_public_key-stays m (put index d.public_key j) public_key
      (λ e. ground (arith, get-put index d.public_key public_key j, h, e))

by_public_key-In :
    (m : GoMap Text Device) (index : GoMap Text Text) (k : Text) (d : Device)
    → In (k, d) m
    → get (by_public_key m index) d.public_key ≢ none
unfolding by_public_key
by_public_key-In [] index k d n = elim n [ ]
by_public_key-In ((j, x) ∷ m) index k d (inl e) =
    let same : d.public_key ≡ x.public_key = ap (λ (p : Text × Device). p.1.public_key) e in
    by_public_key-stays m (put index x.public_key j) d.public_key (λ z. ground (
      arith,
      get-put index x.public_key d.public_key j,
      same,
      z,
      list_beq_iff x.public_key d.public_key,
    ))
by_public_key-In ((j, x) ∷ m) index k d (inr n) =
    by_public_key-In m (put index x.public_key j) k d n

-- The index leads from the device's public key, and from no other, to the device.
abbrev Leads : GoMap Text Text → Text → Text → Type 0
Leads index public_key k =
    (get index public_key ≡ some k)
    × ((other : Text) → other ≢ public_key → get index other ≢ some k)

by_public_key-Leads :
    (s : Memory) (k : Text) (d : Device)
    → Sound s
    → get s.db k ≡ some d
    → d.public_key ≢ []
    → Leads (by_public_key s.db []) d.public_key k
unfolding get
by_public_key-Leads s k d w g named =
    let index = by_public_key s.db [] in
    (
      elim (Option-cases (get index d.public_key)) [
        | inl absent ↦ elim (by_public_key-In s.db [] k d (get-In s.db k d g) absent) [ ]
        | inr (j, e) ↦ elim (by_public_key-cases s.db [] d.public_key j e) [
          | inl old ↦ ground (arith, old)
          | inr (x, n, same) ↦
              e
              ∙ ap some
                  (w.unique j k x d (In-get s.db j x w.is_map n) g same (λ z. named (sym same ∙ z)))
        ]
      ],
      (λ other differs e. elim (by_public_key-cases s.db [] other k e) [
        | inl old ↦ ground (arith, old)
        | inr (x, n, same) ↦
            let at : some x ≡ some d = sym (In-get s.db k x w.is_map n) ∙ g in
            let one : x ≡ d = ground (arith, at) in
            differs (sym same ∙ ap (λ (y : Device). y.public_key) one)
      ]),
    )

with_metadata-receive :
    (d : Device) (u : MetadataUpdate)
    → ((with_metadata d u).public_key ≡ d.public_key)
      × ((with_metadata d u).receive_bytes ≡ (d.receive_bytes + u.receive_bytes) % 2 ^ 64)
      × ((with_metadata d u).receive_bytes < 2 ^ 64)
unfolding with_metadata
with_metadata-receive d u = elim (Option-cases u.connection) [
  | inl e ↦ rw e (refl, refl, omega arith)
  | inr (c, e) ↦ rw e (refl, refl, omega arith)
]

with_update-found :
    (m : GoMap Text Device) (k : Text) (d : Device) (u : MetadataUpdate)
    → get m k ≡ some d
    → with_update m (some k) u ≡ put m k (with_metadata d u)
with_update-found m k d u g = rw (with_update, g) refl

get-with_update :
    (m : GoMap Text Device) (at : Option Text) (u : MetadataUpdate) (k : Text)
    → at ≢ some k
    → get (with_update m at u) k ≡ get m k
get-with_update m none u k other = refl
get-with_update m (some j) u k other = elim (Option-cases (get m j)) [
  | inl e ↦ rw (with_update, e) refl
  | inr (d, e) ↦
      rw (with_update, e)
        (ground (
          arith,
          get-put m j k (with_metadata d u),
          list_beq_iff j k,
          λ (z : j ≡ k). other (ap some z),
        ))
]

module _ (index : GoMap Text Text) (public_key k : Text) (leads : Leads index public_key k) where
  get-record_updates :
      (m : GoMap Text Device) (updates : List MetadataUpdate) (d : Device)
      → get m k ≡ some d
      → d.receive_bytes < 2 ^ 64
      → (d' : Device) × (get (record_updates index m updates) k ≡ some d')
        × (d'.public_key ≡ d.public_key)
        × (d'.receive_bytes ≡ (d.receive_bytes + received public_key updates) % 2 ^ 64)
  unfolding record_updates received
  get-record_updates m [] d g small = (d, g, refl, omega (arith, small))
  get-record_updates m (u ∷ updates) d g small = elim (Bool-cases (u.public_key == public_key)) [
    | inl e ↦
        let same : u.public_key ≡ public_key = (list_beq_iff u.public_key public_key).0 e in
        let found : get index u.public_key ≡ some k =
          ap (λ (p : Text). get index p) same ∙ leads.0 in
        let (kept, r, small') = with_metadata-receive d u in
        let (d', g', p, r') =
          get-record_updates (put m k (with_metadata d u)) updates (with_metadata d u)
            (ground (arith, get-put m k k (with_metadata d u), list_beq_iff k k)) small' in
        rw (found, with_update-found m k d u g, e) (d', g', p ∙ kept, ground (arith, r, r'))
    | inr e ↦
        let other : get index u.public_key ≢ some k =
          leads.1 u.public_key (λ z. ground (arith, e, list_beq_iff u.public_key public_key)) in
        rw e (
          get-record_updates (with_update m (get index u.public_key) u) updates d
            (get-with_update m (get index u.public_key) u k other ∙ g) small)
  ]

-- All passes over the peers, with what each of them read.
unfoldable pub passes : List (List PeerReading × ℕ) → Tracker → Memory → Tracker × Memory
unfolding sync_metrics
passes [] t s = (t, s)
passes ((peers, now) ∷ readings) t s =
    let (t', s') = sync_metrics (some peers) t s now in passes readings t' s'

passes-receive_bytes :
    (readings : List (List PeerReading × ℕ)) (t : Tracker) (s : Memory) (k : Text) (d : Device)
    → Sound s
    → get s.db k ≡ some d
    → d.public_key ≢ []
    → d.receive_bytes < 2 ^ 64
    → (d' : Device) × (get (passes readings t s).1.db k ≡ some d')
      × (d'.receive_bytes ≡ (d.receive_bytes + total_received d.public_key t readings) % 2 ^ 64)
unfolding passes total_received
passes-receive_bytes [] t s k d w g named small = (d, g, omega (arith, small))
passes-receive_bytes ((peers, now) ∷ readings) t s k d w g named small =
    let updates = (collect_metadata t peers now).1 in
    let t' = (collect_metadata t peers now).0 in
    let s' = (sync_metrics (some peers) t s now).1 in
    let (x, g', same, r) =
      get-record_updates (by_public_key s.db []) d.public_key k
        (by_public_key-Leads s k d w g named) s.db updates d g small in
    let w' : Sound s' =
      unfold sync_metrics record_metadata in record_metadata-IsWellformed s updates _ refl w in
    let (d', g'', r') =
      passes-receive_bytes readings t' s' k x w' (unfold sync_metrics record_metadata in g')
        (λ z. named (sym same ∙ z)) (omega (arith, r)) in
    let by_key : total_received x.public_key t' readings ≡ total_received d.public_key t' readings =
      ap (λ (key : Text). total_received key t' readings) same in
    (d', g'', omega (arith, r, r', by_key))

-- The in-memory storage, with well-formed devices, and a stored device with a public key and a count
-- of received bytes below 2 ^ 64: while each reading of the peers has the device's peer, and no peer
-- twice, and the peer's counter never falls, the passes leave the device stored with its received
-- bytes raised, in 64 bits, by what the counter grew by since the tracker had last seen it, however
-- often the peers were read.
pub passes-grown :
    (readings : List (List PeerReading × ℕ)) (t : Tracker) (s : Memory) (k : Text) (d : Device)
    (last : ℕ)
    → Sound s
    → get s.db k ≡ some d
    → d.public_key ≢ []
    → d.receive_bytes < 2 ^ 64
    → Grows d.public_key (counters_of (get t d.public_key)).receive readings last
    → (d' : Device) × (get (passes readings t s).1.db k ≡ some d')
      × (d'.receive_bytes
          ≡ (d.receive_bytes + (last - (counters_of (get t d.public_key)).receive)) % 2 ^ 64)
passes-grown readings t s k d last w g named small grows =
    let (d', g', r) = passes-receive_bytes readings t s k d w g named small in
    let total = collect_metadata-total_received d.public_key t readings last grows in
    (d', g', ground (arith, r, total))
