-- ===== src/Devices/Routes/Disjoint.antt =====
-- No network is routed to two devices, nor taken from the VPN or the host.
use Prim.Native.Nat.{min}
use native.Mathlib.Nat.{min_comm}
use wg_access_server.Prelude.{
  ℕ, false, ◌≡◌, ◌≢◌, refl, sym, ap, ◌∙◌, ◌⊎◌, inl, inr, Option, some, List, [], ◌∷◌, map, arith,
  list_eq, list_beq_iff, nat_eq, All, In, All-In, any, any-eq-false, keep-In, Bool-cases,
  Option-cases, ok, Result-cases, subst,
}
use wg_access_server.Prelude.GoMap.{GoMap, get, put, values, get-put_cases}
use wg_access_server.Prelude.Text.{Text}
use wg_access_server.Prelude.Text.Lists.{IsEntry}
use wg_access_server.Netip.{Addr, v4, v6, Prefix, IsValid, overlaps, overlaps_addr}
use wg_access_server.Netip.Codec.{Codec, IsCodec}
use wg_access_server.Storage.{Device, device_key, route_list, split_list}
use wg_access_server.Storage.Entries.{split_list-join}
use wg_access_server.Storage.Memory.{Memory, Outcome, list_devices, get_device, set_routes}
use wg_access_server.Storage.Keys.{key_str}
use wg_access_server.Storage.Memory.Wellformed.{IsWellformed}
use wg_access_server.Devices.Manager.{Config}
use wg_access_server.Devices.Routes.{
  normalize_routes, vpn_networks, parsed_routes, routes_of, same_device, routed_elsewhere,
  check_each, check_routes, route_text, set_device_routes,
}
use wg_access_server.Devices.Routes.Normal.{
  AreRoutes, normalize_routes-AreRoutes, normalize_routes-IsValid,
}

overlaps_addr_comm : (a b : Addr) (bits : ℕ) → overlaps_addr a b bits ≡ overlaps_addr b a bits
unfolding overlaps_addr
overlaps_addr_comm (v4 a) (v4 b) bits = ground arith
overlaps_addr_comm (v6 a) (v6 b) bits = ground arith
overlaps_addr_comm _ _ bits = ground arith

pub overlaps_comm : (p q : Prefix) → overlaps p q ≡ overlaps q p
unfolding overlaps
overlaps_comm p q =
    rw (min_comm p.bits q.bits) (overlaps_addr_comm p.addr q.addr (min q.bits p.bits))

module _ {c : Codec} (k : IsCodec c) where
  printed-IsEntry : (ps : List Prefix) → All IsValid ps → All (IsEntry 44) (map c.print_prefix ps)
  printed-IsEntry [] h = tt
  printed-IsEntry (p ∷ ps) h = (k.print-IsEntry p h.0, printed-IsEntry ps h.1)

  parsed_routes-map :
      (ps : List Prefix) → All IsValid ps → parsed_routes c (map c.print_prefix ps) ≡ ps
  unfolding parsed_routes
  parsed_routes-map [] h = refl
  parsed_routes-map (p ∷ ps) h = ground (arith, k.parse-print p h.0, parsed_routes-map ps h.1)

  -- The routes that are stored are read back.
  pub parsed_routes-route_text :
      (ps : List Prefix) → All IsValid ps → parsed_routes c (split_list (route_text c ps)) ≡ ps
  parsed_routes-route_text ps h =
      rw (split_list-join (map c.print_prefix ps) (printed-IsEntry ps h)) (parsed_routes-map ps h)

module _ (c : Codec) where
  routed_elsewhere-eq-false :
      (devices : List Device) (device : Device) (route : Prefix)
      → routed_elsewhere c devices device route ≡ false
      → (other : Device) → In other devices
      → same_device other device ≡ false
      → (p : Prefix) → In p (routes_of c other)
      → overlaps p route ≡ false
  unfolding routed_elsewhere
  routed_elsewhere-eq-false [] device route h other m apart p n = elim m [ ]
  routed_elsewhere-eq-false (d ∷ devices) device route h other (inl e) apart p n =
      any-eq-false (λ (q : Prefix). overlaps q route) (routes_of c d) p (ground arith)
        (subst (λ (x : Device). In p (routes_of c x)) e n)
  routed_elsewhere-eq-false (d ∷ devices) device route h other (inr m) apart p n =
      routed_elsewhere-eq-false devices device route (ground arith) other m apart p n

  -- What the checks leave of a route.
  pub record IsFree (vpn host : List Prefix) (devices : List Device) (device : Device)
      (route : Prefix) : Type 0 where
    pub of_vpn : any (λ (p : Prefix). overlaps p route) vpn ≡ false
    pub of_host : any (λ (p : Prefix). overlaps p route) host ≡ false
    pub of_devices : routed_elsewhere c devices device route ≡ false

  check_each-eq-ok :
      (vpn host : List Prefix) (devices : List Device) (device : Device) (routes : List Prefix)
      → check_each c vpn host devices device routes ≡ ok tt
      → All (IsFree vpn host devices device) routes
  unfolding check_each
  check_each-eq-ok vpn host devices device [] h = tt
  check_each-eq-ok vpn host devices device (route ∷ routes) h = (
    record { of_vpn = ground arith; of_host = ground arith; of_devices = ground arith },
    check_each-eq-ok vpn host devices device routes (ground arith),
  )

get-values : (m : GoMap Text Device) (i : Text) (d : Device) → get m i ≡ some d → In d (values m)
unfolding get values
get-values [] i d h = cc
get-values ((j, x) ∷ m) i d h = ground (arith, get-values m i d)

get-list_devices :
    (s : Memory) (i : Text) (d : Device) → get s.db i ≡ some d → In d (list_devices s [])
unfolding list_devices
get-list_devices s i d h = keep-In _ d (values s.db) (get-values s.db i d h) refl

-- No two devices have routes that overlap.
pub record HasDisjointRoutes (c : Codec) (db : GoMap Text Device) : Type 0 where
  pub disjoint :
      (i j : Text) (d e : Device) (p q : Prefix)
      → get db i ≡ some d
      → get db j ≡ some e
      → i ≢ j
      → In p (routes_of c d)
      → In q (routes_of c e)
      → overlaps p q ≡ false

pub put-HasDisjointRoutes :
    {c : Codec} (db : GoMap Text Device) (key : Text) (new : Device)
    → HasDisjointRoutes c db
    → ((j : Text) (e : Device) (p q : Prefix)
        → get db j ≡ some e
        → j ≢ key
        → In p (routes_of c new)
        → In q (routes_of c e)
        → overlaps q p ≡ false)
    → HasDisjointRoutes c (put db key new)
put-HasDisjointRoutes {c} db key new w apart = record {
  disjoint = λ i j d e p q gi gj ne m n. elim (get-put_cases db key i new d gi) [
    | inl (ki, vi) ↦ elim (get-put_cases db key j new e gj) [
      | inl (kj, vj) ↦ absurd (ne (sym ki ∙ kj))
      | inr (other, hj) ↦
          overlaps_comm p q
          ∙ apart j e p q hj (λ z. other (sym z))
              (subst (λ (x : Device). In p (routes_of c x)) (sym vi) m) n
    ]
    | inr (other, hi) ↦ elim (get-put_cases db key j new e gj) [
      | inl (kj, vj) ↦
          apart i d q p hi (λ z. other (sym z))
            (subst (λ (x : Device). In q (routes_of c x)) (sym vj) n) m
      | inr (_, hj) ↦ w.disjoint i j d e p q hi hj ne m n
    ]
  ];
}

abbrev with_routes : Codec → Device → List Prefix → Device
with_routes c device routes = record device { routes = route_text c routes }

-- What a change of the routes that succeeds went through.
set_device_routes-eq-ok :
    (c : Codec) (config : Config) (host : Option (List Prefix)) (s : Memory) (user name : Text)
    (routes : List Text) (o : Outcome Device)
    → IsWellformed s.db
    → set_device_routes c config host s user name routes ≡ ok o
    → (ps : List Prefix) × (device : Device) × (normalize_routes c routes ≡ ok ps)
      × (check_routes c config host s ps device ≡ ok tt)
      × (o.value ≡ with_routes c device ps)
      × (o.after.db ≡ put s.db (device_key device) (with_routes c device ps))
unfolding set_device_routes get_device set_routes device_key
set_device_routes-eq-ok c config host s user name routes o w h =
    elim (Result-cases (normalize_routes c routes)) [
      | inr (x, bad) ↦ ground arith
      | inl (ps, good) ↦ elim (Option-cases (get s.db (key_str user name))) [
        | inl missing ↦ ground arith
        | inr (device, found) ↦ elim (Result-cases (check_routes c config host s ps device)) [
          | inr (x, bad) ↦ ground arith
          | inl (tt, checked) ↦
              let at = w.keyed (key_str user name) device found in
              (ps, device, good, checked, ground (arith, at), ground (arith, at))
        ]
      ]
    ]

check_routes-All :
    (c : Codec) (config : Config) (host : Option (List Prefix)) (s : Memory) (ps : List Prefix)
    (device : Device) (p : Prefix)
    → check_routes c config host s ps device ≡ ok tt
    → In p ps
    → (vpn hosts : List Prefix) × (vpn_networks c (config.cidr ∷ config.cidrv6 ∷ []) ≡ ok vpn)
      × (host ≡ some hosts)
      × IsFree c vpn hosts (list_devices s []) device p
unfolding check_routes
check_routes-All c config host s [] device p h m = elim m [ ]
check_routes-All c config host s (r ∷ ps) device p h m =
    elim (Result-cases (vpn_networks c (config.cidr ∷ config.cidrv6 ∷ []))) [
      | inr (x, bad) ↦ ground arith
      | inl (vpn, configured) ↦ elim (Option-cases host) [
        | inl unknown ↦ ground arith
        | inr (hosts, known) ↦ (
          vpn,
          hosts,
          configured,
          known,
          All-In (IsFree c vpn hosts (list_devices s []) device) (r ∷ ps) p
              (check_each-eq-ok c vpn hosts (list_devices s []) device (r ∷ ps) (ground arith)) m,
        )
      ]
    ]

same_device-key :
    (other device : Device)
    → device_key other ≢ device_key device
    → same_device other device ≡ false
unfolding device_key
same_device-key other device h = elim (Bool-cases (same_device other device)) [
  | inr e ↦ e
  | inl e ↦ absurd (
      h (
        ground (arith, list_beq_iff other.owner device.owner, list_beq_iff other.name device.name)))
]

routes_of-with_routes :
    {c : Codec} (k : IsCodec c) (device : Device) (ps : List Prefix)
    → All IsValid ps
    → routes_of c (with_routes c device ps) ≡ ps
unfolding route_list
routes_of-with_routes k device ps h = parsed_routes-route_text k ps h

module _ {c : Codec} (k : IsCodec c) (config : Config) (host : Option (List Prefix)) (s : Memory)
    (user name : Text) (routes : List Text) (o : Outcome Device) (w : IsWellformed s.db)
    (h : set_device_routes c config host s user name routes ≡ ok o) where
  -- In a well-formed store, for a codec that reads back what it writes: a change of a device's routes
  -- that succeeds leaves no two devices with routes that overlap, if there were none before.
  pub set_device_routes-HasDisjointRoutes :
      HasDisjointRoutes c s.db → HasDisjointRoutes c o.after.db
  set_device_routes-HasDisjointRoutes d =
      let (ps, device, good, checked, v, db) =
        set_device_routes-eq-ok c config host s user name routes o w h in
      let read = routes_of-with_routes k device ps (normalize_routes-IsValid k routes ps good) in
      let apart =
        λ (j : Text) (e : Device) (p q : Prefix) (g : get s.db j ≡ some e)
            (ne : j ≢ device_key device) (m : In p (routes_of c (with_routes c device ps)))
            (n : In q (routes_of c e)).
          let (vpn, hosts, at, known, free) =
            check_routes-All c config host s ps device p checked
              (subst (λ (l : List Prefix). In p l) read m) in
          routed_elsewhere-eq-false c (list_devices s []) device p free.of_devices e
            (get-list_devices s j e g)
            (same_device-key e device (λ same. ne (sym (w.keyed j e g) ∙ same))) q n in
      rw db (put-HasDisjointRoutes s.db (device_key device) (with_routes c device ps) d apart)

  -- In a well-formed store, for a codec that reads back what it writes: after a change of its routes
  -- that succeeds, the device's routes are in range, none is the default route, none stands twice, and
  -- none overlaps a network of the VPN or of the host.
  pub set_device_routes-AreRoutes :
      (vpn hosts : List Prefix)
      → vpn_networks c (config.cidr ∷ config.cidrv6 ∷ []) ≡ ok vpn
      → host ≡ some hosts
      → AreRoutes [] (routes_of c o.value)
        × ((p q : Prefix)
            → In p (routes_of c o.value)
            → In q vpn ⊎ In q hosts
            → overlaps q p ≡ false)
  set_device_routes-AreRoutes vpn hosts configured known =
      let (ps, device, good, checked, v, db) =
        set_device_routes-eq-ok c config host s user name routes o w h in
      let read = routes_of-with_routes k device ps (normalize_routes-IsValid k routes ps good) in
      let read' : routes_of c o.value ≡ ps = ap (routes_of c) v ∙ read in
      (
        rw read' (normalize_routes-AreRoutes k routes ps good),
        λ p q m n.
            let (vpn', hosts', at, known', free) =
              check_routes-All c config host s ps device p checked
                (subst (λ (l : List Prefix). In p l) read' m) in
            elim n [
              | inl in_vpn ↦
                  any-eq-false (λ (r : Prefix). overlaps r p) vpn q (ground (arith, free.of_vpn))
                    in_vpn
              | inr in_host ↦
                  any-eq-false (λ (r : Prefix). overlaps r p) hosts q (ground (arith, free.of_host))
                    in_host
            ],
      )
