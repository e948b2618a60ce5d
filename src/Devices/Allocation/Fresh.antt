-- ===== src/Devices/Allocation/Fresh.antt =====
-- The used sets hold the addresses of all devices, and an allocated text names free addresses only.
use wg_access_server.Prelude.{
  ℕ, Bool, true, false, ◌≡◌, ◌≢◌, refl, ap, ◌⊎◌, inl, inr, some, List, [], ◌∷◌, ◌++◌, map, arith,
  elem, list_eq, nat_eq, All, In, In-elem, Bool-cases, Option-cases, if◌then◌else◌, ok, >>=-eq-ok,
}
use wg_access_server.Prelude.GoMap.{GoMap, get, values}
use wg_access_server.Prelude.Text.{Text, is_nil, join}
use wg_access_server.Prelude.Text.Lists.{comma_space}
use wg_access_server.Netip.{
  Addr, v4, v6, Prefix, AddrIsValid, addr_eq, is4, contains, contains_addr,
}
use wg_access_server.Netip.Codec.{Codec}
use wg_access_server.Network.{parse_addresses}
use wg_access_server.Storage.{Device}
use wg_access_server.Storage.Memory.{Memory, addresses}
use wg_access_server.Devices.Allocation.{
  Used, add_used, used_of, used_addresses, free_in, host_text, scan_family, join_families,
  next_client_address,
}
use wg_access_server.Devices.Allocation.Scan.{free_in-some}

-- The set of the address's family.
abbrev pub used_for : Addr → Used → List Addr
used_for a used = if is4 a then used.ipv4s else used.ipv6s

add_used_keeps :
    (addrs : List Addr) (used : Used) (a : Addr)
    → In a (used_for a used) ⊎ In a addrs
    → In a (used_for a (add_used addrs used))
unfolding add_used
add_used_keeps [] used a (inl h) = h
add_used_keeps [] used a (inr h) = elim h [ ]
add_used_keeps (x ∷ addrs) used a (inr (inr h)) = add_used_keeps addrs _ a (inr h)
add_used_keeps (x ∷ addrs) used a (inr (inl e)) = add_used_keeps addrs _ a (inl (ground arith))
add_used_keeps (x ∷ addrs) used a (inl h) = add_used_keeps addrs _ a (inl (ground arith))

used_of_keeps :
    (c : Codec) (texts : List Text) (used : Used) (a : Addr)
    → In a (used_for a used) ⊎ ((t : Text) × In t texts × In a (parse_addresses c t).0)
    → In a (used_for a (used_of c texts used))
unfolding used_of
used_of_keeps c [] used a (inl h) = h
used_of_keeps c [] used a (inr (t, h, m)) = elim h [ ]
used_of_keeps c (x ∷ texts) used a (inl h) =
    used_of_keeps c texts _ a (inl (add_used_keeps (parse_addresses c x).0 used a (inl h)))
used_of_keeps c (x ∷ texts) used a (inr (t, inl e, m)) =
    used_of_keeps c texts _ a
      (inl (add_used_keeps (parse_addresses c x).0 used a (inr (rw (← e) m))))
used_of_keeps c (x ∷ texts) used a (inr (t, inr h, m)) = used_of_keeps c texts _ a (inr (t, h, m))

get-addresses :
    (m : GoMap Text Device) (k : Text) (d : Device)
    → get m k ≡ some d
    → In d.address (map (λ (x : Device). x.address) (values m))
unfolding get values
get-addresses [] k d h = cc
get-addresses ((j, x) ∷ m) k d h = ground (arith, get-addresses m k d)

-- Every address of a stored device is in the used set of its family.
pub used_addresses_complete :
    (c : Codec) (s : Memory) (k : Text) (d : Device) (a : Addr)
    → get s.db k ≡ some d
    → In a (parse_addresses c d.address).0
    → elem a (used_for a (used_addresses c s)) ≡ true
unfolding used_addresses addresses
used_addresses_complete c s k d a h m =
    In-elem a _ (used_of_keeps c _ _ a (inr (d.address, get-addresses s.db k d h, m)))

-- The text is empty, or names one address that is in range and in no device's list.
abbrev pub FreshText : Codec → Used → Text → Type 0
FreshText c used t =
    (t ≡ [])
    ⊎ ((a : Addr) × (t ≡ host_text c (some a)) × AddrIsValid a × (elem a (used_for a used) ≡ false))

contains-is4 : (n a : Addr) (bits : ℕ) → contains_addr n bits a ≡ true → is4 a ≡ is4 n
unfolding contains_addr
contains-is4 (v4 n) (v4 a) bits h = refl
contains-is4 (v6 n) (v6 a) bits h = refl
contains-is4 _ _ bits h = cc

-- The configured subnet, if there is one, is of the family: IPv4 for `true`.
abbrev pub IsOfFamily : Codec → Text → Bool → Type 0
IsOfFamily c cidr family = (p : Prefix) → c.parse_prefix cidr ≡ some p → is4 p.addr ≡ family

module _ (c : Codec) (cidr : Text) (used : Used) (family : Bool) where
  abbrev sort_used : List Addr
  sort_used = if family then used.ipv4s else used.ipv6s

  free_in-Fresh :
      (p : Prefix) → is4 p.addr ≡ family → FreshText c used (host_text c (free_in p sort_used))
  unfolding contains
  free_in-Fresh p fam = elim (Option-cases (free_in p sort_used)) [
    | inl e ↦ inl (ap (host_text c) e)
    | inr (a, e) ↦
        let first = free_in-some p sort_used a e in
        inr (
          a,
          ap (host_text c) e,
          first.in_range,
          ground (arith, contains-is4 p.addr a p.bits first.inside, first.unused),
        )
  ]

  pub scan_family-Fresh :
      (t : Text)
      → IsOfFamily c cidr family
      → scan_family c cidr sort_used ≡ ok t
      → FreshText c used t
  unfolding scan_family
  scan_family-Fresh t fam h = elim (Bool-cases (is_nil cidr)) [
    | inl e ↦ inl (ground arith)
    | inr e ↦ elim (Option-cases (c.parse_prefix cidr)) [
      | inl none_parsed ↦ ground arith
      | inr (p, parsed) ↦
          let at : host_text c (free_in p sort_used) ≡ t = ground arith in
          rw (← at) (free_in-Fresh p (fam p parsed))
    ]
  ]

-- The texts that name addresses, in the order of the families.
abbrev pub host_texts : Codec → List Addr → List Text
host_texts c [] = []
host_texts c (a ∷ addrs) = host_text c (some a) ∷ host_texts c addrs

-- A device's new address text lists addresses that are in range and in no device's list, at least one.
abbrev pub FreshList : Codec → Used → Text → Type 0
FreshList c used t =
    (a : Addr) × (addrs : List Addr) × (t ≡ join comma_space (host_texts c (a ∷ addrs)))
    × All (λ x. AddrIsValid x × (elem x (used_for x used) ≡ false)) (a ∷ addrs)

module _ (c : Codec) (used : Used) (t4 t6 : Text) where
  -- One text or both, whichever are there.
  abbrev pub joined : Text
  joined = if is_nil t4 then t6 else if is_nil t6 then t4 else t4 ++ (comma_space ++ t6)

  pub joined-Fresh :
      FreshText c used t4 → FreshText c used t6 → joined ≢ [] → FreshList c used joined
  unfolding join
  joined-Fresh (inl e) (inl f) h = absurd (h (ground arith))
  joined-Fresh (inl e) (inr (a, f, v, fresh)) h = (a, [], ground arith, ((v, fresh), tt))
  joined-Fresh (inr (a, e, v, fresh)) (inl f) h = (a, [], ground arith, ((v, fresh), tt))
  joined-Fresh (inr (a, e, v, fresh)) (inr (b, f, w, fresh')) h = elim (Bool-cases (is_nil t4)) [
    | inl nil ↦ (b, [], ground arith, ((w, fresh'), tt))
    | inr some4 ↦ elim (Bool-cases (is_nil t6)) [
      | inl nil ↦ (a, [], ground arith, ((v, fresh), tt))
      | inr some6 ↦ (a, b ∷ [], ground arith, ((v, fresh), ((w, fresh'), tt)))
    ]
  ]

  join_families-joined :
      (cidr cidrv6 t : Text) → join_families cidr cidrv6 t4 t6 ≡ ok t → (joined ≡ t) × (joined ≢ [])
  unfolding join_families
  join_families-joined cidr cidrv6 t h = (ground arith, λ e. ground arith)

-- What `nextClientAddressLocked` returns is fresh.
pub next_client_address-Fresh :
    (c : Codec) (cidr cidrv6 : Text) (s : Memory) (t : Text)
    → IsOfFamily c cidr true
    → IsOfFamily c cidrv6 false
    → next_client_address c cidr cidrv6 s ≡ ok t
    → FreshList c (used_addresses c s) t
unfolding next_client_address
next_client_address-Fresh c cidr cidrv6 s t is_v4 is_v6 h =
    let used = used_addresses c s in
    let (t4, h4, r) = >>=-eq-ok (scan_family c cidr used.ipv4s) _ h in
    let (t6, h6, r') = >>=-eq-ok (scan_family c cidrv6 used.ipv6s) _ r in
    let (e, nonempty) = join_families-joined c used t4 t6 cidr cidrv6 t r' in
    rw (← e) (
      joined-Fresh c used t4 t6 (scan_family-Fresh c cidr used true t4 is_v4 h4)
        (scan_family-Fresh c cidrv6 used false t6 is_v6 h6) nonempty)
