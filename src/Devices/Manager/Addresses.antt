-- ===== src/Devices/Manager/Addresses.antt =====
-- No two devices are ever given one address, chosen or not.
use wg_access_server.Prelude.{
  ℕ, Bool, true, false, ◌≡◌, ◌≢◌, refl, sym, ap, ◌∙◌, ◌⊎◌, inl, inr, some, List, [], ◌∷◌, ◌&&◌,
  arith, elem, subst, list_eq, nat_eq, All, In, All-In, Bool-cases, Option-cases, ok, >>=-eq-ok,
  Result-cases,
}
use mathlib.Core.Bool.{true≢false}
use wg_access_server.Prelude.GoMap.{GoMap, get, put, get-put_cases}
use wg_access_server.Prelude.Text.{Text, is_nil, join}
use wg_access_server.Prelude.Text.Lists.{IsEntry, comma_space, trimmed-join}
use wg_access_server.Netip.{
  Addr, none_addr, v4, v6, AddrIsValid, IsValid, addr_eq, bit_len, is4, is6,
}
use wg_access_server.Netip.Codec.{Codec, IsCodec}
use wg_access_server.Network.{parse_entries, parse_addresses}
use wg_access_server.Storage.{Device, device_key}
use wg_access_server.Storage.Memory.{Memory, Outcome, save}
use wg_access_server.Devices.Allocation.{Used, used_addresses, host_text}
use wg_access_server.Devices.Allocation.Fresh.{
  used_for, used_addresses_complete, FreshText, FreshList, host_texts, IsOfFamily, joined,
  joined-Fresh, next_client_address-Fresh,
}
use wg_access_server.Devices.Manager.{
  Config, Owner, Manual, manual_family, join_manual, manual_address, client_address,
  add_device_locked, add_device, new_device,
}

module _ {c : Codec} (k : IsCodec c) where
  host-IsValid : (a : Addr) → AddrIsValid a → IsValid (record { addr = a; bits = bit_len a })
  host-IsValid none_addr v = absurd v
  host-IsValid (v4 x) v = record { addr_valid = v; bits_valid = omega arith }
  host-IsValid (v6 x) v = record { addr_valid = v; bits_valid = omega arith }

  host_texts-IsEntry :
      (addrs : List Addr) → All AddrIsValid addrs → All (IsEntry 44) (host_texts c addrs)
  host_texts-IsEntry [] h = tt
  host_texts-IsEntry (a ∷ addrs) h = (
    k.print-IsEntry (record { addr = a; bits = bit_len a }) (host-IsValid a h.0),
    host_texts-IsEntry addrs h.1,
  )

  parse_entries-host_texts :
      (addrs : List Addr) → All AddrIsValid addrs → (parse_entries c (host_texts c addrs)).0 ≡ addrs
  unfolding parse_entries
  parse_entries-host_texts [] h = refl
  parse_entries-host_texts (a ∷ addrs) h = ground (
    arith,
    k.parse-print (record { addr = a; bits = bit_len a }) (host-IsValid a h.0),
    parse_entries-host_texts addrs h.1,
  )

  -- The addresses that a device's text was made from are read back.
  pub parse_addresses-join :
      (a : Addr) (addrs : List Addr)
      → All AddrIsValid (a ∷ addrs)
      → (parse_addresses c (join comma_space (host_texts c (a ∷ addrs)))).0 ≡ a ∷ addrs
  unfolding parse_addresses
  parse_addresses-join a addrs h =
      rw
        (trimmed-join (host_text c (some a)) (host_texts c addrs)
          (host_texts-IsEntry (a ∷ addrs) h))
        (parse_entries-host_texts (a ∷ addrs) h)

-- No address stands in the lists of two devices.
pub record HasDisjointAddresses (c : Codec) (db : GoMap Text Device) : Type 0 where
  pub disjoint :
      (i j : Text) (d e : Device) (a : Addr)
      → get db i ≡ some d
      → get db j ≡ some e
      → i ≢ j
      → In a (parse_addresses c d.address).0
      → ¬ In a (parse_addresses c e.address).0

put-HasDisjointAddresses :
    {c : Codec} (db : GoMap Text Device) (key : Text) (new : Device)
    → HasDisjointAddresses c db
    → ((j : Text) (e : Device) (a : Addr)
        → get db j ≡ some e
        → In a (parse_addresses c new.address).0
        → ¬ In a (parse_addresses c e.address).0)
    → HasDisjointAddresses c (put db key new)
put-HasDisjointAddresses {c} db key new w apart = record {
  disjoint = λ i j d e a gi gj ne m n. elim (get-put_cases db key i new d gi) [
    | inl (ki, vi) ↦ elim (get-put_cases db key j new e gj) [
      | inl (kj, vj) ↦ ne (sym ki ∙ kj)
      | inr (_, hj) ↦ apart j e a hj (rw vi m) n
    ]
    | inr (_, hi) ↦ elim (get-put_cases db key j new e gj) [
      | inl (kj, vj) ↦ apart i d a hi (rw vj n) m
      | inr (_, hj) ↦ w.disjoint i j d e a hi hj ne m n
    ]
  ];
}

module _ {c : Codec} (k : IsCodec c) where
  parsed-Fresh :
      (used : Used) (t : Text)
      → FreshList c used t
      → (a : Addr) → In a (parse_addresses c t).0
      → elem a (used_for a used) ≡ false
  parsed-Fresh used t (b, addrs, e, fresh) a m =
      (All-In (λ x. AddrIsValid x × (elem x (used_for x used) ≡ false)) (b ∷ addrs) a fresh
        (subst (λ (l : List Addr). In a l)
          (ap (λ (x : Text). (parse_addresses c x).0) e
            ∙ parse_addresses-join k b addrs (valid (b ∷ addrs) fresh))
          m)).1
    where
      valid :
          (l : List Addr)
          → All (λ x. AddrIsValid x × (elem x (used_for x used) ≡ false)) l
          → All AddrIsValid l
      valid [] h = tt
      valid (x ∷ l) h = (h.0.0, valid l h.1)

  manual_family-eq-ok :
      (of_family : Addr → Bool) (cidr text t : Text) (used : List Addr)
      → manual_family c of_family cidr text used ≡ ok t
      → ((is_nil text ≡ true) × (t ≡ []))
        ⊎ ((a : Addr) × (t ≡ host_text c (some a))
            × AddrIsValid a
            × (of_family a ≡ true)
            × (elem a used ≡ false))
  unfolding manual_family
  manual_family-eq-ok of_family cidr text t used h = elim (Bool-cases (is_nil text)) [
    | inl nil ↦ inl (nil, ground arith)
    | inr given ↦ elim (Option-cases (c.parse_addr text)) [
      | inl bad ↦ ground arith
      | inr (a, parsed) ↦ elim (Option-cases (c.parse_prefix cidr)) [
        | inl bad ↦ ground arith
        | inr (p, configured) ↦
            inr (a, ground arith, k.parse_addr-IsValid text a parsed, ground arith, ground arith)
      ]
    ]
  ]

  manual_family-nonempty :
      (of_family : Addr → Bool) (cidr text t : Text) (used : List Addr)
      → manual_family c of_family cidr text used ≡ ok t
      → is_nil text ≡ false
      → t ≢ []
  manual_family-nonempty of_family cidr text t used h given e =
      elim (manual_family-eq-ok of_family cidr text t used h) [
        | inl (nil, _) ↦ cc
        | inr (a, at, v, _, _) ↦
            (k.print-IsEntry (record { addr = a; bits = bit_len a }) (host-IsValid k a v)).nonempty
              (sym at ∙ e)
      ]

  is6-is4 : (a : Addr) → is6 a ≡ true → is4 a ≡ false
  is6-is4 (v6 x) h = refl
  is6-is4 none_addr h = cc
  is6-is4 (v4 x) h = cc

  manual_family4 :
      (cidr text t : Text) (used : Used)
      → manual_family c is4 cidr text used.ipv4s ≡ ok t
      → FreshText c used t
  manual_family4 cidr text t used h = elim (manual_family-eq-ok is4 cidr text t used.ipv4s h) [
    | inl (_, nil) ↦ inl nil
    | inr (a, e, v, fam, fresh) ↦ inr (a, e, v, ground arith)
  ]

  manual_family6 :
      (cidr text t : Text) (used : Used)
      → manual_family c is6 cidr text used.ipv6s ≡ ok t
      → FreshText c used t
  manual_family6 cidr text t used h = elim (manual_family-eq-ok is6 cidr text t used.ipv6s h) [
    | inl (_, nil) ↦ inl nil
    | inr (a, e, v, fam, fresh) ↦ inr (a, e, v, ground (arith, is6-is4 a fam))
  ]

  manual_address-Fresh :
      (config : Config) (s : Memory) (manual : Manual) (t : Text)
      → manual_address c config s manual ≡ ok t
      → FreshList c (used_addresses c s) t
  unfolding manual_address join_manual
  manual_address-Fresh config s manual t h =
      elim (Bool-cases (is_nil manual.ipv4 && is_nil manual.ipv6)) [
        | inl none_given ↦ ground arith
        | inr given ↦
            let used = used_addresses c s in
            let (t4, h4, r) =
              >>=-eq-ok (manual_family c is4 config.cidr manual.ipv4 used.ipv4s) _
                (rw given at h) in
            let (t6, h6, r') =
              >>=-eq-ok (manual_family c is6 config.cidrv6 manual.ipv6 used.ipv6s) _ r in
            let e : joined c used t4 t6 ≡ t = ground arith in
            rw (← e) (
              joined-Fresh c used t4 t6 (manual_family4 config.cidr manual.ipv4 t4 used h4)
                (manual_family6 config.cidrv6 manual.ipv6 t6 used h6)
                (λ nil. ground (
                  arith,
                  manual_family-nonempty is4 config.cidr manual.ipv4 t4 used.ipv4s h4,
                  manual_family-nonempty is6 config.cidrv6 manual.ipv6 t6 used.ipv6s h6,
                )))
      ]

  client_address-Fresh :
      (config : Config) (s : Memory) (manual : Manual) (t : Text)
      → IsOfFamily c config.cidr true
      → IsOfFamily c config.cidrv6 false
      → client_address c config s manual ≡ ok t
      → FreshList c (used_addresses c s) t
  unfolding client_address
  client_address-Fresh config s manual t is_v4 is_v6 h = elim (Bool-cases manual.enabled) [
    | inr auto ↦
        next_client_address-Fresh c config.cidr config.cidrv6 s t is_v4 is_v6 (ground arith)
    | inl chosen ↦ manual_address-Fresh config s manual t (ground arith)
  ]

  pub add_device-put :
      (config : Config) (s : Memory) (owner : Owner) (name public_key preshared_key : Text)
      (manual : Manual) (now : ℕ) (o : Outcome Device)
      → add_device c config s owner name public_key preshared_key manual now ≡ ok o
      → (t : Text) × (client_address c config s manual ≡ ok t)
        × (o.value ≡ new_device owner name public_key preshared_key t now)
        × (o.after.db ≡ put s.db (device_key o.value) o.value)
  unfolding add_device add_device_locked save
  add_device-put config s owner name public_key preshared_key manual now o h =
      elim (Result-cases (client_address c config s manual)) [
        | inl (t, e) ↦ (t, e, ground arith, ground arith)
        | inr (x, e) ↦ ground arith
      ]

  -- For a codec that reads back what it writes and subnets of their families: a device that is added,
  -- with addresses that were chosen or handed out, has no address of another device, if no two
  -- devices had an address in common before.
  pub add_device-HasDisjointAddresses :
      (config : Config) (s : Memory) (owner : Owner) (name public_key preshared_key : Text)
      (manual : Manual) (now : ℕ) (o : Outcome Device)
      → IsOfFamily c config.cidr true
      → IsOfFamily c config.cidrv6 false
      → HasDisjointAddresses c s.db
      → add_device c config s owner name public_key preshared_key manual now ≡ ok o
      → HasDisjointAddresses c o.after.db
  add_device-HasDisjointAddresses config s owner name public_key preshared_key manual now o is_v4
        is_v6 w h =
      let (t, at, v, db) =
        add_device-put config s owner name public_key preshared_key manual now o h in
      let new = o.value in
      let fresh = λ (a : Addr) (m : In a (parse_addresses c new.address).0).
        parsed-Fresh (used_addresses c s) new.address
          (rw v (client_address-Fresh config s manual t is_v4 is_v6 at)) a m in
      let apart =
        λ (j : Text) (e : Device) (a : Addr) (g : get s.db j ≡ some e)
            (m : In a (parse_addresses c new.address).0) (n : In a (parse_addresses c e.address).0).
          true≢false (sym (used_addresses_complete c s j e a g n) ∙ fresh a m) in
      rw db (put-HasDisjointAddresses s.db (device_key new) new w apart)
