-- ===== src/Storage/Memory/Wellformed/Fields.antt =====
-- Which operations of inmemory.go leave a field of the devices alone: a device that is there
-- afterwards comes from one that was there, and no two come from one.
use wg_access_server.Prelude.{
  ℕ, true, ◌≡◌, refl, sym, ap, ◌∙◌, inl, inr, Option, none, some, List, [], ◌∷◌, ◌==◌, list_eq,
  list_beq_iff, nat_eq, arith, ok, Option-cases, Bool-cases, if◌then◌else◌, Bool,
}
use wg_access_server.Prelude.GoMap.{GoMap, get, put, delete, IsMap, get-put, get-delete}
use wg_access_server.Prelude.Text.{Text}
use wg_access_server.Storage.{Device, MetadataUpdate, device_key}
use wg_access_server.Storage.Memory.{
  Memory, Outcome, record_updates, with_update, with_metadata, without_owner, block_owner,
  set_access, set_routes, set_keys, rename,
}
use wg_access_server.Storage.Memory.Wellformed.{IsWellformed}
use wg_access_server.Storage.Memory.Wellformed.Bulk.{
  get-without_owner, get-block_owner, blocked_for,
}

module _ (f : Device → Text) where
  pub record Keeps (m m' : GoMap Text Device) : Type 0 where
    pub origin : Text → Text
    pub from :
        (k : Text) (d' : Device)
        → get m' k ≡ some d'
        → (d : Device) × (get m (origin k) ≡ some d) × (f d ≡ f d')
    pub injective :
        (i k : Text) (d e : Device)
        → get m' i ≡ some d
        → get m' k ≡ some e
        → origin i ≡ origin k
        → i ≡ k

  pub Keeps-refl : (m : GoMap Text Device) → Keeps m m
  Keeps-refl m = record {
    origin = λ k. k;
    from = λ k d' h. (d', h, refl);
    injective = λ i k d e h h' same. same;
  }

  Keeps-trans : {m n o : GoMap Text Device} → Keeps m n → Keeps n o → Keeps m o
  Keeps-trans s t = record {
    origin = λ k. s.origin (t.origin k);
    from = λ k d' h.
        let (e, g, same) = t.from k d' h in
        let (d, g', same') = s.from (t.origin k) e g in (d, g', same' ∙ same);
    injective = λ i k d e h h' same.
        let (d', g, p) = t.from i d h in
        let (e', g', p') = t.from k e h' in
        t.injective i k d e h h' (s.injective (t.origin i) (t.origin k) d' e' g g' same);
  }

  pub put-Keeps :
      (m : GoMap Text Device) (key : Text) (stored changed : Device)
      → get m key ≡ some stored
      → f stored ≡ f changed
      → Keeps m (put m key changed)
  put-Keeps m key stored changed h same = record {
    origin = λ k. k;
    from = λ k d'. rw get-put (λ g. elim (Bool-cases (key == k)) [
      | inl hit ↦
          let at : changed ≡ d' = ground arith in
          (stored, ap (get m) (sym ((list_beq_iff key k).0 hit)) ∙ h, same ∙ ap f at)
      | inr miss ↦ (d', ground arith, refl)
    ]);
    injective = λ i k d e g g' p. p;
  }

  pub delete-Keeps : (m : GoMap Text Device) (key : Text) → Keeps m (delete m key)
  delete-Keeps m key = record {
    origin = λ k. k;
    from = λ k d' h. (d', ground (arith, get-delete m key k), refl);
    injective = λ i k d e g g' p. p;
  }

  pub without_owner-Keeps :
      (owner : Text) (m : GoMap Text Device) → IsMap m → Keeps m (without_owner owner m).0
  without_owner-Keeps owner m w = record {
    origin = λ k. k;
    from = λ k d' h. (d', (get-without_owner owner m k d' h w).0, refl);
    injective = λ i k d e g g' p. p;
  }

  pub moved-Keeps :
      (m : GoMap Text Device) (old new : Text) (stored changed : Device)
      → get m old ≡ some stored
      → f stored ≡ f changed
      → Keeps m (put (delete m old) new changed)
  moved-Keeps m old new stored changed h same = record {
    origin = λ k. if new == k then old else k;
    from = λ k d'. rw get-put (λ g. elim (Bool-cases (new == k)) [
      | inl hit ↦ let at : changed ≡ d' = ground arith in (stored, ground arith, same ∙ ap f at)
      | inr miss ↦ (d', ground (arith, get-delete m old k), refl)
    ]);
    injective = λ i k d e.
        rw (get-put (delete m old) new i changed, get-put (delete m old) new k changed)
          (ground (
            arith,
            list_beq_iff new i,
            list_beq_iff new k,
            list_beq_iff old i,
            list_beq_iff old k,
            get-delete m old i,
            get-delete m old k,
          ));
  }

  pub block_owner-Keeps :
      (owner : Text) (m : GoMap Text Device)
      → ((d : Device) → f (record d { disabled = true }) ≡ f d)
      → Keeps m (block_owner owner m).0
  block_owner-Keeps owner m same = record {
    origin = λ k. k;
    from = λ k d' h. elim (Option-cases (get m k)) [
      | inl e ↦ ground (arith, get-block_owner owner m k)
      | inr (d, e) ↦ (d, e, sym (blocked d d' (ground (arith, get-block_owner owner m k))))
    ];
    injective = λ i k d e g g' p. p;
  }
    where
      blocked : (d d' : Device) → blocked_for owner d ≡ d' → f d' ≡ f d
      blocked d d' e = elim (Bool-cases (d.owner == owner)) [
        | inl mine ↦
            let at : record d { disabled = true } ≡ d' = ground arith in ap f (sym at) ∙ same d
        | inr other ↦ let at : d ≡ d' = ground arith in ap f (sym at)
      ]

  with_update-Keeps :
      (m : GoMap Text Device) (key : Option Text) (u : MetadataUpdate)
      → ((d : Device) → f (with_metadata d u) ≡ f d)
      → Keeps m (with_update m key u)
  with_update-Keeps m none u same = Keeps-refl m
  with_update-Keeps m (some key) u same = elim (Option-cases (get m key)) [
    | inl e ↦ rw (e, with_update) (Keeps-refl m)
    | inr (d, e) ↦ rw (e, with_update) (put-Keeps m key d (with_metadata d u) e (sym (same d)))
  ]

  pub record_updates-Keeps :
      (index : GoMap Text Text) (m : GoMap Text Device) (updates : List MetadataUpdate)
      → ((d : Device) (u : MetadataUpdate) → f (with_metadata d u) ≡ f d)
      → Keeps m (record_updates index m updates)
  unfolding record_updates
  record_updates-Keeps index m [] same = Keeps-refl m
  record_updates-Keeps index m (u ∷ updates) same =
      Keeps-trans (with_update-Keeps m (get index u.public_key) u (λ d. same d u))
        (record_updates-Keeps index (with_update m (get index u.public_key) u) updates same)

  module _ (s : Memory) (w : IsWellformed s.db) (d : Device) (o : Outcome Device) where
    pub set_access-Keeps :
        (blocked : Bool) (expiry : Option ℕ)
        → ((x : Device) → f x ≡ f (record x { disabled = blocked; expires_at = expiry }))
        → set_access s d blocked expiry ≡ ok o
        → Keeps s.db o.after.db
    unfolding set_access device_key
    set_access-Keeps blocked expiry same h = elim (Option-cases (get s.db (device_key d))) [
      | inl e ↦ ground arith
      | inr (stored, e) ↦ ground (
        arith,
        w.keyed (device_key d) stored e,
        put-Keeps s.db (device_key d) stored
            (record stored { disabled = blocked; expires_at = expiry }) e (same stored),
      )
    ]

    pub set_routes-Keeps :
        (networks : Text)
        → ((x : Device) → f x ≡ f (record x { routes = networks }))
        → set_routes s d networks ≡ ok o
        → Keeps s.db o.after.db
    unfolding set_routes device_key
    set_routes-Keeps networks same h = elim (Option-cases (get s.db (device_key d))) [
      | inl e ↦ ground arith
      | inr (stored, e) ↦ ground (
        arith,
        w.keyed (device_key d) stored e,
        put-Keeps s.db (device_key d) stored (record stored { routes = networks }) e (same stored),
      )
    ]

    pub set_keys-Keeps :
        (public preshared : Text)
        → ((x : Device) → f x ≡ f (record x { public_key = public; preshared_key = preshared }))
        → set_keys s d public preshared ≡ ok o
        → Keeps s.db o.after.db
    unfolding set_keys device_key
    set_keys-Keeps public preshared same h = elim (Option-cases (get s.db (device_key d))) [
      | inl e ↦ ground arith
      | inr (stored, e) ↦ ground (
        arith,
        w.keyed (device_key d) stored e,
        put-Keeps s.db (device_key d) stored
            (record stored { public_key = public; preshared_key = preshared }) e (same stored),
      )
    ]

    pub rename-Keeps :
        (new_name : Text)
        → ((x : Device) → f x ≡ f (record x { name = new_name }))
        → rename s d new_name ≡ ok o
        → Keeps s.db o.after.db
    unfolding rename
    rename-Keeps new_name same h = elim (Option-cases (get s.db (device_key d))) [
      | inl e ↦ ground arith
      | inr (stored, e) ↦ ground (
        arith,
        w.keyed (device_key d) stored e,
        moved-Keeps s.db (device_key stored) (device_key (record stored { name = new_name })) stored
            (record stored { name = new_name })
            (ap (get s.db) (w.keyed (device_key d) stored e) ∙ e) (same stored),
      )
    ]
