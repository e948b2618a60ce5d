-- ===== src/Devices/Requests/Safe.antt =====
-- What every history of requests keeps.
use wg_access_server.Prelude.{
  ℕ, true, false, ◌≡◌, refl, sym, ap, ◌∙◌, inl, inr, Option, List, [], ◌∷◌, list_eq, nat_eq, arith,
  Result, ok, err, In, subst,
}
use wg_access_server.Prelude.GoMap.{GoMap, get, delete}
use wg_access_server.Prelude.Text.{Text, trim_space, trim_left, trim_right}
use wg_access_server.Netip.{Prefix}
use wg_access_server.Netip.Codec.{Codec, IsCodec}
use wg_access_server.Network.{parse_addresses}
use wg_access_server.Storage.{Device, device_key, route_list, split_list}
use wg_access_server.Storage.Memory.{
  Memory, Outcome, new_memory, delete_device, record_metadata, by_public_key, delete_for_owner,
  block_for_owner, with_metadata,
}
use wg_access_server.Storage.Memory.Wellformed.{delete-IsWellformed}
use wg_access_server.Storage.Memory.Wellformed.Steps.{
  Sound, save-IsWellformed, set_access-IsWellformed, set_routes-IsWellformed, set_keys-IsWellformed,
  rename-IsWellformed,
}
use wg_access_server.Storage.Memory.Wellformed.Bulk.{
  record_metadata-IsWellformed, delete_for_owner-IsWellformed, block_for_owner-IsWellformed,
}
use wg_access_server.Storage.Memory.Wellformed.Runs.{new_memory-Sound}
use wg_access_server.Storage.Memory.Wellformed.Fields.{
  Keeps, delete-Keeps, without_owner-Keeps, block_owner-Keeps, record_updates-Keeps,
  set_access-Keeps, set_routes-Keeps, set_keys-Keeps, rename-Keeps,
}
use wg_access_server.Devices.Allocation.Fresh.{IsOfFamily}
use wg_access_server.Devices.Manager.{
  Config, Owner, Manual, AccessChange, add_device, rename_device, set_device_access, rotate_keys,
  remove_device, new_device,
}
use wg_access_server.Devices.Manager.Addresses.{
  HasDisjointAddresses, add_device-HasDisjointAddresses, add_device-put,
}
use wg_access_server.Devices.Routes.{routes_of, parsed_routes, set_device_routes}
use wg_access_server.Devices.Routes.Disjoint.{
  HasDisjointRoutes, set_device_routes-HasDisjointRoutes, put-HasDisjointRoutes,
}
use wg_access_server.Devices.Requests.{
  Request, adds, renames, changes_access, routes, rotates, removes, clears, blocks, records, after,
  store_of, store_of_rotation, handle, serve,
}
use wg_access_server.Devices.Requests.Steps.{
  add_device-save, rename_device-rename, set_device_access-set_access, set_device_routes-set_routes,
  rotate_keys-set_keys, remove_device-delete,
}

abbrev address_of : Device → Text
address_of d = d.address

abbrev routes_text : Device → Text
routes_text d = d.routes

-- The devices stand under their keys, each public key but the empty one once, and no two share an
-- address or have routes that overlap.
pub record IsSafe (c : Codec) (s : Memory) : Type 0 where
  pub sound : Sound s
  pub addresses : HasDisjointAddresses c s.db
  pub routes : HasDisjointRoutes c s.db

Keeps-HasDisjointAddresses :
    {c : Codec} {m m' : GoMap Text Device}
    → Keeps address_of m m'
    → HasDisjointAddresses c m
    → HasDisjointAddresses c m'
Keeps-HasDisjointAddresses {c} t w = record {
  disjoint = λ i j d e a gi gj ne n n'.
      let (d', hd, same) = t.from i d gi in
      let (e', he, same') = t.from j e gj in
      w.disjoint (t.origin i) (t.origin j) d' e' a hd he (λ z. ne (t.injective i j d e gi gj z))
        (subst (λ (x : Text). In a (parse_addresses c x).0) (sym same) n)
        (subst (λ (x : Text). In a (parse_addresses c x).0) (sym same') n');
}

abbrev networks_of : Codec → Text → List Prefix
networks_of c text = parsed_routes c (split_list text)

Keeps-HasDisjointRoutes :
    {c : Codec} {m m' : GoMap Text Device}
    → Keeps routes_text m m'
    → HasDisjointRoutes c m
    → HasDisjointRoutes c m'
unfolding route_list
Keeps-HasDisjointRoutes {c} t w = record {
  disjoint = λ i j d e p q gi gj ne n n'.
      let (d', hd, same) = t.from i d gi in
      let (e', he, same') = t.from j e gj in
      w.disjoint (t.origin i) (t.origin j) d' e' p q hd he (λ z. ne (t.injective i j d e gi gj z))
        (subst (λ (x : Text). In p (networks_of c x)) (sym same) n)
        (subst (λ (x : Text). In q (networks_of c x)) (sym same') n');
}

kept :
    {c : Codec} {s s' : Memory}
    → Sound s'
    → Keeps address_of s.db s'.db
    → Keeps routes_text s.db s'.db
    → IsSafe c s
    → IsSafe c s'
kept w a r safe = record {
  sound = w;
  addresses = Keeps-HasDisjointAddresses a safe.addresses;
  routes = Keeps-HasDisjointRoutes r safe.routes;
}

after-IsSafe :
    {c : Codec} {E : Type 0} {A : Type 0} (store : A → Memory) (s : Memory) (r : Result E A)
    → ((a : A) → r ≡ ok a → IsSafe c (store a))
    → IsSafe c s
    → IsSafe c (after store s r)
after-IsSafe store s (ok a) h safe = h a refl
after-IsSafe store s (err e) h safe = safe

-- A new device has no routes.
new_device-routes :
    (c : Codec) (owner : Owner) (name public_key preshared_key t : Text) (now : ℕ)
    → routes_of c (new_device owner name public_key preshared_key t now) ≡ []
unfolding route_list split_list parsed_routes trim_space trim_left trim_right
new_device-routes c owner name public_key preshared_key t now = refl

module _ {c : Codec} (k : IsCodec c) (config : Config) (is_v4 : IsOfFamily c config.cidr true)
    (is_v6 : IsOfFamily c config.cidrv6 false) (s : Memory) (safe : IsSafe c s) where
  add_device-IsSafe :
      (owner : Owner) (name public_key preshared_key : Text) (manual : Manual) (now : ℕ)
      (o : Outcome Device)
      → add_device c config s owner name public_key preshared_key manual now ≡ ok o
      → IsSafe c o.after
  add_device-IsSafe owner name public_key preshared_key manual now o h =
      let (t', o', saved, same) =
        add_device-save c config s owner name public_key preshared_key manual now o h in
      let (t, at, v, db) =
        add_device-put k config s owner name public_key preshared_key manual now o h in
      record {
        sound =
            subst (λ (m : Memory). Sound m) (sym same)
              (save-IsWellformed s (new_device owner name public_key preshared_key t' now) o' saved
                safe.sound);
        addresses =
            add_device-HasDisjointAddresses k config s owner name public_key preshared_key manual
              now o is_v4 is_v6 safe.addresses h;
        routes =
            subst (λ (m : GoMap Text Device). HasDisjointRoutes c m) (sym db)
              (put-HasDisjointRoutes s.db (device_key o.value) o.value safe.routes
                (λ j e p q g ne m n.
                  elim (subst (λ (l : List Prefix). In p l)
                    (ap (routes_of c) v
                      ∙ new_device-routes c owner name public_key preshared_key t now)
                    m) [ ]));
      }

  rename_device-IsSafe :
      (user name new_name : Text) (o : Outcome Device)
      → rename_device s user name new_name ≡ ok o
      → IsSafe c o.after
  rename_device-IsSafe user name new_name o h =
      elim (rename_device-rename s user name o new_name h) [
        | inl same ↦ subst (λ (m : Memory). IsSafe c m) (sym same) safe
        | inr (d, at, r) ↦
            kept (rename-IsWellformed s d o new_name r safe.sound)
              (rename-Keeps address_of s safe.sound d o new_name (λ x. refl) r)
              (rename-Keeps routes_text s safe.sound d o new_name (λ x. refl) r) safe
      ]

  set_device_access-IsSafe :
      (user name : Text) (change : AccessChange) (now : ℕ) (o : Outcome Device)
      → set_device_access s user name change now ≡ ok o
      → IsSafe c o.after
  set_device_access-IsSafe user name change now o h =
      let (d, b, e, at, r) = set_device_access-set_access s user name o change now h in
      kept (set_access-IsWellformed s d o b e r safe.sound)
        (set_access-Keeps address_of s safe.sound d o b e (λ x. refl) r)
        (set_access-Keeps routes_text s safe.sound d o b e (λ x. refl) r) safe

  rotate_keys-IsSafe :
      (user name public_key preshared_key old : Text) (o : Outcome Device)
      → rotate_keys s user name public_key preshared_key ≡ ok (old, o)
      → IsSafe c o.after
  rotate_keys-IsSafe user name public_key preshared_key old o h =
      let (d, at, r) = rotate_keys-set_keys s user name public_key preshared_key old o h in
      kept (set_keys-IsWellformed s d o public_key preshared_key r safe.sound)
        (set_keys-Keeps address_of s safe.sound d o public_key preshared_key (λ x. refl) r)
        (set_keys-Keeps routes_text s safe.sound d o public_key preshared_key (λ x. refl) r) safe

  set_device_routes-IsSafe :
      (host : Option (List Prefix)) (user name : Text) (networks : List Text) (o : Outcome Device)
      → set_device_routes c config host s user name networks ≡ ok o
      → IsSafe c o.after
  set_device_routes-IsSafe host user name networks o h =
      let (d, t, at, r) = set_device_routes-set_routes s user name o c config host networks h in
      record {
        sound = set_routes-IsWellformed s d o t r safe.sound;
        addresses =
            Keeps-HasDisjointAddresses
              (set_routes-Keeps address_of s safe.sound d o t (λ x. refl) r) safe.addresses;
        routes =
            set_device_routes-HasDisjointRoutes k config host s user name networks o safe.sound h
              safe.routes;
      }

  remove_device-IsSafe :
      (user name : Text) (o : Outcome Unit) → remove_device s user name ≡ ok o → IsSafe c o.after
  unfolding delete_device
  remove_device-IsSafe user name o h =
      let (d, at, r) = remove_device-delete s user name o h in
      let same : record s { db = delete s.db (device_key d) } ≡ o.after = ground (arith, r) in
      subst (λ (m : Memory). IsSafe c m) same
        (kept (delete-IsWellformed s.db (device_key d) safe.sound)
          (delete-Keeps address_of s.db (device_key d))
          (delete-Keeps routes_text s.db (device_key d)) safe)

  handle-IsSafe : (r : Request) → IsSafe c (handle c config s r)
  unfolding handle
  handle-IsSafe (adds owner name public_key preshared_key manual now) =
      after-IsSafe store_of s (add_device c config s owner name public_key preshared_key manual now)
        (add_device-IsSafe owner name public_key preshared_key manual now) safe
  handle-IsSafe (renames user name new_name) =
      after-IsSafe store_of s (rename_device s user name new_name)
        (rename_device-IsSafe user name new_name) safe
  handle-IsSafe (changes_access user name change now) =
      after-IsSafe store_of s (set_device_access s user name change now)
        (set_device_access-IsSafe user name change now) safe
  handle-IsSafe (routes host user name networks) =
      after-IsSafe store_of s (set_device_routes c config host s user name networks)
        (set_device_routes-IsSafe host user name networks) safe
  handle-IsSafe (rotates user name public_key preshared_key) =
      after-IsSafe store_of_rotation s (rotate_keys s user name public_key preshared_key)
        (λ a h. rotate_keys-IsSafe user name public_key preshared_key a.0 a.1 h) safe
  handle-IsSafe (removes user name) =
      after-IsSafe store_of s (remove_device s user name) (remove_device-IsSafe user name) safe
  handle-IsSafe (clears user) =
      unfold delete_for_owner in
      kept (unfold delete_for_owner in delete_for_owner-IsWellformed s user _ refl safe.sound)
        (without_owner-Keeps address_of user s.db safe.sound.is_map)
        (without_owner-Keeps routes_text user s.db safe.sound.is_map) safe
  handle-IsSafe (blocks user) =
      unfold block_for_owner in
      kept (unfold block_for_owner in block_for_owner-IsWellformed s user _ refl safe.sound)
        (block_owner-Keeps address_of user s.db (λ d. refl))
        (block_owner-Keeps routes_text user s.db (λ d. refl)) safe
  handle-IsSafe (records updates) =
      unfold record_metadata in
      kept (unfold record_metadata in record_metadata-IsWellformed s updates _ refl safe.sound)
        (record_updates-Keeps address_of (by_public_key s.db []) s.db updates
          (λ d u. unfold with_metadata in ground arith))
        (record_updates-Keeps routes_text (by_public_key s.db []) s.db updates
          (λ d u. unfold with_metadata in ground arith))
        safe

-- For a codec that reads back what it writes and subnets of their families: whatever requests the
-- device manager serves, refused ones included, in whatever order, the devices stand under their
-- keys, each public key but the empty one once, and no two share an address or have routes that
-- overlap, if it was so before.
pub serve-IsSafe :
    {c : Codec} (k : IsCodec c) (config : Config) (is_v4 : IsOfFamily c config.cidr true)
    (is_v6 : IsOfFamily c config.cidrv6 false) (s : Memory) (requests : List Request)
    → IsSafe c s
    → IsSafe c (serve c config s requests)
unfolding serve
serve-IsSafe k config is_v4 is_v6 s [] safe = safe
serve-IsSafe {c} k config is_v4 is_v6 s (r ∷ rs) safe =
    serve-IsSafe k config is_v4 is_v6 (handle c config s r) rs
      (handle-IsSafe k config is_v4 is_v6 s safe r)

-- An empty store is safe.
pub new_memory-IsSafe : (c : Codec) → IsSafe c new_memory
unfolding get
new_memory-IsSafe c = record {
  sound = new_memory-Sound;
  addresses = record { disjoint = λ i j d e a gi gj ne m n. cc };
  routes = record { disjoint = λ i j d e p q gi gj ne m n. cc };
}
