-- ===== src/Examples/Managed.antt =====
-- Runs of the device manager.
use wg_access_server.Prelude.{
  ℕ, ◌+◌, true, false, ◌≡◌, refl, ◌⊎◌, some, List, [], ◌∷◌, elem, ok, list_eq, list_beq,
  list_beq_iff, nat_eq, arith, In, keep, any,
}
use wg_access_server.Prelude.GoMap.{get, put, values}
use wg_access_server.Prelude.Text.{
  Text, codes, join, trim_space, trim_left, trim_right, is_space, is_control, split,
}
use wg_access_server.Netip.{
  v4, Prefix, addr_eq, contains, contains_addr, next, masked, mask, overlaps, overlaps_addr,
}
use wg_access_server.Storage.{Device, device_key}
use wg_access_server.Storage.Keys.{key_str, hex_digit, quote_onto, quote_rune}
use wg_access_server.Storage.Memory.{
  Memory, Outcome, new_memory, added, updated, addresses, save, key_taken, list_devices, get_device,
  set_routes,
}
use wg_access_server.Network.{parse_addresses, parse_entries, parse_entry, split_addresses}
use wg_access_server.Storage.Memory.Wellformed.{IsWellformed}
use wg_access_server.Storage.Memory.Wellformed.Runs.{saves, run, step, run-Sound, new_memory-Sound}
use wg_access_server.Devices.Allocation.{
  free_in, first_free, add_used, used_of, used_addresses, join_families, next_client_address,
  scan_family,
}
use wg_access_server.Devices.Validation.{
  is_base64, is_last_base64, is_wg_key, matches_key, validate_device_name, validate_keys,
}
use wg_access_server.Devices.Allocation.Scan.{IsClient, IsFirstFree, free_in-some, free_in-none}
use wg_access_server.Devices.Manager.{
  Config, Owner, Manual, add_device, add_device_locked, client_address, new_device,
}
use wg_access_server.Devices.Manager.Addresses.{
  HasDisjointAddresses, add_device-HasDisjointAddresses,
}
use wg_access_server.Devices.Routes.{
  set_device_routes, vpn_networks, routes_of, normalize_routes, normalize_each, check_routes,
  check_each, routed_elsewhere,
}
use wg_access_server.Devices.Routes.Normal.{AreRoutes}
use wg_access_server.Devices.Routes.Disjoint.{
  HasDisjointRoutes, set_device_routes-HasDisjointRoutes, set_device_routes-AreRoutes,
}
use wg_access_server.Devices.Requests.{Request, adds, renames, routes, removes, serve}
use wg_access_server.Devices.Requests.Safe.{IsSafe, serve-IsSafe, new_memory-IsSafe}
use wg_access_server.Examples.Addresses.{codec, codec-IsCodec}
use wg_access_server.Examples.Stored.{device}

-- 10.44.0.0
abbrev origin : ℕ
origin = 170655744

abbrev net : ℕ → Prefix
net bits = record { addr = v4 origin; bits = bits }

free_in-some_example : IsFirstFree (net 29) (v4 (origin + 2) ∷ []) (v4 (origin + 3))
unfolding free_in first_free contains contains_addr next masked mask elem
free_in-some_example = free_in-some (net 29) (v4 (origin + 2) ∷ []) (v4 (origin + 3)) refl

second : IsClient (net 30) (v4 (origin + 2))
unfolding contains contains_addr next masked mask
second = record {
  inside = refl;
  in_range = omega arith;
  not_network = λ e. ground arith;
  not_server = λ e. ground arith;
}

free_in-none_example : elem (v4 (origin + 2)) (v4 (origin + 2) ∷ v4 (origin + 3) ∷ []) ≡ true
unfolding free_in first_free contains contains_addr next masked mask elem
free_in-none_example =
    free_in-none (net 30) (v4 (origin + 2) ∷ v4 (origin + 3) ∷ []) refl (v4 (origin + 2)) second

-- A network and an address of the examples' text form.
abbrev cidr : Text
cidr = codec.print_prefix (net 29)

abbrev host : ℕ → Text
host n = codec.print_prefix (record { addr = v4 (origin + n); bits = 32 })

abbrev pub config : Config
config = record { cidr = cidr; cidrv6 = []; max_devices_per_user = 5 }

abbrev ann : Owner
ann = record { subject = codes "ann"; name = []; email = []; provider = [] }

abbrev auto : Manual
auto = record { enabled = false; ipv4 = []; ipv6 = [] }

abbrev key : Text
key = codes "AAAAAAAAAAAAAAAAAAAAAAAAAAAAAAAAAAAAAAAAAAA="

abbrev first : Device
first = device (codes "bob") (codes "pc") (codes "k") (host 2)

abbrev one_device : Memory
one_device = record new_memory { db = (key_str (codes "bob") (codes "pc"), first) ∷ [] }

one_device-HasDisjointAddresses : HasDisjointAddresses codec one_device.db
unfolding get
one_device-HasDisjointAddresses = record {
  disjoint = λ i j d e a gi gj ne m n. ground (
    arith,
    list_beq_iff (key_str (codes "bob") (codes "pc")) i,
    list_beq_iff (key_str (codes "bob") (codes "pc")) j,
  );
}

abbrev second_device : Device
second_device = new_device ann (codes "pc") key [] (host 3) 7

abbrev two_devices : Memory
two_devices = record new_memory {
  db =
      (key_str (codes "bob") (codes "pc"), first)
      ∷ (key_str (codes "ann") (codes "pc"), second_device)
      ∷ [];
}

abbrev after_add : Outcome Device
after_add = record { after = two_devices; events = added second_device ∷ []; value = second_device }

add_second : add_device codec config one_device ann (codes "pc") key [] auto 7 ≡ ok after_add
unfolding add_device add_device_locked trim_space trim_left trim_right is_space is_control split any
    elem keep values list_beq get put contains contains_addr next masked mask addresses
    parse_addresses parse_entries parse_entry split_addresses save key_taken add_used used_of
    used_addresses first_free free_in join_families next_client_address scan_family client_address
    is_base64 is_last_base64 is_wg_key matches_key validate_device_name validate_keys hex_digit
    key_str quote_onto quote_rune list_devices device_key
add_second = refl

add_device-HasDisjointAddresses_example : HasDisjointAddresses codec two_devices.db
add_device-HasDisjointAddresses_example =
    add_device-HasDisjointAddresses codec-IsCodec config one_device ann (codes "pc") key [] auto 7
      after_add (λ p h. ground arith) (λ p h. cc) one_device-HasDisjointAddresses add_second

one_device-IsWellformed : IsWellformed one_device.db
unfolding run step save key_taken put device_key
one_device-IsWellformed = run-Sound new_memory (saves first ∷ []) new_memory-Sound

one_device-HasDisjointRoutes : HasDisjointRoutes codec one_device.db
unfolding get
one_device-HasDisjointRoutes = record {
  disjoint = λ i j d e p q gi gj ne m n. ground (
    arith,
    list_beq_iff (key_str (codes "bob") (codes "pc")) i,
    list_beq_iff (key_str (codes "bob") (codes "pc")) j,
  );
}

-- 192.168.5.0, and an address in its network
abbrev behind : ℕ
behind = 3232236800

abbrev lan : Prefix
lan = record { addr = v4 behind; bits = 24 }

abbrev asked : List Text
asked =
    codec.print_prefix (record { addr = v4 (behind + 7); bits = 24 })
    ∷ []
    ∷ codec.print_prefix lan
    ∷ []

abbrev of_host : List Prefix
of_host = record { addr = v4 (behind + 256); bits = 24 } ∷ []

abbrev routed : Device
routed = record first { routes = codec.print_prefix lan }

abbrev after_routes : Outcome Device
after_routes = record {
  after = record new_memory { db = (key_str (codes "bob") (codes "pc"), routed) ∷ [] };
  events = updated routed ∷ [];
  value = routed;
}

set_routes_of_first :
    set_device_routes codec config (some of_host) one_device (codes "bob") (codes "pc") asked
    ≡ ok after_routes
unfolding set_device_routes normalize_routes normalize_each trim_space trim_left trim_right is_space
    masked mask elem get_device get check_routes check_each vpn_networks overlaps overlaps_addr any
    routed_elsewhere list_devices keep values list_beq set_routes put device_key join hex_digit
    key_str quote_onto quote_rune
set_routes_of_first = refl

set_device_routes-HasDisjointRoutes_example : HasDisjointRoutes codec after_routes.after.db
set_device_routes-HasDisjointRoutes_example =
    set_device_routes-HasDisjointRoutes codec-IsCodec config (some of_host) one_device (codes "bob")
      (codes "pc") asked after_routes one_device-IsWellformed set_routes_of_first
      one_device-HasDisjointRoutes

configured : vpn_networks codec (config.cidr ∷ config.cidrv6 ∷ []) ≡ ok (net 29 ∷ [])
unfolding vpn_networks masked mask
configured = refl

set_device_routes-AreRoutes_example :
    AreRoutes [] (routes_of codec routed)
    × ((p q : Prefix)
        → In p (routes_of codec routed)
        → In q (net 29 ∷ []) ⊎ In q of_host
        → overlaps q p ≡ false)
set_device_routes-AreRoutes_example =
    set_device_routes-AreRoutes codec-IsCodec config (some of_host) one_device (codes "bob")
      (codes "pc") asked after_routes one_device-IsWellformed set_routes_of_first (net 29 ∷ [])
      of_host configured refl

-- The second request takes the first one's address and is refused, and so is the third, for its name.
abbrev chosen : Manual
chosen = record { enabled = true; ipv4 = codec.print_addr (v4 (origin + 2)); ipv6 = [] }

abbrev other_key : Text
other_key = codes "BAAAAAAAAAAAAAAAAAAAAAAAAAAAAAAAAAAAAAAAAAA="

abbrev requests : List Request
requests =
    adds ann (codes "pc") key [] auto 7
    ∷ adds ann (codes "tablet") other_key [] chosen 8
    ∷ adds ann (codes "pc") other_key [] auto 9
    ∷ routes (some of_host) (codes "ann") (codes "pc") asked
    ∷ renames (codes "ann") (codes "pc") (codes "router")
    ∷ adds ann (codes "tablet") other_key [] auto 10
    ∷ removes (codes "ann") (codes "router")
    ∷ []

serve-IsSafe_example : IsSafe codec (serve codec config new_memory requests)
serve-IsSafe_example =
    serve-IsSafe codec-IsCodec config (λ p h. ground arith) (λ p h. cc) new_memory requests
      (new_memory-IsSafe codec)
