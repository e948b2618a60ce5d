-- ===== src/Devices/Routes.antt =====
-- The networks behind devices: normalizeRoutes, checkRoutes and SetDeviceRoutes of
-- internal/devices/routes.go. The networks of the host are an argument, `none` where they cannot be
-- read. What runs under the allocation lock runs as one step. `checkRoutes` takes the
-- devices of ListAllDevices; it reads no owner's name, so here it lists the stored ones.
pub mod Normal
pub mod Disjoint
use wg_access_server.Prelude.{
  ℕ, Bool, true, false, not, ◌&&◌, Option, none, some, List, [], ◌∷◌, ◌++◌, map, ◌==◌, list_eq,
  nat_eq, ltb, if◌then◌else◌, Result, ok, err, ◌>>=◌, ◌>>◌, reject_if, length, any, elem,
}
use wg_access_server.Prelude.Text.{Text, is_nil, trim_space, join}
use wg_access_server.Prelude.Text.Lists.{comma_space}
use wg_access_server.Netip.{Prefix, prefix_eq, masked, overlaps}
use wg_access_server.Netip.Codec.{Codec}
use wg_access_server.Storage.{Device, route_list}
use wg_access_server.Storage.Memory.{Memory, Outcome, list_devices, get_device, set_routes}
use wg_access_server.Devices.{
  DeviceError, invalid, misconfigured, host_unknown, too_many_routes, not_a_network, default_route,
  overlaps_vpn, overlaps_host, overlaps_device,
}
use wg_access_server.Devices.Manager.{Config, from_storage}

abbrev max_routes_per_device : ℕ
max_routes_per_device = 25

-- The loop of `normalizeRoutes`, with the networks that were seen.
unfoldable pub normalize_each : Codec → List Text → List Prefix → Result DeviceError (List Prefix)
normalize_each c [] seen = ok []
normalize_each c (route ∷ routes) seen =
    let rest = normalize_each c routes seen in
    if is_nil (trim_space route) then rest else elim (c.parse_prefix (trim_space route)) [
      | none ↦ err (invalid not_a_network)
      | some p ↦
          let later = normalize_each c routes (masked p ∷ seen) in
          if p.bits == 0
          then err (invalid default_route)
          else if elem (masked p) seen
          then rest
          else (do ps ← later; ok (masked p ∷ ps))
    ]

unfoldable pub normalize_routes : Codec → List Text → Result DeviceError (List Prefix)
unfolding normalize_each
normalize_routes c routes = do
  reject_if (ltb max_routes_per_device (length routes)) (invalid too_many_routes)
  normalize_each c routes []

-- The configured networks of the VPN.
unfoldable pub vpn_networks : Codec → List Text → Result DeviceError (List Prefix)
vpn_networks c [] = ok []
vpn_networks c (cidr ∷ cidrs) =
    let rest = vpn_networks c cidrs in
    if is_nil cidr then rest else elim (c.parse_prefix cidr) [
      | none ↦ err misconfigured
      | some p ↦ do ps ← rest; ok (masked p ∷ ps)
    ]

-- The routes that can be read; the others are passed over.
unfoldable pub parsed_routes : Codec → List Text → List Prefix
parsed_routes c [] = []
parsed_routes c (taken ∷ rest) =
    let ps = parsed_routes c rest in elim (c.parse_prefix taken) [ none ↦ ps | some p ↦ p ∷ ps ]

abbrev pub routes_of : Codec → Device → List Prefix
routes_of c d = parsed_routes c (route_list d)

abbrev pub same_device : Device → Device → Bool
same_device other device = other.owner == device.owner && other.name == device.name

-- Another device has a route that overlaps.
unfoldable pub routed_elsewhere : Codec → List Device → Device → Prefix → Bool
unfolding parsed_routes
routed_elsewhere c [] device route = false
routed_elsewhere c (other ∷ devices) device route =
    let rest = routed_elsewhere c devices device route in
    if same_device other device
    then rest
    else if any (λ p. overlaps p route) (routes_of c other)
    then true
    else rest

unfoldable pub check_each :
    Codec
    → List Prefix
    → List Prefix
    → List Device
    → Device
    → List Prefix
    → Result DeviceError (Unit {0})
unfolding routed_elsewhere
check_each c vpn host devices device [] = ok tt
check_each c vpn host devices device (route ∷ routes) = do
  reject_if (any (λ p. overlaps p route) vpn) (invalid overlaps_vpn)
  reject_if (any (λ p. overlaps p route) host) (invalid overlaps_host)
  reject_if (routed_elsewhere c devices device route) (invalid overlaps_device)
  check_each c vpn host devices device routes

abbrev host_or_error : Option (List Prefix) → Result DeviceError (List Prefix)
host_or_error none = err host_unknown
host_or_error (some ps) = ok ps

unfoldable pub check_routes :
    Codec
    → Config
    → Option (List Prefix)
    → Memory
    → List Prefix
    → Device
    → Result DeviceError (Unit {0})
unfolding vpn_networks check_each list_devices
check_routes c config host_networks s [] device = ok tt
check_routes c config host_networks s (route ∷ routes) device = do
  vpn ← vpn_networks c (config.cidr ∷ config.cidrv6 ∷ [])
  host ← host_or_error host_networks
  check_each c vpn host (list_devices s []) device (route ∷ routes)

-- `strings.Join(routeStrings(routes), ", ")`
abbrev pub route_text : Codec → List Prefix → Text
route_text c routes = join comma_space (map c.print_prefix routes)

unfoldable pub set_device_routes :
    Codec
    → Config
    → Option (List Prefix)
    → Memory
    → Text
    → Text
    → List Text
    → Result DeviceError (Outcome Device)
unfolding normalize_routes get_device check_routes
set_device_routes c config host_networks s user name routes = do
  normalized ← normalize_routes c routes
  device ← from_storage (get_device s user name)
  check_routes c config host_networks s normalized device
  from_storage (set_routes s device (route_text c normalized))
