-- ===== src/Devices/Allocation.antt =====
-- The address allocation of internal/devices/devices.go: usedAddresses and nextClientAddressLocked.
pub mod Scan
pub mod Fresh
use wg_access_server.Prelude.{
  ℕ, zero, suc, ◌-◌, ◌^◌, Bool, true, false, ◌&&◌, Option, none, some, List, [], ◌∷◌, ◌++◌,
  if◌then◌else◌, Result, ok, err, ◌>>=◌, elem,
}
use wg_access_server.Prelude.Text.{Text, is_nil}
use wg_access_server.Prelude.Text.Lists.{comma_space}
use wg_access_server.Netip.{Addr, Prefix, addr_eq, bit_len, is4, next, masked, contains}
use wg_access_server.Netip.Codec.{Codec}
use wg_access_server.Netip.Ranges.{size}
use wg_access_server.Network.{parse_addresses}
use wg_access_server.Storage.Memory.{Memory, addresses}
use wg_access_server.Devices.{DeviceError, no_free_address, panics}

-- The sets of used addresses, of both families.
pub record Used : Type 0 where
  pub ipv4s : List Addr
  pub ipv6s : List Addr

unfoldable pub add_used : List Addr → Used → Used
add_used [] used = used
add_used (addr ∷ addrs) used = add_used addrs (
    if is4 addr
    then record used { ipv4s = addr ∷ used.ipv4s }
    else record used { ipv6s = addr ∷ used.ipv6s })

unfoldable pub used_of : Codec → List Text → Used → Used
unfolding add_used
used_of c [] used = used
used_of c (stored ∷ rest) used = used_of c rest (add_used (parse_addresses c stored).0 used)

unfoldable pub used_addresses : Codec → Memory → Used
unfolding used_of
used_addresses c s = used_of c (addresses s) (record { ipv4s = []; ipv6s = [] })

-- `for ip := ...; subnet.Contains(ip); ip = ip.Next() { if !used[ip] { return ip } }`
unfoldable pub first_free : ℕ → Prefix → List Addr → Addr → Option Addr
first_free zero subnet used ip = none
first_free (suc fuel) subnet used ip =
    let rest = first_free fuel subnet used (next ip) in
    if contains subnet ip then (if elem ip used then rest else some ip) else none

-- The first address that is neither the network's, nor the server's, nor used.
unfoldable pub free_in : Prefix → List Addr → Option Addr
unfolding first_free
free_in subnet used =
    let start = (masked subnet).addr in
    first_free (size subnet) subnet (next start ∷ start ∷ used) (next (next start))

-- `netip.PrefixFrom(ip, ip.BitLen()).String()`, and "" where there is none.
abbrev pub host_text : Codec → Option Addr → Text
host_text c none = []
host_text c (some ip) = c.print_prefix (record { addr = ip; bits = bit_len ip })

abbrev pub must_parse : Codec → Text → Result DeviceError Prefix
must_parse c cidr = elim (c.parse_prefix cidr) [ none ↦ err panics | some p ↦ ok p ]

-- The part of `nextClientAddressLocked` for one family.
unfoldable pub scan_family : Codec → Text → List Addr → Result DeviceError Text
unfolding free_in
scan_family c cidr used =
    if is_nil cidr
    then ok []
    else do subnet ← must_parse c cidr; ok (host_text c (free_in subnet used))

-- The end of it: an address of each configured family, or an error.
unfoldable pub join_families : Text → Text → Text → Text → Result DeviceError Text
join_families cidr cidrv6 ipv4 ipv6 =
    if is_nil ipv4
    then (if is_nil ipv6
        then err no_free_address
        else if is_nil cidr
        then ok ipv6
        else err no_free_address)
    else (if is_nil ipv6
        then (if is_nil cidrv6 then ok ipv4 else err no_free_address)
        else ok (ipv4 ++ (comma_space ++ ipv6)))

unfoldable pub next_client_address : Codec → Text → Text → Memory → Result DeviceError Text
unfolding used_addresses scan_family join_families
next_client_address c cidr cidrv6 s = do
  let used = used_addresses c s
  ipv4 ← scan_family c cidr used.ipv4s
  ipv6 ← scan_family c cidrv6 used.ipv6s
  join_families cidr cidrv6 ipv4 ipv6
