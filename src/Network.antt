-- ===== src/Network.antt =====
-- internal/network/network.go
pub mod Nftables
use wg_access_server.Prelude.{Option, none, some, List, [], ◌∷◌, map}
use wg_access_server.Prelude.Text.{Text, split, trim_space}
use wg_access_server.Netip.{Addr}
use wg_access_server.Netip.Codec.{Codec}

-- `SplitAddresses`
unfoldable pub split_addresses : Text → List Text
split_addresses addresses = map trim_space (split 44 addresses)

-- One entry: a prefix, else an address.
unfoldable pub parse_entry : Codec → Text → Option Addr
parse_entry c entry = elim (c.parse_prefix entry) [
  | some prefix ↦ some prefix.addr
  | none ↦ c.parse_addr entry
]

abbrev sort_entry : Text → Option Addr → List Addr × List Text → List Addr × List Text
sort_entry entry none (parsed, unusable) = (parsed, entry ∷ unusable)
sort_entry entry (some addr) (parsed, unusable) = (addr ∷ parsed, unusable)

-- The loop of `ParseAddresses`: the addresses, and the entries that are none.
unfoldable pub parse_entries : Codec → List Text → List Addr × List Text
unfolding parse_entry
parse_entries c [] = ([], [])
parse_entries c (entry ∷ entries) = sort_entry entry (parse_entry c entry) (parse_entries c entries)

unfoldable pub parse_addresses : Codec → Text → List Addr × List Text
unfolding parse_entries split_addresses
parse_addresses c addresses = parse_entries c (split_addresses addresses)
