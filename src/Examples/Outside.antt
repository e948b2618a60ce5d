-- ===== src/Examples/Outside.antt =====
-- A request through a proxy, and a pass over the inactive devices.
use wg_access_server.Prelude.{
  ℕ, ◌+◌, ◌≡◌, refl, none, some, List, [], ◌∷◌, ◌++◌, list_eq, nat_eq, keep, any, if◌then◌else◌,
}
use wg_access_server.Prelude.GoMap.{get}
use wg_access_server.Prelude.Text.{Text, split, trim_space, trim_left, trim_right, is_space}
use wg_access_server.Netip.{Prefix, v4, unmap, contains_addr}
use wg_access_server.Storage.{device_key}
use wg_access_server.Devices.Inactive.{check_and_remove}
use wg_access_server.Devices.Inactive.Gone.{inactive_at, get-check_and_remove}
use wg_access_server.Web.{
  Reading, Request, addr_of, is_trusted, from_proxy, forwarded_for, client_addr,
}
use wg_access_server.Web.Chain.{client_addr-chain}
use wg_access_server.Examples.Addresses.{codec}
use wg_access_server.Examples.Blocking.{laptop, stored, stored-Sound}

abbrev reading : Reading
reading = record { codec = codec; parse_zoned = codec.parse_addr; split_host_port = λ t. none }

-- The address of a host in 10.44.0.0/24.
abbrev inside : ℕ → Text
inside n = codec.print_addr (v4 (170655744 + n))

abbrev outside : ℕ → Text
outside n = codec.print_addr (v4 n)

abbrev nets : List Prefix
nets = record { addr = v4 170655744; bits = 24 } ∷ []

-- The client, and before it what the client made up.
abbrev request : Request
request = record {
  remote_addr = inside 1;
  forwarded = (outside 7 ++ 44 ∷ outside 9 ++ 44 ∷ inside 2) ∷ [];
  real_ip = outside 3;
}

chain : forwarded_for request.forwarded ≡ (outside 7 ∷ []) ++ outside 9 ∷ inside 2 ∷ []
unfolding forwarded_for split trim_space trim_left trim_right is_space keep
chain = refl

passed : addr_of reading (inside 2) ≡ some (v4 170655746)
unfolding addr_of trim_space trim_left trim_right is_space
passed = refl

client_addr-chain_example : client_addr reading nets request ≡ (
    if from_proxy reading nets (addr_of reading request.remote_addr)
    then some (codec.print_addr (unmap (v4 9)))
    else none)
unfolding addr_of trim_space trim_left trim_right is_space is_trusted any contains_addr unmap
client_addr-chain_example =
    client_addr-chain reading nets request (outside 7 ∷ []) (outside 9) (inside 2 ∷ []) (v4 9) chain
      (refl, tt) refl refl

get-check_and_remove_example : get (check_and_remove 100 500 stored).db (device_key laptop) ≡ (
    if inactive_at 100 500 (get stored.db (device_key laptop))
    then none
    else get stored.db (device_key laptop))
get-check_and_remove_example = get-check_and_remove 100 500 stored (device_key laptop) stored-Sound
