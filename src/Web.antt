-- ===== src/Web.antt =====
-- internal/web/clientaddr.go: the address that a request is reported to come from. Reading an address
-- without its zone, and taking the port off a host, are arguments.
pub mod Chain
use wg_access_server.Prelude.{
  Bool, true, false, not, Option, none, some, List, [], ◌∷◌, ◌++◌, map, keep, any, ◌==◌,
  if◌then◌else◌, Result, ok, err,
}
use wg_access_server.Prelude.Text.{Text, is_nil, split, trim_space}
use wg_access_server.Netip.{Addr, Prefix, bit_len, contains, masked, unmap}
use wg_access_server.Netip.Codec.{Codec}

pub record Reading : Type 0 where
  pub codec : Codec
  -- `netip.ParseAddr`, and `WithZone("")` of what it gives
  pub parse_zoned : Text → Option Addr
  -- the host of `net.SplitHostPort`
  pub split_host_port : Text → Option Text

-- One entry: a network, or an address as the network that holds only itself.
abbrev own_network : Option Addr → Option Prefix
own_network none = none
own_network (some a) = some (record { addr = a; bits = bit_len a })

unfoldable pub parse_network : Codec → Text → Option Prefix
unfolding masked
parse_network c entry = elim (c.parse_prefix entry) [
  | some p ↦ some (masked p)
  | none ↦ own_network (c.parse_addr entry)
]

abbrev with_network : Text → Option Prefix → Result Text (List Prefix) → Result Text (List Prefix)
with_network entry none rest = err entry
with_network entry (some p) (ok nets) = ok (p ∷ nets)
with_network entry (some p) (err other) = err other

-- `ParseTrustedProxies`: the first entry that is neither is the error.
unfoldable pub parse_trusted_proxies : Codec → List Text → Result Text (List Prefix)
unfolding parse_network
parse_trusted_proxies c [] = ok []
parse_trusted_proxies c (entry ∷ entries) =
    let rest = parse_trusted_proxies c entries in
    let trimmed = trim_space entry in
    if is_nil trimmed then rest else with_network trimmed (parse_network c trimmed) rest

-- `contains`
unfoldable pub is_trusted : List Prefix → Addr → Bool
unfolding contains unmap
is_trusted nets a = any (λ (p : Prefix). contains p (unmap a)) nets

-- What is read of an `http.Request`: the values of X-Forwarded-For, and X-Real-Ip.
pub record Request : Type 0 where
  pub remote_addr : Text
  pub forwarded : List Text
  pub real_ip : Text

-- `forwardedFor`
unfoldable pub entries_of : Text → List Text
entries_of header = keep (λ (e : Text). not (is_nil e)) (map trim_space (split 44 header))

unfoldable pub forwarded_for : List Text → List Text
unfolding entries_of
forwarded_for [] = []
forwarded_for (header ∷ headers) = entries_of header ++ forwarded_for headers

module _ (x : Reading) where
  abbrev addr_of_host : Option Text → Option Addr
  addr_of_host none = none
  addr_of_host (some host) = x.parse_zoned host

  abbrev addr_of_value : Text → Option Addr → Option Addr
  addr_of_value value (some a) = some a
  addr_of_value value none = addr_of_host (x.split_host_port value)

  -- `addrOf`
  unfoldable pub addr_of : Text → Option Addr
  addr_of value =
      let trimmed = trim_space value in
      if is_nil trimmed then none else addr_of_value trimmed (x.parse_zoned trimmed)

  module _ (nets : List Prefix) where
    -- An address that is read and not one of ours.
    abbrev pub unless_trusted : Option Addr → Option Addr
    unless_trusted none = none
    unless_trusted (some a) = if is_trusted nets a then none else some a

    abbrev pub or_else : Option Addr → Option Addr → Option Addr
    or_else (some a) other = some a
    or_else none other = other

    -- The walk through the chain from its end.
    unfoldable pub last_untrusted : List Text → Option Addr
    unfolding addr_of is_trusted
    last_untrusted [] = none
    last_untrusted (e ∷ es) = or_else (last_untrusted es) (unless_trusted (addr_of e))

    abbrev reported : Option Addr → Option Text
    reported none = none
    reported (some a) = some (x.codec.print_addr (unmap a))

    abbrev pub from_proxy : Option Addr → Bool
    from_proxy none = false
    from_proxy (some peer) = is_trusted nets peer

    -- `clientAddr`: `none` leaves the request alone.
    unfoldable pub client_addr : Request → Option Text
    unfolding last_untrusted addr_of is_trusted forwarded_for
    client_addr r =
        if from_proxy (addr_of r.remote_addr)
        then reported (
            or_else (last_untrusted (forwarded_for r.forwarded))
              (unless_trusted (addr_of r.real_ip)))
        else none
