-- ===== src/Network/Nftables.antt =====
-- internal/network/nftables.go: the rules that the backend sets up, as data in their order; the text
-- that nft reads is not modelled. A list of networks of one family in `Family` is what
-- splitAllowedIPs of network.go gives.
pub mod Verdict
use wg_access_server.Prelude.{
  ℕ, Bool, true, false, not, ◌&&◌, ◌||◌, Option, none, some, List, [], ◌∷◌, ◌++◌, map, ◌==◌,
  list_eq, nat_eq, leb, if◌then◌else◌, Result, ok, err, ◌>>=◌, ◌>>◌, reject_if, length,
}
use wg_access_server.Prelude.Text.{Text, codes, is_nil, trim_space}
use wg_access_server.Netip.{Addr, Prefix, is4, unmap, masked}
use wg_access_server.Netip.Codec.{Codec}
use wg_access_server.Network.{parse_entry}

pub data RulesError : Type 0 where
  bad_vpn_network bad_policy_name bad_network : RulesError

pub record Policy : Type 0 where
  pub name : Text
  pub allowed_ips : List Text
  pub members : List Text

-- `family`: IPv4 for `true`.
pub record Family : Type 0 where
  pub is_ipv4 : Bool
  pub cidr : Text
  pub nat : Bool
  pub allowed : List Prefix

-- A policy reduced to one family.
pub record FamilyPolicy : Type 0 where
  pub name : Text
  pub networks : List Prefix
  pub members : List Addr

abbrev is_name_rune : ℕ → Bool
is_name_rune c = leb 48 c && leb c 57 || leb 65 c && leb c 90 || c == 95 || leb 97 c && leb c 122

unfoldable pub all_name_runes : Text → Bool
all_name_runes [] = true
all_name_runes (c ∷ s) = is_name_rune c && all_name_runes s

-- `ValidPolicyName`
unfoldable pub valid_policy_name : Text → Bool
unfolding all_name_runes
valid_policy_name name = leb 1 (length name) && leb (length name) 32 && all_name_runes name

-- The two tests agree: both say IPv4, or neither.
abbrev same_family : Bool → Addr → Bool
same_family true addr = is4 (unmap addr)
same_family false addr = not (is4 (unmap addr))

unfoldable pub prefixes_of_family : Codec → Bool → List Text → Result RulesError (List Prefix)
prefixes_of_family c is_ipv4 [] = ok []
prefixes_of_family c is_ipv4 (network ∷ networks) =
    let rest = prefixes_of_family c is_ipv4 networks in
    elim (c.parse_prefix network) [
      | none ↦ err bad_network
      | some p ↦ if same_family is_ipv4 p.addr then (do ps ← rest; ok (masked p ∷ ps)) else rest
    ]

unfoldable pub addresses_of_family : Codec → Bool → List Text → List Addr
addresses_of_family c is_ipv4 [] = []
addresses_of_family c is_ipv4 (address ∷ addresses) =
    let rest = addresses_of_family c is_ipv4 addresses in
    elim (parse_entry c (trim_space address)) [
      | none ↦ rest
      | some addr ↦ if same_family is_ipv4 addr then unmap addr ∷ rest else rest
    ]

unfoldable pub policies_of_family :
    Codec → Bool → List Policy → Result RulesError (List FamilyPolicy)
unfolding valid_policy_name prefixes_of_family addresses_of_family
policies_of_family c is_ipv4 [] = ok []
policies_of_family c is_ipv4 (policy ∷ policies) = do
  reject_if (not (valid_policy_name policy.name)) bad_policy_name
  networks ← prefixes_of_family c is_ipv4 policy.allowed_ips
  rest ← policies_of_family c is_ipv4 policies
  ok (
      record {
        name = policy.name;
        networks = networks;
        members = addresses_of_family c is_ipv4 policy.members;
      }
      ∷ rest)

-- What a rule compares the source or the destination of a packet with.
pub data Match : Type 0 where
  network : Prefix → Match
  address : Addr → Match
  set : List Addr → Match

-- A rule of the forward chain: without a target it is for every destination.
pub record Rule : Type 0 where
  pub source : Match
  pub target : Option Match
  pub accepts : Bool

abbrev pub accept : Match → Match → Rule
accept source target = record { source = source; target = some target; accepts = true }

abbrev pub reject_all : Match → Rule
reject_all source = record { source = source; target = none; accepts = false }

-- The rules of one policy.
unfoldable pub policy_rules : Bool → FamilyPolicy → List Rule
policy_rules nat p =
    map (λ (n : Prefix). accept (set p.members) (network n)) p.networks
    ++ (if nat then [] else map (λ (n : Prefix). accept (network n) (set p.members)) p.networks)

unfoldable pub all_policy_rules : Bool → List FamilyPolicy → List Rule
unfolding policy_rules
all_policy_rules nat [] = []
all_policy_rules nat (p ∷ ps) = policy_rules nat p ++ all_policy_rules nat ps

unfoldable pub all_members : List FamilyPolicy → List Addr
all_members [] = []
all_members (p ∷ ps) = p.members ++ all_members ps

-- The block for the policies, none where there are none.
unfoldable pub policy_block : Bool → Prefix → List Addr → List FamilyPolicy → List Rule
unfolding all_policy_rules all_members
policy_block nat vpn servers [] = []
policy_block nat vpn servers (p ∷ ps) =
    map (λ (a : Addr). accept (network vpn) (address a)) servers
    ++ (all_policy_rules nat (p ∷ ps) ++ reject_all (set (all_members (p ∷ ps))) ∷ [])

abbrev pub isolation_rules : Bool → Prefix → List Rule
isolation_rules isolated vpn =
    if isolated
    then record { source = network vpn; target = some (network vpn); accepts = false } ∷ []
    else []

-- The rules of one family, in their order.
unfoldable pub forward_rules :
    Bool → Bool → Prefix → List Addr → List FamilyPolicy → List Prefix → List Rule
unfolding policy_block
forward_rules isolated nat vpn servers policies allowed =
    isolation_rules isolated vpn
    ++ (policy_block nat vpn servers policies
        ++ (map (λ (n : Prefix). accept (network vpn) (network n)) allowed
            ++ ((if nat then [] else map (λ (n : Prefix). accept (network n) (network vpn)) allowed)
                ++ reject_all (network vpn) ∷ [])))

-- The loop over the families in `nftablesRuleset`.
unfoldable pub forward_chain :
    Codec → Bool → List Policy → List Text → List Family → Result RulesError (List Rule)
unfolding policies_of_family forward_rules addresses_of_family
forward_chain c isolated policies servers [] = ok []
forward_chain c isolated policies servers (f ∷ fs) = elim (c.parse_prefix f.cidr) [
  | none ↦ err bad_vpn_network
  | some p ↦ do
    reduced ← policies_of_family c f.is_ipv4 policies
    rest ← forward_chain c isolated policies servers fs
    ok (
        forward_rules isolated f.nat (masked p) (addresses_of_family c f.is_ipv4 servers) reduced
          f.allowed
        ++ rest)
]
