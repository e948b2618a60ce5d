-- ===== src/Network/Nftables/Verdict.antt =====
-- Which packets the rules of a family let through.
use wg_access_server.Prelude.{
  Bool, true, false, not, ◌&&◌, ◌||◌, ◌≡◌, refl, ap, ◌∙◌, Option, none, some, List, [], ◌∷◌, ◌++◌,
  map, arith, elem, any, if◌then◌else◌, ◌==◌,
}
use wg_access_server.Netip.{Addr, Prefix, addr_eq, contains}
use wg_access_server.Network.Nftables.{
  FamilyPolicy, Match, network, address, set, Rule, accept, reject_all, policy_rules,
  all_policy_rules, all_members, policy_block, isolation_rules, forward_rules,
}

abbrev pub matches : Match → Addr → Bool
matches (network p) a = contains p a
matches (address b) a = a == b
matches (set addrs) a = elem a addrs

abbrev pub target_matches : Option Match → Addr → Bool
target_matches none a = true
target_matches (some m) a = matches m a

-- The first rule that matches decides; a packet that none matches is accepted.
unfoldable pub verdict : List Rule → Addr → Addr → Bool
verdict [] src dst = true
verdict (r ∷ rs) src dst =
    let rest = verdict rs src dst in
    if matches r.source src && target_matches r.target dst then r.accepts else rest

module _ (src dst : Addr) where
  -- Some network of a policy that the source is in holds the destination.
  unfoldable pub reaches : List FamilyPolicy → Bool
  reaches [] = false
  reaches (p ∷ ps) =
      elem src p.members && any (λ (n : Prefix). contains n dst) p.networks || reaches ps

  -- Some network of a policy that the destination is in holds the source.
  unfoldable pub answers : List FamilyPolicy → Bool
  answers [] = false
  answers (p ∷ ps) =
      elem dst p.members && any (λ (n : Prefix). contains n src) p.networks || answers ps

  verdict-to_networks :
      (m : Match) (ns : List Prefix) (rest : List Rule)
      → verdict (map (λ (n : Prefix). accept m (network n)) ns ++ rest) src dst
        ≡ (matches m src && any (λ (n : Prefix). contains n dst) ns || verdict rest src dst)
  unfolding verdict any
  verdict-to_networks m [] rest = ground arith
  verdict-to_networks m (n ∷ ns) rest = ground (arith, verdict-to_networks m ns rest)

  verdict-from_networks :
      (m : Match) (ns : List Prefix) (rest : List Rule)
      → verdict (map (λ (n : Prefix). accept (network n) m) ns ++ rest) src dst
        ≡ (matches m dst && any (λ (n : Prefix). contains n src) ns || verdict rest src dst)
  unfolding verdict any
  verdict-from_networks m [] rest = ground arith
  verdict-from_networks m (n ∷ ns) rest = ground (arith, verdict-from_networks m ns rest)

  verdict-to_addresses :
      (m : Match) (addrs : List Addr) (rest : List Rule)
      → verdict (map (λ (a : Addr). accept m (address a)) addrs ++ rest) src dst
        ≡ (matches m src && elem dst addrs || verdict rest src dst)
  unfolding verdict elem
  verdict-to_addresses m [] rest = ground arith
  verdict-to_addresses m (a ∷ addrs) rest = ground (arith, verdict-to_addresses m addrs rest)

  abbrev pub has_policies : List FamilyPolicy → Bool
  has_policies [] = false
  has_policies (p ∷ ps) = true

  append_assoc : (xs ys zs : List Rule) → (xs ++ ys) ++ zs ≡ xs ++ (ys ++ zs)
  append_assoc [] ys zs = refl
  append_assoc (x ∷ xs) ys zs = ap (λ (l : List Rule). x ∷ l) (append_assoc xs ys zs)

  verdict-policy_rules :
      (nat : Bool) (p : FamilyPolicy) (rest : List Rule)
      → verdict (policy_rules nat p ++ rest) src dst ≡ (
          elem src p.members && any (λ (n : Prefix). contains n dst) p.networks
          || not nat && (elem dst p.members && any (λ (n : Prefix). contains n src) p.networks)
          || verdict rest src dst)
  unfolding policy_rules
  verdict-policy_rules true p rest =
      ap (λ (l : List Rule). verdict l src dst)
        (append_assoc (map (λ (n : Prefix). accept (set p.members) (network n)) p.networks) [] rest)
      ∙ ground (arith, verdict-to_networks (set p.members) p.networks rest)
  verdict-policy_rules false p rest =
      let back = map (λ (n : Prefix). accept (network n) (set p.members)) p.networks in
      ap (λ (l : List Rule). verdict l src dst)
        (append_assoc (map (λ (n : Prefix). accept (set p.members) (network n)) p.networks) back
          rest)
      ∙ ground (
        arith,
        verdict-to_networks (set p.members) p.networks (back ++ rest),
        verdict-from_networks (set p.members) p.networks rest,
      )

  verdict-all_policy_rules :
      (nat : Bool) (ps : List FamilyPolicy) (rest : List Rule)
      → verdict (all_policy_rules nat ps ++ rest) src dst
        ≡ (reaches ps || not nat && answers ps || verdict rest src dst)
  unfolding all_policy_rules reaches answers
  verdict-all_policy_rules nat [] rest = ground arith
  verdict-all_policy_rules nat (p ∷ ps) rest =
      ap (λ (l : List Rule). verdict l src dst)
        (append_assoc (policy_rules nat p) (all_policy_rules nat ps) rest)
      ∙ ground (
        arith,
        verdict-policy_rules nat p (all_policy_rules nat ps ++ rest),
        verdict-all_policy_rules nat ps rest,
      )

  -- What a client may send, by whether it is in a policy.
  abbrev pub may_send : Bool → Prefix → List Addr → List FamilyPolicy → List Prefix → Bool
  may_send nat vpn servers policies allowed =
      if elem src (all_members policies)
      then elem dst servers || reaches policies || not nat && answers policies
      else has_policies policies && elem dst servers
        || not nat && answers policies
        || any (λ (n : Prefix). contains n dst) allowed
        || not nat && (contains vpn dst && any (λ (n : Prefix). contains n src) allowed)

  elem-append : (a : Addr) (xs ys : List Addr) → elem a (xs ++ ys) ≡ (elem a xs || elem a ys)
  unfolding elem
  elem-append a [] ys = refl
  elem-append a (x ∷ xs) ys = ground (arith, elem-append a xs ys)

  reaches-eq-false :
      (ps : List FamilyPolicy) → elem src (all_members ps) ≡ false → reaches ps ≡ false
  unfolding reaches all_members
  reaches-eq-false [] h = refl
  reaches-eq-false (p ∷ ps) h =
      ground (arith, elem-append src p.members (all_members ps), reaches-eq-false ps)

  verdict-reject_all :
      (m : Match) (rest : List Rule)
      → verdict (reject_all m ∷ rest) src dst ≡ (not (matches m src) && verdict rest src dst)
  unfolding verdict
  verdict-reject_all m rest = ground arith

  verdict-policy_block :
      (nat : Bool) (vpn : Prefix) (servers : List Addr) (ps : List FamilyPolicy) (rest : List Rule)
      → contains vpn src ≡ true
      → verdict (policy_block nat vpn servers ps ++ rest) src dst ≡ (
          if elem src (all_members ps)
          then elem dst servers || reaches ps || not nat && answers ps
          else has_policies ps && elem dst servers || not nat && answers ps || verdict rest src dst)
  unfolding policy_block
  verdict-policy_block nat vpn servers [] rest h = unfold all_members elem answers in ground arith
  verdict-policy_block nat vpn servers (p ∷ ps) rest h =
      let to_servers = map (λ (a : Addr). accept (network vpn) (address a)) servers in
      let rules = all_policy_rules nat (p ∷ ps) in
      let last = reject_all (set (all_members (p ∷ ps))) in
      let shape : (to_servers ++ (rules ++ last ∷ [])) ++ rest
          ≡ to_servers ++ (rules ++ last ∷ rest) =
        append_assoc to_servers (rules ++ last ∷ []) rest
        ∙ ap (λ (l : List Rule). to_servers ++ l) (append_assoc rules (last ∷ []) rest) in
      ap (λ (l : List Rule). verdict l src dst) shape
      ∙ ground (
        arith,
        h,
        verdict-to_addresses (network vpn) servers (rules ++ last ∷ rest),
        verdict-all_policy_rules nat (p ∷ ps) (last ∷ rest),
        verdict-reject_all (set (all_members (p ∷ ps))) rest,
        reaches-eq-false (p ∷ ps),
      )

  verdict-isolation_rules :
      (isolated : Bool) (vpn : Prefix) (rest : List Rule)
      → contains vpn src ≡ true
      → verdict (isolation_rules isolated vpn ++ rest) src dst
        ≡ (not (isolated && contains vpn dst) && verdict rest src dst)
  unfolding verdict
  verdict-isolation_rules isolated vpn rest h = ground arith

  verdict-allowed :
      (nat : Bool) (vpn : Prefix) (allowed : List Prefix) (rest : List Rule)
      → verdict
          ((if nat then [] else map (λ (n : Prefix). accept (network n) (network vpn)) allowed)
            ++ rest)
          src
          dst
        ≡ (not nat && (contains vpn dst && any (λ (n : Prefix). contains n src) allowed)
            || verdict rest src dst)
  verdict-allowed true vpn allowed rest = ground arith
  verdict-allowed false vpn allowed rest =
      ground (arith, verdict-from_networks (network vpn) allowed rest)

  -- A packet from the VPN is let through if and only if it is not for the VPN while the clients are
  -- isolated, and `may_send` holds: from a member of any policy, it is for an address of the server or
  -- a network of a policy of theirs; from anybody else, it is for an allowed network, or for an
  -- address of the server where there is a policy; without NAT, answers from those networks pass too.
  pub verdict-forward_rules :
      (isolated nat : Bool) (vpn : Prefix) (servers : List Addr) (policies : List FamilyPolicy)
      (allowed : List Prefix)
      → contains vpn src ≡ true
      → verdict (forward_rules isolated nat vpn servers policies allowed) src dst
        ≡ (not (isolated && contains vpn dst) && may_send nat vpn servers policies allowed)
  unfolding forward_rules
  verdict-forward_rules isolated nat vpn servers policies allowed h =
      let end = reject_all (network vpn) ∷ [] in
      let back =
        (if nat then [] else map (λ (n : Prefix). accept (network n) (network vpn)) allowed)
        ++ end in
      let to = map (λ (n : Prefix). accept (network vpn) (network n)) allowed ++ back in
      ground (
        arith,
        h,
        verdict-isolation_rules isolated vpn (policy_block nat vpn servers policies ++ to) h,
        verdict-policy_block nat vpn servers policies to h,
        verdict-to_networks (network vpn) allowed back,
        verdict-allowed nat vpn allowed end,
        verdict-reject_all (network vpn) [],
      )
