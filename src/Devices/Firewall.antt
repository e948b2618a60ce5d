-- ===== src/Devices/Firewall.antt =====
-- What the firewall is built from: firewallState, FirewallState.key and syncFirewallState of
-- internal/devices/routes.go. The function that rebuilds the firewall is a parameter, which says
-- whether it succeeded. The names that ListAllDevices fills in are not read here.
pub mod Collected
pub mod Members
use wg_access_server.Prelude.{
  ℕ, Bool, true, false, not, ◌&&◌, ◌||◌, Option, none, some, List, [], ◌∷◌, ◌++◌, map, ◌==◌,
  list_eq, nat_eq, ltb, if◌then◌else◌,
}
use wg_access_server.Prelude.GoMap.{GoMap, get, put}
use wg_access_server.Prelude.Text.{Text, codes, join}
use wg_access_server.Network.{split_addresses}
use wg_access_server.Storage.{Device, User, access_allowed, route_list, policy_list}
use wg_access_server.Storage.Memory.{Memory}
use wg_access_server.Storage.Memory.Users.{list_users}

pub record FirewallState : Type 0 where
  pub routed : List Text
  pub policies : GoMap Text (List Text)

-- The order of strings.
unfoldable pub text_leb : Text → Text → Bool
text_leb [] t = true
text_leb (c ∷ s) [] = false
text_leb (c ∷ s) (d ∷ t) = ltb c d || c == d && text_leb s t

unfoldable pub insert_text : Text → List Text → List Text
insert_text x [] = x ∷ []
insert_text x (y ∷ ys) =
    let rest = insert_text x ys in if text_leb x y then x ∷ y ∷ ys else y ∷ rest

-- `sort.Strings`
unfoldable pub sort_strings : List Text → List Text
unfolding insert_text
sort_strings [] = []
sort_strings (x ∷ xs) = insert_text x (sort_strings xs)

-- The policies of those users who are in any.
unfoldable pub policies_of : List User → GoMap Text (List Text) → GoMap Text (List Text)
policies_of [] m = m
policies_of (user ∷ users) m =
    policies_of users (elim (policy_list user) [ [] ↦ m | p ∷ ps ↦ put m user.subject (p ∷ ps) ])

-- `m[k]` for lists: the empty list where there is none.
abbrev pub entries : Option (List Text) → List Text
entries none = []
entries (some l) = l

-- The loop over the policies of one device's owner.
unfoldable pub add_policies :
    List Text → List Text → GoMap Text (List Text) → GoMap Text (List Text)
add_policies addresses [] m = m
add_policies addresses (policy ∷ policies) m =
    add_policies addresses policies (put m policy (entries (get m policy) ++ addresses))

-- The loop over the devices.
unfoldable pub collect_policies :
    GoMap Text (List Text) → List Device → ℕ → GoMap Text (List Text) → GoMap Text (List Text)
unfolding add_policies
collect_policies of_user [] now m = m
collect_policies of_user (d ∷ devices) now m = collect_policies of_user devices now (
    if access_allowed d now
    then add_policies (split_addresses d.address) (entries (get of_user d.owner)) m
    else m)

unfoldable pub collect_routes : List Device → List Text
collect_routes [] = []
collect_routes (d ∷ devices) = route_list d ++ collect_routes devices

unfoldable pub sort_values : GoMap Text (List Text) → GoMap Text (List Text)
sort_values [] = []
sort_values ((k, v) ∷ m) = (k, sort_strings v) ∷ sort_values m

unfoldable pub firewall_state : Memory → List Device → ℕ → FirewallState
unfolding policies_of collect_policies collect_routes sort_values sort_strings list_users
firewall_state s devices now = record {
  routed = sort_strings (collect_routes devices);
  policies = sort_values (collect_policies (policies_of (list_users s) []) devices now []);
}

abbrev names_of : GoMap Text (List Text) → List Text
names_of [] = []
names_of ((k, v) ∷ m) = k ∷ names_of m

unfoldable pub policy_keys : GoMap Text (List Text) → List Text → Text
policy_keys m [] = []
policy_keys m (name ∷ names) =
    codes "|"
    ++ (name ++ (codes "=" ++ (join (codes ",") (entries (get m name)) ++ policy_keys m names)))

-- `key`
unfoldable pub firewall_key : FirewallState → Text
unfolding policy_keys
firewall_key f =
    join (codes ",") f.routed ++ policy_keys f.policies (sort_strings (names_of f.policies))

-- `syncFirewallState`: the state that is remembered afterwards.
unfoldable pub sync_firewall_state :
    Option (FirewallState → Bool) → Memory → List Device → ℕ → FirewallState → FirewallState
unfolding firewall_state firewall_key
sync_firewall_state none s devices now old = old
sync_firewall_state (some rebuild) s devices now old =
    let state = firewall_state s devices now in
    if firewall_key state == firewall_key old then old else if rebuild state then state else old
