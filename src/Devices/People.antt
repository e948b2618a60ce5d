-- ===== src/Devices/People.antt =====
-- `ListUsers` of internal/devices/devices.go: whoever signed in, and whoever owns a device.
use wg_access_server.Prelude.{
  ℕ, Bool, false, Option, none, some, List, [], ◌∷◌, ◌++◌, ◌==◌, list_eq, nat_eq, if◌then◌else◌,
  any,
}
use wg_access_server.Prelude.Text.{Text, is_nil}
use wg_access_server.Storage.{Device, User, policy_list, two_factor_enabled}
use wg_access_server.Storage.Memory.{Memory, list_devices}
use wg_access_server.Storage.Memory.Users.{list_users}
use wg_access_server.Devices.Firewall.{text_leb}

-- `devices.User`
pub record Person : Type 0 where
  pub name : Text
  pub display_name : Text
  pub last_login : Option ℕ
  pub policies : List Text
  pub two_factor : Bool

abbrev pub signed_in : User → Person
signed_in user = record {
  name = user.subject;
  display_name = user.name;
  last_login = some user.last_login;
  policies = policy_list user;
  two_factor = two_factor_enabled user;
}

-- The people that have signed in.
unfoldable pub stored_people : List User → List Person
stored_people [] = []
stored_people (user ∷ users) = signed_in user ∷ stored_people users

abbrev pub is_owner : Text → Person → Bool
is_owner owner p = p.name == owner

-- The entry of a device's owner; the name of the device counts where the entry has none. Among two
-- people of one name the last listed is meant, and there are none such, since users stand under
-- their subjects.
unfoldable pub with_device : Device → List Person → List Person
with_device d [] = []
with_device d (p ∷ people) =
    let rest = with_device d people in
    if p.name == d.owner
    then (if is_nil p.display_name then record p { display_name = d.owner_name } else p) ∷ people
    else p ∷ rest

abbrev pub owner_only : Device → Person
owner_only d = record {
  name = d.owner;
  display_name = d.owner_name;
  last_login = none;
  policies = [];
  two_factor = false;
}

-- The loop over the devices.
unfoldable pub with_owners : List Device → List Person → List Person
unfolding with_device
with_owners [] people = people
with_owners (d ∷ devices) people =
    with_owners devices
      (if any (is_owner d.owner) people then with_device d people else people ++ owner_only d ∷ [])

-- Sorting by the name.
unfoldable pub insert_person : Person → List Person → List Person
unfolding text_leb
insert_person p [] = p ∷ []
insert_person p (q ∷ people) =
    let rest = insert_person p people in if text_leb p.name q.name then p ∷ q ∷ people else q ∷ rest

unfoldable pub sort_people : List Person → List Person
unfolding insert_person
sort_people [] = []
sort_people (p ∷ people) = insert_person p (sort_people people)

unfoldable pub list_people : Memory → List Person
unfolding stored_people with_owners sort_people list_users list_devices
list_people s = sort_people (with_owners (list_devices s []) (stored_people (list_users s)))
