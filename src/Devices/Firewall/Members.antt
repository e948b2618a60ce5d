-- ===== src/Devices/Firewall/Members.antt =====
-- Whose addresses stand in a policy.
use wg_access_server.Prelude.{
  ℕ, false, ==_refl, Option, none, some, ◌∙◌, ◌≡◌, refl, sym, ap, ◌↔◌, inl, inr, List, [], ◌∷◌,
  arith, ◌==◌, list_eq, list_beq_iff, nat_eq, In, Bool-cases, subst,
}
use wg_access_server.Prelude.GoMap.{GoMap, get, put, get-put, values, IsMap}
use wg_access_server.Prelude.Text.{Text}
use wg_access_server.Network.{split_addresses}
use wg_access_server.Storage.{Device, User, policy_list}
use wg_access_server.Storage.Memory.{Memory}
use wg_access_server.Storage.Memory.Users.{list_users}
use wg_access_server.Devices.Sync.Stored.{MayConnect, access_allowed-MayConnect}
use wg_access_server.Devices.Firewall.{policies_of, entries, firewall_state}
use wg_access_server.Devices.Firewall.Collected.{firewall_state-collected}

-- Every user stands under the own subject.
abbrev pub AreKeyed : GoMap Text User → Type 0
AreKeyed [] = Unit
AreKeyed ((k, user) ∷ m) = (user.subject ≡ k) × AreKeyed m

-- What `policies_of` notes for one user.
abbrev noted : GoMap Text (List Text) → Text → List Text → GoMap Text (List Text)
noted m subject [] = m
noted m subject (p ∷ ps) = put m subject (p ∷ ps)

get-noted-other :
    (m : GoMap Text (List Text)) (subject owner : Text) (ps : List Text)
    → (subject == owner) ≡ false
    → get (noted m subject ps) owner ≡ get m owner
get-noted-other m subject owner [] other = refl
get-noted-other m subject owner (p ∷ ps) other = ground (arith, get-put m subject owner (p ∷ ps))

entries-noted :
    (m : GoMap Text (List Text)) (owner : Text) (ps : List Text)
    → get m owner ≡ none
    → entries (get (noted m owner ps) owner) ≡ ps
entries-noted m owner [] absent = rw absent refl
entries-noted m owner (p ∷ ps) absent =
    ground (arith, get-put m owner owner (p ∷ ps), ==_refl owner)

-- The policies of a user as they are stored, none for somebody who is not.
abbrev stored_policies : Option User → List Text
stored_policies none = []
stored_policies (some user) = policy_list user

module _ (owner : Text) where
  policies_of-absent :
      (users : GoMap Text User) (m : GoMap Text (List Text))
      → AreKeyed users
      → get users owner ≡ none
      → get (policies_of (values users) m) owner ≡ get m owner
  unfolding values get policies_of
  policies_of-absent [] m keyed absent = refl
  policies_of-absent ((k, user) ∷ users) m (own, keyed) absent =
      let other : (user.subject == owner) ≡ false =
        ground (arith, own, absent, list_beq_iff k owner, list_beq_iff user.subject owner) in
      let tail : get users owner ≡ none = ground (arith, absent, list_beq_iff k owner) in
      policies_of-absent users (noted m user.subject (policy_list user)) keyed tail
      ∙ get-noted-other m user.subject owner (policy_list user) other

  entries-policies_of :
      (users : GoMap Text User) (m : GoMap Text (List Text))
      → AreKeyed users
      → IsMap users
      → get m owner ≡ none
      → entries (get (policies_of (values users) m) owner) ≡ stored_policies (get users owner)
  unfolding values get policies_of
  entries-policies_of [] m keyed w absent = rw absent refl
  entries-policies_of ((k, user) ∷ users) m (own, keyed) (once, w) absent =
      let m' = noted m user.subject (policy_list user) in
      elim (Bool-cases (k == owner)) [
        | inl e ↦
            let here : k ≡ owner = (list_beq_iff k owner).0 e in
            rw e (
              ap entries (
                policies_of-absent users m' keyed
                  (ap (λ (t : Text). get users t) (sym here) ∙ once))
              ∙ subst
                  (λ (t : Text).
                    entries (get (noted m t (policy_list user)) owner) ≡ policy_list user)
                  (sym (own ∙ here)) (entries-noted m owner (policy_list user) absent))
        | inr e ↦
            let other : (user.subject == owner) ≡ false =
              ground (arith, own, e, list_beq_iff k owner, list_beq_iff user.subject owner) in
            rw e (
              entries-policies_of users m' keyed w
                (get-noted-other m user.subject owner (policy_list user) other ∙ absent))
      ]

-- A device that is not blocked and whose expiry, if there is one, is still to come has the address,
-- and its owner is stored with the policy among those of the user.
abbrev pub IsMember : Memory → List Device → ℕ → Text → Text → Type 0
IsMember s devices now policy a =
    (d : Device) × (user : User) × In d devices
    × MayConnect d now
    × (get s.users d.owner ≡ some user)
    × In policy (policy_list user)
    × In a (split_addresses d.address)

In-stored_policies :
    (policy : Text) (o : Option User)
    → In policy (stored_policies o)
    → (user : User) × (o ≡ some user) × In policy (policy_list user)
In-stored_policies policy none n = elim n [ ]
In-stored_policies policy (some user) n = (user, refl, n)

-- Of users who are stored under their own subjects, each subject once: an address stands in a policy
-- of the firewall's state if and only if it is an address of one of the given devices that is not
-- blocked and whose expiry, if there is one, is still to come, and whose owner is stored as being in
-- the policy.
pub firewall_state-Member :
    (s : Memory) (devices : List Device) (now : ℕ) (policy a : Text)
    → IsMap s.users
    → AreKeyed s.users
    → In a (entries (get (firewall_state s devices now).policies policy))
      ↔ IsMember s devices now policy a
unfolding list_users get
firewall_state-Member s devices now policy a w keyed =
    let (to, from) = firewall_state-collected s devices now policy a in
    (
      (λ h.
          let (d, n, allowed, p, n') = to h in
          let (user, stored, p') = In-stored_policies policy (get s.users d.owner) (
            subst (λ (l : List Text). In policy l)
              (entries-policies_of d.owner s.users [] keyed w refl) p) in
          (d, user, n, (access_allowed-MayConnect d now).0 allowed, stored, p', n')),
      (λ (d, user, n, may, stored, p, n'). from (
        d,
        n,
        (access_allowed-MayConnect d now).1 may,
        subst (λ (l : List Text). In policy l)
            (sym (entries-policies_of d.owner s.users [] keyed w refl ∙ ap stored_policies stored))
            p,
        n',
      )),
    )
