-- ===== src/Devices/Firewall/Collected.antt =====
-- What the loops over the devices and their owners' policies collect.
use wg_access_server.Prelude.{
  ℕ, true, ◌≡◌, refl, sym, ap, ◌⊎◌, ◌↔◌, inl, inr, List, [], ◌∷◌, ◌++◌, arith, ◌==◌, list_eq,
  list_beq_iff, nat_eq, In, In-append, In-append_left, In-append_right, Bool-cases, subst,
}
use wg_access_server.Prelude.GoMap.{GoMap, get, put, get-put}
use wg_access_server.Prelude.Text.{Text}
use wg_access_server.Network.{split_addresses}
use wg_access_server.Storage.{Device, access_allowed}
use wg_access_server.Storage.Memory.{Memory}
use wg_access_server.Storage.Memory.Users.{list_users}
use wg_access_server.Devices.Firewall.{
  insert_text, sort_strings, policies_of, entries, add_policies, collect_policies, sort_values,
  firewall_state,
}

In-insert_text : (a x : Text) (xs : List Text) → In a (insert_text x xs) ↔ In a (x ∷ xs)
unfolding insert_text
In-insert_text a x [] = ((λ m. m), (λ m. m))
In-insert_text a x (y ∷ ys) =
    ((λ m. ground (arith, In-insert_text a x ys)), (λ m. ground (arith, In-insert_text a x ys)))

In-sort_strings : (a : Text) (xs : List Text) → In a (sort_strings xs) ↔ In a xs
unfolding sort_strings
In-sort_strings a [] = ((λ m. m), (λ m. m))
In-sort_strings a (x ∷ xs) = (
  (λ m. ground (arith, In-insert_text a x (sort_strings xs), In-sort_strings a xs)),
  (λ m. ground (arith, In-insert_text a x (sort_strings xs), In-sort_strings a xs)),
)

get-sort_values :
    (m : GoMap Text (List Text)) (policy : Text)
    → entries (get (sort_values m) policy) ≡ sort_strings (entries (get m policy))
unfolding sort_values get sort_strings
get-sort_values [] policy = refl
get-sort_values ((k, v) ∷ m) policy = ground (arith, get-sort_values m policy)

module _ (a policy : Text) where
  abbrev Holds : GoMap Text (List Text) → Type 0
  Holds m = In a (entries (get m policy))

  Holds-put :
      (m : GoMap Text (List Text)) (name : Text) (addresses : List Text)
      → Holds (put m name (entries (get m name) ++ addresses))
        ↔ (Holds m ⊎ ((policy ≡ name) × In a addresses))
  Holds-put m name addresses =
      let new = entries (get m name) ++ addresses in
      elim (Bool-cases (name == policy)) [
        | inl e ↦
            let same : name ≡ policy = (list_beq_iff name policy).0 e in
            let at : entries (get (put m name new) policy) ≡ new =
              ground (arith, get-put m name policy new) in
            let here : entries (get m name) ≡ entries (get m policy) =
              ap (λ (k : Text). entries (get m k)) same in
            (
              (λ h.
                  elim (In-append a (entries (get m name)) addresses
                    (subst (λ (l : List Text). In a l) at h)) [
                      | inl l ↦ inl (subst (λ (l : List Text). In a l) here l)
                      | inr r ↦ inr (sym same, r)
                    ]),
              (λ h.
                  subst (λ (l : List Text). In a l) (sym at)
                    (elim h [
                      | inl l ↦
                          In-append_left a (entries (get m name)) addresses
                            (subst (λ (l : List Text). In a l) (sym here) l)
                      | inr (_, r) ↦ In-append_right a (entries (get m name)) addresses r
                    ])),
            )
        | inr e ↦
            let at : entries (get (put m name new) policy) ≡ entries (get m policy) =
              ground (arith, get-put m name policy new) in
            (
              (λ h. inl (subst (λ (l : List Text). In a l) at h)),
              (λ h.
                  subst (λ (l : List Text). In a l) (sym at)
                    (elim h [
                      | inl l ↦ l
                      | inr (same, r) ↦ ground (arith, list_beq_iff name policy)
                    ])),
            )
      ]

  Holds-add_policies :
      (addresses policies : List Text) (m : GoMap Text (List Text))
      → Holds (add_policies addresses policies m)
        ↔ (Holds m ⊎ (In policy policies × In a addresses))
  unfolding add_policies
  Holds-add_policies addresses [] m =
      ((λ h. inl h), (λ h. elim h [ inl l ↦ l | inr (n, _) ↦ elim n [ ] ]))
  Holds-add_policies addresses (name ∷ policies) m =
      let m' = put m name (entries (get m name) ++ addresses) in
      let (to, from) = Holds-add_policies addresses policies m' in
      let (to', from') = Holds-put m name addresses in
      (
        (λ h. elim (to h) [
          | inl l ↦ elim (to' l) [ inl old ↦ inl old | inr (e, n) ↦ inr (inl e, n) ]
          | inr (n, n') ↦ inr (inr n, n')
        ]),
        (λ h. from (elim h [
          | inl old ↦ inl (from' (inl old))
          | inr (inl e, n) ↦ inl (from' (inr (e, n)))
          | inr (inr n, n') ↦ inr (n, n')
        ])),
      )

  -- A device that may connect, of somebody in the policy, with the address.
  abbrev pub Member : GoMap Text (List Text) → List Device → ℕ → Type 0
  Member of_user devices now =
      (d : Device) × In d devices
      × (access_allowed d now ≡ true)
      × In policy (entries (get of_user d.owner))
      × In a (split_addresses d.address)

  Member-cons :
      (of_user : GoMap Text (List Text)) (d : Device) (devices : List Device) (now : ℕ)
      → Member of_user devices now
      → Member of_user (d ∷ devices) now
  Member-cons of_user d devices now (d', n, p, q, r) = (d', inr n, p, q, r)

  Holds-collect_policies :
      (of_user : GoMap Text (List Text)) (devices : List Device) (now : ℕ)
      (m : GoMap Text (List Text))
      → Holds (collect_policies of_user devices now m) ↔ (Holds m ⊎ Member of_user devices now)
  unfolding collect_policies
  Holds-collect_policies of_user [] now m =
      ((λ h. inl h), (λ h. elim h [ inl l ↦ l | inr (_, n, _, _, _) ↦ elim n [ ] ]))
  Holds-collect_policies of_user (d ∷ devices) now m = elim (Bool-cases (access_allowed d now)) [
    | inl allowed ↦
        let addresses = split_addresses d.address in
        let policies = entries (get of_user d.owner) in
        let (to, from) =
          Holds-collect_policies of_user devices now (add_policies addresses policies m) in
        let (to', from') = Holds-add_policies addresses policies m in
        rw allowed (
          (λ h. elim (to h) [
            | inl l ↦ elim (to' l) [
              | inl old ↦ inl old
              | inr (n, n') ↦ inr (d, inl refl, allowed, n, n')
            ]
            | inr member ↦ inr (Member-cons of_user d devices now member)
          ]),
          (λ h. elim h [
            | inl old ↦ from (inl (from' (inl old)))
            | inr (d', inl e, _, n, n') ↦ from (
                inl (
                  from' (
                    inr (
                      subst (λ (x : Device). In policy (entries (get of_user x.owner))) e n,
                      subst (λ (x : Device). In a (split_addresses x.address)) e n',
                    ))))
            | inr (d', inr n, p, q, r) ↦ from (inr (d', n, p, q, r))
          ]),
        )
    | inr refused ↦
        let (to, from) = Holds-collect_policies of_user devices now m in
        rw refused (
          (λ h. elim (to h) [
            | inl old ↦ inl old
            | inr member ↦ inr (Member-cons of_user d devices now member)
          ]),
          (λ h. elim h [
            | inl old ↦ from (inl old)
            | inr (d', inl e, allowed, _, _) ↦
                ground (arith, ap (λ (x : Device). access_allowed x now) e)
            | inr (d', inr n, p, q, r) ↦ from (inr (d', n, p, q, r))
          ]),
        )
  ]

pub firewall_state-collected :
    (s : Memory) (devices : List Device) (now : ℕ) (policy a : Text)
    → In a (entries (get (firewall_state s devices now).policies policy))
      ↔ Member a policy (policies_of (list_users s) []) devices now
unfolding firewall_state get
firewall_state-collected s devices now policy a =
    let of_user = policies_of (list_users s) [] in
    let m = collect_policies of_user devices now [] in
    let (to, from) = Holds-collect_policies a policy of_user devices now [] in
    let (sorted_to, sorted_from) = In-sort_strings a (entries (get m policy)) in
    let at = get-sort_values m policy in
    (
      (λ h. elim (to (sorted_to (subst (λ (l : List Text). In a l) at h))) [
        | inl n ↦ elim n [ ]
        | inr member ↦ member
      ]),
      (λ member. subst (λ (l : List Text). In a l) (sym at) (sorted_from (from (inr member)))),
    )
