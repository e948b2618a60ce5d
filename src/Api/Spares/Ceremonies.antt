-- ===== src/Api/Spares/Ceremonies.antt =====
-- What belongs to an account: its passkeys.
use wg_access_server.Prelude.{
  ℕ, ◌+◌, true, ◌||◌, ◌≡◌, Option, none, some, List, [], ◌==◌, list_eq, list_beq_iff, nat_eq, arith,
  Result, ok, err, Option-cases, Bool-cases, Result-cases, inl, inr,
}
use wg_access_server.Prelude.GoMap.{get}
use wg_access_server.Prelude.Text.{Text, is_nil}
use wg_access_server.Storage.{User}
use wg_access_server.Storage.Memory.{Memory, Outcome}
use wg_access_server.Storage.Memory.Users.{set_webauthn_challenge}
use wg_access_server.Storage.Memory.Passkeys.{add_passkey, rename_passkey, delete_passkey}
use wg_access_server.Users.Passkeys.{
  PasskeyError, Site, WebAuthn, challenge_for, lapsed, check_site, passkey_user, keep_challenge,
  take_challenge, user_and_challenge, begun, begin_registration, registered, finish_registration,
  remove, relabel, passkey_name,
}
use wg_access_server.Api.Spares.{
  Keeps, Keeps-refl, Keeps-trans, Keeps-eq, Keeps-users_put, Keeps-passkeys_put,
  Keeps-passkeys_delete,
}

module _ (s : Memory) (subject : Text) where
  challenge-Keeps :
      (text : Text) (until : Option ℕ) (o : Outcome Unit)
      → set_webauthn_challenge s subject text until ≡ ok o
      → Keeps subject s o.after
  unfolding set_webauthn_challenge
  challenge-Keeps text until o h = elim (Option-cases (get s.users subject)) [
    | inl e ↦ ground arith
    | inr (user, e) ↦ Keeps-eq (ground (arith, h)) (
        Keeps-users_put subject s
          (record user { webauthn_challenge = text; webauthn_challenge_until = until }))
  ]

module _ (wa : WebAuthn) (s : Memory) (subject : Text) where
  begun-Keeps :
      (begin : Option (Option Text × wa.Exchange)) (now : ℕ)
      → Keeps subject s (begun wa s subject begin now).0
  unfolding keep_challenge
  begun-Keeps none now = Keeps-refl subject s
  begun-Keeps (some (options, exchange)) now = elim (Option-cases (wa.encode_exchange exchange)) [
    | inl e ↦ Keeps-eq (ground (arith, Option-cases options)) (Keeps-refl subject s)
    | inr (text, e) ↦
        elim (Result-cases (set_webauthn_challenge s subject text (some (now + challenge_for)))) [
          | inr (x, e') ↦ Keeps-eq (ground (arith, Option-cases options)) (Keeps-refl subject s)
          | inl (o, e') ↦
              Keeps-eq (ground (arith, Option-cases options))
                (challenge-Keeps s subject text (some (now + challenge_for)) o e')
        ]
  ]

  pub begin_registration-Keeps :
      (site : Site) (now : ℕ) → Keeps subject s (begin_registration wa site s subject now).0
  unfolding begin_registration
  begin_registration-Keeps site now = elim (Result-cases (passkey_user wa s subject)) [
    | inr (x, e) ↦ Keeps-eq (ground arith) (Keeps-refl subject s)
    | inl ((user, known), e) ↦ elim (Result-cases (check_site wa site)) [
      | inr (x, e') ↦ Keeps-eq (ground arith) (Keeps-refl subject s)
      | inl (u, e') ↦
          Keeps-eq (ground arith) (begun-Keeps (wa.begin_registration site user known) now)
    ]
  ]

  take_challenge-Keeps :
      (user : User) (now : ℕ) → Keeps subject s (take_challenge wa s subject user now).0
  unfolding take_challenge
  take_challenge-Keeps user now =
      elim (Bool-cases
        (is_nil user.webauthn_challenge || lapsed wa user.webauthn_challenge_until now)) [
          | inl over ↦ Keeps-eq (ground arith) (Keeps-refl subject s)
          | inr there ↦ elim (Option-cases (wa.decode_exchange user.webauthn_challenge)) [
            | inl e ↦ Keeps-eq (ground arith) (Keeps-refl subject s)
            | inr (exchange, e) ↦ elim (Result-cases (set_webauthn_challenge s subject [] none)) [
              | inr (x, e') ↦ Keeps-eq (ground arith) (Keeps-refl subject s)
              | inl (o, e') ↦ Keeps-eq (ground arith) (challenge-Keeps s subject [] none o e')
            ]
          ]
        ]

  user_and_challenge-Keeps : (now : ℕ) → Keeps subject s (user_and_challenge wa s subject now).0
  unfolding user_and_challenge
  user_and_challenge-Keeps now = elim (Result-cases (passkey_user wa s subject)) [
    | inr (x, e) ↦ Keeps-eq (ground arith) (Keeps-refl subject s)
    | inl (user, e) ↦
        Keeps-eq (ground (arith, Result-cases (take_challenge wa s subject user.0 now).1))
          (take_challenge-Keeps user.0 now)
  ]

  -- The registration, once the site and the answer are accepted.
  created-Keeps :
      (site : Site) (name answer : Text) (now : ℕ) (m : Memory) (user : User)
      (known : List wa.Credential) (exchange : wa.Exchange)
      → check_site wa site ≡ ok tt
      → wa.reads_creation answer ≡ true
      → Keeps subject m
          (registered wa site subject name answer now (m, ok ((user, known), exchange))).0
  unfolding add_passkey
  created-Keeps site name answer now m user known exchange good read =
      elim (Option-cases (wa.create_credential site user known exchange answer)) [
        | inl e ↦ Keeps-eq (ground arith) (Keeps-refl subject m)
        | inr (c, e) ↦ elim (Option-cases (wa.encode_credential c)) [
          | inl e' ↦ Keeps-eq (ground arith) (Keeps-refl subject m)
          | inr (text, e') ↦ elim (Option-cases (get m.passkeys (wa.credential_id c))) [
            | inr (p, taken) ↦ Keeps-eq (ground arith) (Keeps-refl subject m)
            | inl free ↦ Keeps-eq (ground arith) (
                Keeps-passkeys_put subject m (wa.credential_id c)
                  (record {
                    id = wa.credential_id c;
                    owner = subject;
                    name = passkey_name name;
                    credential = text;
                    created_at = now;
                    last_used_at = none;
                  })
                  (λ q h. ground arith))
          ]
        ]
      ]

  registered-Keeps :
      (site : Site) (name answer : Text) (now : ℕ)
      (t : Memory × Result PasskeyError ((User × List wa.Credential) × wa.Exchange))
      → Keeps subject t.0 (registered wa site subject name answer now t).0
  registered-Keeps site name answer now (m, err e) = Keeps-refl subject m
  registered-Keeps site name answer now (m, ok ((user, known), exchange)) =
      elim (Result-cases (check_site wa site)) [
        | inr (x, e) ↦ Keeps-eq (ground arith) (Keeps-refl subject m)
        | inl (u, e) ↦ elim (Bool-cases (wa.reads_creation answer)) [
          | inr unread ↦ Keeps-eq (ground arith) (Keeps-refl subject m)
          | inl read ↦ created-Keeps site name answer now m user known exchange e read
        ]
      ]

  pub finish_registration-Keeps :
      (site : Site) (name answer : Text) (now : ℕ)
      → Keeps subject s (finish_registration wa site s subject name answer now).0
  unfolding finish_registration
  finish_registration-Keeps site name answer now =
      Keeps-trans (user_and_challenge-Keeps now)
        (registered-Keeps site name answer now (user_and_challenge wa s subject now))

  pub remove-Keeps : (id : Text) → Keeps subject s (remove s subject id).0
  unfolding remove delete_passkey
  remove-Keeps id = elim (Option-cases (get s.passkeys id)) [
    | inl e ↦ Keeps-eq (ground arith) (Keeps-refl subject s)
    | inr (p, e) ↦ elim (Bool-cases (p.owner == subject)) [
      | inr other ↦ Keeps-eq (ground arith) (Keeps-refl subject s)
      | inl own ↦
          Keeps-eq (ground arith) (
            Keeps-passkeys_delete subject s id
              (λ q h. ground (arith, list_beq_iff p.owner subject)))
    ]
  ]

  pub relabel-Keeps : (id name : Text) → Keeps subject s (relabel s subject id name).0
  unfolding relabel rename_passkey
  relabel-Keeps id name = elim (Option-cases (get s.passkeys id)) [
    | inl e ↦ Keeps-eq (ground arith) (Keeps-refl subject s)
    | inr (p, e) ↦ elim (Bool-cases (p.owner == subject)) [
      | inr other ↦ Keeps-eq (ground arith) (Keeps-refl subject s)
      | inl own ↦ Keeps-eq (ground arith) (
          Keeps-passkeys_put subject s id (record p { name = passkey_name name })
            (λ q h. ground (arith, list_beq_iff p.owner subject)))
    ]
  ]
