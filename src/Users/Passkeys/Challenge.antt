-- ===== src/Users/Passkeys/Challenge.antt =====
-- A challenge counts once, and until its time is over.
use wg_access_server.Prelude.{
  ℕ, ◌+◌, ◌≤◌, true, false, ◌||◌, ◌≡◌, ◌≢◌, refl, ap, ◌∙◌, ◌⊎◌, inl, inr, Option, none, some, List,
  [], ◌∷◌, list_eq, nat_eq, ltb, arith, Result, ok, err, ==_refl, Option-cases, Bool-cases,
  if◌then◌else◌,
}
use wg_access_server.Prelude.GoMap.{GoMap, get, put, get-put}
use wg_access_server.Prelude.Text.{Text, is_nil}
use wg_access_server.Storage.{User}
use wg_access_server.Storage.Memory.{Memory}
use wg_access_server.Storage.Memory.Users.{get_user, set_webauthn_challenge}
use wg_access_server.Storage.Memory.Passkeys.{
  add_passkey, update_passkey, get_passkey, list_passkeys,
}
use wg_access_server.Users.Passkeys.{
  PasskeyError, no_challenge, Site, WebAuthn, challenge_for, lapsed, credentials, passkey_user,
  keep_challenge, take_challenge, user_and_challenge, begin_login, finish_login,
  finish_registration, note_use, logged_in, registered, begun,
}

module _ (wa : WebAuthn) where
  -- No challenge of the user counts any more.
  abbrev Spent : Memory → Text → ℕ → Type 0
  Spent s subject now =
      (user : User) × (get s.users subject ≡ some user)
      × (((is_nil user.webauthn_challenge || lapsed wa user.webauthn_challenge_until now) ≡ true)
          ⊎ (wa.decode_exchange user.webauthn_challenge ≡ none))

  Spent-user_and_challenge :
      (s : Memory) (subject : Text) (now later : ℕ)
      → now ≤ later
      → Spent s subject now
      → user_and_challenge wa s subject later ≡ (s, err no_challenge)
  unfolding user_and_challenge passkey_user take_challenge get_user
  Spent-user_and_challenge s subject now later le (user, found, inl over) =
      ground (arith, Option-cases user.webauthn_challenge_until)
  Spent-user_and_challenge s subject now later le (user, found, inr unread) = ground arith

  -- The user without a challenge.
  abbrev cleared : Memory → Text → User → Memory
  cleared s subject user = record s {
    users =
        put s.users subject
          (record user { webauthn_challenge = []; webauthn_challenge_until = none });
  }

  cleared-Spent :
      (s : Memory) (subject : Text) (user : User) (now : ℕ)
      → Spent (cleared s subject user) subject now
  cleared-Spent s subject user now =
      let spent : User = record user { webauthn_challenge = []; webauthn_challenge_until = none } in
      (spent, ground (arith, get-put s.users subject subject spent, ==_refl subject), inl refl)

  module _ (s : Memory) (subject : Text) (now : ℕ) (user : User)
      (found : get s.users subject ≡ some user) where
    user_and_challenge-taken :
        (exchange : wa.Exchange)
        → (is_nil user.webauthn_challenge || lapsed wa user.webauthn_challenge_until now) ≡ false
        → wa.decode_exchange user.webauthn_challenge ≡ some exchange
        → user_and_challenge wa s subject now ≡ (
          cleared s subject user,
          ok ((user, credentials wa (list_passkeys s subject)), exchange),
        )
    unfolding user_and_challenge passkey_user take_challenge get_user set_webauthn_challenge
    user_and_challenge-taken exchange open' read = ground arith

    user_and_challenge-Spent : Spent (user_and_challenge wa s subject now).0 subject now
    user_and_challenge-Spent =
        elim (Bool-cases
          (is_nil user.webauthn_challenge || lapsed wa user.webauthn_challenge_until now)) [
            | inl over ↦
                let spent : Spent s subject now = (user, found, inl over) in
                rw (Spent-user_and_challenge s subject now now (omega arith) spent) spent
            | inr open' ↦ elim (Option-cases (wa.decode_exchange user.webauthn_challenge)) [
              | inl unread ↦
                  let spent : Spent s subject now = (user, found, inr unread) in
                  rw (Spent-user_and_challenge s subject now now (omega arith) spent) spent
              | inr (exchange, read) ↦
                  rw (user_and_challenge-taken exchange open' read)
                    (cleared-Spent s subject user now)
            ]
          ]

  note_use-users :
      (s : Memory) (c : wa.Credential) (now : ℕ) → (note_use wa s c now).users ≡ s.users
  unfolding get_passkey update_passkey
  note_use-users s c now = ground arith

  abbrev Taken : Type 0
  Taken = Memory × Result PasskeyError ((User × List wa.Credential) × wa.Exchange)

  logged_in-users :
      (site : Site) (answer : Text) (now : ℕ) (t : Taken)
      → (logged_in wa site answer now t).0.users ≡ t.0.users
  logged_in-users site answer now (s, err e) = refl
  logged_in-users site answer now (s, ok ((user, known), exchange)) =
      elim (Option-cases (wa.validate_login site user known exchange answer)) [
        | inl e ↦ ground arith
        | inr (c, e) ↦ ground (arith, note_use-users s c now)
      ]

  registered-users :
      (site : Site) (subject name answer : Text) (now : ℕ) (t : Taken)
      → (registered wa site subject name answer now t).0.users ≡ t.0.users
  unfolding add_passkey
  registered-users site subject name answer now (s, err e) = refl
  registered-users site subject name answer now (s, ok ((user, known), exchange)) = ground arith

  -- A challenge that was answered, or whose time is over.
  module _ (s : Memory) (subject : Text) (now : ℕ) (user : User)
      (found : get s.users subject ≡ some user) where
    Spent-same :
        (s' : Memory)
        → s'.users ≡ (user_and_challenge wa s subject now).0.users
        → Spent s' subject now
    Spent-same s' same =
        let (left, at, over) = user_and_challenge-Spent s subject now user found in
        (left, ap (λ (m : GoMap Text User). get m subject) same ∙ at, over)

    -- Of a stored user: once a sign-in or a registration with a passkey was finished, whatever came of
    -- it, every later one that is finished before another is begun is refused for want of a challenge,
    -- whatever the answer, and changes nothing.
    pub finish-once :
        (site site' : Site) (name name' answer answer' : Text) (later : ℕ)
        → now ≤ later
        → let after_login = (finish_login wa site s subject answer now).0 in
          let after_registration = (finish_registration wa site s subject name answer now).0 in
          (finish_login wa site' after_login subject answer' later
            ≡ (after_login, err no_challenge))
          × (finish_registration wa site' after_login subject name' answer' later
              ≡ (after_login, err no_challenge))
          × (finish_login wa site' after_registration subject answer' later
              ≡ (after_registration, err no_challenge))
          × (finish_registration wa site' after_registration subject name' answer' later
              ≡ (after_registration, err no_challenge))
    unfolding finish_login finish_registration
    finish-once site site' name name' answer answer' later le =
        let t = user_and_challenge wa s subject now in
        let s1 = (logged_in wa site answer now t).0 in
        let s2 = (registered wa site subject name answer now t).0 in
        let refused1 =
          Spent-user_and_challenge s1 subject now later le
            (Spent-same s1 (logged_in-users site answer now t)) in
        let refused2 =
          Spent-user_and_challenge s2 subject now later le
            (Spent-same s2 (registered-users site subject name answer now t)) in
        (
          ap (logged_in wa site' answer' later) refused1,
          ap (registered wa site' subject name' answer' later) refused1,
          ap (logged_in wa site' answer' later) refused2,
          ap (registered wa site' subject name' answer' later) refused2,
        )

    abbrev asked : Text → User
    asked text = record user {
      webauthn_challenge = text;
      webauthn_challenge_until = some (now + challenge_for);
    }

    abbrev kept : Text → Memory
    kept text = record s { users = put s.users subject (asked text) }

    begun-kept :
        (begin : Option (Option Text × wa.Exchange)) (s' : Memory) (options : Text)
        → begun wa s subject begin now ≡ (s', ok options)
        → (exchange : wa.Exchange) × (text : Text) × (begin ≡ some (some options, exchange))
          × (wa.encode_exchange exchange ≡ some text)
          × (s' ≡ kept text)
    unfolding keep_challenge set_webauthn_challenge
    begun-kept none s' options h = ground arith
    begun-kept (some (none, exchange)) s' options h =
        elim (Option-cases (wa.encode_exchange exchange)) [
          | inl e ↦ ground arith
          | inr (text, e) ↦ ground arith
        ]
    begun-kept (some (some o, exchange)) s' options h =
        elim (Option-cases (wa.encode_exchange exchange)) [
          | inl e ↦ ground arith
          | inr (text, e) ↦
              let same : o ≡ options = ground arith in
              let after : s' ≡ kept text = ground arith in
              (exchange, text, ap (λ (t : Text). some (some t, exchange)) same, e, after)
        ]

    begin_login-begun :
        (site : Site) (s' : Memory) (options : Text)
        → begin_login wa site s subject now ≡ (s', ok options)
        → begun wa s subject
            (wa.begin_login site user (credentials wa (list_passkeys s subject)))
            now
          ≡ (s', ok options)
    unfolding begin_login passkey_user get_user
    begin_login-begun site s' options h = ground arith

    kept-user_and_challenge :
        (text : Text) (exchange : wa.Exchange) (later : ℕ)
        → text ≢ []
        → wa.decode_exchange text ≡ some exchange
        → (user_and_challenge wa (kept text) subject later).1 ≡ (
            if ltb (now + challenge_for) later
            then err no_challenge
            else ok ((asked text, credentials wa (list_passkeys s subject)), exchange))
    unfolding user_and_challenge passkey_user take_challenge get_user set_webauthn_challenge
        list_passkeys
    kept-user_and_challenge [] exchange later full read = absurd (full refl)
    kept-user_and_challenge (c ∷ text) exchange later full read =
        ground (arith, get-put s.users subject subject (asked (c ∷ text)), ==_refl subject)

    -- Of a stored user: the challenge of a sign-in that was begun is there until its five minutes are
    -- over, with the exchange that the library began for the user's passkeys, if the JSON of an
    -- exchange is not empty and is read back.
    pub begin_login-user_and_challenge :
        (site : Site) (s' : Memory) (options : Text) (later : ℕ)
        → ((x : wa.Exchange) (t : Text)
            → wa.encode_exchange x ≡ some t
            → (t ≢ []) × (wa.decode_exchange t ≡ some x))
        → begin_login wa site s subject now ≡ (s', ok options)
        → (user' : User) × (exchange : wa.Exchange) × (wa.begin_login site user
              (credentials wa (list_passkeys s subject))
            ≡ some (some options, exchange))
          × ((user_and_challenge wa s' subject later).1 ≡ (
              if ltb (now + challenge_for) later
              then err no_challenge
              else ok ((user', credentials wa (list_passkeys s subject)), exchange)))
    begin_login-user_and_challenge site s' options later json h =
        let (exchange, text, library, encoded, same) =
          begun-kept (wa.begin_login site user (credentials wa (list_passkeys s subject))) s'
            options (begin_login-begun site s' options h) in
        let (full, read) = json exchange text encoded in
        (
          asked text,
          exchange,
          library,
          ap (λ (m : Memory). (user_and_challenge wa m subject later).1) same
              ∙ kept-user_and_challenge text exchange later full read,
        )
