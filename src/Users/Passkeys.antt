-- ===== src/Users/Passkeys.antt =====
-- internal/users/passkeys.go over the in-memory storage. The WebAuthn library, JSON and the splitting
-- of a host from its port are parameters. A name is cut after 64 bytes: a byte b of a character
-- that is cut in two stands as 0x110000 + b, which is the code of no character.
pub mod Challenge
use wg_access_server.Prelude.{
  ℕ, zero, suc, ◌+◌, ◌*◌, Bool, true, false, not, ◌&&◌, ◌||◌, Option, none, some, List, [], ◌∷◌,
  ◌++◌, ◌==◌, list_eq, nat_eq, ltb, leb, length, ◌-◌, ◌/◌, ◌%◌, if◌then◌else◌, Result, ok, err,
}
use wg_access_server.Prelude.Text.{Text, codes, is_nil, trim_space}
use wg_access_server.Storage.{User, Passkey}
use wg_access_server.Storage.Memory.{
  Memory, Op, Outcome, StorageError, passkey_exists, passkey_not_found,
}
use wg_access_server.Storage.Memory.Users.{get_user, set_webauthn_challenge}
use wg_access_server.Storage.Memory.Passkeys.{
  add_passkey, update_passkey, rename_passkey, get_passkey, delete_passkey, list_passkeys,
}

pub data PasskeyError : Type 0 where
  no_passkey no_challenge already_registered no_password_here : PasskeyError
  -- the host is not known, or the library refuses the site
  host_unknown site_refused : PasskeyError
  not_started not_accepted unreadable copy_suspected not_encoded : PasskeyError
  storage : StorageError → PasskeyError

-- `relyingParty`: the id, and the origin.
pub record Site : Type 0 where
  pub id : Text
  pub origin : Text

-- The library `webauthn`, and the JSON of its types. An `Exchange` is a `webauthn.SessionData`; an
-- operation of the library gives `none` where it fails.
pub record WebAuthn : Type 1 where
  pub Exchange : Type 0
  pub Credential : Type 0
  pub encode_exchange : Exchange → Option Text
  pub decode_exchange : Text → Option Exchange
  pub encode_credential : Credential → Option Text
  pub decode_credential : Text → Option Credential
  -- the id in unpadded base64
  pub credential_id : Credential → Text
  pub clone_warning : Credential → Bool
  pub without_warning : Credential → Credential
  pub accepts_site : Site → Bool
  -- the JSON of the options, if there is one, and the exchange, for a user and their credentials
  pub begin_registration : Site → User → List Credential → Option (Option Text × Exchange)
  pub begin_login : Site → User → List Credential → Option (Option Text × Exchange)
  -- the answer of the browser: the reading of it, and what it shows
  pub reads_creation : Text → Bool
  pub create_credential : Site → User → List Credential → Exchange → Text → Option Credential
  pub reads_request : Text → Bool
  pub validate_login : Site → User → List Credential → Exchange → Text → Option Credential

-- `challengeFor`, 5 minutes in nanoseconds
abbrev pub challenge_for : ℕ
challenge_for = 5 * 60 * 1_000_000_000

abbrev pub max_passkey_name : ℕ
max_passkey_name = 64

abbrev continued : ℕ → ℕ
continued c = 0x80 + c % 64

-- The UTF-8 of a character.
abbrev utf8 : ℕ → List ℕ
utf8 c =
    if leb c 0x7f
    then c ∷ []
    else if leb c 0x7ff
    then (0xc0 + c / 64) ∷ continued c ∷ []
    else if leb c 0xffff
    then (0xe0 + c / 4096) ∷ continued (c / 64) ∷ continued c ∷ []
    else (0xf0 + c / 262144) ∷ continued (c / 4096) ∷ continued (c / 64) ∷ continued c ∷ []

abbrev stray : ℕ → List ℕ → Text
stray zero bytes = []
stray (suc n) [] = []
stray (suc n) (b ∷ bytes) = (0x110000 + b) ∷ stray n bytes

-- `name[:n]`
unfoldable pub cut_bytes : ℕ → Text → Text
cut_bytes n [] = []
cut_bytes n (c ∷ s) =
    let rest = cut_bytes (n - length (utf8 c)) s in
    if leb (length (utf8 c)) n then c ∷ rest else stray n (utf8 c)

-- `passkeyName`
unfoldable pub passkey_name : Text → Text
unfolding cut_bytes
passkey_name given =
    let name = trim_space given in
    cut_bytes max_passkey_name (if is_nil name then codes "Passkey" else name)

-- `Has`
unfoldable pub has : Memory → Text → Bool
has s subject = elim (list_passkeys s subject) [ [] ↦ false | p ∷ ps ↦ true ]

abbrev pub or_no_passkey : StorageError → PasskeyError
or_no_passkey passkey_not_found = no_passkey
or_no_passkey e = storage e

unfoldable pub remove : Memory → Text → Text → Memory × Result PasskeyError (Unit {0})
remove s subject id = elim (delete_passkey s subject id) [
  | ok o ↦ (o.after, ok tt)
  | err e ↦ (s, err (or_no_passkey e))
]

-- What was renamed is read back; `none` stands for a passkey that is missing.
abbrev read_back : Text → Result StorageError Passkey → Result PasskeyError Passkey
read_back subject (ok p) = if p.owner == subject then ok p else err no_passkey
read_back subject (err e) = err (storage e)

unfoldable pub relabel : Memory → Text → Text → Text → Memory × Result PasskeyError Passkey
unfolding passkey_name
relabel s subject id name = elim (rename_passkey s subject id (passkey_name name)) [
  | ok o ↦ (o.after, read_back subject (get_passkey o.after id))
  | err e ↦ (s, err (or_no_passkey e))
]

module _ (wa : WebAuthn) where
  -- `WebAuthnCredentials`: what cannot be read is left out, and a stored warning is dropped.
  unfoldable pub credentials : List Passkey → List wa.Credential
  credentials [] = []
  credentials (p ∷ ps) =
      let rest = credentials ps in
      elim (wa.decode_credential p.credential) [
        | none ↦ rest
        | some c ↦ wa.without_warning c ∷ rest
      ]

  -- `user`: the stored user, and what the library asks of them.
  unfoldable pub passkey_user : Memory → Text → Result PasskeyError (User × List wa.Credential)
  unfolding credentials
  passkey_user s subject = elim (get_user s subject) [
    | ok user ↦ ok (user, credentials (list_passkeys s subject))
    | err e ↦ err no_password_here
  ]

  -- `webauthn`
  abbrev pub check_site : Site → Result PasskeyError (Unit {0})
  check_site site =
      if is_nil site.id
      then err host_unknown
      else if wa.accepts_site site
      then ok tt
      else err site_refused

  unfoldable pub keep_challenge :
      Memory → Text → wa.Exchange → ℕ → Memory × Result PasskeyError (Unit {0})
  keep_challenge s subject exchange now = elim (wa.encode_exchange exchange) [
    | none ↦ (s, err not_encoded)
    | some text ↦ elim (set_webauthn_challenge s subject text (some (now + challenge_for))) [
      | ok o ↦ (o.after, ok tt)
      | err e ↦ (s, err (storage e))
    ]
  ]

  -- `p.now().After(*user.WebauthnChallengeUntil)`, or there is no time
  abbrev pub lapsed : Option ℕ → ℕ → Bool
  lapsed none now = true
  lapsed (some until) now = ltb until now

  unfoldable pub take_challenge :
      Memory → Text → User → ℕ → Memory × Result PasskeyError wa.Exchange
  take_challenge s subject user now =
      if is_nil user.webauthn_challenge || lapsed user.webauthn_challenge_until now
      then (s, err no_challenge)
      else elim (wa.decode_exchange user.webauthn_challenge) [
        | none ↦ (s, err no_challenge)
        | some exchange ↦ elim (set_webauthn_challenge s subject [] none) [
          | ok o ↦ (o.after, ok exchange)
          | err e ↦ (s, err (storage e))
        ]
      ]

  abbrev pub with_user :
      {A : Type 0}
      → A
      → Memory × Result PasskeyError wa.Exchange
      → Memory × Result PasskeyError (A × wa.Exchange)
  with_user user (s, ok exchange) = (s, ok (user, exchange))
  with_user user (s, err e) = (s, err e)

  -- `userAndChallenge`
  unfoldable pub user_and_challenge :
      Memory → Text → ℕ → Memory × Result PasskeyError ((User × List wa.Credential) × wa.Exchange)
  unfolding passkey_user take_challenge
  user_and_challenge s subject now = elim (passkey_user s subject) [
    | err e ↦ (s, err e)
    | ok user ↦ with_user user (take_challenge s subject user.0 now)
  ]

  -- The challenge is kept before the options are encoded.
  abbrev pub offered :
      Option Text → Memory × Result PasskeyError (Unit {0}) → Memory × Result PasskeyError Text
  offered options (s, err e) = (s, err e)
  offered none (s, ok _) = (s, err not_encoded)
  offered (some text) (s, ok _) = (s, ok text)

  abbrev pub begun :
      Memory → Text → Option (Option Text × wa.Exchange) → ℕ → Memory × Result PasskeyError Text
  begun s subject none now = (s, err not_started)
  begun s subject (some (options, exchange)) now =
      offered options (keep_challenge s subject exchange now)

  unfoldable pub begin_registration : Site → Memory → Text → ℕ → Memory × Result PasskeyError Text
  unfolding passkey_user keep_challenge
  begin_registration site s subject now = elim (passkey_user s subject) [
    | err e ↦ (s, err e)
    | ok (user, known) ↦ elim (check_site site) [
      | err e ↦ (s, err e)
      | ok _ ↦ begun s subject (wa.begin_registration site user known) now
    ]
  ]

  -- `FinishRegistration`, once the challenge is taken.
  abbrev pub registered :
      Site
      → Text
      → Text
      → Text
      → ℕ
      → Memory × Result PasskeyError ((User × List wa.Credential) × wa.Exchange)
      → Memory × Result PasskeyError Passkey
  registered site subject name answer now (s, err e) = (s, err e)
  registered site subject name answer now (s, ok ((user, known), exchange)) =
      elim (check_site site) [
        | err e ↦ (s, err e)
        | ok _ ↦
            if not (wa.reads_creation answer)
            then (s, err unreadable)
            else elim (wa.create_credential site user known exchange answer) [
              | none ↦ (s, err not_accepted)
              | some c ↦ elim (wa.encode_credential c) [
                | none ↦ (s, err not_encoded)
                | some text ↦
                    let passkey : Passkey = record {
                      id = wa.credential_id c;
                      owner = subject;
                      name = passkey_name name;
                      credential = text;
                      created_at = now;
                      last_used_at = none;
                    } in
                    elim (add_passkey s passkey) [
                      | ok o ↦ (o.after, ok passkey)
                      | err passkey_exists ↦ (s, err already_registered)
                      | err e ↦ (s, err (storage e))
                    ]
              ]
            ]
      ]

  unfoldable pub finish_registration :
      Site → Memory → Text → Text → Text → ℕ → Memory × Result PasskeyError Passkey
  unfolding user_and_challenge passkey_name
  finish_registration site s subject name answer now =
      registered site subject name answer now (user_and_challenge s subject now)

  unfoldable pub begin_login : Site → Memory → Text → ℕ → Memory × Result PasskeyError Text
  unfolding passkey_user keep_challenge
  begin_login site s subject now = elim (passkey_user s subject) [
    | err e ↦ (s, err e)
    | ok (user, []) ↦ (s, err no_passkey)
    | ok (user, c ∷ known) ↦ elim (check_site site) [
      | err e ↦ (s, err e)
      | ok _ ↦ begun s subject (wa.begin_login site user (c ∷ known)) now
    ]
  ]

  -- The use is written back, if that is possible.
  abbrev pub use_of : Passkey → Option Text → ℕ → Passkey
  use_of p none now = record p { last_used_at = some now }
  use_of p (some text) now = record p { credential = text; last_used_at = some now }

  abbrev pub note_use : Memory → wa.Credential → ℕ → Memory
  note_use s c now = elim (get_passkey s (wa.credential_id c)) [
    | err e ↦ s
    | ok p ↦ elim (update_passkey s (use_of p (wa.encode_credential c) now)) [
      | ok o ↦ o.after
      | err e ↦ s
    ]
  ]

  abbrev pub logged_in :
      Site
      → Text
      → ℕ
      → Memory × Result PasskeyError ((User × List wa.Credential) × wa.Exchange)
      → Memory × Result PasskeyError (Unit {0})
  logged_in site answer now (s, err e) = (s, err e)
  logged_in site answer now (s, ok ((user, known), exchange)) = elim (check_site site) [
    | err e ↦ (s, err e)
    | ok _ ↦
        if not (wa.reads_request answer)
        then (s, err unreadable)
        else elim (wa.validate_login site user known exchange answer) [
          | none ↦ (s, err not_accepted)
          | some c ↦
              if wa.clone_warning c then (s, err copy_suspected) else (note_use s c now, ok tt)
        ]
  ]

  unfoldable pub finish_login :
      Site → Memory → Text → Text → ℕ → Memory × Result PasskeyError (Unit {0})
  unfolding user_and_challenge
  finish_login site s subject answer now =
      logged_in site answer now (user_and_challenge s subject now)
