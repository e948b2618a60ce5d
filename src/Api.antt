-- ===== src/Api.antt =====
-- internal/api: the services that the web UI and the API tokens talk to. A handler is a step on what
-- the managers share, the storage and the counters of wrong passwords; it gives the response or the
-- error that the client gets. What is only logged or audited is left out, and so are the messages and
-- the trace ids of internal errors. The interceptors, and the generated code that calls the handlers,
-- are not modelled.
pub mod Bearer
pub mod Devices
pub mod Tokens
pub mod Sessions
pub mod Account
pub mod Passkeys
pub mod Admin
pub mod Spares
pub mod Calls
use wg_access_server.Prelude.{
  ℕ, Bool, true, false, not, Option, none, some, [], ◌∷◌, ◌||◌, ◌==◌, list_eq, nat_eq, Result, ok,
  err,
}
use wg_access_server.Prelude.Text.{Text, codes, is_nil}
use wg_access_server.Netip.Codec.{Codec}
use wg_access_server.Authnz.{Identity, is_admin}
use wg_access_server.Storage.Memory.{Memory, Outcome, StorageError}
use wg_access_server.Devices.{Invalid}
use wg_access_server.Devices.Manager.{Config}
use wg_access_server.Apitokens.{TokenError}
use wg_access_server.Users.Totp.{Mac}
use wg_access_server.Users.Passwords.{Hashing, PasswordState}

pub data ApiError : Type 0 where
  not_authenticated not_admin token_refused internal : ApiError
  device_refused : Invalid → ApiError
  -- of the tokens
  tokens_disabled tokens_only_in_ui no_such_token : ApiError
  token_invalid : TokenError → ApiError
  -- of the sessions
  no_such_session no_session_to_keep : ApiError
  -- of the password and the second factor
  password_elsewhere password_too_short too_many_wrong_passwords wrong_password no_password_kept :
      ApiError
  second_factor_elsewhere basic_auth second_factor_set wrong_code not_started : ApiError
  no_second_factors no_second_factor no_recovery_codes : ApiError
  -- of the passkeys
  passkeys_elsewhere challenge_over passkey_exists passkey_refused no_such_passkey : ApiError
  own_access : ApiError

-- The codes of connect.
pub data Code : Type 0 where
  permission_denied internal_code invalid_argument failed_precondition not_found already_exists :
      Code
  resource_exhausted : Code

unfoldable pub code_of : ApiError → Code
code_of not_authenticated = permission_denied
code_of not_admin = permission_denied
code_of token_refused = permission_denied
code_of internal = internal_code
code_of (device_refused why) = invalid_argument
code_of tokens_disabled = failed_precondition
code_of tokens_only_in_ui = permission_denied
code_of no_such_token = not_found
code_of (token_invalid why) = invalid_argument
code_of no_such_session = not_found
code_of no_session_to_keep = failed_precondition
code_of password_elsewhere = failed_precondition
code_of password_too_short = invalid_argument
code_of too_many_wrong_passwords = resource_exhausted
code_of wrong_password = permission_denied
code_of no_password_kept = failed_precondition
code_of second_factor_elsewhere = failed_precondition
code_of basic_auth = failed_precondition
code_of second_factor_set = failed_precondition
code_of wrong_code = invalid_argument
code_of not_started = failed_precondition
code_of no_second_factors = failed_precondition
code_of no_second_factor = not_found
code_of no_recovery_codes = failed_precondition
code_of passkeys_elsewhere = failed_precondition
code_of challenge_over = failed_precondition
code_of passkey_exists = already_exists
code_of passkey_refused = invalid_argument
code_of no_such_passkey = not_found
code_of own_access = failed_precondition

-- What a request carries in its context (`authsession.AuthSession`): who asks, the id of the API token,
-- "" for none, and the secret of the browser session, "" for none.
pub record Caller : Type 0 where
  pub identity : Option Identity
  pub api_token : Text
  pub session : Text

-- What is not code of the repository: SHA-256 in hex, the JSON of an identity, bcrypt and the
-- configured passwords, HMAC, and the text forms of net/netip; and the configuration of the devices.
pub record External : Type 0 where
  pub hash : Text → Text
  pub encode : Identity → Text
  pub decode : Text → Option Identity
  pub hashing : Hashing
  pub mac : Mac
  pub codec : Codec
  pub config : Config

-- Which of the managers a service has been given.
pub record Services : Type 0 where
  pub passwords : Bool
  pub two_factor : Bool
  pub passkeys : Bool
  pub tokens : Bool
  pub sessions : Bool
  pub tokens_enabled : Bool

abbrev pub Action : Type 0 → Type 0
Action A = PasswordState → PasswordState × Result ApiError A

abbrev pub pure : {A : Type 0} → A → Action A
pure a p = (p, ok a)

abbrev pub raise : {A : Type 0} → ApiError → Action A
raise e p = (p, err e)

-- `if err != nil { return nil, err }`
abbrev pub and_then :
    {A B : Type 0}
    → PasswordState × Result ApiError A
    → (A → Action B)
    → PasswordState × Result ApiError B
and_then (p, ok a) next = next a p
and_then (p, err e) next = (p, err e)

infixl 5 ◌>>=◌ ◌>>◌
abbrev pub ◌>>=◌ : {A B : Type 0} → Action A → (A → Action B) → Action B
(action >>= next) p = and_then (action p) next

abbrev pub ◌>>◌ : {B : Type 0} → Action (Unit {0}) → Action B → Action B
action >> rest = action >>= λ _. rest

abbrev pub refuse_if : Bool → ApiError → Action (Unit {0})
refuse_if true e = raise e
refuse_if false e = pure tt

-- What is read off the storage.
abbrev pub reading : {A : Type 0} → (Memory → A) → Action A
reading f p = (p, ok (f p.store))

-- A step of a manager on the storage; its errors become those of the client.
abbrev pub answered : {E A : Type 0} → (E → ApiError) → Result E A → Result ApiError A
answered to (ok a) = ok a
answered to (err e) = err (to e)

abbrev pub stepping : {E A : Type 0} → (E → ApiError) → (Memory → Memory × Result E A) → Action A
stepping to f p = (record p { store = (f p.store).0 }, answered to (f p.store).1)

abbrev pub stepping_all :
    {E A : Type 0} → (E → ApiError) → (PasswordState → PasswordState × Result E A) → Action A
stepping_all to f p = ((f p).0, answered to (f p).1)

-- A step that gives the store afterwards only where it succeeds.
abbrev pub outcome :
    {E A : Type 0}
    → (E → ApiError)
    → PasswordState
    → Result E (Outcome A)
    → PasswordState × Result ApiError A
outcome to p (ok o) = (record p { store = o.after }, ok o.value)
outcome to p (err e) = (p, err (to e))

abbrev pub writing : {E A : Type 0} → (E → ApiError) → (Memory → Result E (Outcome A)) → Action A
writing to f p = outcome to p (f p.store)

abbrev pub internally : {E : Type 0} → E → ApiError
internally e = internal

-- `authsession.CurrentUser`, or `errNotAuthenticated`
abbrev pub identified : Option Identity → Action Identity
identified none = raise not_authenticated
identified (some user) = pure user

unfoldable pub current_user : Caller → Action Identity
current_user who = identified who.identity

unfoldable pub current_admin : Caller → Action Identity
unfolding current_user
current_admin who = do
  user ← current_user who
  refuse_if (not (is_admin user.claims)) not_admin
  pure user

-- `refuseAPIToken`
unfoldable pub refuse_api_token : Caller → Action (Unit {0})
refuse_api_token who = refuse_if (not (is_nil who.api_token)) token_refused

-- `authconfig.HasPassword`
unfoldable pub has_password : Text → Bool
has_password provider = provider == codes "basic" || provider == codes "simple"
