-- ===== src/Api/Calls/Access.antt =====
-- Who is refused what.
use wg_access_server.Prelude.{
  ℕ, Bool, true, false, not, ◌&&◌, ◌||◌, ◌≡◌, Option, none, some, if◌then◌else◌, err, arith, ◌==◌,
  list_eq, nat_eq,
}
use wg_access_server.Prelude.Text.{Text, codes}
use wg_access_server.Authnz.{Identity, is_admin}
use wg_access_server.Users.Passkeys.{WebAuthn}
use wg_access_server.Users.Passwords.{PasswordState}
use wg_access_server.Api.{
  ApiError, not_authenticated, not_admin, tokens_disabled, tokens_only_in_ui, token_refused,
  passkeys_elsewhere, basic_auth, Caller, External, Services, current_user, current_admin,
  has_password,
}
use wg_access_server.Api.Devices.{
  add_device_for, list_own_devices, delete_device_for, rename_device_for, rotate_key_for,
  set_access_for, set_routes_for, list_every_device,
}
use wg_access_server.Api.Tokens.{
  token_user, create_token_for, list_own_tokens, delete_token_for, list_all_tokens,
}
use wg_access_server.Api.Sessions.{list_own_sessions, delete_session_for, delete_other_sessions}
use wg_access_server.Api.Account.{
  two_factor_for, change_password_for, start_two_factor_for, confirm_two_factor_for,
  disable_two_factor_for, reset_two_factor_for, new_recovery_codes_for,
}
use wg_access_server.Api.Passkeys.{
  passkeys_for, list_own_passkeys, begin_passkey_for, finish_passkey_for, rename_passkey_for,
  delete_passkey_for,
}
use wg_access_server.Api.Admin.{list_users_for, delete_user_for, revoke_access_for}
use wg_access_server.Api.Calls.{Call, serve_call}

-- The calls about API tokens.
abbrev pub about_tokens : Call → Bool
about_tokens (Call.create_token name expires_at id random) = true
about_tokens Call.list_tokens = true
about_tokens Call.list_every_token = true
about_tokens (Call.delete_token id) = true
about_tokens _ = false

abbrev pub is_given : Option Text → Bool
is_given none = false
is_given (some owner) = true

-- The calls that only an admin may make: about everybody, about what somebody may do, and about a
-- device whose owner they name.
abbrev pub for_admins : Call → Bool
for_admins Call.list_all_devices = true
for_admins (Call.delete_device owner name) = is_given owner
for_admins (Call.rename_device owner name new_name) = is_given owner
for_admins (Call.set_access owner name change) = true
for_admins (Call.set_routes host owner name routes) = true
for_admins Call.list_every_token = true
for_admins (Call.reset_two_factor name) = true
for_admins Call.list_users = true
for_admins (Call.delete_user name) = true
for_admins (Call.revoke_access name) = true
for_admins _ = false

-- What people do with the account they are signed in with: its tokens, sessions, password, second
-- factor and passkeys. What an admin does to an account by its name, as with `reset_two_factor`, is
-- not among these.
abbrev pub own_business : Call → Bool
own_business (Call.create_token name expires_at id random) = true
own_business (Call.delete_session id) = true
own_business Call.delete_others = true
own_business (Call.change_password present next) = true
own_business (Call.start_two_factor secret) = true
own_business (Call.confirm_two_factor code fresh) = true
own_business (Call.disable_two_factor pass) = true
own_business (Call.new_recovery_codes pass fresh) = true
own_business (Call.begin_passkey site) = true
own_business (Call.finish_passkey site name answer) = true
own_business (Call.rename_passkey id name) = true
own_business (Call.delete_passkey id) = true
own_business _ = false

-- The user of a request is refused for not being an admin.
abbrev lacks_admin : Option Identity → Call → Option ApiError
lacks_admin none call = some not_authenticated
lacks_admin (some user) call =
    if for_admins call && not (is_admin user.claims) then some not_admin else none

abbrev pub refusal : Services → Caller → Call → Option ApiError
refusal services who call =
    if about_tokens call && not services.tokens_enabled
    then some tokens_disabled
    else lacks_admin who.identity call

-- The error that an API token gets.
abbrev passkey_refusal : Services → Identity → ApiError
passkey_refusal services user =
    if not services.passkeys || not (has_password user.provider)
    then passkeys_elsewhere
    else if user.provider == codes "simple"
    then token_refused
    else basic_auth

abbrev token_refusal : Services → Option Identity → Call → ApiError
token_refusal services none (Call.create_token name expires_at id random) =
    if services.tokens_enabled then not_authenticated else tokens_disabled
token_refusal services (some user) (Call.create_token name expires_at id random) =
    if services.tokens_enabled then tokens_only_in_ui else tokens_disabled
token_refusal services none call = not_authenticated
token_refusal services (some user) (Call.begin_passkey site) = passkey_refusal services user
token_refusal services (some user) (Call.finish_passkey site name answer) =
    passkey_refusal services user
token_refusal services (some user) (Call.rename_passkey id name) = passkey_refusal services user
token_refusal services (some user) (Call.delete_passkey id) = passkey_refusal services user
token_refusal services (some user) call = token_refused

module _ (services : Services) (wa : WebAuthn) (x : External) (who : Caller) (now : ℕ)
    (p : PasswordState) where
  -- A call about tokens while they are disabled, a call of nobody who has signed in, and a call for
  -- admins of somebody who is none is refused with the error that says so, and changes nothing.
  pub serve_call-refused :
      (call : Call) (e : ApiError)
      → refusal services who call ≡ some e
      → serve_call services wa x who now call p ≡ (p, err e)
  unfolding serve_call add_device_for list_own_devices delete_device_for rename_device_for
      rotate_key_for set_access_for set_routes_for list_every_device create_token_for
      list_own_tokens delete_token_for list_all_tokens list_own_sessions delete_session_for
      delete_other_sessions change_password_for start_two_factor_for confirm_two_factor_for
      disable_two_factor_for reset_two_factor_for new_recovery_codes_for list_own_passkeys
      begin_passkey_for finish_passkey_for rename_passkey_for delete_passkey_for list_users_for
      delete_user_for revoke_access_for token_user two_factor_for passkeys_for current_admin
      current_user
  serve_call-refused (Call.delete_device (some owner) name) e h = ground arith
  serve_call-refused (Call.rename_device (some owner) name new_name) e h = ground arith
  serve_call-refused call e h = ground arith
