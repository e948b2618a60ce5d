-- ===== src/Api/Calls.antt =====
-- Every call of the API, and the handler that serves it.
pub mod Access
pub mod Bearing
pub mod Isolation
use wg_access_server.Prelude.{
  ℕ, Bool, true, false, Option, none, some, List, [], ◌∷◌, Result, ok, err,
}
use wg_access_server.Prelude.Text.{Text}
use wg_access_server.Netip.{Prefix}
use wg_access_server.Devices.Manager.{Manual, AccessChange}
use wg_access_server.Users.Passkeys.{Site, WebAuthn}
use wg_access_server.Users.Passwords.{PasswordState}
use wg_access_server.Api.{
  ApiError, Caller, External, Services, Action, pure, raise, and_then, ◌>>=◌,
}
use wg_access_server.Api.Devices.{
  responding, add_device_for, list_own_devices, delete_device_for, rename_device_for,
  rotate_key_for, set_access_for, set_routes_for, list_every_device,
}
use wg_access_server.Api.Tokens.{
  create_token_for, list_own_tokens, delete_token_for, list_all_tokens,
}
use wg_access_server.Api.Sessions.{list_own_sessions, delete_session_for, delete_other_sessions}
use wg_access_server.Api.Account.{
  change_password_for, start_two_factor_for, confirm_two_factor_for, disable_two_factor_for,
  reset_two_factor_for, new_recovery_codes_for,
}
use wg_access_server.Api.Passkeys.{
  list_own_passkeys, begin_passkey_for, finish_passkey_for, rename_passkey_for, delete_passkey_for,
}
use wg_access_server.Api.Admin.{list_users_for, delete_user_for, revoke_access_for}

-- What a call carries, and what the random source and the host give for it.
pub data Call : Type 0 where
  add_device : Text → Text → Text → Manual → Call
  list_devices list_all_devices : Call
  delete_device : Option Text → Text → Call
  rename_device : Option Text → Text → Text → Call
  rotate_key : Text → Text → Text → Call
  set_access : Option Text → Text → AccessChange → Call
  set_routes : Option (List Prefix) → Option Text → Text → List Text → Call
  create_token : Text → Option ℕ → Text → Text → Call
  list_tokens list_every_token : Call
  delete_token : Text → Call
  list_sessions delete_others : Call
  delete_session : Text → Call
  change_password : Text → Text → Call
  start_two_factor : Text → Call
  confirm_two_factor : Text → List Text → Call
  disable_two_factor : Text → Call
  reset_two_factor : Text → Call
  new_recovery_codes : Text → List Text → Call
  list_passkeys : Call
  begin_passkey : Site → Call
  finish_passkey : Site → Text → Text → Call
  rename_passkey : Text → Text → Call
  delete_passkey : Text → Call
  list_users : Call
  delete_user revoke_access : Text → Call

abbrev pub done : {A : Type 0} → Action A → Action (Unit {0})
done action = responding (λ a. tt) action

module _ (services : Services) (wa : WebAuthn) (x : External) (who : Caller) (now : ℕ) where
  unfoldable pub serve_call : Call → Action (Unit {0})
  serve_call (add_device name key preshared manual) =
      done (add_device_for x who now name key preshared manual)
  serve_call list_devices = done (list_own_devices x who now)
  serve_call list_all_devices = done (list_every_device x who now)
  serve_call (delete_device owner name) = delete_device_for x who now owner name
  serve_call (rename_device owner name new_name) =
      done (rename_device_for x who now owner name new_name)
  serve_call (rotate_key name key preshared) = done (rotate_key_for x who now name key preshared)
  serve_call (set_access owner name change) = done (set_access_for x who now owner name change)
  serve_call (set_routes host owner name routes) =
      done (set_routes_for x who now host owner name routes)
  serve_call (create_token name expires_at id random) =
      done (create_token_for services x who name expires_at id random now)
  serve_call list_tokens = done (list_own_tokens services x who)
  serve_call list_every_token = done (list_all_tokens services x who)
  serve_call (delete_token id) = delete_token_for services x who id
  serve_call list_sessions = done (list_own_sessions x who)
  serve_call delete_others = done (delete_other_sessions x who)
  serve_call (delete_session id) = delete_session_for x who id
  serve_call (change_password present next) =
      done (change_password_for services x who present next now)
  serve_call (start_two_factor secret) = done (start_two_factor_for services x who secret)
  serve_call (confirm_two_factor code fresh) =
      done (confirm_two_factor_for services x who code fresh now)
  serve_call (disable_two_factor pass) = disable_two_factor_for services x who pass now
  serve_call (reset_two_factor name) = reset_two_factor_for services x who name
  serve_call (new_recovery_codes pass fresh) =
      done (new_recovery_codes_for services x who pass fresh now)
  serve_call list_passkeys = done (list_own_passkeys services wa x who)
  serve_call (begin_passkey site) = done (begin_passkey_for services wa x who site now)
  serve_call (finish_passkey site name answer) =
      done (finish_passkey_for services wa x who site name answer now)
  serve_call (rename_passkey id name) = done (rename_passkey_for services wa x who id name)
  serve_call (delete_passkey id) = delete_passkey_for services wa x who id
  serve_call list_users = done (list_users_for services who)
  serve_call (delete_user name) = delete_user_for services who name
  serve_call (revoke_access name) = done (revoke_access_for services who name)
