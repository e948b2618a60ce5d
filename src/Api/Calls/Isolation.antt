-- ===== src/Api/Calls/Isolation.antt =====
-- What somebody who is no admin may not touch.
pub mod Gates
pub mod Owned
pub mod Accounts
use wg_access_server.Prelude.{
  ℕ, Bool, true, false, not, ◌&&◌, ◌||◌, ◌≡◌, ◌≢◌, refl, sym, ap, ◌∙◌, Option, none, some, List, [],
  ◌∷◌, ◌==◌, list_eq, nat_eq, Result, ok, err, arith, subst, Option-cases, Bool-cases, Result-cases,
  inl, inr, if◌then◌else◌,
}
use wg_access_server.Prelude.GoMap.{get}
use wg_access_server.Prelude.Text.{Text, is_nil, codes}
use wg_access_server.Authnz.{Identity, is_admin}
use wg_access_server.Storage.Memory.{Memory, Op, Outcome}
use wg_access_server.Storage.Memory.Tokens.{delete_tokens_for_owner}
use wg_access_server.Devices.Manager.{rotate_keys}
use wg_access_server.Users.Passkeys.{WebAuthn, Site}
use wg_access_server.Users.Passwords.{PasswordState}
use wg_access_server.Websessions.{end_others}
use wg_access_server.Apitokens.{create_token}
use wg_access_server.Users.Passwords.{change_password}
use wg_access_server.Users.TwoFactor.{confirm}
use wg_access_server.Users.Passkeys.{has, finish_registration, relabel}
use wg_access_server.Api.{
  ApiError, not_admin, Caller, External, Services, Action, pure, and_then, ◌>>=◌, ◌>>◌, refuse_if,
  stepping, stepping_all, current_user, refuse_api_token, has_password,
}
use wg_access_server.Api.Devices.{
  responding, owner_of, named_owner, new_of_rotation, device_error, add_device_for,
  list_own_devices, delete_device_for, rename_device_for, rotate_key_for,
}
use wg_access_server.Api.Tokens.{token_user, create_token_for, list_own_tokens, delete_token_for}
use wg_access_server.Api.Sessions.{
  ended, current_id, list_own_sessions, delete_session_for, delete_other_sessions,
}
use wg_access_server.Api.Account.{
  password_error, confirm_error, logged, revoke_all, end_elsewhere, sign_out_elsewhere,
  two_factor_for, change_password_for, start_two_factor_for, confirm_two_factor_for,
  disable_two_factor_for, new_recovery_codes_for,
}
use wg_access_server.Api.Passkeys.{
  item_of, new_item, finish_error, missing_error, sign_out_if, passkeys_for, list_own_passkeys,
  begin_passkey_for, finish_passkey_for, rename_passkey_for, delete_passkey_for,
}
use wg_access_server.Api.Spares.{IsStored, Spares, Keeps, Keeps-refl, Keeps-trans, Keeps-eq}
use wg_access_server.Api.Spares.Devices.{
  add_device-Keeps, rename_device-Keeps, rotate_keys-Keeps, remove_device-Keeps,
}
use wg_access_server.Api.Spares.Managers.{
  create_token-Keeps, revoke-Keeps, delete_own-Keeps, end_others-Keeps,
}
use wg_access_server.Api.Spares.Accounts.{
  delete_tokens_for_owner-Keeps, start-Keeps, confirm-Keeps, change_password-Keeps, disable-Keeps,
  replace_recovery_codes-Keeps,
}
use wg_access_server.Api.Spares.Ceremonies.{
  begin_registration-Keeps, finish_registration-Keeps, remove-Keeps, relabel-Keeps,
}
use wg_access_server.Api.Spares.Actions.{
  and_then-Keeps, IsKind, pure-IsKind, refuse_if-IsKind, reading-IsKind, stepping-IsKind,
  stepping_all-IsKind, writing-IsKind, >>=-IsKind, responding-IsKind, IsGate, gate-IsKind,
}
use wg_access_server.Api.Calls.{Call, serve_call}
use wg_access_server.Api.Calls.Access.{refusal, serve_call-refused}
use wg_access_server.Api.Calls.{done}
use wg_access_server.Api.Calls.Access.{for_admins, about_tokens}
use wg_access_server.Api.Calls.Isolation.Owned.{
  delete_device_for-IsKind, rename_device_for-IsKind, add_device_for-IsKind, rotate_key_for-IsKind,
  create_token_for-IsKind, delete_token_for-IsKind, delete_session_for-IsKind,
  delete_other_sessions-IsKind,
}
use wg_access_server.Api.Calls.Isolation.Accounts.{
  change_password_for-IsKind, start_two_factor_for-IsKind, confirm_two_factor_for-IsKind,
  disable_two_factor_for-IsKind, new_recovery_codes_for-IsKind, begin_passkey_for-IsKind,
  finish_passkey_for-IsKind, rename_passkey_for-IsKind, delete_passkey_for-IsKind,
}
use wg_access_server.Api.Devices.{list_every_device, set_access_for, set_routes_for}
use wg_access_server.Api.Tokens.{list_all_tokens}
use wg_access_server.Api.Account.{reset_two_factor_for}
use wg_access_server.Api.Admin.{list_users_for, delete_user_for, revoke_access_for}
use wg_access_server.Api.{tokens_disabled}

-- The id that a call takes for something new is not in use.
abbrev pub IsFresh : Memory → Call → Type 0
IsFresh s (Call.create_token name expires_at id random) = get s.tokens id ≡ none
IsFresh s call = Unit {0}

abbrev is_listing : Call → Bool
is_listing Call.list_devices = true
is_listing Call.list_tokens = true
is_listing Call.list_sessions = true
is_listing Call.list_passkeys = true
is_listing _ = false

module _ (services : Services) (wa : WebAuthn) (x : External) (who : Caller) (now : ℕ)
    (p : PasswordState) (user : Identity) (known : who.identity ≡ some user)
    (plain : is_admin user.claims ≡ false) where
  abbrev Kind : {A : Type 0} → Action A → Type 0
  Kind action = IsKind user.subject action

  done-IsKind : {A : Type 0} (action : Action A) → Kind action → Kind (done action)
  done-IsKind action kind = responding-IsKind user.subject (λ a. tt) action kind

  -- A call for admins does nothing.
  refused-Keeps :
      (call : Call)
      → for_admins call ≡ true
      → Keeps user.subject p.store (serve_call services wa x who now call p).0.store
  refused-Keeps call h = elim (Bool-cases (about_tokens call && not services.tokens_enabled)) [
    | inl off ↦
        Keeps-eq
          (ap (λ (r : PasswordState × Result ApiError (Unit {0})). r.0.store)
            (serve_call-refused services wa x who now p call tokens_disabled (ground arith)))
          (Keeps-refl user.subject p.store)
    | inr on ↦
        Keeps-eq
          (ap (λ (r : PasswordState × Result ApiError (Unit {0})). r.0.store)
            (serve_call-refused services wa x who now p call not_admin (ground arith)))
          (Keeps-refl user.subject p.store)
  ]

  -- A listing changes nothing.
  listing-store :
      (call : Call)
      → is_listing call ≡ true
      → (serve_call services wa x who now call p).0.store ≡ p.store
  unfolding serve_call list_own_devices list_own_tokens list_own_sessions list_own_passkeys
      current_user token_user passkeys_for
  listing-store call h = ground arith

  listing-Keeps :
      (call : Call)
      → is_listing call ≡ true
      → Keeps user.subject p.store (serve_call services wa x who now call p).0.store
  listing-Keeps call h = Keeps-eq (listing-store call h) (Keeps-refl user.subject p.store)

  token-Keeps :
      (name : Text) (expires_at : Option ℕ) (id random : Text)
      → get p.store.tokens id ≡ none
      → Keeps user.subject p.store
          (done (create_token_for services x who name expires_at id random now) p).0.store
  token-Keeps name expires_at id random fresh =
      and_then-Keeps user.subject p.store
        (create_token_for services x who name expires_at id random now p) (λ a. pure tt)
        (create_token_for-IsKind services x who user known plain name expires_at id random now p
          fresh)
        (λ a. pure-IsKind user.subject tt)

  -- What a call of somebody who is no admin does to everybody else is nothing, where the store was as it
  -- has to be and a new token gets an id that is not in use: the devices, tokens, sessions and passkeys
  -- of all other owners stay where and as they are, and so do the records of all other users; and the
  -- store is again as it has to be.
  pub serve_call-Spares :
      (call : Call)
      → IsFresh p.store call
      → IsStored p.store
      → IsStored (serve_call services wa x who now call p).0.store
        × Spares user.subject p.store (serve_call services wa x who now call p).0.store
  unfolding serve_call
  serve_call-Spares (Call.add_device name key preshared manual) f =
      done-IsKind (add_device_for x who now name key preshared manual)
        (add_device_for-IsKind services x who user known plain now name key preshared manual) p
  serve_call-Spares Call.list_devices f = listing-Keeps Call.list_devices refl
  serve_call-Spares Call.list_all_devices f = refused-Keeps Call.list_all_devices refl
  serve_call-Spares (Call.delete_device (some owner) name) f =
      refused-Keeps (Call.delete_device (some owner) name) refl
  serve_call-Spares (Call.delete_device none name) f =
      delete_device_for-IsKind services x who user known plain now name p
  serve_call-Spares (Call.rename_device (some owner) name new_name) f =
      refused-Keeps (Call.rename_device (some owner) name new_name) refl
  serve_call-Spares (Call.rename_device none name new_name) f =
      done-IsKind (rename_device_for x who now none name new_name)
        (rename_device_for-IsKind services x who user known plain now name new_name) p
  serve_call-Spares (Call.rotate_key name key preshared) f =
      done-IsKind (rotate_key_for x who now name key preshared)
        (rotate_key_for-IsKind services x who user known plain now name key preshared) p
  serve_call-Spares (Call.set_access owner name change) f =
      refused-Keeps (Call.set_access owner name change) refl
  serve_call-Spares (Call.set_routes host owner name routes) f =
      refused-Keeps (Call.set_routes host owner name routes) refl
  serve_call-Spares (Call.create_token name expires_at id random) f =
      token-Keeps name expires_at id random f
  serve_call-Spares Call.list_tokens f = listing-Keeps Call.list_tokens refl
  serve_call-Spares Call.list_every_token f = refused-Keeps Call.list_every_token refl
  serve_call-Spares (Call.delete_token id) f =
      delete_token_for-IsKind services x who user known plain id p
  serve_call-Spares Call.list_sessions f = listing-Keeps Call.list_sessions refl
  serve_call-Spares Call.delete_others f =
      done-IsKind (delete_other_sessions x who)
        (delete_other_sessions-IsKind services x who user known plain) p
  serve_call-Spares (Call.delete_session id) f =
      delete_session_for-IsKind services x who user known plain id p
  serve_call-Spares (Call.change_password present next) f =
      done-IsKind (change_password_for services x who present next now)
        (change_password_for-IsKind services x who user known plain present next now) p
  serve_call-Spares (Call.start_two_factor secret) f =
      done-IsKind (start_two_factor_for services x who secret)
        (start_two_factor_for-IsKind services x who user known plain secret) p
  serve_call-Spares (Call.confirm_two_factor code fresh) f =
      done-IsKind (confirm_two_factor_for services x who code fresh now)
        (confirm_two_factor_for-IsKind services x who user known plain code fresh now) p
  serve_call-Spares (Call.disable_two_factor pass) f =
      disable_two_factor_for-IsKind services x who user known plain pass now p
  serve_call-Spares (Call.reset_two_factor name) f = refused-Keeps (Call.reset_two_factor name) refl
  serve_call-Spares (Call.new_recovery_codes pass fresh) f =
      done-IsKind (new_recovery_codes_for services x who pass fresh now)
        (new_recovery_codes_for-IsKind services x who user known plain pass fresh now) p
  serve_call-Spares Call.list_passkeys f = listing-Keeps Call.list_passkeys refl
  serve_call-Spares (Call.begin_passkey site) f =
      done-IsKind (begin_passkey_for services wa x who site now)
        (begin_passkey_for-IsKind services x who user known plain wa site now) p
  serve_call-Spares (Call.finish_passkey site name answer) f =
      done-IsKind (finish_passkey_for services wa x who site name answer now)
        (finish_passkey_for-IsKind services x who user known plain wa site name answer now) p
  serve_call-Spares (Call.rename_passkey id name) f =
      done-IsKind (rename_passkey_for services wa x who id name)
        (rename_passkey_for-IsKind services x who user known plain wa id name) p
  serve_call-Spares (Call.delete_passkey id) f =
      delete_passkey_for-IsKind services x who user known plain wa id p
  serve_call-Spares Call.list_users f = refused-Keeps Call.list_users refl
  serve_call-Spares (Call.delete_user name) f = refused-Keeps (Call.delete_user name) refl
  serve_call-Spares (Call.revoke_access name) f = refused-Keeps (Call.revoke_access name) refl
