-- ===== src/Api/Account.antt =====
-- The account's own business in internal/api/user_service.go: the password and the second factor of
-- the app. The URI that shows a new secret is left out.
use wg_access_server.Prelude.{
  ℕ, Bool, true, false, not, ◌||◌, List, ◌==◌, list_eq, nat_eq, ltb, Result, ok, err,
}
use wg_access_server.Prelude.Text.{Text, codes, byte_length}
use wg_access_server.Authnz.{Identity}
use wg_access_server.Storage.Memory.{Memory, Op}
use wg_access_server.Storage.Memory.Tokens.{delete_tokens_for_owner}
use wg_access_server.Websessions.{end_others}
use wg_access_server.Users.Passwords.{
  PasswordError, wrong_password, no_password_here, too_many_attempts, PasswordState,
  change_password,
}
use wg_access_server.Users.TwoFactor.{
  TwoFactorError, no_two_factor, two_factor_set, wrong_code, no_account, password, start, confirm,
  disable, reset, replace_recovery_codes,
}
use wg_access_server.Api.{
  ApiError, internal, password_elsewhere, password_too_short, too_many_wrong_passwords,
  no_password_kept, second_factor_elsewhere, basic_auth, second_factor_set, not_started,
  no_second_factors, no_second_factor, no_recovery_codes, Caller, External, Services, Action, pure,
  raise, and_then, ◌>>=◌, ◌>>◌, refuse_if, stepping, stepping_all, current_user, current_admin,
  refuse_api_token, has_password,
}
use wg_access_server.Api
use wg_access_server.Api.Sessions.{current_id}

abbrev pub min_password_length : ℕ
min_password_length = 10

abbrev pub password_error : PasswordError → ApiError
password_error too_many_attempts = too_many_wrong_passwords
password_error wrong_password = Api.wrong_password
password_error no_password_here = no_password_kept
password_error _ = internal

abbrev pub start_error : TwoFactorError → ApiError
start_error two_factor_set = second_factor_set
start_error _ = internal

abbrev pub confirm_error : TwoFactorError → ApiError
confirm_error wrong_code = Api.wrong_code
confirm_error no_two_factor = not_started
confirm_error two_factor_set = second_factor_set
confirm_error _ = internal

abbrev pub disable_error : TwoFactorError → ApiError
disable_error (password too_many_attempts) = too_many_wrong_passwords
disable_error (password wrong_password) = Api.wrong_password
disable_error _ = internal

abbrev pub reset_error : TwoFactorError → ApiError
reset_error no_two_factor = no_second_factor
reset_error no_account = no_second_factor
reset_error _ = internal

abbrev pub recovery_error : TwoFactorError → ApiError
recovery_error no_two_factor = no_recovery_codes
recovery_error (password too_many_attempts) = too_many_wrong_passwords
recovery_error (password wrong_password) = Api.wrong_password
recovery_error (password no_password_here) = no_password_kept
recovery_error no_account = no_password_kept
recovery_error _ = internal

-- A failure is only logged, and nothing was revoked then.
abbrev pub logged : PasswordState → Op ℕ → PasswordState × Result ApiError ℕ
logged p (ok o) = (record p { store = o.after }, ok o.value)
logged p (err e) = (p, ok 0)

-- The API tokens, if there is a manager of them.
abbrev pub revoke_all : Bool → Text → Action ℕ
revoke_all true subject p = logged p (delete_tokens_for_owner p.store subject)
revoke_all false subject p = (p, ok 0)

-- The sessions but the one to keep, with how many ended when a failure stopped it.
abbrev pub end_elsewhere : Bool → Text → (Memory → Text) → Action ℕ
end_elsewhere true subject kept p =
    let ends = end_others p.store subject (kept p.store) in
    (record p { store = ends.0.0 }, ok ends.0.1)
end_elsewhere false subject kept p = (p, ok 0)

module _ (services : Services) (x : External) (who : Caller) where
  -- The other sessions of whoever asks end, and then the API tokens are revoked: the store
  -- afterwards, and how many of each.
  unfoldable pub sign_out_elsewhere : Text → Action (ℕ × ℕ)
  unfolding current_id end_others delete_tokens_for_owner
  sign_out_elsewhere subject = do
    ended ← end_elsewhere services.sessions subject (current_id x who)
    deleted ← revoke_all services.tokens subject
    pure (ended, deleted)

  unfoldable pub change_password_for : Text → Text → ℕ → Action ℕ
  unfolding current_user refuse_api_token has_password sign_out_elsewhere
  change_password_for present next now = do
    user ← current_user who
    refuse_api_token who
    refuse_if (not services.passwords || not (has_password user.provider)) password_elsewhere
    refuse_if (ltb (byte_length next) min_password_length) password_too_short
    changed ←
        stepping_all password_error (λ p. change_password x.hashing p user.subject present next now)
    counts ← sign_out_elsewhere user.subject
    pure counts.0

  -- `twoFactorFor`
  unfoldable pub two_factor_for : Action Identity
  unfolding current_user refuse_api_token has_password
  two_factor_for = do
    user ← current_user who
    refuse_api_token who
    refuse_if (not services.two_factor || not (has_password user.provider)) second_factor_elsewhere
    refuse_if (not (user.provider == codes "simple")) basic_auth
    pure user

  unfoldable pub start_two_factor_for : Text → Action Text
  unfolding two_factor_for
  start_two_factor_for secret = do
    user ← two_factor_for
    stepping start_error (λ s. start s user.subject secret)

  unfoldable pub confirm_two_factor_for : Text → List Text → ℕ → Action (List Text)
  unfolding two_factor_for sign_out_elsewhere
  confirm_two_factor_for code fresh now = do
    user ← two_factor_for
    recovery ← stepping confirm_error (λ s. confirm x.hash x.mac s user.subject code fresh now)
    counts ← sign_out_elsewhere user.subject
    pure recovery

  unfoldable pub disable_two_factor_for : Text → ℕ → Action (Unit {0})
  unfolding two_factor_for
  disable_two_factor_for pass now = do
    user ← two_factor_for
    stepping_all disable_error (λ p. disable x.hashing p user.subject pass now)

  -- For an admin.
  unfoldable pub reset_two_factor_for : Text → Action (Unit {0})
  unfolding current_admin
  reset_two_factor_for name = do
    user ← current_admin who
    refuse_if (not services.two_factor) no_second_factors
    stepping reset_error (λ s. reset s name)

  unfoldable pub new_recovery_codes_for : Text → List Text → ℕ → Action (List Text)
  unfolding two_factor_for
  new_recovery_codes_for pass fresh now = do
    user ← two_factor_for
    stepping_all recovery_error
        (λ p. replace_recovery_codes x.hash x.hashing p user.subject pass fresh now)
