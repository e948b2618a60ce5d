-- ===== src/Api/Passkeys.antt =====
-- The passkeys in internal/api/user_service.go. The site is what `relyingParty` says of the request.
use wg_access_server.Prelude.{
  ℕ, Bool, true, false, not, ◌||◌, Option, none, List, map, ◌==◌, list_eq, nat_eq,
}
use wg_access_server.Prelude.Text.{Text, codes}
use wg_access_server.Authnz.{Identity}
use wg_access_server.Storage.{Passkey}
use wg_access_server.Storage.Memory.Passkeys.{list_passkeys}
use wg_access_server.Users.Passkeys.{
  PasskeyError, no_passkey, no_challenge, already_registered, Site, WebAuthn, has, remove, relabel,
  begin_registration, finish_registration,
}
use wg_access_server.Api.{
  ApiError, internal, basic_auth, passkeys_elsewhere, challenge_over, passkey_exists,
  passkey_refused, no_such_passkey, internally, Caller, External, Services, Action, pure, ◌>>=◌,
  ◌>>◌, refuse_if, reading, stepping, current_user, refuse_api_token, has_password,
}
use wg_access_server.Api.Account.{sign_out_elsewhere}
use wg_access_server.Api.Devices.{responding}

-- `proto.Passkey`
pub record Item : Type 0 where
  pub id : Text
  pub name : Text
  pub created_at : ℕ
  pub last_used_at : Option ℕ

abbrev pub item_of : Passkey → Item
item_of p = record {
  id = p.id;
  name = p.name;
  created_at = p.created_at;
  last_used_at = p.last_used_at;
}

abbrev pub new_item : Passkey → Item
new_item p = record { id = p.id; name = p.name; created_at = p.created_at; last_used_at = none }

abbrev pub finish_error : PasskeyError → ApiError
finish_error no_challenge = challenge_over
finish_error already_registered = passkey_exists
finish_error _ = passkey_refused

abbrev pub missing_error : PasskeyError → ApiError
missing_error no_passkey = no_such_passkey
missing_error _ = internal

module _ (services : Services) (wa : WebAuthn) (x : External) (who : Caller) where
  -- `passkeysFor`
  unfoldable pub passkeys_for : Action Identity
  unfolding current_user has_password
  passkeys_for = do
    user ← current_user who
    refuse_if (not services.passkeys || not (has_password user.provider)) passkeys_elsewhere
    refuse_if (not (user.provider == codes "simple")) basic_auth
    pure user

  unfoldable pub list_own_passkeys : Action (List Item)
  unfolding passkeys_for
  list_own_passkeys = do
    user ← passkeys_for
    reading (λ s. map item_of (list_passkeys s user.subject))

  unfoldable pub begin_passkey_for : Site → ℕ → Action Text
  unfolding passkeys_for refuse_api_token
  begin_passkey_for site now = do
    user ← passkeys_for
    refuse_api_token who
    stepping internally (λ s. begin_registration wa site s user.subject now)

  abbrev pub sign_out_if : Bool → Text → Action (Unit {0})
  sign_out_if true subject = responding (λ c. tt) (sign_out_elsewhere services x who subject)
  sign_out_if false subject = pure tt

  -- The first passkey ends the other sessions and revokes the tokens.
  unfoldable pub finish_passkey_for : Site → Text → Text → ℕ → Action Item
  unfolding passkeys_for refuse_api_token sign_out_elsewhere has
  finish_passkey_for site name answer now = do
    user ← passkeys_for
    refuse_api_token who
    has_one ← reading (λ s. has s user.subject)
    p ← stepping finish_error (λ s. finish_registration wa site s user.subject name answer now)
    sign_out_if (not has_one) user.subject
    pure (new_item p)

  unfoldable pub rename_passkey_for : Text → Text → Action Item
  unfolding passkeys_for refuse_api_token
  rename_passkey_for id name = do
    user ← passkeys_for
    refuse_api_token who
    responding item_of (stepping missing_error (λ s. relabel s user.subject id name))

  unfoldable pub delete_passkey_for : Text → Action (Unit {0})
  unfolding passkeys_for refuse_api_token
  delete_passkey_for id = do
    user ← passkeys_for
    refuse_api_token who
    stepping missing_error (λ s. remove s user.subject id)
