-- ===== src/Api/Admin.antt =====
-- What an admin does to users in internal/api/user_service.go.
pub mod Revoked
use wg_access_server.Prelude.{
  ℕ, Bool, true, false, not, Option, none, some, List, [], ◌∷◌, ◌==◌, list_eq, nat_eq, Result, ok,
  err, length,
}
use wg_access_server.Prelude.Text.{Text}
use wg_access_server.Authnz.{Identity, is_admin}
use wg_access_server.Storage.{Device}
use wg_access_server.Storage.Memory.{
  Memory, Outcome, StorageError, delete_for_owner, block_for_owner,
}
use wg_access_server.Storage.Memory.Tokens.{delete_tokens_for_owner}
use wg_access_server.Storage.Memory.Users.{delete_user}
use wg_access_server.Websessions.{end_all_for_owner}
use wg_access_server.Devices.People.{Person, list_people}
use wg_access_server.Api.{
  ApiError, own_access, internally, Caller, External, Services, Action, pure, raise, and_then,
  ◌>>=◌, ◌>>◌, refuse_if, reading, writing, current_admin,
}
use wg_access_server.Api.Devices.{responding}

-- `RevokeAccessRes`
pub record Revocation : Type 0 where
  pub tokens_deleted : ℕ
  pub sessions_ended : ℕ
  pub devices_blocked : ℕ

-- A manager that is there does its part.
abbrev pub if_given : Bool → Action ℕ → Action ℕ
if_given true action = action
if_given false action = pure 0

module _ (services : Services) (who : Caller) where
  unfoldable pub list_users_for : Action (List Person)
  unfolding current_admin
  list_users_for = do user ← current_admin who; reading list_people

  -- The tokens and the sessions of somebody.
  unfoldable pub revoke_tokens : Text → Action ℕ
  revoke_tokens name =
      if_given services.tokens (writing internally (λ s. delete_tokens_for_owner s name))

  unfoldable pub end_sessions : Text → Action ℕ
  end_sessions name =
      if_given services.sessions (writing internally (λ s. end_all_for_owner s name))

  unfoldable pub delete_user_for : Text → Action (Unit {0})
  unfolding current_admin revoke_tokens end_sessions
  delete_user_for name = do
    user ← current_admin who
    deleted ← revoke_tokens name
    ended ← end_sessions name
    devices ← writing internally (λ s. delete_for_owner s name)
    writing internally (λ s. delete_user s name)

  unfoldable pub revoke_access_for : Text → Action Revocation
  unfolding current_admin revoke_tokens end_sessions
  revoke_access_for name = do
    user ← current_admin who
    refuse_if (name == user.subject) own_access
    deleted ← revoke_tokens name
    ended ← end_sessions name
    blocked ← writing internally (λ s. block_for_owner s name)
    pure (record {
      tokens_deleted = deleted;
      sessions_ended = ended;
      devices_blocked = length blocked;
    })
