-- ===== src/Api/Sessions.antt =====
-- internal/api/session_service.go
use wg_access_server.Prelude.{ℕ, Bool, List, [], map, ◌==◌, list_eq, nat_eq, Result, ok, err}
use wg_access_server.Prelude.Text.{Text, is_nil}
use wg_access_server.Storage.{Session}
use wg_access_server.Storage.Memory.{Memory}
use wg_access_server.Storage.Memory.Sessions.{list_sessions}
use wg_access_server.Websessions.{SessionError, invalid_session, find, delete_own, end_others}
use wg_access_server.Api.{
  ApiError, internal, no_such_session, no_session_to_keep, internally, Caller, External, Action,
  ◌>>=◌, ◌>>◌, refuse_if, reading, stepping, current_user, refuse_api_token,
}

-- `proto.Session`
pub record Item : Type 0 where
  pub id : Text
  pub user_agent : Text
  pub remote_addr : Text
  pub created_at : ℕ
  pub last_seen_at : ℕ
  pub expires_at : ℕ
  pub current : Bool

-- `mapSession`
unfoldable pub map_session : Text → Session → Item
map_session current t = record {
  id = t.id;
  user_agent = t.user_agent;
  remote_addr = t.remote_addr;
  created_at = t.created_at;
  last_seen_at = t.last_seen_at;
  expires_at = t.expires_at;
  current = t.id == current;
}

abbrev pub session_error : SessionError → ApiError
session_error invalid_session = no_such_session
session_error _ = internal

abbrev pub id_of : Result SessionError Session → Text
id_of (ok t) = t.id
id_of (err e) = []

-- How many ended; the error that stopped it wins.
abbrev pub ended : {E : Type 0} → (Memory × ℕ) × Result E (Unit {0}) → Memory × Result E ℕ
ended ((s, n), ok _) = (s, ok n)
ended ((s, n), err e) = (s, err e)

module _ (x : External) (who : Caller) where
  -- `currentID`: the stored id of the session that the request came with.
  unfoldable pub current_id : Memory → Text
  unfolding find
  current_id s = id_of (find x.hash s who.session)

  unfoldable pub list_own_sessions : Action (List Item)
  unfolding current_user map_session current_id
  list_own_sessions = do
    user ← current_user who
    reading (λ s. map (map_session (current_id s)) (list_sessions s user.subject))

  unfoldable pub delete_session_for : Text → Action (Unit {0})
  unfolding current_user refuse_api_token
  delete_session_for id = do
    user ← current_user who
    refuse_api_token who
    stepping session_error (λ s. delete_own s user.subject id)

  unfoldable pub delete_other_sessions : Action ℕ
  unfolding current_user refuse_api_token current_id
  delete_other_sessions = do
    user ← current_user who
    refuse_api_token who
    current ← reading current_id
    refuse_if (is_nil current) no_session_to_keep
    stepping internally (λ s. ended (end_others s user.subject current))
