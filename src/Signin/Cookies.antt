-- ===== src/Signin/Cookies.antt =====
-- internal/authnz/authsession/session.go. The cookie is signed by a store of gorilla/sessions, so a
-- request carries one that the server made, or none; what the flows of OAuth keep in it is left out.
use wg_access_server.Prelude.{
  ℕ, Bool, true, false, not, ◌&&◌, Option, none, some, [], ◌==◌, list_eq, nat_eq, if◌then◌else◌,
  Result, ok, err,
}
use wg_access_server.Prelude.Text.{Text, is_nil}
use wg_access_server.Authnz.{Identity, PendingLogin}
use wg_access_server.Storage.Memory.{Memory}
use wg_access_server.Websessions.{Request, SessionError, create, identity, end_session}

-- What the cookie holds of an `AuthSession`.
pub record Cookie : Type 0 where
  pub id : Text
  pub pending : Option PendingLogin

pub record AuthSession : Type 0 where
  pub id : Text
  pub identity : Option Identity
  pub pending : Option PendingLogin

-- SHA-256 in hex, the JSON of an identity, and how long a session lasts.
pub record Coding : Type 0 where
  pub hash : Text → Text
  pub encode : Identity → Text
  pub decode : Text → Option Identity
  pub max_age : ℕ

-- What the random source, the request and the store of the cookies give for a new session.
pub record Fresh : Type 0 where
  pub id : Text
  pub secret : Text
  pub request : Request
  pub saves : Bool

pub data CookieError : Type 0 where
  not_started not_saved : CookieError

module _ (x : Coding) where
  abbrev with_identity :
      Cookie → Memory × Result SessionError Identity → Memory × Option AuthSession
  with_identity c (s, ok who) =
      (s, some (record { id = c.id; identity = some who; pending = c.pending }))
  with_identity c (s, err e) = (s, none)

  -- `GetSession`
  unfoldable pub get_session : Memory → Option Cookie → ℕ → Memory × Option AuthSession
  get_session s none now = (s, none)
  get_session s (some c) now =
      if is_nil c.id
      then (s, some (record { id = []; identity = none; pending = c.pending }))
      else with_identity c (identity x.hash x.decode s c.id now)

  -- Ending a session: a failure is only logged.
  abbrev end_if : Bool → Memory → Text → Memory
  end_if true s id = (end_session x.hash s id).0
  end_if false s id = s

  abbrev end_unless : Text → Memory × Option AuthSession → Memory
  end_unless kept (s, none) = s
  end_unless kept (s, some previous) =
      end_if (not (is_nil previous.id) && not (previous.id == kept)) s previous.id

  -- The session that the cookie of the request names ends, unless the new one is the same.
  unfoldable pub end_previous : Memory → Option Cookie → Text → ℕ → Memory
  unfolding get_session
  end_previous s cookie kept now = end_unless kept (get_session s cookie now)

  abbrev named : Memory × Result SessionError Text → Memory × Result CookieError Text
  named (s, ok id) = (s, ok id)
  named (s, err e) = (s, err not_started)

  -- The id of the session: a new one for somebody who signed in.
  unfoldable pub session_id : Memory → AuthSession → Fresh → ℕ → Memory × Result CookieError Text
  session_id s new fresh now = elim new.identity [
    | none ↦ (s, ok new.id)
    | some who ↦
        if is_nil new.id
        then named (create x.hash x.encode x.max_age s who fresh.request fresh.id fresh.secret now)
        else (s, ok new.id)
  ]

  abbrev pub saved :
      Option PendingLogin
      → Bool
      → Memory × Result CookieError Text
      → Memory × Result CookieError Cookie
  saved pending saves (s, err e) = (s, err e)
  saved pending true (s, ok id) = (s, ok (record { id = id; pending = pending }))
  saved pending false (s, ok id) = (s, err not_saved)

  -- `SetSession`: the cookie that the browser gets.
  unfoldable pub set_session :
      Memory → Option Cookie → AuthSession → Fresh → ℕ → Memory × Result CookieError Cookie
  unfolding end_previous session_id
  set_session s cookie new fresh now =
      saved new.pending fresh.saves (session_id (end_previous s cookie new.id now) new fresh now)

  -- `ClearSession`: the cookie is dropped after it.
  unfoldable pub clear_session : Memory → Option Cookie → ℕ → Memory
  unfolding end_previous
  clear_session s cookie now = end_previous s cookie [] now
