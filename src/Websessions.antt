-- ===== src/Websessions.antt =====
-- internal/websessions/websessions.go over the in-memory storage. The random secret and session id,
-- the SHA-256 in hex, and the JSON of an identity are arguments.
pub mod Lifecycle
pub mod Invariant
use wg_access_server.Prelude.{
  ℕ, ◌+◌, ◌-◌, Bool, true, false, Option, none, some, List, [], ◌∷◌, ◌==◌, list_eq, nat_eq, leb,
  if◌then◌else◌, Result, ok, err, any,
}
use wg_access_server.Prelude.Text.{Text, is_nil}
use wg_access_server.Authnz.{Identity}
use wg_access_server.Storage.{Session, session_expired}
use wg_access_server.Storage.Memory.{Memory, Op, Outcome, StorageError, session_not_found}
use wg_access_server.Storage.Memory.Sessions.{
  save_session, get_session_by_hash, touch_session, delete_session, list_sessions,
  delete_sessions_for_owner,
}

pub data SessionError : Type 0 where
  invalid_session undecodable : SessionError
  storage : StorageError → SessionError

-- `touchInterval`, a minute in nanoseconds
abbrev pub touch_interval : ℕ
touch_interval = 60000000000

-- What `userAgent` and `remoteAddr` give for the HTTP request.
pub record Request : Type 0 where
  pub user_agent : Text
  pub remote_addr : Text

-- `Create`, for an identity that is there.
unfoldable pub create :
    (Text → Text)
    → (Identity → Text)
    → ℕ
    → Memory
    → Identity
    → Request
    → Text
    → Text
    → ℕ
    → Memory × Result SessionError Text
create hash encode max_age s who r id secret now =
    elim (save_session s (record {
      id = id;
      owner = who.subject;
      hash = hash secret;
      identity = encode who;
      user_agent = r.user_agent;
      remote_addr = r.remote_addr;
      created_at = now;
      expires_at = now + max_age;
      last_seen_at = now;
    })) [ ok o ↦ (o.after, ok secret) | err e ↦ (s, err (storage e)) ]

-- A session that is missing is reported as an invalid one.
abbrev pub or_invalid : Result StorageError Session → Result SessionError Session
or_invalid (ok session) = ok session
or_invalid (err session_not_found) = err invalid_session
or_invalid (err e) = err (storage e)

-- The store after an operation whose failure is only logged.
abbrev pub after_or_same : {A : Type 0} → Memory → Op A → Memory
after_or_same s (ok o) = o.after
after_or_same s (err e) = s

-- `Find`
unfoldable pub find : (Text → Text) → Memory → Text → Result SessionError Session
find hash s id =
    if is_nil id then err invalid_session else or_invalid (get_session_by_hash s (hash id))

unfoldable pub touch : Memory → Session → ℕ → Memory
touch s session now =
    if leb touch_interval (now - session.last_seen_at)
    then after_or_same s (touch_session s session.id now)
    else s

unfoldable pub identity :
    (Text → Text)
    → (Text → Option Identity)
    → Memory
    → Text
    → ℕ
    → Memory × Result SessionError Identity
unfolding find touch
identity hash decode s id now = elim (find hash s id) [
  | err e ↦ (s, err e)
  | ok session ↦
      if session_expired session now
      then (s, err invalid_session)
      else elim (decode session.identity) [
        | none ↦ (s, err undecodable)
        | some who ↦ (touch s session now, ok who)
      ]
]

-- `End`: an id that names no session is not an error.
unfoldable pub end_session : (Text → Text) → Memory → Text → Memory × Result SessionError (Unit {0})
unfolding find
end_session hash s id = elim (find hash s id) [
  | ok session ↦ elim (delete_session s session.id) [
    | ok o ↦ (o.after, ok tt)
    | err e ↦ (s, err (storage e))
  ]
  | err invalid_session ↦ (s, ok tt)
  | err e ↦ (s, err e)
]

-- `Delete`
unfoldable pub delete_own : Memory → Text → Text → Memory × Result SessionError (Unit {0})
delete_own s owner id =
    if any (λ (t : Session). t.id == id) (list_sessions s owner)
    then elim (delete_session s id) [ ok o ↦ (o.after, ok tt) | err e ↦ (s, err (storage e)) ]
    else (s, err invalid_session)

-- The loop of `EndOthers`: the store, how many ended, and the error that stopped it.
unfoldable pub end_each :
    Text → List Session → Memory → ℕ → (Memory × ℕ) × Result SessionError (Unit {0})
end_each kept [] s ended = ((s, ended), ok tt)
end_each kept (t ∷ ts) s ended =
    if t.id == kept then end_each kept ts s ended else elim (delete_session s t.id) [
      | ok o ↦ end_each kept ts o.after (ended + 1)
      | err e ↦ ((s, ended), err (storage e))
    ]

unfoldable pub end_others : Memory → Text → Text → (Memory × ℕ) × Result SessionError (Unit {0})
unfolding end_each
end_others s owner kept = end_each kept (list_sessions s owner) s 0

unfoldable pub end_all_for_owner : Memory → Text → Op ℕ
end_all_for_owner s owner = delete_sessions_for_owner s owner
