-- ===== src/Storage/Memory/Sessions.antt =====
-- The browser sessions of internal/storage/sessions.go, in memory.
use wg_access_server.Prelude.{
  ℕ, ◌+◌, Bool, false, not, ◌&&◌, ◌||◌, Option, none, some, List, [], ◌∷◌, ◌==◌, list_eq, nat_eq,
  leb, if◌then◌else◌, Result, ok, err, keep,
}
use wg_access_server.Prelude.GoMap.{GoMap, get, put, delete, values}
use wg_access_server.Prelude.Text.{Text}
use wg_access_server.Storage.{Session, session_expired}
use wg_access_server.Storage.Memory.{
  Memory, Op, StorageError, hash_exists, session_not_found, or_missing,
}

-- A session of another id has the hash.
unfoldable pub session_hash_taken : GoMap Text Session → Text → Text → Bool
session_hash_taken [] hash id = false
session_hash_taken ((k, stored) ∷ m) hash id =
    stored.hash == hash && not (stored.id == id) || session_hash_taken m hash id

abbrev sessions_written : {A : Type 0} → Memory → GoMap Text Session → A → Op A
sessions_written s sessions a =
    ok (record { after = record s { sessions = sessions }; events = []; value = a })

unfoldable pub save_session : Memory → Session → Op Unit
save_session s session =
    if session_hash_taken s.sessions session.hash session.id
    then err hash_exists
    else sessions_written s (put s.sessions session.id session) tt

-- Sorting by the time of creation, the newest first.
unfoldable pub insert_session : Session → List Session → List Session
insert_session t [] = t ∷ []
insert_session t (u ∷ ts) =
    let rest = insert_session t ts in if leb u.created_at t.created_at then t ∷ u ∷ ts else u ∷ rest

unfoldable pub sort_sessions : List Session → List Session
unfolding insert_session
sort_sessions [] = []
sort_sessions (t ∷ ts) = insert_session t (sort_sessions ts)

unfoldable pub list_sessions : Memory → Text → List Session
unfolding sort_sessions
list_sessions s owner = sort_sessions (keep (λ (t : Session). t.owner == owner) (values s.sessions))

-- The first session with the hash.
unfoldable pub find_session : GoMap Text Session → Text → Option Session
find_session [] hash = none
find_session ((k, t) ∷ m) hash = if t.hash == hash then some t else find_session m hash

unfoldable pub get_session_by_hash : Memory → Text → Result StorageError Session
unfolding find_session
get_session_by_hash s hash = or_missing (find_session s.sessions hash) session_not_found

unfoldable pub touch_session : Memory → Text → ℕ → Op Unit
touch_session s id at = elim (get s.sessions id) [
  | none ↦ err session_not_found
  | some session ↦ sessions_written s (put s.sessions id (record session { last_seen_at = at })) tt
]

unfoldable pub delete_session : Memory → Text → Op Unit
delete_session s id = sessions_written s (delete s.sessions id) tt

-- The sessions that stay, and how many go.
unfoldable pub without_session_owner : Text → GoMap Text Session → GoMap Text Session × ℕ
without_session_owner owner [] = ([], 0)
without_session_owner owner ((id, t) ∷ m) =
    let (rest, gone) = without_session_owner owner m in
    if t.owner == owner then (rest, gone + 1) else ((id, t) ∷ rest, gone)

unfoldable pub delete_sessions_for_owner : Memory → Text → Op ℕ
unfolding without_session_owner
delete_sessions_for_owner s owner =
    sessions_written s (without_session_owner owner s.sessions).0
      (without_session_owner owner s.sessions).1

-- The sessions that may still be used, and how many go.
unfoldable pub without_expired : ℕ → GoMap Text Session → GoMap Text Session × ℕ
without_expired now [] = ([], 0)
without_expired now ((id, t) ∷ m) =
    let (rest, gone) = without_expired now m in
    if session_expired t now then (rest, gone + 1) else ((id, t) ∷ rest, gone)

unfoldable pub delete_expired_sessions : Memory → ℕ → Op ℕ
unfolding without_expired
delete_expired_sessions s now =
    sessions_written s (without_expired now s.sessions).0 (without_expired now s.sessions).1
