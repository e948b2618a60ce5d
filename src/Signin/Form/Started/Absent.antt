-- ===== src/Signin/Form/Started/Absent.antt =====
-- When no session has a hash.
use wg_access_server.Prelude.{
  ℕ, ◌+◌, ◌≡◌, ◌≢◌, refl, ◌⊎◌, inl, inr, Option, none, some, [], ◌∷◌, list_eq, list_beq_iff, nat_eq,
  arith, Option-cases, Result-cases, err,
}
use wg_access_server.Prelude.GoMap.{GoMap, get, put, delete}
use wg_access_server.Prelude.Text.{Text}
use wg_access_server.Authnz.{Identity}
use wg_access_server.Storage.{Session, User}
use wg_access_server.Storage.Memory.{Memory}
use wg_access_server.Storage.Memory.Sessions.{
  save_session, find_session, get_session_by_hash, touch_session, delete_session,
}
use wg_access_server.Websessions.{
  Request, invalid_session, find, touch, identity, end_session, create,
}
use wg_access_server.Websessions.Lifecycle.{find_session-delete}
use wg_access_server.Websessions.Invariant.{IsSessionMap, touch_session-IsSessionMap}

pub find_session-delete-none :
    (m : GoMap Text Session) (id hash : Text)
    → find_session m hash ≡ none
    → find_session (delete m id) hash ≡ none
unfolding find_session delete
find_session-delete-none [] id hash h = refl
find_session-delete-none ((k, t) ∷ m) id hash h = ground (arith, find_session-delete-none m id hash)

pub find_session-put-none :
    (m : GoMap Text Session) (id hash : Text) (t u : Session)
    → get m id ≡ some t
    → u.hash ≡ t.hash
    → find_session m hash ≡ none
    → find_session (put m id u) hash ≡ none
unfolding find_session put get
find_session-put-none [] id hash t u at same h = ground arith
find_session-put-none ((k, v) ∷ m) id hash t u at same h =
    ground (arith, find_session-put-none m id hash t u)

-- No session with the hash.
abbrev pub Lacks : Text → Memory → Type 0
Lacks hash s = find_session s.sessions hash ≡ none

pub touch-Lacks :
    (s : Memory) (t : Session) (now : ℕ) (hash : Text) → Lacks hash s → Lacks hash (touch s t now)
unfolding touch touch_session
touch-Lacks s t now hash h = elim (Option-cases (get s.sessions t.id)) [
  | inl e ↦ ground arith
  | inr (u, e) ↦ ground (
    arith,
    find_session-put-none s.sessions t.id hash u (record u { last_seen_at = now }) e refl h,
  )
]

pub identity-Lacks :
    (sha : Text → Text) (decode : Text → Option Identity) (s : Memory) (id : Text) (now : ℕ)
    (hash : Text)
    → Lacks hash s
    → Lacks hash (identity sha decode s id now).0
unfolding identity
identity-Lacks sha decode s id now hash h = elim (Result-cases (find sha s id)) [
  | inr (e, f) ↦ ground arith
  | inl (t, f) ↦ ground (arith, touch-Lacks s t now hash h, Option-cases (decode t.identity))
]

pub end_session-Lacks :
    (sha : Text → Text) (s : Memory) (id hash : Text)
    → Lacks hash s
    → Lacks hash (end_session sha s id).0
unfolding end_session delete_session
end_session-Lacks sha s id hash h = elim (Result-cases (find sha s id)) [
  | inr (e, f) ↦ ground arith
  | inl (t, f) ↦
      ground
        (arith, find_session-delete-none s.sessions t.id hash h, Option-cases (get s.sessions t.id))
]

-- The ended session, and no other secret of the same hash, is found no more.
pub end_session-own :
    (sha : Text → Text) (s : Memory) (id : Text)
    → IsSessionMap s.sessions
    → Lacks (sha id) (end_session sha s id).0 ⊎ (id ≡ [])
unfolding end_session find get_session_by_hash delete_session
end_session-own sha s [] w = inr refl
end_session-own sha s (c ∷ id) w = elim (Option-cases (find_session s.sessions (sha (c ∷ id)))) [
  | inl e ↦ inl (ground arith)
  | inr (t, e) ↦ inl (ground (arith, find_session-delete s.sessions (sha (c ∷ id)) t w e))
]

pub find_session-put-other :
    (m : GoMap Text Session) (id hash : Text) (t : Session)
    → t.hash ≢ hash
    → find_session m hash ≡ none
    → find_session (put m id t) hash ≡ none
unfolding find_session put
find_session-put-other [] id hash t other h = ground (arith, list_beq_iff t.hash hash)
find_session-put-other ((k, u) ∷ m) id hash t other h =
    ground (arith, list_beq_iff t.hash hash, find_session-put-other m id hash t other)

pub create-Lacks :
    (sha : Text → Text) (encode : Identity → Text) (max_age : ℕ) (s : Memory) (who : Identity)
    (r : Request) (id secret : Text) (now : ℕ) (hash : Text)
    → sha secret ≢ hash
    → Lacks hash s
    → Lacks hash (create sha encode max_age s who r id secret now).0
unfolding create save_session
create-Lacks sha encode max_age s who r id secret now hash other h =
    let session : Session = record {
      id = id;
      owner = who.subject;
      hash = sha secret;
      identity = encode who;
      user_agent = r.user_agent;
      remote_addr = r.remote_addr;
      created_at = now;
      expires_at = now + max_age;
      last_seen_at = now;
    } in
    ground (arith, find_session-put-other s.sessions id hash session other h)

pub Lacks-identity :
    (sha : Text → Text) (decode : Text → Option Identity) (s : Memory) (id : Text) (at : ℕ)
    → Lacks (sha id) s
    → (identity sha decode s id at).1 ≡ err invalid_session
unfolding identity find get_session_by_hash
Lacks-identity sha decode s [] at h = ground arith
Lacks-identity sha decode s (c ∷ id) at h = ground arith

pub touch-IsSessionMap :
    (s : Memory) (t : Session) (now : ℕ)
    → IsSessionMap s.sessions
    → IsSessionMap (touch s t now).sessions
unfolding touch
touch-IsSessionMap s t now w = elim (Result-cases (touch_session s t.id now)) [
  | inl (o, e) ↦ ground (arith, touch_session-IsSessionMap s t.id now o w e)
  | inr (e, f) ↦ ground (arith, w)
]

pub identity-IsSessionMap :
    (sha : Text → Text) (decode : Text → Option Identity) (s : Memory) (id : Text) (now : ℕ)
    → IsSessionMap s.sessions
    → IsSessionMap (identity sha decode s id now).0.sessions
unfolding identity
identity-IsSessionMap sha decode s id now w = elim (Result-cases (find sha s id)) [
  | inr (e, f) ↦ ground (arith, w)
  | inl (t, f) ↦ ground (arith, w, touch-IsSessionMap s t now w, Option-cases (decode t.identity))
]

pub identity-users :
    (sha : Text → Text) (decode : Text → Option Identity) (s : Memory) (users : GoMap Text User)
    (id : Text) (at : ℕ)
    → (identity sha decode (record s { users = users }) id at).1 ≡ (identity sha decode s id at).1
unfolding identity find get_session_by_hash
identity-users sha decode s users [] at = ground arith
identity-users sha decode s users (c ∷ id) at =
    elim (Option-cases (find_session s.sessions (sha (c ∷ id)))) [
      | inl e ↦ ground arith
      | inr (t, e) ↦ ground (arith, Option-cases (decode t.identity))
    ]
