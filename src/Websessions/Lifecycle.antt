-- ===== src/Websessions/Lifecycle.antt =====
-- A session from its start to its end.
use wg_access_server.Prelude.{
  ℕ, ◌+◌, false, ◌≡◌, ◌≢◌, refl, Option, none, some, [], ◌∷◌, list_eq, list_beq_iff, nat_eq, leb,
  arith, ok, err, if◌then◌else◌, Option-cases, ==_refl, inl, inr,
}
use wg_access_server.Prelude.GoMap.{GoMap, get, put, delete, get-delete}
use wg_access_server.Prelude.Text.{Text}
use wg_access_server.Authnz.{Identity}
use wg_access_server.Storage.{Session, session_expired}
use wg_access_server.Storage.Memory.{Memory, Outcome}
use wg_access_server.Storage.Memory.Sessions.{
  session_hash_taken, find_session, save_session, delete_session, get_session_by_hash,
  without_session_owner, delete_sessions_for_owner,
}
use wg_access_server.Websessions.{
  Request, invalid_session, create, find, identity, end_session, end_all_for_owner,
}
use wg_access_server.Websessions.Invariant.{IsSessionMap, find_session-get, delete-IsSessionMap}

session_hash_taken-find_session :
    (m : GoMap Text Session) (hash id : Text)
    → find_session m hash ≡ none
    → session_hash_taken m hash id ≡ false
unfolding session_hash_taken find_session
session_hash_taken-find_session [] hash id h = refl
session_hash_taken-find_session ((k, t) ∷ m) hash id h =
    ground (arith, session_hash_taken-find_session m hash id)

find_session-put :
    (m : GoMap Text Session) (id : Text) (t : Session)
    → find_session m t.hash ≡ none
    → find_session (put m id t) t.hash ≡ some t
unfolding find_session put
find_session-put [] id t h = ground (arith, ==_refl t.hash)
find_session-put ((k, u) ∷ m) id t h = ground (arith, ==_refl t.hash, find_session-put m id t)

-- A started session says who signed in until its time is over, and then no more, if the hash of its
-- secret is no other session's, the secret is not empty, and the JSON of an identity is read back.
pub create-identity :
    (hash : Text → Text) (encode : Identity → Text) (decode : Text → Option Identity) (max_age : ℕ)
    (s : Memory) (who : Identity) (r : Request) (id secret : Text) (now at : ℕ)
    → decode (encode who) ≡ some who
    → secret ≢ []
    → find_session s.sessions (hash secret) ≡ none
    → let started = create hash encode max_age s who r id secret now in
      (started.1 ≡ ok secret)
      × ((identity hash decode started.0 secret at).1
          ≡ (if leb (now + max_age) at then err invalid_session else ok who))
unfolding create save_session identity find get_session_by_hash session_expired
create-identity hash encode decode max_age s who r id [] now at json secret fresh =
    absurd (secret refl)
create-identity hash encode decode max_age s who r id (c ∷ t) now at json secret fresh =
    let session : Session = record {
      id = id;
      owner = who.subject;
      hash = hash (c ∷ t);
      identity = encode who;
      user_agent = r.user_agent;
      remote_addr = r.remote_addr;
      created_at = now;
      expires_at = now + max_age;
      last_seen_at = now;
    } in
    ground (
      arith,
      session_hash_taken-find_session s.sessions (hash (c ∷ t)) id fresh,
      find_session-put s.sessions id session fresh,
    )

pub find_session-delete :
    (m : GoMap Text Session) (hash : Text) (t : Session)
    → IsSessionMap m
    → find_session m hash ≡ some t
    → find_session (delete m t.id) hash ≡ none
find_session-delete m hash t w h = elim (Option-cases (find_session (delete m t.id) hash)) [
  | inl e ↦ e
  | inr (u, e) ↦
      let (p, same) = find_session-get m hash t w h in
      let (q, same') = find_session-get (delete m t.id) hash u (delete-IsSessionMap m t.id w) e in
      ground (arith, get-delete m t.id u.id, ==_refl t.id, w.unique t.id u.id t u)
]

-- In a store whose sessions stand under their ids, each hash once: after the session of a secret was
-- ended, which never fails, the secret is refused at every time, and the sessions of other hashes
-- are as they were.
pub end_session-identity :
    (hash : Text → Text) (decode : Text → Option Identity) (s : Memory) (secret : Text) (at : ℕ)
    → IsSessionMap s.sessions
    → ((end_session hash s secret).1 ≡ ok tt)
      × (identity hash decode (end_session hash s secret).0 secret at
          ≡ ((end_session hash s secret).0, err invalid_session))
      × ((id : Text) (t : Session)
          → get s.sessions id ≡ some t
          → t.hash ≢ hash secret
          → get (end_session hash s secret).0.sessions id ≡ some t)
unfolding end_session identity find get_session_by_hash delete_session
end_session-identity hash decode s [] at w = (refl, refl, (λ id t h other. h))
end_session-identity hash decode s (c ∷ t) at w =
    elim (Option-cases (find_session s.sessions (hash (c ∷ t)))) [
      | inl e ↦ ground arith
      | inr (u, e) ↦
          let (p, same) = find_session-get s.sessions (hash (c ∷ t)) u w e in
          let gone = find_session-delete s.sessions (hash (c ∷ t)) u w e in
          (
            ground arith,
            ground arith,
            λ id v h other. ground (arith, get-delete s.sessions u.id id, list_beq_iff u.id id),
          )
    ]

find_session-without_session_owner :
    (owner : Text) (m : GoMap Text Session) (hash : Text) (t : Session)
    → (find_session (without_session_owner owner m).0 hash ≡ some t → t.owner ≢ owner)
      × (find_session m hash ≡ some t
          → t.owner ≢ owner
          → find_session (without_session_owner owner m).0 hash ≡ some t)
unfolding find_session without_session_owner
find_session-without_session_owner owner [] hash t = ((λ h. cc), (λ h other. h))
find_session-without_session_owner owner ((k, u) ∷ m) hash t = (
  (λ h.
      ground
        (arith, list_beq_iff u.owner owner, find_session-without_session_owner owner m hash t)),
  (λ h other.
      ground
        (arith, list_beq_iff u.owner owner, find_session-without_session_owner owner m hash t)),
)

-- Once somebody was signed out everywhere, no secret leads to a session of theirs, and every secret
-- of somebody else's session leads to it as before.
pub end_all_for_owner-find :
    (hash : Text → Text) (s : Memory) (owner secret : Text) (o : Outcome ℕ) (t : Session)
    → end_all_for_owner s owner ≡ ok o
    → (find hash o.after secret ≡ ok t → t.owner ≢ owner)
      × (find hash s secret ≡ ok t → t.owner ≢ owner → find hash o.after secret ≡ ok t)
unfolding end_all_for_owner delete_sessions_for_owner find get_session_by_hash
end_all_for_owner-find hash s owner [] o t h = ((λ e. cc), (λ e other. cc))
end_all_for_owner-find hash s owner (c ∷ cs) o t h = (
  (λ e. ground (arith, find_session-without_session_owner owner s.sessions (hash (c ∷ cs)) t)),
  (λ e other.
      ground (arith, find_session-without_session_owner owner s.sessions (hash (c ∷ cs)) t)),
)
