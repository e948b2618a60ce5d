-- ===== src/Websessions/Invariant.antt =====
-- The invariant of the stored sessions, and that the storage's operations on them keep it.
use wg_access_server.Prelude.{
  ℕ, false, ◌≡◌, sym, ap, ◌∙◌, inl, inr, some, [], ◌∷◌, ◌==◌, list_eq, list_beq_iff, nat_eq, arith,
  ok, Bool-cases, Option-cases, ==_refl,
}
use wg_access_server.Prelude.GoMap.{
  GoMap, get, put, delete, IsMap, get-put, get-delete, put-IsMap, delete-IsMap,
}
use wg_access_server.Prelude.Text.{Text}
use wg_access_server.Storage.{Session}
use wg_access_server.Storage.Memory.{Memory, Outcome}
use wg_access_server.Storage.Memory.Sessions.{
  session_hash_taken, find_session, save_session, touch_session,
}

-- Each session stands under its id, and no two have one hash.
pub record IsSessionMap (m : GoMap Text Session) : Type 0 where
  pub is_map : IsMap m
  pub keyed : (k : Text) (t : Session) → get m k ≡ some t → t.id ≡ k
  pub unique :
      (j k : Text) (t u : Session) → get m j ≡ some t → get m k ≡ some u → t.hash ≡ u.hash → j ≡ k

pub session_hash_taken-eq-false :
    (m : GoMap Text Session) (hash id k : Text) (t : Session)
    → session_hash_taken m hash id ≡ false
    → get m k ≡ some t
    → t.hash ≡ hash
    → t.id ≡ id
unfolding session_hash_taken get
session_hash_taken-eq-false [] hash id k t free h same = cc
session_hash_taken-eq-false ((i, u) ∷ m) hash id k t free h same = ground (
  arith,
  list_beq_iff i k,
  list_beq_iff u.id id,
  list_beq_iff u.hash hash,
  session_hash_taken-eq-false m hash id k t,
)

found :
    (m : GoMap Text Session) (hash : Text) (t : Session)
    → IsMap m
    → find_session m hash ≡ some t
    → (k : Text) × (get m k ≡ some t) × (t.hash ≡ hash)
unfolding find_session get
found [] hash t w h = cc
found ((i, u) ∷ m) hash t w h = elim (Bool-cases (u.hash == hash)) [
  | inl e ↦ (i, ground (arith, ==_refl i), ground (arith, list_beq_iff u.hash hash))
  | inr e ↦
      let (k, p, same) = found m hash t w.1 (ground arith) in
      (k, ground (arith, list_beq_iff i k), same)
]

put-IsSessionMap :
    (m : GoMap Text Session) (t : Session)
    → IsSessionMap m
    → ((k : Text) (u : Session) → get m k ≡ some u → u.hash ≡ t.hash → k ≡ t.id)
    → IsSessionMap (put m t.id t)
put-IsSessionMap m t w free = record {
  is_map = put-IsMap m t.id t w.is_map;
  keyed = λ k u. rw get-put (ground (arith, list_beq_iff t.id k, w.keyed k u));
  unique = λ j k u v.
      rw (get-put m t.id j t, get-put m t.id k t)
        (ground
          (arith, list_beq_iff t.id j, list_beq_iff t.id k, w.unique j k u v, free j u, free k v));
}

pub delete-IsSessionMap :
    (m : GoMap Text Session) (id : Text) → IsSessionMap m → IsSessionMap (delete m id)
delete-IsSessionMap m id w = record {
  is_map = delete-IsMap m id w.is_map;
  keyed = λ k t. rw get-delete (ground (arith, w.keyed k t));
  unique = λ j k t u. rw (get-delete m id j, get-delete m id k) (ground (arith, w.unique j k t u));
}

pub save_session-IsSessionMap :
    (s : Memory) (t : Session) (o : Outcome Unit)
    → IsSessionMap s.sessions
    → save_session s t ≡ ok o
    → IsSessionMap o.after.sessions
unfolding save_session
save_session-IsSessionMap s t o w h = ground (
  arith,
  put-IsSessionMap s.sessions t w (λ k u p same.
      sym (w.keyed k u p)
      ∙ session_hash_taken-eq-false s.sessions t.hash t.id k u (ground arith) p same),
)

pub touch_session-IsSessionMap :
    (s : Memory) (id : Text) (now : ℕ) (o : Outcome Unit)
    → IsSessionMap s.sessions
    → touch_session s id now ≡ ok o
    → IsSessionMap o.after.sessions
unfolding touch_session
touch_session-IsSessionMap s id now o w h = elim (Option-cases (get s.sessions id)) [
  | inl e ↦ ground arith
  | inr (t, e) ↦
      let t' = record t { last_seen_at = now } in
      let kept =
        put-IsSessionMap s.sessions t' w
          (λ k u p same. w.unique k id u t p e same ∙ sym (w.keyed id t e)) in
      ground (arith, w.keyed id t e, kept)
]

-- A session that is found by a hash stands under its id and has the hash.
pub find_session-get :
    (m : GoMap Text Session) (hash : Text) (t : Session)
    → IsSessionMap m
    → find_session m hash ≡ some t
    → (get m t.id ≡ some t) × (t.hash ≡ hash)
find_session-get m hash t w h =
    let (k, p, same) = found m hash t w.is_map h in (ap (λ i. get m i) (w.keyed k t p) ∙ p, same)
