-- ===== src/Signin/Form/Started.antt =====
-- The session that a sign-in starts.
pub mod Absent
use wg_access_server.Prelude.{
  ℕ, ◌+◌, ◌≡◌, ◌≢◌, refl, sym, ap, ◌∙◌, ◌⊎◌, inl, inr, Option, none, some, [], ◌∷◌, list_eq,
  list_beq_iff, nat_eq, leb, arith, Option-cases, Bool-cases, Result-cases, Result, ok, err,
  if◌then◌else◌, subst,
}
use wg_access_server.Prelude.GoMap.{GoMap, get, put, delete}
use wg_access_server.Prelude.Text.{Text}
use wg_access_server.Authnz.{Identity}
use wg_access_server.Storage.{Session, User}
use wg_access_server.Storage.Memory.{Memory}
use wg_access_server.Storage.Memory.Sessions.{
  save_session, find_session, get_session_by_hash, touch_session, delete_session,
}
use wg_access_server.Storage.Memory.Users.{save_user}
use wg_access_server.Websessions.{
  Request, SessionError, invalid_session, find, touch, identity, end_session, create,
}
use wg_access_server.Websessions.Lifecycle.{create-identity, find_session-delete}
use wg_access_server.Websessions.Invariant.{IsSessionMap, touch_session-IsSessionMap}
use wg_access_server.Signin.Cookies.{
  Cookie, AuthSession, get_session, end_previous, session_id, set_session,
}
use wg_access_server.Signin.Login.{record_login, is_refused, start_session}
use wg_access_server.Signin.Form.{Attempt, Setup, Server, signed_in, who_is, sign_in}
use wg_access_server.Signin.Form.Started.Absent.{
  Lacks, find_session-delete-none, find_session-put-none, touch-Lacks, identity-Lacks,
  end_session-Lacks, end_session-own, find_session-put-other, create-Lacks, Lacks-identity,
  touch-IsSessionMap, identity-IsSessionMap, identity-users,
}

module _ (x : Setup) where
  get_session-Lacks :
      (s : Memory) (cookie : Option Cookie) (now : ℕ) (hash : Text)
      → Lacks hash s
      → Lacks hash (get_session x.coding s cookie now).0
  unfolding get_session
  get_session-Lacks s none now hash h = h
  get_session-Lacks s (some c) now hash h =
      let t = identity x.coding.hash x.coding.decode s c.id now in
      elim (Result-cases t.1) [
        | inl (who, e) ↦
            ground (arith, identity-Lacks x.coding.hash x.coding.decode s c.id now hash h)
        | inr (e, f) ↦
            ground (arith, identity-Lacks x.coding.hash x.coding.decode s c.id now hash h)
      ]

  end_previous-Lacks :
      (s : Memory) (cookie : Option Cookie) (now : ℕ) (hash : Text)
      → Lacks hash s
      → Lacks hash (end_previous x.coding s cookie [] now)
  unfolding end_previous
  end_previous-Lacks s cookie now hash h =
      let read = get_session x.coding s cookie now in
      let kept : Lacks hash read.0 = get_session-Lacks s cookie now hash h in
      elim (Option-cases read.1) [
        | inl e ↦ ground (arith, kept)
        | inr (session, e) ↦
            ground (arith, kept, end_session-Lacks x.coding.hash read.0 session.id hash kept)
      ]

  -- The store in which the new session is made, and after it.
  abbrev ended_before : Server x → Attempt → Memory
  ended_before sv r = end_previous x.coding sv.store r.cookie [] r.later

  abbrev created : Server x → Text → Attempt → Memory × Result SessionError Text
  created sv username r =
      create x.coding.hash x.coding.encode x.coding.max_age (ended_before sv r) (who_is x username)
        r.fresh.request r.fresh.id r.fresh.secret r.later

  sign_in-created :
      (sv : Server x) (username : Text) (r : Attempt) (who : Identity) (c : Cookie)
      → (sign_in x sv username r).1 ≡ (signed_in who, some c)
      → (who ≡ who_is x username)
        × ((created sv username r).1 ≡ ok c.id)
        × ((users : GoMap Text User) × ((sign_in x sv username r).0.store
              ≡ record (created sv username r).0 { users = users }))
  unfolding sign_in start_session set_session session_id record_login save_user
  sign_in-created sv username r who c h = elim (Result-cases (created sv username r).1) [
    | inr (e, f) ↦
        ground
          (arith, Bool-cases (is_refused sv.store (who_is x username)), Bool-cases r.fresh.saves)
    | inl (id, e) ↦ (
      ground
          (arith, Bool-cases (is_refused sv.store (who_is x username)), Bool-cases r.fresh.saves),
      ground
          (arith, Bool-cases (is_refused sv.store (who_is x username)), Bool-cases r.fresh.saves),
      (
        (record_login (created sv username r).0 (who_is x username) r.later).users,
        ground
            (arith, Bool-cases (is_refused sv.store (who_is x username)), Bool-cases r.fresh.saves),
      ),
    )
  ]

  -- Where a step of the form signs somebody in, the cookie leads to who signed in until the time of a
  -- session is over, and then no more, if the random secret is not empty and its hash is that of no
  -- session, and the JSON of the identity is read back.
  pub sign_in-identity :
      (sv : Server x) (username : Text) (r : Attempt) (who : Identity) (c : Cookie) (at : ℕ)
      → x.coding.decode (x.coding.encode (who_is x username)) ≡ some (who_is x username)
      → r.fresh.secret ≢ []
      → find_session sv.store.sessions (x.coding.hash r.fresh.secret) ≡ none
      → (sign_in x sv username r).1 ≡ (signed_in who, some c)
      → (identity x.coding.hash x.coding.decode (sign_in x sv username r).0.store c.id at).1
        ≡ (if leb (r.later + x.coding.max_age) at then err invalid_session else ok who)
  sign_in-identity sv username r who c at json secret fresh h =
      let (same, named, (users, stored)) = sign_in-created sv username r who c h in
      let kept =
        end_previous-Lacks sv.store r.cookie r.later (x.coding.hash r.fresh.secret) fresh in
      let (made, leads) =
        create-identity x.coding.hash x.coding.encode x.coding.decode x.coding.max_age
          (ended_before sv r) (who_is x username) r.fresh.request r.fresh.id r.fresh.secret r.later
          at json secret kept in
      let id : r.fresh.secret ≡ c.id = ground (arith, made, named) in
      ap (λ (s : Memory). (identity x.coding.hash x.coding.decode s c.id at).1) stored
      ∙ identity-users x.coding.hash x.coding.decode (created sv username r).0 users c.id at
      ∙ ap (λ (t : Text). (identity x.coding.hash x.coding.decode (created sv username r).0 t at).1)
          (sym id)
      ∙ leads
      ∙ ap
          (λ (i : Identity).
            if leb (r.later + x.coding.max_age) at then err invalid_session else ok i)
          (sym same)

  ended_before-Lacks :
      (sv : Server x) (r : Attempt) (old : Cookie) (session : AuthSession)
      → IsSessionMap sv.store.sessions
      → old.id ≢ []
      → (get_session x.coding sv.store (some old) r.later).1 ≡ some session
      → Lacks (x.coding.hash old.id) (end_previous x.coding sv.store (some old) [] r.later)
  unfolding end_previous get_session
  ended_before-Lacks sv r old session w named h =
      let t = identity x.coding.hash x.coding.decode sv.store old.id r.later in
      let kept = identity-IsSessionMap x.coding.hash x.coding.decode sv.store old.id r.later w in
      elim (Result-cases t.1) [
        | inr (e, f) ↦ ground (arith, named)
        | inl (who, e) ↦ elim (end_session-own x.coding.hash t.0 old.id kept) [
          | inl gone ↦ ground (arith, gone, named, list_beq_iff old.id [])
          | inr nameless ↦ absurd (named nameless)
        ]
      ]

  -- Where a step of the form signs somebody in, the session that the cookie of the request was for,
  -- if it could be read, has ended: its secret leads to nobody at any time, if no two sessions have a
  -- hash and the new secret has another one.
  pub sign_in-replaces :
      (sv : Server x) (username : Text) (r : Attempt) (who : Identity) (c old : Cookie)
      (session : AuthSession) (at : ℕ)
      → IsSessionMap sv.store.sessions
      → r.cookie ≡ some old
      → old.id ≢ []
      → (get_session x.coding sv.store (some old) r.later).1 ≡ some session
      → x.coding.hash r.fresh.secret ≢ x.coding.hash old.id
      → (sign_in x sv username r).1 ≡ (signed_in who, some c)
      → (identity x.coding.hash x.coding.decode (sign_in x sv username r).0.store old.id at).1
        ≡ err invalid_session
  sign_in-replaces sv username r who c old session at w given named read other h =
      let (same, made, (users, stored)) = sign_in-created sv username r who c h in
      let gone : Lacks (x.coding.hash old.id) (ended_before sv r) =
        subst
          (λ (o : Option Cookie).
            Lacks (x.coding.hash old.id) (end_previous x.coding sv.store o [] r.later))
          (sym given) (ended_before-Lacks sv r old session w named read) in
      let kept =
        create-Lacks x.coding.hash x.coding.encode x.coding.max_age (ended_before sv r)
          (who_is x username) r.fresh.request r.fresh.id r.fresh.secret r.later
          (x.coding.hash old.id) other gone in
      ap (λ (s : Memory). (identity x.coding.hash x.coding.decode s old.id at).1) stored
      ∙ identity-users x.coding.hash x.coding.decode (created sv username r).0 users old.id at
      ∙ Lacks-identity x.coding.hash x.coding.decode (created sv username r).0 old.id at kept
