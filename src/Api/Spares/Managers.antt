-- ===== src/Api/Spares/Managers.antt =====
-- The managers of tokens, sessions, passwords, second factors and passkeys leave the others alone
-- when they work for one user.
use wg_access_server.Prelude.{
  ℕ, ◌+◌, false, ◌++◌, ◌≡◌, refl, sym, Option, none, some, List, [], ◌∷◌, ◌==◌, list_eq,
  list_beq_iff, nat_eq, arith, Option-cases, Bool-cases, Result-cases, inl, inr, subst, In, In-keep,
  any, any-In,
}
use wg_access_server.Prelude.GoMap.{get, delete, get-delete, values, In-values}
use wg_access_server.Prelude.Text.{Text, trim_space}
use wg_access_server.Authnz.{Identity, is_admin}
use wg_access_server.Storage.{Session}
use wg_access_server.Storage.Memory.{Memory}
use wg_access_server.Storage.Memory.Tokens.{save_token, get_token, delete_token}
use wg_access_server.Storage.Memory.Sessions.{
  insert_session, sort_sessions, list_sessions, delete_session,
}
use wg_access_server.Apitokens.{validate, new_token, create_token, revoke, prefix}
use wg_access_server.Websessions.{delete_own, end_each, end_others}
use wg_access_server.Websessions.Invariant.{IsSessionMap}
use wg_access_server.Api.Spares.{
  Keeps, Keeps-refl, Keeps-trans, Keeps-eq, Keeps-tokens_put, Keeps-tokens_delete,
  Keeps-sessions_delete,
}

pub create_token-Keeps :
    (hash : Text → Text) (encode : Identity → Text) (s : Memory) (owner : Identity) (name : Text)
    (expires_at : Option ℕ) (id random : Text) (now : ℕ)
    → get s.tokens id ≡ none
    → Keeps owner.subject s (create_token hash encode s owner name expires_at id random now).0
unfolding create_token save_token new_token
create_token-Keeps hash encode s owner name expires_at id random now fresh =
    let given = trim_space name in
    let token = new_token hash encode owner given expires_at id (prefix ++ random) now in
    elim (Result-cases (validate given expires_at now)) [
      | inr (e, refused) ↦ Keeps-eq (ground arith) (Keeps-refl owner.subject s)
      | inl (u, valid) ↦ elim (Result-cases (save_token s token)) [
        | inr (e, refused) ↦ Keeps-eq (ground arith) (Keeps-refl owner.subject s)
        | inl (o, saved) ↦
            Keeps-eq (ground arith)
              (Keeps-tokens_put owner.subject s token (λ t h. ground (arith, fresh)))
      ]
    ]

pub revoke-Keeps :
    (s : Memory) (user : Identity) (id : Text)
    → is_admin user.claims ≡ false
    → Keeps user.subject s (revoke s user id).0
unfolding revoke get_token delete_token
revoke-Keeps s user id plain = elim (Option-cases (get s.tokens id)) [
  | inl e ↦ Keeps-eq (ground arith) (Keeps-refl user.subject s)
  | inr (t, e) ↦ elim (Bool-cases (t.owner == user.subject)) [
    | inl own ↦
        Keeps-eq (ground arith)
          (Keeps-tokens_delete user.subject s id t e ((list_beq_iff t.owner user.subject).0 own))
    | inr other ↦ Keeps-eq (ground (arith, plain)) (Keeps-refl user.subject s)
  ]
]

In-insert_session : (t u : Session) (ts : List Session) → In t (insert_session u ts) → In t (u ∷ ts)
unfolding insert_session
In-insert_session t u [] n = n
In-insert_session t u (v ∷ ts) n = ground (arith, In-insert_session t u ts)

In-sort_sessions : (t : Session) (ts : List Session) → In t (sort_sessions ts) → In t ts
unfolding sort_sessions
In-sort_sessions t [] n = n
In-sort_sessions t (u ∷ ts) n =
    ground (arith, In-insert_session t u (sort_sessions ts) n, In-sort_sessions t ts)

-- Every session that is listed stands under its id, and is the owner's.
list_sessions-In :
    (s : Memory) (owner : Text) (t : Session)
    → IsSessionMap s.sessions
    → In t (list_sessions s owner)
    → (get s.sessions t.id ≡ some t) × (t.owner ≡ owner)
unfolding list_sessions
list_sessions-In s owner t w n =
    let (m, own) = In-keep _ t (values s.sessions) (In-sort_sessions t _ n) in
    let (k, g) = In-values s.sessions t w.is_map m in
    (
      subst (λ (i : Text). get s.sessions i ≡ some t) (sym (w.keyed k t g)) g,
      (list_beq_iff t.owner owner).0 own,
    )

pub delete_own-Keeps : (s : Memory) (owner id : Text) → Keeps owner s (delete_own s owner id).0
unfolding delete_own delete_session
delete_own-Keeps s owner id w =
    elim (Bool-cases (any (λ (t : Session). t.id == id) (list_sessions s owner))) [
      | inr missing ↦ Keeps-eq (ground arith) (Keeps-refl owner s) w
      | inl there ↦
          let (t, n, same) = any-In _ (list_sessions s owner) there in
          let (g, own) = list_sessions-In s owner t w.sessions n in
          Keeps-eq (ground arith)
            (Keeps-sessions_delete owner s id (λ u h. ground (arith, list_beq_iff t.id id))) w
    ]

-- The sessions of the list are the owner's, as far as they are there.
abbrev AreOwn : Text → Memory → List Session → Type 0
AreOwn owner s ts = (t u : Session) → In t ts → get s.sessions t.id ≡ some u → u.owner ≡ owner

end_each-Keeps :
    (owner kept : Text) (ts : List Session) (s : Memory) (ended : ℕ)
    → AreOwn owner s ts
    → Keeps owner s (end_each kept ts s ended).0.0
unfolding end_each delete_session
end_each-Keeps owner kept [] s ended own = Keeps-refl owner s
end_each-Keeps owner kept (t ∷ ts) s ended own =
    let without : Memory = record s { sessions = delete s.sessions t.id } in
    elim (Bool-cases (t.id == kept)) [
      | inl same ↦
          Keeps-eq (ground arith) (end_each-Keeps owner kept ts s ended (λ u v n. own u v (inr n)))
      | inr other ↦ Keeps-eq (ground arith) (
          Keeps-trans (Keeps-sessions_delete owner s t.id (λ u h. own t u (inl refl) h)) (
            end_each-Keeps owner kept ts without (ended + 1)
              (λ u v n h. own u v (inr n) (ground (arith, get-delete s.sessions t.id u.id)))))
    ]

pub end_others-Keeps :
    (s : Memory) (owner kept : Text) → Keeps owner s (end_others s owner kept).0.0
unfolding end_others
end_others-Keeps s owner kept w =
    end_each-Keeps owner kept (list_sessions s owner) s 0
      (λ t u n h. let (g, own) = list_sessions-In s owner t w.sessions n in ground arith) w
