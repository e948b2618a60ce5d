-- ===== src/Api/Admin/Revoked.antt =====
-- What is left of somebody after an admin revoked their access, or deleted them.
pub mod Without
use wg_access_server.Prelude.{
  ℕ, true, false, ◌≡◌, ◌≢◌, refl, sym, none, some, List, [], ◌∷◌, length, list_eq, list_beq_iff,
  nat_eq, arith, Option-cases, inl, inr, Result, ok,
}
use wg_access_server.Prelude.GoMap.{GoMap, get, delete, get-delete}
use wg_access_server.Prelude.Text.{Text}
use wg_access_server.Authnz.{Identity, is_admin}
use wg_access_server.Storage.{Device, Session, ApiToken, Passkey, access_allowed}
use wg_access_server.Storage.Memory.{
  Memory, without_owner, delete_for_owner, block_owner, block_for_owner,
}
use wg_access_server.Storage.Memory.Tokens.{without_token_owner, delete_tokens_for_owner}
use wg_access_server.Storage.Memory.Sessions.{without_session_owner, delete_sessions_for_owner}
use wg_access_server.Storage.Memory.Users.{drop_passkeys, delete_user}
use wg_access_server.Storage.Memory.Wellformed.Bulk.{get-block_owner}
use wg_access_server.Websessions.{end_all_for_owner}
use wg_access_server.Users.Passwords.{PasswordState}
use wg_access_server.Api.{Caller, Services, current_user, current_admin}
use wg_access_server.Api.Admin.{
  Revocation, revoke_tokens, end_sessions, delete_user_for, revoke_access_for,
}
use wg_access_server.Prelude.{◌∙◌, subst}
use wg_access_server.Storage.Memory.Wellformed.Steps.{Sound}
use wg_access_server.Storage.Memory.Wellformed.Bulk.{block_for_owner-IsWellformed}
use wg_access_server.Devices.Sync.{Peer, WireGuard, KeyForms, sync_peers}
use wg_access_server.Devices.Sync.Peers.{IsReliable, has-sync_peers}
use wg_access_server.Devices.Requests.Blocked.{blocked-refused}
use wg_access_server.Api.{ApiError}
use wg_access_server.Api.Spares.{Spares}
use wg_access_server.Api.Spares.Accounts.{get-without_token_owner}
use wg_access_server.Api.Admin.Revoked.Without.{
  without_token_owner-others, without_session_owner-others, get-without_session_owner,
  without_owner-others, get-without_owner, drop_passkeys-others, get-drop_passkeys,
  block_owner-blocked, get-block_owner-other,
}

-- No token and no session of somebody.
abbrev pub IsSignedOut : Text → Memory → Type 0
IsSignedOut name s =
    ((k : Text) (t : ApiToken) → get s.tokens k ≡ some t → t.owner ≢ name)
    × ((k : Text) (t : Session) → get s.sessions k ≡ some t → t.owner ≢ name)

-- All devices of somebody are blocked.
abbrev pub IsBlocked : Text → Memory → Type 0
IsBlocked name s =
    (k : Text) (d : Device) (at : ℕ)
    → get s.db k ≡ some d
    → d.owner ≡ name
    → access_allowed d at ≡ false

-- Nothing of somebody is stored.
abbrev pub IsGone : Text → Memory → Type 0
IsGone name s =
    IsSignedOut name s
    × ((k : Text) (d : Device) → get s.db k ≡ some d → d.owner ≢ name)
    × ((k : Text) (q : Passkey) → get s.passkeys k ≡ some q → q.owner ≢ name)
    × (get s.users name ≡ none)

module _ (services : Services) (who : Caller) (p : PasswordState) (admin : Identity) (name : Text)
    (known : who.identity ≡ some admin) (rights : is_admin admin.claims ≡ true)
    (tokens : services.tokens ≡ true) (sessions : services.sessions ≡ true) where
  abbrev signed_out : Memory → Memory
  signed_out s = record s {
    tokens = (without_token_owner name s.tokens).0;
    sessions = (without_session_owner name s.sessions).0;
  }

  abbrev revoked : Memory → Memory
  revoked s = record (signed_out s) { db = (block_owner name s.db).0 }

  abbrev gone : Memory → Memory
  gone s = record (signed_out s) {
    db = (without_owner name s.db).0;
    users = delete s.users name;
    passkeys = drop_passkeys name s.passkeys;
  }

  abbrev revocation : Memory → Revocation
  revocation s = record {
    tokens_deleted = (without_token_owner name s.tokens).1;
    sessions_ended = (without_session_owner name s.sessions).1;
    devices_blocked = length (block_owner name s.db).1;
  }

  revoke_access_for-after :
      name ≢ admin.subject
      → revoke_access_for services who name p
        ≡ (record p { store = revoked p.store }, ok (revocation p.store))
  unfolding revoke_access_for revoke_tokens end_sessions current_admin current_user
      delete_tokens_for_owner end_all_for_owner delete_sessions_for_owner block_for_owner
  revoke_access_for-after other = ground (arith, list_beq_iff name admin.subject)

  delete_user_for-after :
      delete_user_for services who name p ≡ (record p { store = gone p.store }, ok tt)
  unfolding delete_user_for revoke_tokens end_sessions current_admin current_user
      delete_tokens_for_owner end_all_for_owner delete_sessions_for_owner delete_for_owner
      delete_user
  delete_user_for-after = ground arith

  signed_out-IsSignedOut : (s : Memory) → IsSignedOut name (signed_out s)
  signed_out-IsSignedOut s =
      (without_token_owner-others name s.tokens, without_session_owner-others name s.sessions)

  revoked-Spares : (s : Memory) → Spares name s (revoked s)
  revoked-Spares s = record {
    devices = get-block_owner-other name s.db;
    tokens = get-without_token_owner name s.tokens;
    sessions = get-without_session_owner name s.sessions;
    passkeys = λ k q h other. h;
    users = λ k other. refl;
  }

  gone-Spares : (s : Memory) → Spares name s (gone s)
  gone-Spares s = record {
    devices = get-without_owner name s.db;
    tokens = get-without_token_owner name s.tokens;
    sessions = get-without_session_owner name s.sessions;
    passkeys = get-drop_passkeys name s.passkeys;
    users = λ k other. ground (arith, get-delete s.users name k, list_beq_iff name k, other);
  }

  gone-IsGone : (s : Memory) → IsGone name (gone s)
  gone-IsGone s = (
    signed_out-IsSignedOut s,
    without_owner-others name s.db,
    drop_passkeys-others name s.passkeys,
    ground (arith, get-delete s.users name name, list_beq_iff name name),
  )

  -- Where the tokens and the sessions are managed, an admin's request to revoke the access of somebody
  -- else succeeds; afterwards that person has no API token and no session, every device of theirs is
  -- refused at every time, and nothing of anybody else has changed.
  pub revoke_access_for-signs_out :
      name ≢ admin.subject
      → ((v : Revocation) × ((revoke_access_for services who name p).1 ≡ ok v))
        × IsSignedOut name (revoke_access_for services who name p).0.store
        × IsBlocked name (revoke_access_for services who name p).0.store
        × Spares name p.store (revoke_access_for services who name p).0.store
  revoke_access_for-signs_out other =
      subst
        (λ (r : PasswordState × Result ApiError Revocation).
          ((v : Revocation) × (r.1 ≡ ok v))
          × IsSignedOut name r.0.store
          × IsBlocked name r.0.store
          × Spares name p.store r.0.store)
        (sym (revoke_access_for-after other))
        (
          (revocation p.store, refl),
          signed_out-IsSignedOut p.store,
          block_owner-blocked name p.store.db,
          revoked-Spares p.store,
        )

  -- Where the tokens and the sessions are managed, an admin's request to delete somebody succeeds;
  -- afterwards no device, API token, session, passkey and user record of theirs is stored, and nothing
  -- of anybody else has changed.
  pub delete_user_for-leaves_nothing :
      ((delete_user_for services who name p).1 ≡ ok tt)
      × IsGone name (delete_user_for services who name p).0.store
      × Spares name p.store (delete_user_for services who name p).0.store
  delete_user_for-leaves_nothing =
      subst
        (λ (r : PasswordState × Result ApiError (Unit {0})).
          (r.1 ≡ ok tt) × IsGone name r.0.store × Spares name p.store r.0.store)
        (sym delete_user_for-after) (refl, gone-IsGone p.store, gone-Spares p.store)

  blocked_at :
      (k : Text) (d : Device)
      → get p.store.db k ≡ some d
      → d.owner ≡ name
      → get (revoked p.store).db k ≡ some (record d { disabled = true })
  blocked_at k d at own =
      ground (arith, get-block_owner name p.store.db k, list_beq_iff d.owner name)

  revoked-Sound : Sound p.store → Sound (revoked p.store)
  unfolding block_for_owner
  revoked-Sound w = block_for_owner-IsWellformed p.store name _ refl w

  -- With a reliable interface and well-formed devices: once an admin has revoked the access of somebody
  -- else, a sync at any time, whatever peers there are, leaves no peer for the public key of any device
  -- of theirs, if that key is not empty.
  pub revoke_access_for-unpeers :
      {wg : WireGuard} (r : IsReliable wg) (f : KeyForms) (k : Text) (d : Device) (later : ℕ)
      (st : wg.State) (ps : List Peer)
      → name ≢ admin.subject
      → Sound p.store
      → get p.store.db k ≡ some d
      → d.owner ≡ name
      → d.public_key ≢ []
      → wg.list_peers st ≡ some ps
      → r.has
          (sync_peers wg f (revoke_access_for services who name p).0.store later st).0
          d.public_key
        ≡ false
  revoke_access_for-unpeers {wg} r f k d later st ps other w at own named listed =
      subst
        (λ (q : PasswordState × Result ApiError Revocation).
          r.has (sync_peers wg f q.0.store later st).0 d.public_key ≡ false)
        (sym (revoke_access_for-after other))
        (has-sync_peers r f (revoked p.store) later st ps d.public_key listed
          ∙ blocked-refused (revoked p.store) later k (record d { disabled = true })
              (revoked-Sound w) (blocked_at k d at own) refl named)
