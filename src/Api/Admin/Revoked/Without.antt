-- ===== src/Api/Admin/Revoked/Without.antt =====
-- What the maps hold without an owner, or with the owner blocked.
use wg_access_server.Prelude.{
  ℕ, false, ◌≡◌, ◌≢◌, some, [], ◌∷◌, list_eq, list_beq_iff, nat_eq, arith, Option-cases, inl, inr,
}
use wg_access_server.Prelude.GoMap.{GoMap, get}
use wg_access_server.Prelude.Text.{Text}
use wg_access_server.Storage.{Device, Session, ApiToken, Passkey, access_allowed}
use wg_access_server.Storage.Memory.{without_owner, block_owner}
use wg_access_server.Storage.Memory.Tokens.{without_token_owner}
use wg_access_server.Storage.Memory.Sessions.{without_session_owner}
use wg_access_server.Storage.Memory.Users.{drop_passkeys}
use wg_access_server.Storage.Memory.Wellformed.Bulk.{get-block_owner}

module _ (owner : Text) where
  -- What a map without an owner's entries holds.
  pub without_token_owner-others :
      (m : GoMap Text ApiToken) (k : Text) (t : ApiToken)
      → get (without_token_owner owner m).0 k ≡ some t
      → t.owner ≢ owner
  unfolding without_token_owner get
  without_token_owner-others [] k t h = cc
  without_token_owner-others ((j, u) ∷ m) k t h =
      ground (arith, list_beq_iff u.owner owner, without_token_owner-others m k t)

  pub without_session_owner-others :
      (m : GoMap Text Session) (k : Text) (t : Session)
      → get (without_session_owner owner m).0 k ≡ some t
      → t.owner ≢ owner
  unfolding without_session_owner get
  without_session_owner-others [] k t h = cc
  without_session_owner-others ((j, u) ∷ m) k t h =
      ground (arith, list_beq_iff u.owner owner, without_session_owner-others m k t)

  pub get-without_session_owner :
      (m : GoMap Text Session) (k : Text) (t : Session)
      → get m k ≡ some t
      → t.owner ≢ owner
      → get (without_session_owner owner m).0 k ≡ some t
  unfolding without_session_owner get
  get-without_session_owner [] k t h other = h
  get-without_session_owner ((j, u) ∷ m) k t h other =
      ground (arith, list_beq_iff u.owner owner, get-without_session_owner m k t, other)

  pub without_owner-others :
      (m : GoMap Text Device) (k : Text) (d : Device)
      → get (without_owner owner m).0 k ≡ some d
      → d.owner ≢ owner
  unfolding without_owner get
  without_owner-others [] k d h = cc
  without_owner-others ((j, e) ∷ m) k d h =
      ground (arith, list_beq_iff e.owner owner, without_owner-others m k d)

  pub get-without_owner :
      (m : GoMap Text Device) (k : Text) (d : Device)
      → get m k ≡ some d
      → d.owner ≢ owner
      → get (without_owner owner m).0 k ≡ some d
  unfolding without_owner get
  get-without_owner [] k d h other = h
  get-without_owner ((j, e) ∷ m) k d h other =
      ground (arith, list_beq_iff e.owner owner, get-without_owner m k d, other)

  pub drop_passkeys-others :
      (m : GoMap Text Passkey) (k : Text) (p : Passkey)
      → get (drop_passkeys owner m) k ≡ some p
      → p.owner ≢ owner
  unfolding drop_passkeys get
  drop_passkeys-others [] k p h = cc
  drop_passkeys-others ((j, q) ∷ m) k p h =
      ground (arith, list_beq_iff q.owner owner, drop_passkeys-others m k p)

  pub get-drop_passkeys :
      (m : GoMap Text Passkey) (k : Text) (p : Passkey)
      → get m k ≡ some p
      → p.owner ≢ owner
      → get (drop_passkeys owner m) k ≡ some p
  unfolding drop_passkeys get
  get-drop_passkeys [] k p h other = h
  get-drop_passkeys ((j, q) ∷ m) k p h other =
      ground (arith, list_beq_iff q.owner owner, get-drop_passkeys m k p, other)

  -- A device of the owner is blocked, and the others are as they were.
  pub block_owner-blocked :
      (m : GoMap Text Device) (k : Text) (d : Device) (at : ℕ)
      → get (block_owner owner m).0 k ≡ some d
      → d.owner ≡ owner
      → access_allowed d at ≡ false
  unfolding access_allowed
  block_owner-blocked m k d at h own = elim (Option-cases (get m k)) [
    | inl e ↦ ground (arith, get-block_owner owner m k)
    | inr (e, f) ↦ ground (arith, get-block_owner owner m k, list_beq_iff e.owner owner)
  ]

  pub get-block_owner-other :
      (m : GoMap Text Device) (k : Text) (d : Device)
      → get m k ≡ some d
      → d.owner ≢ owner
      → get (block_owner owner m).0 k ≡ some d
  get-block_owner-other m k d h other =
      ground (arith, get-block_owner owner m k, list_beq_iff d.owner owner)
