-- ===== src/Api/Calls/Isolation/Owned.antt =====
-- The calls about devices, tokens and sessions.
use wg_access_server.Prelude.{
  ℕ, false, not, ◌&&◌, ◌≡◌, Option, none, some, list_eq, nat_eq, ok, arith, Bool-cases,
  Result-cases, inl, inr,
}
use wg_access_server.Prelude.GoMap.{get}
use wg_access_server.Prelude.Text.{Text, is_nil}
use wg_access_server.Authnz.{Identity, is_admin}
use wg_access_server.Storage.Memory.{Memory, Outcome}
use wg_access_server.Devices.Manager.{rotate_keys}
use wg_access_server.Users.Passwords.{PasswordState}
use wg_access_server.Websessions.{end_others}
use wg_access_server.Apitokens.{create_token}
use wg_access_server.Api.{Caller, External, Services, current_user, refuse_api_token}
use wg_access_server.Api.Devices.{
  owner_of, new_of_rotation, device_error, add_device_for, delete_device_for, rename_device_for,
  rotate_key_for,
}
use wg_access_server.Api.Tokens.{token_user, create_token_for, delete_token_for}
use wg_access_server.Api.Sessions.{ended, current_id, delete_session_for, delete_other_sessions}
use wg_access_server.Api.Spares.{Keeps, Keeps-refl, Keeps-eq}
use wg_access_server.Api.Spares.Devices.{
  add_device-Keeps, rename_device-Keeps, rotate_keys-Keeps, remove_device-Keeps,
}
use wg_access_server.Api.Spares.Managers.{
  create_token-Keeps, revoke-Keeps, delete_own-Keeps, end_others-Keeps,
}
use wg_access_server.Api.Spares.Actions.{IsKind, writing-IsKind, responding-IsKind, gate-IsKind}
use wg_access_server.Api.Calls.Isolation.Gates.{
  refusing-IsKind, current_user-IsGate, token_user-IsGate,
}

rotation-ok :
    (s : Memory) (user name public preshared : Text) (o : Outcome _)
    → new_of_rotation (rotate_keys s user name public preshared) ≡ ok o
    → (old : Text) × (rotate_keys s user name public preshared ≡ ok (old, o))
rotation-ok s user name public preshared o h =
    elim (Result-cases (rotate_keys s user name public preshared)) [
      | inr (e, r) ↦ ground arith
      | inl ((old, o'), r) ↦ (old, ground arith)
    ]

module _ (services : Services) (x : External) (who : Caller) (user : Identity)
    (known : who.identity ≡ some user) (plain : is_admin user.claims ≡ false) where
  -- Serving the calls about devices.
  pub delete_device_for-IsKind :
      (now : ℕ) (name : Text) → IsKind user.subject (delete_device_for x who now none name)
  unfolding delete_device_for
  delete_device_for-IsKind now name =
      gate-IsKind user (current_user who) _ (current_user-IsGate services x who user known plain) (
        writing-IsKind user.subject device_error _
          (λ s o h. remove_device-Keeps s user.subject name o h))

  pub rename_device_for-IsKind :
      (now : ℕ) (name new_name : Text)
      → IsKind user.subject (rename_device_for x who now none name new_name)
  unfolding rename_device_for
  rename_device_for-IsKind now name new_name =
      gate-IsKind user (current_user who) _ (current_user-IsGate services x who user known plain) (
        responding-IsKind user.subject _ _ (
          writing-IsKind user.subject device_error _
            (λ s o h. rename_device-Keeps s user.subject name new_name o h)))

  pub add_device_for-IsKind :
      (now : ℕ) (name public preshared : Text) (manual : _)
      → IsKind user.subject (add_device_for x who now name public preshared manual)
  unfolding add_device_for
  add_device_for-IsKind now name public preshared manual =
      gate-IsKind user (current_user who) _ (current_user-IsGate services x who user known plain) (
        responding-IsKind user.subject _ _ (
          writing-IsKind user.subject device_error _ (λ s o h.
            add_device-Keeps x.codec x.config s (owner_of user) name public preshared manual now o
              h)))

  pub rotate_key_for-IsKind :
      (now : ℕ) (name public preshared : Text)
      → IsKind user.subject (rotate_key_for x who now name public preshared)
  unfolding rotate_key_for
  rotate_key_for-IsKind now name public preshared =
      gate-IsKind user (current_user who) _ (current_user-IsGate services x who user known plain) (
        responding-IsKind user.subject _ _ (
          writing-IsKind user.subject device_error _ (λ s o h.
            let (old, r) = rotation-ok s user.subject name public preshared o h in
            rotate_keys-Keeps s user.subject name public preshared old o r)))

  pub create_token_for-IsKind :
      (name : Text) (expires_at : Option ℕ) (id random : Text) (now : ℕ) (p : PasswordState)
      → get p.store.tokens id ≡ none
      → Keeps user.subject p.store
          (create_token_for services x who name expires_at id random now p).0.store
  unfolding create_token_for token_user
  create_token_for-IsKind name expires_at id random now p fresh =
      elim (Bool-cases (services.tokens_enabled && is_nil who.api_token)) [
        | inr refused ↦ Keeps-eq (ground arith) (Keeps-refl user.subject p.store)
        | inl passed ↦
            Keeps-eq
              (ground (
                arith,
                Result-cases
                    (create_token x.hash x.encode p.store user name expires_at id random now).1,
              ))
              (create_token-Keeps x.hash x.encode p.store user name expires_at id random now fresh)
      ]

  pub delete_token_for-IsKind :
      (id : Text) → IsKind user.subject (delete_token_for services x who id)
  unfolding delete_token_for
  delete_token_for-IsKind id =
      gate-IsKind user (token_user services x who) _
        (token_user-IsGate services x who user known plain)
        (responding-IsKind user.subject _ _ (λ p. revoke-Keeps p.store user id plain))

  pub delete_session_for-IsKind : (id : Text) → IsKind user.subject (delete_session_for x who id)
  unfolding delete_session_for refuse_api_token
  delete_session_for-IsKind id =
      gate-IsKind user (current_user who) _ (current_user-IsGate services x who user known plain)
        (refusing-IsKind user.subject _ _ _ (λ p. delete_own-Keeps p.store user.subject id))

  ended-store :
      (s : Memory) (owner kept : Text)
      → (ended (end_others s owner kept)).0 ≡ (end_others s owner kept).0.0
  ended-store s owner kept = ground (arith, Result-cases (end_others s owner kept).1)

  pub delete_other_sessions-IsKind : IsKind user.subject (delete_other_sessions x who)
  unfolding delete_other_sessions refuse_api_token current_user
  delete_other_sessions-IsKind p =
      let kept = current_id x who p.store in
      elim (Bool-cases (is_nil who.api_token && not (is_nil kept))) [
        | inr refused ↦ Keeps-eq (ground arith) (Keeps-refl user.subject p.store)
        | inl passed ↦
            Keeps-eq (ground (arith, Result-cases (end_others p.store user.subject kept).1))
              (end_others-Keeps p.store user.subject kept)
      ]
