-- ===== src/Api/Calls/Isolation/Accounts.antt =====
-- The calls about the account of whoever asks.
use wg_access_server.Prelude.{
  ℕ, Bool, true, false, not, ◌&&◌, ◌||◌, ◌≡◌, refl, some, List, list_eq, nat_eq, ok, err, arith,
  Bool-cases, inl, inr,
}
use wg_access_server.Prelude.Text.{Text, is_nil}
use wg_access_server.Authnz.{Identity, is_admin}
use wg_access_server.Storage.Memory.{Memory, Op, Outcome}
use wg_access_server.Storage.Memory.Tokens.{delete_tokens_for_owner}
use wg_access_server.Users.Passkeys.{WebAuthn, Site}
use wg_access_server.Users.Passwords.{PasswordState}
use wg_access_server.Users.Passwords.{change_password}
use wg_access_server.Users.TwoFactor.{confirm}
use wg_access_server.Users.Passkeys.{has, finish_registration, relabel}
use wg_access_server.Api.{
  Caller, External, Services, Action, pure, ◌>>=◌, ◌>>◌, stepping, stepping_all, current_user,
  refuse_api_token, has_password,
}
use wg_access_server.Api.Sessions.{current_id}
use wg_access_server.Api.Account.{
  password_error, confirm_error, logged, revoke_all, end_elsewhere, sign_out_elsewhere,
  two_factor_for, change_password_for, start_two_factor_for, confirm_two_factor_for,
  disable_two_factor_for, new_recovery_codes_for,
}
use wg_access_server.Api.Passkeys.{
  item_of, new_item, finish_error, missing_error, sign_out_if, passkeys_for, begin_passkey_for,
  finish_passkey_for, rename_passkey_for, delete_passkey_for,
}
use wg_access_server.Api.Spares.{Keeps, Keeps-refl, Keeps-eq}
use wg_access_server.Api.Spares.Managers.{end_others-Keeps}
use wg_access_server.Api.Spares.Accounts.{
  delete_tokens_for_owner-Keeps, start-Keeps, confirm-Keeps, change_password-Keeps, disable-Keeps,
  replace_recovery_codes-Keeps,
}
use wg_access_server.Api.Spares.Ceremonies.{
  begin_registration-Keeps, finish_registration-Keeps, remove-Keeps, relabel-Keeps,
}
use wg_access_server.Api.Spares.Actions.{
  IsKind, pure-IsKind, >>=-IsKind, responding-IsKind, IsGate, gate-IsKind,
}
use wg_access_server.Prelude.{ltb}
use wg_access_server.Prelude.Text.{byte_length}
use wg_access_server.Api.Account.{min_password_length}
use wg_access_server.Api.Calls.Isolation.Gates.{refusing-IsKind, two_factor_for-IsGate}

end_elsewhere-IsKind :
    (given : Bool) (subject : Text) (kept : Memory → Text)
    → IsKind subject (end_elsewhere given subject kept)
end_elsewhere-IsKind true subject kept p = end_others-Keeps p.store subject (kept p.store)
end_elsewhere-IsKind false subject kept p = Keeps-refl subject p.store

logged-Keeps :
    (p : PasswordState) (subject : Text) (r : Op ℕ)
    → ((o : Outcome ℕ) → r ≡ ok o → Keeps subject p.store o.after)
    → Keeps subject p.store (logged p r).0.store
logged-Keeps p subject (ok o) kept = kept o refl
logged-Keeps p subject (err e) kept = Keeps-refl subject p.store

revoke_all-IsKind : (given : Bool) (subject : Text) → IsKind subject (revoke_all given subject)
revoke_all-IsKind true subject p =
    logged-Keeps p subject (delete_tokens_for_owner p.store subject)
      (delete_tokens_for_owner-Keeps p.store subject)
revoke_all-IsKind false subject p = Keeps-refl subject p.store

module _ (services : Services) (x : External) (who : Caller) (user : Identity)
    (known : who.identity ≡ some user) (plain : is_admin user.claims ≡ false) where
  pub sign_out_elsewhere-IsKind :
      IsKind user.subject (sign_out_elsewhere services x who user.subject)
  unfolding sign_out_elsewhere
  sign_out_elsewhere-IsKind =
      >>=-IsKind user.subject {A = ℕ} {B = ℕ × ℕ}
        (end_elsewhere services.sessions user.subject (current_id x who)) _
        (end_elsewhere-IsKind services.sessions user.subject (current_id x who))
        (λ n.
          >>=-IsKind user.subject {A = ℕ} {B = ℕ × ℕ} (revoke_all services.tokens user.subject) _
            (revoke_all-IsKind services.tokens user.subject)
            (λ m. pure-IsKind user.subject {A = ℕ × ℕ} (n, m)))

  -- The sign-out that follows a change.
  pub after_change-IsKind :
      {A B : Type 0} (change : Action A) (f : A → (ℕ × ℕ) → B)
      → IsKind user.subject change
      → IsKind user.subject (
          change >>= λ a.
          sign_out_elsewhere services x who user.subject >>= λ counts. pure (f a counts))
  after_change-IsKind change f kind =
      >>=-IsKind user.subject change
        (λ a. sign_out_elsewhere services x who user.subject >>= λ counts. pure (f a counts)) kind
        (λ a.
          >>=-IsKind user.subject (sign_out_elsewhere services x who user.subject)
            (λ counts. pure (f a counts)) sign_out_elsewhere-IsKind
            (λ counts. pure-IsKind user.subject (f a counts)))

  -- What comes after the checks.
  pub changing-IsKind :
      (present next : Text) (now : ℕ)
      → IsKind user.subject (
          stepping_all password_error
            (λ p. change_password x.hashing p user.subject present next now)
          >>= λ a. sign_out_elsewhere services x who user.subject >>= λ counts. pure counts.0)
  changing-IsKind present next now =
      after_change-IsKind {A = Unit {0}} {B = ℕ}
        (stepping_all password_error
          (λ p. change_password x.hashing p user.subject present next now))
        (λ u counts. counts.0)
        (λ p. change_password-Keeps p user.subject x.hashing present next now)

  pub change_password_for-IsKind :
      (present next : Text) (now : ℕ)
      → IsKind user.subject (change_password_for services x who present next now)
  unfolding change_password_for refuse_api_token current_user
  change_password_for-IsKind present next now p =
      elim (Bool-cases (
        is_nil who.api_token
        && not (not services.passwords || not (has_password user.provider))
        && not (ltb (byte_length next) min_password_length))) [
          | inr refused ↦ Keeps-eq (ground arith) (Keeps-refl user.subject p.store)
          | inl passed ↦ Keeps-eq (ground arith) (changing-IsKind present next now p)
        ]

  pub start_two_factor_for-IsKind :
      (secret : Text) → IsKind user.subject (start_two_factor_for services x who secret)
  unfolding start_two_factor_for
  start_two_factor_for-IsKind secret =
      gate-IsKind user (two_factor_for services x who) _
        (two_factor_for-IsGate services x who user known plain)
        (λ p. start-Keeps p.store user.subject secret)

  pub confirm_two_factor_for-IsKind :
      (code : Text) (fresh : List Text) (now : ℕ)
      → IsKind user.subject (confirm_two_factor_for services x who code fresh now)
  unfolding confirm_two_factor_for
  confirm_two_factor_for-IsKind code fresh now =
      gate-IsKind user (two_factor_for services x who) _
        (two_factor_for-IsGate services x who user known plain)
        (after_change-IsKind
          (stepping confirm_error (λ s. confirm x.hash x.mac s user.subject code fresh now))
          (λ codes counts. codes)
          (λ p. confirm-Keeps p.store user.subject x.hash x.mac code fresh now))

  pub disable_two_factor_for-IsKind :
      (pass : Text) (now : ℕ) → IsKind user.subject (disable_two_factor_for services x who pass now)
  unfolding disable_two_factor_for
  disable_two_factor_for-IsKind pass now =
      gate-IsKind user (two_factor_for services x who) _
        (two_factor_for-IsGate services x who user known plain)
        (λ p. disable-Keeps p user.subject x.hashing pass now)

  pub new_recovery_codes_for-IsKind :
      (pass : Text) (fresh : List Text) (now : ℕ)
      → IsKind user.subject (new_recovery_codes_for services x who pass fresh now)
  unfolding new_recovery_codes_for
  new_recovery_codes_for-IsKind pass fresh now =
      gate-IsKind user (two_factor_for services x who) _
        (two_factor_for-IsGate services x who user known plain)
        (λ p. replace_recovery_codes-Keeps p user.subject x.hash x.hashing pass fresh now)

  module _ (wa : WebAuthn) where
    passkeys_for-IsGate : IsGate user (passkeys_for services wa x who)
    unfolding passkeys_for
    passkeys_for-IsGate p = (ground arith, λ u h. ground arith)

    pub begin_passkey_for-IsKind :
        (site : Site) (now : ℕ) → IsKind user.subject (begin_passkey_for services wa x who site now)
    unfolding begin_passkey_for refuse_api_token
    begin_passkey_for-IsKind site now =
        gate-IsKind user (passkeys_for services wa x who) _ passkeys_for-IsGate (
          refusing-IsKind user.subject _ _ _
            (λ p. begin_registration-Keeps wa p.store user.subject site now))

    sign_out_if-IsKind :
        (first : Bool) → IsKind user.subject (sign_out_if services wa x who first user.subject)
    sign_out_if-IsKind true =
        responding-IsKind user.subject (λ c. tt) (sign_out_elsewhere services x who user.subject)
          sign_out_elsewhere-IsKind
    sign_out_if-IsKind false = pure-IsKind user.subject tt

    -- The registration, and what follows it.
    registering-IsKind :
        (site : Site) (name answer : Text) (now : ℕ) (first : Bool)
        → IsKind user.subject (
            stepping finish_error (λ s. finish_registration wa site s user.subject name answer now)
            >>= λ p. sign_out_if services wa x who first user.subject >> pure (new_item p))
    registering-IsKind site name answer now first =
        >>=-IsKind user.subject
          (stepping finish_error (λ s. finish_registration wa site s user.subject name answer now))
          (λ p. sign_out_if services wa x who first user.subject >> pure (new_item p))
          (λ p. finish_registration-Keeps wa p.store user.subject site name answer now)
          (λ p.
            >>=-IsKind user.subject (sign_out_if services wa x who first user.subject)
              (λ u. pure (new_item p)) (sign_out_if-IsKind first)
              (λ u. pure-IsKind user.subject (new_item p)))

    pub finish_passkey_for-IsKind :
        (site : Site) (name answer : Text) (now : ℕ)
        → IsKind user.subject (finish_passkey_for services wa x who site name answer now)
    unfolding finish_passkey_for refuse_api_token
    finish_passkey_for-IsKind site name answer now =
        gate-IsKind user (passkeys_for services wa x who) _ passkeys_for-IsGate (
          refusing-IsKind user.subject _ _ _
            (λ p. registering-IsKind site name answer now (not (has p.store user.subject)) p))

    pub rename_passkey_for-IsKind :
        (id name : Text) → IsKind user.subject (rename_passkey_for services wa x who id name)
    unfolding rename_passkey_for refuse_api_token
    rename_passkey_for-IsKind id name =
        gate-IsKind user (passkeys_for services wa x who) _ passkeys_for-IsGate (
          refusing-IsKind user.subject _ _ _ (
            responding-IsKind user.subject item_of
              (stepping missing_error (λ s. relabel s user.subject id name))
              (λ p. relabel-Keeps wa p.store user.subject id name)))

    pub delete_passkey_for-IsKind :
        (id : Text) → IsKind user.subject (delete_passkey_for services wa x who id)
    unfolding delete_passkey_for refuse_api_token
    delete_passkey_for-IsKind id =
        gate-IsKind user (passkeys_for services wa x who) _ passkeys_for-IsGate
          (refusing-IsKind user.subject _ _ _ (λ p. remove-Keeps wa p.store user.subject id))
