-- ===== src/Api/Spares/Accounts.antt =====
-- What belongs to an account: its password and second factor, and its tokens as a whole.
use wg_access_server.Prelude.{
  ℕ, not, ◌||◌, ◌≡◌, ◌≢◌, Option, none, some, List, [], ◌∷◌, map, list_eq, list_beq_iff, nat_eq,
  arith, Result, ok, err, Option-cases, Bool-cases, inl, inr, subst,
}
use wg_access_server.Prelude.GoMap.{GoMap, get}
use wg_access_server.Prelude.Text.{Text, is_nil, join}
use wg_access_server.Storage.{User, ApiToken, TotpState, two_factor_enabled, totp}
use wg_access_server.Storage.Memory.{Memory, Outcome}
use wg_access_server.Storage.Memory.Tokens.{without_token_owner, delete_tokens_for_owner}
use wg_access_server.Storage.Memory.Users.{set_user_totp, set_user_password}
use wg_access_server.Users.Totp.{Mac, check_totp}
use wg_access_server.Users.Passwords.{
  Hashing, PasswordState, verify, change_password, set_password, after_verify, PasswordError,
}
use wg_access_server.Users.TwoFactor.{
  start, confirm, clear, disable, replace_recovery_codes, TwoFactorError, replace_codes, back,
  if_verified, written, new_secret, user_of, hash_recovery_code,
}
use wg_access_server.Api.Spares.{Keeps, Keeps-refl, Keeps-eq, Keeps-users_put, Keeps-tokens}

pub get-without_token_owner :
    (owner : Text) (m : GoMap Text ApiToken) (k : Text) (t : ApiToken)
    → get m k ≡ some t
    → t.owner ≢ owner
    → get (without_token_owner owner m).0 k ≡ some t
unfolding without_token_owner get
get-without_token_owner owner [] k t h other = h
get-without_token_owner owner ((j, u) ∷ m) k t h other = ground (
  arith,
  list_beq_iff j k,
  list_beq_iff u.owner owner,
  get-without_token_owner owner m k t,
  other,
)

pub delete_tokens_for_owner-Keeps :
    (s : Memory) (owner : Text) (o : Outcome ℕ)
    → delete_tokens_for_owner s owner ≡ ok o
    → Keeps owner s o.after
unfolding delete_tokens_for_owner
delete_tokens_for_owner-Keeps s owner o h = Keeps-eq (ground (arith, h)) (
    Keeps-tokens owner s (without_token_owner owner s.tokens).0
      (get-without_token_owner owner s.tokens))

module _ (s : Memory) (subject : Text) where
  written-Keeps : (state : TotpState) → Keeps subject s (written s subject state).0
  unfolding set_user_totp
  written-Keeps state = elim (Option-cases (get s.users subject)) [
    | inl e ↦ Keeps-eq (ground arith) (Keeps-refl subject s)
    | inr (user, e) ↦ Keeps-eq (ground arith) (
        Keeps-users_put subject s (record user {
          totp_secret = state.secret;
          totp_enabled_at = state.enabled_at;
          totp_recovery = state.recovery;
          totp_last_step = state.last_step;
        }))
  ]

  pub start-Keeps : (secret : Text) → Keeps subject s (start s subject secret).0
  unfolding start
  start-Keeps secret = elim (Option-cases (user_of s subject)) [
    | inl e ↦ Keeps-eq (ground arith) (Keeps-refl subject s)
    | inr (user, e) ↦ elim (Bool-cases (two_factor_enabled user)) [
      | inl on ↦ Keeps-eq (ground arith) (Keeps-refl subject s)
      | inr off ↦ Keeps-eq (ground arith) (written-Keeps (new_secret secret))
    ]
  ]

  confirmed : (Text → Text) → User → List Text → ℕ → TotpState
  confirmed sha user codes now = record {
    secret = user.totp_secret;
    enabled_at = some now;
    recovery = join (44 ∷ []) (map (hash_recovery_code sha) codes);
    last_step = 0;
  }

  pub confirm-Keeps :
      (sha : Text → Text) (mac : Mac) (code : Text) (codes : List Text) (now : ℕ)
      → Keeps subject s (confirm sha mac s subject code codes now).0
  unfolding confirm confirmed
  confirm-Keeps sha mac code codes now = elim (Option-cases (user_of s subject)) [
    | inl e ↦ Keeps-eq (ground arith) (Keeps-refl subject s)
    | inr (user, e) ↦
        elim (Bool-cases (
          two_factor_enabled user
          || is_nil user.totp_secret
          || not (check_totp mac user.totp_secret code now))) [
            | inl refused ↦ Keeps-eq (ground arith) (Keeps-refl subject s)
            | inr passed ↦ Keeps-eq (ground arith) (written-Keeps (confirmed sha user codes now))
          ]
  ]

  replace_codes-Keeps :
      (sha : Text → Text) (codes : List Text)
      → Keeps subject s (replace_codes sha s subject codes).0
  replace_codes-Keeps sha codes = elim (Option-cases (user_of s subject)) [
    | inl e ↦ Keeps-eq (ground arith) (Keeps-refl subject s)
    | inr (user, e) ↦ elim (Bool-cases (two_factor_enabled user)) [
      | inl on ↦ Keeps-eq (ground arith) (
          written-Keeps
            (record (totp user) { recovery = join (44 ∷ []) (map (hash_recovery_code sha) codes) }))
      | inr off ↦ Keeps-eq (ground arith) (Keeps-refl subject s)
    ]
  ]

  clear-Keeps : Keeps subject s (clear s subject).0
  unfolding clear
  clear-Keeps = Keeps-eq (ground arith) (written-Keeps (new_secret []))

verify-store :
    (h : Hashing) (p : PasswordState) (subject pass : Text) (now : ℕ)
    → (verify h p subject pass now).0.store ≡ p.store
unfolding verify
verify-store h p subject pass now = ground arith

set_password-Keeps :
    (p : PasswordState) (subject : Text) (h : Hashing) (entry : Text) (hash : Option Text)
    → Keeps subject p.store (set_password h p subject entry hash).0.store
unfolding set_user_password
set_password-Keeps p subject h entry none = Keeps-refl subject p.store
set_password-Keeps p subject h entry (some hash) = elim (Option-cases (get p.store.users subject)) [
  | inl e ↦ Keeps-eq (ground arith) (Keeps-refl subject p.store)
  | inr (user, e) ↦ Keeps-eq (ground arith) (
      Keeps-users_put subject p.store (record user { password_hash = hash; password_from = entry }))
]

module _ (s : Memory) (subject : Text) where
  after_verify-Keeps :
      (h : Hashing) (entry next : Text) (v : PasswordState × Result PasswordError (Unit {0}))
      → v.0.store ≡ s
      → Keeps subject s (after_verify h subject entry next v).0.store
  after_verify-Keeps h entry next (q, err e) same = Keeps-eq same (Keeps-refl subject s)
  after_verify-Keeps h entry next (q, ok u) same =
      subst
        (λ (m : Memory). Keeps subject m (set_password h q subject entry (h.generate next)).0.store)
        same (set_password-Keeps q subject h entry (h.generate next))

  if_verified-Keeps :
      {A : Type 0} (v : PasswordState × Result PasswordError (Unit {0}))
      (next : PasswordState → PasswordState × Result TwoFactorError A)
      → v.0.store ≡ s
      → ((q : PasswordState) → Keeps subject q.store (next q).0.store)
      → Keeps subject s (if_verified v next).0.store
  if_verified-Keeps (q, err e) next same kept = Keeps-eq same (Keeps-refl subject s)
  if_verified-Keeps (q, ok u) next same kept =
      subst (λ (m : Memory). Keeps subject m (next q).0.store) same (kept q)

module _ (p : PasswordState) (subject : Text) where
  pub change_password-Keeps :
      (h : Hashing) (present next : Text) (now : ℕ)
      → Keeps subject p.store (change_password h p subject present next now).0.store
  unfolding change_password
  change_password-Keeps h present next now = elim (Option-cases (h.configured subject)) [
    | inl e ↦ Keeps-eq (ground arith) (Keeps-refl subject p.store)
    | inr (entry, e) ↦ Keeps-eq (ground arith) (
        after_verify-Keeps p.store subject h entry next (verify h p subject present now)
          (verify-store h p subject present now))
  ]

  pub disable-Keeps :
      (h : Hashing) (pass : Text) (now : ℕ)
      → Keeps subject p.store (disable h p subject pass now).0.store
  unfolding disable
  disable-Keeps h pass now =
      if_verified-Keeps p.store subject (verify h p subject pass now) _
        (verify-store h p subject pass now) (λ q. clear-Keeps q.store subject)

  pub replace_recovery_codes-Keeps :
      (sha : Text → Text) (h : Hashing) (pass : Text) (codes : List Text) (now : ℕ)
      → Keeps subject p.store (replace_recovery_codes sha h p subject pass codes now).0.store
  unfolding replace_recovery_codes
  replace_recovery_codes-Keeps sha h pass codes now =
      elim (Option-cases (user_of p.store subject)) [
        | inl e ↦ Keeps-eq (ground arith) (Keeps-refl subject p.store)
        | inr (user, e) ↦ elim (Bool-cases (two_factor_enabled user)) [
          | inr off ↦ Keeps-eq (ground arith) (Keeps-refl subject p.store)
          | inl on ↦ Keeps-eq (ground arith) (
              if_verified-Keeps p.store subject (verify h p subject pass now)
                (λ q. back q (replace_codes sha q.store subject codes))
                (verify-store h p subject pass now)
                (λ q. replace_codes-Keeps q.store subject sha codes))
        ]
      ]
