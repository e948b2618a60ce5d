-- ===== src/Users/TwoFactor/Replay.antt =====
-- A code of the app signs in once.
use wg_access_server.Prelude.{
  ℕ, ◌≤◌, ◌<◌, true, false, ◌≡◌, none, some, [], ==_refl, list_eq, nat_eq, arith, ok, err,
}
use wg_access_server.Prelude.GoMap.{get, get-put}
use wg_access_server.Prelude.Text.{Text}
use wg_access_server.Storage.{User, two_factor_enabled}
use wg_access_server.Storage.Memory.{Memory}
use wg_access_server.Storage.Memory.Users.{set_user_totp, get_user, save_user, merged_user}
use wg_access_server.Users.Totp.{Mac, check_totp_step}
use wg_access_server.Users.TwoFactor.{check}

-- The last step that is stored for a user, 0 for none.
abbrev pub last_step : Memory → Text → ℕ
last_step s subject = elim (get s.users subject) [ none ↦ 0 | some user ↦ user.totp_last_step ]

module _ (sha : Text → Text) (mac : Mac) (s : Memory) (subject given : Text) (now : ℕ) (user : User)
    (stored : get s.users subject ≡ some user) where
  -- A code that the app shows is accepted only for a step after the last accepted one, and is then
  -- the last accepted one.
  pub check_app-last_step :
      (step : ℕ)
      → check_totp_step mac user.totp_secret given now ≡ (step, true)
      → (check sha mac s subject given now).1 ≡ true
      → (last_step s subject < step)
        × (last_step (check sha mac s subject given now).0 subject ≡ step)
  unfolding check get_user set_user_totp
  check_app-last_step step e h = ground (
    arith,
    get-put s.users subject subject (record user { totp_last_step = step }),
    ==_refl subject,
  )

-- Of a stored user: once a check has accepted the code of a step, a check in any store that still has
-- the user's record as that check left it refuses every code of that step or an earlier one, and
-- changes nothing.
pub check_twice :
    (sha : Text → Text) (mac : Mac) (s next : Memory) (subject given again : Text) (now later : ℕ)
    (user : User) (step step' : ℕ)
    → get s.users subject ≡ some user
    → check_totp_step mac user.totp_secret given now ≡ (step, true)
    → (check sha mac s subject given now).1 ≡ true
    → get next.users subject ≡ get (check sha mac s subject given now).0.users subject
    → check_totp_step mac user.totp_secret again later ≡ (step', true)
    → step' ≤ step
    → check sha mac next subject again later ≡ (next, false)
unfolding check get_user set_user_totp
check_twice sha mac s next subject given again now later user step step' stored e h kept e' le =
    ground (
      arith,
      get-put s.users subject subject (record user { totp_last_step = step }),
      ==_refl subject,
    )

module _ (sha : Text → Text) (mac : Mac) (subject given : Text) (now : ℕ) where
  -- A right code of a later step is accepted.
  check_accepts :
      (s : Memory) (user : User) (step : ℕ)
      → get s.users subject ≡ some user
      → two_factor_enabled user ≡ true
      → check_totp_step mac user.totp_secret given now ≡ (step, true)
      → user.totp_last_step < step
      → (check sha mac s subject given now).1 ≡ true
  unfolding check get_user set_user_totp
  check_accepts s user step stored enabled e lt = ground arith

  -- What an accepted code of the app leaves behind.
  accepted_user :
      (s : Memory) (user : User) (step : ℕ)
      → get s.users subject ≡ some user
      → check_totp_step mac user.totp_secret given now ≡ (step, true)
      → (check sha mac s subject given now).1 ≡ true
      → (get (check sha mac s subject given now).0.users subject
          ≡ some (record user { totp_last_step = step }))
        × (two_factor_enabled user ≡ true)
        × (user.totp_last_step < step)
  unfolding check get_user set_user_totp
  accepted_user s user step stored e h = ground (
    arith,
    get-put s.users subject subject (record user { totp_last_step = step }),
    ==_refl subject,
  )

-- The store after a sign-in is recorded.
abbrev pub signed_in : Memory → User → Memory
signed_in s login = elim (save_user s login) [ ok o ↦ o.after | err e ↦ s ]

-- A sign-in without a second factor, merged with what was stored, keeps the secret and its date.
merged_user-totp :
    (login previous : User)
    → login.totp_secret ≡ []
    → two_factor_enabled previous ≡ true
    → (two_factor_enabled (merged_user login (some previous)) ≡ true)
      × ((merged_user login (some previous)).totp_secret ≡ previous.totp_secret)
      × ((merged_user login (some previous)).totp_last_step ≡ login.totp_last_step)
unfolding merged_user two_factor_enabled
merged_user-totp login previous none_given enabled = ground arith

signed_in-user :
    (s : Memory) (login : User) (subject : Text) (previous : User)
    → login.subject ≡ subject
    → get s.users subject ≡ some previous
    → get (signed_in s login).users subject ≡ some (merged_user login (some previous))
unfolding save_user
signed_in-user s login subject previous same stored = ground (
  arith,
  same,
  get-put s.users login.subject login.subject (merged_user login (get s.users login.subject)),
  get-put s.users subject subject (merged_user login (some previous)),
  ==_refl subject,
)

-- The in-memory storage: once the sign-in is recorded, with a record that has no second factor as
-- every sign-in's has, the code that was just accepted is accepted again.
pub check-signed_in :
    (sha : Text → Text) (mac : Mac) (s : Memory) (subject given : Text) (now : ℕ)
    (user login : User) (step : ℕ)
    → get s.users subject ≡ some user
    → check_totp_step mac user.totp_secret given now ≡ (step, true)
    → (check sha mac s subject given now).1 ≡ true
    → login.subject ≡ subject
    → login.totp_secret ≡ []
    → login.totp_last_step ≡ 0
    → (check sha mac (signed_in (check sha mac s subject given now).0 login) subject given now).1
      ≡ true
check-signed_in sha mac s subject given now user login step stored e h same no_secret no_step =
    let s' = (check sha mac s subject given now).0 in
    let (stored', enabled, lt) = accepted_user sha mac subject given now s user step stored e h in
    let previous = record user { totp_last_step = step } in
    let (enabled', secret, last) =
      merged_user-totp login previous no_secret (unfold two_factor_enabled in enabled) in
    check_accepts sha mac subject given now (signed_in s' login) (merged_user login (some previous))
      step (signed_in-user s' login subject previous same stored') enabled' (rw secret e)
      (omega arith)
