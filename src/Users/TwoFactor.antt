-- ===== src/Users/TwoFactor.antt =====
-- internal/users/twofactor.go, each method as one step, as its lock has it. What the random source
-- gives is an argument: the secret, and the recovery codes before they are grouped.
pub mod Recovery
pub mod Replay
use wg_access_server.Prelude.{
  ℕ, ◌+◌, ◌-◌, Bool, true, false, not, ◌&&◌, ◌||◌, ◌≡◌, refl, Option, none, some, List, [], ◌∷◌,
  ◌++◌, map, ◌==◌, list_eq, nat_eq, leb, if◌then◌else◌, Result, ok, err, length,
}
use wg_access_server.Prelude.GoMap.{GoMap}
use wg_access_server.Prelude.Text.{Text, is_nil, trim_space, to_upper, split, join}
use wg_access_server.Storage.{User, TotpState, totp, two_factor_enabled, trimmed_parts}
use wg_access_server.Storage.Memory.{Memory, Op, Outcome, StorageError}
use wg_access_server.Storage.Memory.Users.{set_user_totp, get_user}
use wg_access_server.Users.Totp.{Mac, check_totp, check_totp_step}
use wg_access_server.Users.Passwords.{
  PasswordError, wrong_password, no_password_here, too_many_attempts, Hashing, PasswordState,
  verify,
}

pub data TwoFactorError : Type 0 where
  no_two_factor two_factor_set wrong_code no_account storing_failed : TwoFactorError
  password : PasswordError → TwoFactorError

-- `splitCodes`
unfoldable pub split_codes : Text → List Text
split_codes stored = trimmed_parts (split 44 stored)

unfoldable pub without_dashes : Text → Text
without_dashes [] = []
without_dashes (c ∷ s) = let rest = without_dashes s in if c == 45 then rest else c ∷ rest

unfoldable pub normalize_recovery_code : Text → Text
unfolding without_dashes
normalize_recovery_code code = to_upper (without_dashes (trim_space code))

-- `hashRecoveryCode`, with the SHA-256 in hex as a parameter.
unfoldable pub hash_recovery_code : (Text → Text) → Text → Text
hash_recovery_code sha code = sha (normalize_recovery_code code)

-- The loop of `useRecoveryCode`: the hashes that are left, and whether one was used.
unfoldable pub use_hash : Text → List Text → List Text × Bool
use_hash wanted [] = ([], false)
use_hash wanted (hash ∷ hashes) =
    let (left, used) = use_hash wanted hashes in
    if hash == wanted then (left, true) else (hash ∷ left, used)

unfoldable pub use_recovery_code : (Text → Text) → Text → Text → Text × Bool
unfolding use_hash split_codes
use_recovery_code sha stored given =
    let (left, used) = use_hash (hash_recovery_code sha given) (split_codes stored) in
    if used then (join (44 ∷ []) left, true) else (stored, false)

-- `user, err := GetUser(subject); err != nil || user == nil`
abbrev pub user_of : Memory → Text → Option User
user_of s subject = elim (get_user s subject) [ ok user ↦ some user | err e ↦ none ]

unfoldable pub codes_enabled : Memory → Text → Bool
codes_enabled s subject = elim (user_of s subject) [
  | none ↦ false
  | some user ↦ two_factor_enabled user
]

-- The store after the write of a second factor; `false` where the write failed.
abbrev pub written : Memory → Text → TotpState → Memory × Bool
written s subject state = elim (set_user_totp s subject state) [
  | ok o ↦ (o.after, true)
  | err e ↦ (s, false)
]

abbrev pub new_secret : Text → TotpState
new_secret secret = record { secret = secret; enabled_at = none; recovery = []; last_step = 0 }

abbrev pub stored_or_error : {A : Type 0} → Memory × Bool → A → Memory × Result TwoFactorError A
stored_or_error (s, true) a = (s, ok a)
stored_or_error (s, false) a = (s, err storing_failed)

-- `Start`, without the URI that shows the secret.
unfoldable pub start : Memory → Text → Text → Memory × Result TwoFactorError Text
start s subject secret = elim (user_of s subject) [
  | none ↦ (s, err no_account)
  | some user ↦
      if two_factor_enabled user
      then (s, err two_factor_set)
      else stored_or_error (written s subject (new_secret secret)) secret
]

unfoldable pub confirm :
    (Text → Text)
    → Mac
    → Memory
    → Text
    → Text
    → List Text
    → ℕ
    → Memory × Result TwoFactorError (List Text)
confirm sha mac s subject code codes now = elim (user_of s subject) [
  | none ↦ (s, err no_account)
  | some user ↦
      if two_factor_enabled user
      then (s, err two_factor_set)
      else if is_nil user.totp_secret
      then (s, err no_two_factor)
      else if check_totp mac user.totp_secret code now
      then stored_or_error
          (written s subject (record {
            secret = user.totp_secret;
            enabled_at = some now;
            recovery = join (44 ∷ []) (map (hash_recovery_code sha) codes);
            last_step = 0;
          }))
          codes
      else (s, err wrong_code)
]

-- A code of the app: refused up to the last step that was accepted.
abbrev pub check_app : Memory → Text → User → ℕ → Memory × Bool
check_app s subject user step =
    if leb step user.totp_last_step
    then (s, false)
    else written s subject (record (totp user) { last_step = step })

abbrev pub check_recovery : (Text → Text) → Memory → Text → User → Text → Memory × Bool
check_recovery sha s subject user given =
    let (left, used) = use_recovery_code sha user.totp_recovery given in
    if used then written s subject (record (totp user) { recovery = left }) else (s, false)

unfoldable pub check : (Text → Text) → Mac → Memory → Text → Text → ℕ → Memory × Bool
unfolding totp
check sha mac s subject given now = elim (user_of s subject) [
  | none ↦ (s, false)
  | some user ↦
      if two_factor_enabled user
      then (let (step, right) = check_totp_step mac user.totp_secret given now in
          if right then check_app s subject user step else check_recovery sha s subject user given)
      else (s, false)
]

abbrev pub replace_codes :
    (Text → Text) → Memory → Text → List Text → Memory × Result TwoFactorError (List Text)
replace_codes sha s subject codes = elim (user_of s subject) [
  | none ↦ (s, err no_account)
  | some user ↦
      if two_factor_enabled user
      then stored_or_error
          (written s subject
            (record (totp user) { recovery = join (44 ∷ []) (map (hash_recovery_code sha) codes) }))
          codes
      else (s, err no_two_factor)
]

abbrev pub back :
    {A : Type 0}
    → PasswordState
    → Memory × Result TwoFactorError A
    → PasswordState × Result TwoFactorError A
back p (s, r) = (record p { store = s }, r)

abbrev pub if_verified :
    {A : Type 0}
    → PasswordState × Result PasswordError (Unit {0})
    → (PasswordState → PasswordState × Result TwoFactorError A)
    → PasswordState × Result TwoFactorError A
if_verified (p, ok _) next = next p
if_verified (p, err e) next = (p, err (password e))

-- The enrolment is read again once the password was checked.
unfoldable pub replace_recovery_codes :
    (Text → Text)
    → Hashing
    → PasswordState
    → Text
    → Text
    → List Text
    → ℕ
    → PasswordState × Result TwoFactorError (List Text)
unfolding totp
replace_recovery_codes sha h p subject pass codes now = elim (user_of p.store subject) [
  | none ↦ (p, err no_account)
  | some user ↦
      if two_factor_enabled user
      then if_verified (verify h p subject pass now)
          (λ p'. back p' (replace_codes sha p'.store subject codes))
      else (p, err no_two_factor)
]

-- `clear`
unfoldable pub clear : Memory → Text → Memory × Result TwoFactorError (Unit {0})
clear s subject = stored_or_error (written s subject (new_secret [])) tt

unfoldable pub disable :
    Hashing → PasswordState → Text → Text → ℕ → PasswordState × Result TwoFactorError (Unit {0})
unfolding clear
disable h p subject pass now =
    if_verified (verify h p subject pass now) (λ p'. back p' (clear p'.store subject))

unfoldable pub reset : Memory → Text → Memory × Result TwoFactorError (Unit {0})
unfolding clear
reset s subject = elim (user_of s subject) [
  | none ↦ (s, err no_account)
  | some user ↦
      if not (two_factor_enabled user) && is_nil user.totp_secret
      then (s, err no_two_factor)
      else clear s subject
]

unfoldable pub recovery_codes_left : Memory → Text → ℕ
recovery_codes_left s subject = elim (user_of s subject) [
  | none ↦ 0
  | some user ↦ length (split_codes user.totp_recovery)
]
