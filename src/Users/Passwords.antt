-- ===== src/Users/Passwords.antt =====
-- internal/users/passwords.go. The password hashing (bcrypt), the configured entries and their
-- formats are not in the repository or not in this package: they are parameters.
use wg_access_server.Prelude.{
  ℕ, ◌*◌, Bool, not, ◌&&◌, Option, none, some, [], ◌==◌, list_eq, nat_eq, if◌then◌else◌, Result, ok,
  err,
}
use wg_access_server.Prelude.GoMap.{GoMap}
use wg_access_server.Prelude.Text.{Text, is_nil}
use wg_access_server.Storage.Memory.{Memory}
use wg_access_server.Storage.Memory.Users.{set_user_password, get_user}
use wg_access_server.Users.Limit.{Attempts, reserve, forget}

pub data PasswordError : Type 0 where
  wrong_password no_password_here too_many_attempts hashing_failed storing_failed : PasswordError

abbrev pub max_wrong_passwords : ℕ
max_wrong_passwords = 5

-- 15 minutes in nanoseconds.
abbrev pub wrong_passwords_for : ℕ
wrong_passwords_for = 15 * 60 * 1_000_000_000

pub record Hashing : Type 0 where
  -- the htpasswd entry of a configured user
  pub configured : Text → Option Text
  -- whether a password matches a configured entry
  pub matches : Text → Text → Bool
  -- `bcrypt.CompareHashAndPassword(hash, password) == nil`
  pub compare : Text → Text → Bool
  -- `bcrypt.GenerateFromPassword`, with its salt; `none` is an error
  pub generate : Text → Option Text

-- What `Passwords` reads and writes: the counters, and the storage.
pub record PasswordState : Type 0 where
  pub wrong : GoMap Text Attempts
  pub store : Memory

-- `stored`: the hash and the entry it was set against, "" for none.
unfoldable pub stored_password : Memory → Text → Text × Text
unfolding get_user
stored_password s subject = elim (get_user s subject) [
  | ok user ↦ (user.password_hash, user.password_from)
  | err e ↦ ([], [])
]

-- Whether this is the password: their own counts while the entry it was set against is configured.
unfoldable pub password_right : Hashing → Memory → Text → Text → Text → Bool
unfolding stored_password
password_right h s subject entry password =
    let (stored, from) = stored_password s subject in
    if not (is_nil stored) && from == entry
    then h.compare stored password
    else h.matches entry password

unfoldable pub verify :
    Hashing → PasswordState → Text → Text → ℕ → PasswordState × Result PasswordError (Unit {0})
unfolding reserve forget password_right
verify h p subject password now = elim (h.configured subject) [
  | none ↦ (p, err no_password_here)
  | some entry ↦
      let (passed, wrong) = reserve max_wrong_passwords wrong_passwords_for p.wrong subject now in
      if passed
      then (if password_right h p.store subject entry password
          then (record p { wrong = forget wrong subject }, ok tt)
          else (record p { wrong = wrong }, err wrong_password))
      else (record p { wrong = wrong }, err too_many_attempts)
]

abbrev pub set_password :
    Hashing
    → PasswordState
    → Text
    → Text
    → Option Text
    → PasswordState × Result PasswordError (Unit {0})
set_password h p subject entry none = (p, err hashing_failed)
set_password h p subject entry (some hash) = elim (set_user_password p.store subject hash entry) [
  | ok o ↦ (record p { store = o.after }, ok tt)
  | err e ↦ (p, err storing_failed)
]

abbrev pub after_verify :
    Hashing
    → Text
    → Text
    → Text
    → PasswordState × Result PasswordError (Unit {0})
    → PasswordState × Result PasswordError (Unit {0})
after_verify h subject entry next (p, err e) = (p, err e)
after_verify h subject entry next (p, ok _) = set_password h p subject entry (h.generate next)

unfoldable pub change_password :
    Hashing
    → PasswordState
    → Text
    → Text
    → Text
    → ℕ
    → PasswordState × Result PasswordError (Unit {0})
unfolding verify set_user_password
change_password h p subject present next now = elim (h.configured subject) [
  | none ↦ (p, err no_password_here)
  | some entry ↦ after_verify h subject entry next (verify h p subject present now)
]
