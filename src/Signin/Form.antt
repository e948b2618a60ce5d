-- ===== src/Signin/Form.antt =====
-- simpleAuthPostEndpoint and the second steps of internal/authnz/authconfig/simple.go, with
-- checkCreds of basic.go and the wait of throttle.go. Waiting moves the clock: a request has the time
-- of its arrival and the time after the wait. The pages that only show something are left out; the
-- second factors are there, since the provider is configured.
pub mod Earned
pub mod Histories
pub mod Started
use wg_access_server.Prelude.{
  ℕ, ◌+◌, ◌*◌, Bool, true, false, not, ◌&&◌, ◌||◌, Option, none, some, List, [], ◌∷◌, ◌==◌, list_eq,
  nat_eq, leb, if◌then◌else◌, Result, ok, err,
}
use wg_access_server.Prelude.GoMap.{GoMap}
use wg_access_server.Prelude.Text.{Text, codes, is_nil, byte_length}
use wg_access_server.Authnz.{Identity, PendingLogin, pending_valid}
use wg_access_server.Authnz.Throttle.{
  Lru, failures_of, delay, record_failure, record_success, begin_second_factor,
  second_factor_succeeded,
}
use wg_access_server.Storage.Memory.{Memory}
use wg_access_server.Users.Limit.{Attempts}
use wg_access_server.Users.Totp.{Mac}
use wg_access_server.Users.TwoFactor.{check, codes_enabled}
use wg_access_server.Users.Passkeys.{PasskeyError, Site, WebAuthn, has, finish_login}
use wg_access_server.Users.Passwords.{Hashing, password_right}
use wg_access_server.Signin.Cookies.{Cookie, AuthSession, Coding, Fresh, get_session}
use wg_access_server.Signin.Login.{LoginError, refused, start_session}

abbrev pub max_username_length : ℕ
max_username_length = 256

-- `pendingFor`
abbrev pub pending_for : ℕ
pending_for = 5 * 60 * 1_000_000_000

abbrev pub provider : Text
provider = codes "simple"

-- The fields of the form, "" for one that is missing.
pub record Form : Type 0 where
  pub passkey : Text
  pub code : Text
  pub username : Text
  pub password : Text

pub record Attempt : Type 0 where
  pub form : Form
  pub cookie : Option Cookie
  pub now : ℕ
  pub later : ℕ
  pub site : Site
  pub fresh : Fresh

-- The configured users, and the code that is not the repository's.
pub record Setup : Type 1 where
  pub users : List Text
  pub coding : Coding
  pub hashing : Hashing
  pub mac : Mac
  pub wa : WebAuthn
  pub lru : Lru

-- What a request meets: a redirect, or one of the pages.
pub data Answer : Type 0 where
  restart invalid_password code_page wrong_code wrong_passkey too_many : Answer
  signed_in : Identity → Answer
  refused_here could_not_start could_not_sign_in : Answer

-- `parsehtpassword`: the text before the first colon, and what is after it; both are there.
abbrev with_head : ℕ → Option (Text × Text) → Option (Text × Text)
with_head c none = none
with_head c (some (before, after)) = some (c ∷ before, after)

unfoldable pub cut_colon : Text → Option (Text × Text)
cut_colon [] = none
cut_colon (c ∷ s) = let rest = cut_colon s in if c == 58 then some ([], s) else with_head c rest

abbrev both_there : Option (Text × Text) → Option (Text × Text)
both_there none = none
both_there (some (before, after)) =
    if is_nil before || is_nil after then none else some (before, after)

unfoldable pub parse_htpassword : Text → Option (Text × Text)
unfolding cut_colon
parse_htpassword entry = both_there (cut_colon entry)

-- `TwoFactor.Enabled`
unfoldable pub two_factor_required : Memory → Text → Bool
unfolding has codes_enabled
two_factor_required s subject = has s subject || codes_enabled s subject

abbrev pub session_for : Text → AuthSession
session_for username = record {
  id = [];
  identity = some (record {
    provider = provider;
    subject = username;
    name = username;
    email = [];
    claims = [];
  });
  pending = none;
}

abbrev pub pending_session : Text → ℕ → AuthSession
pending_session username now = record {
  id = [];
  identity = none;
  pending = some (record { subject = username; provider = provider; until = now + pending_for });
}

-- Whose password step waits for the second one.
abbrev pub awaited : Option PendingLogin → ℕ → Option Text
awaited none now = none
awaited (some p) now =
    if pending_valid (some p) now && p.provider == provider then some p.subject else none

abbrev pub waiting : Option AuthSession → ℕ → Option Text
waiting none now = none
waiting (some session) now = awaited session.pending now

module _ (x : Setup) where
  -- `checkCreds`: the first entry of the user decides.
  unfoldable pub check_creds : List Text → Memory → Text → Text → Bool
  check_creds [] s username password = false
  check_creds (entry ∷ entries) s username password =
      let rest = check_creds entries s username password in
      elim (parse_htpassword entry) [
        | none ↦ rest
        | some (user, hash) ↦
            if user == username then password_right x.hashing s username hash password else rest
      ]

  -- What the process keeps.
  pub record Server : Type 0 where
    pub store : Memory
    pub cache : x.lru.Cache
    pub second : GoMap Text Attempts

  abbrev pub Outcome : Type 0
  Outcome = Server × (Answer × Option Cookie)

  -- `wait`
  unfoldable pub wait : x.lru.Cache → Text → ℕ → x.lru.Cache
  unfolding delay failures_of
  wait cache username now =
      let (time, cache') = delay x.lru cache username now in
      if time == 0 then cache' else (failures_of x.lru cache' username now).1

  -- The session of somebody, at the end of either step.
  abbrev pub finished : Server → Identity → Memory × Result LoginError Cookie → Outcome
  finished sv who (s, ok c) = (record sv { store = s }, (signed_in who, some c))
  finished sv who (s, err refused) = (record sv { store = s }, (refused_here, none))
  finished sv who (s, err e) = (record sv { store = s }, (could_not_sign_in, none))

  abbrev pub who_is : Text → Identity
  who_is username = record {
    provider = provider;
    subject = username;
    name = username;
    email = [];
    claims = [];
  }

  unfoldable pub sign_in : Server → Text → Attempt → Outcome
  unfolding start_session
  sign_in sv username r =
      finished sv (who_is username)
        (start_session x.coding sv.store r.cookie (session_for username) r.fresh r.later)

  abbrev pub asked : Server → Memory × Result LoginError Cookie → Outcome
  asked sv (s, ok c) = (record sv { store = s }, (code_page, some c))
  asked sv (s, err e) = (record sv { store = s }, (could_not_start, none))

  -- `askForCode`
  unfoldable pub ask_for_code : Server → Text → Attempt → Outcome
  unfolding start_session
  ask_for_code sv username r =
      asked sv (
        start_session x.coding sv.store r.cookie (pending_session username r.later) r.fresh r.later)

  abbrev pub is_attempted : Form → Bool
  is_attempted form =
      not (is_nil form.username)
      && not (is_nil form.password)
      && leb (byte_length form.username) max_username_length

  abbrev pub recognised : Server → Attempt → Server
  recognised sv r = record sv {
    cache = record_success x.lru (wait sv.cache r.form.username r.now) r.form.username;
  }

  abbrev pub first_step : Server → Attempt → Outcome
  first_step sv r =
      let username = r.form.username in
      if is_attempted r.form
      then (if check_creds x.users sv.store username r.form.password
          then (if two_factor_required sv.store username
              then ask_for_code (recognised sv r) username r
              else sign_in (recognised sv r) username r)
          else (
            record sv {
              cache = record_failure x.lru (wait sv.cache username r.now) username r.later;
            },
            (invalid_password, none),
          ))
      else (sv, (invalid_password, none))

  abbrev right : Memory × Result PasskeyError (Unit {0}) → Memory × Bool
  right (s, ok _) = (s, true)
  right (s, err e) = (s, false)

  -- The check of the second step: of a passkey's answer, if there is one, and of a code otherwise.
  unfoldable pub second_right : Memory → Text → Attempt → Memory × Bool
  second_right s username r =
      if is_nil r.form.passkey
      then check x.coding.hash x.mac s username r.form.code r.later
      else right (finish_login x.wa r.site s username r.form.passkey r.later)

  abbrev pub wrong_answer : Attempt → Answer
  wrong_answer r = if is_nil r.form.passkey then wrong_code else wrong_passkey

  abbrev pub checked : Server → Text → Attempt → Memory × Bool → Outcome
  checked sv username r (s, true) =
      sign_in
        (record {
          store = s;
          cache = record_success x.lru sv.cache username;
          second = second_factor_succeeded sv.second username;
        })
        username r
  checked sv username r (s, false) = (
    record sv { store = s; cache = record_failure x.lru sv.cache username r.later },
    (wrong_answer r, none),
  )

  abbrev pub waited : Server → Text → Attempt → GoMap Text Attempts → Server
  waited sv username r second = record sv { cache = wait sv.cache username r.now; second = second }

  abbrev pub reserved : Server → Text → Attempt → Bool × GoMap Text Attempts → Outcome
  reserved sv username r (false, second) = (record sv { second = second }, (too_many, none))
  reserved sv username r (true, second) =
      checked (waited sv username r second) username r (second_right sv.store username r)

  abbrev pub second_step : Server → Attempt → Option Text → Outcome
  second_step sv r none = (sv, (restart, none))
  second_step sv r (some username) =
      reserved sv username r (begin_second_factor sv.second username r.now)

  -- `finishWithPasskey` and `finishWithCode`
  unfoldable pub finish : Server → Attempt → Outcome
  unfolding get_session second_right sign_in
  finish sv r =
      let read = get_session x.coding sv.store r.cookie r.now in
      second_step (record sv { store = read.0 }) r (waiting read.1 r.now)

  -- `simpleAuthPostEndpoint`, of a form that was read.
  unfoldable pub post : Server → Attempt → Outcome
  unfolding finish ask_for_code sign_in check_creds two_factor_required wait
  post sv r =
      if not (is_nil r.form.passkey) || not (is_nil r.form.code)
      then finish sv r
      else first_step sv r
