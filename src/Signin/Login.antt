-- ===== src/Signin/Login.antt =====
-- checkLogin, recordLogin and policiesOf of cmd/serve/http.go, and SetSession of
-- internal/authnz/authruntime/runtime.go, which calls them.
use wg_access_server.Prelude.{
  ℕ, Bool, false, not, ◌&&◌, ◌||◌, Option, none, some, List, [], ◌∷◌, map, any, elem, ◌==◌, list_eq,
  nat_eq, if◌then◌else◌, Result, ok, err,
}
use wg_access_server.Prelude.Text.{Text, codes, is_nil, join}
use wg_access_server.Authnz.{Identity, claim_values}
use wg_access_server.Storage.{Device, User}
use wg_access_server.Storage.Memory.{Memory, Op, list_devices}
use wg_access_server.Storage.Memory.Users.{get_user, save_user}
use wg_access_server.Devices.Firewall.{sort_strings}
use wg_access_server.Api.{has_password}
use wg_access_server.Signin.Cookies.{Cookie, AuthSession, Coding, Fresh, CookieError, set_session}

pub data LoginError : Type 0 where
  refused : LoginError
  cookie : CookieError → LoginError

-- `sameProvider`
unfoldable pub same_provider : Text → Text → Bool
unfolding has_password
same_provider a b = a == b || has_password a && has_password b

-- The providers that a subject is known from.
unfoldable pub known_providers : Memory → Text → List Text
known_providers s subject = elim (get_user s subject) [
  | ok user ↦ user.provider ∷ []
  | err e ↦ map (λ (d : Device). d.owner_provider) (list_devices s subject)
]

abbrev pub is_foreign : Text → Text → Bool
is_foreign provider known = not (is_nil known || same_provider known provider)

-- `checkLogin`: whether the subject is somebody else's.
unfoldable pub is_refused : Memory → Identity → Bool
unfolding known_providers same_provider
is_refused s who = any (is_foreign who.provider) (known_providers s who.subject)

-- The first of each that is not empty.
unfoldable pub once : List Text → List Text → List Text
once seen [] = []
once seen (p ∷ policies) =
    let skipped = is_nil p || elem p seen in
    let rest = once (if skipped then seen else p ∷ seen) policies in
    if skipped then rest else p ∷ rest

-- `policiesOf`
unfoldable pub policies_of_identity : Identity → List Text
unfolding once sort_strings
policies_of_identity who = sort_strings (once [] (claim_values who.claims (codes "policy")))

abbrev pub remembered : Identity → ℕ → User
remembered who now = record {
  subject = who.subject;
  provider = who.provider;
  name = who.name;
  email = who.email;
  policies = join (codes ", ") (policies_of_identity who);
  last_login = now;
  password_hash = [];
  password_from = [];
  webauthn_challenge = [];
  webauthn_challenge_until = none;
  totp_secret = [];
  totp_enabled_at = none;
  totp_recovery = [];
  totp_last_step = 0;
}

abbrev after_save : {A : Type 0} → Memory → Op A → Memory
after_save s (ok o) = o.after
after_save s (err e) = s

-- `recordLogin`: a failure is only logged.
unfoldable pub record_login : Memory → Identity → ℕ → Memory
unfolding save_user policies_of_identity
record_login s who now = after_save s (save_user s (remembered who now))

abbrev recorded :
    Option Identity → ℕ → Memory × Result CookieError Cookie → Memory × Result LoginError Cookie
recorded who now (s, err e) = (s, err (cookie e))
recorded none now (s, ok c) = (s, ok c)
recorded (some who) now (s, ok c) = (record_login s who now, ok c)

abbrev refuses : Memory → Option Identity → Bool
refuses s none = false
refuses s (some who) = is_refused s who

-- `ProviderRuntime.SetSession`
unfoldable pub start_session :
    Coding → Memory → Option Cookie → AuthSession → Fresh → ℕ → Memory × Result LoginError Cookie
unfolding is_refused record_login set_session
start_session x s given new fresh now =
    if refuses s new.identity
    then (s, err refused)
    else recorded new.identity now (set_session x s given new fresh now)
