-- ===== src/Examples/Forms.antt =====
-- Ann's sign-in with the password form: the password, and the code that she is asked for.
use wg_access_server.Prelude.{
  ℕ, ◌+◌, true, false, ◌≡◌, ◌≢◌, ◌⊎◌, refl, ap, inl, inr, none, some, [], ◌∷◌, list_eq, list_beq,
  nat_eq, arith, ok, err, leb, if◌then◌else◌, any, keep,
}
use wg_access_server.Prelude.GoMap.{get, put, delete, values}
use wg_access_server.Prelude.Text.{
  Text, codes, byte_length, trim_space, trim_left, trim_right, is_space, to_upper,
}
use wg_access_server.Authnz.{Identity, pending_valid}
use wg_access_server.Authnz.Throttle.{Lru, begin_second_factor}
use wg_access_server.Storage.Memory.Passkeys.{list_passkeys}
use wg_access_server.Storage.Memory.Sessions.{
  find_session, save_session, session_hash_taken, get_session_by_hash, delete_session,
}
use wg_access_server.Storage.{two_factor_enabled, session_expired}
use wg_access_server.Storage.Memory.Users.{get_user, set_user_totp}
use wg_access_server.Users.Limit.{reserve, current}
use wg_access_server.Users.Totp.{check_totp_step, matching, code, padded, truncated, big_endian}
use wg_access_server.Users.TwoFactor.{check}
use wg_access_server.Users.Passwords.{Hashing, password_right}
use wg_access_server.Websessions.{invalid_session, create, identity, end_session}
use wg_access_server.Signin.Cookies.{Cookie, Fresh, get_session}
use wg_access_server.Signin.Form.{
  Attempt, Setup, Server, signed_in, pending_for, provider, sign_in, post, parse_htpassword,
}
use wg_access_server.Signin.Form.Histories.{
  World, after, Run, started, posted, IsHeld, ByPassword, BySecondFactor, post-authenticated,
}
use wg_access_server.Signin.Form.Started.{sign_in-identity, sign_in-replaces}
use wg_access_server.Examples.Ceremonies.{texts}
use wg_access_server.Examples.Secrets.{
  hash, encode, decode_as, one_session, one_session-IsSessionMap,
}
use wg_access_server.Examples.SignIn.{mac, store, now, given}

-- A cache that forgets at once.
abbrev forgetful : Lru
forgetful = record {
  Cache = Unit {0};
  lookup = λ cache username. (none, cache);
  remove = λ cache username. cache;
  insert = λ cache username a. cache;
}

abbrev ann : Identity
ann = record {
  provider = provider;
  subject = codes "ann";
  name = codes "ann";
  email = [];
  claims = [];
}

abbrev hashing : Hashing
hashing = record {
  configured = λ subject. none;
  matches = λ entry pass. true;
  compare = λ stored pass. false;
  generate = λ pass. none;
}

abbrev setup : Setup
setup = record {
  users = codes "ann:h" ∷ [];
  coding = record { hash = hash; encode = encode; decode = decode_as ann; max_age = 100 };
  hashing = hashing;
  mac = mac;
  wa = texts;
  lru = forgetful;
}

abbrev server : Server setup
server = record { store = store; cache = tt; second = [] }

abbrev fresh : Fresh
fresh = record {
  id = codes "2";
  secret = codes "n";
  request = record { user_agent = []; remote_addr = [] };
  saves = true;
}

abbrev with_password : Attempt
with_password = record {
  form = record { passkey = []; code = []; username = codes "ann"; password = codes "p" };
  cookie = none;
  now = now;
  later = now;
  site = record { id = []; origin = [] };
  fresh = fresh;
}

abbrev waits : Cookie
waits = record {
  id = [];
  pending = some (record { subject = codes "ann"; provider = provider; until = now + pending_for });
}

abbrev with_code : Attempt
with_code = record with_password {
  form = record { passkey = []; code = given; username = []; password = [] };
  cookie = some waits;
}

abbrev begun : World setup
begun = after setup (record { server = server; issued = []; passwords = [] }) with_password

begun-Run : Run setup begun
begun-Run = posted (started server) with_password tt

asked : (post setup server with_password).1.1 ≡ some waits
unfolding post byte_length parse_htpassword list_beq password_right get list_passkeys keep values
    two_factor_enabled
asked = refl

held : IsHeld setup with_code.cookie begun.issued
unfolding post byte_length parse_htpassword list_beq password_right get list_passkeys keep values
    two_factor_enabled
held = inr (inl refl)

second : (post setup begun.server with_code).1.0 ≡ signed_in ann
unfolding post pending_valid list_beq begin_second_factor reserve current get byte_length
    parse_htpassword password_right list_passkeys keep values two_factor_enabled check
    check_totp_step matching code padded truncated big_endian trim_space trim_left trim_right
    is_space to_upper any get_user create save_session session_hash_taken set_user_totp put
second = refl

post-authenticated_example :
    ByPassword setup begun with_code ann ⊎ BySecondFactor setup begun with_code ann
post-authenticated_example = post-authenticated setup begun-Run with_code ann held second

secret : codes "n" ≢ []
secret e = cc

ann_in :
    (sign_in setup server (codes "ann") with_password).1
    ≡ (signed_in ann, some (record { id = codes "n"; pending = none }))
unfolding sign_in any get_user get list_beq create save_session session_hash_taken
ann_in = refl

lacking : find_session server.store.sessions (hash (codes "n")) ≡ none
unfolding find_session
lacking = refl

sign_in-identity_example :
    (identity hash
      (decode_as ann)
      (sign_in setup server (codes "ann") with_password).0.store
      (codes "n")
      7).1
    ≡ (if leb (now + 100) 7 then err invalid_session else ok ann)
sign_in-identity_example =
    sign_in-identity setup server (codes "ann") with_password ann
      (record { id = codes "n"; pending = none }) 7 refl secret lacking ann_in

-- Ann has a session already.
abbrev in_session : Server setup
in_session = record server { store = record store { sessions = one_session.sessions } }

abbrev old : Cookie
old = record { id = codes "s"; pending = none }

abbrev again : Attempt
again = record with_password { cookie = some old; now = 9; later = 9 }

old_read :
    (get_session setup.coding in_session.store (some old) 9).1
    ≡ some (record { id = codes "s"; identity = some ann; pending = none })
unfolding get_session identity get_session_by_hash list_beq session_expired
old_read = refl

again_in :
    (sign_in setup in_session (codes "ann") again).1
    ≡ (signed_in ann, some (record { id = codes "n"; pending = none }))
unfolding sign_in any get_user get list_beq create save_session session_hash_taken identity
    get_session_by_hash session_expired end_session delete_session delete
again_in = refl

abbrev second_code : Text → ℕ
second_code (c ∷ d ∷ t) = d
second_code _ = 0

other_hash : hash (codes "n") ≢ hash (codes "s")
other_hash e = let differs : 110 ≡ 115 = ap second_code e in omega (arith, differs)

sign_in-replaces_example :
    (identity hash
      (decode_as ann)
      (sign_in setup in_session (codes "ann") again).0.store
      (codes "s")
      12).1
    ≡ err invalid_session
sign_in-replaces_example =
    sign_in-replaces setup in_session (codes "ann") again ann
      (record { id = codes "n"; pending = none }) old
      (record { id = codes "s"; identity = some ann; pending = none }) 12 one_session-IsSessionMap
      refl (λ e. cc) old_read other_hash again_in
