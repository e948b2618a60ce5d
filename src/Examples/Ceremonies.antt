-- ===== src/Examples/Ceremonies.antt =====
-- A passkey library on texts, and runs of a sign-in.
use wg_access_server.Prelude.{
  ◌+◌, true, false, ◌≡◌, ◌≢◌, refl, Option, none, some, [], ◌∷◌, list_eq, list_beq, nat_eq, arith,
  ok, err, if◌then◌else◌, ltb, keep,
}
use wg_access_server.Prelude.GoMap.{get, put, values}
use wg_access_server.Prelude.Text.{Text, codes}
use wg_access_server.Storage.{User, Passkey}
use wg_access_server.Storage.Memory.{Memory, new_memory}
use wg_access_server.Storage.Memory.Users.{get_user, set_webauthn_challenge}
use wg_access_server.Storage.Memory.Passkeys.{list_passkeys}
use wg_access_server.Users.Passkeys.{
  Site, WebAuthn, no_challenge, challenge_for, credentials, passkey_user, keep_challenge,
  user_and_challenge, begin_login, finish_login, finish_registration,
}
use wg_access_server.Users.Passkeys.Challenge.{finish-once, begin_login-user_and_challenge}
use wg_access_server.Examples.SignIn.{user}

-- An exchange is written with a letter before it.
abbrev unmarked : Text → Option Text
unmarked [] = none
unmarked (c ∷ t) = some t

abbrev pub texts : WebAuthn
texts = record {
  Exchange = Text;
  Credential = Text;
  encode_exchange = λ t. some (120 ∷ t);
  decode_exchange = unmarked;
  encode_credential = λ t. some t;
  decode_credential = λ t. some t;
  credential_id = λ t. t;
  clone_warning = λ t. false;
  without_warning = λ t. t;
  accepts_site = λ site. true;
  begin_registration = λ site user known. some (some (codes "o"), codes "e");
  begin_login = λ site user known. some (some (codes "o"), codes "e");
  reads_creation = λ answer. true;
  create_credential = λ site user known exchange answer. some answer;
  reads_request = λ answer. true;
  validate_login = λ site user known exchange answer. some answer;
}

abbrev ann : Text
ann = codes "ann"

abbrev site : Site
site = record { id = codes "vpn"; origin = codes "https://vpn" }

abbrev passkey : Passkey
passkey = record {
  id = codes "c";
  owner = ann;
  name = codes "key";
  credential = codes "c";
  created_at = 1;
  last_used_at = none;
}

abbrev asking : User
asking = record user { webauthn_challenge = codes "xe"; webauthn_challenge_until = some 50 }

abbrev store : User → Memory
store u = record new_memory { users = (ann, u) ∷ []; passkeys = (codes "c", passkey) ∷ [] }

found : (u : User) → get (store u).users ann ≡ some u
unfolding get list_beq
found u = refl

finish-once_example :
    let after_login = (finish_login texts site (store asking) ann (codes "c") 20).0 in
    let after_registration =
      (finish_registration texts site (store asking) ann (codes "n") (codes "c") 20).0 in
    (finish_login texts site after_login ann (codes "d") 30 ≡ (after_login, err no_challenge))
    × (finish_registration texts site after_login ann (codes "m") (codes "d") 30
        ≡ (after_login, err no_challenge))
    × (finish_login texts site after_registration ann (codes "d") 30
        ≡ (after_registration, err no_challenge))
    × (finish_registration texts site after_registration ann (codes "m") (codes "d") 30
        ≡ (after_registration, err no_challenge))
finish-once_example =
    finish-once texts (store asking) ann 20 asking (found asking) site site (codes "n") (codes "m")
      (codes "c") (codes "d") 30 (omega arith)

abbrev begun : Memory
begun = record (store user) {
  users = put (store user).users ann (record user {
    webauthn_challenge = codes "xe";
    webauthn_challenge_until = some (20 + challenge_for);
  });
}

begin_login-begun : begin_login texts site (store user) ann 20 ≡ (begun, ok (codes "o"))
unfolding begin_login passkey_user keep_challenge credentials list_passkeys get_user
    set_webauthn_challenge get list_beq keep values
begin_login-begun = refl

texts-read :
    (e : Text) (t : Text)
    → texts.encode_exchange e ≡ some t
    → (t ≢ []) × (texts.decode_exchange t ≡ some e)
texts-read e t h = ground arith

begin_login-user_and_challenge_example :
    (user' : User) × (exchange : Text) × (texts.begin_login site user
        (credentials texts (list_passkeys (store user) ann))
      ≡ some (some (codes "o"), exchange))
    × ((user_and_challenge texts begun ann 30).1 ≡ (
        if ltb (20 + challenge_for) 30
        then err no_challenge
        else ok ((user', credentials texts (list_passkeys (store user) ann)), exchange)))
begin_login-user_and_challenge_example =
    begin_login-user_and_challenge texts (store user) ann 20 user (found user) site begun
      (codes "o") 30 texts-read begin_login-begun
