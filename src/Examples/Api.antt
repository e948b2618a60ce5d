-- ===== src/Examples/Api.antt =====
-- Calls of the API: by Bob, who is no admin, and by an admin, where Ann has a device and a session.
use wg_access_server.Prelude.{
  ℕ, true, false, ◌≡◌, ◌≢◌, refl, ap, none, some, [], ◌∷◌, list_eq, list_beq, nat_eq, arith, ok,
  err,
}
use wg_access_server.Prelude.GoMap.{get, put}
use wg_access_server.Prelude.Text.{Text, codes}
use wg_access_server.Authnz.{Identity, is_admin, has_claim}
use wg_access_server.Storage.{device_key}
use wg_access_server.Devices.Sync.{sync_peers}
use wg_access_server.Users.Passwords.{Hashing, PasswordState}
use wg_access_server.Api.{not_admin, Caller, External, Services}
use wg_access_server.Api.Admin.{Revocation, revoke_access_for, delete_user_for}
use wg_access_server.Api.Admin.Revoked.{
  IsSignedOut, IsBlocked, IsGone, revoke_access_for-signs_out, revoke_access_for-unpeers,
  delete_user_for-leaves_nothing,
}
use wg_access_server.Api.Calls.{Call, serve_call}
use wg_access_server.Api.Calls.Access.{serve_call-refused}
use wg_access_server.Api.Calls.Isolation.{serve_call-Spares}
use wg_access_server.Api.Spares.{IsStored, Spares}
use wg_access_server.Examples.Addresses.{codec}
use wg_access_server.Examples.Managed.{config}
use wg_access_server.Examples.Blocking.{laptop, stored, stored-Sound}
use wg_access_server.Examples.Peers.{keys_only, keys_only-IsReliable, forms, peers}
use wg_access_server.Examples.Secrets.{
  hash, encode, decode_as, one_session, one_session-IsSessionMap,
}
use wg_access_server.Examples.Secrets
use wg_access_server.Examples.SignIn.{mac}
use wg_access_server.Examples.Ceremonies.{texts}

abbrev pub bob : Identity
bob = record {
  provider = codes "simple";
  subject = codes "bob";
  name = [];
  email = [];
  claims = [];
}

abbrev root : Identity
root = record Secrets.ann { subject = codes "root" }

abbrev by_bob : Caller
by_bob = record { identity = some bob; api_token = []; session = codes "t" }

abbrev with_token : Caller
with_token = record by_bob { api_token = codes "1" }

abbrev pub by_root : Caller
by_root = record { identity = some root; api_token = []; session = [] }

abbrev hashing : Hashing
hashing = record {
  configured = λ subject. none;
  matches = λ stored pass. false;
  compare = λ stored pass. true;
  generate = λ pass. some pass;
}

abbrev pub external : External
external = record {
  hash = hash;
  encode = encode;
  decode = decode_as bob;
  hashing = hashing;
  mac = mac;
  codec = codec;
  config = config;
}

abbrev pub all : Services
all = record {
  passwords = true;
  two_factor = true;
  passkeys = true;
  tokens = true;
  sessions = true;
  tokens_enabled = true;
}

abbrev state : PasswordState
state = record { wrong = []; store = record stored { sessions = one_session.sessions } }

state-IsStored : IsStored state.store
state-IsStored = record { sound = stored-Sound; sessions = one_session-IsSessionMap }

bob-is_admin : is_admin bob.claims ≡ false
unfolding is_admin has_claim
bob-is_admin = refl

root-is_admin : is_admin root.claims ≡ true
unfolding is_admin has_claim list_beq
root-is_admin = refl

abbrev first_code : Text → ℕ
first_code [] = 0
first_code (c ∷ t) = c

ann-root : codes "ann" ≢ codes "root"
ann-root e = let first : 97 ≡ 114 = ap first_code e in omega (arith, first)

-- Bob would end Ann's session.
serve_call-Spares_example :
    let after =
      (serve_call all texts external by_bob 9 (Call.delete_session (codes "1")) state).0.store in
    IsStored after × Spares (codes "bob") state.store after
serve_call-Spares_example =
    serve_call-Spares all texts external by_bob 9 state bob refl bob-is_admin
      (Call.delete_session (codes "1")) tt state-IsStored

serve_call-refused_example :
    serve_call all texts external by_bob 9 (Call.revoke_access (codes "ann")) state
    ≡ (state, err not_admin)
unfolding is_admin has_claim
serve_call-refused_example =
    serve_call-refused all texts external by_bob 9 state (Call.revoke_access (codes "ann"))
      not_admin refl

revoke_access_for-signs_out_example :
    let done = revoke_access_for all by_root (codes "ann") state in
    ((v : Revocation) × (done.1 ≡ ok v))
    × IsSignedOut (codes "ann") done.0.store
    × IsBlocked (codes "ann") done.0.store
    × Spares (codes "ann") state.store done.0.store
revoke_access_for-signs_out_example =
    revoke_access_for-signs_out all by_root state root (codes "ann") refl root-is_admin refl refl
      ann-root

delete_user_for-leaves_nothing_example :
    let done = delete_user_for all by_root (codes "ann") state in
    (done.1 ≡ ok tt)
    × IsGone (codes "ann") done.0.store
    × Spares (codes "ann") state.store done.0.store
delete_user_for-leaves_nothing_example =
    delete_user_for-leaves_nothing all by_root state root (codes "ann") refl root-is_admin refl refl

laptop-stored : get state.store.db (device_key laptop) ≡ some laptop
unfolding get put list_beq device_key wg_access_server.Storage.Keys.key_str
    wg_access_server.Storage.Keys.quote_rune
laptop-stored = refl

revoke_access_for-unpeers_example :
    keys_only-IsReliable.has
      (sync_peers keys_only forms
        (revoke_access_for all by_root (codes "ann") state).0.store
        4
        (codes "k1" ∷ [])).0
      (codes "k1")
    ≡ false
revoke_access_for-unpeers_example =
    revoke_access_for-unpeers all by_root state root (codes "ann") refl root-is_admin refl refl
      keys_only-IsReliable forms (device_key laptop) laptop 4 (codes "k1" ∷ [])
      (peers (codes "k1" ∷ [])) ann-root stored-Sound laptop-stored refl (λ e. cc) refl
