-- ===== src/Examples/Secrets.antt =====
-- Runs of the browser sessions and of the API tokens.
use wg_access_server.Prelude.{
  true, false, ◌||◌, ◌≡◌, ◌≢◌, refl, Option, none, some, [], ◌∷◌, ◌++◌, ok, err, list_eq, list_beq,
  list_beq_iff, nat_eq, arith, ◌==◌,
}
use wg_access_server.Prelude.GoMap.{get}
use wg_access_server.Prelude.Text.{Text, codes, trim_space, trim_left, trim_right, is_space}
use wg_access_server.Authnz.{Identity, admin_claim, is_admin, claim_values}
use wg_access_server.Storage.{Session, ApiToken}
use wg_access_server.Storage.Memory.{Memory, new_memory}
use wg_access_server.Storage.Memory.Tokens.{find_token}
use wg_access_server.Websessions.{invalid_session, identity, end_session}
use wg_access_server.Websessions.Invariant.{IsSessionMap}
use wg_access_server.Websessions.Lifecycle.{end_session-identity}
use wg_access_server.Apitokens.{
  prefix, snapshot, is_derived, validate, create_token, authenticate, revoke,
}
use wg_access_server.Apitokens.Access.{
  snapshot-claims, answer, issued, create_token-authenticate, revoke-owner,
}

abbrev pub hash : Text → Text
hash t = 104 ∷ t

-- One identity, whose JSON is empty.
abbrev pub ann : Identity
ann = record {
  provider = codes "basic";
  subject = codes "ann";
  name = [];
  email = [];
  claims = record { name = admin_claim; value = codes "true" } ∷ [];
}

abbrev pub encode : Identity → Text
encode who = []

abbrev pub decode_as : Identity → Text → Option Identity
decode_as who t = some who

abbrev session : Text → Text → Text → Session
session id owner secret = record {
  id = id;
  owner = owner;
  hash = hash secret;
  identity = [];
  user_agent = [];
  remote_addr = [];
  created_at = 1;
  expires_at = 100;
  last_seen_at = 1;
}

abbrev of_ann : Session
of_ann = session (codes "1") (codes "ann") (codes "s")

abbrev pub one_session : Memory
one_session = record new_memory { sessions = (codes "1", of_ann) ∷ [] }

pub one_session-IsSessionMap : IsSessionMap one_session.sessions
unfolding get
one_session-IsSessionMap = record {
  is_map = (refl, tt);
  keyed = λ k t h. ground (arith, list_beq_iff (codes "1") k);
  unique =
      λ j k t u g h same. ground (arith, list_beq_iff (codes "1") j, list_beq_iff (codes "1") k);
}

end_session-identity_example :
    ((end_session hash one_session (codes "s")).1 ≡ ok tt)
    × (identity hash (decode_as ann) (end_session hash one_session (codes "s")).0 (codes "s") 9
        ≡ ((end_session hash one_session (codes "s")).0, err invalid_session))
    × ((id : Text) (t : Session)
        → get one_session.sessions id ≡ some t
        → t.hash ≢ hash (codes "s")
        → get (end_session hash one_session (codes "s")).0.sessions id ≡ some t)
end_session-identity_example =
    end_session-identity hash (decode_as ann) one_session (codes "s") 9 one_session-IsSessionMap

not_admin_claim : codes "policy" ≢ admin_claim
not_admin_claim e = ground arith

snapshot-claims_example :
    (is_derived ann.provider ≡ true → is_admin (snapshot ann).claims ≡ false)
    × (is_derived ann.provider ≡ false → (snapshot ann).claims ≡ ann.claims)
    × (claim_values (snapshot ann).claims (codes "policy")
        ≡ claim_values ann.claims (codes "policy"))
snapshot-claims_example = snapshot-claims ann (codes "policy") not_admin_claim

abbrev pub middleware : Identity → Option Identity
middleware who = some who

named : validate (trim_space (codes " ci ")) (some 90) 7 ≡ ok tt
unfolding validate trim_space trim_left trim_right is_space
named = refl

create_token-authenticate_example :
    let token =
      issued encode ann (codes "ci") (hash (prefix ++ codes "r")) (some 90) (codes "1") 7 in
    let made =
      create_token hash encode new_memory ann (codes " ci ") (some 90) (codes "1") (codes "r") 7 in
    (made.1 ≡ ok (prefix ++ codes "r", token))
    × ((authenticate hash (decode_as (snapshot ann)) middleware made.0 (prefix ++ codes "r") 50).1
        ≡ answer middleware ann (some 90) token 50)
unfolding find_token trim_space trim_left trim_right is_space
create_token-authenticate_example =
    create_token-authenticate hash encode (decode_as (snapshot ann)) middleware new_memory ann
      (codes " ci ") (some 90) (codes "1") (codes "r") 7 50 refl refl named

abbrev token : ApiToken
token = record {
  id = codes "1";
  owner = codes "bob";
  name = codes "ci";
  hash = hash (codes "r");
  identity = [];
  created_at = 1;
  expires_at = none;
  last_used_at = none;
}

abbrev with_token : Memory
with_token = record new_memory { tokens = (codes "1", token) ∷ [] }

held : get with_token.tokens (codes "1") ≡ some token
unfolding get list_beq
held = refl

revoke-owner_example :
    (is_admin ann.claims ≡ false
      → token.owner ≢ ann.subject
      → revoke with_token ann (codes "1")
        ≡ (with_token, (revoke (record with_token { tokens = [] }) ann (codes "1")).1))
    × ((token.owner == ann.subject) || is_admin ann.claims ≡ true
        → ((revoke with_token ann (codes "1")).1 ≡ ok token)
          × (get (revoke with_token ann (codes "1")).0.tokens (codes "1") ≡ none))
revoke-owner_example = revoke-owner with_token ann (codes "1") token held
