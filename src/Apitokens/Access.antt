-- ===== src/Apitokens/Access.antt =====
-- What a token gives access to.
use wg_access_server.Prelude.{
  ℕ, Bool, true, false, ◌||◌, ◌≡◌, ◌≢◌, refl, ap, Option, none, some, List, [], ◌∷◌, ◌++◌, ◌==◌,
  list_eq, list_beq_iff, nat_eq, leb, arith, Result, ok, err, if◌then◌else◌, Option-cases, ==_refl,
}
use wg_access_server.Prelude.GoMap.{GoMap, get, put, get-delete}
use wg_access_server.Prelude.Text.{Text, trim_space, has_prefix}
use wg_access_server.Authnz.{Claim, Identity, admin_claim, is_admin, has_claim, claim_values}
use wg_access_server.Storage.{ApiToken, token_expired}
use wg_access_server.Storage.Memory.{Memory}
use wg_access_server.Storage.Memory.Tokens.{
  token_hash_taken, find_token, save_token, get_token, get_token_by_hash, delete_token,
}
use wg_access_server.Apitokens.{
  TokenError, expired_token, forbidden, prefix, is_derived, kept_claims, snapshot, validate,
  new_token, create_token, authenticate, revoke,
}

has_claim-kept_claims :
    (claims : List Claim) (value : Text)
    → has_claim (kept_claims true claims) admin_claim value ≡ false
unfolding has_claim kept_claims
has_claim-kept_claims [] value = refl
has_claim-kept_claims (c ∷ claims) value = ground (arith, has_claim-kept_claims claims value)

claim_values-kept_claims :
    (derived : Bool) (claims : List Claim) (name : Text)
    → name ≢ admin_claim
    → claim_values (kept_claims derived claims) name ≡ claim_values claims name
unfolding claim_values kept_claims
claim_values-kept_claims derived [] name h = refl
claim_values-kept_claims derived (c ∷ claims) name h = ground (
  arith,
  list_beq_iff c.name name,
  list_beq_iff c.name admin_claim,
  claim_values-kept_claims derived claims name h,
)

kept_claims-false : (claims : List Claim) → kept_claims false claims ≡ claims
unfolding kept_claims
kept_claims-false [] = refl
kept_claims-false (c ∷ claims) = ap (λ rest. c ∷ rest) (kept_claims-false claims)

-- The identity that a token keeps is no admin's if basic or simple authentication gave the claims,
-- keeps the claims as they are otherwise, and keeps the values of every other claim always.
pub snapshot-claims :
    (owner : Identity) (name : Text)
    → name ≢ admin_claim
    → (is_derived owner.provider ≡ true → is_admin (snapshot owner).claims ≡ false)
      × (is_derived owner.provider ≡ false → (snapshot owner).claims ≡ owner.claims)
      × (claim_values (snapshot owner).claims name ≡ claim_values owner.claims name)
unfolding snapshot is_admin
snapshot-claims owner name h = (
  (λ e. rw e (has_claim-kept_claims owner.claims _)),
  (λ e. rw e (kept_claims-false owner.claims)),
  claim_values-kept_claims (is_derived owner.provider) owner.claims name h,
)

has_prefix-append : (p s : Text) → has_prefix (p ++ s) p ≡ true
unfolding has_prefix
has_prefix-append [] [] = refl
has_prefix-append [] (c ∷ s) = refl
has_prefix-append (c ∷ p) s = ground (arith, has_prefix-append p s)

token_hash_taken-find_token :
    (m : GoMap Text ApiToken) (hash id : Text)
    → find_token m hash ≡ none
    → token_hash_taken m hash id ≡ false
unfolding token_hash_taken find_token
token_hash_taken-find_token [] hash id h = refl
token_hash_taken-find_token ((k, t) ∷ m) hash id h =
    ground (arith, token_hash_taken-find_token m hash id)

find_token-put :
    (m : GoMap Text ApiToken) (id : Text) (t : ApiToken)
    → find_token m t.hash ≡ none
    → find_token (put m id t) t.hash ≡ some t
unfolding find_token put
find_token-put [] id t h = ground (arith, ==_refl t.hash)
find_token-put ((k, u) ∷ m) id t h = ground (arith, ==_refl t.hash, find_token-put m id t)

-- The token that is to be issued.
abbrev pub issued : (Identity → Text) → Identity → Text → Text → Option ℕ → Text → ℕ → ApiToken
issued encode owner name hashed expires_at id now = record {
  id = id;
  owner = owner.subject;
  name = name;
  hash = hashed;
  identity = encode (snapshot owner);
  created_at = now;
  expires_at = expires_at;
  last_used_at = none;
}

-- There is an expiry, and it has come.
abbrev pub is_over : Option ℕ → ℕ → Bool
is_over none at = false
is_over (some expiry) at = leb expiry at

-- What a request with a token gets that was issued with an expiry: the expiry first, then the claims
-- of the day.
abbrev pub answer :
    (Identity → Option Identity)
    → Identity
    → Option ℕ
    → ApiToken
    → ℕ
    → Result TokenError (Identity × ApiToken)
answer middleware owner expires_at token at =
    if is_over expires_at at
    then err expired_token
    else elim (middleware (snapshot owner)) [ none ↦ err forbidden | some who ↦ ok (who, token) ]

-- A token whose name and expiry are right is created: with the given expiry, for its owner, under the
-- hash of the secret that is returned. A request with that secret is refused as expired from the
-- expiry on, if there is one, and gets the claims that the middleware gives the owner's snapshot at
-- that time before, if the hash of the secret is no other token's and the JSON of an identity is read
-- back.
pub create_token-authenticate :
    (hash : Text → Text) (encode : Identity → Text) (decode : Text → Option Identity)
    (middleware : Identity → Option Identity) (s : Memory) (owner : Identity) (name : Text)
    (expires_at : Option ℕ) (id random : Text) (now at : ℕ)
    → decode (encode (snapshot owner)) ≡ some (snapshot owner)
    → find_token s.tokens (hash (prefix ++ random)) ≡ none
    → validate (trim_space name) expires_at now ≡ ok tt
    → let secret = prefix ++ random in
      let token = issued encode owner (trim_space name) (hash secret) expires_at id now in
      let made = create_token hash encode s owner name expires_at id random now in
      (made.1 ≡ ok (secret, token))
      × ((authenticate hash decode middleware made.0 secret at).1
          ≡ answer middleware owner expires_at token at)
unfolding create_token save_token authenticate get_token_by_hash new_token token_expired
create_token-authenticate hash encode decode middleware s owner name expires_at id random now at
      json fresh valid =
    let token = issued encode owner (trim_space name) (hash (prefix ++ random)) expires_at id now in
    ground (
      arith,
      has_prefix-append prefix random,
      token_hash_taken-find_token s.tokens (hash (prefix ++ random)) id fresh,
      find_token-put s.tokens id token fresh,
      Option-cases (middleware (snapshot owner)),
      Option-cases expires_at,
    )

-- Asked to revoke a stored token of somebody else, everyone but an admin changes nothing and gets
-- the answer that a store without tokens gives. A stored token of the user's own, or any stored
-- token for an admin, is gone afterwards.
pub revoke-owner :
    (s : Memory) (user : Identity) (id : Text) (token : ApiToken)
    → get s.tokens id ≡ some token
    → (is_admin user.claims ≡ false
        → token.owner ≢ user.subject
        → revoke s user id ≡ (s, (revoke (record s { tokens = [] }) user id).1))
      × ((token.owner == user.subject) || is_admin user.claims ≡ true
          → ((revoke s user id).1 ≡ ok token) × (get (revoke s user id).0.tokens id ≡ none))
unfolding revoke get_token delete_token get
revoke-owner s user id token h = (
  (λ plain other. ground (arith, list_beq_iff token.owner user.subject)),
  (λ may. ground (arith, get-delete s.tokens id id, ==_refl id)),
)
