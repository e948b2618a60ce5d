-- ===== src/Apitokens.antt =====
-- internal/apitokens/apitokens.go over the in-memory storage. The random id and secret, the SHA-256 in
-- hex, the JSON of an identity, and the claims middleware are arguments.
pub mod Access
use wg_access_server.Prelude.{
  ℕ, ◌+◌, ◌-◌, Bool, true, false, not, ◌&&◌, ◌||◌, Option, none, some, List, [], ◌∷◌, ◌++◌, ◌==◌,
  list_eq, nat_eq, leb, ltb, if◌then◌else◌, Result, ok, err, ◌>>◌, reject_if, length,
}
use wg_access_server.Prelude.Text.{Text, codes, is_nil, trim_space, has_prefix}
use wg_access_server.Authnz.{Claim, Identity, admin_claim, is_admin}
use wg_access_server.Storage.{ApiToken, token_expired}
use wg_access_server.Storage.Memory.{Memory, Op, Outcome, StorageError, token_not_found}
use wg_access_server.Storage.Memory.Tokens.{
  save_token, get_token, get_token_by_hash, touch_token, delete_token, list_tokens,
  delete_tokens_for_owner,
}

pub data TokenError : Type 0 where
  invalid_token expired_token forbidden undecodable : TokenError
  name_missing name_too_long expiry_passed : TokenError
  storage : StorageError → TokenError

-- `Prefix`
abbrev pub prefix : Text
prefix = codes "wgas_"

abbrev max_name_length : ℕ
max_name_length = 100

abbrev pub touch_interval : ℕ
touch_interval = 60000000000

abbrev pub is_derived : Text → Bool
is_derived provider = provider == codes "basic" || provider == codes "simple"

-- The loop of `snapshot`.
unfoldable pub kept_claims : Bool → List Claim → List Claim
kept_claims derived [] = []
kept_claims derived (c ∷ claims) =
    let rest = kept_claims derived claims in
    if derived && c.name == admin_claim then rest else c ∷ rest

unfoldable pub snapshot : Identity → Identity
unfolding kept_claims
snapshot owner = record owner { claims = kept_claims (is_derived owner.provider) owner.claims }

abbrev expiry_invalid : Option ℕ → ℕ → Bool
expiry_invalid none now = false
expiry_invalid (some expiry) now = not (ltb now expiry)

-- The checks of `Create`, in their order.
unfoldable pub validate : Text → Option ℕ → ℕ → Result TokenError (Unit {0})
validate name expires_at now =
    reject_if (is_nil name) name_missing
    >> reject_if (ltb max_name_length (length name)) name_too_long
    >> reject_if (expiry_invalid expires_at now) expiry_passed

unfoldable pub new_token :
    (Text → Text) → (Identity → Text) → Identity → Text → Option ℕ → Text → Text → ℕ → ApiToken
unfolding snapshot
new_token hash encode owner name expires_at id secret now = record {
  id = id;
  owner = owner.subject;
  name = name;
  hash = hash secret;
  identity = encode (snapshot owner);
  created_at = now;
  expires_at = expires_at;
  last_used_at = none;
}

-- `Create`
unfoldable pub create_token :
    (Text → Text)
    → (Identity → Text)
    → Memory
    → Identity
    → Text
    → Option ℕ
    → Text
    → Text
    → ℕ
    → Memory × Result TokenError (Text × ApiToken)
unfolding validate new_token
create_token hash encode s owner given expires_at id random now =
    let name = trim_space given in
    let secret = prefix ++ random in
    let token = new_token hash encode owner name expires_at id secret now in
    elim (validate name expires_at now) [
      | err e ↦ (s, err e)
      | ok _ ↦ elim (save_token s token) [
        | ok o ↦ (o.after, ok (secret, token))
        | err e ↦ (s, err (storage e))
      ]
    ]

-- The last use is written once a minute.
abbrev pub due : Option ℕ → ℕ → Bool
due none now = true
due (some last) now = leb touch_interval (now - last)

abbrev pub after_or_same : {A : Type 0} → Memory → Op A → Memory
after_or_same s (ok o) = o.after
after_or_same s (err e) = s

unfoldable pub touch : Memory → ApiToken → ℕ → Memory
touch s token now =
    if due token.last_used_at now then after_or_same s (touch_token s token.id now) else s

abbrev pub or_invalid : Result StorageError ApiToken → Result TokenError ApiToken
or_invalid (ok token) = ok token
or_invalid (err token_not_found) = err invalid_token
or_invalid (err e) = err (storage e)

-- `Authenticate`. The middleware gives the identity with its claims, or nothing where it refuses.
unfoldable pub authenticate :
    (Text → Text)
    → (Text → Option Identity)
    → (Identity → Option Identity)
    → Memory
    → Text
    → ℕ
    → Memory × Result TokenError (Identity × ApiToken)
unfolding touch
authenticate hash decode middleware s secret now =
    if has_prefix secret prefix
    then elim (or_invalid (get_token_by_hash s (hash secret))) [
      | err e ↦ (s, err e)
      | ok token ↦
          if token_expired token now then (s, err expired_token) else elim (decode token.identity) [
            | none ↦ (s, err undecodable)
            | some who ↦ elim (middleware who) [
              | none ↦ (s, err forbidden)
              | some who' ↦ (touch s token now, ok (who', token))
            ]
          ]
    ]
    else (s, err invalid_token)

-- `Delete`
unfoldable pub revoke : Memory → Identity → Text → Memory × Result StorageError ApiToken
revoke s user id = elim (get_token s id) [
  | err e ↦ (s, err e)
  | ok token ↦
      if not (token.owner == user.subject) && not (is_admin user.claims)
      then (s, err token_not_found)
      else elim (delete_token s id) [ ok o ↦ (o.after, ok token) | err e ↦ (s, err e) ]
]
