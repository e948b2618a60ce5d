-- ===== src/Api/Bearer.antt =====
-- internal/apitokens/middleware.go: the API tokens that requests carry. It runs after the session
-- middleware, and gives the request on with who asks, or refuses it. The log is left out.
use wg_access_server.Prelude.{
  ℕ, Bool, Option, none, some, [], ◌∷◌, ◌==◌, list_eq, nat_eq, if◌then◌else◌, Result, ok, err,
}
use wg_access_server.Prelude.Text.{Text, codes, is_nil, trim_space, has_prefix, to_upper}
use wg_access_server.Authnz.{Identity}
use wg_access_server.Storage.{ApiToken}
use wg_access_server.Storage.Memory.{Memory}
use wg_access_server.Apitokens.{TokenError, invalid_token, expired_token, forbidden, authenticate}
use wg_access_server.Api.{Caller, External}

-- What the middleware reads of a request: the header "Authorization", and the path.
pub record Request : Type 0 where
  pub authorization : Text
  pub path : Text

-- Why a request is refused.
pub data Refusal : Type 0 where
  tokens_off : Refusal
  unaccepted : TokenError → Refusal

-- The status of the answer.
unfoldable pub status_of : Refusal → ℕ
status_of tokens_off = 401
status_of (unaccepted forbidden) = 403
status_of (unaccepted invalid_token) = 401
status_of (unaccepted expired_token) = 401
status_of (unaccepted e) = 500

abbrev pub api_prefix : Text
api_prefix = codes "/api/"

abbrev cons_first : ℕ → Option (Text × Text) → Option (Text × Text)
cons_first c none = none
cons_first c (some (before, after)) = some (c ∷ before, after)

-- `strings.Cut` at one character.
unfoldable pub cut : ℕ → Text → Option (Text × Text)
cut sep [] = none
cut sep (c ∷ s) = let rest = cut sep s in if c == sep then some ([], s) else cons_first c rest

abbrev unless_nil : Text → Option Text
unless_nil text = if is_nil text then none else some text

-- `strings.EqualFold` with "Bearer": no character beyond ASCII folds to one of its letters.
unfoldable pub bearer_token : Text → Option Text
bearer_token authorization = elim (cut 32 authorization) [
  | none ↦ none
  | some (scheme, token) ↦
      if to_upper scheme == codes "BEARER" then unless_nil (trim_space token) else none
]

-- The session that a token stands for: it has no id.
abbrev pub acting_as : Identity × ApiToken → Caller
acting_as (user, token) = record { identity = some user; api_token = token.id; session = [] }

abbrev pub let_through :
    Memory × Result TokenError (Identity × ApiToken) → Memory × Result Refusal Caller
let_through (s, ok found) = (s, ok (acting_as found))
let_through (s, err e) = (s, err (unaccepted e))

-- `Middleware`. The claims middleware is an argument; so is whether tokens are enabled.
unfoldable pub through :
    Bool
    → External
    → (Identity → Option Identity)
    → Memory
    → Request
    → Caller
    → ℕ
    → Memory × Result Refusal Caller
through enabled x middleware s request browser now = elim (bearer_token request.authorization) [
  | none ↦ (s, ok browser)
  | some secret ↦
      if has_prefix request.path api_prefix
      then if enabled
        then let_through (authenticate x.hash x.decode middleware s secret now)
        else (s, err tokens_off)
      else (s, ok browser)
]
