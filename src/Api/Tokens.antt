-- ===== src/Api/Tokens.antt =====
-- internal/api/token_service.go
use wg_access_server.Prelude.{ℕ, not, Option, none, some, List, [], map}
use wg_access_server.Prelude.Text.{Text, is_nil}
use wg_access_server.Authnz.{Identity, is_admin}
use wg_access_server.Storage.{ApiToken}
use wg_access_server.Storage.Memory.{StorageError, token_not_found}
use wg_access_server.Storage.Memory.Tokens.{list_tokens}
use wg_access_server.Apitokens.{
  TokenError, name_missing, name_too_long, expiry_passed, create_token, revoke,
}
use wg_access_server.Api.{
  ApiError, not_admin, internal, tokens_disabled, tokens_only_in_ui, no_such_token, token_invalid,
  Caller, External, Services, Action, ◌>>=◌, ◌>>◌, refuse_if, reading, stepping, current_user,
}
use wg_access_server.Api.Devices.{responding}

-- `proto.Token`: the stored token without its hash and identity, and the name that the identity has.
pub record Item : Type 0 where
  pub id : Text
  pub name : Text
  pub owner : Text
  pub created_at : ℕ
  pub expires_at : Option ℕ
  pub last_used_at : Option ℕ
  pub owner_name : Text

abbrev name_of : Option Identity → Text
name_of none = []
name_of (some who) = who.name

-- `mapToken`
unfoldable pub map_token : (Text → Option Identity) → ApiToken → Item
map_token decode t = record {
  id = t.id;
  name = t.name;
  owner = t.owner;
  created_at = t.created_at;
  expires_at = t.expires_at;
  last_used_at = t.last_used_at;
  owner_name = name_of (decode t.identity);
}

-- A validation error carries what it is about.
abbrev pub token_error : TokenError → ApiError
token_error name_missing = token_invalid name_missing
token_error name_too_long = token_invalid name_too_long
token_error expiry_passed = token_invalid expiry_passed
token_error _ = internal

abbrev pub revoke_error : StorageError → ApiError
revoke_error token_not_found = no_such_token
revoke_error _ = internal

module _ (services : Services) (x : External) (who : Caller) where
  -- `user`
  unfoldable pub token_user : Action Identity
  unfolding current_user
  token_user = do refuse_if (not services.tokens_enabled) tokens_disabled; current_user who

  abbrev pub created : Text × ApiToken → Item × Text
  created (secret, token) = (map_token x.decode token, secret)

  -- The id and the secret come from the random source.
  unfoldable pub create_token_for : Text → Option ℕ → Text → Text → ℕ → Action (Item × Text)
  unfolding token_user map_token
  create_token_for name expires_at id random now = do
    user ← token_user
    refuse_if (not (is_nil who.api_token)) tokens_only_in_ui
    responding created (
        stepping token_error
          (λ s. create_token x.hash x.encode s user name expires_at id random now))

  unfoldable pub list_own_tokens : Action (List Item)
  unfolding token_user map_token
  list_own_tokens = do
    user ← token_user
    responding (map (map_token x.decode)) (reading (λ s. list_tokens s user.subject))

  unfoldable pub delete_token_for : Text → Action (Unit {0})
  unfolding token_user
  delete_token_for id = do
    user ← token_user
    responding (λ t. tt) (stepping revoke_error (λ s. revoke s user id))

  unfoldable pub list_all_tokens : Action (List Item)
  unfolding token_user map_token
  list_all_tokens = do
    user ← token_user
    refuse_if (not (is_admin user.claims)) not_admin
    responding (map (map_token x.decode)) (reading (λ s. list_tokens s []))
