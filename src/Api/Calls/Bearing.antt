-- ===== src/Api/Calls/Bearing.antt =====
-- Requests that carry an API token, through the middleware and into the API.
use wg_access_server.Prelude.{ℕ, false, ◌≡◌, Option, some}
use wg_access_server.Prelude.Text.{Text}
use wg_access_server.Authnz.{Identity}
use wg_access_server.Storage.{ApiToken, token_expired}
use wg_access_server.Storage.Memory.{Memory}
use wg_access_server.Api.{External}

-- The identity that a stored token stands for.
pub record StandsFor (x : External) (middleware : Identity → Option Identity) (now : ℕ)
    (token : ApiToken) (user : Identity) : Type 0 where
  pub owner : Identity
  pub unexpired : token_expired token now ≡ false
  pub decoded : x.decode token.identity ≡ some owner
  pub allowed : middleware owner ≡ some user
