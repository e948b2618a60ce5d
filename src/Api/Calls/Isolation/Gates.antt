-- ===== src/Api/Calls/Isolation/Gates.antt =====
-- Who asks is checked first, and then the user is whoever asks.
use wg_access_server.Prelude.{Bool, false, ◌≡◌, some, list_eq, nat_eq, arith}
use wg_access_server.Prelude.Text.{Text}
use wg_access_server.Authnz.{Identity, is_admin}
use wg_access_server.Api.{
  ApiError, Caller, External, Services, Action, ◌>>◌, refuse_if, current_user,
}
use wg_access_server.Api.Tokens.{token_user}
use wg_access_server.Api.Account.{two_factor_for}
use wg_access_server.Api.Spares.Actions.{IsKind, refuse_if-IsKind, >>=-IsKind, IsGate}

pub refusing-IsKind :
    (subject : Text) {A : Type 0} (b : Bool) (e : ApiError) (rest : Action A)
    → IsKind subject rest
    → IsKind subject (refuse_if b e >> rest)
refusing-IsKind subject b e rest kind =
    >>=-IsKind subject (refuse_if b e) (λ u. rest) (refuse_if-IsKind subject b e) (λ u. kind)

module _ (services : Services) (x : External) (who : Caller) (user : Identity)
    (known : who.identity ≡ some user) (plain : is_admin user.claims ≡ false) where
  pub current_user-IsGate : IsGate user (current_user who)
  unfolding current_user
  current_user-IsGate p = (ground arith, λ u h. ground arith)

  pub token_user-IsGate : IsGate user (token_user services x who)
  unfolding token_user
  token_user-IsGate p = (ground arith, λ u h. ground arith)

  pub two_factor_for-IsGate : IsGate user (two_factor_for services x who)
  unfolding two_factor_for
  two_factor_for-IsGate p = (ground arith, λ u h. ground arith)
