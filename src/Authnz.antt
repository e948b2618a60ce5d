-- ===== src/Authnz.antt =====
-- internal/authnz/authsession: who somebody is, the claims, and a sign-in that waits for its second
-- factor.
pub mod Throttle
use wg_access_server.Prelude.{
  ℕ, Bool, false, not, ◌&&◌, ◌||◌, Option, none, some, List, [], ◌∷◌, ◌++◌, ◌==◌, list_eq, nat_eq,
  ltb, if◌then◌else◌,
}
use wg_access_server.Prelude.Text.{Text, codes, is_nil}

pub record Claim : Type 0 where
  pub name : Text
  pub value : Text

pub record Identity : Type 0 where
  pub provider : Text
  pub subject : Text
  pub name : Text
  pub email : Text
  pub claims : List Claim

abbrev pub admin_claim : Text
admin_claim = codes "admin"

-- `Add`
unfoldable pub add_claim : List Claim → Text → Text → List Claim
add_claim claims name value = claims ++ record { name = name; value = value } ∷ []

unfoldable pub has_claim : List Claim → Text → Text → Bool
has_claim [] name value = false
has_claim (c ∷ claims) name value =
    c.name == name && c.value == value || has_claim claims name value

-- `Values`
unfoldable pub claim_values : List Claim → Text → List Text
claim_values [] name = []
claim_values (c ∷ claims) name =
    let rest = claim_values claims name in if c.name == name then c.value ∷ rest else rest

unfoldable pub is_admin : List Claim → Bool
is_admin claims = has_claim claims admin_claim (codes "true")

unfoldable pub make_admin : List Claim → List Claim
make_admin claims = add_claim claims admin_claim (codes "true")

pub record PendingLogin : Type 0 where
  pub subject : Text
  pub provider : Text
  pub until : ℕ

-- `PendingLogin.Valid`
unfoldable pub pending_valid : Option PendingLogin → ℕ → Bool
pending_valid none now = false
pending_valid (some p) now = not (is_nil p.subject) && ltb now p.until
