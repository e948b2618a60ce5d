-- ===== src/Storage.antt =====
-- internal/storage/contracts.go, sessions.go, tokens.go and passkeys.go: the stored data, and what is
-- read off it. A time is the number of nanoseconds since some start, a `*time.Time` an Option.
pub mod Keys
pub mod Entries
pub mod Memory
use wg_access_server.Prelude.{
  ℕ, Bool, true, false, not, ◌&&◌, Option, none, some, List, [], ◌∷◌, ◌++◌, leb, if◌then◌else◌,
}
use wg_access_server.Prelude.Text.{Text, split, trim_space, is_nil}
use Keys.{key_str}

pub record Device : Type 0 where
  pub owner : Text
  pub owner_name : Text
  pub owner_email : Text
  pub owner_provider : Text
  pub name : Text
  pub public_key : Text
  pub preshared_key : Text
  pub address : Text
  pub created_at : ℕ
  pub disabled : Bool
  pub expires_at : Option ℕ
  pub routes : Text
  pub last_handshake_time : Option ℕ
  pub receive_bytes : ℕ
  pub transmit_bytes : ℕ
  pub endpoint : Text

-- `key`
unfoldable pub device_key : Device → Text
device_key d = key_str d.owner d.name

-- The loop of `splitList`: each part trimmed, the empty ones left out.
unfoldable pub trimmed_parts : List Text → List Text
trimmed_parts [] = []
trimmed_parts (part ∷ parts) =
    let rest = trimmed_parts parts in
    if is_nil (trim_space part) then rest else trim_space part ∷ rest

unfoldable pub split_list : Text → List Text
unfolding trimmed_parts
split_list value = if is_nil (trim_space value) then [] else trimmed_parts (split 44 value)

unfoldable pub route_list : Device → List Text
route_list d = split_list d.routes

unfoldable pub allowed_ips : Device → List Text
allowed_ips d = split_list d.address ++ split_list d.routes

-- `ExpiresAt != nil && !ExpiresAt.After(at)`
abbrev expiry_passed : Option ℕ → ℕ → Bool
expiry_passed none at = false
expiry_passed (some expiry) at = leb expiry at

unfoldable pub expired : Device → ℕ → Bool
expired d at = expiry_passed d.expires_at at

unfoldable pub access_allowed : Device → ℕ → Bool
unfolding expired
access_allowed d at = not d.disabled && not (expired d at)

pub record TotpState : Type 0 where
  pub secret : Text
  pub enabled_at : Option ℕ
  pub recovery : Text
  pub last_step : ℕ

pub record User : Type 0 where
  pub subject : Text
  pub provider : Text
  pub name : Text
  pub email : Text
  pub policies : Text
  pub last_login : ℕ
  pub password_hash : Text
  pub password_from : Text
  pub webauthn_challenge : Text
  pub webauthn_challenge_until : Option ℕ
  pub totp_secret : Text
  pub totp_enabled_at : Option ℕ
  pub totp_recovery : Text
  pub totp_last_step : ℕ

-- `User.TOTP`
unfoldable pub totp : User → TotpState
totp u = record {
  secret = u.totp_secret;
  enabled_at = u.totp_enabled_at;
  recovery = u.totp_recovery;
  last_step = u.totp_last_step;
}

abbrev pub is_some : Option ℕ → Bool
is_some none = false
is_some (some t) = true

unfoldable pub two_factor_enabled : User → Bool
two_factor_enabled u = not (is_nil u.totp_secret) && is_some u.totp_enabled_at

unfoldable pub policy_list : User → List Text
policy_list u = split_list u.policies

pub record Session : Type 0 where
  pub id : Text
  pub owner : Text
  pub hash : Text
  pub identity : Text
  pub user_agent : Text
  pub remote_addr : Text
  pub created_at : ℕ
  pub expires_at : ℕ
  pub last_seen_at : ℕ

-- `Session.Expired`: `!now.Before(ExpiresAt)`
unfoldable pub session_expired : Session → ℕ → Bool
session_expired s now = leb s.expires_at now

pub record ApiToken : Type 0 where
  pub id : Text
  pub owner : Text
  pub name : Text
  pub hash : Text
  pub identity : Text
  pub created_at : ℕ
  pub expires_at : Option ℕ
  pub last_used_at : Option ℕ

-- `APIToken.Expired`
unfoldable pub token_expired : ApiToken → ℕ → Bool
token_expired t now = expiry_passed t.expires_at now

pub record Passkey : Type 0 where
  pub id : Text
  pub owner : Text
  pub name : Text
  pub credential : Text
  pub created_at : ℕ
  pub last_used_at : Option ℕ

pub record MetadataUpdate : Type 0 where
  pub public_key : Text
  pub receive_bytes : ℕ
  pub transmit_bytes : ℕ
  -- the endpoint and the time of the handshake
  pub connection : Option (Text × ℕ)
