-- ===== src/Storage/Memory/Users.antt =====
-- The users of internal/storage/inmemory.go, and SetWebauthnChallenge of passkeys.go.
use wg_access_server.Prelude.{
  ℕ, Option, none, some, List, [], ◌∷◌, ◌==◌, list_eq, nat_eq, if◌then◌else◌, Result, ok, err,
}
use wg_access_server.Prelude.GoMap.{GoMap, get, put, delete, values}
use wg_access_server.Prelude.Text.{Text, is_nil}
use wg_access_server.Storage.{User, TotpState, Passkey}
use wg_access_server.Storage.Memory.{Memory, Op, StorageError, user_not_found, or_missing}

-- A write of one user's record: no event is emitted.
abbrev pub user_written : Memory → Text → User → Op Unit
user_written s subject user =
    ok (record { after = record s { users = put s.users subject user }; events = []; value = tt })

abbrev keep_password : User → User → User
keep_password stored previous =
    if is_nil stored.password_hash
    then record stored {
      password_hash = previous.password_hash;
      password_from = previous.password_from;
    }
    else stored

abbrev keep_totp : User → User → User
keep_totp stored previous =
    if is_nil stored.totp_secret
    then record stored {
      totp_secret = previous.totp_secret;
      totp_enabled_at = previous.totp_enabled_at;
      totp_recovery = previous.totp_recovery;
    }
    else stored

-- What `SaveUser` writes over what was stored before.
unfoldable pub merged_user : User → Option User → User
merged_user user none = user
merged_user user (some previous) = keep_totp (keep_password user previous) previous

unfoldable pub save_user : Memory → User → Op Unit
unfolding merged_user
save_user s user = user_written s user.subject (merged_user user (get s.users user.subject))

unfoldable pub set_user_totp : Memory → Text → TotpState → Op Unit
set_user_totp s subject state = elim (get s.users subject) [
  | none ↦ err user_not_found
  | some user ↦ user_written s subject (record user {
    totp_secret = state.secret;
    totp_enabled_at = state.enabled_at;
    totp_recovery = state.recovery;
    totp_last_step = state.last_step;
  })
]

unfoldable pub set_user_password : Memory → Text → Text → Text → Op Unit
set_user_password s subject hash from = elim (get s.users subject) [
  | none ↦ err user_not_found
  | some user ↦ user_written s subject (record user { password_hash = hash; password_from = from })
]

unfoldable pub set_webauthn_challenge : Memory → Text → Text → Option ℕ → Op Unit
set_webauthn_challenge s subject challenge until = elim (get s.users subject) [
  | none ↦ err user_not_found
  | some user ↦
      user_written s subject
        (record user { webauthn_challenge = challenge; webauthn_challenge_until = until })
]

unfoldable pub get_user : Memory → Text → Result StorageError User
get_user s subject = or_missing (get s.users subject) user_not_found

unfoldable pub list_users : Memory → List User
list_users s = values s.users

-- The passkeys that are left when one owner's are dropped.
unfoldable pub drop_passkeys : Text → GoMap Text Passkey → GoMap Text Passkey
drop_passkeys owner [] = []
drop_passkeys owner ((id, passkey) ∷ m) =
    let rest = drop_passkeys owner m in
    if passkey.owner == owner then rest else (id, passkey) ∷ rest

unfoldable pub delete_user : Memory → Text → Op Unit
unfolding drop_passkeys
delete_user s subject = ok (record {
  after = record s { users = delete s.users subject; passkeys = drop_passkeys subject s.passkeys };
  events = [];
  value = tt;
})
