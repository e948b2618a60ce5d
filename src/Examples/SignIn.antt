-- ===== src/Examples/SignIn.antt =====
-- Runs of the second factor and of the limits on guesses.
use wg_access_server.Prelude.{
  ℕ, ◌≤◌, ◌<◌, ◌+◌, true, false, ◌≡◌, refl, none, some, List, [], ◌∷◌, ◌++◌, elem, list_eq,
  list_beq, nat_eq, arith, length,
}
use wg_access_server.Prelude.GoMap.{get, put}
use wg_access_server.Prelude.Text.{
  byte_length, Text, codes, trim_space, trim_left, trim_right, is_space, to_upper, join, split,
}
use wg_access_server.Prelude.Text.Lists.{IsEntry}
use wg_access_server.Storage.{User, two_factor_enabled, totp, trimmed_parts}
use wg_access_server.Storage.Memory.{Memory, new_memory}
use wg_access_server.Storage.Memory.Users.{get_user, set_user_totp}
use wg_access_server.Users.Totp.{
  Mac, code, step_of, totp_digits, check_totp_step, matching, padded, truncated, big_endian,
}
use wg_access_server.Users.Totp.Window.{check_totp_step_sound, check_totp_step_complete}
use wg_access_server.Users.TwoFactor.{
  check, use_recovery_code, split_codes, use_hash, hash_recovery_code, normalize_recovery_code,
  without_dashes,
}
use wg_access_server.Users.TwoFactor.Replay.{check_twice, signed_in, check-signed_in}
use wg_access_server.Users.TwoFactor.Recovery.{use_recovery_code-once}

abbrev ann : Text
ann = codes "ann"

abbrev attempts : List (Text × ℕ)
attempts = (ann, 100) ∷ (codes "bob", 101) ∷ (ann, 102) ∷ (ann, 110) ∷ []

-- A code is the counter itself.
abbrev low : List ℕ → List ℕ
low (a ∷ b ∷ c ∷ d ∷ bytes) = bytes ++ 0 ∷ []
low _ = []

abbrev pub mac : Mac
mac = record { decode = λ t. some t; hmac = λ key message. low message }

abbrev pub user : User
user = record {
  subject = ann;
  provider = [];
  name = [];
  email = [];
  policies = [];
  last_login = 0;
  password_hash = [];
  password_from = [];
  webauthn_challenge = [];
  webauthn_challenge_until = none;
  totp_secret = codes "KEY";
  totp_enabled_at = some 1;
  totp_recovery = [];
  totp_last_step = 0;
}

-- Two minutes, the fourth step.
abbrev pub now : ℕ
now = 120_000_000_000

abbrev pub given : Text
given = codes " 000004"

right_code : check_totp_step mac (codes "KEY") given now ≡ (4, true)
unfolding check_totp_step matching byte_length code padded truncated big_endian trim_space trim_left
    trim_right is_space to_upper list_beq
right_code = refl

check_totp_step_sound_example :
    (key : List ℕ) × (mac.decode (to_upper (trim_space (codes "KEY"))) ≡ some key)
    × (code mac key 4 totp_digits ≡ trim_space given)
    × (step_of now ≤ 4 + 1)
    × (4 ≤ step_of now + 1)
check_totp_step_sound_example =
    check_totp_step_sound mac (codes "KEY") given now 4 (omega arith) (omega arith) right_code

code_of_key : code mac (codes "KEY") 4 totp_digits ≡ trim_space given
unfolding code padded truncated big_endian trim_space trim_left trim_right is_space
code_of_key = refl

decoded : mac.decode (to_upper (trim_space (codes "KEY"))) ≡ some (codes "KEY")
unfolding trim_space trim_left trim_right is_space to_upper
decoded = refl

check_totp_step_complete_example : (check_totp_step mac (codes "KEY") given now).1 ≡ true
check_totp_step_complete_example =
    check_totp_step_complete mac (codes "KEY") given now 4 (codes "KEY") (omega arith) (omega arith)
      decoded code_of_key (omega arith) (omega arith)

abbrev pub sha : Text → Text
sha t = codes "h" ++ t

abbrev pub store : Memory
store = record new_memory { users = (ann, user) ∷ [] }

stored : get store.users ann ≡ some user
unfolding get list_beq
stored = refl

accepted : (check sha mac store ann given now).1 ≡ true
unfolding check get_user set_user_totp totp two_factor_enabled get put list_beq check_totp_step
    matching byte_length code padded truncated big_endian trim_space trim_left trim_right is_space
    to_upper
accepted = refl

-- Meanwhile Bob has been stored, after Ann.
abbrev meanwhile : Memory
meanwhile =
    let s = (check sha mac store ann given now).0 in
    record s { users = put s.users (codes "bob") (record user { subject = codes "bob" }) }

unchanged : get meanwhile.users ann ≡ get (check sha mac store ann given now).0.users ann
unfolding check get_user set_user_totp totp two_factor_enabled get put list_beq check_totp_step
    matching byte_length code padded truncated big_endian trim_space trim_left trim_right is_space
    to_upper
unchanged = refl

check_twice_example : check sha mac meanwhile ann given now ≡ (meanwhile, false)
check_twice_example =
    check_twice sha mac store meanwhile ann given given now now user 4 4 stored right_code accepted
      unchanged right_code (omega arith)

abbrev login : User
login = record user { totp_secret = []; totp_enabled_at = none; last_login = now }

check-signed_in_example :
    (check sha mac (signed_in (check sha mac store ann given now).0 login) ann given now).1 ≡ true
check-signed_in_example =
    check-signed_in sha mac store ann given now user login 4 stored right_code accepted refl refl
      refl

abbrev hash_a : Text
hash_a = codes "hABC"

abbrev hash_b : Text
hash_b = codes "hDEF"

abbrev hashes : List Text
hashes = hash_a ∷ hash_b ∷ []

hash_a-IsEntry : IsEntry 44 hash_a
unfolding elem trim_left trim_right is_space
hash_a-IsEntry = record { nonempty = λ e. cc; whole = refl; front = refl; back = refl }

hash_b-IsEntry : IsEntry 44 hash_b
unfolding elem trim_left trim_right is_space
hash_b-IsEntry = record { nonempty = λ e. cc; whole = refl; front = refl; back = refl }

abbrev recovery : Text
recovery = join (44 ∷ []) hashes

used : (use_recovery_code sha recovery (codes "a-bc")).1 ≡ true
unfolding use_recovery_code use_hash split_codes trimmed_parts split join trim_space trim_left
    trim_right is_space hash_recovery_code normalize_recovery_code without_dashes to_upper list_beq
used = refl

use_recovery_code-once_example :
    let left = (use_recovery_code sha recovery (codes "a-bc")).0 in
    (use_recovery_code sha left (codes "a-bc") ≡ (left, false))
    × (length (split_codes left) < length hashes)
use_recovery_code-once_example =
    use_recovery_code-once sha hashes (codes "a-bc") (hash_a-IsEntry, (hash_b-IsEntry, tt)) used
