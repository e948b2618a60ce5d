-- ===== src/Users/Totp.antt =====
-- internal/users/totp.go. HMAC-SHA1 and the base32 decoding are parameters, of Go's crypto/hmac,
-- crypto/sha1 and encoding/base32.
pub mod Window
use wg_access_server.Prelude.{
  ℕ, zero, suc, ◌+◌, ◌-◌, ◌*◌, ◌/◌, ◌%◌, ◌^◌, Bool, true, false, not, ◌≡◌, refl, Option, none, some,
  List, [], ◌∷◌, ◌++◌, ◌==◌, list_eq, nat_eq, ltb, if◌then◌else◌,
}
use wg_access_server.Prelude.Text.{byte_length, Text, trim_space, to_upper}

pub record Mac : Type 0 where
  -- the key of a base32 secret; `none` is an error
  pub decode : Text → Option (List ℕ)
  -- the 20 bytes of HMAC-SHA1 of a key and a message
  pub hmac : List ℕ → List ℕ → List ℕ

abbrev pub totp_digits : ℕ
totp_digits = 6

-- `binary.BigEndian.PutUint64`, the lowest `n` bytes.
unfoldable pub big_endian : ℕ → ℕ → List ℕ
big_endian zero x = []
big_endian (suc n) x = big_endian n (x / 256) ++ x % 256 ∷ []

abbrev nth : List ℕ → ℕ → ℕ
nth [] i = 0
nth (b ∷ bytes) zero = b
nth (b ∷ bytes) (suc i) = nth bytes i

abbrev last_byte : List ℕ → ℕ
last_byte [] = 0
last_byte (b ∷ []) = b
last_byte (b ∷ c ∷ bytes) = last_byte (c ∷ bytes)

-- `binary.BigEndian.Uint32(sum[offset:offset+4]) & 0x7fffffff`
unfoldable pub truncated : List ℕ → ℕ
truncated sum =
    let offset = last_byte sum % 16 in
    (((nth sum offset * 256 + nth sum (offset + 1)) * 256 + nth sum (offset + 2)) * 256
      + nth sum (offset + 3))
    % 2 ^ 31

-- `fmt.Sprintf("%0*d", digits, n)` of a number with no more digits.
unfoldable pub padded : ℕ → ℕ → Text
padded zero n = []
padded (suc digits) n = padded digits (n / 10) ++ (48 + n % 10) ∷ []

unfoldable pub code : Mac → List ℕ → ℕ → ℕ → Text
unfolding big_endian truncated padded
code mac key counter digits =
    padded digits (truncated (mac.hmac key (big_endian 8 counter)) % 10 ^ digits)

-- `now.Unix() / 30` for a time in nanoseconds.
abbrev pub step_of : ℕ → ℕ
step_of now = now / 1_000_000_000 / 30

-- The loop over the window: the last step whose code was given, if one was.
unfoldable pub matching : Mac → List ℕ → Text → List ℕ → ℕ × Bool → ℕ × Bool
matching mac key given [] found = found
matching mac key given (counter ∷ counters) found =
    matching mac key given counters
      (if code mac key counter totp_digits == given then (counter, true) else found)

-- The steps from one before to one after, in 64 bits.
abbrev pub window : ℕ → List ℕ
window step = (step + (2 ^ 64 - 1)) % 2 ^ 64 ∷ step % 2 ^ 64 ∷ (step + 1) % 2 ^ 64 ∷ []

abbrev match_key : Mac → Option (List ℕ) → Text → ℕ → ℕ × Bool
match_key mac none given now = (0, false)
match_key mac (some key) given now = matching mac key given (window (step_of now)) (0, false)

-- The step that the code is for, and whether it is right.
unfoldable pub check_totp_step : Mac → Text → Text → ℕ → ℕ × Bool
check_totp_step mac secret given now =
    if byte_length (trim_space given) == totp_digits
    then match_key mac (mac.decode (to_upper (trim_space secret))) (trim_space given) now
    else (0, false)

unfoldable pub check_totp : Mac → Text → Text → ℕ → Bool
check_totp mac secret given now = (check_totp_step mac secret given now).1
