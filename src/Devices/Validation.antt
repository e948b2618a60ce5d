-- ===== src/Devices/Validation.antt =====
-- The checks of internal/devices/devices.go on what a user sends.
use wg_access_server.Prelude.{
  ℕ, zero, suc, Bool, false, not, ◌&&◌, ◌||◌, [], ◌∷◌, ◌==◌, nat_eq, ltb, leb, Result, ok, ◌>>◌,
  reject_if, length, any, elem,
}
use wg_access_server.Prelude.Text.{Text, codes, is_nil, trim_space, is_control}
use wg_access_server.Devices.{
  DeviceError, invalid, name_empty, name_too_long, name_control, public_key_format,
  preshared_key_format,
}

abbrev pub max_device_name_length : ℕ
max_device_name_length = 100

unfoldable pub validate_device_name : Text → Result DeviceError (Unit {0})
validate_device_name name = do
  reject_if (is_nil (trim_space name)) (invalid name_empty)
  reject_if (ltb max_device_name_length (length name)) (invalid name_too_long)
  reject_if (any is_control name) (invalid name_control)
  ok tt

-- `[A-Za-z0-9+/]`
unfoldable pub is_base64 : ℕ → Bool
is_base64 c =
    leb b'A' c && leb c b'Z'
    || leb b'a' c && leb c b'z'
    || leb b'0' c && leb c b'9'
    || c == b'+'
    || c == b'/'

-- `[AEIMQUYcgkosw048]`
unfoldable pub is_last_base64 : ℕ → Bool
is_last_base64 c = elem c (codes "AEIMQUYcgkosw048")

abbrev ends_key : Text → Bool
ends_key (c ∷ d ∷ []) = is_last_base64 c && d == b'='
ends_key _ = false

-- `n` characters of base64, one of the last ones, and "=".
unfoldable pub matches_key : ℕ → Text → Bool
unfolding is_base64 is_last_base64
matches_key zero t = ends_key t
matches_key (suc n) [] = false
matches_key (suc n) (c ∷ t) = is_base64 c && matches_key n t

-- `wgKeyRegex`
unfoldable pub is_wg_key : Text → Bool
unfolding matches_key
is_wg_key t = matches_key 42 t

-- The pre-shared key is optional.
unfoldable pub validate_keys : Text → Text → Result DeviceError (Unit {0})
unfolding is_wg_key
validate_keys public_key preshared_key = do
  reject_if (not (is_wg_key public_key)) (invalid public_key_format)
  reject_if (not (is_nil preshared_key) && not (is_wg_key preshared_key))
      (invalid preshared_key_format)
  ok tt
