-- ===== src/Users.antt =====
-- internal/users: passwords, the second factor, and the limits on guessing.
pub mod Limit
pub mod Passwords
pub mod Totp
pub mod TwoFactor
pub mod Passkeys
