-- ===== src/Signin.antt =====
-- Signing in with the password form: the cookie of internal/authnz/authsession/session.go (Cookies),
-- who may sign in and what is remembered of it in cmd/serve/http.go (Login), and the steps of
-- internal/authnz/authconfig/simple.go (Form).
pub mod Cookies
pub mod Login
pub mod Form
