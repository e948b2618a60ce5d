-- ===== src/Examples.antt =====
-- Concrete runs.
pub mod Addresses
pub mod Stored
pub mod Managed
pub mod Blocking
pub mod Peers
pub mod SignIn
pub mod Secrets
pub mod Packets
pub mod Api
pub mod Forms
pub mod Outside
pub mod Ceremonies
pub mod Bearing
