-- ===== src/Auth.antt =====
-- crates/auth/src: data-plane tokens and the decision on a request, admin logins and sessions.
pub mod Base64
pub mod Header
pub mod Token
pub mod Guard
pub mod Tokens
pub mod Sessions
pub mod Rotation
pub mod Verified
pub mod Admission
pub mod Revocation
pub mod Roundtrip
mod Tests
