-- ===== src/Keys.antt =====
-- crates/store/src/kms_cache.rs: the cache ahead of a key management service.
pub mod Cache
pub mod Calls
pub mod Uses
pub mod Faithful
mod Tests
