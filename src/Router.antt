-- ===== src/Router.antt =====
-- crates/server/src/router.rs: the shards of a write and their forwarding to the ingesters.
pub mod Shards
pub mod Write
pub mod Lines
pub mod Dealt
pub mod Rows
pub mod Defaults
pub mod Accepted
pub mod Queries
mod Tests
