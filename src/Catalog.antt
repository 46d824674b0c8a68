-- ===== src/Catalog.antt =====
-- crates/catalog/src/lib.rs: the manifest log, the state that is folded from it, and the commits
-- that compare-and-swap on the next sequence key.
pub mod Entry
pub mod Manifest
pub mod Commit
pub mod Queries
pub mod Fold
mod Tests
