-- ===== src/Compaction.antt =====
-- crates/server/src/compaction.rs: when a partition is compacted, and by which of several compactors.
pub mod Trigger
pub mod Overlap
pub mod Owner
mod Tests
