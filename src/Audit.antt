-- ===== src/Audit.antt =====
-- crates/audit/src/lib.rs: the hash-chained trail of administrative changes.
pub mod Record
pub mod Date
pub mod Segments
pub mod Sink
pub mod Log
pub mod Lines
pub mod Chain
pub mod Trail
pub mod Recovery
pub mod Tamper
pub mod Failures
pub mod Settled
pub mod Pruning
pub mod Calendar
mod Tests
