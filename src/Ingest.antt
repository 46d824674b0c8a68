-- ===== src/Ingest.antt =====
-- crates/ingest/src/lib.rs: the parser of line protocol.
pub mod Scan
pub mod Value
pub mod Parse
pub mod Rows
pub mod Left
pub mod Ends
pub mod Print
pub mod Printed
mod Tests
