-- ===== src/Wal.antt =====
-- crates/wal/src/lib.rs: the write-ahead log and its generations, plain and encrypted.
pub mod Bytes
pub mod Frame
pub mod Fields
pub mod Local
pub mod Replay
pub mod Torn
pub mod Log
pub mod Sealed
pub mod Encrypted
pub mod Ends
pub mod Recovery
mod Tests
