-- ===== src/Buffer.antt =====
-- crates/buffer/src/lib.rs: the buffer of rows that are not flushed yet.
pub mod Columns
pub mod Table
pub mod Validated
pub mod Atomic
pub mod Each
pub mod Even
pub mod Rows
pub mod Flush
pub mod Latest
pub mod Order
pub mod Hours
mod Tests
