-- ===== src/Ingest/Printed.antt =====
-- What `parse_lines` of crates/ingest/src/lib.rs makes of the text that `to_line_protocol` prints.
pub mod Names
pub mod Numbers
pub mod Values
pub mod Fields
pub mod Line
pub mod OneLine
pub mod Whole
mod Tests
