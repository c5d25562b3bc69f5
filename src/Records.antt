-- ===== src/Records.antt =====
-- crates/hawse-core/src/transport/records.rs: records on a yamux stream. `Reader` and `Writer` are
-- the two halves of the file, `Meaning` reads a whole stream one byte at a time, and the other
-- modules prove the two halves against it.
pub mod Reader
pub mod Meaning
pub mod Turns
pub mod Refinement
pub mod Writer
pub mod Wire
pub mod Calls
pub mod Stream
