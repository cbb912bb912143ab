-- ===== src/Runtime.antt =====
-- The parts of src/runtime/tx.rs: what a transactional runtime keeps until it commits.
pub mod Start
pub mod Payload
pub mod Record
pub mod Read
pub mod Bridge
pub mod Recorded
pub mod Turn
pub mod Passes
pub mod Pending
pub mod Ops
pub mod Saver
pub mod Keyed
pub mod Tidy
mod Checks
