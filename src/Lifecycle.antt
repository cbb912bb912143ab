-- ===== src/Lifecycle.antt =====
-- src/lifecycle.rs: what joins the registry of runs to the store.
pub mod State
pub mod Start
pub mod Check
pub mod Events
pub mod Commit
pub mod Payload
pub mod Follow
pub mod Undo
pub mod Refused
pub mod Starts
pub mod Gapless
pub mod Subscribed
pub mod Recorded
pub mod Finished
mod Checks
