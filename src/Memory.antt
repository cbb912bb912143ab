-- ===== src/Memory.antt =====
-- The in-memory store, src/store/memory.rs and the files below it. Each call holds the store's
-- mutex from its first access to its return, so a call is one function on the state.
pub mod State
pub mod Validate
pub mod Ops
pub mod Leases
pub mod Start
pub mod Finish
pub mod Commit
pub mod Effects
pub mod Queries
pub mod Store
pub mod Sessions
pub mod Named
pub mod Grows
pub mod Ready
pub mod Frame
pub mod Checked
pub mod Cases
pub mod Calls
pub mod Atomic
pub mod Pages
pub mod Keyed
pub mod SameKey
pub mod Renewal
pub mod Durable
pub mod Spared
pub mod Writes
pub mod Fits
pub mod Applied
pub mod Once
pub mod Ended
pub mod Reaper
pub mod Again
pub mod Fenced
pub mod Valid
pub mod Tests
