-- ===== src/Memory/Cases.antt =====
-- The paths through each call, one elimination rule for what a call returns together with the state
-- it leaves.
pub mod Sessions
pub mod Commit
pub mod Finish
pub mod Start
pub mod Effects
pub mod Leases
