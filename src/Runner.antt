-- ===== src/Runner.antt =====
-- src/runner.rs: the loop that steps a machine and saves a checkpoint after each step.
pub mod Resume
pub mod Invoke
pub mod Channel
pub mod Stream
pub mod Rounds
pub mod Limit
pub mod Saved
pub mod Again
pub mod Protocol
pub mod Told
pub mod Driver
pub mod Same
pub mod Equal
pub mod Active
pub mod Race
mod Checks
