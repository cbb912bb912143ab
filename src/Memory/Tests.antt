-- ===== src/Memory/Tests.antt =====
-- A concrete store, and what the theorems say of it.
pub mod Sample
mod Histories
mod Leases
mod Effects
mod Reads
mod Sessions
