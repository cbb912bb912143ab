-- ===== src/Run.antt =====
-- The identifiers of src/run.rs. Each is a newtype over `String`, compared and hashed by its text.
pub mod Limits
pub mod Request
use typemach.Base.{String}

abbrev pub RunId : Type 0
RunId = String

abbrev pub SessionId : Type 0
SessionId = String

abbrev pub ThreadId : Type 0
ThreadId = String

abbrev pub LeaseId : Type 0
LeaseId = String

abbrev pub WorkerId : Type 0
WorkerId = String
