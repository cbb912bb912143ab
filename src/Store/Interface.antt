-- ===== src/Store/Interface.antt =====
-- The traits `RunStore` and `RunTx` of src/store.rs, as their callers see them: calls that answer and
-- leave the store, and whoever else uses it, in some state.
use typemach.Base.{ℕ, String, Option, Bool}
use typemach.Base.Int.{ℤ}
use typemach.Run.{RunId, SessionId, LeaseId}
use typemach.Error.{Result}
use typemach.Op.{Effect, Page}
use typemach.Params.{Params}
use typemach.Store.{
  StoreStartResult, RunStart, RunLookup, RunFinishRecord, FinishRunResult, RunCommit,
  RunCommitResult,
}

-- A call may fail, and may have changed the store when it does. `reserve_effect` and `start_effect`
-- take the lease, the key, and what else they are asked.
pub record RunStore (P : Params) : Type 1 where
  pub World : Type 0
  -- `none` says that the call does not return.
  pub ensure_session : Option SessionId → P.Scope → World → Option (Result SessionId × World)
  pub start_run : RunStart P → World → Result StoreStartResult × World
  pub lookup_run : RunId → P.Scope → World → Result (Option RunLookup) × World
  pub finish_run : RunFinishRecord P → World → Result (FinishRunResult P.Event) × World
  pub terminal_event : RunId → P.Scope → World → Result (Option P.Event) × World
  pub find_idempotent_run : P.Scope → SessionId → String → World → Result (Option RunLookup) × World
  pub check_run_start : RunId → RunStart P → World → Result (Unit {0}) × World
  pub mark_cancelled : RunId → P.Scope → World → Result (Unit {0}) × World
  pub record_event : RunId → P.Scope → P.Event → World → Result Bool × World
  pub list_events : RunId → P.Scope → ℤ → ℕ → World → Result (Page P.Event) × World
  pub commit_run : RunCommit P → World → Result (RunCommitResult P.Event) × World
  pub reserve_effect :
      RunId
      → P.Scope
      → Option LeaseId
      → String
      → String
      → P.Value
      → World
      → Result (Effect P.Value) × World
  pub start_effect :
      RunId → P.Scope → Option LeaseId → String → World → Result (Effect P.Value) × World
