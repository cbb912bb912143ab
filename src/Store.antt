-- ===== src/Store.antt =====
-- The data of src/store.rs: what a store is asked and what it answers.
mod Parse
pub mod Interface
use typemach.Base.{
  ℕ, String, Option, none, some, Bool, true, false, List, [], if◌then◌else◌, ◌≡◌, refl,
}
use typemach.Base.Int.{ℤ}
use typemach.Run.{RunId, SessionId, ThreadId, LeaseId, WorkerId}
use typemach.Op.{EffectUpdate, ItemWrite, EntryWrite, Vis}
use typemach.Checkpoint.{CheckpointRecord}
use typemach.Error.{Result, map_serialization}
use typemach.Params.{Params, StartSig}

pub data RunStatus : Type 0 where
  running : RunStatus
  completed : RunStatus
  interrupted : RunStatus
  cancelled : RunStatus
  error : RunStatus

abbrev pub is_terminal : RunStatus → Bool
is_terminal running = false
is_terminal _ = true

unfoldable pub run_status_as_str : RunStatus → String
run_status_as_str running = "running"
run_status_as_str completed = "completed"
run_status_as_str interrupted = "interrupted"
run_status_as_str cancelled = "cancelled"
run_status_as_str error = "error"

pub record Lease : Type 0 where
  pub run : RunId
  pub owner : WorkerId
  pub id : LeaseId

-- `ttl` in the ticks of the monotonic clock.
pub record LeaseClaim : Type 0 where
  pub owner : WorkerId
  pub id : LeaseId
  pub ttl : ℕ

pub record CheckpointWrite (V : Type 0) : Type 0 where
  pub thread_id : ThreadId
  pub checkpoint : CheckpointRecord V

pub record RunLookup : Type 0 where
  pub run_id : RunId
  pub session_id : SessionId
  pub thread_id : ThreadId
  pub status : RunStatus
  pub finish_reason : Option String
  pub cancel_requested : Bool
  pub owner : Option WorkerId

pub data StoreStartResult : Type 0 where
  created : StoreStartResult
  existing : RunLookup → StoreStartResult

pub data FinishRunResult (E : Type 0) : Type 0 where
  finished : E → FinishRunResult E
  already_finished : E → FinishRunResult E

module _ {E : Type 0} where
  unfoldable pub is_finished : FinishRunResult E → Bool
  is_finished (finished e) = true
  is_finished (already_finished e) = false

  unfoldable pub is_already_finished : FinishRunResult E → Bool
  is_already_finished (finished e) = false
  is_already_finished (already_finished e) = true

  unfoldable pub result_event : FinishRunResult E → E
  result_event (finished e) = e
  result_event (already_finished e) = e

pub data RunCommitResult (E : Type 0) : Type 0 where
  recorded : List E → RunCommitResult E
  finished_with : List E → FinishRunResult E → RunCommitResult E
  skipped : RunCommitResult E

module _ {E : Type 0} where
  unfoldable pub is_skipped : RunCommitResult E → Bool
  is_skipped (recorded es) = false
  is_skipped (finished_with es r) = false
  is_skipped skipped = true

  unfoldable pub commit_events : RunCommitResult E → List E
  commit_events (recorded es) = es
  commit_events (finished_with es r) = es
  commit_events skipped = []

  unfoldable pub finish_result : RunCommitResult E → Option (FinishRunResult E)
  finish_result (recorded es) = none
  finish_result (finished_with es r) = some r
  finish_result skipped = none

pub record RunStart (P : Params) : Type 0 where
  pub run_id : RunId
  pub session_id : SessionId
  pub thread_id : ThreadId
  pub agent_kind : String
  pub model : Option String
  pub client_run_key : Option String
  pub parent_run_id : Option RunId
  pub retry_of_run_id : Option RunId
  pub scope : P.Scope
  pub metadata : P.Value
  pub input : Option P.Value
  pub entries : List (EntryWrite P.Value)
  pub lease : Option LeaseClaim

-- `terminal_event` is the event that ends the run.
pub record RunFinishRecord (P : Params) : Type 0 where
  pub run_id : RunId
  pub session_id : SessionId
  pub scope : P.Scope
  pub status : RunStatus
  pub finish_reason : String
  pub error_code : Option String
  pub terminal_event : P.Event
  pub entries : List (EntryWrite P.Value)
  pub finish_data : P.FinishData

pub record RunFinish (P : Params) : Type 0 where
  pub run_id : RunId
  pub session_id : SessionId
  pub scope : P.Scope
  pub status : RunStatus
  pub finish_reason : String
  pub error_code : Option String
  pub entries : List (EntryWrite P.Value)
  pub finish_data : P.FinishData

pub record RunCommit (P : Params) : Type 0 where
  pub run_id : RunId
  pub session_id : SessionId
  pub scope : P.Scope
  pub lease : Option LeaseId
  pub checkpoint : Option (CheckpointWrite P.Value)
  pub events : List P.Event
  pub effects : List (EffectUpdate P.Value)
  pub items : List (ItemWrite P.Value)
  pub entries : List (EntryWrite P.Value)
  pub finish : Option (RunFinish P)

pub record CommitPlan (P : Params) : Type 0 where
  pub lease : Option LeaseId
  pub checkpoint : Option (CheckpointWrite P.Value)
  pub event_count : ℕ
  pub effects : List (EffectUpdate P.Value)
  pub items : List (ItemWrite P.Value)
  pub entries : List (EntryWrite P.Value)
  pub finish : Option (RunFinish P)

module _ {P : Params} where
  unfoldable pub into_record : RunFinish P → P.Event → RunFinishRecord P
  into_record f event = record {
    run_id = f.run_id;
    session_id = f.session_id;
    scope = f.scope;
    status = f.status;
    finish_reason = f.finish_reason;
    error_code = f.error_code;
    terminal_event = event;
    entries = f.entries;
    finish_data = f.finish_data;
  }

  unfoldable pub start_sig_of : RunStart P → StartSig P.Value
  start_sig_of run = record {
    session_id = run.session_id;
    thread_id = run.thread_id;
    agent_kind = run.agent_kind;
    model = run.model;
    client_run_key = run.client_run_key;
    parent_run_id = run.parent_run_id;
    retry_of_run_id = run.retry_of_run_id;
    metadata = run.metadata;
    input = run.input;
    entries = run.entries;
  }

  -- `start_sig`: the text of the signature. The run's id, scope and lease are no part of it.
  unfoldable pub start_sig : RunStart P → Result String
  unfolding start_sig_of
  start_sig run = map_serialization (P.sig_text (start_sig_of run))
