-- ===== src/Runtime/Start.antt =====
-- src/runtime.rs: how a `Runtime` starts a run, what `invoke` reads of its stream, and `cancel`.
use typemach.Base.{String, Option, none, some, Bool, List, [], ◌∷◌, ◌++◌, is_some}
use typemach.Run.{RunId}
use typemach.Run.Request.{RunRequest, RunStreamEvent, RunOutput}
use typemach.Run.Request
use typemach.Error.{
  Result, ok, err, Serde, map_serialization, cancelled as cancelled_error, stream_closed,
}
use typemach.Op.{EntryWrite}
use typemach.Params.{Params}
use typemach.Store.{RunLookup, RunStart}
use typemach.Store.Interface.{RunStore}
use typemach.Registry.{Channels, RunHandle, new_handle}
use typemach.Lifecycle.State.{RunLifecycle, Call, ◌>>=◌, pure, checks, on_registry}
use typemach.Lifecycle.Start.{
  StartRunRejection, StartRunResult, started as started_run, found_existing, not_registered,
  start_run, request_cancel,
}
use typemach.Runner.Active.{Active, cancel_run}

pub record Start (P : Params) : Type 0 where
  pub scope : P.Scope
  pub kind : String
  pub model : Option String
  pub key : Option String
  pub parent : Option RunId
  pub retry_of : Option RunId
  pub meta : P.Value
  pub entries : List (EntryWrite P.Value)
  pub token : Option String

module _ {P : Params} where
  -- `Start::new`, given the empty object of `serde_json`, and the setters.
  abbrev pub new : P.Value → P.Scope → String → Start P
  new empty_object scope kind = record {
    scope = scope;
    kind = kind;
    model = none;
    key = none;
    parent = none;
    retry_of = none;
    meta = empty_object;
    entries = [];
    token = none;
  }

  abbrev pub with_key : String → Start P → Start P
  with_key key start = record start { key = some key }

  abbrev pub with_model : String → Start P → Start P
  with_model model start = record start { model = some model }

  abbrev pub with_parent : RunId → Start P → Start P
  with_parent run_id start = record start { parent = some run_id }

  abbrev pub with_retry_of : RunId → Start P → Start P
  with_retry_of run_id start = record start { retry_of = some run_id }

  abbrev pub with_meta : P.Value → Start P → Start P
  with_meta meta start = record start { meta = meta }

  abbrev pub with_entry : EntryWrite P.Value → Start P → Start P
  with_entry entry start = record start { entries = start.entries ++ entry ∷ [] }

  -- The `RunStart` of `stream`. The value is `to_json(&req.input)?`.
  abbrev pub run_start : {I : Type 0} → RunRequest I P.Value → Start P → P.Value → RunStart P
  run_start req start input = record {
    run_id = req.run_id;
    session_id = req.session_id;
    thread_id = req.thread_id;
    agent_kind = start.kind;
    model = start.model;
    client_run_key = start.key;
    parent_run_id = start.parent;
    retry_of_run_id = start.retry_of;
    scope = start.scope;
    metadata = start.meta;
    input = some input;
    entries = start.entries;
    lease = none;
  }

  abbrev pub token_of : RunId → Start P → String
  token_of run_id start = elim start.token [ none ↦ run_id | some token ↦ token ]

pub data StartResult (T : Type 0) : Type 0 where
  started : T → StartResult T
  existing : RunLookup → StartResult T
  rejected : StartRunRejection → StartResult T

-- `StartResult::map_started`.
unfoldable pub map_started : {T U : Type 0} → (T → U) → StartResult T → StartResult U
map_started f (started value) = started (f value)
map_started f (existing found) = existing found
map_started f (rejected rejection) = rejected rejection

abbrev pub start_result : StartRunResult → StartResult (Unit {0})
start_result started_run = started tt
start_result (found_existing found) = existing found
start_result (not_registered rejection) = rejected rejection

module _ {I : Type 0} {P : Params} {S : RunStore P} {C : Channels P.Event} where
  -- `stream` up to the spawning of the bridge.
  unfoldable pub start_stream :
      RunRequest I P.Value → Serde P.Value → Start P → Call S C (StartResult (Unit {0}))
  start_stream req input start = do
    value ← checks (map_serialization input)
    handle ← on_registry (new_handle (token_of req.run_id start))
    answer ← start_run (run_start req start value) handle none
    pure (start_result answer)

module _ {Step Signal Output Interrupt V : Type 0} where
  -- The loop of `invoke` over the events that it receives.
  unfoldable pub invoke_output :
      List (RunStreamEvent Step Signal Output Interrupt V) → Result (RunOutput Output Interrupt V)
  invoke_output [] = err stream_closed
  invoke_output (Request.completed trace output snapshot ∷ events) =
      ok (Request.RunOutput.completed trace output snapshot)
  invoke_output (Request.interrupted found snapshot ∷ events) =
      ok (Request.RunOutput.interrupted found snapshot)
  invoke_output (Request.failed error ∷ events) = err error
  invoke_output (Request.cancelled ∷ events) = err cancelled_error
  invoke_output (_ ∷ events) = invoke_output events

module _ {P : Params} {S : RunStore P} {C : Channels P.Event} where
  -- `cancel`: an error of the lifecycle leaves the runner alone.
  unfoldable pub cancel_at :
      RunId
      → Active
      → Result (Option RunHandle) × RunLifecycle S C
      → Result Bool × RunLifecycle S C × Active
  cancel_at run_id runner (err e, life) = (err e, life, runner)
  cancel_at run_id runner (ok handle, life) = (ok (is_some handle), life, cancel_run run_id runner)

  unfoldable pub cancel :
      RunId → P.Scope → RunLifecycle S C → Active → Result Bool × RunLifecycle S C × Active
  cancel run_id scope life runner = cancel_at run_id runner (request_cancel run_id scope life)
