-- ===== src/Run/Request.antt =====
-- The requests, outputs and stream events of src/run.rs. `V` is `serde_json::Value`; a
-- `Duration` is a number of milliseconds.
use typemach.Base.{ℕ, Option, none, some, Bool, true, false, List, ltb, if◌then◌else◌}
use typemach.Run.{RunId, SessionId, ThreadId}
use typemach.Run.Limits
use typemach.Run.Limits.{RuntimeLimits}
use typemach.Error.{MachineError}

pub data RunCommand : Type 0 where
  start : RunCommand
  resume : RunCommand

abbrev pub is_resume : RunCommand → Bool
is_resume start = false
is_resume resume = true

pub record RunRequest (I V : Type 0) : Type 0 where
  pub run_id : RunId
  pub session_id : SessionId
  pub thread_id : ThreadId
  pub command : RunCommand
  pub input : I
  pub snapshot : Option V
  pub runtime_limits : RuntimeLimits

module _ {I V : Type 0} where
  -- `RunRequest::start`.
  abbrev pub start_request : RunId → SessionId → ThreadId → I → ℕ → RunRequest I V
  start_request run_id session_id thread_id input max_steps = record {
    run_id = run_id;
    session_id = session_id;
    thread_id = thread_id;
    command = start;
    input = input;
    snapshot = none;
    runtime_limits = Limits.new max_steps;
  }

  -- `RunRequest::resume`.
  abbrev pub resume_request : RunId → SessionId → ThreadId → I → ℕ → RunRequest I V
  resume_request run_id session_id thread_id input max_steps =
      record (start_request run_id session_id thread_id input max_steps) { command = resume }

  -- `RunRequest::snapshot`.
  abbrev pub with_snapshot : V → RunRequest I V → RunRequest I V
  with_snapshot snapshot request = record request { snapshot = some snapshot }

  -- `RunRequest::limits`.
  abbrev pub with_limits : RuntimeLimits → RunRequest I V → RunRequest I V
  with_limits limits request = record request { runtime_limits = limits }

-- `O` is the machine's output, `I` its interrupt.
pub data RunOutput (O I V : Type 0) : Type 0 where
  completed : List V → O → V → RunOutput O I V
  interrupted : I → V → RunOutput O I V

pub record StreamConfig : Type 0 where
  pub heartbeat_interval : ℕ
  pub channel_capacity : ℕ

abbrev max : ℕ → ℕ → ℕ
max a b = if ltb a b then b else a

abbrev pub channel_capacity_of : StreamConfig → ℕ
channel_capacity_of config = max config.channel_capacity 1

abbrev pub heartbeat_interval_of : StreamConfig → ℕ
heartbeat_interval_of config = max config.heartbeat_interval 1

-- `StreamConfig::default`.
abbrev pub default_stream : StreamConfig
default_stream = record { heartbeat_interval = 15000; channel_capacity = 32 }

pub data StepResult : Type 0 where
  next : StepResult
  interrupt : StepResult
  complete : StepResult

pub data RunStreamEvent (Step Signal Output Interrupt V : Type 0) : Type 0 where
  started : RunId → SessionId → ThreadId → RunStreamEvent Step Signal Output Interrupt V
  heartbeat : RunId → SessionId → ThreadId → RunStreamEvent Step Signal Output Interrupt V
  step_started : Step → ℕ → RunStreamEvent Step Signal Output Interrupt V
  step_finished : Step → StepResult → RunStreamEvent Step Signal Output Interrupt V
  signal : Signal → RunStreamEvent Step Signal Output Interrupt V
  interrupted : Interrupt → V → RunStreamEvent Step Signal Output Interrupt V
  completed : List V → Output → V → RunStreamEvent Step Signal Output Interrupt V
  failed : MachineError → RunStreamEvent Step Signal Output Interrupt V
  cancelled : RunStreamEvent Step Signal Output Interrupt V
