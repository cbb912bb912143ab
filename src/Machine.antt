-- ===== src/Machine.antt =====
-- src/machine.rs: the trait `Machine`, which a user of the library implements.
use typemach.Base.{String, Option, Bool}
use typemach.Run.{RunId, SessionId, ThreadId}
use typemach.Run.Limits.{RuntimeLimits}
use typemach.Error.{Result, ok, err, Serde, written, failed, map_serialization, deserialization}

pub data Transition (Step Interrupt Output : Type 0) : Type 0 where
  next : Step → Transition Step Interrupt Output
  interrupt : Interrupt → Transition Step Interrupt Output
  complete : Output → Transition Step Interrupt Output

pub data ResumeAction (Step : Type 0) : Type 0 where
  reenter_interrupted_step : ResumeAction Step
  jump_to : Step → ResumeAction Step

-- What a transition may read of its `RunContext`: the public fields, and `is_streaming`.
pub record RunContext (I : Type 0) : Type 0 where
  pub run_id : RunId
  pub session_id : SessionId
  pub thread_id : ThreadId
  pub runtime_limits : RuntimeLimits
  pub input : I
  pub is_streaming : Bool

-- A transition under way: it calls `emit` and goes on with the answer, or it returns its result and
-- what it has made of the state.
pub data Act (State Signal Answer : Type 0) : Type 0 where
  emits : Signal → (Result (Unit {0}) → Act State Signal Answer) → Act State Signal Answer
  returns : Result Answer → State → Act State Signal Answer

-- `V` is `serde_json::Value`. A `Choice` is all that a transition learns from outside in one call:
-- the operations of its context, the network, time, chance. The `_value` and `_from` functions are
-- serde's on the machine's types, and `state_value` is `to_json`'s.
pub record Machine (V : Type 0) : Type 1 where
  pub Step : Type 0
  pub State : Type 0
  pub Input : Type 0
  pub Signal : Type 0
  pub Output : Type 0
  pub Interrupt : Type 0
  pub Choice : Type 0
  pub start_step : Step
  pub resume_action : Interrupt → ResumeAction Step
  pub new_state : Input → Option State → Option V → Result State
  -- The state that the call leaves, if it succeeds.
  pub apply_resume_input : State → Input → Result State
  pub transition :
      Choice → Step → State → RunContext Input → Act State Signal (Transition Step Interrupt Output)
  pub state_value : State → Serde V
  pub state_from : V → Serde State
  pub step_value : Step → Serde V
  pub step_from : V → Serde Step
  pub interrupt_value : Interrupt → Serde V
  pub interrupt_from : V → Serde Interrupt
  -- `json!({"step": …, "result": …})`, of the step as `Debug` prints it.
  pub trace_value : Step → String → V

-- `map_err(MachineError::Deserialization)`.
abbrev pub map_deserialization : {A : Type 0} → Serde A → Result A
map_deserialization (written a) = ok a
map_deserialization (failed e) = err (deserialization e)

module _ {V : Type 0} (M : Machine V) where
  -- `MachineState::to_json`.
  unfoldable pub to_json : M.State → Result V
  to_json state = map_serialization (M.state_value state)

  -- `MachineState::from_json`.
  unfoldable pub from_json : V → Result M.State
  from_json value = map_deserialization (M.state_from value)
