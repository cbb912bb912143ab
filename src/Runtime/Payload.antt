-- ===== src/Runtime/Payload.antt =====
-- src/runtime.rs: the payloads that a runtime records, and what they are read back as.
use typemach.Base.{ℕ, String, Option, none, some, Bool, true, false, not}
use typemach.Base.Eq.{◌=?◌, string_eq}
use typemach.Run.{RunId, ThreadId}
use typemach.Run.Request.{StepResult}
use typemach.Error.{Result, ok, ◌>>=◌, ◌>>◌, fail_if, Serde, MachineError, checkpoint_run}
use typemach.Event.{RunEventPayload, RunEventEnvelope}
use typemach.Machine.{map_deserialization}

-- serde on the types of a machine, and the text that an error displays.
pub record Wire (Step Signal Output Interrupt V : Type 0) : Type 0 where
  pub step_value : Step → Serde V
  pub step_from : V → Serde Step
  pub signal_value : Signal → Serde V
  pub signal_from : V → Serde Signal
  pub output_value : Output → Serde V
  pub output_from : V → Serde Output
  pub interrupt_value : Interrupt → Serde V
  pub interrupt_from : V → Serde Interrupt
  pub display : MachineError → String

pub data Payload (V : Type 0) : Type 0 where
  start : ThreadId → Payload V
  beat : ThreadId → Payload V
  step_start : V → ℕ → Payload V
  step_done : V → StepResult → Payload V
  signal : V → Payload V
  done : V → RunId → Payload V
  interrupt : V → RunId → Payload V
  fail : String → Payload V
  cancel : Payload V

pub data ReplayPayload (Step Signal Output Interrupt : Type 0) : Type 0 where
  started : ThreadId → ReplayPayload Step Signal Output Interrupt
  heartbeat : ThreadId → ReplayPayload Step Signal Output Interrupt
  step_started : Step → ℕ → ReplayPayload Step Signal Output Interrupt
  step_finished : Step → StepResult → ReplayPayload Step Signal Output Interrupt
  signalled : Signal → ReplayPayload Step Signal Output Interrupt
  completed : Output → RunId → ReplayPayload Step Signal Output Interrupt
  interrupted : Interrupt → RunId → ReplayPayload Step Signal Output Interrupt
  failed_with : String → ReplayPayload Step Signal Output Interrupt
  was_cancelled : ReplayPayload Step Signal Output Interrupt

abbrev pub payload_is_terminal : {V : Type 0} → Payload V → Bool
payload_is_terminal (start thread_id) = false
payload_is_terminal (beat thread_id) = false
payload_is_terminal (step_start step n) = false
payload_is_terminal (step_done step result) = false
payload_is_terminal (signal value) = false
payload_is_terminal (done output checkpoint) = true
payload_is_terminal (interrupt value checkpoint) = true
payload_is_terminal (fail error) = true
payload_is_terminal cancel = true

-- `impl RunEventPayload for Payload`.
abbrev pub payload_event : (V : Type 0) → RunEventPayload (Payload V)
payload_event V = record { is_terminal = payload_is_terminal }

module _ {Step Signal Output Interrupt : Type 0} where
  abbrev pub replay_is_terminal : ReplayPayload Step Signal Output Interrupt → Bool
  replay_is_terminal (started thread_id) = false
  replay_is_terminal (heartbeat thread_id) = false
  replay_is_terminal (step_started step n) = false
  replay_is_terminal (step_finished step result) = false
  replay_is_terminal (signalled value) = false
  replay_is_terminal (completed output checkpoint) = true
  replay_is_terminal (interrupted found checkpoint) = true
  replay_is_terminal (failed_with error) = true
  replay_is_terminal was_cancelled = true

-- `Payload::checkpoint`.
abbrev pub checkpoint_of : {V : Type 0} → Payload V → Option RunId
checkpoint_of (done output checkpoint) = some checkpoint
checkpoint_of (interrupt value checkpoint) = some checkpoint
checkpoint_of _ = none

module _ {Step Signal Output Interrupt V : Type 0} (W : Wire Step Signal Output Interrupt V) where
  abbrev pub Replay : Type 0
  Replay = ReplayPayload Step Signal Output Interrupt

  -- `from_json(value)?`, in a payload.
  abbrev pub read : {A : Type 0} → Serde A → (A → Replay) → Result Replay
  read value make = do a ← map_deserialization value; ok (make a)

  -- `Payload::typed`.
  unfoldable pub typed : Payload V → Result Replay
  typed (start thread_id) = ok (started thread_id)
  typed (beat thread_id) = ok (heartbeat thread_id)
  typed (step_start step n) = read (W.step_from step) (λ s. step_started s n)
  typed (step_done step result) = read (W.step_from step) (λ s. step_finished s result)
  typed (signal value) = read (W.signal_from value) signalled
  typed (done output checkpoint) = read (W.output_from output) (λ o. completed o checkpoint)
  typed (interrupt value checkpoint) = read (W.interrupt_from value) (λ i. interrupted i checkpoint)
  typed (fail error) = ok (failed_with error)
  typed cancel = ok was_cancelled

  abbrev pub check_checkpoint : RunId → Option RunId → Result (Unit {0})
  check_checkpoint run_id none = ok tt
  check_checkpoint run_id (some checkpoint) =
      fail_if (not (checkpoint =? run_id)) (checkpoint_run run_id (some checkpoint))

  -- `RunEventEnvelope::typed`.
  unfoldable pub typed_event : RunEventEnvelope (Payload V) → Result (RunEventEnvelope Replay)
  typed_event event = do
    check_checkpoint event.run_id (checkpoint_of event.payload)
    payload ← typed event.payload
    ok (record {
      run_id = event.run_id;
      session_id = event.session_id;
      seq = event.seq;
      payload = payload;
    })
