-- ===== src/Runtime/Record.antt =====
-- src/runtime.rs: what a runtime records for an event of a stream.
use typemach.Base.{String, Option, none, some}
use typemach.Run.{RunId}
use typemach.Run.Request.{RunStreamEvent}
use typemach.Run.Request
use typemach.Error.{
  Result, ok, ◌>>=◌, Serde, map_serialization, MachineError, checkpoint_db, checkpoint_pool,
  store_db, serialization, deserialization, max_steps_exceeded, capacity_exceeded,
  run_already_active, lease_lost, not_owner, thread_busy, runtime_op_unavailable, effect_conflict,
  effect_pending, effect_not_found, item_conflict, entry_conflict, start_conflict, input_conflict,
  invalid_page_limit, step_timeout, run_timeout, run_not_found, invalid_run_event, cancelled,
  stream_closed, no_checkpoint_state, no_pending_interrupt, no_interrupted_step, invalid_interrupt,
  invalid_step, checkpoint_run, transition,
}
use typemach.Store.{RunStatus}
use typemach.Store
use typemach.Runtime.Payload.{
  Wire, Payload, start, beat, step_start, step_done, signal, done, interrupt, fail, cancel,
}

unfoldable pub error_code : MachineError → String
error_code (checkpoint_db _) = "checkpoint_db"
error_code (checkpoint_pool _) = "checkpoint_pool"
error_code (store_db _) = "store_db"
error_code (serialization _) = "serialization"
error_code (deserialization _) = "deserialization"
error_code (max_steps_exceeded _) = "max_steps_exceeded"
error_code capacity_exceeded = "capacity_exceeded"
error_code run_already_active = "run_already_active"
error_code lease_lost = "lease_lost"
error_code (not_owner _) = "not_owner"
error_code (thread_busy _ _) = "thread_busy"
error_code runtime_op_unavailable = "runtime_op_unavailable"
error_code effect_conflict = "effect_conflict"
error_code effect_pending = "effect_pending"
error_code effect_not_found = "effect_not_found"
error_code item_conflict = "item_conflict"
error_code entry_conflict = "entry_conflict"
error_code start_conflict = "start_conflict"
error_code input_conflict = "input_conflict"
error_code invalid_page_limit = "invalid_page_limit"
error_code step_timeout = "step_timeout"
error_code run_timeout = "run_timeout"
error_code run_not_found = "run_not_found"
error_code (invalid_run_event _) = "invalid_run_event"
error_code cancelled = "cancelled"
error_code stream_closed = "stream_closed"
error_code no_checkpoint_state = "no_checkpoint_state"
error_code no_pending_interrupt = "no_pending_interrupt"
error_code no_interrupted_step = "no_interrupted_step"
error_code (invalid_interrupt _) = "invalid_interrupt"
error_code (invalid_step _) = "invalid_step"
error_code (checkpoint_run _ _) = "checkpoint_run"
error_code (transition _) = "transition"

pub data EventRecord (V : Type 0) : Type 0 where
  append : Payload V → EventRecord V
  finish : Payload V → RunStatus → String → Option String → EventRecord V

abbrev pub payload_of : {V : Type 0} → EventRecord V → Payload V
payload_of (append payload) = payload
payload_of (finish payload status reason code) = payload

-- `to_json(value)?`, in a record.
abbrev pub write : {V : Type 0} → Serde V → (V → EventRecord V) → Result (EventRecord V)
write value make = do v ← map_serialization value; ok (make v)

module _ {Step Signal Output Interrupt V : Type 0} (W : Wire Step Signal Output Interrupt V) where
  unfoldable pub event_record :
      RunId → RunStreamEvent Step Signal Output Interrupt V → Result (EventRecord V)
  event_record run_id (Request.started _ _ thread_id) = ok (append (start thread_id))
  event_record run_id (Request.heartbeat _ _ thread_id) = ok (append (beat thread_id))
  event_record run_id (Request.step_started step n) =
      write (W.step_value step) (λ v. append (step_start v n))
  event_record run_id (Request.step_finished step result) =
      write (W.step_value step) (λ v. append (step_done v result))
  event_record run_id (Request.signal value) = write (W.signal_value value) (λ v. append (signal v))
  event_record run_id (Request.completed _ output _) =
      write (W.output_value output) (λ v. finish (done v run_id) Store.completed "completed" none)
  event_record run_id (Request.interrupted found _) =
      write (W.interrupt_value found)
        (λ v. finish (interrupt v run_id) Store.interrupted "interrupted" none)
  event_record run_id (Request.failed error) =
      ok (finish (fail (W.display error)) Store.error "failed" (some (error_code error)))
  event_record run_id Request.cancelled = ok (finish cancel Store.cancelled "cancelled" none)
