-- ===== src/Runtime/Read.antt =====
-- A recorded event, read back: `event_record` and `typed` of src/runtime.rs.
use typemach.Base.{Bool, false, none, some, ◌≡◌, refl, sym}
use mathlib.Core.Path.{subst}
use typemach.Base.Int.{ℤ}
use typemach.Base.Eq.{string_eq, beq_refl}
use typemach.Run.{RunId, SessionId}
use typemach.Run.Request.{RunStreamEvent}
use typemach.Run.Request
use typemach.Error.{ok, Serde, written, failed}
use typemach.Event.{RunEventEnvelope}
use typemach.Store
use typemach.Store.{is_terminal}
use typemach.Runtime.Payload.{
  Wire, ReplayPayload, payload_is_terminal, typed, typed_event, start, beat, fail, cancel, started,
  heartbeat, step_started, step_finished, signalled, completed, interrupted, failed_with,
  was_cancelled,
}
use typemach.Runtime.Record.{
  EventRecord, append, finish, payload_of, write, event_record, error_code,
}

-- The record ends its run.
abbrev pub closes : {V : Type 0} → EventRecord V → Bool
closes (append payload) = false
closes (finish payload status reason code) = is_terminal status

module _ {V : Type 0} where
  -- What a record makes of a value that serde has written.
  pub write-ok :
      (x : Serde V) (make : V → EventRecord V) (r : EventRecord V)
      → write x make ≡ ok r
      → (v : V) × (x ≡ written v) × (r ≡ make v)
  write-ok (written v) make r h = (v, refl, cc)
  write-ok (failed e) make r h = cc

module _ {Step Signal Output Interrupt V : Type 0} (W : Wire Step Signal Output Interrupt V) where
  -- What serde has written it reads back.
  pub record Faithful : Type 0 where
    pub step_back : (s : Step) (v : V) → W.step_value s ≡ written v → W.step_from v ≡ written s
    pub signal_back :
        (s : Signal) (v : V) → W.signal_value s ≡ written v → W.signal_from v ≡ written s
    pub output_back :
        (o : Output) (v : V) → W.output_value o ≡ written v → W.output_from v ≡ written o
    pub interrupt_back :
        (i : Interrupt) (v : V) → W.interrupt_value i ≡ written v → W.interrupt_from v ≡ written i

  -- What a reader of the log should be told of an event.
  abbrev pub replay_of :
      RunId
      → RunStreamEvent Step Signal Output Interrupt V
      → ReplayPayload Step Signal Output Interrupt
  replay_of run_id (Request.started _ _ thread_id) = started thread_id
  replay_of run_id (Request.heartbeat _ _ thread_id) = heartbeat thread_id
  replay_of run_id (Request.step_started step n) = step_started step n
  replay_of run_id (Request.step_finished step result) = step_finished step result
  replay_of run_id (Request.signal value) = signalled value
  replay_of run_id (Request.completed _ output _) = completed output run_id
  replay_of run_id (Request.interrupted found _) = interrupted found run_id
  replay_of run_id (Request.failed error) = failed_with (W.display error)
  replay_of run_id Request.cancelled = was_cancelled

  abbrev pub logged : {A : Type 0} → RunId → SessionId → ℤ → A → RunEventEnvelope A
  logged run_id session_id seq payload = record {
    run_id = run_id;
    session_id = session_id;
    seq = seq;
    payload = payload;
  }

  -- Read back as it should be, and ending its run if and only if its payload is terminal.
  abbrev pub ReadsBack :
      RunId → SessionId → ℤ → RunStreamEvent Step Signal Output Interrupt V → EventRecord V → Type 0
  ReadsBack run_id session_id seq event r =
      (typed_event W (logged run_id session_id seq (payload_of r))
        ≡ ok (logged run_id session_id seq (replay_of run_id event)))
      × (closes r ≡ payload_is_terminal (payload_of r))

  -- What is recorded of an event is read back as that event, less its snapshot and trace, with the run
  -- as its checkpoint, if serde reads back what it has written; and the record ends the run, with a
  -- terminal status, exactly when its payload is terminal.
  pub event_record-typed :
      (run_id : RunId) (session_id : SessionId) (seq : ℤ)
      (event : RunStreamEvent Step Signal Output Interrupt V) (r : EventRecord V)
      → Faithful
      → event_record W run_id event ≡ ok r
      → ReadsBack run_id session_id seq event r
  unfolding event_record typed_event typed
  event_record-typed run_id session_id seq (Request.started id session thread_id) r f h =
      let same : append (start thread_id) ≡ r = cc in
      subst (ReadsBack run_id session_id seq (Request.started id session thread_id)) same
        (refl, refl)
  event_record-typed run_id session_id seq (Request.heartbeat id session thread_id) r f h =
      let same : append (beat thread_id) ≡ r = cc in
      subst (ReadsBack run_id session_id seq (Request.heartbeat id session thread_id)) same
        (refl, refl)
  event_record-typed run_id session_id seq (Request.step_started step n) r f h =
      let (v, wrote, same) = write-ok (W.step_value step) _ r h in
      subst (ReadsBack run_id session_id seq (Request.step_started step n)) (sym same)
        (rw (f.step_back step v wrote, typed_event, typed) refl, refl)
  event_record-typed run_id session_id seq (Request.step_finished step result) r f h =
      let (v, wrote, same) = write-ok (W.step_value step) _ r h in
      subst (ReadsBack run_id session_id seq (Request.step_finished step result)) (sym same)
        (rw (f.step_back step v wrote, typed_event, typed) refl, refl)
  event_record-typed run_id session_id seq (Request.signal value) r f h =
      let (v, wrote, same) = write-ok (W.signal_value value) _ r h in
      subst (ReadsBack run_id session_id seq (Request.signal value)) (sym same)
        (rw (f.signal_back value v wrote, typed_event, typed) refl, refl)
  event_record-typed run_id session_id seq (Request.completed trace output snapshot) r f h =
      let (v, wrote, same) = write-ok (W.output_value output) _ r h in
      subst (ReadsBack run_id session_id seq (Request.completed trace output snapshot)) (sym same)
        (rw (beq_refl run_id, f.output_back output v wrote, typed_event, typed) refl, refl)
  event_record-typed run_id session_id seq (Request.interrupted found snapshot) r f h =
      let (v, wrote, same) = write-ok (W.interrupt_value found) _ r h in
      subst (ReadsBack run_id session_id seq (Request.interrupted found snapshot)) (sym same)
        (rw (beq_refl run_id, f.interrupt_back found v wrote, typed_event, typed) refl, refl)
  event_record-typed run_id session_id seq (Request.failed error) r f h =
      let same : finish (fail (W.display error)) Store.error "failed" (some (error_code error))
          ≡ r =
        cc in
      subst (ReadsBack run_id session_id seq (Request.failed error)) same (refl, refl)
  event_record-typed run_id session_id seq Request.cancelled r f h =
      let same : finish cancel Store.cancelled "cancelled" none ≡ r = cc in
      subst (ReadsBack run_id session_id seq Request.cancelled) same (refl, refl)
