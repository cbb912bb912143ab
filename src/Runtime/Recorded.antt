-- ===== src/Runtime/Recorded.antt =====
-- How a bridge records one event, src/runtime.rs.
use typemach.Base.{String, Option, Bool, true, false, ◌≡◌, refl}
use typemach.Error.{run_not_found, Result, ok, err, MachineError}
use typemach.Params.{Params}
use typemach.Store.{FinishRunResult, RunStatus}
use typemach.Store.Interface.{RunStore}
use typemach.Registry.{Channels}
use typemach.Lifecycle.Events.{AppendEventResult, recorded, skipped}
use typemach.Lifecycle.State.{RunLifecycle}
use typemach.Lifecycle.Payload.{append_event, finish_run}
use typemach.Runtime.Payload.{Wire, Payload, payload_event}
use typemach.Runtime.Record.{EventRecord, append, finish, event_record}
use typemach.Runtime.Bridge.{
  RuntimeParams, RuntimeEvent, Target, Bridge, StreamEvent, appended, finished_run, finish_of,
  write_record, record_event,
}

module _ {Step Signal Output Interrupt : Type 0} (P : Params)
    (W : Wire Step Signal Output Interrupt P.Value) (S : RunStore (RuntimeParams P))
    (C : Channels (RuntimeEvent P)) where
  -- How the life of a run records an event: a step of the run is appended to its log, and its last event
  -- ends it.
  pub data Records (target : Target P) (event : StreamEvent P W S C) (life : RunLifecycle S C)
      : Result Bool → RunLifecycle S C → Type 0 where
    unwritable :
        (e : MachineError)
        → event_record W target.run_id event ≡ err e
        → Records target event life (err e) life
    appends :
        {after : RunLifecycle S C} (payload : Payload P.Value) (kept : RuntimeEvent P)
        → event_record W target.run_id event ≡ ok (append payload)
        → append_event P
            (payload_event P.Value)
            target.run_id
            target.session_id
            target.scope
            payload
            life
          ≡ (ok (recorded kept), after)
        → Records target event life (ok false) after
    skips :
        {after : RunLifecycle S C} (payload : Payload P.Value)
        → event_record W target.run_id event ≡ ok (append payload)
        → append_event P
            (payload_event P.Value)
            target.run_id
            target.session_id
            target.scope
            payload
            life
          ≡ (ok skipped, after)
        → Records target event life (err run_not_found) after
    append_fails :
        {after : RunLifecycle S C} (payload : Payload P.Value) (e : MachineError)
        → event_record W target.run_id event ≡ ok (append payload)
        → append_event P
            (payload_event P.Value)
            target.run_id
            target.session_id
            target.scope
            payload
            life
          ≡ (err e, after)
        → Records target event life (err e) after
    finishes :
        {after : RunLifecycle S C} (payload : Payload P.Value) (status : RunStatus)
        (reason : String) (code : Option String) (result : FinishRunResult (RuntimeEvent P))
        → event_record W target.run_id event ≡ ok (finish payload status reason code)
        → finish_run P
            (payload_event P.Value)
            (finish_of P W S C target status reason code)
            payload
            life
          ≡ (ok result, after)
        → Records target event life (ok true) after
    finish_fails :
        {after : RunLifecycle S C} (payload : Payload P.Value) (status : RunStatus)
        (reason : String) (code : Option String) (e : MachineError)
        → event_record W target.run_id event ≡ ok (finish payload status reason code)
        → finish_run P
            (payload_event P.Value)
            (finish_of P W S C target status reason code)
            payload
            life
          ≡ (err e, after)
        → Records target event life (err e) after

  append-Records :
      (target : Target P) (event : StreamEvent P W S C) (life after : RunLifecycle S C)
      (payload : Payload P.Value) (answer : Result (AppendEventResult (RuntimeEvent P)))
      → event_record W target.run_id event ≡ ok (append payload)
      → append_event P
          (payload_event P.Value)
          target.run_id
          target.session_id
          target.scope
          payload
          life
        ≡ (answer, after)
      → Records target event life (appended P W S C answer) after
  append-Records target event life after payload (err e) good h = append_fails payload e good h
  append-Records target event life after payload (ok (recorded kept)) good h =
      appends payload kept good h
  append-Records target event life after payload (ok skipped) good h = skips payload good h

  finish-Records :
      (target : Target P) (event : StreamEvent P W S C) (life after : RunLifecycle S C)
      (payload : Payload P.Value) (status : RunStatus) (reason : String) (code : Option String)
      (answer : Result (FinishRunResult (RuntimeEvent P)))
      → event_record W target.run_id event ≡ ok (finish payload status reason code)
      → finish_run P
          (payload_event P.Value)
          (finish_of P W S C target status reason code)
          payload
          life
        ≡ (answer, after)
      → Records target event life (finished_run P W S C answer) after
  finish-Records target event life after payload status reason code (err e) good h =
      finish_fails payload status reason code e good h
  finish-Records target event life after payload status reason code (ok result) good h =
      finishes payload status reason code result good h

  write_record-Records :
      (target : Target P) (event : StreamEvent P W S C) (b : Bridge P W S C)
      (r : Result (EventRecord P.Value))
      → event_record W target.run_id event ≡ r
      → Records target event b.life
          (write_record P W S C target r b).0
          (write_record P W S C target r b).1.life
  unfolding write_record
  write_record-Records target event b (err e) bad = unwritable e bad
  write_record-Records target event b (ok (append payload)) good =
      append-Records target event b.life _ payload _ good refl
  write_record-Records target event b (ok (finish payload status reason code)) good =
      finish-Records target event b.life _ payload status reason code _ good refl

  pub record_event-Records :
      (target : Target P) (event : StreamEvent P W S C) (b : Bridge P W S C)
      → Records target event b.life
          (record_event P W S C target event b).0
          (record_event P W S C target event b).1.life
  unfolding record_event
  record_event-Records target event b =
      write_record-Records target event b (event_record W target.run_id event) refl
