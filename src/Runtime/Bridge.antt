-- ===== src/Runtime/Bridge.antt =====
-- src/runtime.rs: the bridge that records what a runner streams and hands it on.
use typemach.Base.{
  ℕ, zero, suc, String, Option, none, some, Bool, true, false, List, [], ◌∷◌, ◌++◌, if◌then◌else◌,
}
use typemach.Run.{RunId, SessionId}
use typemach.Run.Request.{RunStreamEvent, failed}
use typemach.Error.{Result, ok, err, MachineError, run_not_found}
use typemach.Params.{Params}
use typemach.Store.{RunStatus, RunFinish, FinishRunResult}
use typemach.Store
use typemach.Store.Interface.{RunStore}
use typemach.Registry.{Channels}
use typemach.Lifecycle.State.{RunLifecycle}
use typemach.Lifecycle.Start.{request_cancel}
use typemach.Lifecycle.Events.{AppendEventResult, recorded, skipped}
use typemach.Lifecycle.Payload.{Enveloped, append_event, finish_run}
use typemach.Event.{RunEventEnvelope}
use typemach.Runner.Active.{Active, cancel_run}
use typemach.Runtime.Payload.{Wire, Payload, payload_event, fail, cancel}
use typemach.Runtime.Record.{EventRecord, append, finish, event_record, error_code}

-- The store's parameters, with the runtime's payloads.
abbrev pub RuntimeParams : Params → Params
RuntimeParams P = Enveloped P (payload_event P.Value)

abbrev pub RuntimeEvent : Params → Type 0
RuntimeEvent P = RunEventEnvelope (Payload P.Value)

-- What a bridge is about.
pub record Target (P : Params) : Type 0 where
  pub run_id : RunId
  pub session_id : SessionId
  pub scope : P.Scope

module _ {Step Signal Output Interrupt : Type 0} (P : Params)
    (W : Wire Step Signal Output Interrupt P.Value) (S : RunStore (RuntimeParams P))
    (C : Channels (RuntimeEvent P)) where
  abbrev pub StreamEvent : Type 0
  StreamEvent = RunStreamEvent Step Signal Output Interrupt P.Value

  -- The lifecycle, the runner's table of active runs, what has been sent on `tx`, and for how many
  -- events more the receiver stays.
  pub record Bridge : Type 0 where
    pub life : RunLifecycle S C
    pub runner : Active
    pub sent : List StreamEvent
    pub room : ℕ

  -- What a turn of the loop comes to: an event of the runner, the end of its stream, or the receiver
  -- gone.
  pub data Pull : Type 0 where
    arrives : StreamEvent → Pull
    disconnects : Pull
    closes : Pull

  -- `tx.send(event).await`: whether the receiver was there.
  unfoldable pub send : StreamEvent → Bridge → Bool × Bridge
  send event b = elim b.room [
    | zero ↦ (false, b)
    | suc n ↦ (true, record b { sent = b.sent ++ event ∷ []; room = n })
  ]

  abbrev pub finish_of : Target P → RunStatus → String → Option String → RunFinish (RuntimeParams P)
  finish_of target status reason code = record {
    run_id = target.run_id;
    session_id = target.session_id;
    scope = target.scope;
    status = status;
    finish_reason = reason;
    error_code = code;
    entries = [];
    finish_data = P.default_data;
  }

  -- `life.finish_run(finish, payload)`, whose answer is dropped.
  unfoldable pub end_life :
      RunFinish (RuntimeParams P) → Payload P.Value → RunLifecycle S C → RunLifecycle S C
  end_life asked payload life = (finish_run P (payload_event P.Value) asked payload life).1

  unfoldable pub cancel_and_finish : Target P → String → Bridge → Bridge
  cancel_and_finish target reason b = record b {
    life =
        end_life (finish_of target Store.cancelled reason none) cancel
          (request_cancel target.run_id target.scope b.life).1;
    runner = cancel_run target.run_id b.runner;
  }

  unfoldable pub finish_error : Target P → MachineError → Bridge → Bridge
  finish_error target error b = record b {
    life =
        end_life (finish_of target Store.error "failed" (some (error_code error)))
          (fail (W.display error)) b.life;
  }

  abbrev pub appended : {E : Type 0} → Result (AppendEventResult E) → Result Bool
  appended (err e) = err e
  appended (ok (recorded event)) = ok false
  appended (ok skipped) = err run_not_found

  abbrev pub finished_run : {E : Type 0} → Result (FinishRunResult E) → Result Bool
  finished_run (err e) = err e
  finished_run (ok result) = ok true

  unfoldable pub write_record :
      Target P → Result (EventRecord P.Value) → Bridge → Result Bool × Bridge
  write_record target (err e) b = (err e, b)
  write_record target (ok (append payload)) b =
      let (answer, life) =
        append_event P (payload_event P.Value) target.run_id target.session_id target.scope payload
          b.life in
      (appended answer, record b { life = life })
  write_record target (ok (finish payload status reason code)) b =
      let (answer, life) =
        finish_run P (payload_event P.Value) (finish_of target status reason code) payload b.life in
      (finished_run answer, record b { life = life })

  unfoldable pub record_event : Target P → StreamEvent → Bridge → Result Bool × Bridge
  record_event target event b = write_record target (event_record W target.run_id event) b

  -- An event that could not be recorded: the run is cancelled and ended, and the receiver told.
  unfoldable pub give_up : Target P → MachineError → Bridge → Bridge
  give_up target error b =
      (send (failed error)
        (finish_error target error (record b { runner = cancel_run target.run_id b.runner }))).1

  abbrev pub after_send : Target P → Bool → Bool × Bridge → Bool × Bridge
  after_send target terminal (true, b) = (terminal, b)
  after_send target true (false, b) = (true, b)
  after_send target false (false, b) = (true, cancel_and_finish target "receiver_closed" b)

  unfoldable pub pass_on : Target P → StreamEvent → Result Bool × Bridge → Bool × Bridge
  pass_on target event (err error, b) = (true, give_up target error b)
  pass_on target event (ok terminal, b) = after_send target terminal (send event b)

  -- Whether the bridge is done.
  unfoldable pub forward_event : Target P → StreamEvent → Bridge → Bool × Bridge
  forward_event target event b = pass_on target event (record_event target event b)

  -- The loop, over what it meets.
  unfoldable pub bridge : Target P → List Pull → Bridge → Bridge
  bridge target [] b = b
  bridge target (disconnects ∷ pulls) b = cancel_and_finish target "stream_closed" b
  bridge target (closes ∷ pulls) b = cancel_and_finish target "receiver_closed" b
  bridge target (arrives event ∷ pulls) b =
      let rest = bridge target pulls (forward_event target event b).1 in
      if (forward_event target event b).0 then (forward_event target event b).1 else rest
