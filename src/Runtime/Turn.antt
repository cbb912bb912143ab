-- ===== src/Runtime/Turn.antt =====
-- What a bridge makes of one event, src/runtime.rs.
use typemach.Base.{
  ℕ, zero, suc, ◌<◌, Bool, true, false, List, [], ◌∷◌, ◌++◌, ◌≡◌, refl, sym, ap, ◌∙◌, inl, inr,
  arith,
}
use typemach.Run.{RunId}
use typemach.Run.Request
use typemach.Run.Request.{RunStreamEvent, failed}
use typemach.Error.{Result, ok, err, MachineError, Result-cases}
use typemach.Params.{Params}
use typemach.Store.{FinishRunResult}
use typemach.Store.Interface.{RunStore}
use typemach.Registry.{Channels}
use typemach.Lifecycle.Events.{AppendEventResult, recorded, skipped}
use typemach.Runtime.Payload.{Wire}
use typemach.Runtime.Read.{write-ok}
use typemach.Runtime.Record.{EventRecord, append, finish, event_record}
use typemach.Runtime.Bridge.{
  RuntimeParams, RuntimeEvent, Target, Bridge, StreamEvent, send, give_up, finish_error,
  cancel_and_finish, appended, finished_run, pass_on, write_record, record_event, forward_event,
}

abbrev ends_run : {V : Type 0} → EventRecord V → Bool
ends_run (append payload) = false
ends_run (finish payload status reason code) = true

module _ {Step Signal Output Interrupt : Type 0} (P : Params)
    (W : Wire Step Signal Output Interrupt P.Value) (S : RunStore (RuntimeParams P))
    (C : Channels (RuntimeEvent P)) where
  abbrev pub Sent : Type 0
  Sent = List (RunStreamEvent Step Signal Output Interrupt P.Value)

  -- The runner has no more to say after it.
  abbrev pub is_last : StreamEvent P W S C → Bool
  is_last (Request.completed _ _ _) = true
  is_last (Request.interrupted _ _) = true
  is_last (failed _) = true
  is_last Request.cancelled = true
  is_last _ = false

  event_record-is_last :
      (run_id : RunId) (event : StreamEvent P W S C) (r : EventRecord P.Value)
      → event_record W run_id event ≡ ok r
      → ends_run r ≡ is_last event
  unfolding event_record
  event_record-is_last run_id (Request.started _ _ _) r h = cc
  event_record-is_last run_id (Request.heartbeat _ _ _) r h = cc
  event_record-is_last run_id (Request.step_started step n) r h =
      let (v, wrote, same) = write-ok (W.step_value step) _ r h in rw same refl
  event_record-is_last run_id (Request.step_finished step result) r h =
      let (v, wrote, same) = write-ok (W.step_value step) _ r h in rw same refl
  event_record-is_last run_id (Request.signal value) r h =
      let (v, wrote, same) = write-ok (W.signal_value value) _ r h in rw same refl
  event_record-is_last run_id (Request.completed _ output _) r h =
      let (v, wrote, same) = write-ok (W.output_value output) _ r h in rw same refl
  event_record-is_last run_id (Request.interrupted found _) r h =
      let (v, wrote, same) = write-ok (W.interrupt_value found) _ r h in rw same refl
  event_record-is_last run_id (failed e) r h = cc
  event_record-is_last run_id Request.cancelled r h = cc

  appended-eq-ok :
      {E : Type 0} (answer : Result (AppendEventResult E)) (t : Bool)
      → appended P W S C answer ≡ ok t
      → t ≡ false
  appended-eq-ok (err e) t h = cc
  appended-eq-ok (ok (recorded event)) t h = cc
  appended-eq-ok (ok skipped) t h = cc

  finished_run-eq-ok :
      {E : Type 0} (answer : Result (FinishRunResult E)) (t : Bool)
      → finished_run P W S C answer ≡ ok t
      → t ≡ true
  finished_run-eq-ok (err e) t h = cc
  finished_run-eq-ok (ok result) t h = cc

  write_record-closes :
      (target : Target P) (r : EventRecord P.Value) (b : Bridge P W S C) (t : Bool)
      → (write_record P W S C target (ok r) b).0 ≡ ok t
      → t ≡ ends_run r
  unfolding write_record
  write_record-closes target (append payload) b t h = appended-eq-ok _ t h
  write_record-closes target (finish payload status reason code) b t h = finished_run-eq-ok _ t h

  -- A record ends the run if and only if the event is the last one.
  pub record_event-is_last :
      (target : Target P) (event : StreamEvent P W S C) (b : Bridge P W S C) (t : Bool)
      → (record_event P W S C target event b).0 ≡ ok t
      → is_last event ≡ t
  unfolding record_event write_record
  record_event-is_last target event b t h =
      elim (Result-cases (event_record W target.run_id event)) [
        | inl (e, bad) ↦ absurd (cc (rw (bad, record_event, write_record) at h))
        | inr (r, good) ↦
            sym (event_record-is_last target.run_id event r good)
            ∙ sym (write_record-closes target r b t (rw (good, record_event) at h))
      ]

  -- Recording changes neither what has been sent nor the receiver nor the runner.
  record Keeps (b q : Bridge P W S C) : Type 0 where
    sent : q.sent ≡ b.sent
    room : q.room ≡ b.room
    runner : q.runner ≡ b.runner

  write_record-Keeps :
      (target : Target P) (r : Result (EventRecord P.Value)) (b : Bridge P W S C)
      → Keeps b (write_record P W S C target r b).1
  unfolding write_record
  write_record-Keeps target (err e) b = record { sent = refl; room = refl; runner = refl }
  write_record-Keeps target (ok (append payload)) b = record {
    sent = refl;
    room = refl;
    runner = refl;
  }
  write_record-Keeps target (ok (finish payload status reason code)) b = record {
    sent = refl;
    room = refl;
    runner = refl;
  }

  -- What comes of one event.
  pub data Turn (target : Target P) (event : StreamEvent P W S C) (b : Bridge P W S C)
      : Bool × Bridge P W S C → Type 0 where
    leaves :
        {y : Bool × Bridge P W S C}
        → b.room ≡ 0
        → y.0 ≡ true
        → y.1.sent ≡ b.sent
        → Turn target event b y
    fails :
        {y : Bool × Bridge P W S C} (e : MachineError)
        → 0 < b.room
        → (record_event P W S C target event b).0 ≡ err e
        → y.0 ≡ true
        → y.1.sent ≡ b.sent ++ failed e ∷ []
        → Turn target event b y
    ends :
        {y : Bool × Bridge P W S C}
        → 0 < b.room
        → (record_event P W S C target event b).0 ≡ ok true
        → y.0 ≡ true
        → y.1.sent ≡ b.sent ++ event ∷ []
        → Turn target event b y
    goes_on :
        {y : Bool × Bridge P W S C}
        → (record_event P W S C target event b).0 ≡ ok false
        → y.0 ≡ false
        → y.1.sent ≡ b.sent ++ event ∷ []
        → y.1.life ≡ (record_event P W S C target event b).1.life
        → y.1.runner ≡ b.runner
        → b.room ≡ suc y.1.room
        → Turn target event b y

  pass_on-Turn :
      (target : Target P) (event : StreamEvent P W S C) (b : Bridge P W S C) (r : Result Bool)
      (q : Bridge P W S C) (room : ℕ)
      → record_event P W S C target event b ≡ (r, q)
      → Keeps b q
      → q.room ≡ room
      → Turn target event b (pass_on P W S C target event (r, q))
  unfolding pass_on give_up send finish_error cancel_and_finish
  pass_on-Turn target event b (err e) q zero did k none_left =
      leaves (sym k.room ∙ none_left) refl (rw (none_left, pass_on, give_up, send) k.sent)
  pass_on-Turn target event b (err e) q (suc n) did k left =
      fails e (rw (← k.room, left) (omega arith)) (ap (λ x. x.0) did) refl
        (rw (left, pass_on, give_up, send) (ap (λ s. s ++ failed e ∷ []) k.sent))
  pass_on-Turn target event b (ok true) q zero did k none_left =
      leaves (sym k.room ∙ none_left) (rw (none_left, pass_on, send) refl)
        (rw (none_left, pass_on, send) k.sent)
  pass_on-Turn target event b (ok false) q zero did k none_left =
      leaves (sym k.room ∙ none_left) (rw (none_left, pass_on, send) refl)
        (rw (none_left, pass_on, send) k.sent)
  pass_on-Turn target event b (ok true) q (suc n) did k left =
      ends (rw (← k.room, left) (omega arith)) (ap (λ x. x.0) did) (rw (left, pass_on, send) refl)
        (rw (left, pass_on, send) (ap (λ s. s ++ event ∷ []) k.sent))
  pass_on-Turn target event b (ok false) q (suc n) did k left =
      goes_on (ap (λ x. x.0) did) (rw (left, pass_on, send) refl)
        (rw (left, pass_on, send) (ap (λ s. s ++ event ∷ []) k.sent))
        (rw (left, pass_on, send) (ap (λ x. x.1.life) (sym did)))
        (rw (left, pass_on, send) k.runner) (sym k.room ∙ left ∙ rw (left, pass_on, send) refl)

  pub forward_event-Turn :
      (target : Target P) (event : StreamEvent P W S C) (b : Bridge P W S C)
      → Turn target event b (forward_event P W S C target event b)
  unfolding forward_event record_event
  forward_event-Turn target event b =
      let did = record_event P W S C target event b in
      pass_on-Turn target event b did.0 did.1 did.1.room refl
        (write_record-Keeps target (event_record W target.run_id event) b) refl
