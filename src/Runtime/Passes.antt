-- ===== src/Runtime/Passes.antt =====
-- What a bridge tells its receiver, src/runtime.rs.
use typemach.Base.{suc, ◌<◌, true, false, List, [], ◌∷◌, ◌++◌, ◌≡◌, refl, sym, ap, ◌∙◌}
use typemach.Run.Request.{failed}
use typemach.Error.{ok, err, MachineError}
use typemach.Params.{Params}
use typemach.Store.Interface.{RunStore}
use typemach.Registry.{Channels}
use typemach.Runtime.Payload.{Wire}
use typemach.Runtime.Bridge.{
  RuntimeParams, RuntimeEvent, Target, Bridge, Pull, StreamEvent, arrives, disconnects, closes,
  cancel_and_finish, forward_event, bridge,
}
use typemach.Lifecycle.State.{RunLifecycle}
use typemach.Runtime.Recorded.{Records, record_event-Records}
use typemach.Runtime.Turn.{
  Sent, is_last, leaves, fails, ends, goes_on, record_event-is_last, forward_event-Turn,
}

module _ {Step Signal Output Interrupt : Type 0} (P : Params)
    (W : Wire Step Signal Output Interrupt P.Value) (S : RunStore (RuntimeParams P))
    (C : Channels (RuntimeEvent P)) where
  -- What a receiver is told by a bridge in a state that meets some events: each is recorded and then
  -- passed on, up to one after which the run is over; an event that cannot be recorded is told as a
  -- failure, the last that is told. Nothing more is told once the runner's stream is cut off or the
  -- receiver is gone.
  pub data Passes (target : Target P)
      : Bridge P W S C → List (Pull P W S C) → Sent P W S C → Type 0 where
    waits : {b : Bridge P W S C} → Passes target b [] []
    cut_off :
        {b : Bridge P W S C} {pulls : List (Pull P W S C)}
        → Passes target b (disconnects ∷ pulls) []
    closed :
        {b : Bridge P W S C} {pulls : List (Pull P W S C)} → Passes target b (closes ∷ pulls) []
    nobody :
        {b : Bridge P W S C} {event : StreamEvent P W S C} {pulls : List (Pull P W S C)}
        → b.room ≡ 0
        → Passes target b (arrives event ∷ pulls) []
    unrecorded :
        {b : Bridge P W S C} {event : StreamEvent P W S C} {pulls : List (Pull P W S C)}
        {after : RunLifecycle S C} (e : MachineError)
        → 0 < b.room
        → Records P W S C target event b.life (err e) after
        → Passes target b (arrives event ∷ pulls) (failed e ∷ [])
    last :
        {b : Bridge P W S C} {event : StreamEvent P W S C} {pulls : List (Pull P W S C)}
        {after : RunLifecycle S C}
        → 0 < b.room
        → Records P W S C target event b.life (ok true) after
        → is_last P W S C event ≡ true
        → Passes target b (arrives event ∷ pulls) (event ∷ [])
    passes :
        {b after : Bridge P W S C} {event : StreamEvent P W S C} {pulls : List (Pull P W S C)}
        {told : Sent P W S C}
        → Records P W S C target event b.life (ok false) after.life
        → is_last P W S C event ≡ false
        → after.runner ≡ b.runner
        → b.room ≡ suc after.room
        → Passes target after pulls told
        → Passes target b (arrives event ∷ pulls) (event ∷ told)

  append_empty : {A : Type 0} (xs : List A) → xs ++ [] ≡ xs
  append_empty [] = refl
  append_empty (x ∷ xs) = ap (λ ys. x ∷ ys) (append_empty xs)

  append_one :
      {A : Type 0} (xs : List A) (x : A) (ys : List A) → (xs ++ x ∷ []) ++ ys ≡ xs ++ x ∷ ys
  append_one [] x ys = refl
  append_one (z ∷ xs) x ys = ap (λ zs. z ∷ zs) (append_one xs x ys)

  -- What a bridge tells its receiver of what the runner streams: each event in order and without a gap,
  -- each once it has been recorded, up to the last one of the run; in place of an event that could not
  -- be recorded the failure, and then no more; and nothing to a receiver that is gone, or after the
  -- stream was cut off.
  pub bridge-Passes :
      (target : Target P) (pulls : List (Pull P W S C)) (b : Bridge P W S C)
      → (told : Sent P W S C) × ((bridge P W S C target pulls b).sent ≡ b.sent ++ told)
        × Passes target b pulls told
  unfolding bridge cancel_and_finish
  bridge-Passes target [] b = ([], sym (append_empty b.sent), waits)
  bridge-Passes target (disconnects ∷ pulls) b = ([], sym (append_empty b.sent), cut_off)
  bridge-Passes target (closes ∷ pulls) b = ([], sym (append_empty b.sent), closed)
  bridge-Passes target (arrives event ∷ pulls) b =
      let after = forward_event P W S C target event b in
      let records = record_event-Records P W S C target event b in
      let (rest, sent, order) = bridge-Passes target pulls after.1 in
      elim (forward_event-Turn P W S C target event b) [
        | leaves gone over same ↦
            ([], rw (over, bridge) (same ∙ sym (append_empty b.sent)), nobody gone)
        | fails e there bad over told ↦
            (failed e ∷ [], rw (over, bridge) told, unrecorded e there (rw bad at records))
        | ends there done over told ↦ (
          event ∷ [],
          rw (over, bridge) told,
          last there (rw done at records) (record_event-is_last P W S C target event b true done),
        )
        | goes_on done more told life runner room ↦ (
          event ∷ rest,
          rw (more, bridge) (sent ∙ ap (λ s. s ++ rest) told ∙ append_one b.sent event rest),
          passes (rw (done, sym life) at records)
              (record_event-is_last P W S C target event b false done) runner room order,
        )
      ]
