-- ===== src/Event.antt =====
-- The traits `RunEvent` and `RunEventPayload` of src/store.rs, and the envelope that implements them.
use typemach.Base.{Bool}
use typemach.Base.Int.{ℤ}
use typemach.Run.{RunId, SessionId}

-- What a store asks of an event. The store only reads these four.
pub record RunEvent (E : Type 0) : Type 0 where
  pub run_id : E → RunId
  pub session_id : E → SessionId
  pub seq : E → ℤ
  pub is_terminal : E → Bool

pub record RunEventPayload (A : Type 0) : Type 0 where
  pub is_terminal : A → Bool

pub record RunEventEnvelope (A : Type 0) : Type 0 where
  pub run_id : RunId
  pub session_id : SessionId
  pub seq : ℤ
  pub payload : A

-- `impl RunEvent for RunEventEnvelope<P>`.
abbrev pub envelope_event : {A : Type 0} → RunEventPayload A → RunEvent (RunEventEnvelope A)
envelope_event p = record {
  run_id = λ e. e.run_id;
  session_id = λ e. e.session_id;
  seq = λ e. e.seq;
  is_terminal = λ e. p.is_terminal e.payload;
}
