-- ===== src/Runner/Protocol.antt =====
-- The order of the events of a stream, src/runner.rs.
use typemach.Base.{
  ℕ, zero, suc, ◌+◌, Option, none, some, Bool, true, false, List, [], ◌∷◌, ◌++◌, ◌≡◌, ◌≢◌, refl,
  if◌then◌else◌,
}
use typemach.Run.Limits.{RuntimeLimits}
use typemach.Run.Request.{
  RunStreamEvent, StepResult, started, step_started, step_finished, signal, failed,
}
use typemach.Error.{Result, ok, err, MachineError}
use typemach.Machine.{Machine, Transition, emits, returns}
use typemach.Runner.Resume.{Request}
use typemach.Runner.Invoke.{MachineAct, u32}
use typemach.Runner.Channel.{
  StreamTransition, receiver_closed, StreamBranch, answers, cancels, closes, step_timer, run_timer,
  Tick, works, beats, Event, Channel, taken, send_event, beat, work, work_out, run_ticks, end_wait,
  map_answer, emit_answer,
}

-- Where a stream is: not begun; between two steps, of which so many have begun; in a step; after the
-- last step; at its end.
pub data Phase (Step : Type 0) : Type 0 where
  unstarted : Phase Step
  idle : ℕ → Phase Step
  busy : Step → ℕ → Phase Step
  interrupting : Phase Step
  completing : Phase Step
  ended : Phase Step

-- A stream that has begun and not ended.
pub data Open {Step : Type 0} : Phase Step → Type 0 where
  idle_open : (n : ℕ) → Open (idle n)
  busy_open : (step : Step) (n : ℕ) → Open (busy step n)
  interrupting_open : Open interrupting
  completing_open : Open completing

module _ {V : Type 0} (M : Machine V) where
  -- Which event may come in which phase.
  pub data Follows (request : Request M) : Phase M.Step → Event M → Phase M.Step → Type 0 where
    begins :
        Follows request unstarted
          (started request.run_id request.session_id request.thread_id)
          (idle 0)
    waits : Follows request (idle 0) (beat M request) (idle 0)
    starts :
        (n : ℕ) (step : M.Step)
        → Follows request (idle n) (step_started step (u32 (n + 1))) (busy step (u32 (n + 1)))
    beats_on :
        (step : M.Step) (n : ℕ) → Follows request (busy step n) (beat M request) (busy step n)
    signals :
        (step : M.Step) (n : ℕ) (sign : M.Signal)
        → Follows request (busy step n) (signal sign) (busy step n)
    goes_on :
        (step : M.Step) (n : ℕ)
        → Follows request (busy step n) (step_finished step StepResult.next) (idle n)
    interrupts :
        (step : M.Step) (n : ℕ)
        → Follows request (busy step n) (step_finished step StepResult.interrupt) interrupting
    completes :
        (step : M.Step) (n : ℕ)
        → Follows request (busy step n) (step_finished step StepResult.complete) completing
    ends_interrupted :
        (found : M.Interrupt) (snapshot : V)
        → Follows request interrupting (RunStreamEvent.interrupted found snapshot) ended
    ends_completed :
        (trace : List V) (output : M.Output) (snapshot : V)
        → Follows request completing (RunStreamEvent.completed trace output snapshot) ended
    ends_failed :
        {phase : Phase M.Step} (e : MachineError)
        → Open phase
        → Follows request phase (failed e) ended
    ends_cancelled :
        {phase : Phase M.Step} → Open phase → Follows request phase RunStreamEvent.cancelled ended

  -- The events that lead from the beginning to a phase.
  pub data Story (request : Request M) : List (Event M) → Phase M.Step → Type 0 where
    silence : Story request [] unstarted
    tells :
        {events : List (Event M)} {phase : Phase M.Step} (event : Event M) (phase' : Phase M.Step)
        → Story request events phase
        → Follows request phase event phase'
        → Story request (events ++ event ∷ []) phase'

  send_by {ℓ} :
      (left : Option ℕ) (event : Event M) (channel : Channel M) (Q : Bool × Channel M → Type ℓ)
      → channel.left ≡ left
      → (channel.left ≡ some 0 → Q (false, channel))
      → ((after : Option ℕ) → Q (true, taken M event after channel))
      → Q (send_event M event channel)
  unfolding send_event
  send_by none event channel Q is closed sent = rw (is, send_event) (sent none)
  send_by (some zero) event channel Q is closed sent = rw (is, send_event) (closed is)
  send_by (some (suc n)) event channel Q is closed sent = rw (is, send_event) (sent (some n))

  -- The two ways of a send.
  pub send_cases {ℓ} :
      (event : Event M) (channel : Channel M) (Q : Bool × Channel M → Type ℓ)
      → (channel.left ≡ some 0 → Q (false, channel))
      → ((after : Option ℕ) → Q (true, taken M event after channel))
      → Q (send_event M event channel)
  send_cases event channel Q = send_by channel.left event channel Q refl

  -- A signal leaves a step's phase as it is, sent or not.
  send_signal-Story :
      (request : Request M) (sign : M.Signal) (channel : Channel M) (step : M.Step) (n : ℕ)
      → Story request channel.sent (busy step n)
      → Story request (send_event M (signal sign) channel).1.sent (busy step n)
  send_signal-Story request sign channel step n story =
      send_cases (signal sign) channel (λ x. Story request x.1.sent (busy step n)) (λ _. story)
        λ after. tells (signal sign) (busy step n) story (signals step n sign)

  work-Story :
      (request : Request M) (act : MachineAct M) (channel : Channel M) (step : M.Step) (n : ℕ)
      → Story request channel.sent (busy step n)
      → Story request (work M act channel).1.sent (busy step n)
  unfolding work
  work-Story request (returns answer state) channel step n story = story
  work-Story request (emits sign go) channel step n story =
      send_signal-Story request sign channel step n story

  work_out-Story :
      (request : Request M) (act : MachineAct M) (channel : Channel M) (step : M.Step) (n : ℕ)
      → Story request channel.sent (busy step n)
      → Story request (work_out M act channel).2.sent (busy step n)
  unfolding work_out
  work_out-Story request (returns answer state) channel step n story = story
  work_out-Story request (emits sign go) channel step n story =
      let (sent, channel') = send_event M (signal sign) channel in
      work_out-Story request (go (emit_answer sent)) channel' step n
        (send_signal-Story request sign channel step n story)

  -- The ticks end in the step's phase, or with the receiver closed.
  abbrev pub Ticked : Request M → M.Step → ℕ → Option (MachineAct M) × Channel M → Type 0
  Ticked request step n (none, channel) =
      Story request channel.sent (busy step n) × (channel.left ≡ some 0)
  Ticked request step n (some act, channel) = Story request channel.sent (busy step n)

  pub run_ticks-Story :
      (request : Request M) (ticks : List Tick) (act : MachineAct M) (channel : Channel M)
      (step : M.Step) (n : ℕ)
      → Story request channel.sent (busy step n)
      → Ticked request step n (run_ticks M request ticks act channel)
  unfolding run_ticks
  run_ticks-Story request [] act channel step n story = story
  run_ticks-Story request (works ∷ ticks) act channel step n story =
      let (act', channel') = work M act channel in
      run_ticks-Story request ticks act' channel' step n
        (work-Story request act channel step n story)
  run_ticks-Story request (beats ∷ ticks) act channel step n story =
      send_cases (beat M request) channel
        (λ x.
          Ticked request step n (if x.0 then run_ticks M request ticks act x.1 else (none, x.1)))
        (λ closed. (story, closed))
        λ after.
          run_ticks-Story request ticks act (taken M (beat M request) after channel) step n
            (tells (beat M request) (busy step n) story (beats_on step n))

  -- The wait ends in the step's phase, and finds the receiver closed only if it is.
  abbrev pub Waited :
      Request M
      → M.Step
      → ℕ
      → Result (StreamTransition M.Step M.Interrupt M.Output) × M.State × Channel M
      → Type 0
  Waited request step n (r, state, channel) =
      Story request channel.sent (busy step n) × (r ≡ ok receiver_closed → channel.left ≡ some 0)

  map_answer-open :
      (r : Result (Transition M.Step M.Interrupt M.Output)) → map_answer M r ≢ ok receiver_closed
  map_answer-open (err e) h = cc
  map_answer-open (ok (Transition.next step)) h = cc
  map_answer-open (ok (Transition.interrupt found)) h = cc
  map_answer-open (ok (Transition.complete output)) h = cc

  pub end_wait-Waited :
      {limits : RuntimeLimits} (request : Request M) (branch : StreamBranch limits)
      (state : M.State) (act : MachineAct M) (channel : Channel M) (step : M.Step) (n : ℕ)
      → Story request channel.sent (busy step n)
      → Waited request step n (end_wait M branch state act channel)
  unfolding end_wait
  end_wait-Waited request answers state act channel step n story = (
    work_out-Story request act channel step n story,
    λ h. absurd (map_answer-open (work_out M act channel).0 h),
  )
  end_wait-Waited request cancels state act channel step n story = (story, λ h. absurd (cc))
  end_wait-Waited request closes state act channel step n story = (story, λ h. refl)
  end_wait-Waited request (step_timer _ _) state act channel step n story =
      (story, λ h. absurd (cc))
  end_wait-Waited request (run_timer _ _) state act channel step n story = (story, λ h. absurd (cc))
