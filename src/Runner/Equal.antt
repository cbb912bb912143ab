-- ===== src/Runner/Equal.antt =====
-- The whole of `stream` against `invoke`, src/runner.rs.
use mathlib.Core.Path.{subst}
use typemach.Base.{
  ℕ, zero, suc, ◌+◌, Option, none, some, Bool, true, false, List, [], last, last-append, ltb, ◌≡◌,
  refl, sym, ap, ◌∙◌, inl, inr, Bool-cases,
}
use typemach.Run.Request.{RunStreamEvent, RunOutput, started, step_started}
use typemach.Error.{Result, ok, err, MachineError, Result-cases}
use typemach.Checkpoint.Saver.{CheckpointSaver}
use typemach.Machine.{Machine}
use typemach.Runner.Resume.{Request}
use typemach.Runner.Invoke.{
  Position, Turn, Round, Output, u32, counted, load_start, start_position, transition_or_cancel,
  round, run_loop, invoke_inner,
}
use typemach.Runner.Channel.{
  cancelled, receiver_closed, Tick, LockEnd, acquires, Event, Terminal, Channel, taken, send_event,
  beat, wait_lock, terminal_event, send_last,
}
use typemach.Runner.Stream.{
  StreamTurn, stream_transition, StreamRound, stops, goes, stream_step, stream_round, stream_loop,
  stream_locked, run_stream_inner, run_stream_driver,
}
use typemach.Runner.Same.{
  Indifferent, as_terminal, send-open, streamed, stream_transition-Matches, RoundMatches,
  take_answer-Matches,
}

module _ {V : Type 0} (M : Machine V) (CK : CheckpointSaver V) where
  round-Matches :
      (request : Request M) (turn : Turn M CK request.runtime_limits) (ticks : List Tick)
      (p : Position M CK) (channel : Channel M)
      → Indifferent M request
      → channel.left ≡ none
      → RoundMatches M CK (round request turn p) (
          stream_round M CK request
            (streamed M CK turn ticks)
            (record { at = p; channel = channel }))
  unfolding round stream_round stream_step
  round-Matches request turn ticks p channel indifferent is_open =
      let n = u32 (p.step_count + 1) in
      let event = step_started p.current_step n in
      elim (Bool-cases (ltb request.runtime_limits.max_steps n)) [
        | inl over ↦ rw (over, round, stream_round) (refl, refl, is_open)
        | inr within ↦
            rw (within, round, stream_round, send-open M event channel is_open, stream_step)
              (take_answer-Matches M CK request (counted p) (turn.meanwhile p.world)
                (transition_or_cancel request turn p.current_step p.state)
                (stream_transition M CK request (streamed M CK turn ticks) p.current_step p.state
                  (taken M event none channel))
                (stream_transition-Matches M CK request turn ticks p.current_step p.state
                  (taken M event none channel) indifferent refl))
      ]

  -- The outcomes of two loops.
  abbrev OutcomeMatches :
      Option (Result (Output M) × CK.World)
      → Option (Result (Terminal M) × CK.World × Channel M)
      → Type 0
  OutcomeMatches none none = Unit {0}
  OutcomeMatches (some (r, w)) (some (r', w', channel)) =
      (terminal_event M r' ≡ terminal_event M (as_terminal M r)) × (w' ≡ w) × (channel.left ≡ none)
  OutcomeMatches _ _ = ⊥

  run_loop-Matches :
      (fuel : ℕ) (request : Request M) (turns : ℕ → Turn M CK request.runtime_limits)
      (ticks : ℕ → List Tick) (p : Position M CK) (channel : Channel M)
      → Indifferent M request
      → channel.left ≡ none
      → OutcomeMatches (run_loop fuel request turns p) (
          stream_loop M CK fuel request
            (λ k. streamed M CK (turns k) (ticks k))
            (record { at = p; channel = channel }))
  unfolding run_loop stream_loop
  run_loop-Matches zero request turns ticks p channel indifferent is_open = tt
  run_loop-Matches (suc fuel) request turns ticks p channel indifferent is_open =
      go (round request (turns 0) p)
        (stream_round M CK request (streamed M CK (turns 0) (ticks 0))
          (record { at = p; channel = channel }))
        (round-Matches request (turns 0) (ticks 0) p channel indifferent is_open)
        (λ q channel' still.
          run_loop-Matches fuel request (λ k. turns (suc k)) (λ k. ticks (suc k)) q channel'
            indifferent still)
    where
      go :
          (here : Round M CK) (there : StreamRound M CK)
          → RoundMatches M CK here there
          → ((q : Position M CK) (channel' : Channel M)
              → channel'.left ≡ none
              → OutcomeMatches (run_loop fuel request (λ k. turns (suc k)) q) (
                  stream_loop M CK fuel request
                    (λ k. streamed M CK (turns (suc k)) (ticks (suc k)))
                    (record { at = q; channel = channel' })))
          → OutcomeMatches
              (elim here [
                | Round.stops r w ↦ some (r, w)
                | Round.goes q ↦ run_loop fuel request (λ k. turns (suc k)) q
              ])
              (elim there [
                | stops r w c ↦ some (r, w, c)
                | goes q ↦
                    stream_loop M CK fuel request
                      (λ k. streamed M CK (turns (suc k)) (ticks (suc k)))
                      q
              ])
      go (Round.stops r w) (stops r' w' c) matches rest = matches
      go (Round.goes q) (goes q') (same, still) rest =
          subst
            (λ x. OutcomeMatches (run_loop fuel request (λ k. turns (suc k)) x) (
              stream_loop M CK fuel request (λ k. streamed M CK (turns (suc k)) (ticks (suc k)))
                q'))
            same (rest q'.at q'.channel still)
      go (Round.stops r w) (goes q') matches rest = elim matches [ ]
      go (Round.goes q) (stops r' w' c) matches rest = elim matches [ ]

  -- The lock is had at once or after so many heartbeats.
  wait_lock-open :
      (request : Request M) (count : ℕ) (channel : Channel M)
      → channel.left ≡ none
      → (after : Channel M) × (wait_lock M request count acquires channel ≡ (acquires, after))
        × (after.left ≡ none)
  unfolding wait_lock
  wait_lock-open request zero channel is_open = (channel, refl, is_open)
  wait_lock-open request (suc count) channel is_open =
      rw (send-open M (beat M request) channel is_open)
        (wait_lock-open request count (taken M (beat M request) none channel) refl)

  inner-Matches :
      (fuel : ℕ) (request : Request M) (is_cancelled : Bool)
      (turns : ℕ → Turn M CK request.runtime_limits) (ticks : ℕ → List Tick) (w : CK.World)
      (channel : Channel M)
      → Indifferent M request
      → channel.left ≡ none
      → OutcomeMatches (invoke_inner fuel request is_cancelled turns w) (
          stream_locked M CK fuel request is_cancelled
            (λ k. streamed M CK (turns k) (ticks k))
            w
            channel)
  unfolding invoke_inner stream_locked terminal_event
  inner-Matches fuel request true turns ticks w channel indifferent is_open = (refl, refl, is_open)
  inner-Matches fuel request false turns ticks w channel indifferent is_open =
      elim (Result-cases (load_start M CK request w)) [
        | inl (e, bad) ↦ rw (bad, invoke_inner, stream_locked) (refl, refl, is_open)
        | inr (start, loaded) ↦
            rw (loaded, invoke_inner, stream_locked)
              (run_loop-Matches fuel request turns ticks (start_position w start) channel
                indifferent is_open)
      ]

  as_terminal-told :
      (r : Result (Output M))
      → (event : Event M) × (terminal_event M (as_terminal M r) ≡ some event)
  unfolding terminal_event
  as_terminal-told (ok (RunOutput.completed trace output snapshot)) =
      (RunStreamEvent.completed trace output snapshot, refl)
  as_terminal-told (ok (RunOutput.interrupted found snapshot)) =
      (RunStreamEvent.interrupted found snapshot, refl)
  as_terminal-told (err MachineError.cancelled) = (RunStreamEvent.cancelled, refl)
  as_terminal-told (err e) = (_, refl)

  -- The end of a driver whose loop ended as `invoke` did.
  driver_end :
      (here : Option (Result (Output M) × CK.World))
      (there : Option (Result (Terminal M) × CK.World × Channel M)) (r : Result (Output M))
      (w : CK.World)
      → OutcomeMatches here there
      → here ≡ some (r, w)
      → (channel : Channel M) × (elim there as (λ _. Option (CK.World × Channel M)) [
        | none ↦ none
        | some (result, w', ended) ↦ some (w', send_last M (terminal_event M result) ended)
      ]
          ≡ some (w, channel))
        × (last channel.sent ≡ terminal_event M (as_terminal M r))
  unfolding send_last
  driver_end none none r w matches h = absurd (cc)
  driver_end none (some x) r w matches h = elim matches [ ]
  driver_end (some x) none r w matches h = elim matches [ ]
  driver_end (some (r', w')) (some (result, w'', ended)) r w (same, same_w, is_open) h =
      let (event, told) = as_terminal-told r in
      let is_r : r' ≡ r = cc in
      let is_w : w'' ≡ w = same_w ∙ cc in
      let ends : terminal_event M result ≡ some event =
        same ∙ (ap (λ x. terminal_event M (as_terminal M x)) is_r ∙ told) in
      (
        taken M event none ended,
        rw (ends, is_w, send_last, send-open M event ended is_open) refl,
        last-append ended.sent event ∙ sym told,
      )

  -- A stream that has the lock in the end.
  driver_locked :
      (fuel : ℕ) (request : Request M) (beats_before : ℕ) (is_cancelled : Bool)
      (turns : ℕ → StreamTurn M CK request.runtime_limits) (w : CK.World)
      → (after : Channel M) × (after.left ≡ none)
        × (run_stream_driver M CK fuel request
              (record { beats = beats_before; lock_end = acquires; is_cancelled = is_cancelled })
              turns
              w
              (record { sent = []; left = none })
            ≡ (elim (stream_locked M CK fuel request is_cancelled turns w after)
                as (λ _. Option (CK.World × Channel M)) [
                  | none ↦ none
                  | some (result, w', ended) ↦
                      some (w', send_last M (terminal_event M result) ended)
                ]))
  unfolding run_stream_driver run_stream_inner send_event
  driver_locked fuel request beats_before is_cancelled turns w =
      let event = started request.run_id request.session_id request.thread_id in
      let begun : Channel M = taken M event none (record { sent = []; left = none }) in
      let (after, waited, still) = wait_lock-open request beats_before begun refl in
      let finish : Option (Result (Terminal M) × CK.World × Channel M)
          → Option (CK.World × Channel M) =
        λ x. elim x [
          | none ↦ none
          | some (result, w', ended) ↦ some (w', send_last M (terminal_event M result) ended)
        ] in
      let locked : LockEnd × Channel M → Option (Result (Terminal M) × CK.World × Channel M) = λ x.
        elim x.0 [
          | acquires ↦ stream_locked M CK fuel request is_cancelled turns w x.1
          | LockEnd.cancels ↦ some (ok cancelled, w, x.1)
          | LockEnd.closes ↦ some (ok receiver_closed, w, x.1)
        ] in
      (after, still, ap (λ x. finish (locked x)) waited)

  -- `stream` does what `invoke` does. With the same answers of the machine, the same timers and
  -- cancellations and the same doings of other tasks, whatever heartbeats and pauses come between: if
  -- `invoke` returns, the driver of the stream returns too, leaves the saver in the same state, and the
  -- last event that it sends is the one of the same outcome. The machine does not ask whether it is
  -- streamed, and the receiver stays.
  pub run_stream_driver-invoke_inner :
      (fuel : ℕ) (request : Request M) (beats_before : ℕ) (is_cancelled : Bool)
      (turns : ℕ → Turn M CK request.runtime_limits) (ticks : ℕ → List Tick) (w w' : CK.World)
      (r : Result (Output M))
      → Indifferent M request
      → invoke_inner fuel request is_cancelled turns w ≡ some (r, w')
      → (channel : Channel M) × (run_stream_driver M CK fuel request
            (record { beats = beats_before; lock_end = acquires; is_cancelled = is_cancelled })
            (λ k. streamed M CK (turns k) (ticks k))
            w
            (record { sent = []; left = none })
          ≡ some (w', channel))
        × (last channel.sent ≡ terminal_event M (as_terminal M r))
  run_stream_driver-invoke_inner fuel request beats_before is_cancelled turns ticks w w' r
        indifferent h =
      let streams = λ (k : ℕ). streamed M CK (turns k) (ticks k) in
      let (after, still, is) = driver_locked fuel request beats_before is_cancelled streams w in
      let (channel, ends, told) =
        driver_end (invoke_inner fuel request is_cancelled turns w)
          (stream_locked M CK fuel request is_cancelled streams w after) r w'
          (inner-Matches fuel request is_cancelled turns ticks w after indifferent still) h in
      (channel, is ∙ ends, told)
