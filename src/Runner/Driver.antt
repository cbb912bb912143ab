-- ===== src/Runner/Driver.antt =====
-- What the driver of a stream has told when it returns, src/runner.rs.
use mathlib.Core.Path.{subst}
use typemach.Base.{
  ℕ, zero, suc, Option, none, some, Bool, true, false, [], ◌≡◌, refl, inl, inr, ◌⊎◌, if◌then◌else◌,
}
use typemach.Run.Request.{RunStreamEvent, started, failed}
use typemach.Error.{Result, ok, err, MachineError, Result-cases}
use typemach.Checkpoint.Saver.{CheckpointSaver}
use typemach.Machine.{Machine}
use typemach.Runner.Resume.{Request}
use typemach.Runner.Invoke.{load_start, start_position}
use typemach.Runner.Channel.{
  completed, interrupted, cancelled, receiver_closed, LockEnd, acquires, cancels, closes, Event,
  Terminal, Channel, taken, beat, wait_lock, terminal_event, send_last,
}
use typemach.Runner.Stream.{
  StreamTurn, StreamPosition, StreamRound, stops, goes, stream_round, stream_loop, stream_locked,
  Opening, run_stream_inner, run_stream_driver,
}
use typemach.Runner.Protocol.{
  Phase, unstarted, idle, interrupting, completing, ended, idle_open, Follows, begins, waits,
  ends_interrupted, ends_completed, ends_failed, ends_cancelled, Story, silence, tells, send_cases,
}
use typemach.Runner.Told.{Told, Told-closed, RoundTold, stream_round-Told}

module _ {V : Type 0} (M : Machine V) (CK : CheckpointSaver V) where
  -- What a run that has returned has told.
  abbrev LoopTold : Request M → Option (Result (Terminal M) × CK.World × Channel M) → Type 0
  LoopTold request none = Unit {0}
  LoopTold request (some (result, w, channel)) = Told M request result channel

  stream_loop-Told :
      (fuel : ℕ) (request : Request M) (turns : ℕ → StreamTurn M CK request.runtime_limits)
      (p : StreamPosition M CK)
      → Story M request p.channel.sent (idle p.at.step_count)
      → LoopTold request (stream_loop M CK fuel request turns p)
  unfolding stream_loop
  stream_loop-Told zero request turns p story = tt
  stream_loop-Told (suc fuel) request turns p story =
      go (stream_round M CK request (turns 0) p) (stream_round-Told M CK request (turns 0) p story)
        (stream_loop-Told fuel request (λ k. turns (suc k)))
    where
      go :
          (round : StreamRound M CK)
          → RoundTold M CK request round
          → ((q : StreamPosition M CK)
              → Story M request q.channel.sent (idle q.at.step_count)
              → LoopTold request (stream_loop M CK fuel request (λ k. turns (suc k)) q))
          → LoopTold request (elim round [
            | stops result w channel ↦ some (result, w, channel)
            | goes p' ↦ stream_loop M CK fuel request (λ k. turns (suc k)) p'
          ])
      go (stops result w channel) told rest = told
      go (goes q) told rest = rest q told

  stream_locked-Told :
      (fuel : ℕ) (request : Request M) (is_cancelled : Bool)
      (turns : ℕ → StreamTurn M CK request.runtime_limits) (w : CK.World) (channel : Channel M)
      → Story M request channel.sent (idle 0)
      → LoopTold request (stream_locked M CK fuel request is_cancelled turns w channel)
  unfolding stream_locked
  stream_locked-Told fuel request true turns w channel story = record {
    phase = idle 0;
    story = story;
    fits = idle_open 0;
  }
  stream_locked-Told fuel request false turns w channel story =
      elim (Result-cases (load_start M CK request w)) [
        | inl (e, bad) ↦
            rw (bad, stream_locked) (record { phase = idle 0; story = story; fits = idle_open 0 })
        | inr (start, loaded) ↦
            rw (loaded, stream_locked)
              (stream_loop-Told fuel request turns
                (record { at = start_position w start; channel = channel }) story)
      ]

  -- The wait for the lock keeps to the phase before the first step.
  abbrev LockTold : Request M → LockEnd × Channel M → Type 0
  LockTold request (acquires, channel) = Story M request channel.sent (idle 0)
  LockTold request (cancels, channel) = Story M request channel.sent (idle 0)
  LockTold request (closes, channel) =
      Story M request channel.sent (idle 0) × (channel.left ≡ some 0)

  wait_lock-Told :
      (request : Request M) (count : ℕ) (lock_end : LockEnd) (channel : Channel M)
      → Story M request channel.sent (idle 0)
      → LockTold request (wait_lock M request count lock_end channel)
  unfolding wait_lock
  wait_lock-Told request zero closes channel story = (story, refl)
  wait_lock-Told request zero acquires channel story = story
  wait_lock-Told request zero cancels channel story = story
  wait_lock-Told request (suc count) lock_end channel story =
      send_cases M (beat M request) channel
        (λ x.
          LockTold request (if x.0 then wait_lock M request count lock_end x.1 else (closes, x.1)))
        (λ closed. (story, closed))
        λ after.
          wait_lock-Told request count lock_end (taken M (beat M request) after channel)
            (tells (beat M request) (idle 0) story waits)

  run_stream_inner-Told :
      (fuel : ℕ) (request : Request M) (opening : Opening M CK)
      (turns : ℕ → StreamTurn M CK request.runtime_limits) (w : CK.World) (channel : Channel M)
      → Story M request channel.sent (idle 0)
      → LoopTold request (run_stream_inner M CK fuel request opening turns w channel)
  unfolding run_stream_inner
  run_stream_inner-Told fuel request opening turns w channel story =
      go (wait_lock M request opening.beats opening.lock_end channel)
        (wait_lock-Told request opening.beats opening.lock_end channel story)
    where
      go :
          (waited : LockEnd × Channel M)
          → LockTold request waited
          → LoopTold request (elim waited.0 [
            | acquires ↦ stream_locked M CK fuel request opening.is_cancelled turns w waited.1
            | cancels ↦ some (ok cancelled, w, waited.1)
            | closes ↦ some (ok receiver_closed, w, waited.1)
          ])
      go (acquires, channel') told =
          stream_locked-Told fuel request opening.is_cancelled turns w channel' told
      go (cancels, channel') told = record { phase = idle 0; story = told; fits = idle_open 0 }
      go (closes, channel') (told, closed) = Told-closed M channel' told closed

module _ {V : Type 0} (M : Machine V) where
  -- The story ends in a phase: the last one, unless the receiver has closed.
  pub record Finished (request : Request M) (channel : Channel M) : Type 0 where
    pub phase : Phase M.Step
    pub story : Story M request channel.sent phase
    pub complete : (channel.left ≡ some 0) ⊎ (phase ≡ ended)

  terminal_event-err :
      (e : MachineError)
      → (terminal_event M (err e) ≡ some RunStreamEvent.cancelled)
        ⊎ (terminal_event M (err e) ≡ some (failed e))
  unfolding terminal_event
  terminal_event-err MachineError.cancelled = inl refl
  terminal_event-err _ = inr refl

  send_end :
      (request : Request M) (event : Event M) (phase : Phase M.Step) (channel : Channel M)
      → Story M request channel.sent phase
      → Follows M request phase event ended
      → Finished request (send_last M (some event) channel)
  unfolding send_last
  send_end request event phase channel story follows =
      send_cases M event channel (λ x. Finished request x.1)
        (λ closed. record { phase = phase; story = story; complete = inl closed })
        λ after. record {
          phase = ended;
          story = tells event ended story follows;
          complete = inr refl;
        }

  send_last-Finished :
      (request : Request M) (result : Result (Terminal M)) (channel : Channel M)
      → Told M request result channel
      → Finished request (send_last M (terminal_event M result) channel)
  unfolding terminal_event send_last
  send_last-Finished request (ok (completed trace output snapshot)) channel told =
      send_end request (RunStreamEvent.completed trace output snapshot) completing channel
        (subst (Story M request channel.sent) told.fits told.story)
        (ends_completed trace output snapshot)
  send_last-Finished request (ok (interrupted found snapshot)) channel told =
      send_end request (RunStreamEvent.interrupted found snapshot) interrupting channel
        (subst (Story M request channel.sent) told.fits told.story)
        (ends_interrupted found snapshot)
  send_last-Finished request (ok cancelled) channel told =
      send_end request RunStreamEvent.cancelled told.phase channel told.story
        (ends_cancelled told.fits)
  send_last-Finished request (ok receiver_closed) channel told = record {
    phase = told.phase;
    story = told.story;
    complete = inl told.fits;
  }
  send_last-Finished request (err e) channel told = elim (terminal_event-err e) [
    | inl is ↦ rw is (
        send_end request RunStreamEvent.cancelled told.phase channel told.story
          (ends_cancelled told.fits))
    | inr is ↦
        rw is (send_end request (failed e) told.phase channel told.story (ends_failed e told.fits))
  ]

module _ {V : Type 0} (M : Machine V) (CK : CheckpointSaver V) where
  abbrev DriverTold : Request M → Option (CK.World × Channel M) → Type 0
  DriverTold request none = Unit {0}
  DriverTold request (some (w, channel)) = Finished M request channel

  run_stream_driver-Told :
      (fuel : ℕ) (request : Request M) (opening : Opening M CK)
      (turns : ℕ → StreamTurn M CK request.runtime_limits) (w : CK.World) (left : Option ℕ)
      → DriverTold request
          (run_stream_driver M CK fuel request opening turns w (record { sent = []; left = left }))
  unfolding run_stream_driver
  run_stream_driver-Told fuel request opening turns w left =
      let empty : Channel M = record { sent = []; left = left } in
      let event = started request.run_id request.session_id request.thread_id in
      send_cases M event empty
        (λ x. DriverTold request (
          if x.0
          then elim (run_stream_inner M CK fuel request opening turns w x.1) [
            | none ↦ none
            | some (result, w', last) ↦ some (w', send_last M (terminal_event M result) last)
          ]
          else some (w, x.1)))
        (λ closed. record { phase = unstarted; story = silence; complete = inl closed })
        λ after.
          go (run_stream_inner M CK fuel request opening turns w (taken M event after empty)) (
            run_stream_inner-Told M CK fuel request opening turns w (taken M event after empty)
              (tells event (idle 0) silence begins))
    where
      go :
          (result : Option (Result (Terminal M) × CK.World × Channel M))
          → LoopTold M CK request result
          → DriverTold request (elim result [
            | none ↦ none
            | some (result, w', last) ↦ some (w', send_last M (terminal_event M result) last)
          ])
      go none told = tt
      go (some (result, w', last)) told = send_last-Finished M request result last told

  -- The events of a stream come in this order and no other: `Started`; heartbeats; then for each step
  -- `StepStarted` with its number, signals and heartbeats, `StepFinished`; and at most one terminal
  -- event, `Completed` or `Interrupted` only after a step that finished so, with nothing after it. A
  -- stream whose driver returns has its terminal event, unless the receiver has closed.
  pub run_stream_driver-Story :
      (fuel : ℕ) (request : Request M) (opening : Opening M CK)
      (turns : ℕ → StreamTurn M CK request.runtime_limits) (w w' : CK.World) (left : Option ℕ)
      (channel : Channel M)
      → run_stream_driver M CK fuel request opening turns w (record { sent = []; left = left })
        ≡ some (w', channel)
      → Finished M request channel
  run_stream_driver-Story fuel request opening turns w w' left channel h =
      subst (DriverTold request) h (run_stream_driver-Told fuel request opening turns w left)
