-- ===== src/Runner/Stream.antt =====
-- src/runner.rs: the loop of `stream`, which tells a channel what it does.
use typemach.Base.{
  ℕ, zero, suc, ◌+◌, Option, none, some, Bool, true, false, List, [], ◌∷◌, ◌++◌, ltb, if◌then◌else◌,
}
use typemach.Run.Limits.{RuntimeLimits}
use typemach.Run.Request.{started, step_started, step_finished, StepResult}
use typemach.Error.{Result, ok, err, ◌>>=◌, max_steps_exceeded}
use typemach.Checkpoint.Saver.{CheckpointSaver}
use typemach.Machine.{Machine, to_json}
use typemach.Runner.Channel.{
  StreamTransition, next, interrupt, complete, completed, interrupted, cancelled, receiver_closed,
  StreamBranch, Tick, LockEnd, acquires, cancels, closes, Terminal, Channel, send_event, run_ticks,
  end_wait, wait_lock, terminal_event, send_last,
}
use typemach.Runner.Resume.{Request}
use typemach.Runner.Invoke.{
  Position, context, counted, u32, save_running, save_interrupted, load_start, start_position,
}

module _ {V : Type 0} (M : Machine V) (CK : CheckpointSaver V) where
  pub record StreamTurn (limits : RuntimeLimits) : Type 0 where
    pub choice : M.Choice
    pub meanwhile : CK.World → CK.World
    pub ticks : List Tick
    pub branch : StreamBranch limits

  unfoldable pub stream_transition :
      (request : Request M)
      → StreamTurn request.runtime_limits
      → M.Step
      → M.State
      → Channel M
      → Result (StreamTransition M.Step M.Interrupt M.Output) × M.State × Channel M
  stream_transition request turn step state channel =
      let act = M.transition turn.choice step state (context M true request) in
      let (going, channel') = run_ticks M request turn.ticks act channel in
      elim going [
        | none ↦ (ok receiver_closed, state, channel')
        | some act' ↦ end_wait M turn.branch state act' channel'
      ]

  -- The loop's variables, and the channel.
  pub record StreamPosition : Type 0 where
    pub at : Position M CK
    pub channel : Channel M

  pub data StreamRound : Type 0 where
    stops : Result (Terminal M) → CK.World → Channel M → StreamRound
    goes : StreamPosition → StreamRound

  -- `step_finished`, and what follows if it was sent.
  unfoldable pub send_finished :
      M.Step → StepResult → CK.World → Channel M → (Channel M → StreamRound) → StreamRound
  send_finished step result w channel go =
      let (sent, channel') = send_event M (step_finished step result) channel in
      if sent then go channel' else stops (ok receiver_closed) w channel'

  unfoldable pub sent_next :
      Position M CK → M.Step → M.State → Channel M → Result (Unit {0}) × CK.World → StreamRound
  sent_next p step state channel (err e, w) = stops (err e) w channel
  sent_next p step state channel (ok _, w) =
      send_finished p.current_step StepResult.next w channel λ channel'. goes (record {
        at = record p {
          current_step = step;
          state = state;
          trace = p.trace ++ M.trace_value p.current_step "next" ∷ [];
          world = w;
        };
        channel = channel';
      })

  unfoldable pub stream_snapshot : M.State → (V → Terminal M) → Result (Terminal M)
  stream_snapshot state terminal = do snapshot ← to_json M state; ok (terminal snapshot)

  unfoldable pub sent_last :
      M.Step
      → StepResult
      → Result (Terminal M)
      → Channel M
      → Result (Unit {0}) × CK.World
      → StreamRound
  sent_last step result terminal channel (err e, w) = stops (err e) w channel
  sent_last step result terminal channel (ok _, w) =
      send_finished step result w channel λ channel'. stops terminal w channel'

  -- The arms of the `match` on a transition.
  unfoldable pub take_stream :
      Request M
      → Position M CK
      → M.State
      → CK.World
      → Channel M
      → StreamTransition M.Step M.Interrupt M.Output
      → StreamRound
  take_stream request p state w channel (next step) =
      sent_next p step state channel
        (save_running M CK request.run_id request.thread_id state (some step) w)
  take_stream request p state w channel (interrupt found) =
      sent_last p.current_step StepResult.interrupt (stream_snapshot state (interrupted found))
        channel
        (save_interrupted M CK request.run_id request.thread_id state p.current_step found w)
  take_stream request p state w channel (complete output) =
      sent_last p.current_step StepResult.complete
        (stream_snapshot state
          (completed (p.trace ++ M.trace_value p.current_step "complete" ∷ []) output))
        channel (save_running M CK request.run_id request.thread_id state none w)
  take_stream request p state w channel cancelled = stops (ok cancelled) w channel
  take_stream request p state w channel receiver_closed = stops (ok receiver_closed) w channel

  unfoldable pub take_wait :
      Request M
      → Position M CK
      → CK.World
      → Result (StreamTransition M.Step M.Interrupt M.Output) × M.State × Channel M
      → StreamRound
  take_wait request p w (err e, state, channel) = stops (err e) w channel
  take_wait request p w (ok answer, state, channel) = take_stream request p state w channel answer

  unfoldable pub stream_step :
      (request : Request M)
      → StreamTurn request.runtime_limits
      → Position M CK
      → Channel M
      → StreamRound
  stream_step request turn p channel =
      let (sent, channel') = send_event M (step_started p.current_step p.step_count) channel in
      if sent
      then take_wait request p (turn.meanwhile p.world)
          (stream_transition request turn p.current_step p.state channel')
      else stops (ok receiver_closed) p.world channel'

  -- One round of the loop.
  unfoldable pub stream_round :
      (request : Request M) → StreamTurn request.runtime_limits → StreamPosition → StreamRound
  stream_round request turn p =
      if ltb request.runtime_limits.max_steps (u32 (p.at.step_count + 1))
      then stops (err (max_steps_exceeded request.runtime_limits.max_steps)) p.at.world p.channel
      else stream_step request turn (counted p.at) p.channel

  unfoldable pub stream_loop :
      ℕ
      → (request : Request M) → (ℕ → StreamTurn request.runtime_limits)
      → StreamPosition
      → Option (Result (Terminal M) × CK.World × Channel M)
  stream_loop zero request turns p = none
  stream_loop (suc fuel) request turns p = elim (stream_round request (turns 0) p) [
    | stops result w channel ↦ some (result, w, channel)
    | goes p' ↦ stream_loop fuel request (λ k. turns (suc k)) p'
  ]

  -- The rest of `run_stream_inner`, once it has the lock.
  unfoldable pub stream_locked :
      ℕ
      → (request : Request M) → Bool
      → (ℕ → StreamTurn request.runtime_limits)
      → CK.World
      → Channel M
      → Option (Result (Terminal M) × CK.World × Channel M)
  stream_locked fuel request true turns w channel = some (ok cancelled, w, channel)
  stream_locked fuel request false turns w channel = elim (load_start M CK request w) [
    | err e ↦ some (err e, w, channel)
    | ok start ↦
        stream_loop fuel request turns (record { at = start_position w start; channel = channel })
  ]

  -- What other tasks decide before the loop: the heartbeats while the lock is waited for, the end of
  -- that wait, and what the set of cancelled runs says then.
  pub record Opening : Type 0 where
    pub beats : ℕ
    pub lock_end : LockEnd
    pub is_cancelled : Bool

  unfoldable pub run_stream_inner :
      ℕ
      → (request : Request M) → Opening
      → (ℕ → StreamTurn request.runtime_limits)
      → CK.World
      → Channel M
      → Option (Result (Terminal M) × CK.World × Channel M)
  run_stream_inner fuel request opening turns w channel =
      let (locked, channel') = wait_lock M request opening.beats opening.lock_end channel in
      elim locked [
        | acquires ↦ stream_locked fuel request opening.is_cancelled turns w channel'
        | cancels ↦ some (ok cancelled, w, channel')
        | closes ↦ some (ok receiver_closed, w, channel')
      ]

  unfoldable pub run_stream_driver :
      ℕ
      → (request : Request M) → Opening
      → (ℕ → StreamTurn request.runtime_limits)
      → CK.World
      → Channel M
      → Option (CK.World × Channel M)
  run_stream_driver fuel request opening turns w channel =
      let (sent, channel') =
        send_event M (started request.run_id request.session_id request.thread_id) channel in
      let inner = run_stream_inner fuel request opening turns w channel' in
      if sent
      then elim inner [
        | none ↦ none
        | some (result, w', last) ↦ some (w', send_last M (terminal_event M result) last)
      ]
      else some (w, channel')
