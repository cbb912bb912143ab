-- ===== src/Runner/Channel.antt =====
-- src/runner.rs: the channel of a stream, and what is sent on it while a transition or the thread's
-- lock is waited for.
use typemach.Base.{
  ℕ, zero, suc, Option, none, some, Bool, true, false, List, [], ◌∷◌, ◌++◌, ◌≡◌, if◌then◌else◌,
}
use typemach.Run.Limits.{RuntimeLimits}
use typemach.Run.Request.{RunStreamEvent, heartbeat, signal, failed}
use typemach.Error.{
  Result, ok, err, MachineError, stream_closed, step_timeout as step_timeout_error,
  run_timeout as run_timeout_error,
}
use typemach.Machine.{Machine, Transition, emits, returns}
use typemach.Runner.Resume.{Request}
use typemach.Runner.Invoke.{MachineAct}

pub data StreamTransition (Step Interrupt Output : Type 0) : Type 0 where
  next : Step → StreamTransition Step Interrupt Output
  interrupt : Interrupt → StreamTransition Step Interrupt Output
  complete : Output → StreamTransition Step Interrupt Output
  cancelled : StreamTransition Step Interrupt Output
  receiver_closed : StreamTransition Step Interrupt Output

pub data StreamTerminal (V Interrupt Output : Type 0) : Type 0 where
  completed : List V → Output → V → StreamTerminal V Interrupt Output
  interrupted : Interrupt → V → StreamTerminal V Interrupt Output
  cancelled : StreamTerminal V Interrupt Output
  receiver_closed : StreamTerminal V Interrupt Output

-- What ends the wait for a transition.
pub data StreamBranch (limits : RuntimeLimits) : Type 0 where
  answers : StreamBranch limits
  cancels : StreamBranch limits
  closes : StreamBranch limits
  step_timer : (timeout : ℕ) → limits.step_timeout ≡ some timeout → StreamBranch limits
  run_timer : (timeout : ℕ) → limits.run_timeout ≡ some timeout → StreamBranch limits

-- What may happen before: the transition gets on, up to its next `emit`, or the heartbeat's timer
-- fires.
pub data Tick : Type 0 where
  works : Tick
  beats : Tick

-- What ends the wait for the thread's lock.
pub data LockEnd : Type 0 where
  acquires : LockEnd
  cancels : LockEnd
  closes : LockEnd

-- What `emit` answers.
abbrev pub emit_answer : Bool → Result (Unit {0})
emit_answer true = ok tt
emit_answer false = err stream_closed

module _ {V : Type 0} (M : Machine V) where
  abbrev pub Event : Type 0
  Event = RunStreamEvent M.Step M.Signal M.Output M.Interrupt V

  abbrev pub Terminal : Type 0
  Terminal = StreamTerminal V M.Interrupt M.Output

  -- The channel: what has been sent, and how many events more the receiver takes before it closes
  -- (`none` if it never does).
  pub record Channel : Type 0 where
    pub sent : List Event
    pub left : Option ℕ

  abbrev pub taken : Event → Option ℕ → Channel → Channel
  taken event left channel = record { sent = channel.sent ++ event ∷ []; left = left }

  -- `send_event(tx, event).await.is_ok()`.
  unfoldable pub send_event : Event → Channel → Bool × Channel
  send_event event channel = elim channel.left [
    | none ↦ (true, taken event none channel)
    | some zero ↦ (false, channel)
    | some (suc left) ↦ (true, taken event (some left) channel)
  ]

  abbrev pub close : Channel → Channel
  close channel = record channel { left = some 0 }

  abbrev pub beat : Request M → Event
  beat request = heartbeat request.run_id request.session_id request.thread_id

  -- The transition gets on by one `emit`.
  unfoldable pub work : MachineAct M → Channel → MachineAct M × Channel
  work (returns answer state) channel = (returns answer state, channel)
  work (emits sign go) channel =
      let (sent, channel') = send_event (signal sign) channel in (go (emit_answer sent), channel')

  -- The transition runs to its end.
  unfoldable pub work_out :
      MachineAct M → Channel → Result (Transition M.Step M.Interrupt M.Output) × M.State × Channel
  work_out (returns answer state) channel = (answer, state, channel)
  work_out (emits sign go) channel =
      let (sent, channel') = send_event (signal sign) channel in
      work_out (go (emit_answer sent)) channel'

  -- The ticks, in their order; `none` if a heartbeat finds the receiver closed.
  unfoldable pub run_ticks :
      Request M → List Tick → MachineAct M → Channel → Option (MachineAct M) × Channel
  run_ticks request [] act channel = (some act, channel)
  run_ticks request (works ∷ ticks) act channel =
      let (act', channel') = work act channel in run_ticks request ticks act' channel'
  run_ticks request (beats ∷ ticks) act channel =
      let (sent, channel') = send_event (beat request) channel in
      let rest = run_ticks request ticks act channel' in if sent then rest else (none, channel')

  abbrev pub stream_answer :
      Transition M.Step M.Interrupt M.Output → StreamTransition M.Step M.Interrupt M.Output
  stream_answer (Transition.next step) = next step
  stream_answer (Transition.interrupt found) = interrupt found
  stream_answer (Transition.complete output) = complete output

  abbrev pub map_answer :
      Result (Transition M.Step M.Interrupt M.Output)
      → Result (StreamTransition M.Step M.Interrupt M.Output)
  map_answer (err e) = err e
  map_answer (ok answer) = ok (stream_answer answer)

  -- The arm of the `select!` that ends the wait.
  unfoldable pub end_wait :
      {limits : RuntimeLimits}
      → StreamBranch limits
      → M.State
      → MachineAct M
      → Channel
      → Result (StreamTransition M.Step M.Interrupt M.Output) × M.State × Channel
  end_wait answers state act channel =
      let (answer, state', channel') = work_out act channel in (map_answer answer, state', channel')
  end_wait cancels state act channel = (ok cancelled, state, channel)
  end_wait closes state act channel = (ok receiver_closed, state, close channel)
  end_wait (step_timer _ _) state act channel = (err step_timeout_error, state, channel)
  end_wait (run_timer _ _) state act channel = (err run_timeout_error, state, channel)

  -- `stream_thread_lock`: so many heartbeats, and the end of the wait.
  unfoldable pub wait_lock : Request M → ℕ → LockEnd → Channel → LockEnd × Channel
  wait_lock request zero closes channel = (closes, close channel)
  wait_lock request zero lock_end channel = (lock_end, channel)
  wait_lock request (suc count) lock_end channel =
      let (sent, channel') = send_event (beat request) channel in
      let rest = wait_lock request count lock_end channel' in
      if sent then rest else (closes, channel')

  -- The event that the driver ends with.
  unfoldable pub terminal_event : Result (Terminal) → Option (Event)
  terminal_event (ok (completed trace output snapshot)) =
      some (RunStreamEvent.completed trace output snapshot)
  terminal_event (ok (interrupted found snapshot)) =
      some (RunStreamEvent.interrupted found snapshot)
  terminal_event (ok cancelled) = some RunStreamEvent.cancelled
  terminal_event (ok receiver_closed) = none
  terminal_event (err MachineError.cancelled) = some RunStreamEvent.cancelled
  terminal_event (err error) = some (failed error)

  -- `let _ = send_event(…)`, of that event.
  unfoldable pub send_last : Option (Event) → Channel → Channel
  send_last none channel = channel
  send_last (some event) channel = (send_event event channel).1
