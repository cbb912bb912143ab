-- ===== src/Runner/Invoke.antt =====
-- src/runner.rs: the loop of `invoke`.
use typemach.Base.{
  ℕ, zero, suc, ◌+◌, ◌%◌, ◌^◌, Option, none, some, Bool, true, false, List, [], ◌∷◌, ◌++◌, ltb, ◌≡◌,
  if◌then◌else◌,
}
use typemach.Base.Eq.{string_eq, option_eq}
use typemach.Run.{RunId, ThreadId}
use typemach.Run.Limits.{RuntimeLimits}
use typemach.Run.Request.{RunOutput, completed, interrupted as interrupted_output}
use typemach.Error.{
  Result, ok, err, ◌>>=◌, max_steps_exceeded, cancelled, step_timeout as step_timeout_error,
  run_timeout as run_timeout_error,
}
use typemach.Checkpoint.{CheckpointRecord}
use typemach.Checkpoint.Saver.{CheckpointSaver}
use typemach.Runner.Resume.{Request, restore_or_start, running_record, interrupted_record}
use typemach.Machine.{
  Machine, Transition, next, interrupt, complete, RunContext, Act, emits, returns, to_json,
}

-- What ends the wait for a transition. A timer that is not set never fires.
pub data Branch (limits : RuntimeLimits) : Type 0 where
  answers : Branch limits
  cancels : Branch limits
  step_timer : (timeout : ℕ) → limits.step_timeout ≡ some timeout → Branch limits
  run_timer : (timeout : ℕ) → limits.run_timeout ≡ some timeout → Branch limits

-- The loop's counter is a `u32`.
unfoldable pub u32 : ℕ → ℕ
u32 n = n % 2 ^ 32

module _ {V : Type 0} (M : Machine V) where
  abbrev pub MachineAct : Type 0
  MachineAct = Act M.State M.Signal (Transition M.Step M.Interrupt M.Output)

  abbrev pub Output : Type 0
  Output = RunOutput M.Output M.Interrupt V

  -- What a transition returns when nobody listens to its signals: `emit` answers `Ok(())`.
  unfoldable pub silent : MachineAct → Result (Transition M.Step M.Interrupt M.Output) × M.State
  silent (emits signal go) = silent (go (ok tt))
  silent (returns answer state) = (answer, state)

  -- `RunContext::new`, of what a transition reads.
  abbrev pub context : Bool → Request M → RunContext M.Input
  context is_streaming request = record {
    run_id = request.run_id;
    session_id = request.session_id;
    thread_id = request.thread_id;
    runtime_limits = request.runtime_limits;
    input = request.input;
    is_streaming = is_streaming;
  }

  -- `snapshot: state.to_json()?`, in an output.
  unfoldable pub with_snapshot : M.State → (V → Output) → Result (Output)
  with_snapshot state output = do snapshot ← to_json M state; ok (output snapshot)

module _ {V : Type 0} (M : Machine V) (CK : CheckpointSaver V) where
  -- What the rest of the program decides in one round: what the transition learns, what other tasks
  -- do with the saver meanwhile, and what ends the wait.
  pub record Turn (limits : RuntimeLimits) : Type 0 where
    pub choice : M.Choice
    pub meanwhile : CK.World → CK.World
    pub branch : Branch limits

  -- `self.checkpointer.save(…)` of a record that may have failed to serialise.
  unfoldable pub save_record :
      ThreadId → Result (CheckpointRecord V) → CK.World → Result (Unit {0}) × CK.World
  save_record thread_id (err e) w = (err e, w)
  save_record thread_id (ok checkpoint) w = CK.save thread_id checkpoint w

  unfoldable pub save_running :
      RunId → ThreadId → M.State → Option M.Step → CK.World → Result (Unit {0}) × CK.World
  save_running run_id thread_id state next_step =
      save_record thread_id (running_record M run_id state next_step)

  unfoldable pub save_interrupted :
      RunId → ThreadId → M.State → M.Step → M.Interrupt → CK.World → Result (Unit {0}) × CK.World
  save_interrupted run_id thread_id state step found =
      save_record thread_id (interrupted_record M run_id state step found)

  -- The variables of the loop, and the saver.
  pub record Position : Type 0 where
    pub step_count : ℕ
    pub current_step : M.Step
    pub state : M.State
    pub trace : List V
    pub world : CK.World

  pub data Round : Type 0 where
    stops : Result (Output M) → CK.World → Round
    goes : Position → Round

  unfoldable pub load_start : Request M → CK.World → Result (M.State × M.Step)
  load_start request w = do
    checkpoint ← CK.load request.thread_id w
    restore_or_start M request checkpoint

module _ {V : Type 0} {M : Machine V} {CK : CheckpointSaver V} where
  unfoldable pub transition_or_cancel :
      (request : Request M)
      → Turn M CK request.runtime_limits
      → M.Step
      → M.State
      → Result (Transition M.Step M.Interrupt M.Output) × M.State
  transition_or_cancel request turn step state = elim turn.branch [
    | answers ↦ silent M (M.transition turn.choice step state (context M false request))
    | cancels ↦ (err cancelled, state)
    | step_timer _ _ ↦ (err step_timeout_error, state)
    | run_timer _ _ ↦ (err run_timeout_error, state)
  ]

  unfoldable pub saved_next :
      Position M CK → M.Step → M.State → Result (Unit {0}) × CK.World → Round M CK
  saved_next p step state (err e, w) = stops (err e) w
  saved_next p step state (ok _, w) = goes (record p {
    current_step = step;
    state = state;
    trace = p.trace ++ M.trace_value p.current_step "next" ∷ [];
    world = w;
  })

  unfoldable pub saved_last : Result (Output M) → Result (Unit {0}) × CK.World → Round M CK
  saved_last output (err e, w) = stops (err e) w
  saved_last output (ok _, w) = stops output w

  -- The arms of the `match` on a transition's answer.
  unfoldable pub take_transition :
      Request M
      → Position M CK
      → M.State
      → CK.World
      → Transition M.Step M.Interrupt M.Output
      → Round M CK
  take_transition request p state w (next step) =
      saved_next p step state
        (save_running M CK request.run_id request.thread_id state (some step) w)
  take_transition request p state w (interrupt found) =
      saved_last (with_snapshot M state (interrupted_output found))
        (save_interrupted M CK request.run_id request.thread_id state p.current_step found w)
  take_transition request p state w (complete output) =
      saved_last
        (with_snapshot M state
          (completed (p.trace ++ M.trace_value p.current_step "complete" ∷ []) output))
        (save_running M CK request.run_id request.thread_id state none w)

  unfoldable pub take_answer :
      Request M
      → Position M CK
      → CK.World
      → Result (Transition M.Step M.Interrupt M.Output) × M.State
      → Round M CK
  take_answer request p w (err e, state) = stops (err e) w
  take_answer request p w (ok answer, state) = take_transition request p state w answer

  abbrev pub counted : Position M CK → Position M CK
  counted p = record p { step_count = u32 (p.step_count + 1) }

  -- One round of the loop.
  unfoldable pub round :
      (request : Request M) → Turn M CK request.runtime_limits → Position M CK → Round M CK
  round request turn p =
      if ltb request.runtime_limits.max_steps (u32 (p.step_count + 1))
      then stops (err (max_steps_exceeded request.runtime_limits.max_steps)) p.world
      else take_answer request (counted p) (turn.meanwhile p.world)
          (transition_or_cancel request turn p.current_step p.state)

  -- The loop, with fuel for so many rounds; the turns are numbered by the rounds.
  unfoldable pub run_loop :
      ℕ
      → (request : Request M) → (ℕ → Turn M CK request.runtime_limits)
      → Position M CK
      → Option (Result (Output M) × CK.World)
  run_loop zero request turns p = none
  run_loop (suc fuel) request turns p = elim (round request (turns 0) p) [
    | stops result w ↦ some (result, w)
    | goes p' ↦ run_loop fuel request (λ k. turns (suc k)) p'
  ]

  abbrev pub start_position : CK.World → M.State × M.Step → Position M CK
  start_position w (state, step) = record {
    step_count = 0;
    current_step = step;
    state = state;
    trace = [];
    world = w;
  }

  -- `invoke_inner`, once it has the thread's lock. `is_cancelled` is what the runner's set of
  -- cancelled runs says then.
  unfoldable pub invoke_inner :
      ℕ
      → (request : Request M) → Bool
      → (ℕ → Turn M CK request.runtime_limits)
      → CK.World
      → Option (Result (Output M) × CK.World)
  invoke_inner fuel request true turns w = some (err cancelled, w)
  invoke_inner fuel request false turns w = elim (load_start M CK request w) [
    | err e ↦ some (err e, w)
    | ok start ↦ run_loop fuel request turns (start_position w start)
  ]
