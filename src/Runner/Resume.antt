-- ===== src/Runner/Resume.antt =====
-- src/runner.rs: where a turn starts, and the records that it saves.
use typemach.Base.{String, Option, none, some, if◌then◌else◌}
use typemach.Base.Eq.{◌=?◌, string_eq, option_eq}
use typemach.Run.{RunId}
use typemach.Run.Request.{RunRequest, is_resume}
use typemach.Error.{
  Result, ok, err, ◌>>=◌, ◌>>◌, fail_if, ok_or, Serde, written, failed, map_serialization,
  MachineError, no_pending_interrupt, no_interrupted_step, invalid_interrupt, invalid_step,
}
use typemach.Checkpoint.{CheckpointRecord, running, interrupted}
use typemach.Machine.{Machine, ResumeAction, reenter_interrupted_step, jump_to, to_json, from_json}

-- `map_err(|err| MachineError::Invalid… { reason: err.to_string() })`.
abbrev pub map_reason : {A : Type 0} → (String → MachineError) → Serde A → Result A
map_reason reason (written a) = ok a
map_reason reason (failed e) = err (reason e)

module _ {V : Type 0} (M : Machine V) where
  abbrev pub Request : Type 0
  Request = RunRequest M.Input V

  unfoldable pub fresh_start : Request → Option M.State → Result (M.State × M.Step)
  fresh_start request previous = do
    state ← M.new_state request.input previous request.snapshot
    ok (state, M.start_step)

  unfoldable pub resumed_step : CheckpointRecord V → ResumeAction M.Step → Result M.Step
  resumed_step checkpoint (jump_to step) = ok step
  resumed_step checkpoint reenter_interrupted_step = do
    raw_step ← ok_or checkpoint.interrupted_step no_interrupted_step
    map_reason invalid_step (M.step_from raw_step)

  unfoldable pub resume_interrupted :
      Request → CheckpointRecord V → M.State → V → Result (M.State × M.Step)
  resume_interrupted request checkpoint previous raw_interrupt = do
    found ← map_reason invalid_interrupt (M.interrupt_from raw_interrupt)
    state ← M.apply_resume_input previous request.input
    step ← resumed_step checkpoint (M.resume_action found)
    ok (state, step)

  -- The step of a checkpoint that is not interrupted: the saved one, if the same run saved it.
  unfoldable pub continued_step : Request → CheckpointRecord V → Result M.Step
  continued_step request checkpoint =
      if checkpoint.run_id =? some request.run_id
      then elim checkpoint.next_step [
        | some raw_step ↦ map_reason invalid_step (M.step_from raw_step)
        | none ↦ ok M.start_step
      ]
      else ok M.start_step

  unfoldable pub continue_running :
      Request → CheckpointRecord V → M.State → Result (M.State × M.Step)
  continue_running request checkpoint previous = do
    fail_if (is_resume request.command) no_pending_interrupt
    state ← M.new_state request.input (some previous) request.snapshot
    step ← continued_step request checkpoint
    ok (state, step)

  unfoldable pub restore : Request → CheckpointRecord V → M.State → Result (M.State × M.Step)
  restore request checkpoint previous = elim checkpoint.interrupt [
    | none ↦ continue_running request checkpoint previous
    | some raw_interrupt ↦
        if is_resume request.command
        then resume_interrupted request checkpoint previous raw_interrupt
        else fresh_start request (some previous)
  ]

  unfoldable pub restore_or_start :
      Request → Option (CheckpointRecord V) → Result (M.State × M.Step)
  restore_or_start request none = do
    fail_if (is_resume request.command) no_pending_interrupt
    fresh_start request none
  restore_or_start request (some checkpoint) = do
    previous ← from_json M checkpoint.state
    restore request checkpoint previous

  -- `next_step.map(serde_json::to_value).transpose()`.
  unfoldable pub next_value : Option M.Step → Result (Option V)
  next_value none = ok none
  next_value (some step) = do value ← map_serialization (M.step_value step); ok (some value)

  unfoldable pub running_record : RunId → M.State → Option M.Step → Result (CheckpointRecord V)
  running_record run_id state next_step = do
    step ← next_value next_step
    value ← to_json M state
    ok (running value step run_id)

  unfoldable pub interrupted_record :
      RunId → M.State → M.Step → M.Interrupt → Result (CheckpointRecord V)
  interrupted_record run_id state step found = do
    step_value ← map_serialization (M.step_value step)
    interrupt_value ← map_serialization (M.interrupt_value found)
    value ← to_json M state
    ok (interrupted value step_value interrupt_value run_id)
