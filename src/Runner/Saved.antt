-- ===== src/Runner/Saved.antt =====
-- What the runner's saves are read back as, src/runner.rs.
use typemach.Base.{
  Bool-cases, if◌then◌else◌, Option, none, some, true, false, ◌≡◌, refl, ap, ◌∙◌, sym, inl, inr,
}
use typemach.Base.Eq.{◌=?◌, string_eq, option_eq, beq_refl}
use typemach.Run.{RunId, ThreadId}
use typemach.Run.Request.{is_resume}
use typemach.Error.{
  Result, ok, err, ◌>>=◌, >>=-eq-ok, Serde, written, failed, map_serialization,
  no_pending_interrupt,
}
use typemach.Checkpoint.{CheckpointRecord, running, interrupted}
use typemach.Checkpoint.Saver.{CheckpointSaver, Lawful}
use typemach.Machine.{Machine, to_json, from_json, ResumeAction, reenter_interrupted_step, jump_to}
use typemach.Runner.Resume.{
  Request, restore_or_start, running_record, interrupted_record, next_value, restore,
  continue_running, continued_step, resume_interrupted, resumed_step,
}
use typemach.Runner.Invoke.{save_record}

-- What serde promises of the machine's types: what it has written it reads back.
pub record Codecs {V : Type 0} (M : Machine V) : Type 0 where
  pub state_back : (a : M.State) (v : V) → M.state_value a ≡ written v → M.state_from v ≡ written a
  pub step_back : (a : M.Step) (v : V) → M.step_value a ≡ written v → M.step_from v ≡ written a
  pub interrupt_back :
      (a : M.Interrupt) (v : V) → M.interrupt_value a ≡ written v → M.interrupt_from v ≡ written a

ok-injective : {A : Type 0} {a b : A} → ok a ≡ ok b → a ≡ b
ok-injective h = cc

-- The step at which a resumed turn goes on.
abbrev pub entered : {Step : Type 0} → Step → ResumeAction Step → Step
entered step reenter_interrupted_step = step
entered step (jump_to other) = other

serialized : {A : Type 0} (x : Serde A) {a : A} → map_serialization x ≡ ok a → x ≡ written a
serialized (written b) h = cc
serialized (failed e) h = cc

module _ {V : Type 0} (M : Machine V) (CK : CheckpointSaver V) where
  pub save_record-saved :
      (thread : ThreadId) (r : Result (CheckpointRecord V)) (w w' : CK.World)
      → Lawful CK
      → save_record M CK thread r w ≡ (ok tt, w')
      → (checkpoint : CheckpointRecord V) × (r ≡ ok checkpoint)
        × (CK.load thread w' ≡ ok (some checkpoint))
  unfolding save_record
  save_record-saved thread (err e) w w' lawful h = absurd (cc)
  save_record-saved thread (ok checkpoint) w w' lawful h = (
    checkpoint,
    refl,
    ap (CK.load thread) (ap (λ x. x.1) (sym h))
        ∙ lawful.load-save thread checkpoint w (ap (λ x. x.0) h),
  )

module _ {V : Type 0} (M : Machine V) where
  running_record-written :
      (run_id : RunId) (state : M.State) (step : Option M.Step) (checkpoint : CheckpointRecord V)
      → running_record M run_id state step ≡ ok checkpoint
      → (value : V) × (raw : Option V) × (to_json M state ≡ ok value)
        × (next_value M step ≡ ok raw)
        × (checkpoint ≡ running value raw run_id)
  unfolding running_record
  running_record-written run_id state step checkpoint h =
      let (raw, next, rest) =
        >>=-eq-ok (next_value M step)
          (λ raw. to_json M state >>= λ value. ok (running value raw run_id)) h in
      let (value, made, same) =
        >>=-eq-ok (to_json M state) (λ value. ok (running value raw run_id)) rest in
      (value, raw, made, next, ok-injective (sym same))

  next_value-written :
      (step : M.Step) (raw : Option V)
      → next_value M (some step) ≡ ok raw
      → (value : V) × (raw ≡ some value) × (M.step_value step ≡ written value)
  unfolding next_value
  next_value-written step raw h =
      let (value, made, same) =
        >>=-eq-ok (map_serialization (M.step_value step)) (λ value. ok (some value)) h in
      (value, ok-injective (sym same), serialized (M.step_value step) made)

  interrupted_record-written :
      (run_id : RunId) (state : M.State) (step : M.Step) (found : M.Interrupt)
      (checkpoint : CheckpointRecord V)
      → interrupted_record M run_id state step found ≡ ok checkpoint
      → (value step_value interrupt_value : V) × (to_json M state ≡ ok value)
        × (M.step_value step ≡ written step_value)
        × (M.interrupt_value found ≡ written interrupt_value)
        × (checkpoint ≡ interrupted value step_value interrupt_value run_id)
  unfolding interrupted_record
  interrupted_record-written run_id state step found checkpoint h =
      let (s, made_s, rest) =
        >>=-eq-ok (map_serialization (M.step_value step))
          (λ s. map_serialization (M.interrupt_value found) >>= λ i.
            to_json M state >>= λ v. ok (interrupted v s i run_id))
          h in
      let (i, made_i, rest') =
        >>=-eq-ok (map_serialization (M.interrupt_value found))
          (λ i. to_json M state >>= λ v. ok (interrupted v s i run_id)) rest in
      let (v, made, same) =
        >>=-eq-ok (to_json M state) (λ v. ok (interrupted v s i run_id)) rest' in
      (
        v,
        s,
        i,
        made,
        serialized (M.step_value step) made_s,
        serialized (M.interrupt_value found) made_i,
        ok-injective (sym same),
      )

module _ {V : Type 0} {M : Machine V} (codecs : Codecs M) where
  from_json-back : (state : M.State) (v : V) → to_json M state ≡ ok v → from_json M v ≡ ok state
  unfolding to_json from_json
  from_json-back state v h =
      rw (codecs.state_back state v (serialized (M.state_value state) h)) refl

  -- A checkpoint between two steps: the same run continues at the step that was to come.
  restore-running :
      (again : Request M) (run_id : RunId) (state : M.State) (step : M.Step) (v s : V)
      → from_json M v ≡ ok state
      → M.step_from s ≡ written step
      → again.run_id ≡ run_id
      → is_resume again.command ≡ false
      → restore_or_start M again (some (running v (some s) run_id))
        ≡ (M.new_state again.input (some state) again.snapshot >>= λ a. ok (a, step))
  unfolding restore_or_start running restore continue_running continued_step
  restore-running again run_id state step v s back step_back same starts =
      rw (back, starts, same, beq_refl (some run_id), step_back) refl

  pub restore-next :
      (again : Request M) (run_id : RunId) (state : M.State) (step : M.Step)
      (checkpoint : CheckpointRecord V)
      → running_record M run_id state (some step) ≡ ok checkpoint
      → again.run_id ≡ run_id
      → is_resume again.command ≡ false
      → restore_or_start M again (some checkpoint)
        ≡ (M.new_state again.input (some state) again.snapshot >>= λ a. ok (a, step))
  restore-next again run_id state step checkpoint h same starts =
      let (v, raw, made, next, is) =
        running_record-written M run_id state (some step) checkpoint h in
      let (s, is_raw, made_s) = next_value-written M step raw next in
      rw (is, is_raw)
        (restore-running again run_id state step v s (from_json-back state v made)
          (codecs.step_back step s made_s) same starts)

  continued_step-none :
      (again : Request M) (run_id : RunId) (v : V)
      → continued_step M again (running v none run_id) ≡ ok M.start_step
  unfolding continued_step running
  continued_step-none again run_id v = elim (Bool-cases (some run_id =? some again.run_id)) [
    | inl own ↦ rw own refl
    | inr other ↦ rw other refl
  ]

  restore-ended :
      (again : Request M) (run_id : RunId) (state : M.State) (v : V)
      → from_json M v ≡ ok state
      → restore_or_start M again (some (running v none run_id)) ≡ (
          if is_resume again.command
          then err no_pending_interrupt
          else M.new_state again.input (some state) again.snapshot >>= λ a. ok (a, M.start_step))
  unfolding restore_or_start restore continue_running running
  restore-ended again run_id state v back = elim (Bool-cases (is_resume again.command)) [
    | inl resumes ↦ rw (back, resumes) refl
    | inr starts ↦ rw (back, starts, continued_step-none again run_id v) refl
  ]

  -- A checkpoint after the last step: the next turn starts from the first step, with the state as
  -- the previous one.
  pub restore-done :
      (again : Request M) (run_id : RunId) (state : M.State) (checkpoint : CheckpointRecord V)
      → running_record M run_id state none ≡ ok checkpoint
      → restore_or_start M again (some checkpoint) ≡ (
          if is_resume again.command
          then err no_pending_interrupt
          else M.new_state again.input (some state) again.snapshot >>= λ a. ok (a, M.start_step))
  unfolding next_value
  restore-done again run_id state checkpoint h =
      let (v, raw, made, next, is) = running_record-written M run_id state none checkpoint h in
      let is_raw : raw ≡ none = ok-injective (sym next) in
      rw (is, is_raw) (restore-ended again run_id state v (from_json-back state v made))

  resumed_step-entered :
      (action : ResumeAction M.Step) (step : M.Step) (v s i : V) (run_id : RunId)
      → M.step_from s ≡ written step
      → resumed_step M (interrupted v s i run_id) action ≡ ok (entered step action)
  unfolding resumed_step interrupted
  resumed_step-entered reenter_interrupted_step step v s i run_id back = rw back refl
  resumed_step-entered (jump_to other) step v s i run_id back = refl

  resume-entered :
      (again : Request M) (run_id : RunId) (state : M.State) (step : M.Step) (found : M.Interrupt)
      (v s i : V)
      → from_json M v ≡ ok state
      → M.step_from s ≡ written step
      → M.interrupt_from i ≡ written found
      → is_resume again.command ≡ true
      → restore_or_start M again (some (interrupted v s i run_id)) ≡ (
          M.apply_resume_input state again.input >>= λ a.
          ok (a, entered step (M.resume_action found)))
  unfolding restore_or_start restore resume_interrupted interrupted
  resume-entered again run_id state step found v s i back back_s back_i resumes =
      rw
        (
          back,
          resumes,
          back_i,
          resumed_step-entered (M.resume_action found) step v s i run_id back_s,
        )
        refl

  -- An interrupted checkpoint, resumed.
  pub restore-interrupted :
      (again : Request M) (run_id : RunId) (state : M.State) (step : M.Step) (found : M.Interrupt)
      (checkpoint : CheckpointRecord V)
      → interrupted_record M run_id state step found ≡ ok checkpoint
      → is_resume again.command ≡ true
      → restore_or_start M again (some checkpoint) ≡ (
          M.apply_resume_input state again.input >>= λ a.
          ok (a, entered step (M.resume_action found)))
  restore-interrupted again run_id state step found checkpoint h resumes =
      let (v, s, i, made, made_s, made_i, is) =
        interrupted_record-written M run_id state step found checkpoint h in
      rw is (
        resume-entered again run_id state step found v s i (from_json-back state v made)
          (codecs.step_back step s made_s) (codecs.interrupt_back found i made_i) resumes)
