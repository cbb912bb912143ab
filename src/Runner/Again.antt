-- ===== src/Runner/Again.antt =====
-- Where the turn after a turn goes on, src/runner.rs, for a machine whose serde reads back what it has
-- written (`Codecs`) and a saver that loads what it has saved last (`Lawful`), as `MemorySaver` does.
-- `TxSaver` of src/runtime/tx.rs is not such a saver: it only queues what it saves, and loads from the
-- store.
use mathlib.Core.Path.{subst}
use typemach.Base.{
  ℕ, if◌then◌else◌, none, some, Bool, true, false, List, ◌≡◌, refl, ap, ◌∙◌, inl, inr,
}
use typemach.Run.Request.{is_resume, completed, interrupted}
use typemach.Error.{Result, ok, err, ◌>>=◌, Result-cases, no_pending_interrupt}
use typemach.Checkpoint.{CheckpointRecord}
use typemach.Checkpoint.Saver.{CheckpointSaver, Lawful}
use typemach.Machine.{Machine, to_json}
use typemach.Machine
use typemach.Runner.Resume.{Request, restore_or_start, running_record, interrupted_record}
use typemach.Runner.Invoke.{
  Position, Turn, Round, Output, stops, goes, round, invoke_inner, load_start, start_position,
  save_running, save_interrupted, transition_or_cancel,
}
use typemach.Runner.Rounds.{
  round_cases, goes-injective, run_loop-last, with_snapshot-eq-ok, Goes, Interrupts, Completes,
}
use typemach.Runner.Saved.{
  Codecs, entered, save_record-saved, restore-next, restore-done, restore-interrupted,
}

module _ {V : Type 0} {M : Machine V} {CK : CheckpointSaver V} where
  stops-parts :
      {r r' : Result (Output M)} {w w' : CK.World}
      → ◌≡◌ {A = Round M CK} (stops r w) (stops r' w')
      → (r ≡ r') × (w ≡ w')
  stops-parts h = (cc, cc)

module _ {V : Type 0} {M : Machine V} {CK : CheckpointSaver V} (codecs : Codecs M)
    (lawful : Lawful CK) where
  load-saved :
      (again : Request M) (w : CK.World) (checkpoint : CheckpointRecord V)
      → CK.load again.thread_id w ≡ ok (some checkpoint)
      → load_start M CK again w ≡ restore_or_start M again (some checkpoint)
  unfolding load_start
  load-saved again w checkpoint loaded = rw loaded refl

  -- What a round that goes on leaves behind, for a start of the same run on the same thread.
  load-next :
      (request again : Request M) (turn : Turn M CK request.runtime_limits) (p : Position M CK)
      (step : M.Step) (state : M.State) (w : CK.World)
      → Goes request turn p step state w
      → again.thread_id ≡ request.thread_id
      → again.run_id ≡ request.run_id
      → is_resume again.command ≡ false
      → load_start M CK again w
        ≡ (M.new_state again.input (some state) again.snapshot >>= λ a. ok (a, step))
  unfolding save_running
  load-next request again turn p step state w g thread run starts =
      let (checkpoint, made, loaded) =
        save_record-saved M CK request.thread_id (running_record M request.run_id state (some step))
          (turn.meanwhile p.world) w lawful g.saved in
      load-saved again w checkpoint (ap (λ t. CK.load t w) thread ∙ loaded)
      ∙ restore-next codecs again request.run_id state step checkpoint made run starts

  -- For a machine with lawful codecs and a saver that loads what it has saved last, a crash between
  -- two steps loses nothing: after a round that goes on, whatever comes of the turn later, a start of
  -- the same run on the same thread takes the saved state as its previous one and continues at the
  -- very step that was to come next.
  pub round-resumes :
      (request again : Request M) (turn : Turn M CK request.runtime_limits) (p q : Position M CK)
      → round request turn p ≡ goes q
      → again.thread_id ≡ request.thread_id
      → again.run_id ≡ request.run_id
      → is_resume again.command ≡ false
      → load_start M CK again q.world
        ≡ (M.new_state again.input (some q.state) again.snapshot >>= λ a. ok (a, q.current_step))
  round-resumes request again turn p q go thread run starts =
      round_cases request turn p
        (λ x.
          x ≡ goes q
          → load_start M CK again q.world ≡ (
              M.new_state again.input (some q.state) again.snapshot >>= λ a.
              ok (a, q.current_step)))
        (λ e w h. cc)
        (λ step state w g h.
          subst
            (λ r. load_start M CK again r.world ≡ (
              M.new_state again.input (some r.state) again.snapshot >>= λ a.
              ok (a, r.current_step)))
            (goes-injective h) (load-next request again turn p step state w g thread run starts))
        (λ found state w stop h. cc) (λ output state w done h. cc) go

  load-interrupted :
      (request again : Request M) (turn : Turn M CK request.runtime_limits) (p : Position M CK)
      (found : M.Interrupt) (state : M.State) (w : CK.World)
      → Interrupts request turn p found state w
      → again.thread_id ≡ request.thread_id
      → is_resume again.command ≡ true
      → load_start M CK again w ≡ (
          M.apply_resume_input state again.input >>= λ a.
          ok (a, entered p.current_step (M.resume_action found)))
  unfolding save_interrupted
  load-interrupted request again turn p found state w stop thread resumes =
      let (checkpoint, made, loaded) =
        save_record-saved M CK request.thread_id
          (interrupted_record M request.run_id state p.current_step found) (turn.meanwhile p.world)
          w lawful stop.saved in
      load-saved again w checkpoint (ap (λ t. CK.load t w) thread ∙ loaded)
      ∙ restore-interrupted codecs again request.run_id state p.current_step found checkpoint made
          resumes

  load-done :
      (request again : Request M) (turn : Turn M CK request.runtime_limits) (p : Position M CK)
      (output : M.Output) (state : M.State) (w : CK.World)
      → Completes request turn p output state w
      → again.thread_id ≡ request.thread_id
      → load_start M CK again w ≡ (
          if is_resume again.command
          then err no_pending_interrupt
          else M.new_state again.input (some state) again.snapshot >>= λ a. ok (a, M.start_step))
  unfolding save_running
  load-done request again turn p output state w done thread =
      let (checkpoint, made, loaded) =
        save_record-saved M CK request.thread_id (running_record M request.run_id state none)
          (turn.meanwhile p.world) w lawful done.saved in
      load-saved again w checkpoint (ap (λ t. CK.load t w) thread ∙ loaded)
      ∙ restore-done codecs again request.run_id state checkpoint made

  -- The machine's last answer in a turn that was interrupted, and where `again` goes on.
  pub record Interrupted (request again : Request M) (found : M.Interrupt) (snapshot : V)
      (w : CK.World) : Type 0 where
    pub turn : Turn M CK request.runtime_limits
    pub from : Position M CK
    pub state : M.State
    pub answer :
        transition_or_cancel request turn from.current_step from.state
        ≡ (ok (Machine.Transition.interrupt found), state)
    pub shown : to_json M state ≡ ok snapshot
    pub resumes : load_start M CK again w ≡ (
        M.apply_resume_input state again.input >>= λ a.
        ok (a, entered from.current_step (M.resume_action found)))

  -- The state in which a turn completed, and where `again` goes on.
  pub record Completed (request again : Request M) (snapshot : V) (w : CK.World) : Type 0 where
    pub state : M.State
    pub shown : to_json M state ≡ ok snapshot
    pub restarts : load_start M CK again w ≡ (
        if is_resume again.command
        then err no_pending_interrupt
        else M.new_state again.input (some state) again.snapshot >>= λ a. ok (a, M.start_step))

  stopped_interrupted :
      (request again : Request M) (turn : Turn M CK request.runtime_limits) (p : Position M CK)
      (found : M.Interrupt) (snapshot : V) (w : CK.World)
      → again.thread_id ≡ request.thread_id
      → is_resume again.command ≡ true
      → round request turn p ≡ stops (ok (interrupted found snapshot)) w
      → Interrupted request again found snapshot w
  stopped_interrupted request again turn p found snapshot w thread resumes =
      round_cases request turn p
        (λ x.
          x ≡ stops (ok (interrupted found snapshot)) w
          → Interrupted request again found snapshot w)
        (λ e w' h. absurd (cc)) (λ step state w' g h. absurd (cc))
        (λ other state w' stop h.
          let (is_result, is_world) = stops-parts h in
          let (shot, shown, same) = with_snapshot-eq-ok M state (interrupted other) is_result in
          let is : other ≡ found = cc in
          let is_shot : shot ≡ snapshot = cc in
          record {
            turn = turn;
            from = p;
            state = state;
            answer = rw (← is) stop.answer;
            shown = rw (← is_shot) shown;
            resumes =
                rw (← is, ← is_world)
                  (load-interrupted request again turn p other state w' stop thread resumes);
          })
        λ output state w' done h.
          let (_, _, same) = with_snapshot-eq-ok M state (completed _ output) (stops-parts h).0 in
          absurd (cc)

  stopped_completed :
      (request again : Request M) (turn : Turn M CK request.runtime_limits) (p : Position M CK)
      (trace : List V) (output : M.Output) (snapshot : V) (w : CK.World)
      → again.thread_id ≡ request.thread_id
      → round request turn p ≡ stops (ok (completed trace output snapshot)) w
      → Completed request again snapshot w
  stopped_completed request again turn p trace output snapshot w thread =
      round_cases request turn p
        (λ x.
          x ≡ stops (ok (completed trace output snapshot)) w → Completed request again snapshot w)
        (λ e w' h. absurd (cc)) (λ step state w' g h. absurd (cc))
        (λ other state w' stop h.
          let (_, _, same) = with_snapshot-eq-ok M state (interrupted other) (stops-parts h).0 in
          absurd (cc))
        λ made state w' done h.
          let (is_result, is_world) = stops-parts h in
          let (shot, shown, same) = with_snapshot-eq-ok M state (completed _ made) is_result in
          let is_shot : shot ≡ snapshot = cc in
          record {
            state = state;
            shown = rw (← is_shot) shown;
            restarts = rw (← is_world) (load-done request again turn p made state w' done thread);
          }

  -- For a machine with lawful codecs and a saver that loads what it has saved last: after a turn that
  -- was interrupted, a resume on the same thread lets the machine apply its input to
  -- the state that the interrupt left, the one that the snapshot shows, and goes on at the step that
  -- interrupted, or at the one that `resume_action` jumps to.
  pub invoke_inner-interrupted :
      (fuel : ℕ) (request again : Request M) (is_cancelled : Bool)
      (turns : ℕ → Turn M CK request.runtime_limits) (w w' : CK.World) (found : M.Interrupt)
      (snapshot : V)
      → invoke_inner fuel request is_cancelled turns w ≡ some (ok (interrupted found snapshot), w')
      → again.thread_id ≡ request.thread_id
      → is_resume again.command ≡ true
      → Interrupted request again found snapshot w'
  unfolding invoke_inner
  invoke_inner-interrupted fuel request again true turns w w' found snapshot h thread resumes =
      absurd (cc)
  invoke_inner-interrupted fuel request again false turns w w' found snapshot h thread resumes =
      elim (Result-cases (load_start M CK request w)) [
        | inl (e, failed) ↦ absurd (cc (rw (failed, invoke_inner) at h))
        | inr (start, loaded) ↦
            let final =
              run_loop-last request (λ _. Unit {0}) (λ turn p q _ go. tt) fuel turns
                (start_position w start) tt (ok (interrupted found snapshot)) w'
                (rw (loaded, invoke_inner) at h) in
            stopped_interrupted request again final.turn final.from found snapshot w' thread resumes
              final.stop
      ]

  -- For a machine with lawful codecs and a saver that loads what it has saved last: after a turn that
  -- completed, a start on the same thread begins at the machine's first step and
  -- hands it the state in which the turn completed, the one that the snapshot shows; a resume is
  -- refused.
  pub invoke_inner-completed :
      (fuel : ℕ) (request again : Request M) (is_cancelled : Bool)
      (turns : ℕ → Turn M CK request.runtime_limits) (w w' : CK.World) (trace : List V)
      (output : M.Output) (snapshot : V)
      → invoke_inner fuel request is_cancelled turns w
        ≡ some (ok (completed trace output snapshot), w')
      → again.thread_id ≡ request.thread_id
      → Completed request again snapshot w'
  unfolding invoke_inner
  invoke_inner-completed fuel request again true turns w w' trace output snapshot h thread =
      absurd (cc)
  invoke_inner-completed fuel request again false turns w w' trace output snapshot h thread =
      elim (Result-cases (load_start M CK request w)) [
        | inl (e, failed) ↦ absurd (cc (rw (failed, invoke_inner) at h))
        | inr (start, loaded) ↦
            let final =
              run_loop-last request (λ _. Unit {0}) (λ turn p q _ go. tt) fuel turns
                (start_position w start) tt (ok (completed trace output snapshot)) w'
                (rw (loaded, invoke_inner) at h) in
            stopped_completed request again final.turn final.from trace output snapshot w' thread
              final.stop
      ]
