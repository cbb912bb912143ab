-- ===== src/Memory/Durable.antt =====
-- What later readers find of a commit, src/store/memory.rs.
use typemach.Base.{
  Option, none, some, true, false, List, ◌++◌, ◌≡◌, refl, sym, ◌∙◌, ap, inl, inr, Option-cases,
}
use typemach.Base.Eq.{string_eq}
use typemach.Base.Map.{get, get-insert_self}
use typemach.Params.{Params}
use typemach.Store.{RunCommit, RunFinish, CheckpointWrite, is_terminal}
use typemach.Memory.State.{Inner, MemoryRun, Clock}
use typemach.Memory.Validate.{validate_finish}
use typemach.Memory.Start.{insert_run}
use typemach.Memory.Commit.{
  commit_run, write_events, append_events, end_run, ended_run, write_checkpoint,
}
use typemach.Memory.Queries.{load_checkpoint}
use typemach.Memory.Checked.{
  CommitChecked-of_ok, written, commit_write_lem, written-Frame, ShapeOk, ShapeOk-of_ok,
  FinishOk-of_ok,
}
use typemach.Memory.Cases.Commit.{commit_cases, wrote}
use typemach.Memory.Calls.{Call, run_calls}
use typemach.Memory.Grows.Calls.{run_calls-Grows}

module _ {P : Params} where
  -- The run goes on as it was, or has ended as the commit says, and holds no lease any more.
  abbrev pub Ends : Option (RunFinish P) → MemoryRun P → MemoryRun P → Type 0
  Ends none before after = (after.status ≡ before.status) × (after.lease ≡ before.lease)
  Ends (some finish) before after =
      (after.status ≡ finish.status)
      × (after.finish_reason ≡ some finish.finish_reason)
      × (after.finish_data ≡ some finish.finish_data)
      × (after.lease ≡ none)

  -- The log of a commit's run and its end, and the checkpoints.
  pub record Wrote (c : RunCommit P) (s t : Inner P) : Type 0 where
    pub before : MemoryRun P
    pub after : MemoryRun P
    pub found : get c.run_id s.runs ≡ some before
    pub found_after : get c.run_id t.runs ≡ some after
    pub still_open : is_terminal before.status ≡ false
    pub events : after.events ≡ before.events ++ c.events
    pub start : after.start ≡ before.start
    pub ends : Ends c.finish before after
    pub checkpoints : t.checkpoints ≡ (write_checkpoint c.checkpoint s).checkpoints

  write_events-Wrote :
      (c : RunCommit P) (run : MemoryRun P) (s u : Inner P)
      → get c.run_id s.runs ≡ some run
      → is_terminal run.status ≡ false
      → u.checkpoints ≡ (write_checkpoint c.checkpoint s).checkpoints
      → ShapeOk c
      → Wrote c s (write_events c run u).1
  unfolding write_events end_run insert_run append_events ended_run
  write_events-Wrote c run s u found live same shape =
      let q = append_events c.events run in
      elim (Option-cases c.finish) [
        | inl open_still ↦
            rw (open_still, write_events)
              (record {
                before = run;
                after = q;
                found = found;
                found_after = get-insert_self c.run_id q u.runs;
                still_open = live;
                events = refl;
                start = refl;
                ends = (refl, refl);
                checkpoints = same;
              })
        | inr (finish, ends) ↦
            let (event, f) =
              FinishOk-of_ok c finish (sym (ap (validate_finish c) ends) ∙ shape.finish) in
            let r = ended_run finish event q in
            rw (ends, write_events, f.last_event)
              (record {
                before = run;
                after = r;
                found = found;
                found_after = get-insert_self c.run_id r u.runs;
                still_open = live;
                events = refl;
                start = refl;
                ends = (refl, refl, refl, refl);
                checkpoints = same;
              })
      ]

  pub commit_run-Wrote :
      (clock : Clock) (c : RunCommit P) (s : Inner P)
      → wrote (commit_run clock c s).0 ≡ true
      → Wrote c s (commit_run clock c s).1
  commit_run-Wrote clock c s =
      commit_cases clock c s (λ x. wrote x.0 ≡ true → Wrote c s x.1) (λ r no h. absurd (cc))
        λ scope run passes h.
          let checked = CommitChecked-of_ok clock c run s passes.checked in
          rw (commit_write_lem clock scope c run s checked.effects) (
            write_events-Wrote c run s (written clock scope c run s) passes.found passes.still_open
              (written-Frame clock scope c run s).checkpoints (ShapeOk-of_ok c passes.shape))

  -- The events of a commit that was written stand in its run's log from then on, right after those
  -- that were there, whatever calls follow.
  pub commit_run-log :
      (clock : Clock) (c : RunCommit P) (calls : List (Clock × Call P)) (s : Inner P)
      → wrote (commit_run clock c s).0 ≡ true
      → (before later : MemoryRun P) × (get c.run_id s.runs ≡ some before)
        × (get c.run_id (run_calls calls (commit_run clock c s).1).runs ≡ some later)
        × (more : List P.Event) × (later.events ≡ (before.events ++ c.events) ++ more)
  commit_run-log clock c calls s h =
      let w = commit_run-Wrote clock c s h in
      let (later, found, grows) =
        (run_calls-Grows calls (commit_run clock c s).1).runs _ _ w.found_after in
      (
        w.before,
        later,
        w.found,
        found,
        grows.events.0,
        grows.events.1 ∙ ap (λ x. x ++ grows.events.0) w.events,
      )

  -- The checkpoint of a commit that was written is what its thread then loads.
  pub commit_run-checkpoint :
      (clock : Clock) (c : RunCommit P) (s : Inner P) (w : CheckpointWrite P.Value)
      → c.checkpoint ≡ some w
      → wrote (commit_run clock c s).0 ≡ true
      → load_checkpoint w.thread_id (commit_run clock c s).1 ≡ some w.checkpoint
  unfolding load_checkpoint write_checkpoint
  commit_run-checkpoint clock c s w has h =
      let done = commit_run-Wrote clock c s h in
      ap (get w.thread_id) done.checkpoints
      ∙ rw has (get-insert_self w.thread_id w.checkpoint s.checkpoints)
