-- ===== src/Memory/Valid/Calls.antt =====
-- The calls but the start, and well-formed stores.
use typemach.Base.{
  ℕ, String, Option, none, some, true, false, List, [], ◌∷◌, ◌≡◌, refl, sym, ◌∙◌, inl, inr,
  Bool-cases, Option-cases, leb, length, arith, ap, ◌+◌,
}
use typemach.Base.Int.{ℤ}
use typemach.Base.Eq.{string_eq}
use typemach.Base.Map.{get, insert-cases}
use typemach.Run.{RunId, LeaseId}
use typemach.Error.{Result-cases}
use typemach.Params.{Params}
use typemach.Store.{is_terminal, Lease, RunFinishRecord, RunCommit, RunLookup}
use typemach.Memory.State.{Inner, MemoryRun, Clock, now_ms, run_lookup}
use typemach.Memory.Validate.{validate_finish}
use typemach.Memory.Ops.{apply_entries}
use typemach.Memory.Start.{insert_run}
use typemach.Memory.Finish.{
  finish_run, finish_write, record_event, mark_cancelled, push_event, finished_run,
}
use typemach.Memory.Commit.{commit_run, write_events, end_run, ended_run, append_events}
use typemach.Memory.Effects.{reserve_effect, start_effect}
use typemach.Memory.Leases.{
  renew, release, reap_one, reap_ids, reap_run, push_lookup, renewed_run, run_renewable, is_stale,
  held_by, next_event_seq, reaped_run,
}
use typemach.Memory.Frame.{apply_entries-Frame}
use typemach.Memory.Checked.{
  CommitChecked-of_ok, written, commit_write_lem, written-SameRuns, ShapeOk, ShapeOk-of_ok,
  FinishOk-of_ok, validate_finish-none,
}
use typemach.Memory.Cases.Finish.{finish_cases, record_cases, cancel_cases}
use typemach.Memory.Cases.Commit.{commit_cases}
use typemach.Memory.Cases.Effects.{reserve_cases, start_effect_cases}
use typemach.Memory.Cases.Leases.{renew_cases, release_cases, reap_one_cases, renewed, released}
use typemach.Memory.Valid.{Valid}
use typemach.Memory.Valid.Checks.{FinishFits-of_passes, RecordFits-of_ok, CommitFits-of_passes}
use typemach.Memory.Valid.Puts.{
  Valid-kept, Valid-Frame, runs-put, unleased_of, Valid-unleased, Valid-same, live_of_running,
  Valid-clear,
}
use typemach.Memory.Valid.Runs.{
  RunValid-same, Fits, RunValid-append, RunValid-end, HasRoom, reaped_run-RunValid,
}
use typemach.Memory.Valid.Leases.{Exclusive-put, LeasesValid-renew}

module _ {P : Params} where
  pub finish_run-Valid :
      (clock : Clock) (finish : RunFinishRecord P) (s : Inner P)
      → Valid s
      → Valid (finish_run clock finish s).1
  unfolding finish_write finished_run insert_run
  finish_run-Valid clock finish s v =
      finish_cases clock finish s (λ x. Valid x.1) (λ r _. v)
        λ scope run passes.
          let t =
            apply_entries (now_ms clock 0) scope finish.run_id finish.session_id run.start.thread_id
              finish.entries s in
          let frame =
            apply_entries-Frame (now_ms clock 0) scope finish.run_id finish.session_id
              run.start.thread_id finish.entries s in
          let f = FinishFits-of_passes finish s scope run passes in
          let event = finish.terminal_event in
          Valid-unleased t (finish_write clock scope finish run s) finish.run_id run
            (finished_run finish run) refl refl (rw frame.same.runs passes.found) refl f.unleased
            refl passes.still_open
            (RunValid-end finish.run_id run (finished_run finish run) (event ∷ []) event refl refl
              f.status refl refl refl f.terminal refl f.fits (v.runs _ run passes.found))
            (Valid-Frame s t frame v)

  pub record_event-Valid :
      (run_id : RunId) (scope : P.Scope) (event : P.Event) (s : Inner P)
      → Valid s
      → Valid (record_event run_id scope event s).1
  unfolding push_event insert_run
  record_event-Valid run_id scope event s v =
      record_cases run_id scope event s (λ x. Valid x.1) (λ r. v)
        λ run shape found live checked.
          let f = RecordFits-of_ok run_id event run shape live checked in
          Valid-unleased s (insert_run run_id (push_event event run) s) run_id run
            (push_event event run) refl refl found refl f.unleased f.unleased live
            (RunValid-append run_id run (push_event event run) (event ∷ []) refl refl refl
              (rw f.not_terminal refl) f.fits (v.runs _ run found))
            v

  pub mark_cancelled-Valid :
      (run_id : RunId) (scope : P.Scope) (s : Inner P)
      → Valid s
      → Valid (mark_cancelled run_id scope s).1
  unfolding insert_run
  mark_cancelled-Valid run_id scope s v =
      cancel_cases run_id scope s (λ x. Valid x.1) (λ r. v)
        λ run found.
          let q : MemoryRun P = record run { cancel_requested = true } in
          Valid-same s (insert_run run_id q s) run_id run q refl refl found refl refl refl
            (RunValid-same run_id run q refl refl refl refl (unleased_of s run_id run v found)
              (v.runs _ run found))
            v

  pub reserve_effect-Valid :
      (clock : Clock) (run_id : RunId) (scope : P.Scope) (lease : Option LeaseId)
      (key kind : String) (request : P.Value) (s : Inner P)
      → Valid s
      → Valid (reserve_effect clock run_id scope lease key kind request s).1
  reserve_effect-Valid clock run_id scope lease key kind request s v =
      reserve_cases clock run_id scope lease key kind request s (λ x. Valid x.1) (λ e. v)
        (λ old found same. v) λ run admitted fresh. Valid-kept s _ refl refl v

  pub start_effect-Valid :
      (clock : Clock) (run_id : RunId) (scope : P.Scope) (lease : Option LeaseId) (key : String)
      (s : Inner P)
      → Valid s
      → Valid (start_effect clock run_id scope lease key s).1
  start_effect-Valid clock run_id scope lease key s v =
      start_effect_cases clock run_id scope lease key s (λ x. Valid x.1) (λ e. v)
        (λ old found same. v) λ run old admitted found idle fresh. Valid-kept s _ refl refl v

  pub renew-Valid :
      (clock : Clock) (lease : Lease) (ttl : ℕ) (s : Inner P)
      → Valid s
      → Valid (renew clock lease ttl s).1
  unfolding renewed renewed_run run_renewable
  renew-Valid clock lease ttl s v =
      renew_cases clock lease ttl s (λ x. Valid x.1) v
        λ run active thread passes.
          let t = renewed clock lease ttl run active thread s in
          let until = clock.instant 2 + ttl in
          let q = renewed_run until run active in
          let live = live_of_running run (ground (arith, passes.renewable)) in
          let held : thread.run ≡ lease.run =
            ground (arith, passes.held, (string_eq.beq_iff thread.run lease.run).0) in
          record {
            runs =
                runs-put s t lease.run q refl
                  (RunValid-same lease.run run q refl refl refl refl
                    (λ over. absurd (cc (over, live))) (v.runs _ run passes.found))
                  v;
            exclusive =
                Exclusive-put s t lease.run run q refl passes.found refl (λ h. h) v.exclusive;
            leases =
                LeasesValid-renew s t lease.run run q refl passes.found refl thread
                  (record thread { until = until }) active (record active { until = until })
                  passes.claimed refl held refl refl refl passes.leased refl refl refl refl
                  v.leases;
          }

  pub release-Valid : (lease : Lease) (s : Inner P) → Valid s → Valid (release lease s).1
  unfolding released held_by
  release-Valid lease s v =
      release_cases lease s (λ x. Valid x.1) (λ free. v)
        λ run found held.
          let q : MemoryRun P = record run { lease = none } in
          elim (Bool-cases (is_terminal run.status)) [
            | inl over ↦
                let free = unleased_of s lease.run run v found over in absurd (cc (rw free at held))
            | inr live ↦
                Valid-clear s (released lease run s) lease.run run q refl refl found refl refl live
                  (RunValid-same lease.run run q refl refl refl refl (λ _. refl)
                    (v.runs _ run found))
                  v
          ]

  -- Every log has a number left.
  abbrev pub Rooms : Inner P → Type 0
  Rooms s =
      (k : RunId) (r : MemoryRun P)
      → get k s.runs ≡ some r
      → is_terminal r.status ≡ false
      → HasRoom r

  pub reap_one-Valid :
      (now : ℕ) (build_event : RunLookup → ℤ → P.Event) (run_id : RunId) (s : Inner P)
      → Rooms s
      → Valid s
      → Valid (reap_one now build_event run_id s).1 × Rooms (reap_one now build_event run_id s).1
  unfolding reap_run is_stale reaped_run
  reap_one-Valid now build_event run_id s room v =
      reap_one_cases now build_event run_id s (λ x. Valid x.1 × Rooms x.1) (λ e. (v, room))
        (λ quiet. (v, room))
        λ run found stale checked.
          let event = build_event (run_lookup run) (next_event_seq run) in
          let live = live_of_running run (ground (arith, stale)) in
          let q = reaped_run run event in
          (
            Valid-clear s (reap_run run_id run event s) run_id run q refl refl found refl refl live
                (reaped_run-RunValid run_id run event live (room run_id run found live) checked
                  (v.runs _ run found))
                v,
            λ k r h open_still. elim (insert-cases run_id q s.runs k h) [
              | inl (_, is) ↦ absurd (cc (rw is at open_still))
              | inr (_, before) ↦ room k r before open_still
            ],
          )

  pub reap_ids-Valid :
      (limit : ℕ) (build_event : ℕ → RunLookup → ℤ → P.Event) (now : ℕ) (ids : List RunId)
      (reaped : List RunLookup) (s : Inner P)
      → Rooms s
      → Valid s
      → Valid (reap_ids limit build_event now ids reaped s).1
  unfolding reap_ids
  reap_ids-Valid limit build_event now [] reaped s room v = v
  reap_ids-Valid limit build_event now (id ∷ ids) reaped s room v =
      let (r, t) = reap_one now (build_event (length reaped)) id s in
      let (first, rooms) = reap_one-Valid now (build_event (length reaped)) id s room v in
      elim (Bool-cases (leb limit (length reaped))) [
        | inl full ↦ rw (full, reap_ids) v
        | inr some_left ↦ elim (Result-cases r) [
          | inl (e, bad) ↦ rw (some_left, reap_ids, bad) first
          | inr (o, good) ↦
              rw (some_left, reap_ids, good)
                (reap_ids-Valid limit build_event now ids (push_lookup reaped o) t rooms first)
        ]
      ]

  pub write_events-Valid :
      (c : RunCommit P) (run : MemoryRun P) (s : Inner P)
      → get c.run_id s.runs ≡ some run
      → ShapeOk c
      → Fits c.run_id run c.events
      → Valid s
      → Valid (write_events c run s).1
  unfolding write_events end_run insert_run append_events ended_run
  write_events-Valid c run s found shape fits v =
      let q = append_events c.events run in
      elim (Option-cases c.finish) [
        | inl open_still ↦
            let plain =
              validate_finish-none c (sym (ap (validate_finish c) open_still) ∙ shape.finish) in
            rw (open_still, write_events)
              (Valid-same s (insert_run c.run_id q s) c.run_id run q refl refl found refl refl refl
                (RunValid-append c.run_id run q c.events refl refl refl plain fits
                  (v.runs _ run found))
                v)
        | inr (finish, ends) ↦
            let (event, f) =
              FinishOk-of_ok c finish (sym (ap (validate_finish c) ends) ∙ shape.finish) in
            let r = ended_run finish event q in
            rw (ends, write_events, f.last_event)
              (Valid-clear s (end_run c finish event run s) c.run_id run r refl refl found refl refl
                fits.still_open
                (RunValid-end c.run_id run r c.events event refl refl f.status refl refl
                  f.last_event f.terminal f.only fits (v.runs _ run found))
                v)
      ]

  pub commit_run-Valid :
      (clock : Clock) (c : RunCommit P) (s : Inner P) → Valid s → Valid (commit_run clock c s).1
  commit_run-Valid clock c s v =
      commit_cases clock c s (λ x. Valid x.1) (λ r _. v)
        λ scope run passes.
          let checked = CommitChecked-of_ok clock c run s passes.checked in
          let frame = written-SameRuns clock scope c run s in
          rw (commit_write_lem clock scope c run s checked.effects) (
            write_events-Valid c run (written clock scope c run s) (rw frame.runs passes.found)
              (ShapeOk-of_ok c passes.shape) (CommitFits-of_passes clock c s scope run passes)
              (Valid-kept s _ frame.runs frame.thread_leases v))
