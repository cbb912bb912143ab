-- ===== src/Memory/Grows/Calls.antt =====
-- The calls, their histories, and what the store keeps.
use typemach.Base.{
  ℕ, String, Option, none, some, false, List, [], ◌∷◌, ◌≡◌, refl, inl, inr, Option-cases,
  Bool-cases, leb, length, last,
}
use typemach.Base.Int.{ℤ}
use typemach.Base.Eq.{string_eq, pair_eq, triple_eq}
use typemach.Base.Map.{get, keys}
use typemach.Base.Grow.{MapGrows-refl, MapGrows-or_insert}
use typemach.Run.{RunId, SessionId, LeaseId}
use typemach.Error.{Result-cases}
use typemach.Op.{Effect, is_done}
use typemach.Params.{Params}
use typemach.Store.{is_terminal, Lease, RunFinishRecord, RunStart, RunCommit, RunLookup, LeaseClaim}
use typemach.Memory.State.{Inner, MemoryRun, Clock, now_ms}
use typemach.Memory.Start.{
  start_run, start_write, open_session, insert_run, insert_key, new_run, idempotency_key,
}
use typemach.Memory.Finish.{finish_run, finish_write, record_event, mark_cancelled}
use typemach.Memory.Commit.{commit_run, write_events, end_run}
use typemach.Memory.Effects.{reserve_effect, start_effect, started_effect}
use typemach.Memory.Leases.{
  renew, release, reap_one, reap_ids, reap_stale, reap_run, push_lookup, renewed_run,
}
use typemach.Memory.Ops.{apply_entries}
use typemach.Memory.Ready.{put-Grows, put_new-Grows}
use typemach.Memory.Frame.{insert_key-SameRuns, apply_entries-Frame}
use typemach.Memory.Checked.{
  CommitChecked-of_ok, written, commit_write_lem, written-Grows, written-SameRuns,
}
use typemach.Memory.Sessions.{put_session}
use typemach.Memory.Cases.Sessions.{ensured_cases}
use typemach.Memory.Cases.Start.{start_cases, claimed}
use typemach.Memory.Cases.Finish.{finish_cases, record_cases, cancel_cases}
use typemach.Memory.Cases.Commit.{commit_cases}
use typemach.Memory.Cases.Effects.{reserve_cases, start_effect_cases}
use typemach.Memory.Cases.Leases.{renew_cases, release_cases, reap_one_cases, renewed, released}
use typemach.Memory.Calls.{
  Call, ensures, starts, finishes, cancels, records, commits, reserves, begins, renews, releases,
  reaps, step, run_calls,
}
use typemach.Memory.Grows.{RunGrows, RunGrows-refl, EffectGrows, Grows, Grows-refl, Grows-trans}
use typemach.Memory.Grows.Writes.{
  Grows-runs, MapGrows-run, insert_run-Grows, insert_run_new-Grows, open_session-Grows,
  insert_key-Grows, apply_entries-Grows,
}
use typemach.Memory.Grows.Runs.{
  finished_run-RunGrows, push_event-RunGrows, append_events-RunGrows, ended_run-RunGrows,
  reaped_run-RunGrows, RunGrows-same,
}

module _ {V : Type 0} where
  started_effect-EffectGrows :
      (now : ℤ) (old : Effect V)
      → is_done old.status ≡ false
      → EffectGrows old (started_effect now old)
  unfolding started_effect
  started_effect-EffectGrows now old open_still = record {
    kind = refl;
    request = refl;
    created_at = refl;
    done = λ d. absurd (cc);
  }

module _ {P : Params} where
  start_write-Grows :
      (clock : Clock) (scope : String) (run : RunStart P) (s : Inner P)
      → get run.run_id s.runs ≡ none
      → Grows s (start_write clock scope run s)
  unfolding start_write
  start_write-Grows clock scope run s fresh =
      let key = idempotency_key scope run in
      let t = insert_key key run.run_id s in
      let u = insert_run run.run_id (new_run clock run) t in
      let same = (insert_key-SameRuns key run.run_id s).runs in
      Grows-trans s u _
        (Grows-trans s t u (insert_key-Grows key run.run_id s)
          (insert_run_new-Grows t run.run_id _ (rw same fresh)))
        (apply_entries-Grows _ scope run.run_id run.session_id run.thread_id run.entries u)

  claimed-Grows :
      (clock : Clock) (run : RunStart P) (claim : Option LeaseClaim) (s : Inner P)
      → Grows s (claimed clock run claim s) × ((claimed clock run claim s).runs ≡ s.runs)
  unfolding claimed
  claimed-Grows clock run none s = (Grows-refl s, refl)
  claimed-Grows clock run (some claim) s =
      (Grows-runs s _ refl refl refl refl (MapGrows-refl RunGrows RunGrows-refl s.runs), refl)

  start_run-Grows :
      (clock : Clock) (run : RunStart P) (s : Inner P) → Grows s (start_run clock run s).1
  start_run-Grows clock run s =
      let t = open_session run.session_id run.scope s in
      let opened = open_session-Grows run.session_id run.scope s in
      start_cases clock run s (λ x. Grows s x.1) (λ r _. opened)
        λ scope sig passes.
          let (claims, same) = claimed-Grows clock run run.lease t in
          Grows-trans s t _ opened
            (Grows-trans t _ _ claims (start_write-Grows clock scope run _ (rw same passes.fresh)))

  finish_run-Grows :
      (clock : Clock) (finish : RunFinishRecord P) (s : Inner P)
      → Grows s (finish_run clock finish s).1
  unfolding finish_write
  finish_run-Grows clock finish s =
      finish_cases clock finish s (λ x. Grows s x.1) (λ r _. Grows-refl s)
        λ scope run passes.
          let t =
            apply_entries (now_ms clock 0) scope finish.run_id finish.session_id run.start.thread_id
              finish.entries s in
          let frame =
            apply_entries-Frame (now_ms clock 0) scope finish.run_id finish.session_id
              run.start.thread_id finish.entries s in
          Grows-trans s t _ (apply_entries-Grows _ scope _ _ _ finish.entries s) (
            insert_run-Grows t finish.run_id _ (rw frame.same.runs passes.found)
              (finished_run-RunGrows finish run passes.still_open))

  record_event-Grows :
      (run_id : RunId) (scope : P.Scope) (event : P.Event) (s : Inner P)
      → Grows s (record_event run_id scope event s).1
  record_event-Grows run_id scope event s =
      record_cases run_id scope event s (λ x. Grows s x.1) (λ r. Grows-refl s)
        λ run shape found live checked.
          insert_run-Grows s run_id _ found (push_event-RunGrows event run live)

  mark_cancelled-Grows :
      (run_id : RunId) (scope : P.Scope) (s : Inner P) → Grows s (mark_cancelled run_id scope s).1
  mark_cancelled-Grows run_id scope s =
      cancel_cases run_id scope s (λ x. Grows s x.1) (λ r. Grows-refl s)
        λ run found.
          insert_run-Grows s run_id _ found (RunGrows-same run _ refl refl refl refl refl refl)

  reserve_effect-Grows :
      (clock : Clock) (run_id : RunId) (scope : P.Scope) (lease : Option LeaseId)
      (key kind : String) (request : P.Value) (s : Inner P)
      → Grows s (reserve_effect clock run_id scope lease key kind request s).1
  reserve_effect-Grows clock run_id scope lease key kind request s =
      reserve_cases clock run_id scope lease key kind request s (λ x. Grows s x.1)
        (λ e. Grows-refl s) (λ old found same. Grows-refl s)
        λ run admitted fresh. put_new-Grows s (run_id, key) _ fresh

  start_effect-Grows :
      (clock : Clock) (run_id : RunId) (scope : P.Scope) (lease : Option LeaseId) (key : String)
      (s : Inner P)
      → Grows s (start_effect clock run_id scope lease key s).1
  start_effect-Grows clock run_id scope lease key s =
      start_effect_cases clock run_id scope lease key s (λ x. Grows s x.1) (λ e. Grows-refl s)
        (λ old found same. Grows-refl s)
        λ run old admitted found idle fresh.
          put-Grows s (run_id, key) _ found (started_effect-EffectGrows _ old fresh)

  renew-Grows :
      (clock : Clock) (lease : Lease) (ttl : ℕ) (s : Inner P) → Grows s (renew clock lease ttl s).1
  unfolding renewed renewed_run
  renew-Grows clock lease ttl s =
      renew_cases clock lease ttl s (λ x. Grows s x.1) (Grows-refl s)
        λ run active thread passes. Grows-runs s _ refl refl refl refl (
          MapGrows-run s lease.run _ passes.found
            (RunGrows-same run _ refl refl refl refl refl refl))

  release-Grows : (lease : Lease) (s : Inner P) → Grows s (release lease s).1
  unfolding released
  release-Grows lease s =
      release_cases lease s (λ x. Grows s x.1) (λ free. Grows-refl s)
        λ run found held.
          Grows-runs s _ refl refl refl refl
            (MapGrows-run s lease.run _ found (RunGrows-same run _ refl refl refl refl refl refl))

  reap_one-Grows :
      (now : ℕ) (build_event : RunLookup → ℤ → P.Event) (run_id : RunId) (s : Inner P)
      → Grows s (reap_one now build_event run_id s).1
  unfolding reap_run
  reap_one-Grows now build_event run_id s =
      reap_one_cases now build_event run_id s (λ x. Grows s x.1) (λ e. Grows-refl s)
        (λ quiet. Grows-refl s)
        λ run found stale checked.
          Grows-runs s _ refl refl refl refl
            (MapGrows-run s run_id _ found (reaped_run-RunGrows now _ run stale))

  reap_ids-Grows :
      (limit : ℕ) (build_event : ℕ → RunLookup → ℤ → P.Event) (now : ℕ) (ids : List RunId)
      (reaped : List RunLookup) (s : Inner P)
      → Grows s (reap_ids limit build_event now ids reaped s).1
  unfolding reap_ids
  reap_ids-Grows limit build_event now [] reaped s = Grows-refl s
  reap_ids-Grows limit build_event now (id ∷ ids) reaped s =
      let (r, t) = reap_one now (build_event (length reaped)) id s in
      let first = reap_one-Grows now (build_event (length reaped)) id s in
      elim (Bool-cases (leb limit (length reaped))) [
        | inl full ↦ rw (full, reap_ids) (Grows-refl s)
        | inr room ↦ elim (Result-cases r) [
          | inl (e, bad) ↦ rw (room, reap_ids, bad) first
          | inr (o, good) ↦
              rw (room, reap_ids, good)
                (Grows-trans s t _ first
                  (reap_ids-Grows limit build_event now ids (push_lookup reaped o) t))
        ]
      ]

  write_events-Grows :
      (c : RunCommit P) (run : MemoryRun P) (s : Inner P)
      → get c.run_id s.runs ≡ some run
      → is_terminal run.status ≡ false
      → Grows s (write_events c run s).1
  unfolding write_events end_run
  write_events-Grows c run s found live =
      let appended =
        insert_run-Grows s c.run_id _ found (append_events-RunGrows c.events run live) in
      elim (Option-cases c.finish) [
        | inl open_still ↦ rw (open_still, write_events) appended
        | inr (finish, ends) ↦ elim (Option-cases (last c.events)) [
          | inl missing ↦ rw (ends, write_events, missing) appended
          | inr (event, found_last) ↦
              rw (ends, write_events, found_last)
                (Grows-runs s _ refl refl refl refl (
                  MapGrows-run s c.run_id _ found
                    (ended_run-RunGrows finish event c.events run live)))
        ]
      ]

  commit_run-Grows :
      (clock : Clock) (c : RunCommit P) (s : Inner P) → Grows s (commit_run clock c s).1
  commit_run-Grows clock c s =
      commit_cases clock c s (λ x. Grows s x.1) (λ r _. Grows-refl s)
        λ scope run passes.
          let checked = CommitChecked-of_ok clock c run s passes.checked in
          let t = written clock scope c run s in
          let found = (written-SameRuns clock scope c run s).runs in
          rw (commit_write_lem clock scope c run s checked.effects) (
            Grows-trans s t _ (written-Grows clock scope c run s checked.effects)
              (write_events-Grows c run t (rw found passes.found) passes.still_open))

  put_session-Grows :
      (id : SessionId) (n : ℕ) (scope : P.Scope) (s : Inner P) → Grows s (put_session id n scope s)
  put_session-Grows id n scope s = record {
    sessions = MapGrows-or_insert id scope s.sessions;
    runs = (Grows-refl s).runs;
    entries = (Grows-refl s).entries;
    effects = (Grows-refl s).effects;
    items = (Grows-refl s).items;
  }

  -- Whatever a call answers, the store after it keeps every session and run, each run its start and
  -- the log so far, an ended run its whole record, and a done effect, an item and an entry all of
  -- their fields.
  pub step-Grows : (call : Clock × Call P) (s : Inner P) → Grows s (step call s)
  unfolding step reap_stale
  step-Grows (clock, ensures asked scope) s =
      ensured_cases asked scope s (Grows s) (Grows-refl s) λ id n. put_session-Grows id n scope s
  step-Grows (clock, starts run) s = start_run-Grows clock run s
  step-Grows (clock, finishes finish) s = finish_run-Grows clock finish s
  step-Grows (clock, cancels run_id scope) s = mark_cancelled-Grows run_id scope s
  step-Grows (clock, records run_id scope event) s = record_event-Grows run_id scope event s
  step-Grows (clock, commits c) s = commit_run-Grows clock c s
  step-Grows (clock, reserves run_id scope lease key kind request) s =
      reserve_effect-Grows clock run_id scope lease key kind request s
  step-Grows (clock, begins run_id scope lease key) s =
      start_effect-Grows clock run_id scope lease key s
  step-Grows (clock, renews lease ttl) s = renew-Grows clock lease ttl s
  step-Grows (clock, releases lease) s = release-Grows lease s
  step-Grows (clock, reaps limit build_event) s =
      reap_ids-Grows limit build_event (clock.instant 0) (keys s.runs) [] s

  -- No history of calls takes back a session, a run, its start or an event of its log, the record of
  -- an ended run, the request of an effect or an effect that is done, an item or an entry.
  pub run_calls-Grows : (calls : List (Clock × Call P)) (s : Inner P) → Grows s (run_calls calls s)
  unfolding run_calls
  run_calls-Grows [] s = Grows-refl s
  run_calls-Grows (call ∷ calls) s =
      Grows-trans s (step call s) _ (step-Grows call s) (run_calls-Grows calls (step call s))
