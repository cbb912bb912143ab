-- ===== src/Memory/Again.antt =====
-- `start_run` and `finish_run` made a second time, after any other calls, src/store/memory.rs.
use typemach.Base.{String, some, true, List, ◌≡◌, refl, ◌∙◌, ap}
use typemach.Base.Eq.{string_eq, triple_eq, beq_refl}
use typemach.Base.Map.{get, get-insert_self}
use typemach.Error.{ok}
use typemach.Params.{Params}
use typemach.Store.{RunStart, RunFinishRecord, existing, start_sig, already_finished, is_terminal}
use typemach.Memory.State.{Inner, MemoryRun, Clock, run_lookup, now_ms}
use typemach.Memory.Validate.{scope_key}
use typemach.Memory.Start.{
  start_run, start_write, open_session, insert_run, insert_key, new_run, idempotency_key,
  start_keyed, start_again, same_start,
}
use typemach.Memory.Finish.{
  finish_run, finish_write, finished_run, finish_target, check_finish, check_finish_target,
}
use typemach.Memory.Frame.{apply_entries-Frame}
use typemach.Memory.Cases.Start.{start_cases, claimed, made}
use typemach.Memory.Cases.Finish.{finish_cases, ended_now}
use typemach.Memory.Calls.{Call, run_calls}
use typemach.Memory.Grows.{Grows}
use typemach.Memory.Grows.Calls.{run_calls-Grows}
use typemach.Memory.Valid.Checks.{FinishFits-of_passes}

module _ {P : Params} where
  -- What a start leaves when it creates its run.
  record Created (run : RunStart P) (t : Inner P) : Type 0 where
    scope : String
    sig : String
    scoped : scope_key P run.scope ≡ ok scope
    signed : start_sig run ≡ ok sig
    new : MemoryRun P
    found : get run.run_id t.runs ≡ some new
    start : new.start ≡ run

  start_run-Created :
      (clock : Clock) (run : RunStart P) (s : Inner P)
      → made (start_run clock run s).0 ≡ true
      → Created run (start_run clock run s).1
  unfolding start_write insert_run new_run
  start_run-Created clock run s =
      start_cases clock run s (λ x. made x.0 ≡ true → Created run x.1) (λ r no h. absurd (cc))
        λ scope sig passes h.
          let u = claimed clock run run.lease (open_session run.session_id run.scope s) in
          let w = insert_key (idempotency_key scope run) run.run_id u in
          let frame =
            apply_entries-Frame (now_ms clock 0) scope run.run_id run.session_id run.thread_id
              run.entries (insert_run run.run_id (new_run clock run) w) in
          record {
            scope = scope;
            sig = sig;
            scoped = passes.scoped;
            signed = passes.signed;
            new = new_run clock run;
            found = rw frame.same.runs (get-insert_self run.run_id (new_run clock run) w.runs);
            start = refl;
          }

  -- The run is found, and the two starts have the same signature.
  start_known :
      (clock : Clock) (run : RunStart P) (t : Inner P) (scope sig : String) (old : MemoryRun P)
      → scope_key P run.scope ≡ ok scope
      → start_sig run ≡ ok sig
      → get run.run_id t.runs ≡ some old
      → old.start ≡ run
      → start_run clock run t
        ≡ (ok (existing (run_lookup old)), open_session run.session_id run.scope t)
  unfolding start_run open_session start_keyed start_again same_start
  start_known clock run t scope sig old scoped signed found start =
      let scopes : P.scope_eq.beq old.start.scope run.scope ≡ true =
        rw start (beq_refl ⦃e = P.scope_eq⦄ run.scope) in
      let old_sig : start_sig old.start ≡ ok sig = ap start_sig start ∙ signed in
      rw (
        scoped,
        start_run,
        signed,
        found,
        start_keyed,
        scopes,
        start_again,
        old_sig,
        same_start,
        beq_refl sig,
      )

  -- A start that has created its run is told of that run whenever it is made again, whatever calls
  -- came between: it creates no second run, and writes nothing but its session.
  pub start_run-again :
      (clock later : Clock) (run : RunStart P) (calls : List (Clock × Call P)) (s : Inner P)
      → made (start_run clock run s).0 ≡ true
      → let t = run_calls calls (start_run clock run s).1 in
        (old : MemoryRun P) × (get run.run_id t.runs ≡ some old)
        × (old.start ≡ run)
        × (start_run later run t
            ≡ (ok (existing (run_lookup old)), open_session run.session_id run.scope t))
  start_run-again clock later run calls s h =
      let c = start_run-Created clock run s h in
      let t = run_calls calls (start_run clock run s).1 in
      let (old, found, grows) =
        (run_calls-Grows calls (start_run clock run s).1).runs _ _ c.found in
      (
        old,
        found,
        grows.start ∙ c.start,
        start_known later run t c.scope c.sig old c.scoped c.signed found (grows.start ∙ c.start),
      )

  record EndedBy (finish : RunFinishRecord P) (t : Inner P) : Type 0 where
    shape : check_finish finish ≡ ok tt
    run : MemoryRun P
    found : get finish.run_id t.runs ≡ some run
    target : check_finish_target finish run ≡ ok tt
    over : is_terminal run.status ≡ true
    kept : run.terminal_event ≡ some finish.terminal_event

  target-start :
      (finish : RunFinishRecord P) (q r : MemoryRun P)
      → q.start ≡ r.start
      → check_finish_target finish q ≡ check_finish_target finish r
  unfolding check_finish_target
  target-start finish q r same = rw same refl

  finish_run-EndedBy :
      (clock : Clock) (finish : RunFinishRecord P) (s : Inner P)
      → ended_now (finish_run clock finish s).0 ≡ true
      → EndedBy finish (finish_run clock finish s).1
  unfolding finish_write insert_run finished_run
  finish_run-EndedBy clock finish s =
      finish_cases clock finish s (λ x. ended_now x.0 ≡ true → EndedBy finish x.1)
        (λ r no h. absurd (cc))
        λ scope run passes h. record {
          shape = passes.shape;
          run = finished_run finish run;
          found = get-insert_self finish.run_id (finished_run finish run) _;
          target = target-start finish (finished_run finish run) run refl ∙ passes.target;
          over = (FinishFits-of_passes finish s scope run passes).status;
          kept = refl;
        }

  finish_known :
      (clock : Clock) (finish : RunFinishRecord P) (t : Inner P)
      → EndedBy finish t
      → finish_run clock finish t ≡ (ok (already_finished finish.terminal_event), t)
  unfolding finish_run finish_target
  finish_known clock finish t e =
      rw (e.shape, finish_run, e.found, e.target, finish_target, e.over, e.kept) refl

  Grows-EndedBy :
      (finish : RunFinishRecord P) (s t : Inner P) → Grows s t → EndedBy finish s → EndedBy finish t
  Grows-EndedBy finish s t g e =
      let (old, found, grows) = g.runs _ _ e.found in
      record {
        shape = e.shape;
        run = old;
        found = found;
        target = target-start finish old e.run grows.start ∙ e.target;
        over = rw (grows.status e.over) e.over;
        kept = grows.terminal_event e.over ∙ e.kept;
      }

  -- A call of `finish_run` that has ended its run is told so with the same event whenever it is made
  -- again, whatever calls came between, and writes nothing.
  pub finish_run-again :
      (clock later : Clock) (finish : RunFinishRecord P) (calls : List (Clock × Call P))
      (s : Inner P)
      → ended_now (finish_run clock finish s).0 ≡ true
      → let t = run_calls calls (finish_run clock finish s).1 in
        finish_run later finish t ≡ (ok (already_finished finish.terminal_event), t)
  finish_run-again clock later finish calls s h =
      let first = (finish_run clock finish s).1 in
      finish_known later finish (run_calls calls first) (
        Grows-EndedBy finish first _ (run_calls-Grows calls first)
          (finish_run-EndedBy clock finish s h))
