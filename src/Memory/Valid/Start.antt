-- ===== src/Memory/Valid/Start.antt =====
-- `start_run`, and well-formed stores.
use typemach.Base.{
  String, Option, none, some, true, false, ◌≡◌, refl, ◌∙◌, inl, inr, Option-cases, arith, ◌≢◌, ap,
}
use typemach.Base.Eq.{string_eq}
use typemach.Base.Map.{get, insert, values, find, find-values-none}
use typemach.Run.{RunId}
use typemach.Error.{ok, >>=-eq-ok}
use typemach.Params.{Params}
use typemach.Store.{
  is_terminal, RunStatus, running, completed, interrupted, cancelled, error, RunStart, LeaseClaim,
}
use typemach.Memory.State.{
  Inner, MemoryRun, Clock, now_ms, is_running, holds_thread, running_memory_thread,
}
use typemach.Memory.Ops.{validate_entries}
use typemach.Memory.Start.{
  start_run, start_write, open_session, insert_run, insert_key, new_run, idempotency_key, check_new,
  check_thread_free,
}
use typemach.Memory.Leases.{thread_lease, memory_lease}
use typemach.Memory.Frame.{insert_key-SameRuns, apply_entries-Frame}
use typemach.Memory.Cases.Start.{start_cases, claimed, StartPasses}
use typemach.Memory.Valid.{Valid, LeasesValid}
use typemach.Memory.Valid.Puts.{Valid-kept, Valid-Frame, runs-put}
use typemach.Memory.Valid.Runs.{new_run-RunValid}
use typemach.Memory.Valid.Leases.{Exclusive-new, LeasesValid-open, LeasesValid-claim}

running_of_live : (r : RunStatus) → is_terminal r ≡ false → is_running r ≡ true
running_of_live running h = refl
running_of_live completed h = cc
running_of_live interrupted h = cc
running_of_live cancelled h = cc
running_of_live error h = cc

module _ {P : Params} where
  -- What the search for a running run on the thread says when it finds none.
  thread_idle :
      (scope : String) (run : RunStart P) (s : Inner P)
      → check_new scope run s ≡ ok tt
      → get run.run_id s.runs ≡ none
      → Valid s
      → (j : RunId) (p : MemoryRun P) → get j s.runs ≡ some p
      → is_terminal p.status ≡ false
      → p.start.thread_id ≢ run.thread_id
  unfolding check_new check_thread_free running_memory_thread
  thread_idle scope run s checked fresh v j p found live on =
      let (_, _, free) =
        >>=-eq-ok (validate_entries s scope run.session_id run.entries) _ checked in
      elim (Option-cases (find (holds_thread run.thread_id run.run_id) (values s.runs))) [
        | inr (q, held) ↦ absurd (cc (rw (held, check_thread_free) at free))
        | inl idle ↦
            let quiet =
              find-values-none (holds_thread run.thread_id run.run_id) s.runs j p idle found in
            let keyed = (v.runs j p found).keyed in
            let other : p.start.run_id ≢ run.run_id = λ same. cc (keyed, same, found, fresh) in
            let up = running_of_live p.status live in
            ground (
              arith,
              quiet,
              up,
              on,
              (string_eq.beq_iff p.start.thread_id run.thread_id).1 on,
              (string_eq.beq_iff p.start.run_id run.run_id).0,
            )
      ]

  claimed-runs :
      (clock : Clock) (run : RunStart P) (claim : Option LeaseClaim) (s : Inner P)
      → (claimed clock run claim s).runs ≡ s.runs
  unfolding claimed
  claimed-runs clock run none s = refl
  claimed-runs clock run (some claim) s = refl

  -- The new run and its thread have the lease that the start asks for.
  opened-LeasesValid :
      (clock : Clock) (run : RunStart P) (claim : Option LeaseClaim) (s t : Inner P)
      → t.runs ≡ insert run.run_id (new_run clock run) s.runs
      → t.thread_leases ≡ (claimed clock run claim s).thread_leases
      → run.lease ≡ claim
      → get run.run_id s.runs ≡ none
      → ((j : RunId) (p : MemoryRun P)
          → get j s.runs ≡ some p
          → is_terminal p.status ≡ false
          → p.start.thread_id ≢ run.thread_id)
      → LeasesValid s
      → LeasesValid t
  unfolding new_run claimed memory_lease thread_lease
  opened-LeasesValid clock run none s t runs threads asks fresh idle v =
      LeasesValid-open s t run.run_id (new_run clock run) runs fresh idle threads (rw asks refl) v
  opened-LeasesValid clock run (some claim) s t runs threads asks fresh idle v =
      LeasesValid-claim s t run.run_id (new_run clock run) runs fresh idle
        (thread_lease run claim (clock.instant 0)) (memory_lease (clock.instant 1) claim) threads
        refl (rw asks refl) refl refl refl v

  start_write-Valid :
      (clock : Clock) (scope sig : String) (run : RunStart P) (s : Inner P)
      → StartPasses clock run s scope sig
      → Valid s
      → Valid (start_write clock scope run (claimed clock run run.lease s))
  unfolding start_write insert_run new_run
  start_write-Valid clock scope sig run s passes v =
      let idle = thread_idle scope run s passes.checked passes.fresh v in
      let u = claimed clock run run.lease s in
      let key = idempotency_key scope run in
      let w = insert_key key run.run_id u in
      let frame = insert_key-SameRuns key run.run_id u in
      let same = claimed-runs clock run run.lease s in
      let q = new_run clock run in
      let t = insert_run run.run_id q w in
      let fine = new_run-RunValid clock run in
      let runs : t.runs ≡ insert run.run_id q s.runs =
        ap (insert run.run_id q) (frame.runs ∙ same) in
      let valid : Valid t = record {
        runs = runs-put s t run.run_id q runs fine v;
        exclusive = Exclusive-new s t run.run_id q runs passes.fresh idle v.exclusive;
        leases =
            opened-LeasesValid clock run run.lease s t runs frame.thread_leases refl passes.fresh
              idle v.leases;
      } in
      Valid-Frame t _
        (apply_entries-Frame (now_ms clock 0) scope run.run_id run.session_id run.thread_id
          run.entries t)
        valid

  pub start_run-Valid :
      (clock : Clock) (run : RunStart P) (s : Inner P) → Valid s → Valid (start_run clock run s).1
  unfolding open_session
  start_run-Valid clock run s v =
      let t = open_session run.session_id run.scope s in
      let opened : Valid t = Valid-kept s t refl refl v in
      start_cases clock run s (λ x. Valid x.1) (λ r _. opened)
        λ scope sig passes. start_write-Valid clock scope sig run t passes opened
