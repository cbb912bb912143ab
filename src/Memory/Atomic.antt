-- ===== src/Memory/Atomic.antt =====
-- The state after a call of src/store/memory.rs that answers an error.
use typemach.Base.{
  String, Option, none, some, true, false, ◌≡◌, refl, inl, inr, ◌⊎◌, Bool-cases, Option-cases, sym,
  ap, ◌∙◌,
}
use typemach.Error.{Result, ok, err, MachineError}
use typemach.Params.{Params}
use typemach.Store.{RunCommit, RunCommitResult}
use typemach.Memory.State.{Inner, MemoryRun, Clock}
use typemach.Memory.Validate.{validate_finish}
use typemach.Memory.Start.{start_run, open_session}
use typemach.Memory.Finish.{finish_run, record_event, mark_cancelled}
use typemach.Memory.Commit.{commit_run, commit_write, write_events}
use typemach.Memory.Effects.{reserve_effect, start_effect}
use typemach.Memory.Leases.{renew, release}
use typemach.Memory.Checked.{
  CommitChecked-of_ok, written, commit_write_lem, ShapeOk, ShapeOk-of_ok, FinishOk-of_ok,
}
use typemach.Memory.Cases.Commit.{commit_cases, CommitPasses, wrote}
use typemach.Memory.Applied.{Applied, commit_run-Applied}
use typemach.Memory.Cases.Start.{start_cases}
use typemach.Memory.Cases.Finish.{finish_cases, record_cases, cancel_cases}
use typemach.Memory.Cases.Effects.{reserve_cases, start_effect_cases}
use typemach.Memory.Cases.Leases.{renew_cases, release_cases}
use typemach.Memory.Calls.{
  Call, ensures, starts, finishes, cancels, records, commits, reserves, begins, renews, releases,
  reaps, step,
}

-- The error of a call.
abbrev pub error_of : {A : Type 0} → Result A → Option MachineError
error_of (ok a) = none
error_of (err e) = some e

unwritten :
    {E : Type 0} (r : Result (RunCommitResult E)) (e : MachineError)
    → error_of r ≡ some e
    → wrote r ≡ false
unwritten (ok a) e h = cc
unwritten (err d) e h = refl

module _ {P : Params} where
  -- What has passed the checks is written: the commit's shape rules out the error at the end.
  pub write_events-wrote :
      (c : RunCommit P) (run : MemoryRun P) (s : Inner P)
      → ShapeOk c
      → wrote (write_events c run s).0 ≡ true
  unfolding write_events
  write_events-wrote c run s shape = elim (Option-cases c.finish) [
    | inl open_still ↦ rw (open_still, write_events) refl
    | inr (finish, ends) ↦
        let (event, f) =
          FinishOk-of_ok c finish (sym (ap (validate_finish c) ends) ∙ shape.finish) in
        rw (ends, write_events, f.last_event) refl
  ]

  pub commit_write-wrote :
      (clock : Clock) (c : RunCommit P) (s : Inner P) (scope : String) (run : MemoryRun P)
      → CommitPasses clock c s scope run
      → wrote (commit_write clock scope c run s).0 ≡ true
  commit_write-wrote clock c s scope run passes =
      let checked = CommitChecked-of_ok clock c run s passes.checked in
      rw (commit_write_lem clock scope c run s checked.effects)
        (write_events-wrote c run (written clock scope c run s) (ShapeOk-of_ok c passes.shape))

  -- A commit that is not written leaves the store as it was.
  commit_run-unwritten :
      (clock : Clock) (c : RunCommit P) (s : Inner P)
      → wrote (commit_run clock c s).0 ≡ false
      → (commit_run clock c s).1 ≡ s
  commit_run-unwritten clock c s =
      commit_cases clock c s (λ x. wrote x.0 ≡ false → x.1 ≡ s) (λ r _ _. refl)
        λ scope run passes h. absurd (cc (commit_write-wrote clock c s scope run passes))

  -- A commit writes everything or nothing. If it answers that it has recorded or finished, its
  -- checkpoint is the thread's, its events follow the run's log, the run has ended as it says or is as
  -- open as it was, each of its effects has the status and result it names, and each of its items and
  -- entries is in the store. If it answers anything else, the store is as it was.
  pub commit_run-atomic :
      (clock : Clock) (c : RunCommit P) (s : Inner P)
      → ((wrote (commit_run clock c s).0 ≡ true) × Applied c s (commit_run clock c s).1)
        ⊎ ((wrote (commit_run clock c s).0 ≡ false) × ((commit_run clock c s).1 ≡ s))
  commit_run-atomic clock c s = elim (Bool-cases (wrote (commit_run clock c s).0)) [
    | inl done ↦ inl (done, commit_run-Applied clock c s done)
    | inr not_done ↦ inr (not_done, commit_run-unwritten clock c s not_done)
  ]

  -- The reaper is left out: it keeps the runs that it has ended before the error.
  unfoldable pub call_error : Clock × Call P → Inner P → Option MachineError
  call_error (clock, ensures asked scope) s = none
  call_error (clock, starts run) s = error_of (start_run clock run s).0
  call_error (clock, finishes finish) s = error_of (finish_run clock finish s).0
  call_error (clock, cancels run_id scope) s = error_of (mark_cancelled run_id scope s).0
  call_error (clock, records run_id scope event) s = error_of (record_event run_id scope event s).0
  call_error (clock, commits c) s = error_of (commit_run clock c s).0
  call_error (clock, reserves run_id scope lease key kind request) s =
      error_of (reserve_effect clock run_id scope lease key kind request s).0
  call_error (clock, begins run_id scope lease key) s =
      error_of (start_effect clock run_id scope lease key s).0
  call_error (clock, renews lease ttl) s = error_of (renew clock lease ttl s).0
  call_error (clock, releases lease) s = error_of (release lease s).0
  call_error (clock, reaps limit build_event) s = none

  -- A start that fails has still opened its session.
  abbrev pub after_error : Clock × Call P → Inner P → Inner P
  after_error (clock, starts run) s = open_session run.session_id run.scope s
  after_error call s = s

  -- A call other than the reaper's that answers an error leaves the store as it was, but for the
  -- session that a start opens.
  pub step-atomic :
      (call : Clock × Call P) (s : Inner P) (e : MachineError)
      → call_error call s ≡ some e
      → step call s ≡ after_error call s
  unfolding step call_error
  step-atomic (clock, ensures asked scope) s e = λ h. absurd (cc)
  step-atomic (clock, starts run) s e =
      start_cases clock run s
        (λ x. error_of x.0 ≡ some e → x.1 ≡ open_session run.session_id run.scope s) (λ r _ _. refl)
        λ scope sig passes h. absurd (cc)
  step-atomic (clock, finishes finish) s e =
      finish_cases clock finish s (λ x. error_of x.0 ≡ some e → x.1 ≡ s) (λ r _ _. refl)
        λ scope run passes h. absurd (cc)
  step-atomic (clock, cancels run_id scope) s e =
      cancel_cases run_id scope s (λ x. error_of x.0 ≡ some e → x.1 ≡ s) (λ r _. refl)
        λ run found h. absurd (cc)
  step-atomic (clock, records run_id scope event) s e =
      record_cases run_id scope event s (λ x. error_of x.0 ≡ some e → x.1 ≡ s) (λ r _. refl)
        λ run shape found live checked h. absurd (cc)
  step-atomic (clock, commits c) s e = λ h. commit_run-unwritten clock c s (unwritten _ e h)
  step-atomic (clock, reserves run_id scope lease key kind request) s e =
      reserve_cases clock run_id scope lease key kind request s
        (λ x. error_of x.0 ≡ some e → x.1 ≡ s) (λ e h. refl) (λ old found same h. refl)
        λ run admitted fresh h. absurd (cc)
  step-atomic (clock, begins run_id scope lease key) s e =
      start_effect_cases clock run_id scope lease key s (λ x. error_of x.0 ≡ some e → x.1 ≡ s)
        (λ e h. refl) (λ old found same h. refl) λ run old admitted found idle fresh h. absurd (cc)
  step-atomic (clock, renews lease ttl) s e =
      renew_cases clock lease ttl s (λ x. error_of x.0 ≡ some e → x.1 ≡ s) (λ _. refl)
        λ run active thread passes h. absurd (cc)
  step-atomic (clock, releases lease) s e =
      release_cases lease s (λ x. error_of x.0 ≡ some e → x.1 ≡ s) (λ free _. refl)
        λ run found held h. absurd (cc)
  step-atomic (clock, reaps limit build_event) s e = λ h. absurd (cc)
