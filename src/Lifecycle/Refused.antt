-- ===== src/Lifecycle/Refused.antt =====
-- A commit that fails, src/lifecycle.rs.
use typemach.Base.{ℕ, none, some, List, is_some, ◌≡◌, refl, sym, ◌∙◌, inl, inr, Bool-cases}
use mathlib.Core.Path.{subst}
use typemach.Base.Int.{ℤ}
use typemach.Run.{RunId, SessionId}
use typemach.Error.{Result, ok, err, MachineError, Result-cases}
use typemach.Params.{Params}
use typemach.Store.{CommitPlan, RunCommitResult, recorded, finished_with, skipped}
use typemach.Store.Interface.{RunStore}
use typemach.Registry.{Channels}
use typemach.Lifecycle.Check.{validate_commit_events}
use typemach.Lifecycle.State.{
  RunLifecycle, on_store, remove_event_lock, leave_with, or_rewind, rewind_seqs,
}
use typemach.Lifecycle.Commit.{
  next_seqs, check_plan, commit_ended, commit_absent, commit_leave, take_answer, commit_stored,
  commit_numbered, commit_next, commit_with, build_events, commit_of, take_commit,
}
use typemach.Lifecycle.Undo.{
  InRange, next_seqs-cases, Leaves, bind-Leaves, leave_with-registry, with_run-cases,
}

module _ {P : Params} {S : RunStore P} {C : Channels P.Event} where
  commit_ended-Leaves :
      (run_id : RunId) (scope : P.Scope) (lock : ℕ) (s : RunLifecycle S C)
      → Leaves s.registry (commit_ended run_id scope lock s)
  unfolding commit_ended
  commit_ended-Leaves run_id scope lock s =
      bind-Leaves (on_store (S.terminal_event run_id scope)) _ s.registry s (λ _ _. refl)
        (elim [
          | none ↦ λ _ e h. leave_with-registry run_id lock _ _
          | some event ↦ λ _ e h. leave_with-registry run_id lock _ _
        ])

  commit_absent-Leaves :
      (run_id : RunId) (scope : P.Scope) (plan : CommitPlan P) (lock : ℕ) (s : RunLifecycle S C)
      → Leaves s.registry (commit_absent run_id scope plan lock s)
  unfolding commit_absent
  commit_absent-Leaves run_id scope plan lock s = elim (Bool-cases (is_some plan.finish)) [
    | inl ends ↦ rw (ends, commit_absent) (commit_ended-Leaves run_id scope lock s)
    | inr stays ↦ rw (stays, commit_absent) (λ e h. leave_with-registry run_id lock _ s)
  ]

  commit_leave-ok :
      (run_id : RunId) (lock : ℕ) (result : RunCommitResult P.Event) (s : RunLifecycle S C)
      → (commit_leave run_id lock result s).0 ≡ ok result
  unfolding commit_leave leave_with remove_event_lock
  commit_leave-ok run_id lock (recorded events) s = refl
  commit_leave-ok run_id lock (finished_with events result) s = refl
  commit_leave-ok run_id lock skipped s = refl

  take_answer-Leaves :
      (run_id : RunId) (seqs : List ℤ) (lock : ℕ) (answer : Result (RunCommitResult P.Event))
      (s : RunLifecycle S C)
      → Leaves (rewind_seqs run_id seqs s.registry) (take_answer run_id seqs lock answer s)
  unfolding take_answer or_rewind
  take_answer-Leaves run_id seqs lock (err reason) s e h = refl
  take_answer-Leaves run_id seqs lock (ok result) s e h = absurd (
      cc (
        commit_leave-ok run_id lock result
          (record s { registry = take_commit P run_id result s.registry })))

  commit_numbered-Leaves :
      (run_id : RunId) (session_id : SessionId) (scope : P.Scope) (plan : CommitPlan P)
      (events : List P.Event) (seqs : List ℤ) (lock : ℕ) (s : RunLifecycle S C)
      → Leaves
          (rewind_seqs run_id seqs s.registry)
          (commit_numbered run_id session_id scope plan events seqs lock s)
  unfolding commit_numbered commit_stored or_rewind
  commit_numbered-Leaves run_id session_id scope plan events seqs lock s =
      elim (Result-cases (validate_commit_events P run_id session_id plan.finish events seqs)) [
        | inl (reason, bad) ↦ rw (bad, commit_numbered) (λ e h. refl)
        | inr (_, good) ↦
            rw (good, commit_numbered)
              (take_answer-Leaves run_id seqs lock
                (S.commit_run (commit_of run_id session_id scope plan events) s.store).0 _)
      ]

  commit_next-Leaves :
      (run_id : RunId) (session_id : SessionId) (scope : P.Scope) (plan : CommitPlan P)
      (build_event : ℕ → ℤ → P.Event) (lock : ℕ) (s : RunLifecycle S C)
      → InRange run_id plan.event_count s.registry
      → Leaves s.registry (commit_next run_id session_id scope plan build_event lock s)
  unfolding commit_next
  commit_next-Leaves run_id session_id scope plan build_event lock s range =
      elim (next_seqs-cases run_id plan.event_count s.registry range) [
        | inl absent ↦ rw (absent, commit_next) (commit_absent-Leaves run_id scope plan lock s)
        | inr (seqs, given, back) ↦
            let s' = record s { registry = (next_seqs run_id plan.event_count s.registry).1 } in
            let events = build_events build_event seqs in
            rw (given, commit_next)
              (λ e h.
                commit_numbered-Leaves run_id session_id scope plan events seqs lock s' e h ∙ back)
      ]

  -- A commit that fails, for whatever reason, leaves the registry as it was: the numbers that it took
  -- for its events are given back. The run's number stays below `i64::MAX` for as many events.
  pub commit_with-refused :
      (run_id : RunId) (session_id : SessionId) (scope : P.Scope) (plan : CommitPlan P)
      (build_event : ℕ → ℤ → P.Event) (s : RunLifecycle S C) (e : MachineError)
      → InRange run_id plan.event_count s.registry
      → (commit_with run_id session_id scope plan build_event s).0 ≡ err e
      → (commit_with run_id session_id scope plan build_event s).1.registry ≡ s.registry
  unfolding commit_with
  commit_with-refused run_id session_id scope plan build_event s e range =
      bind-Leaves (λ s. (check_plan P run_id session_id plan, s)) _ s.registry s (λ _ _. refl)
        (λ _ _.
          with_run-cases run_id scope _ s (Leaves s.registry) (λ _ _ same _ _. same)
            (λ lock s1 same e h.
              commit_next-Leaves run_id session_id scope plan build_event lock s1
                (subst (InRange run_id plan.event_count) (sym same) range) e h
              ∙ same))
        e
