-- ===== src/Lifecycle/Commit.antt =====
-- src/lifecycle.rs: `commit_with`.
use typemach.Base.{
  ℕ, zero, suc, Option, none, some, not, ◌&&◌, ◌||◌, List, [], ◌∷◌, is_empty, is_some, ◌==◌,
  if◌then◌else◌,
}
use typemach.Base.Int.{ℤ}
use typemach.Base.Eq.{◌=?◌, string_eq}
use typemach.Run.{RunId, SessionId}
use typemach.Error.{Result, ok, err, fail_if, run_not_found, invalid_run_event}
use typemach.Params.{Params}
use typemach.Store.{
  CommitPlan, RunCommit, RunCommitResult, recorded, finished_with, skipped, already_finished,
  is_terminal,
}
use typemach.Store.Interface.{RunStore}
use typemach.Registry.{Channels, RunRegistry, next_seq, publish, publish_terminal, remove}
use typemach.Lifecycle.Check.{validate_commit_events}
use typemach.Lifecycle.State.{
  Call, ◌>>=◌, ◌>>◌, pure, fail, checks, on_store, on_registry, registers, with_run, leave_with,
  or_rewind,
}

module _ {E : Type 0} {C : Channels E} where
  abbrev pub push_seq :
      Option ℤ → RunRegistry C → Option (List ℤ) × RunRegistry C → Option (List ℤ) × RunRegistry C
  push_seq none r rest = (none, r)
  push_seq (some seq) r (none, r') = (none, r')
  push_seq (some seq) r (some seqs, r') = (some (seq ∷ seqs), r')

  -- The loop of `next_seq`: `none` if the run is not in the registry.
  unfoldable pub next_seqs : RunId → ℕ → RunRegistry C → Option (List ℤ) × RunRegistry C
  next_seqs run_id zero r = (some [], r)
  next_seqs run_id (suc n) r =
      let (next, r') = next_seq run_id r in push_seq next r' (next_seqs run_id n r')

  unfoldable pub publish_all : RunId → List E → RunRegistry C → RunRegistry C
  publish_all run_id [] r = r
  publish_all run_id (event ∷ events) r = publish_all run_id events (publish run_id event r)

module _ (P : Params) {C : Channels P.Event} where
  -- The events of a commit that finishes, the terminal one apart.
  unfoldable pub publish_each : RunId → List P.Event → RunRegistry C → RunRegistry C
  publish_each run_id [] r = r
  publish_each run_id (event ∷ events) r = publish_each run_id events (
      if P.event.is_terminal event
      then (publish_terminal run_id event r).1
      else publish run_id event r)

  -- What the registry makes of the store's answer.
  unfoldable pub take_commit : RunId → RunCommitResult P.Event → RunRegistry C → RunRegistry C
  take_commit run_id (recorded events) r = publish_all run_id events r
  take_commit run_id (finished_with events result) r = remove run_id (publish_each run_id events r)
  take_commit run_id skipped r = remove run_id r

module _ (P : Params) where
  -- The checks that need no lock.
  unfoldable pub check_plan : RunId → SessionId → CommitPlan P → Result (Unit {0})
  check_plan run_id session_id plan =
      if plan.event_count == 0
        && is_empty plan.effects
        && is_empty plan.items
        && is_empty plan.entries
      then err (invalid_run_event "commit requires an event, effect, item, or entry")
      else elim plan.finish [
        | none ↦ ok tt
        | some finish ↦
            if not (is_terminal finish.status)
            then err (invalid_run_event "finish_run requires a terminal status")
            else fail_if (not (finish.run_id =? run_id) || not (finish.session_id =? session_id))
                (invalid_run_event "finish target does not match committed run")
      ]

module _ {P : Params} where
  abbrev pub commit_of : RunId → SessionId → P.Scope → CommitPlan P → List P.Event → RunCommit P
  commit_of run_id session_id scope plan events = record {
    run_id = run_id;
    session_id = session_id;
    scope = scope;
    lease = plan.lease;
    checkpoint = plan.checkpoint;
    events = events;
    effects = plan.effects;
    items = plan.items;
    entries = plan.entries;
    finish = plan.finish;
  }

module _ {P : Params} {S : RunStore P} {C : Channels P.Event} where
  unfoldable pub commit_ended : RunId → P.Scope → ℕ → Call S C (RunCommitResult P.Event)
  commit_ended run_id scope lock = do
    ended ← on_store (S.terminal_event run_id scope)
    elim ended [
      | some event ↦
          leave_with run_id lock (ok (finished_with (event ∷ []) (already_finished event)))
      | none ↦ leave_with run_id lock (err run_not_found)
    ]

  -- The run is not in flight here.
  unfoldable pub commit_absent :
      RunId → P.Scope → CommitPlan P → ℕ → Call S C (RunCommitResult P.Event)
  commit_absent run_id scope plan lock =
      if is_some plan.finish
      then commit_ended run_id scope lock
      else leave_with run_id lock (err run_not_found)

  unfoldable pub commit_leave :
      RunId → ℕ → RunCommitResult P.Event → Call S C (RunCommitResult P.Event)
  commit_leave run_id lock (recorded events) = pure (recorded events)
  commit_leave run_id lock (finished_with events result) =
      leave_with run_id lock (ok (finished_with events result))
  commit_leave run_id lock skipped = leave_with run_id lock (ok skipped)

  -- A failing commit gives the numbers back.
  unfoldable pub take_answer :
      RunId → List ℤ → ℕ → Result (RunCommitResult P.Event) → Call S C (RunCommitResult P.Event)
  take_answer run_id seqs lock (err e) = or_rewind run_id seqs (err e) >> fail e
  take_answer run_id seqs lock (ok result) =
      registers (take_commit P run_id result) >> commit_leave run_id lock result

  unfoldable pub commit_stored :
      RunId → List ℤ → ℕ → RunCommit P → Call S C (RunCommitResult P.Event)
  commit_stored run_id seqs lock commit s =
      let (answer, store) = S.commit_run commit s.store in
      take_answer run_id seqs lock answer (record s { store = store })

  -- The events have got their numbers.
  unfoldable pub commit_numbered :
      RunId
      → SessionId
      → P.Scope
      → CommitPlan P
      → List P.Event
      → List ℤ
      → ℕ
      → Call S C (RunCommitResult P.Event)
  commit_numbered run_id session_id scope plan events seqs lock = do
    or_rewind run_id seqs (validate_commit_events P run_id session_id plan.finish events seqs)
    commit_stored run_id seqs lock (commit_of run_id session_id scope plan events)

module _ {E : Type 0} where
  -- `build_event` is called for one number after the other: its k-th call is told k.
  unfoldable pub build_events : (ℕ → ℤ → E) → List ℤ → List E
  build_events build_event [] = []
  build_events build_event (seq ∷ seqs) =
      build_event 0 seq ∷ build_events (λ k. build_event (suc k)) seqs

module _ {P : Params} {S : RunStore P} {C : Channels P.Event} where
  unfoldable pub commit_next :
      RunId
      → SessionId
      → P.Scope
      → CommitPlan P
      → (ℕ → ℤ → P.Event)
      → ℕ
      → Call S C (RunCommitResult P.Event)
  commit_next run_id session_id scope plan build_event lock = do
    next ← on_registry (next_seqs run_id plan.event_count)
    elim next [
      | none ↦ commit_absent run_id scope plan lock
      | some seqs ↦
          commit_numbered run_id session_id scope plan (build_events build_event seqs) seqs lock
    ]

  unfoldable pub commit_with :
      RunId
      → SessionId
      → P.Scope
      → CommitPlan P
      → (ℕ → ℤ → P.Event)
      → Call S C (RunCommitResult P.Event)
  commit_with run_id session_id scope plan build_event = do
    checks (check_plan P run_id session_id plan)
    with_run run_id scope (commit_next run_id session_id scope plan build_event)
