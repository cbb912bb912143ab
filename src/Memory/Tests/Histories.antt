-- ===== src/Memory/Tests/Histories.antt =====
-- Histories of calls on the concrete store.
use typemach.Base.{
  ℕ, String, Option, none, some, Bool, true, false, List, [], ◌∷◌, ◌++◌, ◌≡◌, refl, ◌≢◌, ◌⊎◌,
}
use typemach.Base.Eq.{string_eq}
use typemach.Base.Map.{get}
use typemach.Error.{ok, run_not_found}
use typemach.Event.{RunEventEnvelope}
use typemach.Store.{RunStart, RunCommit, existing, already_finished, CheckpointWrite}
use typemach.Memory.State.{Inner, MemoryRun, Clock, empty, run_lookup}
use typemach.Memory.Start.{start_run, open_session}
use typemach.Memory.Finish.{finish_run}
use typemach.Memory.Commit.{commit_run}
use typemach.Memory.Queries.{load_checkpoint}
use typemach.Memory.Calls.{cancels, reaps, run_calls, step}
use typemach.Memory.Cases.Start.{made}
use typemach.Memory.Cases.Finish.{ended_now}
use typemach.Memory.Cases.Commit.{wrote}
use typemach.Memory.Grows.{Grows}
use typemach.Memory.Grows.Calls.{run_calls-Grows}
use typemach.Memory.Valid.{Valid}
use typemach.Memory.Valid.Calls.{Rooms}
use typemach.Memory.Valid.History.{run_calls-Valid, step-Valid, empty-Valid}
use typemach.Memory.Atomic.{commit_run-atomic, step-atomic, call_error, after_error}
use typemach.Memory.Applied.{Applied}
use typemach.Memory.Again.{start_run-again, finish_run-again}
use typemach.Memory.SameKey.{start_run-one_run}
use typemach.Memory.Durable.{commit_run-log, commit_run-checkpoint}
use typemach.Memory.Tests.Sample.{
  Sample, at, start_with, event, finish, commit_with, expired, history, opened,
}

-- A run from its start to its end.
run_calls-Valid_example : Valid (run_calls history (empty Sample))
run_calls-Valid_example = run_calls-Valid history (tt, (tt, (tt, (tt, tt))))

no_runs : Rooms (empty Sample)
unfolding get
no_runs k r h live = cc

step-Valid_example : Valid (step (at 9, reaps 5 expired) (empty Sample))
step-Valid_example = step-Valid (at 9, reaps 5 expired) (empty Sample) no_runs empty-Valid

run_calls-Grows_example : Grows opened (run_calls history opened)
run_calls-Grows_example = run_calls-Grows history opened

abbrev with_item : RunCommit Sample
with_item = record (commit_with none) {
  items = record { key = "item"; kind = "note"; body = "kept" } ∷ [];
}

commit_run-atomic_example :
    ((wrote (commit_run (at 1) with_item opened).0 ≡ true)
      × Applied with_item opened (commit_run (at 1) with_item opened).1)
    ⊎ ((wrote (commit_run (at 1) with_item opened).0 ≡ false)
        × ((commit_run (at 1) with_item opened).1 ≡ opened))
commit_run-atomic_example = commit_run-atomic (at 1) with_item opened

cancel-refused : call_error (at 1, cancels "run" "scope") (empty Sample) ≡ some run_not_found
unfolding call_error typemach.Memory.Finish.mark_cancelled get
cancel-refused = refl

step-atomic_example :
    step (at 1, cancels "run" "scope") (empty Sample)
    ≡ after_error (at 1, cancels "run" "scope") (empty Sample)
step-atomic_example =
    step-atomic (at 1, cancels "run" "scope") (empty Sample) run_not_found cancel-refused

start-made : made (start_run (at 0) (start_with none) (empty Sample)).0 ≡ true
unfolding start_run typemach.Memory.Validate.scope_key typemach.Store.start_sig
    typemach.Memory.Start.start_keyed get open_session typemach.Memory.Start.idempotent_run
    typemach.Memory.Start.idempotency_key typemach.Memory.Start.start_new
    typemach.Memory.Start.check_new typemach.Memory.Ops.validate_entries_after
    typemach.Memory.Ops.entry_agrees typemach.Memory.Start.check_thread_free
    typemach.Memory.State.running_memory_thread typemach.Base.Map.find
    typemach.Memory.Start.claim_lease
start-made = refl

-- The same start, after the run has ended.
start_run-again_example :
    let t = run_calls history (start_run (at 0) (start_with none) (empty Sample)).1 in
    (old : MemoryRun Sample) × (get "run" t.runs ≡ some old)
    × (old.start ≡ start_with none)
    × (start_run (at 9) (start_with none) t
        ≡ (ok (existing (run_lookup old)), open_session "session" "scope" t))
start_run-again_example =
    start_run-again (at 0) (at 9) (start_with none) history (empty Sample) start-made

-- Another run id under the first start's key, after that run has ended.
abbrev renamed : RunStart Sample
renamed = record (start_with none) { run_id = "other" }

start_run-one_run_example :
    made
      (start_run
        (at 9)
        renamed
        (run_calls history (start_run (at 0) (start_with none) (empty Sample)).1)).0
    ≡ false
start_run-one_run_example =
    start_run-one_run (at 0) (at 9) "key" (start_with none) renamed history (empty Sample)
      start-made refl refl refl refl

finish-made : ended_now (finish_run (at 2) finish opened).0 ≡ true
unfolding finish_run typemach.Memory.Finish.check_finish typemach.Memory.Validate.validate_event_run
    get typemach.Memory.Finish.finish_target typemach.Memory.Finish.check_finish_target
    typemach.Memory.Finish.check_finish_open typemach.Memory.Validate.scope_key
    typemach.Memory.Ops.validate_entries_after typemach.Memory.Validate.validate_next_seq
finish-made = refl

finish_run-again_example :
    let t = run_calls history (finish_run (at 2) finish opened).1 in
    finish_run (at 9) finish t ≡ (ok (already_finished (event 2 true)), t)
finish_run-again_example = finish_run-again (at 2) (at 9) finish history opened finish-made

commit-made : wrote (commit_run (at 1) (commit_with none) opened).0 ≡ true
unfolding commit_run typemach.Memory.Commit.check_commit_shape
    typemach.Memory.Commit.is_empty_commit typemach.Memory.Validate.validate_commit_events
    typemach.Memory.Validate.validate_events typemach.Memory.Validate.validate_event_run
    typemach.Memory.Validate.validate_finish get typemach.Memory.Commit.commit_target
    typemach.Memory.Commit.commit_open typemach.Memory.Commit.check_commit
    typemach.Memory.Leases.check_memory_lease typemach.Memory.Commit.check_checkpoint
    typemach.Memory.Commit.check_memory_thread typemach.Memory.Commit.check_thread_run
    typemach.Memory.State.running_memory_thread typemach.Base.Map.find
    typemach.Memory.Commit.check_thread_open typemach.Memory.Leases.live_thread_lease
    typemach.Checkpoint.require_run typemach.Memory.Validate.validate_event_sequence
    typemach.Memory.Validate.validate_sequence typemach.Memory.Ops.validate_effects_after
    typemach.Memory.Ops.validate_items_after typemach.Memory.Ops.item_agrees
    typemach.Memory.Validate.scope_key typemach.Memory.Ops.validate_entries_after
    typemach.Memory.Commit.commit_write typemach.Memory.Ops.apply_effect_updates
    typemach.Memory.Commit.commit_rest typemach.Memory.Commit.write_events
commit-made = refl

commit_run-log_example :
    (before later : MemoryRun Sample) × (get "run" opened.runs ≡ some before)
    × (get "run" (run_calls history (commit_run (at 1) (commit_with none) opened).1).runs
        ≡ some later)
    × (more : List (RunEventEnvelope Bool)) × (later.events
        ≡ (before.events ++ event 1 false ∷ []) ++ more)
commit_run-log_example = commit_run-log (at 1) (commit_with none) history opened commit-made

abbrev saved : CheckpointWrite String
saved = record {
  thread_id = "thread";
  checkpoint = record {
    version = 1;
    state = "{}";
    next_step = none;
    interrupted_step = none;
    interrupt = none;
    run_id = some "run";
  };
}

commit_run-checkpoint_example :
    load_checkpoint "thread" (commit_run (at 1) (commit_with none) opened).1 ≡ some saved.checkpoint
commit_run-checkpoint_example =
    commit_run-checkpoint (at 1) (commit_with none) opened saved refl commit-made
