-- ===== src/Memory/Commit.antt =====
-- `commit_run`: a checkpoint, events, effects, items, entries and the end of a run in one call.
use typemach.Base.{
  ℕ, String, Option, none, some, Bool, not, ◌&&◌, ◌||◌, List, [], ◌∷◌, ◌++◌, last, is_empty, leb,
  if◌then◌else◌,
}
use typemach.Base.Eq.{◌=?◌, string_eq, option_beq}
use typemach.Base.Map.{get, insert, remove}
use typemach.Run.{RunId, LeaseId}
use typemach.Error.{
  Result, ok, err, ◌>>=◌, ◌>>◌, fail_if, invalid_run_event, lease_lost, run_not_found, thread_busy,
}
use typemach.Checkpoint.{require_run}
use typemach.Params.{Params}
use typemach.Store.{
  RunCommit, RunFinish, RunCommitResult, recorded, finished_with, skipped, finished,
  already_finished, is_terminal, CheckpointWrite,
}
use typemach.Memory.State.{
  Inner, MemoryRun, MemoryLease, MemoryThreadLease, Clock, now_ms, Action, running_memory_thread,
}
use typemach.Memory.Validate.{scope_key, validate_commit_events, validate_event_sequence}
use typemach.Memory.Ops.{
  validate_effect_updates, validate_items, validate_entries, apply_effect_updates, apply_items,
  apply_entries,
}
use typemach.Memory.Leases.{check_memory_lease, live_thread_lease, thread_lease_is}
use typemach.Memory.Start.{insert_run}

-- The thread's lease is the run's own, named by the caller, and has not run out.
unfoldable pub check_thread_lease :
    RunId → MemoryLease → Option LeaseId → ℕ → Option MemoryThreadLease → Result (Unit {0})
check_thread_lease run_id active lease now none = err lease_lost
check_thread_lease run_id active lease now (some thread) =
    fail_if
      (not (thread_lease_is run_id active.owner active.id thread)
        || not (option_beq lease (some thread.id))
        || leb thread.until now)
      lease_lost

-- A run with no lease writes only where no other lease is live.
unfoldable pub check_thread_open : ℕ → Option MemoryThreadLease → Result (Unit {0})
check_thread_open now thread = elim (live_thread_lease now thread) [
  | none ↦ ok tt
  | some live ↦ err (thread_busy (some live.owner) (some live.run))
]

module _ {P : Params} where
  unfoldable pub is_empty_commit : RunCommit P → Bool
  is_empty_commit c =
      is_empty c.events && is_empty c.effects && is_empty c.items && is_empty c.entries

  unfoldable pub check_thread_run : MemoryRun P → Inner P → Result (Unit {0})
  check_thread_run run s = elim (running_memory_thread s run.start.thread_id run.start.run_id) [
    | none ↦ ok tt
    | some (owner, other) ↦ err (thread_busy owner other)
  ]

  unfoldable pub check_memory_thread :
      Inner P → MemoryRun P → CheckpointWrite P.Value → Option LeaseId → ℕ → Result (Unit {0})
  check_memory_thread s run checkpoint lease now = do
    fail_if (not (checkpoint.thread_id =? run.start.thread_id))
        (invalid_run_event "checkpoint thread_id does not match target run")
    check_thread_run run s
    elim run.lease [
      | none ↦ check_thread_open now (get run.start.thread_id s.thread_leases)
      | some active ↦
          check_thread_lease run.start.run_id active lease now
            (get run.start.thread_id s.thread_leases)
    ]

  unfoldable pub check_checkpoint :
      Inner P
      → MemoryRun P
      → RunId
      → Option LeaseId
      → ℕ
      → Option (CheckpointWrite P.Value)
      → Result (Unit {0})
  check_checkpoint s run run_id lease now none = ok tt
  check_checkpoint s run run_id lease now (some checkpoint) = do
    check_memory_thread s run checkpoint lease now
    require_run checkpoint.checkpoint run_id

  -- The checks on an open run, in the order in which they are made, and the scope's key.
  unfoldable pub check_commit : Clock → RunCommit P → MemoryRun P → Inner P → Result String
  check_commit clock c run s = do
    check_memory_lease run c.lease (clock.instant 0)
    check_checkpoint s run c.run_id c.lease (clock.instant 1) c.checkpoint
    validate_event_sequence run c.events
    validate_effect_updates s c.run_id c.effects
    validate_items s c.run_id c.items
    scope ← scope_key P c.scope
    validate_entries s scope c.session_id c.entries
    ok scope

  unfoldable pub write_checkpoint : Option (CheckpointWrite P.Value) → Inner P → Inner P
  write_checkpoint none s = s
  write_checkpoint (some w) s = record s {
    checkpoints = insert w.thread_id w.checkpoint s.checkpoints;
  }

  unfoldable pub append_events : List P.Event → MemoryRun P → MemoryRun P
  append_events events run = record run { events = run.events ++ events }

  unfoldable pub ended_run : RunFinish P → P.Event → MemoryRun P → MemoryRun P
  ended_run finish event run = record run {
    status = finish.status;
    finish_reason = some finish.finish_reason;
    finish_data = some finish.finish_data;
    terminal_event = some event;
    lease = none;
  }

  unfoldable pub end_run : RunCommit P → RunFinish P → P.Event → MemoryRun P → Inner P → Inner P
  end_run c finish event run s = record s {
    runs = insert c.run_id (ended_run finish event (append_events c.events run)) s.runs;
    thread_leases = remove run.start.thread_id s.thread_leases;
  }

  -- The events, and the end of the run if the commit finishes it.
  unfoldable pub write_events : RunCommit P → MemoryRun P → Action P (RunCommitResult P.Event)
  write_events c run s = elim c.finish [
    | none ↦ (ok (recorded c.events), insert_run c.run_id (append_events c.events run) s)
    | some finish ↦ elim (last c.events) [
      | none ↦ (
        err (invalid_run_event "finish commit requires a terminal event"),
        insert_run c.run_id (append_events c.events run) s,
      )
      | some event ↦ (ok (finished_with c.events (finished event)), end_run c finish event run s)
    ]
  ]

  unfoldable pub commit_rest :
      Clock → String → RunCommit P → MemoryRun P → Action P (RunCommitResult P.Event)
  commit_rest clock scope c run s = write_events c run (
      apply_entries (now_ms clock 2) scope c.run_id c.session_id run.start.thread_id c.entries
        (apply_items (now_ms clock 1) c.run_id c.items s))

  unfoldable pub commit_write :
      Clock → String → RunCommit P → MemoryRun P → Action P (RunCommitResult P.Event)
  commit_write clock scope c run s =
      let (r, s') =
        apply_effect_updates (now_ms clock 0) c.run_id c.effects
          (write_checkpoint c.checkpoint s) in
      elim r [ err e ↦ (err e, s') | ok _ ↦ commit_rest clock scope c run s' ]

  -- What a commit for a run that has ended is told.
  unfoldable pub commit_ended : RunCommit P → MemoryRun P → RunCommitResult P.Event
  commit_ended c run = elim c.finish [
    | none ↦ skipped
    | some _ ↦ elim run.terminal_event [
      | none ↦ skipped
      | some event ↦ finished_with (event ∷ []) (already_finished event)
    ]
  ]

  unfoldable pub commit_open :
      Clock → RunCommit P → MemoryRun P → Action P (RunCommitResult P.Event)
  commit_open clock c run s = elim (check_commit clock c run s) [
    | err e ↦ (err e, s)
    | ok scope ↦ commit_write clock scope c run s
  ]

  unfoldable pub commit_target :
      Clock → RunCommit P → MemoryRun P → Action P (RunCommitResult P.Event)
  commit_target clock c run s =
      if P.scope_eq.beq run.start.scope c.scope
      then if run.start.session_id =? c.session_id
        then if is_terminal run.status
          then (ok (commit_ended c run), s)
          else commit_open clock c run s
        else (err (invalid_run_event "event session_id does not match target run"), s)
      else (err run_not_found, s)

  unfoldable pub check_commit_shape : RunCommit P → Result (Unit {0})
  check_commit_shape c = do
    fail_if (is_empty_commit c)
        (invalid_run_event "commit requires an event, effect, item, or entry")
    validate_commit_events c

  unfoldable pub commit_run : Clock → RunCommit P → Action P (RunCommitResult P.Event)
  commit_run clock c s = elim (check_commit_shape c) [
    | err e ↦ (err e, s)
    | ok _ ↦ elim (get c.run_id s.runs) [
      | none ↦ (ok skipped, s)
      | some run ↦ commit_target clock c run s
    ]
  ]
