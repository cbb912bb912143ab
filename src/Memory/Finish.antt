-- ===== src/Memory/Finish.antt =====
-- `finish_run`, `record_event` and `mark_cancelled`: the calls on one run outside a commit.
use typemach.Base.{
  String, none, some, Bool, true, false, not, [], ◌∷◌, ◌++◌, is_some, if◌then◌else◌,
}
use typemach.Base.Eq.{◌=?◌, string_eq}
use typemach.Base.Map.{get}
use typemach.Run.{RunId}
use typemach.Error.{
  Result, ok, err, ◌>>=◌, ◌>>◌, fail_if, ok_or, invalid_run_event, lease_lost, run_not_found,
}
use typemach.Params.{Params}
use typemach.Store.{RunFinishRecord, FinishRunResult, finished, already_finished, is_terminal}
use typemach.Memory.State.{Inner, MemoryRun, Clock, now_ms, Action}
use typemach.Memory.Validate.{scope_key, validate_event_run, validate_next_seq}
use typemach.Memory.Ops.{validate_entries, apply_entries}
use typemach.Memory.Start.{insert_run}

module _ (P : Params) where
  unfoldable pub check_record : RunId → P.Event → Result (Unit {0})
  check_record run_id event = do
    fail_if (P.event.is_terminal event)
        (invalid_run_event "record_event does not accept terminal events")
    fail_if (not (P.event.run_id event =? run_id))
        (invalid_run_event "event run_id does not match target run")

module _ {P : Params} where
  -- The checks of `finish_run` before it looks at the store.
  unfoldable pub check_finish : RunFinishRecord P → Result (Unit {0})
  check_finish finish = do
    validate_event_run P finish.run_id finish.session_id finish.terminal_event
    fail_if (not (P.event.is_terminal finish.terminal_event))
        (invalid_run_event "finish_run requires a terminal event")
    fail_if (not (is_terminal finish.status))
        (invalid_run_event "finish_run requires a terminal status")

  unfoldable pub check_finish_target : RunFinishRecord P → MemoryRun P → Result (Unit {0})
  check_finish_target finish run = do
    fail_if (not (finish.session_id =? run.start.session_id))
        (invalid_run_event "finish session_id does not match target run")
    fail_if (not (P.scope_eq.beq finish.scope run.start.scope)) run_not_found

  -- The checks on a run that is still open, and the scope's key.
  unfoldable pub check_finish_open : RunFinishRecord P → MemoryRun P → Inner P → Result String
  check_finish_open finish run s = do
    fail_if (is_some run.lease) lease_lost
    scope ← scope_key P finish.scope
    validate_entries s scope finish.session_id finish.entries
    validate_next_seq run finish.terminal_event
    ok scope

  unfoldable pub finished_run : RunFinishRecord P → MemoryRun P → MemoryRun P
  finished_run finish run = record run {
    status = finish.status;
    finish_reason = some finish.finish_reason;
    finish_data = some finish.finish_data;
    terminal_event = some finish.terminal_event;
    events = run.events ++ finish.terminal_event ∷ [];
    lease = none;
  }

  unfoldable pub finish_write : Clock → String → RunFinishRecord P → MemoryRun P → Inner P → Inner P
  finish_write clock scope finish run s = insert_run finish.run_id (finished_run finish run) (
      apply_entries (now_ms clock 0) scope finish.run_id finish.session_id run.start.thread_id
        finish.entries s)

  unfoldable pub finish_target :
      Clock → RunFinishRecord P → MemoryRun P → Action P (FinishRunResult P.Event)
  finish_target clock finish run s = elim (check_finish_target finish run) [
    | err e ↦ (err e, s)
    | ok _ ↦
        if is_terminal run.status
        then (ok_or run.terminal_event run_not_found >>= λ event. ok (already_finished event), s)
        else elim (check_finish_open finish run s) [
          | err e ↦ (err e, s)
          | ok scope ↦ (ok (finished finish.terminal_event), finish_write clock scope finish run s)
        ]
  ]

  unfoldable pub finish_run : Clock → RunFinishRecord P → Action P (FinishRunResult P.Event)
  finish_run clock finish s = elim (check_finish finish) [
    | err e ↦ (err e, s)
    | ok _ ↦ elim (get finish.run_id s.runs) [
      | none ↦ (err run_not_found, s)
      | some run ↦ finish_target clock finish run s
    ]
  ]

  unfoldable pub mark_cancelled : RunId → P.Scope → Action P (Unit {0})
  mark_cancelled run_id scope s = elim (get run_id s.runs) [
    | none ↦ (err run_not_found, s)
    | some run ↦
        if P.scope_eq.beq run.start.scope scope
        then (ok tt, insert_run run_id (record run { cancel_requested = true }) s)
        else (err run_not_found, s)
  ]

  unfoldable pub check_record_open : P.Event → MemoryRun P → Result (Unit {0})
  check_record_open event run = do
    fail_if (is_some run.lease) lease_lost
    fail_if (not (P.event.session_id event =? run.start.session_id))
        (invalid_run_event "event session_id does not match target run")
    validate_next_seq run event

  unfoldable pub push_event : P.Event → MemoryRun P → MemoryRun P
  push_event event run = record run { events = run.events ++ event ∷ [] }

  unfoldable pub record_open : RunId → P.Event → MemoryRun P → Action P Bool
  record_open run_id event run s = elim (check_record_open event run) [
    | err e ↦ (err e, s)
    | ok _ ↦ (ok true, insert_run run_id (push_event event run) s)
  ]

  -- `false` says that there is no run to record for, or that it has ended.
  unfoldable pub record_target : RunId → P.Scope → P.Event → MemoryRun P → Action P Bool
  record_target run_id scope event run s =
      if P.scope_eq.beq run.start.scope scope
      then if is_terminal run.status then (ok false, s) else record_open run_id event run s
      else (err run_not_found, s)

  unfoldable pub record_event : RunId → P.Scope → P.Event → Action P Bool
  record_event run_id scope event s = elim (check_record P run_id event) [
    | err e ↦ (err e, s)
    | ok _ ↦ elim (get run_id s.runs) [
      | none ↦ (ok false, s)
      | some run ↦ record_target run_id scope event run s
    ]
  ]
