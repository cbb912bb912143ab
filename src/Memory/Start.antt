-- ===== src/Memory/Start.antt =====
-- `start_run` and the sessions it opens.
use typemach.Base.{String, Option, none, some, false, [], map_option, if◌then◌else◌}
use typemach.Base.Eq.{◌=?◌, string_eq, triple_eq}
use typemach.Base.Map.{get, insert, or_insert}
use typemach.Run.{RunId, SessionId}
use typemach.Error.{Result, ok, err, ◌>>◌ as then_ok, start_conflict, run_not_found, thread_busy}
use typemach.Params.{Params}
use typemach.Store.{RunStart, StoreStartResult, created, existing, running, start_sig, LeaseClaim}
use typemach.Memory.State.{
  Inner, MemoryRun, Clock, now_ms, Action, ◌>>=◌, ◌>>◌, lift, modify, pure, run_lookup,
  running_memory_thread,
}
use typemach.Memory.Validate.{scope_key}
use typemach.Memory.Ops.{validate_entries, apply_entries}
use typemach.Memory.Leases.{memory_lease, claim_memory_thread}

module _ {P : Params} where
  -- `sessions.entry(id).or_insert_with(scope)`.
  unfoldable pub open_session : SessionId → P.Scope → Inner P → Inner P
  open_session session scope s = record s { sessions = or_insert session scope s.sessions }

  -- A start that finds its run: it has to be the same start.
  unfoldable pub same_start : String → MemoryRun P → Result StoreStartResult
  same_start sig old = elim (start_sig old.start) [
    | err e ↦ err e
    | ok old_sig ↦ if old_sig =? sig then ok (existing (run_lookup old)) else err start_conflict
  ]

  unfoldable pub start_again : RunStart P → String → MemoryRun P → Result StoreStartResult
  start_again run sig old =
      if P.scope_eq.beq old.start.scope run.scope then same_start sig old else err run_not_found

  unfoldable pub idempotency_key : String → RunStart P → Option (String × SessionId × String)
  idempotency_key scope run =
      map_option (λ client_key. (scope, run.session_id, client_key)) run.client_run_key

  -- The run that the client's key names, if the store still has it.
  unfoldable pub idempotent_run :
      Option (String × SessionId × String) → Inner P → Option (MemoryRun P)
  idempotent_run none s = none
  idempotent_run (some key) s = elim (get key s.idempotency) [
    | none ↦ none
    | some run_id ↦ get run_id s.runs
  ]

  unfoldable pub check_thread_free : RunStart P → Inner P → Result (Unit {0})
  check_thread_free run s = elim (running_memory_thread s run.thread_id run.run_id) [
    | none ↦ ok tt
    | some (owner, other) ↦ err (thread_busy owner other)
  ]

  -- `if let Some(claim) = &run.lease`.
  unfoldable pub claim_lease : Clock → RunStart P → Option LeaseClaim → Action P (Unit {0})
  claim_lease clock run none = pure tt
  claim_lease clock run (some claim) = claim_memory_thread run claim (clock.instant 0)

  unfoldable pub new_run : Clock → RunStart P → MemoryRun P
  new_run clock run = record {
    start = run;
    status = running;
    finish_reason = none;
    cancel_requested = false;
    finish_data = none;
    terminal_event = none;
    events = [];
    lease = map_option (memory_lease (clock.instant 1)) run.lease;
  }

  unfoldable pub insert_key : Option (String × SessionId × String) → RunId → Inner P → Inner P
  insert_key none run_id s = s
  insert_key (some key) run_id s = record s { idempotency = insert key run_id s.idempotency }

  unfoldable pub insert_run : RunId → MemoryRun P → Inner P → Inner P
  insert_run run_id run s = record s { runs = insert run_id run s.runs }

  -- The writes of a start, the thread's lease excepted.
  unfoldable pub start_write : Clock → String → RunStart P → Inner P → Inner P
  start_write clock scope run s =
      apply_entries (now_ms clock 0) scope run.run_id run.session_id run.thread_id run.entries (
        insert_run run.run_id (new_run clock run)
          (insert_key (idempotency_key scope run) run.run_id s))

  -- The checks on a start that is new, the claim excepted.
  unfoldable pub check_new : String → RunStart P → Inner P → Result (Unit {0})
  check_new scope run s =
      then_ok (validate_entries s scope run.session_id run.entries) (check_thread_free run s)

  unfoldable pub start_new : Clock → String → RunStart P → Action P StoreStartResult
  start_new clock scope run s = elim (check_new scope run s) [
    | err e ↦ (err e, s)
    | ok _ ↦
        let (r, s') = claim_lease clock run run.lease s in
        elim r [ err e ↦ (err e, s') | ok _ ↦ (ok created, start_write clock scope run s') ]
  ]

  unfoldable pub start_keyed : Clock → String → String → RunStart P → Action P StoreStartResult
  start_keyed clock scope sig run s = elim (get run.run_id s.runs) [
    | some old ↦ (start_again run sig old, s)
    | none ↦ elim (idempotent_run (idempotency_key scope run) s) [
      | some old ↦ (same_start sig old, s)
      | none ↦ start_new clock scope run s
    ]
  ]

  unfoldable pub start_run : Clock → RunStart P → Action P StoreStartResult
  start_run clock run = do
    modify (open_session run.session_id run.scope)
    scope ← lift (scope_key P run.scope)
    sig ← lift (start_sig run)
    start_keyed clock scope sig run
