-- ===== src/Memory/Leases.antt =====
-- src/store/memory/lease.rs: leases on runs and threads, their renewal and release, and the reaper.
use typemach.Base.{
  ℕ, Option, none, some, Bool, true, false, not, List, [], ◌∷◌, ◌++◌, ◌&&◌, ◌||◌, ltb, leb, ◌+◌,
  last, length, if◌then◌else◌,
}
use typemach.Base.Int.{ℤ, pos, inc, int_beq}
use typemach.Base.Eq.{◌=?◌, string_eq, option_beq}
use typemach.Base.Map.{get, insert, remove, keys}
use typemach.Run.{RunId, LeaseId, WorkerId}
use typemach.Error.{Result, ok, err, ◌>>◌, fail_if, invalid_run_event, lease_lost, thread_busy}
use typemach.Params.{Params}
use typemach.Store.{Lease, LeaseClaim, RunStart, RunLookup, error}
use typemach.Memory.State.{
  MemoryLease, MemoryThreadLease, MemoryRun, Inner, Clock, Action, is_running, run_lookup,
}

unfoldable pub memory_lease : ℕ → LeaseClaim → MemoryLease
memory_lease now claim = record { owner = claim.owner; id = claim.id; until = now + claim.ttl }

-- The lease is held by `owner` under `id`.
abbrev pub lease_is : WorkerId → LeaseId → MemoryLease → Bool
lease_is owner id active = active.owner =? owner && active.id =? id

abbrev pub thread_lease_is : RunId → WorkerId → LeaseId → MemoryThreadLease → Bool
thread_lease_is run owner id thread = thread.run =? run && thread.owner =? owner && thread.id =? id

-- The thread's lease, if it has not run out.
unfoldable pub live_thread_lease : ℕ → Option MemoryThreadLease → Option MemoryThreadLease
live_thread_lease now none = none
live_thread_lease now (some active) = if ltb now active.until then some active else none

-- `reaped.push(lookup)`, unless the round said `continue`.
abbrev pub push_lookup : List RunLookup → Option RunLookup → List RunLookup
push_lookup reaped none = reaped
push_lookup reaped (some lookup) = reaped ++ lookup ∷ []

module _ {P : Params} where
  unfoldable pub thread_lease : RunStart P → LeaseClaim → ℕ → MemoryThreadLease
  thread_lease run claim now = record {
    run = run.run_id;
    owner = claim.owner;
    id = claim.id;
    until = now + claim.ttl;
  }

  unfoldable pub claim_memory_thread : RunStart P → LeaseClaim → ℕ → Action P (Unit {0})
  claim_memory_thread run claim now s =
      elim (live_thread_lease now (get run.thread_id s.thread_leases)) [
        | some active ↦ (err (thread_busy (some active.owner) (some active.run)), s)
        | none ↦ (
          ok tt,
          record s {
            thread_leases = insert run.thread_id (thread_lease run claim now) s.thread_leases;
          },
        )
      ]

  -- An unleased run is open to every caller; a leased one only to the holder, in time.
  unfoldable pub check_memory_lease : MemoryRun P → Option LeaseId → ℕ → Result (Unit {0})
  check_memory_lease run lease now = elim run.lease [
    | none ↦ ok tt
    | some active ↦
        fail_if (not (option_beq lease (some active.id)) || leb active.until now) lease_lost
  ]

  -- The tests of `renew` on the run and on the thread's lease.
  unfoldable pub run_renewable : ℕ → Lease → MemoryRun P → MemoryLease → Bool
  run_renewable now lease run active =
      is_running run.status && lease_is lease.owner lease.id active && ltb now active.until

  unfoldable pub renewed_run : ℕ → MemoryRun P → MemoryLease → MemoryRun P
  renewed_run until run active = record run { lease = some (record active { until = until }) }

  unfoldable pub renew_thread :
      Clock → Lease → ℕ → MemoryRun P → MemoryLease → MemoryThreadLease → Action P Bool
  renew_thread clock lease ttl run active thread s =
      let until = clock.instant 2 + ttl in
      if thread_lease_is lease.run lease.owner lease.id thread && ltb (clock.instant 1) thread.until
      then (
        ok true,
        record s {
          thread_leases =
              insert run.start.thread_id (record thread { until = until }) s.thread_leases;
          runs = insert lease.run (renewed_run until run active) s.runs;
        },
      )
      else (ok false, s)

  unfoldable pub renew_run : Clock → Lease → ℕ → MemoryRun P → MemoryLease → Action P Bool
  renew_run clock lease ttl run active s =
      if run_renewable (clock.instant 0) lease run active
      then elim (get run.start.thread_id s.thread_leases) [
        | none ↦ (ok false, s)
        | some thread ↦ renew_thread clock lease ttl run active thread s
      ]
      else (ok false, s)

  unfoldable pub renew : Clock → Lease → ℕ → Action P Bool
  renew clock lease ttl s = elim (get lease.run s.runs) [
    | none ↦ (ok false, s)
    | some run ↦ elim run.lease [
      | none ↦ (ok false, s)
      | some active ↦ renew_run clock lease ttl run active s
    ]
  ]

  unfoldable pub held_by : WorkerId → LeaseId → MemoryRun P → Bool
  held_by owner id run = elim run.lease [ none ↦ false | some active ↦ lease_is owner id active ]

  unfoldable pub release : Lease → Action P (Unit {0})
  release lease s = elim (get lease.run s.runs) [
    | none ↦ (ok tt, s)
    | some run ↦
        if held_by lease.owner lease.id run
        then (
          ok tt,
          record s {
            runs = insert lease.run (record run { lease = none }) s.runs;
            thread_leases = remove run.start.thread_id s.thread_leases;
          },
        )
        else (ok tt, s)
  ]

  -- A running run whose lease has run out.
  unfoldable pub is_stale : ℕ → MemoryRun P → Bool
  is_stale now run =
      is_running run.status
      && elim run.lease [ none ↦ false | some active ↦ not (ltb now active.until) ]

  -- The number of the event that would come next.
  unfoldable pub next_event_seq : MemoryRun P → ℤ
  next_event_seq run =
      inc (elim (last run.events) [ none ↦ pos 0 | some event ↦ P.event.seq event ])

  unfoldable pub check_reap_event : MemoryRun P → ℤ → P.Event → Result (Unit {0})
  check_reap_event run seq event = do
    fail_if
        (not (P.event.run_id event =? run.start.run_id)
          || not (P.event.session_id event =? run.start.session_id))
        (invalid_run_event "reap event target does not match run")
    fail_if (not (int_beq (P.event.seq event) seq) || not (P.event.is_terminal event))
        (invalid_run_event "reap requires the next terminal event")

  unfoldable pub reaped_run : MemoryRun P → P.Event → MemoryRun P
  reaped_run run event = record run {
    status = error;
    finish_reason = some "lease_expired";
    finish_data = some P.default_data;
    terminal_event = some event;
    events = run.events ++ event ∷ [];
    lease = none;
  }

  unfoldable pub reaped_lookup : MemoryRun P → RunLookup
  reaped_lookup run = record (run_lookup run) {
    status = error;
    finish_reason = some "lease_expired";
    owner = none;
  }

  unfoldable pub reap_run : RunId → MemoryRun P → P.Event → Inner P → Inner P
  reap_run run_id run event s = record s {
    runs = insert run_id (reaped_run run event) s.runs;
    thread_leases = remove run.start.thread_id s.thread_leases;
  }

  -- One round of the loop of `reap_stale`; `none` is its `continue`.
  unfoldable pub reap_one : ℕ → (RunLookup → ℤ → P.Event) → RunId → Action P (Option RunLookup)
  reap_one now build_event run_id s = elim (get run_id s.runs) [
    | none ↦ (ok none, s)
    | some run ↦
        let event = build_event (run_lookup run) (next_event_seq run) in
        if is_stale now run
        then elim (check_reap_event run (next_event_seq run) event) [
          | err e ↦ (err e, s)
          | ok _ ↦ (ok (some (reaped_lookup run)), reap_run run_id run event s)
        ]
        else (ok none, s)
  ]

  -- `build_event` is a closure with a state of its own: it may answer each call differently.
  unfoldable pub reap_ids :
      ℕ
      → (ℕ → RunLookup → ℤ → P.Event)
      → ℕ
      → List RunId
      → List RunLookup
      → Action P (List RunLookup)
  reap_ids limit build_event now [] reaped s = (ok reaped, s)
  reap_ids limit build_event now (run_id ∷ run_ids) reaped s =
      let (r, s') = reap_one now (build_event (length reaped)) run_id s in
      elim (leb limit (length reaped)) [
        | true ↦ (ok reaped, s)
        | false ↦ elim r [
          | err e ↦ (err e, s')
          | ok o ↦ reap_ids limit build_event now run_ids (push_lookup reaped o) s'
        ]
      ]

  unfoldable pub reap_stale : Clock → ℕ → (ℕ → RunLookup → ℤ → P.Event) → Action P (List RunLookup)
  reap_stale clock limit build_event s =
      reap_ids limit build_event (clock.instant 0) (keys s.runs) [] s
