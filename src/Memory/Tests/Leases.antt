-- ===== src/Memory/Tests/Leases.antt =====
-- The lease of the concrete store, asked for by its holder, by another caller, and too late.
use typemach.Base.{
  ℕ, String, Option, none, some, Bool, true, false, List, [], ◌∷◌, ◌≡◌, refl, ◌≢◌, ◌⊎◌, inl, inr,
  ◌≤◌, ◌<◌, ◌+◌, length, arith,
}
use typemach.Base.Eq.{string_eq}
use typemach.Base.Map.{get}
use typemach.Error.{ok}
use typemach.Store.{RunLookup, error}
use typemach.Memory.State.{Inner, MemoryRun, MemoryLease}
use typemach.Memory.Finish.{finish_run, record_event}
use typemach.Memory.Commit.{commit_run}
use typemach.Memory.Effects.{reserve_effect, start_effect}
use typemach.Memory.Leases.{renew, release, held_by, is_stale, reap_stale}
use typemach.Memory.Cases.Commit.{wrote}
use typemach.Memory.Fenced.{commit_run-fenced, effects-fenced, leased-closed}
use typemach.Memory.Renewal.{Live, Holds, Held, renew-Holds, release-frees}
use typemach.Memory.Reaper.{reap_stale-bound, reap_stale_complete}
use typemach.Memory.Ended.{running_runs, Tells}
use typemach.Memory.Tests.Sample.{
  Sample, at, lease, event, finish, commit_with, expired, leased, leased_run, held,
}

leased-found : get "run" leased.runs ≡ some leased_run
unfolding get
leased-found = refl

-- At tick 12 the lease, which ran until 10, is of no use to its own holder.
commit_run-fenced_example :
    ((commit_run (at 12) (commit_with (some "lease")) leased).1 ≡ leased)
    × (wrote (commit_run (at 12) (commit_with (some "lease")) leased).0 ≡ false)
commit_run-fenced_example =
    commit_run-fenced (at 12) (commit_with (some "lease")) leased leased_run held leased-found refl
      (inr (omega arith))

-- Nor is the run open, at tick 1, to a caller that names no lease.
effects-fenced_example :
    ((reserve_effect (at 12) "run" "scope" none "key" "kind" "request" leased).1 ≡ leased)
    × ((start_effect (at 12) "run" "scope" none "key" leased).1 ≡ leased)
effects-fenced_example =
    effects-fenced (at 12) "run" "scope" none "key" "kind" "request" leased leased_run held
      leased-found refl (inl (λ h. cc))

leased-closed_example :
    ((finish_run (at 1) finish leased).1 ≡ leased)
    × ((record_event "run" "scope" (event 1 false) leased).1 ≡ leased)
leased-closed_example =
    leased-closed (at 1) finish "scope" (event 1 false) leased leased_run held leased-found refl

-- At tick 1 the lease is live.
renew-Holds_example :
    ((Live (at 1) lease leased → ⊥) × (renew (at 1) lease 30 leased ≡ (ok false, leased)))
    ⊎ (((renew (at 1) lease 30 leased).0 ≡ ok true)
        × Live (at 1) lease leased
        × Holds lease 31 (renew (at 1) lease 30 leased).1)
renew-Holds_example = renew-Holds (at 1) lease 30 leased

release-frees_example :
    ((Held lease leased → ⊥) × (release lease leased ≡ (ok tt, leased)))
    ⊎ (((release lease leased).0 ≡ ok tt)
        × (run : MemoryRun Sample) × (get "run" leased.runs ≡ some run)
        × (held_by "worker" "lease" run ≡ true)
        × (get run.start.thread_id (release lease leased).1.thread_leases ≡ none)
        × (renew (at 1) lease 30 (release lease leased).1 ≡ (ok false, (release lease leased).1)))
release-frees_example = release-frees (at 1) lease 30 leased

abbrev ended : RunLookup
ended = record {
  run_id = "run";
  session_id = "session";
  thread_id = "thread";
  status = error;
  finish_reason = some "lease_expired";
  cancel_requested = false;
  owner = none;
}

reap-made : (reap_stale (at 12) 5 expired leased).0 ≡ ok (ended ∷ [])
unfolding reap_stale typemach.Memory.Leases.reap_ids typemach.Memory.Leases.reap_one get is_stale
    typemach.Memory.Leases.check_reap_event typemach.Memory.State.run_lookup
    typemach.Memory.Leases.next_event_seq typemach.Base.Int.inc typemach.Base.Int.i64_bound
    typemach.Memory.Leases.reaped_lookup
reap-made = refl

-- The reaper ends the run whose lease has run out.
reap_stale-bound_example :
    (n : ℕ) × (n ≤ 5)
    × (running_runs leased.runs ≡ running_runs (reap_stale (at 12) 5 expired leased).1.runs + n)
    × Tells (reap_stale (at 12) 5 expired leased).0 n
reap_stale-bound_example = reap_stale-bound (at 12) 5 expired leased

abbrev reaped : MemoryRun Sample
reaped = record leased_run {
  status = error;
  finish_reason = some "lease_expired";
  finish_data = some 0;
  terminal_event = some (event 1 true);
  events = event 1 true ∷ [];
  lease = none;
}

reap-kept : get "run" (reap_stale (at 12) 5 expired leased).1.runs ≡ some reaped
unfolding reap_stale typemach.Memory.Leases.reap_ids typemach.Memory.Leases.reap_one get is_stale
    typemach.Memory.Leases.check_reap_event typemach.Memory.State.run_lookup
    typemach.Memory.Leases.next_event_seq typemach.Base.Int.inc typemach.Base.Int.i64_bound
    typemach.Memory.Leases.reaped_lookup typemach.Memory.Leases.reap_run
    typemach.Memory.Leases.reaped_run typemach.Base.Map.insert
reap-kept = refl

reap_stale_complete_example : is_stale 12 reaped ≡ false
reap_stale_complete_example =
    reap_stale_complete (at 12) 5 expired leased (ended ∷ []) "run" leased_run reaped reap-made
      (omega arith) leased-found reap-kept
