-- ===== src/Memory/Calls.antt =====
-- The calls that may change the store, and histories of them.
use typemach.Base.{ℕ, String, Option, List, [], ◌∷◌}
use typemach.Base.Int.{ℤ}
use typemach.Run.{RunId, SessionId, LeaseId}
use typemach.Params.{Params}
use typemach.Store.{Lease, RunStart, RunCommit, RunFinishRecord, RunLookup}
use typemach.Memory.State.{Inner, Clock}
use typemach.Memory.Sessions.{ensured}
use typemach.Memory.Start.{start_run}
use typemach.Memory.Finish.{finish_run, record_event, mark_cancelled}
use typemach.Memory.Commit.{commit_run}
use typemach.Memory.Effects.{reserve_effect, start_effect}
use typemach.Memory.Leases.{renew, release, reap_stale}

pub data Call (P : Params) : Type 0 where
  ensures : Option SessionId → P.Scope → Call P
  starts : RunStart P → Call P
  finishes : RunFinishRecord P → Call P
  cancels : RunId → P.Scope → Call P
  records : RunId → P.Scope → P.Event → Call P
  commits : RunCommit P → Call P
  reserves : RunId → P.Scope → Option LeaseId → String → String → P.Value → Call P
  begins : RunId → P.Scope → Option LeaseId → String → Call P
  renews : Lease → ℕ → Call P
  releases : Lease → Call P
  reaps : ℕ → (ℕ → RunLookup → ℤ → P.Event) → Call P

module _ {P : Params} where
  -- The state after a call, whatever it answers.
  unfoldable pub step : Clock × Call P → Inner P → Inner P
  step (clock, ensures asked scope) s = ensured asked scope s
  step (clock, starts run) s = (start_run clock run s).1
  step (clock, finishes finish) s = (finish_run clock finish s).1
  step (clock, cancels run_id scope) s = (mark_cancelled run_id scope s).1
  step (clock, records run_id scope event) s = (record_event run_id scope event s).1
  step (clock, commits c) s = (commit_run clock c s).1
  step (clock, reserves run_id scope lease key kind request) s =
      (reserve_effect clock run_id scope lease key kind request s).1
  step (clock, begins run_id scope lease key) s = (start_effect clock run_id scope lease key s).1
  step (clock, renews lease ttl) s = (renew clock lease ttl s).1
  step (clock, releases lease) s = (release lease s).1
  step (clock, reaps limit build_event) s = (reap_stale clock limit build_event s).1

  -- The state after a history of calls, in the order in which they take the store's lock.
  unfoldable pub run_calls : List (Clock × Call P) → Inner P → Inner P
  run_calls [] s = s
  run_calls (call ∷ calls) s = run_calls calls (step call s)
