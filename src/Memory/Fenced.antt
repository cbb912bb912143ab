-- ===== src/Memory/Fenced.antt =====
-- Calls on a run that has a lease: src/store/memory.rs and src/store/memory/lease.rs.
use typemach.Base.{
  ℕ, String, Option, some, false, ◌≡◌, ◌≢◌, ◌⊎◌, ◌≤◌, refl, inl, inr, leb, not, ◌||◌, arith,
  Bool-cases,
}
use typemach.Base.Eq.{string_eq, option_eq, option_beq, option_beq_iff}
use typemach.Base.Map.{get, get_unique}
use typemach.Run.{RunId, LeaseId}
use typemach.Error.{ok, fail_if, lease_lost, fail_if-ok, Result-cases}
use typemach.Params.{Params}
use typemach.Store.{RunCommit, RunFinishRecord, is_terminal}
use typemach.Memory.State.{Inner, MemoryRun, MemoryLease, Clock}
use typemach.Memory.Finish.{finish_run, record_event}
use typemach.Memory.Commit.{commit_run}
use typemach.Memory.Effects.{reserve_effect, start_effect, effect_run}
use typemach.Memory.Leases.{check_memory_lease}
use typemach.Memory.Checked.{CommitChecked-of_ok}
use typemach.Memory.Cases.Commit.{commit_cases, wrote}
use typemach.Memory.Cases.Finish.{finish_cases, record_cases}
use typemach.Memory.Cases.Effects.{reserve_cases, start_effect_cases}
use typemach.Memory.Valid.Checks.{FinishFits-of_passes, RecordFits-of_ok}

-- The caller does not name the lease, or it has run out.
abbrev pub Denied : Option LeaseId → MemoryLease → ℕ → Type 0
Denied lease active now = (lease ≢ some active.id) ⊎ (active.until ≤ now)

Denied-or :
    (lease : Option LeaseId) (active : MemoryLease) (now : ℕ)
    → fail_if (not (option_beq lease (some active.id)) || leb active.until now) lease_lost ≡ ok tt
    → Denied lease active now
    → ⊥
Denied-or lease active now h (inl other) =
    let passed = fail_if-ok (not (option_beq lease (some active.id)) || leb active.until now) _ h in
    other (ground (arith, passed, (option_beq_iff lease (some active.id)).0))
Denied-or lease active now h (inr late) =
    let passed = fail_if-ok (not (option_beq lease (some active.id)) || leb active.until now) _ h in
    ground (arith, passed)

module _ {P : Params} where
  -- The check on the lease passes only the holder of a live lease.
  lease-Denied :
      (run : MemoryRun P) (active : MemoryLease) (lease : Option LeaseId) (now : ℕ)
      → run.lease ≡ some active
      → check_memory_lease run lease now ≡ ok tt
      → Denied lease active now
      → ⊥
  unfolding check_memory_lease
  lease-Denied run active lease now leased h =
      Denied-or lease active now (rw (leased, check_memory_lease) at h)

  -- A commit on an open run with a lease writes nothing and reports no write if it does not name
  -- the lease, or once the lease has run out.
  pub commit_run-fenced :
      (clock : Clock) (c : RunCommit P) (s : Inner P) (run : MemoryRun P) (active : MemoryLease)
      → get c.run_id s.runs ≡ some run
      → run.lease ≡ some active
      → Denied c.lease active (clock.instant 0)
      → ((commit_run clock c s).1 ≡ s) × (wrote (commit_run clock c s).0 ≡ false)
  commit_run-fenced clock c s run active found leased denied =
      commit_cases clock c s (λ x. (x.1 ≡ s) × (wrote x.0 ≡ false)) (λ r no. (refl, no))
        λ scope q passes.
          let same : q ≡ run = get_unique s.runs passes.found found refl in
          let checked = CommitChecked-of_ok clock c q s passes.checked in
          absurd
            (lease-Denied q active c.lease (clock.instant 0) (rw same leased) checked.lease denied)

  effect_run-lease :
      (run_id : RunId) (scope : P.Scope) (lease : Option LeaseId) (clock : Clock) (s : Inner P)
      (q run : MemoryRun P)
      → effect_run run_id scope lease clock s ≡ ok q
      → get run_id s.runs ≡ some run
      → check_memory_lease run lease (clock.instant 0) ≡ ok tt
  unfolding effect_run
  effect_run-lease run_id scope lease clock s q run h found =
      elim (Bool-cases (P.scope_eq.beq run.start.scope scope)) [
        | inr other ↦ absurd (cc (rw (found, effect_run, other) at h))
        | inl scoped ↦ elim (Bool-cases (is_terminal run.status)) [
          | inl over ↦ absurd (cc (rw (found, effect_run, scoped, over) at h))
          | inr live ↦ elim (Result-cases (check_memory_lease run lease (clock.instant 0))) [
            | inl (e, bad) ↦ absurd (cc (rw (found, effect_run, scoped, live, bad) at h))
            | inr (_, good) ↦ good
          ]
        ]
      ]

  -- Nor does such a caller reserve or start an effect of the run.
  pub effects-fenced :
      (clock : Clock) (run_id : RunId) (scope : P.Scope) (lease : Option LeaseId)
      (key kind : String) (request : P.Value) (s : Inner P) (run : MemoryRun P)
      (active : MemoryLease)
      → get run_id s.runs ≡ some run
      → run.lease ≡ some active
      → Denied lease active (clock.instant 0)
      → ((reserve_effect clock run_id scope lease key kind request s).1 ≡ s)
        × ((start_effect clock run_id scope lease key s).1 ≡ s)
  effects-fenced clock run_id scope lease key kind request s run active found leased denied = (
    reserve_cases clock run_id scope lease key kind request s (λ x. x.1 ≡ s) (λ e. refl)
        (λ old found same. refl)
        λ q admitted fresh.
          let good = effect_run-lease run_id scope lease clock s q run admitted found in
          absurd (lease-Denied run active lease (clock.instant 0) leased good denied),
    start_effect_cases clock run_id scope lease key s (λ x. x.1 ≡ s) (λ e. refl)
        (λ old found same. refl)
        λ q old admitted known idle fresh.
          let good = effect_run-lease run_id scope lease clock s q run admitted found in
          absurd (lease-Denied run active lease (clock.instant 0) leased good denied),
  )

  -- `finish_run` and `record_event`, which name no lease, write nothing on a run that has one, whether
  -- or not it has run out.
  pub leased-closed :
      (clock : Clock) (finish : RunFinishRecord P) (scope : P.Scope) (event : P.Event) (s : Inner P)
      (run : MemoryRun P) (active : MemoryLease)
      → get finish.run_id s.runs ≡ some run
      → run.lease ≡ some active
      → ((finish_run clock finish s).1 ≡ s) × ((record_event finish.run_id scope event s).1 ≡ s)
  leased-closed clock finish scope event s run active found leased = (
    finish_cases clock finish s (λ x. x.1 ≡ s) (λ r _. refl)
        λ key q passes.
          let same : q ≡ run = get_unique s.runs passes.found found refl in
          let free = (FinishFits-of_passes finish s key q passes).unleased in
          absurd (cc (free, leased, same)),
    record_cases finish.run_id scope event s (λ x. x.1 ≡ s) (λ r. refl)
        λ q shape known live checked.
          let same : q ≡ run = get_unique s.runs known found refl in
          let free = (RecordFits-of_ok finish.run_id event q shape live checked).unleased in
          absurd (cc (free, leased, same)),
  )
