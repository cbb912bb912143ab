-- ===== src/Memory/Cases/Leases.antt =====
-- The paths through `renew`, `release` and one round of the reaper.
use typemach.Base.{
  ℕ, ◌+◌, Option, none, some, Bool, true, false, ◌≡◌, refl, inl, inr, Bool-cases, Option-cases, ltb,
}
use typemach.Base.Int.{ℤ}
use typemach.Base.Eq.{string_eq}
use typemach.Base.Map.{get, insert, remove, get_unique}
use typemach.Run.{RunId}
use typemach.Error.{MachineError, Result, ok, err, Result-cases}
use typemach.Params.{Params}
use typemach.Store.{Lease, RunLookup}
use typemach.Memory.State.{Inner, MemoryRun, MemoryLease, MemoryThreadLease, Clock, run_lookup}
use typemach.Memory.Leases.{
  run_renewable, renewed_run, thread_lease_is, renew_thread, renew_run, renew, held_by, release,
  is_stale, next_event_seq, check_reap_event, reaped_lookup, reap_run, reap_one,
}

module _ {P : Params} where
  -- The state after a renewal.
  unfoldable pub renewed :
      Clock → Lease → ℕ → MemoryRun P → MemoryLease → MemoryThreadLease → Inner P → Inner P
  renewed clock lease ttl run active thread s =
      let until = clock.instant 2 + ttl in
      record s {
        thread_leases =
            insert run.start.thread_id (record thread { until = until }) s.thread_leases;
        runs = insert lease.run (renewed_run until run active) s.runs;
      }

  -- A renewal needs the run's lease and the thread's lease, both the caller's and both live.
  pub record RenewPasses (clock : Clock) (lease : Lease) (s : Inner P) (run : MemoryRun P)
      (active : MemoryLease) (thread : MemoryThreadLease) : Type 0 where
    pub found : get lease.run s.runs ≡ some run
    pub leased : run.lease ≡ some active
    pub renewable : run_renewable (clock.instant 0) lease run active ≡ true
    pub claimed : get run.start.thread_id s.thread_leases ≡ some thread
    pub held : thread_lease_is lease.run lease.owner lease.id thread ≡ true
    pub live : ltb (clock.instant 1) thread.until ≡ true

  renew_thread_cases {ℓ} :
      (clock : Clock) (lease : Lease) (ttl : ℕ) (run : MemoryRun P) (active : MemoryLease)
      (thread : MemoryThreadLease) (s : Inner P) (Q : Result Bool × Inner P → Type ℓ)
      → Q (ok false, s)
      → (thread_lease_is lease.run lease.owner lease.id thread ≡ true
          → ltb (clock.instant 1) thread.until ≡ true
          → Q (ok true, renewed clock lease ttl run active thread s))
      → Q (renew_thread clock lease ttl run active thread s)
  unfolding renew_thread renewed
  renew_thread_cases clock lease ttl run active thread s Q stay write =
      elim (Bool-cases (thread_lease_is lease.run lease.owner lease.id thread)) [
        | inr other ↦ rw (other, renew_thread) stay
        | inl held ↦ elim (Bool-cases (ltb (clock.instant 1) thread.until)) [
          | inr late ↦ rw (held, renew_thread, late) stay
          | inl live ↦ rw (held, renew_thread, live) (write held live)
        ]
      ]

  renew_run_cases {ℓ} :
      (clock : Clock) (lease : Lease) (ttl : ℕ) (run : MemoryRun P) (active : MemoryLease)
      (s : Inner P) (Q : Result Bool × Inner P → Type ℓ)
      → Q (ok false, s)
      → ((thread : MemoryThreadLease)
          → run_renewable (clock.instant 0) lease run active ≡ true
          → get run.start.thread_id s.thread_leases ≡ some thread
          → Q (renew_thread clock lease ttl run active thread s))
      → Q (renew_run clock lease ttl run active s)
  unfolding renew_run
  renew_run_cases clock lease ttl run active s Q stay go =
      elim (Bool-cases (run_renewable (clock.instant 0) lease run active)) [
        | inr lost ↦ rw (lost, renew_run) stay
        | inl renewable ↦ elim (Option-cases (get run.start.thread_id s.thread_leases)) [
          | inl missing ↦ rw (renewable, renew_run, missing) stay
          | inr (thread, claimed) ↦ rw (renewable, renew_run, claimed) (go thread renewable claimed)
        ]
      ]

  -- A renewal never fails: it says `false` and writes nothing, or `true` and extends both leases.
  pub renew_cases {ℓ} :
      (clock : Clock) (lease : Lease) (ttl : ℕ) (s : Inner P) (Q : Result Bool × Inner P → Type ℓ)
      → Q (ok false, s)
      → ((run : MemoryRun P) (active : MemoryLease) (thread : MemoryThreadLease)
          → RenewPasses clock lease s run active thread
          → Q (ok true, renewed clock lease ttl run active thread s))
      → Q (renew clock lease ttl s)
  unfolding renew
  renew_cases clock lease ttl s Q stay write = elim (Option-cases (get lease.run s.runs)) [
    | inl missing ↦ rw (missing, renew) stay
    | inr (run, found) ↦
        rw (found, renew)
          (elim (Option-cases run.lease) [
            | inl free ↦ rw (free, renew) stay
            | inr (active, leased) ↦
                rw (leased, renew)
                  (renew_run_cases clock lease ttl run active s Q stay λ thread renewable claimed.
                    renew_thread_cases clock lease ttl run active thread s Q stay λ held live.
                      write run active thread (record {
                        found = found;
                        leased = leased;
                        renewable = renewable;
                        claimed = claimed;
                        held = held;
                        live = live;
                      }))
          ])
  ]

  -- The state after a release.
  unfoldable pub released : Lease → MemoryRun P → Inner P → Inner P
  released lease run s = record s {
    runs = insert lease.run (record run { lease = none }) s.runs;
    thread_leases = remove run.start.thread_id s.thread_leases;
  }

  pub release_cases {ℓ} :
      (lease : Lease) (s : Inner P) (Q : Result (Unit {0}) × Inner P → Type ℓ)
      → (((run : MemoryRun P)
            → get lease.run s.runs ≡ some run
            → held_by lease.owner lease.id run ≡ false)
          → Q (ok tt, s))
      → ((run : MemoryRun P)
          → get lease.run s.runs ≡ some run
          → held_by lease.owner lease.id run ≡ true
          → Q (ok tt, released lease run s))
      → Q (release lease s)
  unfolding release released
  release_cases lease s Q stay write = elim (Option-cases (get lease.run s.runs)) [
    | inl missing ↦ rw (missing, release) (stay λ q h. absurd (cc))
    | inr (run, found) ↦ elim (Bool-cases (held_by lease.owner lease.id run)) [
      | inr other ↦
          rw (found, release, other)
            (stay λ q h. let same : q ≡ run = get_unique s.runs h found refl in rw same other)
      | inl held ↦ rw (found, release, held) (write run found held)
    ]
  ]

  -- A round of the reaper writes only for a stale run, with an event that fits.
  pub reap_one_cases {ℓ} :
      (now : ℕ) (build_event : RunLookup → ℤ → P.Event) (run_id : RunId) (s : Inner P)
      (Q : Result (Option RunLookup) × Inner P → Type ℓ)
      → ((e : MachineError) → Q (err e, s))
      → (((run : MemoryRun P) → get run_id s.runs ≡ some run → is_stale now run ≡ false)
          → Q (ok none, s))
      → ((run : MemoryRun P)
          → get run_id s.runs ≡ some run
          → is_stale now run ≡ true
          → let event = build_event (run_lookup run) (next_event_seq run) in
            check_reap_event run (next_event_seq run) event ≡ ok tt
            → Q (ok (some (reaped_lookup run)), reap_run run_id run event s))
      → Q (reap_one now build_event run_id s)
  unfolding reap_one
  reap_one_cases now build_event run_id s Q fail quiet write =
      elim (Option-cases (get run_id s.runs)) [
        | inl missing ↦ rw (missing, reap_one) (quiet λ q h. absurd (cc))
        | inr (run, found) ↦ elim (Bool-cases (is_stale now run)) [
          | inr fresh ↦
              rw (found, reap_one, fresh)
                (quiet λ q h. let same : q ≡ run = get_unique s.runs h found refl in rw same fresh)
          | inl stale ↦
              elim (Result-cases (
                check_reap_event run (next_event_seq run)
                  (build_event (run_lookup run) (next_event_seq run)))) [
                    | inl (e, bad) ↦ rw (found, reap_one, stale, bad) (fail e)
                    | inr (_, checked) ↦
                        rw (found, reap_one, stale, checked) (write run found stale checked)
                  ]
        ]
      ]
