-- ===== src/Memory/Cases/Start.antt =====
-- The paths through `start_run`.
use typemach.Base.{
  String, Option, none, some, Bool, true, false, ◌≡◌, refl, ◌⊎◌, inl, inr, Bool-cases, Option-cases,
}
use typemach.Base.Eq.{◌=?◌, string_eq, triple_eq}
use typemach.Base.Map.{get, insert}
use typemach.Error.{Result, ok, err, MachineError, thread_busy, Result-cases}
use typemach.Params.{Params}
use typemach.Store.{RunStart, LeaseClaim, StoreStartResult, created, start_sig}
use typemach.Memory.State.{Inner, MemoryRun, Clock}
use typemach.Memory.Validate.{scope_key}
use typemach.Memory.Leases.{claim_memory_thread, live_thread_lease, thread_lease}
use typemach.Memory.Start.{
  open_session, idempotency_key, idempotent_run, check_new, claim_lease, start_write, start_new,
  start_keyed, start_run, same_start, start_again,
}

-- The answer says that a run has been created.
abbrev pub made : Result StoreStartResult → Bool
made (ok created) = true
made _ = false

module _ {P : Params} where
  same_start-made : (sig : String) (old : MemoryRun P) → made (same_start sig old) ≡ false
  unfolding same_start
  same_start-made sig old = elim (Result-cases (start_sig old.start)) [
    | inl (e, bad) ↦ rw (bad, same_start) refl
    | inr (old_sig, good) ↦ elim (Bool-cases (old_sig =? sig)) [
      | inl same ↦ rw (good, same_start, same) refl
      | inr other ↦ rw (good, same_start, other) refl
    ]
  ]

  start_again-made :
      (run : RunStart P) (sig : String) (old : MemoryRun P) → made (start_again run sig old) ≡ false
  unfolding start_again
  start_again-made run sig old = elim (Bool-cases (P.scope_eq.beq old.start.scope run.scope)) [
    | inl same ↦ rw (same, start_again) (same_start-made sig old)
    | inr other ↦ rw (other, start_again) refl
  ]

  -- The state once a start has claimed its thread, if it asks for a lease.
  unfoldable pub claimed : Clock → RunStart P → Option LeaseClaim → Inner P → Inner P
  claimed clock run none s = s
  claimed clock run (some claim) s = record s {
    thread_leases = insert run.thread_id (thread_lease run claim (clock.instant 0)) s.thread_leases;
  }

  -- The thread is free for a start: it asks for no lease, or none is live.
  abbrev pub Claimable : Clock → RunStart P → Option LeaseClaim → Inner P → Type 0
  Claimable clock run none s = Unit
  Claimable clock run (some claim) s =
      live_thread_lease (clock.instant 0) (get run.thread_id s.thread_leases) ≡ none

  -- A start creates a run only if no run has its id or its key, and it is past all checks.
  pub record StartPasses (clock : Clock) (run : RunStart P) (s : Inner P) (scope sig : String)
      : Type 0 where
    pub scoped : scope_key P run.scope ≡ ok scope
    pub signed : start_sig run ≡ ok sig
    pub fresh : get run.run_id s.runs ≡ none
    pub unkeyed : idempotent_run (idempotency_key scope run) s ≡ none
    pub checked : check_new scope run s ≡ ok tt
    pub claimable : Claimable clock run run.lease s

  claim_cases :
      (clock : Clock) (run : RunStart P) (claim : Option LeaseClaim) (s : Inner P)
      → ((e : MachineError) × (claim_lease clock run claim s ≡ (err e, s)))
        ⊎ (Claimable clock run claim s
            × (claim_lease clock run claim s ≡ (ok tt, claimed clock run claim s)))
  unfolding claim_lease claim_memory_thread claimed
  claim_cases clock run none s = inr (tt, refl)
  claim_cases clock run (some claim) s =
      elim (Option-cases
        (live_thread_lease (clock.instant 0) (get run.thread_id s.thread_leases))) [
          | inl free ↦ inr (free, rw (free, claim_memory_thread))
          | inr (active, busy) ↦
              inl
                (thread_busy (some active.owner) (some active.run), rw (busy, claim_memory_thread))
        ]

  start_new_cases {ℓ} :
      (clock : Clock) (scope : String) (run : RunStart P) (s : Inner P)
      (Q : Result StoreStartResult × Inner P → Type ℓ)
      → ((r : Result StoreStartResult) → made r ≡ false → Q (r, s))
      → (check_new scope run s ≡ ok tt
          → Claimable clock run run.lease s
          → Q (ok created, start_write clock scope run (claimed clock run run.lease s)))
      → Q (start_new clock scope run s)
  unfolding start_new
  start_new_cases clock scope run s Q stay write = elim (Result-cases (check_new scope run s)) [
    | inl (e, bad) ↦ rw (bad, start_new) (stay _ refl)
    | inr (_, checked) ↦ elim (claim_cases clock run run.lease s) [
      | inl (e, bad) ↦ rw (checked, start_new, bad, bad) (stay _ refl)
      | inr (claimable, claims) ↦ rw (checked, start_new, claims, claims) (write checked claimable)
    ]
  ]

  start_keyed_cases {ℓ} :
      (clock : Clock) (scope sig : String) (run : RunStart P) (s : Inner P)
      (Q : Result StoreStartResult × Inner P → Type ℓ)
      → ((r : Result StoreStartResult) → made r ≡ false → Q (r, s))
      → (get run.run_id s.runs ≡ none
          → idempotent_run (idempotency_key scope run) s ≡ none
          → Q (start_new clock scope run s))
      → Q (start_keyed clock scope sig run s)
  unfolding start_keyed
  start_keyed_cases clock scope sig run s Q stay go = elim (Option-cases (get run.run_id s.runs)) [
    | inr (old, found) ↦ rw (found, start_keyed) (stay _ (start_again-made run sig old))
    | inl fresh ↦ elim (Option-cases (idempotent_run (idempotency_key scope run) s)) [
      | inr (old, found) ↦ rw (fresh, start_keyed, found) (stay _ (same_start-made sig old))
      | inl unkeyed ↦ rw (fresh, start_keyed, unkeyed) (go fresh unkeyed)
    ]
  ]

  -- A start opens the session whatever comes of it, and writes the rest only if it passes.
  pub start_cases {ℓ} :
      (clock : Clock) (run : RunStart P) (s : Inner P)
      (Q : Result StoreStartResult × Inner P → Type ℓ)
      → let t = open_session run.session_id run.scope s in
        ((r : Result StoreStartResult) → made r ≡ false → Q (r, t))
        → ((scope sig : String)
            → StartPasses clock run t scope sig
            → Q (ok created, start_write clock scope run (claimed clock run run.lease t)))
        → Q (start_run clock run s)
  unfolding start_run
  start_cases clock run s Q stay write =
      let t = open_session run.session_id run.scope s in
      elim (Result-cases (scope_key P run.scope)) [
        | inl (e, bad) ↦ rw (bad, start_run) (stay _ refl)
        | inr (scope, scoped) ↦ elim (Result-cases (start_sig run)) [
          | inl (e, bad) ↦ rw (scoped, start_run, bad) (stay _ refl)
          | inr (sig, signed) ↦
              rw (scoped, start_run, signed)
                (start_keyed_cases clock scope sig run t Q stay λ fresh unkeyed.
                  start_new_cases clock scope run t Q stay λ checked claimable.
                    write scope sig (record {
                      scoped = scoped;
                      signed = signed;
                      fresh = fresh;
                      unkeyed = unkeyed;
                      checked = checked;
                      claimable = claimable;
                    }))
        ]
      ]
