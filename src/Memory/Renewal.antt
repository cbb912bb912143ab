-- ===== src/Memory/Renewal.antt =====
-- `renew` and `release` of src/store/memory/lease.rs, and the two leases.
use typemach.Base.{ℕ, ◌+◌, ◌<◌, none, some, true, false, ◌≡◌, ◌⊎◌, refl, inl, inr, arith, ap, ltb}
use typemach.Base.Eq.{string_eq}
use typemach.Base.Map.{get, get-insert_self, get-remove_self}
use typemach.Error.{ok}
use typemach.Params.{Params}
use typemach.Store.{Lease}
use typemach.Memory.State.{Inner, MemoryRun, MemoryLease, MemoryThreadLease, Clock, is_running}
use typemach.Memory.Leases.{
  renew, renew_run, renew_thread, release, renewed_run, run_renewable, held_by,
}
use typemach.Memory.Cases.Leases.{renew_cases, renewed, release_cases, released}

module _ {P : Params} where
  -- Who holds a run: the run and its thread have this owner and id until this tick.
  pub record Holds (lease : Lease) (until : ℕ) (s : Inner P) : Type 0 where
    pub run : MemoryRun P
    pub found : get lease.run s.runs ≡ some run
    pub leased : run.lease ≡ some (record { owner = lease.owner; id = lease.id; until = until })
    pub on_thread :
        get run.start.thread_id s.thread_leases
        ≡ some (record { run = lease.run; owner = lease.owner; id = lease.id; until = until })

  -- The lease is live on the run and on its thread, and is the caller's.
  pub record Live (clock : Clock) (lease : Lease) (s : Inner P) : Type 0 where
    pub run : MemoryRun P
    pub active : MemoryLease
    pub thread : MemoryThreadLease
    pub found : get lease.run s.runs ≡ some run
    pub leased : run.lease ≡ some active
    pub claimed : get run.start.thread_id s.thread_leases ≡ some thread
    pub running : is_running run.status ≡ true
    pub owner : active.owner ≡ lease.owner
    pub id : active.id ≡ lease.id
    pub on_run : thread.run ≡ lease.run
    pub thread_owner : thread.owner ≡ lease.owner
    pub thread_id : thread.id ≡ lease.id
    pub until : clock.instant 0 < active.until
    pub thread_until : clock.instant 1 < thread.until

  -- A lease that is live is renewed.
  Live-renew :
      (clock : Clock) (lease : Lease) (ttl : ℕ) (s : Inner P)
      → Live clock lease s
      → (renew clock lease ttl s).0 ≡ ok true
  unfolding renew renew_run renew_thread run_renewable
  Live-renew clock lease ttl s v =
      let owner = (string_eq.beq_iff v.active.owner lease.owner).1 v.owner in
      let id = (string_eq.beq_iff v.active.id lease.id).1 v.id in
      let on_run = (string_eq.beq_iff v.thread.run lease.run).1 v.on_run in
      let thread_owner = (string_eq.beq_iff v.thread.owner lease.owner).1 v.thread_owner in
      let thread_id = (string_eq.beq_iff v.thread.id lease.id).1 v.thread_id in
      let until : ltb (clock.instant 0) v.active.until ≡ true = ground (arith, v.until) in
      let thread_until : ltb (clock.instant 1) v.thread.until ≡ true =
        ground (arith, v.thread_until) in
      rw
        (
          v.found, renew, v.leased, renew_run, v.running, owner, id, until, v.claimed, renew_thread,
          on_run, thread_owner, thread_id, thread_until,
        )
        refl

  renewed-Holds :
      (clock : Clock) (lease : Lease) (ttl : ℕ) (s : Inner P)
      → (renew clock lease ttl s ≡ (ok false, s))
        ⊎ (((renew clock lease ttl s).0 ≡ ok true)
            × Live clock lease s
            × Holds lease (clock.instant 2 + ttl) (renew clock lease ttl s).1)
  unfolding renewed renewed_run run_renewable
  renewed-Holds clock lease ttl s =
      renew_cases clock lease ttl s
        (λ x.
          (x ≡ (ok false, s))
          ⊎ ((x.0 ≡ ok true) × Live clock lease s × Holds lease (clock.instant 2 + ttl) x.1))
        (inl refl)
        λ run active thread passes.
          let until = clock.instant 2 + ttl in
          let q = renewed_run until run active in
          let owner : active.owner ≡ lease.owner =
            ground (arith, passes.renewable, (string_eq.beq_iff active.owner lease.owner).0) in
          let id : active.id ≡ lease.id =
            ground (arith, passes.renewable, (string_eq.beq_iff active.id lease.id).0) in
          let on_run : thread.run ≡ lease.run =
            ground (arith, passes.held, (string_eq.beq_iff thread.run lease.run).0) in
          let thread_owner : thread.owner ≡ lease.owner =
            ground (arith, passes.held, (string_eq.beq_iff thread.owner lease.owner).0) in
          let thread_id : thread.id ≡ lease.id =
            ground (arith, passes.held, (string_eq.beq_iff thread.id lease.id).0) in
          inr (
            refl,
            record {
              run = run;
              active = active;
              thread = thread;
              found = passes.found;
              leased = passes.leased;
              claimed = passes.claimed;
              running = ground (arith, passes.renewable);
              owner = owner;
              id = id;
              on_run = on_run;
              thread_owner = thread_owner;
              thread_id = thread_id;
              until = ground (arith, passes.renewable);
              thread_until = ground (arith, passes.live);
            },
            record {
              run = q;
              found = get-insert_self lease.run q s.runs;
              leased = rw (owner, id) refl;
              on_thread =
                  rw
                    (
                      get-insert_self run.start.thread_id (record thread { until = until })
                          s.thread_leases,
                      on_run,
                      thread_owner,
                      thread_id,
                    )
                    refl;
            },
          )

  -- `renew` never fails. It says `true` to the holder of a lease that is live on the run and its
  -- thread, and leaves both with the caller until one time to live after the last reading of the
  -- clock; to every other caller it says `false`, and writes nothing.
  pub renew-Holds :
      (clock : Clock) (lease : Lease) (ttl : ℕ) (s : Inner P)
      → ((Live clock lease s → ⊥) × (renew clock lease ttl s ≡ (ok false, s)))
        ⊎ (((renew clock lease ttl s).0 ≡ ok true)
            × Live clock lease s
            × Holds lease (clock.instant 2 + ttl) (renew clock lease ttl s).1)
  renew-Holds clock lease ttl s = elim (renewed-Holds clock lease ttl s) [
    | inr live ↦ inr live
    | inl same ↦ inl (λ live. cc (Live-renew clock lease ttl s live, ap (λ x. x.0) same), same)
  ]

  free-renew :
      (clock : Clock) (lease : Lease) (ttl : ℕ) (s : Inner P) (run : MemoryRun P)
      → get lease.run s.runs ≡ some run
      → run.lease ≡ none
      → renew clock lease ttl s ≡ (ok false, s)
  unfolding renew
  free-renew clock lease ttl s run found free = rw (found, renew, free) refl

  -- The run has the caller's lease.
  abbrev pub Held : Lease → Inner P → Type 0
  Held lease s =
      (run : MemoryRun P) × (get lease.run s.runs ≡ some run)
      × (held_by lease.owner lease.id run ≡ true)

  -- `release` never fails. If the run has the caller's lease it frees the run's thread, and a renewal
  -- then says `false` and writes nothing; otherwise it writes nothing.
  pub release-frees :
      (clock : Clock) (lease : Lease) (ttl : ℕ) (s : Inner P)
      → ((Held lease s → ⊥) × (release lease s ≡ (ok tt, s)))
        ⊎ (((release lease s).0 ≡ ok tt)
            × (run : MemoryRun P) × (get lease.run s.runs ≡ some run)
            × (held_by lease.owner lease.id run ≡ true)
            × (get run.start.thread_id (release lease s).1.thread_leases ≡ none)
            × (renew clock lease ttl (release lease s).1 ≡ (ok false, (release lease s).1)))
  unfolding released
  release-frees clock lease ttl s =
      release_cases lease s
        (λ x.
          ((Held lease s → ⊥) × (x ≡ (ok tt, s)))
          ⊎ ((x.0 ≡ ok tt)
              × (run : MemoryRun P) × (get lease.run s.runs ≡ some run)
              × (held_by lease.owner lease.id run ≡ true)
              × (get run.start.thread_id x.1.thread_leases ≡ none)
              × (renew clock lease ttl x.1 ≡ (ok false, x.1))))
        (λ free. inl (λ held. cc (free held.0 held.1, held.2), refl))
        λ run found held.
          let q : MemoryRun P = record run { lease = none } in
          inr (
            refl,
            run,
            found,
            held,
            get-remove_self run.start.thread_id s.thread_leases,
            free-renew clock lease ttl (released lease run s) q (get-insert_self lease.run q s.runs)
                refl,
          )
