-- ===== src/Memory/Reaper.antt =====
-- `reap_stale` of src/store/memory/lease.rs: how many runs it ends, and what it leaves.
use typemach.Base.{
  ℕ, ◌+◌, ◌<◌, ◌≤◌, Option, some, true, false, List, [], ◌∷◌, ◌≡◌, refl, sym, inl, inr, leb, length,
  All, arith, Bool-cases,
}
use typemach.Base.Int.{ℤ}
use typemach.Base.Eq.{Eq, string_eq, eq-cases}
use typemach.Base.Map.{Map, get, keys, insert-cases}
use mathlib.Core.Path.{subst}
use typemach.Run.{RunId}
use typemach.Error.{ok, Result-cases}
use typemach.Params.{Params}
use typemach.Store.{RunLookup}
use typemach.Memory.State.{Inner, MemoryRun, Clock}
use typemach.Memory.Leases.{
  is_stale, reap_one, reap_ids, reap_stale, reap_run, reaped_run, push_lookup,
}
use typemach.Memory.Cases.Leases.{reap_one_cases}
use typemach.Memory.Ended.{running_runs, Tells, reap_ids-ends}

-- A key that is found is among the keys.
All-keys {ℓ} :
    {K : Type 0} {V : Type 0} ⦃e : Eq K⦄ (Q : K → Type ℓ) (m : Map K V) (k : K) (v : V)
    → get k m ≡ some v
    → All Q (keys m)
    → Q k
unfolding get
All-keys Q [] k v h all = absurd (cc)
All-keys ⦃e⦄ Q ((j, w) ∷ m) k v h all = elim (eq-cases k j) [
  | inl (_, same) ↦ rw same all.0
  | inr (other, _) ↦ All-keys Q m k v (rw other at h) all.1
]

module _ {P : Params} where
  -- No stale run is under this id.
  abbrev Quiet : ℕ → Inner P → RunId → Type 0
  Quiet now s k = (r : MemoryRun P) → get k s.runs ≡ some r → is_stale now r ≡ false

  reap_one-Quiet :
      (now : ℕ) (build_event : RunLookup → ℤ → P.Event) (id k : RunId) (s : Inner P)
      → Quiet now s k
      → Quiet now (reap_one now build_event id s).1 k
  unfolding reap_run reaped_run is_stale
  reap_one-Quiet now build_event id k s q =
      reap_one_cases now build_event id s (λ x. Quiet now x.1 k) (λ e. q) (λ quiet. q)
        λ run found stale checked r h.
          elim (insert-cases id (reaped_run run (build_event _ _)) s.runs k h) [
            | inl (_, is) ↦ rw is refl
            | inr (_, before) ↦ q r before
          ]

  -- A round that does not fail leaves nothing stale under its id.
  reap_one-Quiet_self :
      (now : ℕ) (build_event : RunLookup → ℤ → P.Event) (id : RunId) (s : Inner P)
      {o : Option RunLookup}
      → (reap_one now build_event id s).0 ≡ ok o
      → Quiet now (reap_one now build_event id s).1 id
  unfolding reap_run reaped_run is_stale
  reap_one-Quiet_self now build_event id s {o} =
      reap_one_cases now build_event id s (λ x. x.0 ≡ ok o → Quiet now x.1 id) (λ e h. absurd (cc))
        (λ quiet h. quiet)
        λ run found stale checked h r at.
          elim (insert-cases id (reaped_run run (build_event _ _)) s.runs id at) [
            | inl (_, is) ↦ rw is refl
            | inr (other, _) ↦ absurd (other refl)
          ]

  reap_ids-Quiet :
      (limit : ℕ) (build_event : ℕ → RunLookup → ℤ → P.Event) (now : ℕ) (ids : List RunId)
      (reaped : List RunLookup) (s : Inner P) (k : RunId)
      → Quiet now s k
      → Quiet now (reap_ids limit build_event now ids reaped s).1 k
  unfolding reap_ids
  reap_ids-Quiet limit build_event now [] reaped s k q = q
  reap_ids-Quiet limit build_event now (id ∷ ids) reaped s k q =
      let (r, t) = reap_one now (build_event (length reaped)) id s in
      let first = reap_one-Quiet now (build_event (length reaped)) id k s q in
      elim (Bool-cases (leb limit (length reaped))) [
        | inl full ↦ rw (full, reap_ids) q
        | inr room ↦ elim (Result-cases r) [
          | inl (e, bad) ↦ rw (room, reap_ids, bad) first
          | inr (o, good) ↦
              rw (room, reap_ids, good)
                (reap_ids-Quiet limit build_event now ids (push_lookup reaped o) t k first)
        ]
      ]

  reap_ids-next :
      (limit : ℕ) (build_event : ℕ → RunLookup → ℤ → P.Event) (now : ℕ) (id : RunId)
      (ids : List RunId) (reaped : List RunLookup) (s : Inner P) (o : Option RunLookup)
      → leb limit (length reaped) ≡ false
      → (reap_one now (build_event (length reaped)) id s).0 ≡ ok o
      → reap_ids limit build_event now (id ∷ ids) reaped s
        ≡ reap_ids limit build_event now ids
            (push_lookup reaped o)
            (reap_one now (build_event (length reaped)) id s).1
  unfolding reap_ids
  reap_ids-next limit build_event now id ids reaped s o room good = rw (room, reap_ids, good) refl

  -- A loop that neither fails nor fills up visits every id.
  reap_ids-visits :
      (limit : ℕ) (build_event : ℕ → RunLookup → ℤ → P.Event) (now : ℕ) (ids : List RunId)
      (reaped : List RunLookup) (s : Inner P) {done : List RunLookup}
      → (reap_ids limit build_event now ids reaped s).0 ≡ ok done
      → length done < limit
      → All (Quiet now (reap_ids limit build_event now ids reaped s).1) ids
  unfolding reap_ids
  reap_ids-visits limit build_event now [] reaped s h below = tt
  reap_ids-visits limit build_event now (id ∷ ids) reaped s {done} h below =
      let (r, t) = reap_one now (build_event (length reaped)) id s in
      elim (Bool-cases (leb limit (length reaped))) [
        | inl full ↦
            let same : reaped ≡ done = cc (rw (full, reap_ids) at h) in
            let over : leb limit (length done) ≡ true = rw (← same) full in absurd (ground arith)
        | inr room ↦ elim (Result-cases r) [
          | inl (e, bad) ↦ absurd (cc (rw (room, reap_ids, bad) at h))
          | inr (o, good) ↦
              let next = reap_ids-next limit build_event now id ids reaped s o room good in
              let here = reap_one-Quiet_self now (build_event (length reaped)) id s good in
              let rest : All
                  (Quiet now (reap_ids limit build_event now ids (push_lookup reaped o) t).1) ids =
                reap_ids-visits limit build_event now ids (push_lookup reaped o) t
                  (rw (room, reap_ids, good) at h) below in
              subst (λ x. All (Quiet now x.1) (id ∷ ids)) (sym next)
                (reap_ids-Quiet limit build_event now ids (push_lookup reaped o) t id here, rest)
        ]
      ]

  -- However it answers, the reaper ends at most as many runs as its limit says: the runs that were
  -- running are those that are running after it and at most so many more, and a reaper that succeeds
  -- answers one lookup for each of them.
  pub reap_stale-bound :
      (clock : Clock) (limit : ℕ) (build_event : ℕ → RunLookup → ℤ → P.Event) (s : Inner P)
      → (n : ℕ) × (n ≤ limit)
        × (running_runs s.runs ≡ running_runs (reap_stale clock limit build_event s).1.runs + n)
        × Tells (reap_stale clock limit build_event s).0 n
  unfolding reap_stale
  reap_stale-bound clock limit build_event s =
      let (n, small, count, told) =
        reap_ids-ends limit build_event (clock.instant 0) (keys s.runs) [] s (omega arith) in
      (n, small, omega (arith, count), told)

  -- A reaper that succeeds and ends fewer runs than its limit says leaves no run that was there running
  -- on a lease that had run out when the reaper began.
  pub reap_stale_complete :
      (clock : Clock) (limit : ℕ) (build_event : ℕ → RunLookup → ℤ → P.Event) (s : Inner P)
      (done : List RunLookup) (k : RunId) (old r : MemoryRun P)
      → (reap_stale clock limit build_event s).0 ≡ ok done
      → length done < limit
      → get k s.runs ≡ some old
      → get k (reap_stale clock limit build_event s).1.runs ≡ some r
      → is_stale (clock.instant 0) r ≡ false
  unfolding reap_stale
  reap_stale_complete clock limit build_event s done k old r h below there after =
      All-keys (Quiet (clock.instant 0) (reap_stale clock limit build_event s).1) s.runs k old there
        (reap_ids-visits limit build_event (clock.instant 0) (keys s.runs) [] s h below) r after
