-- ===== src/Memory/Ended.antt =====
-- How many runs `reap_stale` of src/store/memory/lease.rs ends.
use typemach.Base.{
  ℕ, suc, ◌+◌, if◌then◌else◌, ◌≤◌, Option, none, some, true, false, List, [], ◌∷◌, ◌≡◌, refl, inl,
  inr, leb, length, length-append, arith, Bool-cases,
}
use typemach.Base.Int.{ℤ}
use typemach.Base.Eq.{string_eq, eq-cases}
use typemach.Base.Map.{Map, get, insert}
use mathlib.Core.Path.{subst}
use typemach.Run.{RunId}
use typemach.Error.{Result, ok, err, Result-cases}
use typemach.Params.{Params}
use typemach.Store.{RunLookup}
use typemach.Memory.State.{Inner, MemoryRun, is_running}
use typemach.Memory.Leases.{is_stale, reap_one, reap_ids, reap_run, reaped_run, push_lookup}
use typemach.Memory.Cases.Leases.{reap_one_cases}

-- A round ends the run that it answers, and no run if it answers none or fails.
abbrev pub ended_by : Result (Option RunLookup) → ℕ
ended_by (ok (some lookup)) = 1
ended_by _ = 0

-- A reaper that succeeds has counted the runs that it ended.
abbrev pub Tells : Result (List RunLookup) → ℕ → Type 0
Tells (ok done) n = length done ≡ n
Tells (err e) n = Unit

push_lookup-ended :
    (reaped : List RunLookup) (o : Option RunLookup)
    → length (push_lookup reaped o) ≡ length reaped + ended_by (ok o)
push_lookup-ended reaped none = omega arith
push_lookup-ended reaped (some l) = length-append reaped (l ∷ [])

ended_by-one : (o : Option RunLookup) → ended_by (ok o) ≤ 1
ended_by-one none = omega arith
ended_by-one (some l) = omega arith

module _ {P : Params} where
  -- How many runs are running.
  unfoldable pub running_runs : Map RunId (MemoryRun P) → ℕ
  running_runs [] = 0
  running_runs ((k, run) ∷ m) =
      let rest = running_runs m in if is_running run.status then suc rest else rest

  running_runs-insert :
      (k : RunId) (old new : MemoryRun P) (m : Map RunId (MemoryRun P))
      → get k m ≡ some old
      → is_running old.status ≡ true
      → is_running new.status ≡ false
      → running_runs m ≡ running_runs (insert k new m) + 1
  unfolding running_runs get insert
  running_runs-insert k old new [] h live ended = absurd (cc)
  running_runs-insert k old new ((j, run) ∷ m) h live ended = elim (eq-cases k j) [
    | inl (same, _) ↦
        let is : run ≡ old = cc (rw (same, get) at h) in
        rw (same, insert, running_runs, ended, is, live) (omega arith)
    | inr (other, _) ↦
        let rest = running_runs-insert k old new m (rw (other, get) at h) live ended in
        elim (Bool-cases (is_running run.status)) [
          | inl runs ↦ rw (other, insert, running_runs, runs) (omega (arith, rest))
          | inr over ↦ rw (other, insert, running_runs, over) rest
        ]
  ]

  reap_one-ends :
      (now : ℕ) (build_event : RunLookup → ℤ → P.Event) (id : RunId) (s : Inner P)
      → running_runs s.runs
        ≡ running_runs (reap_one now build_event id s).1.runs
          + ended_by (reap_one now build_event id s).0
  unfolding reap_run reaped_run is_stale
  reap_one-ends now build_event id s =
      reap_one_cases now build_event id s
        (λ x. running_runs s.runs ≡ running_runs x.1.runs + ended_by x.0) (λ e. omega arith)
        (λ quiet. omega arith)
        λ run found stale checked.
          running_runs-insert id run (reaped_run run (build_event _ _)) s.runs found
            (ground (arith, stale)) refl

  abbrev pub EndsUpTo : ℕ → ℕ → Result (List RunLookup) × Inner P → Type 0
  EndsUpTo limit before x =
      (n : ℕ) × (n ≤ limit) × (before ≡ running_runs x.1.runs + n) × Tells x.0 n

  -- The loop, from a number of lookups on.
  pub reap_ids-ends :
      (limit : ℕ) (build_event : ℕ → RunLookup → ℤ → P.Event) (now : ℕ) (ids : List RunId)
      (reaped : List RunLookup) (s : Inner P)
      → length reaped ≤ limit
      → EndsUpTo limit
          (running_runs s.runs + length reaped)
          (reap_ids limit build_event now ids reaped s)
  unfolding reap_ids
  reap_ids-ends limit build_event now [] reaped s small = (length reaped, small, refl, refl)
  reap_ids-ends limit build_event now (id ∷ ids) reaped s small =
      let (r, t) = reap_one now (build_event (length reaped)) id s in
      let first = reap_one-ends now (build_event (length reaped)) id s in
      elim (Bool-cases (leb limit (length reaped))) [
        | inl full ↦ rw (full, reap_ids) (length reaped, small, refl, refl)
        | inr room ↦ elim (Result-cases r) [
          | inl (e, bad) ↦
              rw (room, reap_ids, bad) (length reaped, small, omega (arith, (rw bad at first)), tt)
          | inr (o, good) ↦
              let rest = reap_ids limit build_event now ids (push_lookup reaped o) t in
              let grown = push_lookup-ended reaped o in
              let one : ended_by (ok o) ≤ 1 = ended_by-one o in
              let fits : length (push_lookup reaped o) ≤ limit = ground (arith, grown, one, room) in
              let same : running_runs t.runs + length (push_lookup reaped o)
                  ≡ running_runs s.runs + length reaped =
                omega (arith, grown, (rw good at first)) in
              rw (room, reap_ids, good)
                (subst (λ m. EndsUpTo limit m rest) same
                  (reap_ids-ends limit build_event now ids (push_lookup reaped o) t fits))
        ]
      ]
