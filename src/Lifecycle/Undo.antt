-- ===== src/Lifecycle/Undo.antt =====
-- What the calls on a run's events leave of the registry when they fail, src/lifecycle.rs.
use typemach.Base.{
  ℕ, zero, suc, ◌+◌, ◌<◌, ◌≤◌, Option, none, some, List, [], ◌∷◌, is_some, ◌≡◌, refl, sym, ap, ◌∙◌,
  ◌⊎◌, inl, inr, Option-cases, Bool-cases, arith,
}
use mathlib.Core.Path.{subst}
use typemach.Base.Int.{ℤ, pos, negsuc, inc, pos_part, neg_part, i64_bound}
use typemach.Base.Eq.{string_eq}
use typemach.Base.Map.{get, get-insert_self}
use typemach.Run.{RunId}
use typemach.Error.{Result, ok, err, MachineError, run_not_found, Result-cases}
use typemach.Params.{Params}
use typemach.Store.Interface.{RunStore}
use typemach.Registry.{Channels, RunRegistry, ActiveRun, next_seq, rewind_seq, put, handle}
use typemach.Registry.Rewind.{raised, next_seq-found, rewind_seq-put}
use typemach.Lifecycle.State.{
  RunLifecycle, Call, continues, on_store, ◌>>=◌, event_lock, remove_event_lock, may_remove,
  no_such_run, leave_with, with_run, rewind_seqs,
}
use typemach.Lifecycle.Commit.{push_seq, next_seqs}

inc-range :
    (a : ℤ) (n : ℕ)
    → (pos_part a + suc n < i64_bound) × (neg_part a ≤ i64_bound)
    → (pos_part (inc a) + n < i64_bound) × (neg_part (inc a) ≤ i64_bound)
unfolding inc i64_bound
inc-range (pos k) n (h, b) = (ground arith, ground arith)
inc-range (negsuc k) n (h, b) = (ground arith, ground arith)

module _ {E : Type 0} {C : Channels E} where
  -- The run's number stays below `i64::MAX` for so many events more.
  abbrev pub Range : ℕ → Option (ActiveRun C) → Type 0
  Range n none = Unit
  Range n (some run) =
      (pos_part run.current_seq + n < i64_bound) × (neg_part run.current_seq ≤ i64_bound)

  abbrev pub InRange : RunId → ℕ → RunRegistry C → Type 0
  InRange run_id n r = Range n (get run_id r.runs)

  next_seqs-step :
      (run_id : RunId) (n : ℕ) (r : RunRegistry C) {r1 : RunRegistry C} {seq : ℤ} {seqs : List ℤ}
      → next_seq run_id r ≡ (some seq, r1)
      → (next_seqs run_id n r1).0 ≡ some seqs
      → next_seqs run_id (suc n) r ≡ (some (seq ∷ seqs), (next_seqs run_id n r1).1)
  unfolding next_seqs
  next_seqs-step run_id n r {r1} {seq} handed given =
      ap (λ x. push_seq x.0 x.1 (next_seqs run_id n x.1)) handed
      ∙ ap (λ o. push_seq (some seq) r1 (o, (next_seqs run_id n r1).1)) given

  -- The numbers that a run in the registry gets can be given back.
  next_seqs-found :
      (run_id : RunId) (n : ℕ) (r : RunRegistry C) (run : ActiveRun C)
      → get run_id r.runs ≡ some run
      → (pos_part run.current_seq + n < i64_bound) × (neg_part run.current_seq ≤ i64_bound)
      → (seqs : List ℤ) × ((next_seqs run_id n r).0 ≡ some seqs)
        × (rewind_seqs run_id seqs (next_seqs run_id n r).1 ≡ r)
  unfolding next_seqs rewind_seqs
  next_seqs-found run_id zero r run found range = ([], refl, refl)
  next_seqs-found run_id (suc n) r run found range =
      let (seqs, given, back) =
        next_seqs-found run_id n (put run_id (raised run) r) (raised run)
          (get-insert_self run_id (raised run) r.runs) (inc-range run.current_seq n range) in
      let step = next_seqs-step run_id n r (next_seq-found run_id run r found) given in
      let seq = inc run.current_seq in
      (
        seq ∷ seqs,
        ap (λ x. x.0) step,
        ap (λ x. rewind_seqs run_id (seq ∷ seqs) x.1) step
            ∙ ap (λ x. (rewind_seq run_id seq x).1) back
            ∙ ap (λ x. x.1) (rewind_seq-put run_id run r found (omega arith) range.1),
      )

  pub next_seq-absent :
      (run_id : RunId) (r : RunRegistry C)
      → get run_id r.runs ≡ none
      → next_seq run_id r ≡ (none, r)
  unfolding next_seq
  next_seq-absent run_id r absent = rw (absent, next_seq) refl

  next_seqs-absent :
      (run_id : RunId) (n : ℕ) (r : RunRegistry C)
      → get run_id r.runs ≡ none
      → next_seqs run_id (suc n) r ≡ (none, r)
  unfolding next_seqs
  next_seqs-absent run_id n r absent =
      ap (λ x. push_seq x.0 x.1 (next_seqs run_id n x.1)) (next_seq-absent run_id r absent)

  -- Either way the registry can be had back.
  pub next_seqs-cases :
      (run_id : RunId) (n : ℕ) (r : RunRegistry C)
      → InRange run_id n r
      → (next_seqs run_id n r ≡ (none, r))
        ⊎ ((seqs : List ℤ) × ((next_seqs run_id n r).0 ≡ some seqs)
            × (rewind_seqs run_id seqs (next_seqs run_id n r).1 ≡ r))
  unfolding next_seqs rewind_seqs
  next_seqs-cases run_id zero r range = inr ([], refl, refl)
  next_seqs-cases run_id (suc n) r range = elim (Option-cases (get run_id r.runs)) [
    | inl absent ↦ inl (next_seqs-absent run_id n r absent)
    | inr (run, found) ↦
        inr (next_seqs-found run_id (suc n) r run found (subst (Range (suc n)) found range))
  ]

module _ {P : Params} {S : RunStore P} {C : Channels P.Event} where
  -- A call that fails leaves this registry.
  abbrev pub Leaves : {A : Type 0} → RunRegistry C → Result A × RunLifecycle S C → Type 0
  Leaves r x = (e : MachineError) → x.0 ≡ err e → x.1.registry ≡ r

  -- A call that is followed by others: what holds of each way on holds of all.
  pub >>=-cases :
      {A B : Type 0} (call : Call S C A) (rest : A → Call S C B)
      (Q : Result B × RunLifecycle S C → Type 0) (s : RunLifecycle S C)
      → ((e : MachineError) → (call s).0 ≡ err e → Q (err e, (call s).1))
      → ((a : A) → (call s).0 ≡ ok a → Q (rest a (call s).1))
      → Q ((call >>= rest) s)
  >>=-cases call rest Q s fails goes = elim (Result-cases (call s).0) [
    | inl (e, failed) ↦ subst (λ x. Q (continues rest x (call s).1)) (sym failed) (fails e failed)
    | inr (a, done) ↦ subst (λ x. Q (continues rest x (call s).1)) (sym done) (goes a done)
  ]

  pub bind-Leaves :
      {A B : Type 0} (call : Call S C A) (rest : A → Call S C B) (r : RunRegistry C)
      (s : RunLifecycle S C)
      → Leaves r (call s)
      → ((a : A) → (call s).0 ≡ ok a → Leaves r (rest a (call s).1))
      → Leaves r ((call >>= rest) s)
  bind-Leaves call rest r s fails goes =
      >>=-cases call rest (Leaves r) s (λ e failed _ _. fails e failed) goes

  pub remove_event_lock-registry :
      (run_id : RunId) (lock : ℕ) (s : RunLifecycle S C)
      → (remove_event_lock run_id lock s).1.registry ≡ s.registry
  unfolding remove_event_lock
  remove_event_lock-registry run_id lock s = elim (Bool-cases (may_remove run_id lock s)) [
    | inl may ↦ rw (may, remove_event_lock) refl
    | inr not ↦ rw (not, remove_event_lock) refl
  ]

  pub leave_with-registry :
      {A : Type 0} (run_id : RunId) (lock : ℕ) (x : Result A) (s : RunLifecycle S C)
      → (leave_with run_id lock x s).1.registry ≡ s.registry
  unfolding leave_with remove_event_lock
  leave_with-registry run_id lock x s = remove_event_lock-registry run_id lock s

  pub event_lock-registry :
      (run_id : RunId) (s : RunLifecycle S C) → (event_lock run_id s).1.registry ≡ s.registry
  unfolding event_lock
  event_lock-registry run_id s = elim (Option-cases (get run_id s.event_locks)) [
    | inl absent ↦ rw (absent, event_lock) refl
    | inr (lock, found) ↦ rw (found, event_lock) refl
  ]

  -- The run is not there: an error, and the registry is as it was.
  no_such_run-cases :
      {A : Type 0} (run_id : RunId) (lock : ℕ) (s : RunLifecycle S C)
      (Q : Result A × RunLifecycle S C → Type 0)
      → ((e : MachineError) (s1 : RunLifecycle S C) → s1.registry ≡ s.registry → Q (err e, s1))
      → Q (no_such_run run_id lock s)
  unfolding no_such_run remove_event_lock
  no_such_run-cases run_id lock s Q fails = elim (Bool-cases (is_some (handle run_id s.registry))) [
    | inl live ↦ rw (live, no_such_run) (fails run_not_found s refl)
    | inr gone ↦
        rw (gone, no_such_run)
          (fails run_not_found (remove_event_lock run_id lock s).1
            (remove_event_lock-registry run_id lock s))
  ]

  -- A call on a run's events: it fails before it comes to the run, or it is what `rest` makes of it.
  -- Either way the registry was as the call has found it.
  pub with_run-cases :
      {A : Type 0} (run_id : RunId) (scope : P.Scope) (rest : ℕ → Call S C A) (s : RunLifecycle S C)
      (Q : Result A × RunLifecycle S C → Type 0)
      → ((e : MachineError) (s1 : RunLifecycle S C) → s1.registry ≡ s.registry → Q (err e, s1))
      → ((lock : ℕ) (s1 : RunLifecycle S C) → s1.registry ≡ s.registry → Q (rest lock s1))
      → Q (with_run run_id scope rest s)
  unfolding with_run
  with_run-cases run_id scope rest s Q fails goes =
      let locked = event_lock-registry run_id s in
      let s1 = (event_lock run_id s).1 in
      let s2 = record s1 { store = (S.lookup_run run_id scope s1.store).1 } in
      >>=-cases (event_lock run_id) _ Q s (λ e _. fails e s1 locked)
        (λ lock _.
          >>=-cases (on_store (S.lookup_run run_id scope)) _ Q s1 (λ e _. fails e s2 locked)
            (elim [
              | none ↦
                  λ _. no_such_run-cases run_id lock s2 Q (λ e s3 same. fails e s3 (same ∙ locked))
              | some found ↦ λ _. goes lock s2 locked
            ]))
