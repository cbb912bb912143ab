-- ===== src/Lifecycle/Finished.antt =====
-- The end of a run, src/lifecycle.rs.
use typemach.Base.{
  ℕ, Option, none, some, ◌≡◌, refl, sym, ap, ◌∙◌, inl, inr, Option-cases, Bool-cases, if◌then◌else◌,
}
use mathlib.Core.Path.{subst}
use typemach.Base.Int.{ℤ, inc}
use typemach.Base.Eq.{string_eq}
use typemach.Base.Map.{get, get-remove_self, get-insert_self}
use typemach.Run.{RunId}
use typemach.Error.{Result, ok, err, MachineError, Result-cases}
use typemach.Params.{Params}
use typemach.Store.{RunFinish, FinishRunResult, result_event, into_record}
use typemach.Store.Interface.{RunStore}
use typemach.Registry.{
  Channels, RunRegistry, ActiveRun, put, publish_terminal, broadcast, remove, send_all,
}
use typemach.Registry.Rewind.{next_seq-found, raised}
use typemach.Lifecycle.Check.{validate_finish_event}
use typemach.Lifecycle.State.{
  RunLifecycle, on_store, checks, leave_with, remove_event_lock, or_rewind,
}
use typemach.Lifecycle.Events.{
  check_finish, finish_absent, finish_numbered, finish_published, finish_given, finish_next,
  finish_with, close_run,
}
use typemach.Lifecycle.Undo.{>>=-cases, leave_with-registry, with_run-cases, next_seq-absent}

module _ {E : Type 0} {C : Channels E} where
  -- The event that ends a run is sent to each of its senders, unless they have been told of an end.
  abbrev pub told_end : ActiveRun C → E → C.World → C.World
  told_end run event world =
      if run.terminal_published then world else (send_all C run.stream_senders event world).1

  close_run-world :
      (run_id : RunId) (event : E) (run : ActiveRun C) (r : RunRegistry C)
      → get run_id r.runs ≡ some run
      → (close_run run_id event r).world ≡ told_end run event r.world
  unfolding close_run publish_terminal broadcast remove
  close_run-world run_id event run r found = elim (Bool-cases run.terminal_published) [
    | inl over ↦ rw (found, publish_terminal, over) refl
    | inr live ↦ rw (found, publish_terminal, live) refl
  ]

  close_run-gone :
      (run_id : RunId) (event : E) (r : RunRegistry C)
      → get run_id (close_run run_id event r).runs ≡ none
  unfolding close_run remove
  close_run-gone run_id event r = get-remove_self run_id (publish_terminal run_id event r).1.runs

module _ (P : Params) {C : Channels P.Event} where
  -- The run is gone from the registry, and its senders have been told of its end.
  abbrev pub EndsIn :
      RunId → RunRegistry C → Result (FinishRunResult P.Event) → RunRegistry C → Type 0
  EndsIn run_id r x q =
      (result : FinishRunResult P.Event)
      → x ≡ ok result
      → (get run_id q.runs ≡ none)
        × ((run : ActiveRun C)
            → get run_id r.runs ≡ some run
            → q.world ≡ told_end run (result_event result) r.world)

  err-Ends :
      (run_id : RunId) (r : RunRegistry C) (e : MachineError) (q : RunRegistry C)
      → EndsIn run_id r (err e) q
  err-Ends run_id r e q result h = absurd (cc)

module _ {P : Params} {S : RunStore P} {C : Channels P.Event} where
  abbrev pub Ends :
      RunId → RunRegistry C → Result (FinishRunResult P.Event) × RunLifecycle S C → Type 0
  Ends run_id r x = EndsIn P run_id r x.0 x.1.registry

  -- What the run's senders had been told makes no difference to its number.
  Ends-raised :
      (run_id : RunId) (r : RunRegistry C) (active : ActiveRun C)
      (x : Result (FinishRunResult P.Event) × RunLifecycle S C)
      → get run_id r.runs ≡ some active
      → Ends run_id (put run_id (raised active) r) x
      → Ends run_id r x
  Ends-raised run_id r active x found ends result h =
      let (gone, sent) = ends result h in
      (
        gone,
        λ run found'.
            let same : active ≡ run = cc in
            sent (raised active) (get-insert_self run_id (raised active) r.runs)
            ∙ ap (λ a. told_end a (result_event result) r.world) same,
      )

  finish_published-Ends :
      (finish : RunFinish P) (lock : ℕ) (answer : FinishRunResult P.Event) (s : RunLifecycle S C)
      → Ends finish.run_id s.registry (finish_published finish lock answer s)
  unfolding finish_published leave_with remove_event_lock
  finish_published-Ends finish lock answer s result h =
      let closed = close_run finish.run_id (result_event answer) s.registry in
      let left =
        leave_with-registry finish.run_id lock (ok answer) (record s { registry = closed }) in
      let same : answer ≡ result = cc in
      (
        ap (λ r. get finish.run_id r.runs) left
            ∙ close_run-gone finish.run_id (result_event answer) s.registry,
        λ run found.
            ap (λ r. r.world) left
            ∙ close_run-world finish.run_id (result_event answer) run s.registry found
            ∙ ap (λ a. told_end run (result_event a) s.registry.world) same,
      )

  finish_numbered-Ends :
      (finish : RunFinish P) (lock : ℕ) (seq : ℤ) (event : P.Event) (s : RunLifecycle S C)
      → Ends finish.run_id s.registry (finish_numbered finish lock seq event s)
  unfolding finish_numbered or_rewind
  finish_numbered-Ends finish lock seq event s =
      elim (Result-cases (validate_finish_event P finish event seq)) [
        | inl (e, bad) ↦ rw (bad, finish_numbered) (λ result h. absurd (cc))
        | inr (_, good) ↦
            rw (good, finish_numbered)
              (>>=-cases (on_store (S.finish_run (into_record finish event)))
                (finish_published finish lock) (Ends finish.run_id s.registry) s
                (λ e _. err-Ends P finish.run_id s.registry e s.registry)
                (λ answer _. finish_published-Ends finish lock answer _))
      ]

  -- A run that is not in flight: nothing is left to do.
  absent-Ends :
      (run_id : RunId) (r : RunRegistry C) (x : Result (FinishRunResult P.Event) × RunLifecycle S C)
      → get run_id r.runs ≡ none
      → x.1.registry ≡ r
      → Ends run_id r x
  absent-Ends run_id r x absent same result h =
      (ap (λ q. get run_id q.runs) same ∙ absent, λ run found. absurd (cc))

  finish_absent-registry :
      (finish : RunFinish P) (lock : ℕ) (s : RunLifecycle S C)
      → (finish_absent finish lock s).1.registry ≡ s.registry
  unfolding finish_absent
  finish_absent-registry finish lock s =
      >>=-cases (on_store (S.terminal_event finish.run_id finish.scope)) _
        (λ x. x.1.registry ≡ s.registry) s (λ e _. refl)
        (elim [
          | none ↦ λ _. leave_with-registry finish.run_id lock _ _
          | some event ↦ λ _. leave_with-registry finish.run_id lock _ _
        ])

  finish_next-Ends :
      (finish : RunFinish P) (build_event : ℤ → P.Event) (lock : ℕ) (s : RunLifecycle S C)
      → Ends finish.run_id s.registry (finish_next finish build_event lock s)
  unfolding finish_next finish_given
  finish_next-Ends finish build_event lock s =
      let Good : Option ℤ × RunRegistry C → Type 0 = λ y.
        Ends finish.run_id s.registry
          (finish_given finish build_event lock y.0 (record s { registry = y.1 })) in
      elim (Option-cases (get finish.run_id s.registry.runs)) [
        | inl absent ↦ subst Good (sym (next_seq-absent finish.run_id s.registry absent)) (
            absent-Ends finish.run_id s.registry (finish_absent finish lock s) absent
              (finish_absent-registry finish lock s))
        | inr (active, found) ↦
            let seq = inc active.current_seq in
            let given = record s { registry = put finish.run_id (raised active) s.registry } in
            subst Good (sym (next_seq-found finish.run_id active s.registry found)) (
              Ends-raised finish.run_id s.registry active
                (finish_numbered finish lock seq (build_event seq) given) found
                (finish_numbered-Ends finish lock seq (build_event seq) given))
      ]

  finish_with-Ends :
      (finish : RunFinish P) (build_event : ℤ → P.Event) (s : RunLifecycle S C)
      → Ends finish.run_id s.registry (finish_with finish build_event s)
  unfolding finish_with
  finish_with-Ends finish build_event s =
      let Good = Ends finish.run_id s.registry in
      >>=-cases (checks (check_finish P finish)) _ Good s
        (λ e _. err-Ends P finish.run_id s.registry e s.registry)
        (λ _ _.
          with_run-cases finish.run_id finish.scope (finish_next finish build_event) s Good
            (λ e s1 _. err-Ends P finish.run_id s.registry e s1.registry)
            (λ lock s1 same.
              subst (λ r. Ends finish.run_id r (finish_next finish build_event lock s1)) same
                (finish_next-Ends finish build_event lock s1)))

  -- A `finish_with` that succeeds, whatever the store does and answers, takes a run out of the
  -- registry. The event that the store answers with has been sent to each of the run's senders, unless
  -- they had been told of an end before; nothing else has been sent.
  pub finish_with-ends :
      (finish : RunFinish P) (build_event : ℤ → P.Event) (s : RunLifecycle S C) (run : ActiveRun C)
      (result : FinishRunResult P.Event)
      → get finish.run_id s.registry.runs ≡ some run
      → (finish_with finish build_event s).0 ≡ ok result
      → (get finish.run_id (finish_with finish build_event s).1.registry.runs ≡ none)
        × ((finish_with finish build_event s).1.registry.world ≡ (
            if run.terminal_published
            then s.registry.world
            else (send_all C run.stream_senders (result_event result) s.registry.world).1))
  finish_with-ends finish build_event s run result found answered =
      let (gone, sent) = finish_with-Ends finish build_event s result answered in
      (gone, sent run found)
