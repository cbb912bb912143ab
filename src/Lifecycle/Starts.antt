-- ===== src/Lifecycle/Starts.antt =====
-- What a start makes of the registry, src/lifecycle.rs.
use typemach.Base.{
  ℕ, Option, none, some, false, [], ◌∷◌, length, leb, ◌≡◌, ◌≢◌, refl, sym, ap, ◌∙◌, ◌⊎◌, inl, inr,
  Option-cases, Bool-cases, arith,
}
use mathlib.Core.Path.{subst}
use typemach.Base.Int.{pos}
use typemach.Base.Eq.{Eq, string_eq, beq_refl}
use typemach.Base.Map.{Map, get, insert, remove as remove_key}
use typemach.Run.{RunId}
use typemach.Error.{Result, ok, err, MachineError, capacity_exceeded, run_already_active}
use typemach.Params.{Params}
use typemach.Store.{RunStart, RunLookup, StoreStartResult, created, existing}
use typemach.Store.Interface.{RunStore}
use typemach.Registry.{
  Channels, RunRegistry, ActiveRun, RunHandle, try_insert, remove, put, into_senders,
}
use typemach.Lifecycle.State.{RunLifecycle, on_store}
use typemach.Lifecycle.Start.{
  StartRunResult, started, same_run, take_start, start_stored, take_insert, start_registered,
  find_keyed, start_keyed, start_run,
}
use typemach.Lifecycle.Undo.{>>=-cases}

module _ {K : Type 0} {V : Type 0} ⦃e : Eq K⦄ where
  remove-insert_new :
      (k : K) (v : V) (m : Map K V) → get k m ≡ none → remove_key k (insert k v m) ≡ m
  unfolding get insert remove_key
  remove-insert_new k v [] absent = ground (arith, beq_refl k)
  remove-insert_new k v ((j, w) ∷ m) absent = ground (arith, remove-insert_new k v m)

module _ {E : Type 0} {C : Channels E} where
  abbrev pub fresh_run : RunHandle → Option C.Sender → ActiveRun C
  fresh_run handle sender = record {
    handle = handle;
    current_seq = pos 0;
    terminal_published = false;
    stream_senders = into_senders sender;
  }

  -- The run is new in the registry, with its handle, its sender and no number used.
  abbrev pub Registers :
      RunId → RunHandle → Option C.Sender → RunRegistry C → RunRegistry C → Type 0
  Registers run_id handle sender r r' =
      (get run_id r.runs ≡ none) × (r' ≡ put run_id (fresh_run handle sender) r)

  try_insert-cases :
      (run_id : RunId) (handle : RunHandle) (sender : Option C.Sender) (max : ℕ) (r : RunRegistry C)
      → ((reason : MachineError) × ((reason ≡ run_already_active) ⊎ (reason ≡ capacity_exceeded))
          × (try_insert run_id handle sender max r ≡ (err reason, r)))
        ⊎ ((get run_id r.runs ≡ none)
            × (try_insert run_id handle sender max r
                ≡ (ok tt, put run_id (fresh_run handle sender) r)))
  unfolding try_insert
  try_insert-cases run_id handle sender max r = elim (Option-cases (get run_id r.runs)) [
    | inr (old, found) ↦ inl (run_already_active, inl refl, rw (found, try_insert) refl)
    | inl absent ↦ elim (Bool-cases (leb max (length r.runs))) [
      | inl full ↦ inl (capacity_exceeded, inr refl, rw (absent, full, try_insert) refl)
      | inr room ↦ inr (absent, rw (absent, room, try_insert) refl)
    ]
  ]

module _ {P : Params} {S : RunStore P} {C : Channels P.Event} where
  -- Started and registered, or neither.
  abbrev pub Starts :
      RunId
      → RunHandle
      → Option C.Sender
      → RunRegistry C
      → Result StartRunResult × RunLifecycle S C
      → Type 0
  Starts run_id handle sender r x =
      ((x.0 ≡ ok started) × Registers run_id handle sender r x.1.registry)
      ⊎ ((x.0 ≢ ok started) × (x.1.registry ≡ r))

  module _ (run : RunStart P) (handle : RunHandle) (sender : Option C.Sender) where
    same_run-Starts :
        (found : RunLookup) (s : RunLifecycle S C)
        → Starts run.run_id handle sender s.registry (same_run run found s)
    unfolding same_run
    same_run-Starts found s =
        >>=-cases (on_store (S.check_run_start found.run_id run)) _
          (Starts run.run_id handle sender s.registry) s (λ e _. inr ((λ h. cc), refl))
          (λ _ _. inr ((λ h. cc), refl))

    take_start-Starts :
        (r : RunRegistry C) (answer : Result StoreStartResult) (s : RunLifecycle S C)
        → Registers run.run_id handle sender r s.registry
        → Starts run.run_id handle sender r (take_start run.run_id answer s)
    unfolding take_start remove
    take_start-Starts r (ok created) s new = inl (refl, new)
    take_start-Starts r (ok (existing found)) s (absent, same) = inr (
      (λ h. cc),
      ap (remove run.run_id) same
          ∙ ap (λ m. record r { runs = m })
              (remove-insert_new run.run_id (fresh_run handle sender) r.runs absent),
    )
    take_start-Starts r (err reason) s (absent, same) = inr (
      (λ h. cc),
      ap (remove run.run_id) same
          ∙ ap (λ m. record r { runs = m })
              (remove-insert_new run.run_id (fresh_run handle sender) r.runs absent),
    )

    start_registered-Starts :
        (s : RunLifecycle S C)
        → Starts run.run_id handle sender s.registry (start_registered run handle sender s)
    unfolding start_registered take_insert start_stored
    start_registered-Starts s =
        let Good : Result (Unit {0}) × RunRegistry C → Type 0 = λ x.
          Starts run.run_id handle sender s.registry
            (take_insert run x.0 (record s { registry = x.1 })) in
        elim (try_insert-cases run.run_id handle sender s.max_in_flight s.registry) [
          | inl (reason, inl why, refused) ↦
              subst Good (sym refused) (rw (why) (inr ((λ h. cc), refl)))
          | inl (reason, inr why, refused) ↦
              subst Good (sym refused) (rw (why) (inr ((λ h. cc), refl)))
          | inr (absent, put_in) ↦
              subst Good (sym put_in)
                (take_start-Starts s.registry (S.start_run run s.store).0 _ (absent, refl))
        ]

    find_keyed-registry :
        (key : _) (s : RunLifecycle S C) → (find_keyed run key s).1.registry ≡ s.registry
    unfolding find_keyed
    find_keyed-registry none s = refl
    find_keyed-registry (some key) s = refl

    start_keyed-Starts :
        (s : RunLifecycle S C)
        → Starts run.run_id handle sender s.registry (start_keyed run handle sender s)
    unfolding start_keyed
    start_keyed-Starts s =
        let same = find_keyed-registry run.client_run_key s in
        subst (λ r. Starts run.run_id handle sender r (start_keyed run handle sender s)) same
          (>>=-cases (find_keyed run run.client_run_key) _
            (Starts run.run_id handle sender (find_keyed run run.client_run_key s).1.registry) s
            (λ e _. inr ((λ h. cc), refl))
            (elim [
              | none ↦ λ _. start_registered-Starts (find_keyed run run.client_run_key s).1
              | some found ↦ λ _. same_run-Starts found (find_keyed run run.client_run_key s).1
            ]))

  -- `start_run` says that it has started a run exactly when it leaves the run in the registry, with
  -- its handle, its sender and the number 0, where no run of that id was; otherwise, and if the
  -- store fails, the registry is as it was.
  pub start_run-registers :
      (run : RunStart P) (handle : RunHandle) (sender : Option C.Sender) (s : RunLifecycle S C)
      → Starts run.run_id handle sender s.registry (start_run run handle sender s)
  unfolding start_run
  start_run-registers run handle sender s =
      >>=-cases (on_store (S.lookup_run run.run_id run.scope)) _
        (Starts run.run_id handle sender s.registry) s (λ e _. inr ((λ h. cc), refl))
        (elim [
          | none ↦ λ _. start_keyed-Starts run handle sender _
          | some found ↦ λ _. same_run-Starts run handle sender found _
        ])
