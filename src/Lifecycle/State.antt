-- ===== src/Lifecycle/State.antt =====
-- src/lifecycle.rs: `RunLifecycle`, its calls as actions, and the locks of the runs' events.
use typemach.Base.{
  ℕ, ◌+◌, none, some, Bool, false, ◌&&◌, List, [], ◌∷◌, leb, ◌==◌, is_some, if◌then◌else◌,
}
use typemach.Base.Int.{ℤ}
use typemach.Base.Eq.{string_eq}
use typemach.Base.Map.{Map, get, insert, remove as remove_key}
use typemach.Run.{RunId}
use typemach.Error.{Result, ok, err, MachineError, run_not_found}
use typemach.Params.{Params}
use typemach.Store.Interface.{RunStore}
use typemach.Registry.{Channels, RunRegistry, handle, rewind_seq}

-- `rewind_seqs`: the last number first.
unfoldable pub rewind_seqs :
    {E : Type 0} {C : Channels E} → RunId → List ℤ → RunRegistry C → RunRegistry C
rewind_seqs run_id [] r = r
rewind_seqs run_id (seq ∷ seqs) r = (rewind_seq run_id seq (rewind_seqs run_id seqs r)).1

module _ {P : Params} (S : RunStore P) (C : Channels P.Event) where
  -- A lock is its number, by which `Arc::ptr_eq` tells it from others; those from `next_lock` on are
  -- not made yet. `clones` counts the `Arc`s of a lock that other calls hold at the moment.
  pub record RunLifecycle : Type 0 where
    pub registry : RunRegistry C
    pub store : S.World
    pub event_locks : Map RunId ℕ
    pub next_lock : ℕ
    pub clones : ℕ → ℕ
    pub max_in_flight : ℕ

  -- A call: what it returns, and what it leaves, after an error too. A call that works on the events
  -- of a run holds the run's lock to its end, so that those calls come one after the other.
  abbrev pub Call : Type 0 → Type 0
  Call A = RunLifecycle → Result A × RunLifecycle

module _ {P : Params} {S : RunStore P} {C : Channels P.Event} where
  abbrev pub new : RunRegistry C → S.World → ℕ → RunLifecycle S C
  new registry store max_in_flight = record {
    registry = registry;
    store = store;
    event_locks = [];
    next_lock = 0;
    clones = λ _. 0;
    max_in_flight = max_in_flight;
  }

  abbrev pub continues : {A B : Type 0} → (A → Call S C B) → Result A → Call S C B
  continues rest (ok a) s = rest a s
  continues rest (err e) s = (err e, s)

  infixl 5 ◌>>=◌ ◌>>◌
  abbrev pub ◌>>=◌ : {A B : Type 0} → Call S C A → (A → Call S C B) → Call S C B
  ◌>>=◌ call rest s = continues rest (call s).0 (call s).1

  abbrev pub ◌>>◌ : {B : Type 0} → Call S C (Unit {0}) → Call S C B → Call S C B
  call >> rest = call >>= λ _. rest

  module _ {A : Type 0} where
    abbrev pub pure : A → Call S C A
    pure a s = (ok a, s)

    abbrev pub fail : MachineError → Call S C A
    fail e s = (err e, s)

    abbrev pub checks : Result A → Call S C A
    checks r s = (r, s)

    -- A call on the store, with `?`.
    abbrev pub on_store : (S.World → Result A × S.World) → Call S C A
    on_store call s = ((call s.store).0, record s { store = (call s.store).1 })

    -- A call on the registry, which answers.
    abbrev pub on_registry : (RunRegistry C → A × RunRegistry C) → Call S C A
    on_registry call s = (ok (call s.registry).0, record s { registry = (call s.registry).1 })

  -- A call on the registry whose answer, if it has one, is dropped.
  abbrev pub registers : (RunRegistry C → RunRegistry C) → Call S C (Unit {0})
  registers call s = (ok tt, record s { registry = call s.registry })

  -- `entry(run_id).or_insert_with(…)`.
  unfoldable pub event_lock : RunId → Call S C ℕ
  event_lock run_id s = elim (get run_id s.event_locks) [
    | some lock ↦ (ok lock, s)
    | none ↦ (
      ok s.next_lock,
      record s {
        event_locks = insert run_id s.next_lock s.event_locks;
        next_lock = s.next_lock + 1;
      },
    )
  ]

  -- The entry is the caller's lock, and nobody but the map and the caller holds a clone.
  unfoldable pub may_remove : RunId → ℕ → RunLifecycle S C → Bool
  may_remove run_id lock s = elim (get run_id s.event_locks) [
    | none ↦ false
    | some current ↦ current == lock && leb (s.clones current + 2) 2
  ]

  unfoldable pub remove_event_lock : RunId → ℕ → Call S C (Unit {0})
  remove_event_lock run_id lock s = (
    ok tt,
    if may_remove run_id lock s
        then record s { event_locks = remove_key run_id s.event_locks }
        else s,
  )

  -- The run is not in the store: the lock goes too, unless the run is in flight.
  unfoldable pub no_such_run : {A : Type 0} → RunId → ℕ → Call S C A
  no_such_run run_id lock s =
      if is_some (handle run_id s.registry)
      then (err run_not_found, s)
      else (remove_event_lock run_id lock >> fail run_not_found) s

  -- The last lines of a call that is done with its run's events.
  unfoldable pub leave_with : {A : Type 0} → RunId → ℕ → Result A → Call S C A
  leave_with run_id lock r = remove_event_lock run_id lock >> checks r

  -- The lock is taken and the run is looked up; `rest` is for a run that is there.
  unfoldable pub with_run : {A : Type 0} → RunId → P.Scope → (ℕ → Call S C A) → Call S C A
  with_run run_id scope rest = do
    lock ← event_lock run_id
    lookup ← on_store (S.lookup_run run_id scope)
    if is_some lookup then rest lock else no_such_run run_id lock

  -- A check after which the numbers are given back when it fails.
  unfoldable pub or_rewind : RunId → List ℤ → Result (Unit {0}) → Call S C (Unit {0})
  or_rewind run_id seqs (ok _) = pure tt
  or_rewind run_id seqs (err e) = registers (rewind_seqs run_id seqs) >> fail e
