-- ===== src/Lifecycle/Recorded.antt =====
-- Events appended by a lifecycle over the memory store, src/lifecycle.rs and src/store/memory.rs.
use typemach.Base.{
  ℕ, ◌+◌, ◌<◌, Option, none, some, true, false, List, [], ◌∷◌, ◌++◌, last, last-append, map_option,
  ◌≡◌, refl, sym, ap, ◌∙◌, inl, inr, Option-cases, Bool-cases, arith,
}
use mathlib.Core.Path.{subst}
use typemach.Base.Int.{ℤ, pos, inc, inc-pos, leb_ℤ, ◌≤ℤ◌, i64_bound}
use typemach.Base.Eq.{string_eq, beq_refl}
use typemach.Base.Map.{get, get-insert_self}
use typemach.Run.{RunId, SessionId}
use typemach.Error.{Result, ok}
use typemach.Params.{Params}
use typemach.Store.{is_terminal}
use typemach.Registry.{Channels, RunRegistry, ActiveRun, publish, broadcast, put, send_all}
use typemach.Registry.Rewind.{next_seq-found, raised, int_beq_refl}
use typemach.Memory.State.{Inner, MemoryRun}
use typemach.Memory.Validate.{not_after, validate_next_seq}
use typemach.Memory.Start.{insert_run}
use typemach.Memory.Finish.{
  check_record, check_record_open, push_event, record_open, record_target, record_event,
}
use typemach.Memory.Queries.{scoped_run, lookup_run}
use typemach.Memory.Store.{memory_store}
use typemach.Lifecycle.State.{RunLifecycle, Call, event_lock, with_run, or_rewind}
use typemach.Lifecycle.Check.{check_appended}
use typemach.Lifecycle.Events.{
  AppendEventResult, recorded, take_recorded, append_numbered, append_given, append_next,
  append_with,
}

module _ (P : Params) where
  -- No number of the log goes past the registry's.
  abbrev pub Behind : ℕ → Option P.Event → Type 0
  Behind n none = Unit
  Behind n (some event) = P.event.seq event ≤ℤ pos n

  -- An event that may come next.
  pub record Next (run_id : RunId) (session_id : SessionId) (n : ℕ) (event : P.Event) : Type 0 where
    pub of_run : P.event.run_id event ≡ run_id
    pub of_session : P.event.session_id event ≡ session_id
    pub numbered : P.event.seq event ≡ pos (n + 1)
    pub goes_on : P.event.is_terminal event ≡ false

  not_after-Behind :
      (n : ℕ) (end : Option P.Event) (event : P.Event)
      → Behind n end
      → P.event.seq event ≡ pos (n + 1)
      → not_after P (map_option P.event.seq end) event ≡ false
  not_after-Behind n none event b h = refl
  not_after-Behind n (some old) event b h = rw (h) (ground (arith, b))

  -- The store has the run, open, unleased and of this scope and session, with this log.
  pub record Open (run_id : RunId) (scope : P.Scope) (session_id : SessionId) (n : ℕ)
      (log : List P.Event) (s : Inner P) : Type 0 where
    pub run : MemoryRun P
    pub found : get run_id s.runs ≡ some run
    pub scoped : P.scope_eq.beq run.start.scope scope ≡ true
    pub in_session : run.start.session_id ≡ session_id
    pub live : is_terminal run.status ≡ false
    pub unleased : run.lease ≡ none
    pub logged : run.events ≡ log
    pub behind : Behind n (last log)

module _ {P : Params} (run_id : RunId) (scope : P.Scope) (session_id : SessionId) (n : ℕ)
    (log : List P.Event) (event : P.Event) (s : Inner P)
    (o : Open P run_id scope session_id n log s) (x : Next P run_id session_id n event) where
  check_record-ok : check_record P run_id event ≡ ok tt
  unfolding check_record
  check_record-ok = rw (x.goes_on, x.of_run, beq_refl run_id, check_record) refl

  check_record_open-ok : check_record_open event o.run ≡ ok tt
  unfolding check_record_open validate_next_seq
  check_record_open-ok =
      let positive : leb_ℤ (pos (n + 1)) (pos 0) ≡ false = ground arith in
      let after = not_after-Behind P n (last log) event o.behind x.numbered in
      rw
        (
          o.unleased,
          x.of_session,
          o.in_session,
          beq_refl session_id,
          o.logged,
          check_record_open,
          validate_next_seq,
          after,
          x.numbered,
          positive,
        )
        refl

  record_event-Open :
      record_event run_id scope event s ≡ (ok true, insert_run run_id (push_event event o.run) s)
  unfolding record_event record_target record_open
  record_event-Open =
      rw
        (
          check_record-ok, o.found, record_event, o.scoped, record_target, o.live, record_open,
          check_record_open-ok,
        )
        refl

  -- The event is in the log, and the store may take the next one.
  recorded-Open :
      Open P run_id scope session_id
        (n + 1)
        (log ++ event ∷ [])
        (insert_run run_id (push_event event o.run) s)
  unfolding insert_run push_event
  recorded-Open = record {
    run = push_event event o.run;
    found = get-insert_self run_id (push_event event o.run) s.runs;
    scoped = o.scoped;
    in_session = o.in_session;
    live = o.live;
    unleased = o.unleased;
    logged = ap (λ es. es ++ event ∷ []) o.logged;
    behind = subst (Behind P (n + 1)) (sym (last-append log event)) (rw (x.numbered) (omega arith));
  }

  check_appended-ok : check_appended P run_id (pos (n + 1)) event ≡ ok tt
  unfolding check_appended
  check_appended-ok =
      rw
        (
          x.of_run,
          beq_refl run_id,
          x.numbered,
          int_beq_refl (pos (n + 1)),
          x.goes_on,
          check_appended,
        )
        refl

module _ {E : Type 0} {C : Channels E} where
  publish-keeps :
      (run_id : RunId) (event : E) (run : ActiveRun C) (r : RunRegistry C)
      → get run_id r.runs ≡ some run
      → (after : ActiveRun C) × (get run_id (publish run_id event r).runs ≡ some after)
        × (after.current_seq ≡ run.current_seq)
  unfolding publish broadcast
  publish-keeps run_id event run r found = elim (Bool-cases run.terminal_published) [
    | inl over ↦
        let same : publish run_id event r ≡ r = rw (found, publish, over) refl in
        (run, ap (λ q. get run_id q.runs) same ∙ found, refl)
    | inr live ↦
        let after = record run {
          stream_senders = (send_all C run.stream_senders event r.world).0;
        } in
        let same : publish run_id event r ≡ broadcast run_id run event r =
          rw (found, publish, live) refl in
        (after, ap (λ q. get run_id q.runs) same ∙ get-insert_self run_id after r.runs, refl)
  ]

module _ {P : Params} {C : Channels P.Event} where
  -- The registry counts the events of the run that the store has open.
  pub record InStep (run_id : RunId) (scope : P.Scope) (session_id : SessionId) (n : ℕ)
      (log : List P.Event) (s : RunLifecycle (memory_store P) C) : Type 0 where
    pub active : ActiveRun C
    pub registered : get run_id s.registry.runs ≡ some active
    pub counted : active.current_seq ≡ pos n
    pub stored : Open P run_id scope session_id n log s.store.inner

  event_lock-same :
      (run_id : RunId) (s : RunLifecycle (memory_store P) C)
      → (lock : ℕ) × ((event_lock run_id s).0 ≡ ok lock)
        × ((event_lock run_id s).1.registry ≡ s.registry)
        × ((event_lock run_id s).1.store ≡ s.store)
  unfolding event_lock
  event_lock-same run_id s = elim (Option-cases (get run_id s.event_locks)) [
    | inl absent ↦ rw (absent, event_lock) (s.next_lock, refl, refl, refl)
    | inr (lock, found) ↦ rw (found, event_lock) (lock, refl, refl, refl)
  ]

  -- A run that the store has is looked up, and nothing else changes but the table of locks.
  with_run-found :
      {A : Type 0} (run_id : RunId) (scope : P.Scope) (rest : ℕ → Call (memory_store P) C A)
      (run : MemoryRun P) (s : RunLifecycle (memory_store P) C)
      → get run_id s.store.inner.runs ≡ some run
      → P.scope_eq.beq run.start.scope scope ≡ true
      → (lock : ℕ) × (with_run run_id scope rest s ≡ rest lock (event_lock run_id s).1)
  unfolding with_run lookup_run scoped_run
  with_run-found run_id scope rest run s found scoped =
      let (lock, taken, _, same) = event_lock-same run_id s in
      let found' = ap (λ w. get run_id w.inner.runs) same ∙ found in
      (lock, rw (taken, with_run, lookup_run, found', scoped_run, scoped) refl)

  -- The event and all that comes of it, in a run that is in step.
  abbrev pub Recorded :
      RunId
      → P.Scope
      → SessionId
      → ℕ
      → List P.Event
      → P.Event
      → Result (AppendEventResult P.Event) × RunLifecycle (memory_store P) C
      → Type 0
  Recorded run_id scope session_id n log event y =
      (y.0 ≡ ok (recorded event)) × InStep run_id scope session_id (n + 1) (log ++ event ∷ []) y.1

  append_numbered-Recorded :
      (run_id : RunId) (scope : P.Scope) (session_id : SessionId) (n : ℕ) (log : List P.Event)
      (event : P.Event) (lock : ℕ) (active : ActiveRun C) (s : RunLifecycle (memory_store P) C)
      → Next P run_id session_id n event
      → get run_id s.registry.runs ≡ some active
      → active.current_seq ≡ pos (n + 1)
      → Open P run_id scope session_id n log s.store.inner
      → Recorded run_id scope session_id n log event
          (append_numbered run_id scope lock (pos (n + 1)) event s)
  unfolding append_numbered or_rewind take_recorded
  append_numbered-Recorded run_id scope session_id n log event lock active s x found counted o =
      let (after, found', same) = publish-keeps run_id event active s.registry found in
      let checked = check_appended-ok run_id scope session_id n log event s.store.inner o x in
      let taken = record_event-Open run_id scope session_id n log event s.store.inner o x in
      rw (checked, append_numbered, taken)
        (
          refl,
          record {
            active = after;
            registered = found';
            counted = same ∙ counted;
            stored = recorded-Open run_id scope session_id n log event s.store.inner o x;
          },
        )

  append_next-Recorded :
      (run_id : RunId) (scope : P.Scope) (session_id : SessionId) (n : ℕ) (log : List P.Event)
      (build_event : ℤ → P.Event) (lock : ℕ) (s : RunLifecycle (memory_store P) C)
      → n + 1 < i64_bound
      → Next P run_id session_id n (build_event (pos (n + 1)))
      → InStep run_id scope session_id n log s
      → Recorded run_id scope session_id n log
          (build_event (pos (n + 1)))
          (append_next run_id scope build_event lock s)
  unfolding append_next append_given
  append_next-Recorded run_id scope session_id n log build_event lock s room x i =
      let event = build_event (pos (n + 1)) in
      let given = put run_id (raised i.active) s.registry in
      let number = ap inc i.counted ∙ inc-pos n room in
      let handed =
        next_seq-found run_id i.active s.registry i.registered ∙ ap (λ z. (some z, given)) number in
      let Good : Option ℤ × RunRegistry C → Type 0 = λ y.
        Recorded run_id scope session_id n log event
          (append_given run_id scope build_event lock y.0 (record s { registry = y.1 })) in
      subst Good (sym handed) (
        append_numbered-Recorded run_id scope session_id n log event lock (raised i.active)
          (record s { registry = given }) x
          (get-insert_self run_id (raised i.active) s.registry.runs) number i.stored)

  -- Over the memory store, a run whose events the registry has counted goes on being in step: an event
  -- built for the next number, of the run and its session and not terminal, is recorded with that
  -- number as the last of the log, and the registry's number is the log's last again. The number stays
  -- below `i64::MAX`, and the run is open and without a lease.
  pub append_with-records :
      (run_id : RunId) (scope : P.Scope) (session_id : SessionId) (n : ℕ) (log : List P.Event)
      (build_event : ℤ → P.Event) (s : RunLifecycle (memory_store P) C)
      → n + 1 < i64_bound
      → Next P run_id session_id n (build_event (pos (n + 1)))
      → InStep run_id scope session_id n log s
      → Recorded run_id scope session_id n log
          (build_event (pos (n + 1)))
          (append_with run_id scope build_event s)
  unfolding append_with
  append_with-records run_id scope session_id n log build_event s room x i =
      let (_, _, same_registry, same_store) = event_lock-same run_id s in
      let (lock, there) =
        with_run-found run_id scope (append_next run_id scope build_event) i.stored.run s
          i.stored.found i.stored.scoped in
      let locked : InStep run_id scope session_id n log (event_lock run_id s).1 = record {
        active = i.active;
        registered = ap (λ r. get run_id r.runs) same_registry ∙ i.registered;
        counted = i.counted;
        stored =
            subst (λ w. Open P run_id scope session_id n log w.inner) (sym same_store) i.stored;
      } in
      subst (Recorded run_id scope session_id n log (build_event (pos (n + 1)))) (sym there) (
        append_next-Recorded run_id scope session_id n log build_event lock (event_lock run_id s).1
          room x locked)
