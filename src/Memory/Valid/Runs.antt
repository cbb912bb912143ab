-- ===== src/Memory/Valid/Runs.antt =====
-- The changes of a run, and well-formed runs.
use typemach.Base.{
  ◌+◌, ◌<◌, none, some, true, false, List, [], ◌∷◌, ◌++◌, ◌≡◌, refl, last, init, any, map_option,
  All, arith, not, ◌||◌, inl, inr, Option-cases, ◌∙◌, last-append_some, init-append, both_of_nor,
}
use typemach.Base.Int.{ℤ, pos, ◌<ℤ◌, inc, lt-inc, inc-zero, i64_bound, pos_part, int_beq-eq}
use typemach.Base.Eq.{◌=?◌, string_eq}
use typemach.Run.{RunId}
use typemach.Error.{ok, fail_if-eq-ok, fail_if-ok}
use typemach.Params.{Params}
use typemach.Store.{is_terminal, RunStart}
use typemach.Memory.State.{MemoryRun, Clock}
use typemach.Memory.Start.{new_run}
use typemach.Memory.Leases.{reaped_run, next_event_seq, check_reap_event}
use typemach.Memory.Valid.{Ordered, Belongs, RunValid}
use typemach.Memory.Valid.Log.{Ordered-append, Ordered-last, Belongs-append, any-append}

module _ {P : Params} where
  -- A run whose log and end are as they were.
  pub RunValid-same :
      (k : RunId) (r q : MemoryRun P)
      → q.start ≡ r.start
      → q.events ≡ r.events
      → q.status ≡ r.status
      → q.terminal_event ≡ r.terminal_event
      → (is_terminal r.status ≡ true → q.lease ≡ none)
      → RunValid k r
      → RunValid k q
  RunValid-same k r q start events status event unleased v = record {
    keyed = rw start v.keyed;
    ordered = rw events v.ordered;
    belongs = rw (start, events) v.belongs;
    open_log = λ live. rw events (v.open_log (rw (← status) live));
    ended = λ over.
        let was : is_terminal r.status ≡ true = rw (← status) over in
        let (e, end) = v.ended was in
        (
          e,
          record {
            unleased = unleased was;
            kept = event ∙ end.kept;
            last_event = rw events end.last_event;
            terminal = end.terminal;
            only = rw events end.only;
          },
        );
  }

  pub new_run-RunValid :
      (clock : Clock) (run : RunStart P) → RunValid run.run_id (new_run clock run)
  unfolding new_run
  new_run-RunValid clock run = record {
    keyed = refl;
    ordered = tt;
    belongs = tt;
    open_log = λ _. refl;
    ended = λ over. cc;
  }

  -- Events that fit the log of an open run.
  pub record Fits (k : RunId) (r : MemoryRun P) (es : List P.Event) : Type 0 where
    pub still_open : is_terminal r.status ≡ false
    pub ordered : Ordered P (map_option P.event.seq (last r.events)) es
    pub belongs : All (Belongs P k r.start.session_id) es

  -- Fitting events that are not terminal leave the run open.
  pub RunValid-append :
      (k : RunId) (r q : MemoryRun P) (es : List P.Event)
      → q.start ≡ r.start
      → q.status ≡ r.status
      → q.events ≡ r.events ++ es
      → any P.event.is_terminal es ≡ false
      → Fits k r es
      → RunValid k r
      → RunValid k q
  RunValid-append k r q es start status events open_still fits v = record {
    keyed = rw start v.keyed;
    ordered = rw events (Ordered-append P r.events es v.ordered fits.ordered);
    belongs =
        rw (start, events)
          (Belongs-append P k r.start.session_id r.events es v.belongs fits.belongs);
    open_log = λ _.
        rw events
          (any-append P P.event.is_terminal r.events es (v.open_log fits.still_open) open_still);
    ended = λ over. absurd (cc (rw status at over, fits.still_open));
  }

  -- Fitting events of which the last alone is terminal end the run.
  pub RunValid-end :
      (k : RunId) (r q : MemoryRun P) (es : List P.Event) (e : P.Event)
      → q.start ≡ r.start
      → q.events ≡ r.events ++ es
      → is_terminal q.status ≡ true
      → q.lease ≡ none
      → q.terminal_event ≡ some e
      → last es ≡ some e
      → P.event.is_terminal e ≡ true
      → any P.event.is_terminal (init es) ≡ false
      → Fits k r es
      → RunValid k r
      → RunValid k q
  RunValid-end k r q es e start events over unleased kept last_event terminal only fits v = record {
    keyed = rw start v.keyed;
    ordered = rw events (Ordered-append P r.events es v.ordered fits.ordered);
    belongs =
        rw (start, events)
          (Belongs-append P k r.start.session_id r.events es v.belongs fits.belongs);
    open_log = λ live. absurd (cc (live, over));
    ended = λ _. (
      e,
      record {
        unleased = unleased;
        kept = kept;
        last_event = rw events (last-append_some r.events es last_event);
        terminal = terminal;
        only =
            rw (events, init-append r.events es last_event)
              (any-append P P.event.is_terminal r.events (init es) (v.open_log fits.still_open)
                only);
      },
    );
  }

  -- The number after the last one fits, unless the last is `i64::MAX`.
  abbrev pub HasRoom : MemoryRun P → Type 0
  HasRoom r = (e : P.Event) → last r.events ≡ some e → pos_part (P.event.seq e) + 1 < i64_bound

  next-Ordered :
      (r : MemoryRun P) (e : P.Event)
      → HasRoom r
      → Ordered P none r.events
      → P.event.seq e ≡ next_event_seq r
      → Ordered P (map_option P.event.seq (last r.events)) (e ∷ [])
  unfolding next_event_seq
  next-Ordered r e room ordered same = elim (Option-cases (last r.events)) [
    | inl none_yet ↦
        let first : P.event.seq e ≡ inc (pos 0) = same ∙ rw none_yet refl in
        let one : P.event.seq e ≡ pos 1 = first ∙ inc-zero in
        rw (none_yet, one) (omega arith, tt, tt)
    | inr (f, found) ↦
        let next : P.event.seq e ≡ inc (P.event.seq f) = same ∙ rw found refl in
        let above = Ordered-last P none r.events ordered found in
        let later = lt-inc (P.event.seq f) (room f found) in
        rw (found, next) (between (P.event.seq f) (inc (P.event.seq f)) above later, later, tt)
  ]
    where
      between : (a b : ℤ) → pos 0 <ℤ a → a <ℤ b → pos 0 <ℤ b
      between a b h k = omega arith

  reap_seq-eq :
      (r : MemoryRun P) (e : P.Event)
      → check_reap_event r (next_event_seq r) e ≡ ok tt
      → (P.event.seq e ≡ next_event_seq r)
        × (P.event.is_terminal e ≡ true)
        × Belongs P r.start.run_id r.start.session_id e
  unfolding check_reap_event
  reap_seq-eq r e h =
      let (mine, h₁) =
        fail_if-eq-ok
          (not (P.event.run_id e =? r.start.run_id)
            || not (P.event.session_id e =? r.start.session_id))
          _ _ h in
      let (run, session) = both_of_nor _ _ mine in
      let (numbered, terminal) = both_of_nor _ _ (fail_if-ok _ _ h₁) in
      (
        int_beq-eq (P.event.seq e) (next_event_seq r) numbered,
        terminal,
        ((string_eq.beq_iff _ _).0 run, (string_eq.beq_iff _ _).0 session),
      )

  -- The event that the reaper adds fits, and ends the run.
  pub reaped_run-RunValid :
      (k : RunId) (r : MemoryRun P) (e : P.Event)
      → is_terminal r.status ≡ false
      → HasRoom r
      → check_reap_event r (next_event_seq r) e ≡ ok tt
      → RunValid k r
      → RunValid k (reaped_run r e)
  unfolding reaped_run
  reaped_run-RunValid k r e live room checked v =
      let (numbered, terminal, mine) = reap_seq-eq r e checked in
      RunValid-end k r (reaped_run r e) (e ∷ []) e refl refl refl refl refl refl terminal refl
        (record {
          still_open = live;
          ordered = next-Ordered r e room v.ordered numbered;
          belongs = (rw (← v.keyed) mine, tt);
        })
        v
