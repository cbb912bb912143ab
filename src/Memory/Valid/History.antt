-- ===== src/Memory/Valid/History.antt =====
-- Histories of calls, and well-formed stores.
use typemach.Base.{refl, List, [], ◌∷◌}
use typemach.Base.Eq.{string_eq}
use typemach.Base.Map.{get, keys}
use typemach.Params.{Params}
use typemach.Memory.State.{Inner, Clock, empty}
use typemach.Memory.Leases.{reap_stale}
use typemach.Memory.Sessions.{put_session}
use typemach.Memory.Cases.Sessions.{ensured_cases}
use typemach.Memory.Valid.Puts.{Valid-kept}
use typemach.Memory.Calls.{
  Call, ensures, starts, finishes, cancels, records, commits, reserves, begins, renews, releases,
  reaps, step, run_calls,
}
use typemach.Memory.Valid.{Valid}
use typemach.Memory.Valid.Start.{start_run-Valid}
use typemach.Memory.Valid.Calls.{
  finish_run-Valid, record_event-Valid, mark_cancelled-Valid, reserve_effect-Valid,
  start_effect-Valid, renew-Valid, release-Valid, Rooms, reap_ids-Valid, commit_run-Valid,
}

module _ {P : Params} where
  pub empty-Valid : Valid (empty P)
  unfolding get
  empty-Valid = record {
    runs = λ k r h. cc;
    exclusive = λ j k q r hq hr. cc;
    leases = record { of_thread = λ th l h. cc; of_run = λ j r a h. cc };
  }

  -- The reaper adds one to the last number of a log, which must not be `i64::MAX`.
  abbrev pub NeedsRoom : Clock × Call P → Inner P → Type 0
  NeedsRoom (clock, reaps limit build_event) s = Rooms s
  NeedsRoom call s = Unit

  abbrev pub RoomsThrough : List (Clock × Call P) → Inner P → Type 0
  RoomsThrough [] s = Unit
  RoomsThrough (call ∷ calls) s = NeedsRoom call s × RoomsThrough calls (step call s)

  -- Each call, whatever it answers, keeps a well-formed store well formed. The reaper needs each open
  -- run's log to have a number left below `i64::MAX`.
  pub step-Valid :
      (call : Clock × Call P) (s : Inner P) → NeedsRoom call s → Valid s → Valid (step call s)
  unfolding step reap_stale
  step-Valid (clock, ensures asked scope) s room v =
      ensured_cases asked scope s Valid v
        λ id n. Valid-kept s (put_session id n scope s) refl refl v
  step-Valid (clock, starts run) s room v = start_run-Valid clock run s v
  step-Valid (clock, finishes finish) s room v = finish_run-Valid clock finish s v
  step-Valid (clock, cancels run_id scope) s room v = mark_cancelled-Valid run_id scope s v
  step-Valid (clock, records run_id scope event) s room v =
      record_event-Valid run_id scope event s v
  step-Valid (clock, commits c) s room v = commit_run-Valid clock c s v
  step-Valid (clock, reserves run_id scope lease key kind request) s room v =
      reserve_effect-Valid clock run_id scope lease key kind request s v
  step-Valid (clock, begins run_id scope lease key) s room v =
      start_effect-Valid clock run_id scope lease key s v
  step-Valid (clock, renews lease ttl) s room v = renew-Valid clock lease ttl s v
  step-Valid (clock, releases lease) s room v = release-Valid lease s v
  step-Valid (clock, reaps limit build_event) s room v =
      reap_ids-Valid limit build_event (clock.instant 0) (keys s.runs) [] s room v

  run_calls_from-Valid :
      (calls : List (Clock × Call P)) (s : Inner P)
      → RoomsThrough calls s
      → Valid s
      → Valid (run_calls calls s)
  unfolding run_calls
  run_calls_from-Valid [] s rooms v = v
  run_calls_from-Valid (call ∷ calls) s rooms v =
      run_calls_from-Valid calls (step call s) rooms.1 (step-Valid call s rooms.0 v)

  -- Every history of calls from the empty store leaves it well formed, if at each call of the reaper
  -- the logs of the open runs have a number left below `i64::MAX`.
  pub run_calls-Valid :
      (calls : List (Clock × Call P))
      → RoomsThrough calls (empty P)
      → Valid (run_calls calls (empty P))
  run_calls-Valid calls rooms = run_calls_from-Valid calls (empty P) rooms empty-Valid
