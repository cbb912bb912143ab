-- ===== src/Memory/Validate.antt =====
-- src/store/memory/validate.rs: the checks on events before anything is written.
use typemach.Base.{
  String, Option, none, some, Bool, false, not, List, [], ◌∷◌, map_option, last, init, any, ◌||◌,
}
use typemach.Base.Int.{ℤ, pos, leb_ℤ}
use typemach.Base.Eq.{◌=?◌, string_eq}
use typemach.Run.{RunId, SessionId}
use typemach.Error.{Result, ok, err, ◌>>=◌, ◌>>◌, fail_if, invalid_run_event, map_serialization}
use typemach.Params.{Params}
use typemach.Store.{RunCommit, RunFinish, is_terminal}
use typemach.Memory.State.{MemoryRun}

module _ (P : Params) where
  unfoldable pub scope_key : P.Scope → Result String
  scope_key scope = do
    value ← map_serialization (P.scope_value scope)
    map_serialization (P.value_text value)

  unfoldable pub validate_event_run : RunId → SessionId → P.Event → Result (Unit {0})
  validate_event_run run_id session_id event = do
    fail_if (not (P.event.run_id event =? run_id))
        (invalid_run_event "event run_id does not match target run")
    fail_if (not (P.event.session_id event =? session_id))
        (invalid_run_event "event session_id does not match target run")

  -- The loop over the events of a commit.
  unfoldable pub validate_events : RunId → SessionId → List P.Event → Result (Unit {0})
  validate_events run_id session_id [] = ok tt
  validate_events run_id session_id (event ∷ events) = do
    validate_event_run run_id session_id event
    fail_if (leb_ℤ (P.event.seq event) (pos 0)) (invalid_run_event "event seq must be positive")
    validate_events run_id session_id events

  -- The number does not go past the last one, if there is one.
  abbrev pub not_after : Option ℤ → P.Event → Bool
  not_after none event = false
  not_after (some last) event = leb_ℤ (P.event.seq event) last

  -- The loop of `validate_event_sequence`, from the last number seen.
  unfoldable pub validate_sequence : Option ℤ → List P.Event → Result (Unit {0})
  validate_sequence last_seq [] = ok tt
  validate_sequence last_seq (event ∷ events) = do
    fail_if (leb_ℤ (P.event.seq event) (pos 0)) (invalid_run_event "event seq must be positive")
    fail_if (not_after last_seq event) (invalid_run_event "event seq must increase monotonically")
    validate_sequence (some (P.event.seq event)) events

  -- The tests on the last event of a commit that finishes its run, and on the events before it.
  unfoldable pub validate_last : List P.Event → Option P.Event → Result (Unit {0})
  validate_last events none = err (invalid_run_event "finish commit requires a terminal event")
  validate_last events (some event) = do
    fail_if (not (P.event.is_terminal event))
        (invalid_run_event "finish_run requires a terminal event")
    fail_if (any P.event.is_terminal (init events))
        (invalid_run_event "only the last commit event may be terminal")

module _ {P : Params} where
  unfoldable pub validate_finish : RunCommit P → Option (RunFinish P) → Result (Unit {0})
  validate_finish c none =
      fail_if (any P.event.is_terminal c.events)
        (invalid_run_event "record_event does not accept terminal events")
  validate_finish c (some finish) = do
    fail_if (not (finish.run_id =? c.run_id) || not (finish.session_id =? c.session_id))
        (invalid_run_event "finish target does not match committed run")
    fail_if (not (is_terminal finish.status))
        (invalid_run_event "finish_run requires a terminal status")
    validate_last P c.events (last c.events)

  unfoldable pub validate_commit_events : RunCommit P → Result (Unit {0})
  validate_commit_events c = do
    validate_events P c.run_id c.session_id c.events
    validate_finish c c.finish

  unfoldable pub validate_event_sequence : MemoryRun P → List P.Event → Result (Unit {0})
  validate_event_sequence run events =
      validate_sequence P (map_option P.event.seq (last run.events)) events

  unfoldable pub validate_next_seq : MemoryRun P → P.Event → Result (Unit {0})
  validate_next_seq run event = do
    fail_if (leb_ℤ (P.event.seq event) (pos 0)) (invalid_run_event "event seq must be positive")
    fail_if (not_after P (map_option P.event.seq (last run.events)) event)
        (invalid_run_event "event seq must increase monotonically")
