-- ===== src/Lifecycle/Check.antt =====
-- src/lifecycle.rs: the checks on events that a caller has built.
use typemach.Base.{Option, none, some, not, List, [], ◌∷◌, init, last, any}
use typemach.Base.Int.{ℤ, int_beq}
use typemach.Base.Eq.{◌=?◌, string_eq}
use typemach.Run.{RunId, SessionId}
use typemach.Error.{Result, ok, err, ◌>>◌, fail_if, invalid_run_event}
use typemach.Params.{Params}
use typemach.Store.{RunFinish}

module _ (P : Params) where
  -- The checks of `append_with`.
  unfoldable pub check_appended : RunId → ℤ → P.Event → Result (Unit {0})
  check_appended run_id seq event = do
    fail_if (not (P.event.run_id event =? run_id))
        (invalid_run_event "event run_id does not match target run")
    fail_if (not (int_beq (P.event.seq event) seq))
        (invalid_run_event "event seq does not match allocated seq")
    fail_if (P.event.is_terminal event)
        (invalid_run_event "append_event does not accept terminal events")

  unfoldable pub check_event : RunId → SessionId → P.Event → ℤ → Result (Unit {0})
  check_event run_id session_id event seq = do
    fail_if (not (P.event.run_id event =? run_id))
        (invalid_run_event "event run_id does not match target run")
    fail_if (not (P.event.session_id event =? session_id))
        (invalid_run_event "event session_id does not match target run")
    fail_if (not (int_beq (P.event.seq event) seq))
        (invalid_run_event "event seq does not match allocated seq")

  unfoldable pub validate_finish_event : RunFinish P → P.Event → ℤ → Result (Unit {0})
  validate_finish_event finish terminal_event seq = do
    check_event finish.run_id finish.session_id terminal_event seq
    fail_if (not (P.event.is_terminal terminal_event))
        (invalid_run_event "finish_run requires a terminal event")

  -- The loop over `events.iter().zip(seqs)`.
  unfoldable pub check_events : RunId → SessionId → List P.Event → List ℤ → Result (Unit {0})
  check_events run_id session_id [] seqs = ok tt
  check_events run_id session_id (event ∷ events) [] = ok tt
  check_events run_id session_id (event ∷ events) (seq ∷ seqs) = do
    check_event run_id session_id event seq
    check_events run_id session_id events seqs

  unfoldable pub check_last :
      RunFinish P → List P.Event → Option P.Event → Option ℤ → Result (Unit {0})
  check_last finish events none seq =
      err (invalid_run_event "finish commit requires a terminal event")
  check_last finish events (some event) none =
      err (invalid_run_event "finish commit requires a terminal event")
  check_last finish events (some event) (some seq) = do
    fail_if (any P.event.is_terminal (init events))
        (invalid_run_event "only the last commit event may be terminal")
    validate_finish_event finish event seq

  unfoldable pub check_end : Option (RunFinish P) → List P.Event → List ℤ → Result (Unit {0})
  check_end none events seqs =
      fail_if (any P.event.is_terminal events)
        (invalid_run_event "non-finish commit does not accept terminal events")
  check_end (some finish) events seqs = check_last finish events (last events) (last seqs)

  unfoldable pub validate_commit_events :
      RunId → SessionId → Option (RunFinish P) → List P.Event → List ℤ → Result (Unit {0})
  validate_commit_events run_id session_id finish events seqs = do
    check_events run_id session_id events seqs
    check_end finish events seqs
