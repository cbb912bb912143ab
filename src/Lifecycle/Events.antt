-- ===== src/Lifecycle/Events.antt =====
-- src/lifecycle.rs: `append_with`, `finish_with` and `finish_detached_with`, and the calls of an
-- envelope's payload that come down to them.
use typemach.Base.{
  Option, ℕ, none, some, Bool, true, false, not, last, is_some, if◌then◌else◌, ◌∷◌, [],
}
use typemach.Base.Int.{ℤ, pos, inc}
use typemach.Base.Eq.{string_eq}
use typemach.Run.{RunId}
use typemach.Error.{Result, ok, err, fail_if, run_not_found, run_already_active, invalid_run_event}
use typemach.Params.{Params}
use typemach.Op.{Page}
use typemach.Store.{
  RunFinish, FinishRunResult, already_finished, result_event, into_record, is_terminal,
}
use typemach.Store.Interface.{RunStore}
use typemach.Memory.Queries.{usize_max}
use typemach.Registry.{Channels, RunRegistry, next_seq, handle, publish, publish_terminal, remove}
use typemach.Lifecycle.Check.{check_appended, validate_finish_event}
use typemach.Lifecycle.State.{
  Call, ◌>>=◌, ◌>>◌, pure, checks, on_store, on_registry, registers, with_run, leave_with,
  or_rewind,
}

pub data AppendEventResult (E : Type 0) : Type 0 where
  recorded : E → AppendEventResult E
  skipped : AppendEventResult E

module _ (P : Params) where
  unfoldable pub check_finish : RunFinish P → Result (Unit {0})
  check_finish finish =
      fail_if (not (is_terminal finish.status))
        (invalid_run_event "finish_run requires a terminal status")

  -- The number after the last one of the log.
  abbrev pub after_last : Page P.Event → ℤ
  after_last page = elim (last page.items) [
    | none ↦ inc (pos 0)
    | some event ↦ inc (P.event.seq event)
  ]

-- What the registry makes of the end of a run.
unfoldable pub close_run : {E : Type 0} {C : Channels E} → RunId → E → RunRegistry C → RunRegistry C
close_run run_id event r = remove run_id (publish_terminal run_id event r).1

module _ {P : Params} {S : RunStore P} {C : Channels P.Event} where
  unfoldable pub take_recorded : RunId → ℕ → P.Event → Bool → Call S C (AppendEventResult P.Event)
  take_recorded run_id lock event true = registers (publish run_id event) >> pure (recorded event)
  take_recorded run_id lock event false =
      registers (remove run_id) >> leave_with run_id lock (ok skipped)

  -- The event has got its number.
  unfoldable pub append_numbered :
      RunId → P.Scope → ℕ → ℤ → P.Event → Call S C (AppendEventResult P.Event)
  append_numbered run_id scope lock seq event = do
    or_rewind run_id (seq ∷ []) (check_appended P run_id seq event)
    taken ← on_store (S.record_event run_id scope event)
    take_recorded run_id lock event taken

  -- `let Some(seq) = self.registry.next_seq(run_id) else …`.
  unfoldable pub append_given :
      RunId → P.Scope → (ℤ → P.Event) → ℕ → Option ℤ → Call S C (AppendEventResult P.Event)
  append_given run_id scope build_event lock none = leave_with run_id lock (err run_not_found)
  append_given run_id scope build_event lock (some seq) =
      append_numbered run_id scope lock seq (build_event seq)

  unfoldable pub append_next :
      RunId → P.Scope → (ℤ → P.Event) → ℕ → Call S C (AppendEventResult P.Event)
  append_next run_id scope build_event lock = do
    next ← on_registry (next_seq run_id)
    append_given run_id scope build_event lock next

  unfoldable pub append_with :
      RunId → P.Scope → (ℤ → P.Event) → Call S C (AppendEventResult P.Event)
  append_with run_id scope build_event =
      with_run run_id scope (append_next run_id scope build_event)

  -- The run is not in flight here: it may have ended.
  unfoldable pub finish_absent : RunFinish P → ℕ → Call S C (FinishRunResult P.Event)
  finish_absent finish lock = do
    ended ← on_store (S.terminal_event finish.run_id finish.scope)
    elim ended [
      | some event ↦ leave_with finish.run_id lock (ok (already_finished event))
      | none ↦ leave_with finish.run_id lock (err run_not_found)
    ]

  unfoldable pub finish_published :
      RunFinish P → ℕ → FinishRunResult P.Event → Call S C (FinishRunResult P.Event)
  finish_published finish lock result =
      registers (close_run finish.run_id (result_event result))
      >> leave_with finish.run_id lock (ok result)

  unfoldable pub finish_numbered :
      RunFinish P → ℕ → ℤ → P.Event → Call S C (FinishRunResult P.Event)
  finish_numbered finish lock seq event = do
    or_rewind finish.run_id (seq ∷ []) (validate_finish_event P finish event seq)
    result ← on_store (S.finish_run (into_record finish event))
    finish_published finish lock result

  unfoldable pub finish_given :
      RunFinish P → (ℤ → P.Event) → ℕ → Option ℤ → Call S C (FinishRunResult P.Event)
  finish_given finish build_event lock none = finish_absent finish lock
  finish_given finish build_event lock (some seq) =
      finish_numbered finish lock seq (build_event seq)

  unfoldable pub finish_next : RunFinish P → (ℤ → P.Event) → ℕ → Call S C (FinishRunResult P.Event)
  finish_next finish build_event lock = do
    next ← on_registry (next_seq finish.run_id)
    finish_given finish build_event lock next

  unfoldable pub finish_with : RunFinish P → (ℤ → P.Event) → Call S C (FinishRunResult P.Event)
  finish_with finish build_event = do
    checks (check_finish P finish)
    with_run finish.run_id finish.scope (finish_next finish build_event)

  unfoldable pub finish_logged : RunFinish P → ℕ → ℤ → P.Event → Call S C (FinishRunResult P.Event)
  finish_logged finish lock seq event = do
    checks (validate_finish_event P finish event seq)
    result ← on_store (S.finish_run (into_record finish event))
    leave_with finish.run_id lock (ok result)

  unfoldable pub finish_detached_next :
      RunFinish P → (ℤ → P.Event) → ℕ → Call S C (FinishRunResult P.Event)
  finish_detached_next finish build_event lock = do
    ended ← on_store (S.terminal_event finish.run_id finish.scope)
    elim ended [
      | some event ↦ leave_with finish.run_id lock (ok (already_finished event))
      | none ↦ do
        page ← on_store (S.list_events finish.run_id finish.scope (pos 0) usize_max)
        finish_logged finish lock (after_last P page) (build_event (after_last P page))
    ]

  unfoldable pub finish_detached_idle :
      RunFinish P → (ℤ → P.Event) → ℕ → Call S C (FinishRunResult P.Event)
  finish_detached_idle finish build_event lock s =
      if is_some (handle finish.run_id s.registry)
      then (err run_already_active, s)
      else finish_detached_next finish build_event lock s

  unfoldable pub finish_detached_with :
      RunFinish P → (ℤ → P.Event) → Call S C (FinishRunResult P.Event)
  finish_detached_with finish build_event = do
    checks (check_finish P finish)
    with_run finish.run_id finish.scope (finish_detached_idle finish build_event)
