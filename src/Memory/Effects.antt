-- ===== src/Memory/Effects.antt =====
-- `reserve_effect` and `start_effect`: the steps of an effect that a run makes outside a commit.
use typemach.Base.{String, Option, none, some, ◌&&◌, if◌then◌else◌}
use typemach.Base.Int.{ℤ}
use typemach.Base.Eq.{◌=?◌, string_eq, pair_eq}
use typemach.Base.Map.{get, insert}
use typemach.Run.{RunId, LeaseId}
use typemach.Error.{
  Result, ok, err, effect_conflict, effect_pending, effect_not_found, run_not_found,
}
use typemach.Op.{Effect, reserved, started, is_done, is_blocking}
use typemach.Params.{Params}
use typemach.Store.{is_terminal}
use typemach.Memory.State.{Inner, MemoryRun, Clock, now_ms, Action}
use typemach.Memory.Leases.{check_memory_lease}

module _ {V : Type 0} where
  unfoldable pub reserved_effect : ℤ → RunId → String → String → V → Effect V
  reserved_effect now run_id key kind request = record {
    run_id = run_id;
    key = key;
    kind = kind;
    status = reserved;
    request = request;
    result = none;
    error_code = none;
    error_message = none;
    created_at = now;
    updated_at = now;
  }

  unfoldable pub started_effect : ℤ → Effect V → Effect V
  started_effect now effect = record effect {
    status = started;
    result = none;
    error_code = none;
    error_message = none;
    updated_at = now;
  }

module _ {P : Params} where
  abbrev pub put_effect : RunId → String → Effect P.Value → Inner P → Inner P
  put_effect run_id key effect s = record s { effects = insert (run_id, key) effect s.effects }

  -- The run that both calls need: of this scope, not ended, and leased to the caller.
  unfoldable pub effect_run :
      RunId → P.Scope → Option LeaseId → Clock → Inner P → Result (MemoryRun P)
  effect_run run_id scope lease clock s = elim (get run_id s.runs) [
    | none ↦ err run_not_found
    | some run ↦
        if P.scope_eq.beq run.start.scope scope
        then if is_terminal run.status
          then err run_not_found
          else elim (check_memory_lease run lease (clock.instant 0)) [
            | err e ↦ err e
            | ok _ ↦ ok run
          ]
        else err run_not_found
  ]

  unfoldable pub reserve_open :
      Clock → RunId → String → String → P.Value → Action P (Effect P.Value)
  reserve_open clock run_id key kind request s = elim (get (run_id, key) s.effects) [
    | some old ↦
        if old.kind =? kind && P.value_eq.beq old.request request
        then (ok old, s)
        else (err effect_conflict, s)
    | none ↦
        let effect = reserved_effect (now_ms clock 0) run_id key kind request in
        (ok effect, put_effect run_id key effect s)
  ]

  unfoldable pub reserve_effect :
      Clock
      → RunId
      → P.Scope
      → Option LeaseId
      → String
      → String
      → P.Value
      → Action P (Effect P.Value)
  reserve_effect clock run_id scope lease key kind request s =
      elim (effect_run run_id scope lease clock s) [
        | err e ↦ (err e, s)
        | ok _ ↦ reserve_open clock run_id key kind request s
      ]

  unfoldable pub start_open : Clock → RunId → String → Action P (Effect P.Value)
  start_open clock run_id key s = elim (get (run_id, key) s.effects) [
    | none ↦ (err effect_not_found, s)
    | some old ↦
        let effect = started_effect (now_ms clock 0) old in
        if is_blocking old.status
        then (err effect_pending, s)
        else if is_done old.status
        then (ok old, s)
        else (ok effect, put_effect run_id key effect s)
  ]

  unfoldable pub start_effect :
      Clock → RunId → P.Scope → Option LeaseId → String → Action P (Effect P.Value)
  start_effect clock run_id scope lease key s = elim (effect_run run_id scope lease clock s) [
    | err e ↦ (err e, s)
    | ok _ ↦ start_open clock run_id key s
  ]
