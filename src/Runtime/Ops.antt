-- ===== src/Runtime/Ops.antt =====
-- `TxRunOps` of src/runtime/tx/op.rs: the operations of a run that a transactional runtime carries on.
use typemach.Base.{String, none, some, not, List, [], ◌∷◌}
use typemach.Base.Eq.{◌=?◌, string_eq}
use typemach.Run.{RunId, SessionId, LeaseId}
use typemach.Error.{
  Result, ok, err, fail_if, effect_conflict, item_conflict, entry_conflict, run_not_found,
  invalid_run_event,
}
use typemach.Params.{Params}
use typemach.Op.{Effect, EffectUpdate, ItemWrite, EntryWrite}
use typemach.Op.Run.{RunOps}
use typemach.Store.{RunCommit, RunCommitResult, recorded, finished_with, skipped}
use typemach.Store.Interface.{RunStore}
use typemach.Runtime.Pending.{PendingOps, nothing_pending, update_beq, item_beq, entry_beq, push}

module _ {P : Params} (S : RunStore P) where
  pub record TxRunOps : Type 0 where
    pub store : S.World
    pub run_id : RunId
    pub session_id : SessionId
    pub scope : P.Scope
    pub lease : LeaseId
    pub pending : PendingOps P.Value

  abbrev pub OpCall : Type 0 → Type 0
  OpCall A = TxRunOps → Result A × TxRunOps

-- What an operation makes of the answer to its commit.
unfoldable pub live_answer : {E : Type 0} → Result (RunCommitResult E) → Result (Unit {0})
live_answer (err e) = err e
live_answer (ok (recorded events)) = ok tt
live_answer (ok skipped) = err run_not_found
live_answer (ok (finished_with events result)) =
    err (invalid_run_event "live entry commit produced a terminal result")

module _ {P : Params} {S : RunStore P} where
  unfoldable pub take : TxRunOps S → PendingOps P.Value × TxRunOps S
  take s = (s.pending, record s { pending = nothing_pending })

  unfoldable pub check_run : RunId → TxRunOps S → Result (Unit {0})
  check_run run_id s =
      fail_if (not (run_id =? s.run_id))
        (invalid_run_event "runtime operation target does not match run")

  -- `self.check_run(run_id)?` in front of a call.
  abbrev pub after_check : {A : Type 0} → Result (Unit {0}) → OpCall S A → OpCall S A
  after_check (ok _) call s = call s
  after_check (err e) call s = (err e, s)

  abbrev pub for_run : {A : Type 0} → RunId → OpCall S A → OpCall S A
  for_run run_id call s = after_check (check_run run_id s) call s

  unfoldable pub reserve : RunId → String → String → P.Value → OpCall S (Effect P.Value)
  reserve run_id key kind request = for_run run_id (λ s.
      let (answer, store) =
        S.reserve_effect run_id s.scope (some s.lease) key kind request s.store in
      (answer, record s { store = store }))

  unfoldable pub start : RunId → String → OpCall S (Effect P.Value)
  start run_id key = for_run run_id (λ s.
      let (answer, store) = S.start_effect run_id s.scope (some s.lease) key s.store in
      (answer, record s { store = store }))

  unfoldable pub push_effect : RunId → EffectUpdate P.Value → OpCall S (Unit {0})
  push_effect run_id update = for_run run_id (λ s.
      let (answer, effects) =
        push (λ u. u.key) (update_beq ⦃e = P.value_eq⦄) effect_conflict update s.pending.effects in
      (answer, record s { pending = record s.pending { effects = effects } }))

  unfoldable pub push_item : RunId → ItemWrite P.Value → OpCall S (Unit {0})
  push_item run_id item = for_run run_id (λ s.
      let (answer, items) =
        push (λ i. i.key) (item_beq ⦃e = P.value_eq⦄) item_conflict item s.pending.items in
      (answer, record s { pending = record s.pending { items = items } }))

  unfoldable pub push_entry : RunId → EntryWrite P.Value → OpCall S (Unit {0})
  push_entry run_id entry = for_run run_id (λ s.
      let (answer, entries) =
        push (λ e. e.key) (entry_beq ⦃e = P.value_eq⦄) entry_conflict entry s.pending.entries in
      (answer, record s { pending = record s.pending { entries = entries } }))

  -- The commit of one entry and nothing else.
  abbrev pub live_commit : EntryWrite P.Value → TxRunOps S → RunCommit P
  live_commit entry s = record {
    run_id = s.run_id;
    session_id = s.session_id;
    scope = s.scope;
    lease = some s.lease;
    checkpoint = none;
    events = [];
    effects = [];
    items = [];
    entries = entry ∷ [];
    finish = none;
  }

  unfoldable pub push_live_entry : RunId → EntryWrite P.Value → OpCall S (Unit {0})
  push_live_entry run_id entry = for_run run_id (λ s.
      let (answer, store) = S.commit_run (live_commit entry s) s.store in
      (live_answer answer, record s { store = store }))

-- `impl RunOps for TxRunOps`.
abbrev pub tx_run_ops : (P : Params) (S : RunStore P) → RunOps P.Value
tx_run_ops P S = record {
  World = TxRunOps S;
  reserve = reserve;
  start = start;
  push_effect = push_effect;
  push_item = push_item;
  push_entry = push_entry;
  push_live_entry = push_live_entry;
}

-- The calls that change what is pending.
pub data Pending (P : Params) : Type 0 where
  pushes_effect : RunId → EffectUpdate P.Value → Pending P
  pushes_item : RunId → ItemWrite P.Value → Pending P
  pushes_entry : RunId → EntryWrite P.Value → Pending P
  pushes_live_entry : RunId → EntryWrite P.Value → Pending P
  takes : Pending P

module _ {P : Params} {S : RunStore P} where
  unfoldable pub serve_op : Pending P → OpCall S (Unit {0})
  serve_op (pushes_effect run_id update) = push_effect run_id update
  serve_op (pushes_item run_id item) = push_item run_id item
  serve_op (pushes_entry run_id entry) = push_entry run_id entry
  serve_op (pushes_live_entry run_id entry) = push_live_entry run_id entry
  serve_op takes = λ s. (ok tt, (take s).1)

  unfoldable pub serve_ops : List (Pending P) → TxRunOps S → TxRunOps S
  serve_ops [] s = s
  serve_ops (call ∷ calls) s = serve_ops calls (serve_op call s).1
