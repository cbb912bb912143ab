-- ===== src/Memory/Ops.antt =====
-- src/store/memory/op.rs: what a commit or a start writes of effects, items and entries. The checks
-- read the state; the writes come after all checks.
use typemach.Base.{
  String, Option, none, some, Bool, true, false, not, List, [], ◌∷◌, any, ◌&&◌, ◌||◌, if◌then◌else◌,
}
use typemach.Base.Int.{ℤ, pos, inc}
use typemach.Base.Eq.{Eq, ◌=?◌, string_eq, pair_eq, triple_eq, option_beq}
use typemach.Base.Map.{get, insert, contains_key}
use typemach.Run.{RunId, SessionId, ThreadId}
use typemach.Error.{
  Result, ok, err, ◌>>=◌, ◌>>◌, fail_if, ok_or, invalid_run_event, effect_conflict,
  effect_not_found, item_conflict, entry_conflict,
}
use typemach.Op.{
  EffectStatus, reserved, started, is_done, vis_beq, Effect, EffectUpdate, Item, ItemWrite, Entry,
  EntryWrite,
}
use typemach.Params.{Params}
use typemach.Memory.State.{Inner, Action}

abbrev pub is_unsettled : EffectStatus → Bool
is_unsettled reserved = true
is_unsettled started = true
is_unsettled _ = false

module _ {V : Type 0} ⦃e : Eq V⦄ where
  -- An effect that is done may only be done again, with the same result.
  unfoldable pub contradicts : Effect V → EffectUpdate V → Bool
  contradicts effect update =
      is_done effect.status
      && (not (is_done update.status) || not (option_beq effect.result update.result))

  -- An item that is stored already has to be the same.
  unfoldable pub item_agrees : ItemWrite V → Option (Item V) → Bool
  item_agrees item none = true
  item_agrees item (some old) = old.kind =? item.kind && e.beq old.body item.body

  unfoldable pub entry_agrees : EntryWrite V → Option (Entry V) → Bool
  entry_agrees entry none = true
  entry_agrees entry (some old) =
      old.kind =? entry.kind && vis_beq old.vis entry.vis && e.beq old.body entry.body

module _ {V : Type 0} where
  -- What a commit makes of an effect that is stored.
  unfoldable pub updated_effect : ℤ → Effect V → EffectUpdate V → Effect V
  updated_effect now effect update = record effect {
    status = update.status;
    result = update.result;
    error_code = update.error_code;
    error_message = update.error_message;
    updated_at = now;
  }

  unfoldable pub new_item : ℤ → RunId → ItemWrite V → Item V
  new_item now run_id item = record {
    run_id = run_id;
    key = item.key;
    kind = item.kind;
    body = item.body;
    created_at = now;
    updated_at = now;
  }

  unfoldable pub new_entry : ℤ → RunId → SessionId → ThreadId → ℤ → EntryWrite V → Entry V
  new_entry now run_id session_id thread_id seq entry = record {
    run_id = run_id;
    session_id = session_id;
    thread_id = thread_id;
    seq = seq;
    key = entry.key;
    kind = entry.kind;
    vis = entry.vis;
    body = entry.body;
    created_at = now;
    updated_at = now;
  }

module _ {P : Params} where
  -- One round of the loop of `validate_effect_updates`; `seen` are the updates of earlier rounds.
  unfoldable pub validate_effect_update :
      Inner P → RunId → List (EffectUpdate P.Value) → EffectUpdate P.Value → Result (Unit {0})
  validate_effect_update s run_id seen update = do
    fail_if (any (λ prev. prev.key =? update.key) seen) effect_conflict
    effect ← ok_or (get (run_id, update.key) s.effects) effect_not_found
    fail_if (is_unsettled update.status)
        (invalid_run_event "effect commit requires a terminal or unknown status")
    fail_if (contradicts ⦃e = P.value_eq⦄ effect update) effect_conflict

  unfoldable pub validate_effects_after :
      Inner P
      → RunId
      → List (EffectUpdate P.Value)
      → List (EffectUpdate P.Value)
      → Result (Unit {0})
  validate_effects_after s run_id seen [] = ok tt
  validate_effects_after s run_id seen (update ∷ updates) = do
    validate_effect_update s run_id seen update
    validate_effects_after s run_id (update ∷ seen) updates

  abbrev pub validate_effect_updates :
      Inner P → RunId → List (EffectUpdate P.Value) → Result (Unit {0})
  validate_effect_updates s run_id updates = validate_effects_after s run_id [] updates

  unfoldable pub validate_items_after :
      Inner P → RunId → List (ItemWrite P.Value) → List (ItemWrite P.Value) → Result (Unit {0})
  validate_items_after s run_id seen [] = ok tt
  validate_items_after s run_id seen (item ∷ items) = do
    fail_if (any (λ prev. prev.key =? item.key) seen) item_conflict
    fail_if (not (item_agrees ⦃e = P.value_eq⦄ item (get (run_id, item.key) s.items))) item_conflict
    validate_items_after s run_id (item ∷ seen) items

  abbrev pub validate_items : Inner P → RunId → List (ItemWrite P.Value) → Result (Unit {0})
  validate_items s run_id items = validate_items_after s run_id [] items

  unfoldable pub validate_entries_after :
      Inner P
      → String
      → SessionId
      → List (EntryWrite P.Value)
      → List (EntryWrite P.Value)
      → Result (Unit {0})
  validate_entries_after s scope session seen [] = ok tt
  validate_entries_after s scope session seen (entry ∷ entries) = do
    fail_if (any (λ prev. prev.key =? entry.key) seen) entry_conflict
    fail_if (not (entry_agrees ⦃e = P.value_eq⦄ entry (get (scope, session, entry.key) s.entries)))
        entry_conflict
    validate_entries_after s scope session (entry ∷ seen) entries

  abbrev pub validate_entries :
      Inner P → String → SessionId → List (EntryWrite P.Value) → Result (Unit {0})
  validate_entries s scope session entries = validate_entries_after s scope session [] entries

  unfoldable pub apply_effect_update : ℤ → RunId → EffectUpdate P.Value → Action P (Unit {0})
  apply_effect_update now run_id update s = elim (get (run_id, update.key) s.effects) [
    | none ↦ (err effect_not_found, s)
    | some effect ↦ if is_done effect.status && is_done update.status then (ok tt, s) else (
      ok tt,
      record s {
        effects = insert (run_id, update.key) (updated_effect now effect update) s.effects;
      },
    )
  ]

  unfoldable pub apply_effect_updates :
      ℤ → RunId → List (EffectUpdate P.Value) → Action P (Unit {0})
  apply_effect_updates now run_id [] s = (ok tt, s)
  apply_effect_updates now run_id (update ∷ updates) s =
      let (r, s') = apply_effect_update now run_id update s in
      let rest = apply_effect_updates now run_id updates s' in
      elim r [ ok _ ↦ rest | err e ↦ (err e, s') ]

  unfoldable pub apply_item : ℤ → RunId → ItemWrite P.Value → Inner P → Inner P
  apply_item now run_id item s =
      if contains_key (run_id, item.key) s.items
      then s
      else record s { items = insert (run_id, item.key) (new_item now run_id item) s.items }

  unfoldable pub apply_items : ℤ → RunId → List (ItemWrite P.Value) → Inner P → Inner P
  apply_items now run_id [] s = s
  apply_items now run_id (item ∷ items) s =
      apply_items now run_id items (apply_item now run_id item s)

  -- `entry(key).or_default()`.
  unfoldable pub last_entry_seq : String → SessionId → Inner P → ℤ
  last_entry_seq scope session s = elim (get (scope, session) s.entry_seq) [
    | none ↦ pos 0
    | some n ↦ n
  ]

  unfoldable pub apply_entry :
      ℤ → String → RunId → SessionId → ThreadId → EntryWrite P.Value → Inner P → Inner P
  apply_entry now scope run_id session_id thread_id entry s =
      let seq = inc (last_entry_seq scope session_id s) in
      if contains_key (scope, session_id, entry.key) s.entries then s else record s {
        entry_seq = insert (scope, session_id) seq s.entry_seq;
        entries =
            insert (scope, session_id, entry.key)
              (new_entry now run_id session_id thread_id seq entry) s.entries;
      }

  unfoldable pub apply_entries :
      ℤ → String → RunId → SessionId → ThreadId → List (EntryWrite P.Value) → Inner P → Inner P
  apply_entries now scope run_id session_id thread_id [] s = s
  apply_entries now scope run_id session_id thread_id (entry ∷ entries) s =
      apply_entries now scope run_id session_id thread_id entries
        (apply_entry now scope run_id session_id thread_id entry s)
