-- ===== src/Runtime/Pending.antt =====
-- `PendingOps` of src/runtime/tx/op.rs: what a step has asked for and its commit will write.
use typemach.Base.{String, none, some, Bool, ◌&&◌, List, [], ◌∷◌, ◌++◌, if◌then◌else◌}
use typemach.Base.Eq.{Eq, ◌=?◌, string_eq, option_beq}
use typemach.Base.Map.{find}
use typemach.Error.{Result, ok, err, MachineError}
use typemach.Op.{EffectUpdate, ItemWrite, EntryWrite, effect_status_as_str, vis_beq}

pub record PendingOps (V : Type 0) : Type 0 where
  pub effects : List (EffectUpdate V)
  pub items : List (ItemWrite V)
  pub entries : List (EntryWrite V)

-- `PendingOps::default`, which `take` leaves behind.
abbrev pub nothing_pending : {V : Type 0} → PendingOps V
nothing_pending = record { effects = []; items = []; entries = [] }

-- The derived `==`, field by field. Different statuses have different texts.
module _ {V : Type 0} ⦃e : Eq V⦄ where
  unfoldable pub update_beq : EffectUpdate V → EffectUpdate V → Bool
  update_beq a b =
      (a.key =? b.key)
      && (effect_status_as_str a.status =? effect_status_as_str b.status)
      && option_beq a.result b.result
      && option_beq a.error_code b.error_code
      && option_beq a.error_message b.error_message

  unfoldable pub item_beq : ItemWrite V → ItemWrite V → Bool
  item_beq a b = (a.key =? b.key) && (a.kind =? b.kind) && e.beq a.body b.body

  unfoldable pub entry_beq : EntryWrite V → EntryWrite V → Bool
  entry_beq a b =
      (a.key =? b.key) && (a.kind =? b.kind) && vis_beq a.vis b.vis && e.beq a.body b.body

-- The body of `push_effect`, `push_item` and `push_entry`: a key has one write.
module _ {A : Type 0} (key : A → String) (beq : A → A → Bool) (conflict : MachineError) where
  unfoldable pub push : A → List A → Result (Unit {0}) × List A
  push write pending = elim (find (λ existing. key existing =? key write) pending) [
    | none ↦ (ok tt, pending ++ write ∷ [])
    | some existing ↦ (if beq existing write then ok tt else err conflict, pending)
  ]
