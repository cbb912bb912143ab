-- ===== src/Op/Run.antt =====
-- The trait `RunOps` of src/op.rs, `NoopRunOps`, and the operations of a `RunContext` in src/run.rs,
-- which come down to it.
use typemach.Base.{String}
use typemach.Run.{RunId}
use typemach.Error.{Result, err, Serde, written, failed, serialization, runtime_op_unavailable}
use typemach.Op.{
  Vis, public, Effect, EffectUpdate, ItemWrite, EntryWrite, effect_done, effect_failed,
  effect_unknown,
}

pub record RunOps (V : Type 0) : Type 1 where
  pub World : Type 0
  pub reserve : RunId → String → String → V → World → Result (Effect V) × World
  pub start : RunId → String → World → Result (Effect V) × World
  pub push_effect : RunId → EffectUpdate V → World → Result (Unit {0}) × World
  pub push_item : RunId → ItemWrite V → World → Result (Unit {0}) × World
  pub push_entry : RunId → EntryWrite V → World → Result (Unit {0}) × World
  pub push_live_entry : RunId → EntryWrite V → World → Result (Unit {0}) × World

-- The trait's own `push_live_entry`, and all of `NoopRunOps`.
abbrev pub unavailable : {A W : Type 0} → W → Result A × W
unavailable w = (err runtime_op_unavailable, w)

abbrev pub noop_run_ops : Type 0 → (V : Type 0) → RunOps V
noop_run_ops W V = record {
  World = W;
  reserve = λ run_id key kind request. unavailable;
  start = λ run_id key. unavailable;
  push_effect = λ run_id update. unavailable;
  push_item = λ run_id item. unavailable;
  push_entry = λ run_id entry. unavailable;
  push_live_entry = λ run_id entry. unavailable;
}

-- `to_value(…)?` in front of a call: `Serialize` has given a value, or an error.
abbrev pub with_value : {V A W : Type 0} → Serde V → (V → W → Result A × W) → W → Result A × W
with_value (written value) call w = call value w
with_value (failed reason) call w = (err (serialization reason), w)

-- The run of the context is the run of each call.
module _ {V : Type 0} (O : RunOps V) (run_id : RunId) where
  unfoldable pub reserve : String → String → Serde V → O.World → Result (Effect V) × O.World
  reserve key kind request = with_value request (O.reserve run_id key kind)

  unfoldable pub start : String → O.World → Result (Effect V) × O.World
  start key = O.start run_id key

  unfoldable pub done : String → Serde V → O.World → Result (Unit {0}) × O.World
  done key result = with_value result (λ value. O.push_effect run_id (effect_done key value))

  unfoldable pub fail : String → String → String → O.World → Result (Unit {0}) × O.World
  fail key code message = O.push_effect run_id (effect_failed key code message)

  unfoldable pub unknown : String → String → O.World → Result (Unit {0}) × O.World
  unknown key message = O.push_effect run_id (effect_unknown key message)

  unfoldable pub item : String → String → Serde V → O.World → Result (Unit {0}) × O.World
  item key kind body =
      with_value body
        (λ value. O.push_item run_id (record { key = key; kind = kind; body = value }))

  unfoldable pub entry : String → String → Vis → Serde V → O.World → Result (Unit {0}) × O.World
  entry key kind vis body =
      with_value body
        (λ value. O.push_entry run_id (record { key = key; kind = kind; vis = vis; body = value }))

  unfoldable pub progress : String → String → Serde V → O.World → Result (Unit {0}) × O.World
  progress key kind body = with_value body (λ value.
      O.push_live_entry run_id (record { key = key; kind = kind; vis = public; body = value }))
