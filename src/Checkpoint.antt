-- ===== src/Checkpoint.antt =====
-- src/checkpoint.rs: a checkpoint record. `V` is `serde_json::Value`.
pub mod Saver
use typemach.Base.{ℕ, String, Option, none, some, if◌then◌else◌}
use typemach.Base.Eq.{◌=?◌, string_eq, option_eq}
use typemach.Run.{RunId}
use typemach.Error.{Result, ok, err, checkpoint_run}

pub record CheckpointRecord (V : Type 0) : Type 0 where
  pub version : ℕ
  pub state : V
  pub next_step : Option V
  pub interrupted_step : Option V
  pub interrupt : Option V
  pub run_id : Option String

unfoldable pub checkpoint_version : ℕ
checkpoint_version = 1

module _ {V : Type 0} where
  -- `CheckpointRecord::running`.
  unfoldable pub running : V → Option V → String → CheckpointRecord V
  running state next_step run_id = record {
    version = checkpoint_version;
    state = state;
    next_step = next_step;
    interrupted_step = none;
    interrupt = none;
    run_id = some run_id;
  }

  -- `CheckpointRecord::interrupted`.
  unfoldable pub interrupted : V → V → V → String → CheckpointRecord V
  interrupted state interrupted_step interrupt run_id = record {
    version = checkpoint_version;
    state = state;
    next_step = none;
    interrupted_step = some interrupted_step;
    interrupt = some interrupt;
    run_id = some run_id;
  }

  unfoldable pub require_run : CheckpointRecord V → RunId → Result (Unit {0})
  require_run c run = if c.run_id =? some run then ok tt else err (checkpoint_run run (c.run_id))
