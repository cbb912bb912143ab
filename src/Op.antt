-- ===== src/Op.antt =====
-- src/op.rs: the records of effects, items and entries, what a commit writes of them, and pages.
-- `V` is `serde_json::Value`; times are the wall clock's milliseconds.
mod Parse
pub mod Run
use typemach.Base.{String, Option, none, some, Bool, true, false, List, []}
use typemach.Base.Int.{ℤ, pos}
use typemach.Run.{RunId, SessionId, ThreadId}

pub data Vis : Type 0 where
  public : Vis
  internal : Vis

unfoldable pub vis_as_str : Vis → String
vis_as_str public = "public"
vis_as_str internal = "internal"

pub data EffectStatus : Type 0 where
  reserved : EffectStatus
  started : EffectStatus
  done : EffectStatus
  failed : EffectStatus
  unknown : EffectStatus

unfoldable pub effect_status_as_str : EffectStatus → String
effect_status_as_str reserved = "reserved"
effect_status_as_str started = "started"
effect_status_as_str done = "done"
effect_status_as_str failed = "failed"
effect_status_as_str unknown = "unknown"

abbrev pub is_blocking : EffectStatus → Bool
is_blocking started = true
is_blocking unknown = true
is_blocking _ = false

pub record Effect (V : Type 0) : Type 0 where
  pub run_id : RunId
  pub key : String
  pub kind : String
  pub status : EffectStatus
  pub request : V
  pub result : Option V
  pub error_code : Option String
  pub error_message : Option String
  pub created_at : ℤ
  pub updated_at : ℤ

pub record EffectUpdate (V : Type 0) : Type 0 where
  pub key : String
  pub status : EffectStatus
  pub result : Option V
  pub error_code : Option String
  pub error_message : Option String

pub record Item (V : Type 0) : Type 0 where
  pub run_id : RunId
  pub key : String
  pub kind : String
  pub body : V
  pub created_at : ℤ
  pub updated_at : ℤ

pub record ItemWrite (V : Type 0) : Type 0 where
  pub key : String
  pub kind : String
  pub body : V

pub record Entry (V : Type 0) : Type 0 where
  pub run_id : RunId
  pub session_id : SessionId
  pub thread_id : ThreadId
  pub seq : ℤ
  pub key : String
  pub kind : String
  pub vis : Vis
  pub body : V
  pub created_at : ℤ
  pub updated_at : ℤ

pub record EntryWrite (V : Type 0) : Type 0 where
  pub key : String
  pub kind : String
  pub vis : Vis
  pub body : V

pub record Page {ℓ} (A : Type ℓ) : Type ℓ where
  pub items : List A
  pub next : Option ℤ

module _ {V : Type 0} where
  pub effect_done : String → V → EffectUpdate V
  effect_done key result = record {
    key = key;
    status = done;
    result = some result;
    error_code = none;
    error_message = none;
  }

  pub effect_failed : String → String → String → EffectUpdate V
  effect_failed key code message = record {
    key = key;
    status = failed;
    result = none;
    error_code = some code;
    error_message = some message;
  }

  pub effect_unknown : String → String → EffectUpdate V
  effect_unknown key message = record {
    key = key;
    status = unknown;
    result = none;
    error_code = none;
    error_message = some message;
  }

abbrev pub is_done : EffectStatus → Bool
is_done done = true
is_done _ = false

abbrev pub vis_beq : Vis → Vis → Bool
vis_beq public public = true
vis_beq internal internal = true
vis_beq _ _ = false
