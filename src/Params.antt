-- ===== src/Params.antt =====
-- What a store is generic in: its types, and what it asks of them and of serde.
use typemach.Base.{String, Option, List}
use typemach.Base.Eq.{Eq}
use typemach.Run.{RunId, SessionId, ThreadId}
use typemach.Error.{Serde}
use typemach.Event.{RunEvent}
use typemach.Op.{EntryWrite}

-- `StartSig`: what has to agree for a second start to be the same start.
pub record StartSig (V : Type 0) : Type 0 where
  pub session_id : SessionId
  pub thread_id : ThreadId
  pub agent_kind : String
  pub model : Option String
  pub client_run_key : Option String
  pub parent_run_id : Option RunId
  pub retry_of_run_id : Option RunId
  pub metadata : V
  pub input : Option V
  pub entries : List (EntryWrite V)

-- `Value` is `serde_json::Value`, which the store only compares and hands to serde. The texts are
-- what `serde_json` writes: functions of the value, with nothing else assumed.
pub record Params : Type 1 where
  pub Value : Type 0
  pub Scope : Type 0
  pub FinishData : Type 0
  pub Event : Type 0
  pub value_eq : Eq Value
  pub scope_eq : Eq Scope
  pub default_data : FinishData
  pub event : RunEvent Event
  pub scope_value : Scope → Serde Value
  pub value_text : Value → Serde String
  pub sig_text : StartSig Value → Serde String
