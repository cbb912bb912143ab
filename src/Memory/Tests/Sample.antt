-- ===== src/Memory/Tests/Sample.antt =====
-- Types and values for the examples: texts for values and scopes, and envelopes for events.
use typemach.Base.{ℕ, String, Option, none, some, Bool, true, false, List, [], ◌∷◌}
use typemach.Base.Int.{ℤ, pos}
use typemach.Base.Eq.{string_eq}
use typemach.Base.Map.{Map}
use typemach.Run.{LeaseId, ThreadId}
use typemach.Error.{written}
use typemach.Event.{RunEventEnvelope, envelope_event}
use typemach.Op.{internal}
use typemach.Params.{Params}
use typemach.Store.{
  Lease, LeaseClaim, RunStart, RunFinishRecord, RunCommit, running, completed, RunLookup,
}
use typemach.Memory.Calls.{Call, starts, commits, finishes, cancels}
use typemach.Memory.State.{Clock, Inner, MemoryRun, MemoryLease, MemoryThreadLease, empty}

-- An event is terminal if its payload says so.
abbrev pub Sample : Params
Sample = record {
  Value = String;
  Scope = String;
  FinishData = ℕ;
  Event = RunEventEnvelope Bool;
  value_eq = string_eq;
  scope_eq = string_eq;
  default_data = 0;
  event = envelope_event (record { is_terminal = λ b. b });
  scope_value = λ scope. written scope;
  value_text = λ value. written value;
  sig_text = λ sig. written sig.agent_kind;
}

-- Each reading of the clock is the same.
abbrev pub at : ℕ → Clock
at now = record { instant = λ _. now; since_epoch = λ _. some now }

abbrev pub claim : LeaseClaim
claim = record { owner = "worker"; id = "lease"; ttl = 10 }

abbrev pub lease : Lease
lease = record { run = "run"; owner = "worker"; id = "lease" }

abbrev pub start_with : Option LeaseClaim → RunStart Sample
start_with asked = record {
  run_id = "run";
  session_id = "session";
  thread_id = "thread";
  agent_kind = "agent";
  model = none;
  client_run_key = some "key";
  parent_run_id = none;
  retry_of_run_id = none;
  scope = "scope";
  metadata = "{}";
  input = none;
  entries = record { key = "entry"; kind = "note"; vis = internal; body = "hello" } ∷ [];
  lease = asked;
}

abbrev pub event : ℕ → Bool → RunEventEnvelope Bool
event seq terminal = record {
  run_id = "run";
  session_id = "session";
  seq = pos seq;
  payload = terminal;
}

abbrev pub finish : RunFinishRecord Sample
finish = record {
  run_id = "run";
  session_id = "session";
  scope = "scope";
  status = completed;
  finish_reason = "stop";
  error_code = none;
  terminal_event = event 2 true;
  entries = [];
  finish_data = 7;
}

abbrev pub commit_with : Option LeaseId → RunCommit Sample
commit_with named = record {
  run_id = "run";
  session_id = "session";
  scope = "scope";
  lease = named;
  checkpoint = some (record {
    thread_id = "thread";
    checkpoint = record {
      version = 1;
      state = "{}";
      next_step = none;
      interrupted_step = none;
      interrupt = none;
      run_id = some "run";
    };
  });
  events = event 1 false ∷ [];
  effects = [];
  items = record { key = "item"; kind = "note"; body = "kept" } ∷ [];
  entries = [];
  finish = none;
}

-- The event that the reaper's caller makes up for an expired run.
abbrev pub expired : ℕ → RunLookup → ℤ → RunEventEnvelope Bool
expired n lookup seq = record {
  run_id = lookup.run_id;
  session_id = lookup.session_id;
  seq = seq;
  payload = true;
}

abbrev pub run_with : Option LeaseClaim → Option MemoryLease → MemoryRun Sample
run_with asked held = record {
  start = start_with asked;
  status = running;
  finish_reason = none;
  cancel_requested = false;
  finish_data = none;
  terminal_event = none;
  events = [];
  lease = held;
}

-- A store with one run, which is open.
abbrev pub open_with : MemoryRun Sample → Map ThreadId MemoryThreadLease → Inner Sample
open_with run threads = record (empty Sample) {
  sessions = ("session", "scope") ∷ [];
  runs = ("run", run) ∷ [];
  thread_leases = threads;
}

abbrev pub opened : Inner Sample
opened = open_with (run_with none none) []

-- The run and its thread are leased until tick 10.
abbrev pub held : MemoryLease
held = record { owner = "worker"; id = "lease"; until = 10 }

abbrev pub leased_run : MemoryRun Sample
leased_run = run_with (some claim) (some held)

abbrev pub leased : Inner Sample
leased =
    open_with leased_run
      (("thread", record { run = "run"; owner = "worker"; id = "lease"; until = 10 }) ∷ [])

-- A run from its start to its end, a call after the end, and a reaper that finds nothing to do.
abbrev pub history : List (Clock × Call Sample)
history =
    (at 0, starts (start_with none))
    ∷ (at 1, commits (commit_with none))
    ∷ (at 2, finishes finish)
    ∷ (at 3, cancels "run" "scope")
    ∷ []
