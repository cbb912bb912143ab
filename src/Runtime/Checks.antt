-- ===== src/Runtime/Checks.antt =====
-- The operations of a concrete run, over the memory store.
use typemach.Base.{ℕ, suc, String, none, some, true, false, List, [], ◌∷◌, ◌++◌, ◌≡◌, refl, sym}
use typemach.Base.Eq.{string_eq}
use typemach.Error.{ok, written}
use typemach.Op.{EffectUpdate, EntryWrite, done, public}
use typemach.Memory.Store.{memory_store}
use typemach.Memory.Tests.Sample.{Sample, at, leased}
use typemach.Runtime.Pending.{nothing_pending}
use typemach.Runtime.Ops.{
  TxRunOps, Pending, pushes_effect, pushes_item, pushes_entry, pushes_live_entry, takes, serve_ops,
}
use typemach.Runtime.Tidy.{Tidy, serve_ops-Tidy}
use typemach.Base.Int.{pos}
use typemach.Run.Request
use typemach.Run.Request.{RunStreamEvent}
use typemach.Store
use typemach.Store.{RunStart}
use typemach.Registry.{Channels}
use typemach.Memory.State.{empty}
use typemach.Memory.Start.{start_run}
use typemach.Runtime.Payload
use typemach.Runtime.Payload.{Wire}
use typemach.Runtime.Record.{finish, event_record, error_code}
use typemach.Runtime.Read.{Faithful, ReadsBack, event_record-typed}
use typemach.Runtime.Bridge.{
  RuntimeParams, RuntimeEvent, Target, Bridge, Pull, arrives, disconnects, bridge,
}
use typemach.Runtime.Passes.{Passes, bridge-Passes}

abbrev ops : TxRunOps (memory_store Sample)
ops = record {
  store = record { inner = leased; clocks = λ _. at 5 };
  run_id = "run";
  session_id = "session";
  scope = "scope";
  lease = "lease";
  pending = nothing_pending;
}

abbrev paid : EffectUpdate Sample.Value
paid = record {
  key = "pay";
  status = done;
  result = some "42";
  error_code = none;
  error_message = none;
}

abbrev progress : EntryWrite Sample.Value
progress = record { key = "progress"; kind = "note"; vis = public; body = "half" }

-- An effect twice, a call for another run, and a commit that takes what is pending.
abbrev asked : List (Pending Sample)
asked =
    pushes_effect "run" paid
    ∷ pushes_effect "run" paid
    ∷ pushes_item "run" (record { key = "item"; kind = "note"; body = "kept" })
    ∷ pushes_entry "other" progress
    ∷ pushes_live_entry "run" progress
    ∷ takes
    ∷ pushes_entry "run" progress
    ∷ []

serve_ops-Tidy_example : Tidy (serve_ops asked ops).pending
serve_ops-Tidy_example = serve_ops-Tidy asked ops (tt, tt, tt)

-- Texts as steps, signals, outputs and interrupts, which are their own JSON.
abbrev wire : Wire String String String String String
wire = record {
  step_value = written;
  step_from = written;
  signal_value = written;
  signal_from = written;
  output_value = written;
  output_from = written;
  interrupt_value = written;
  interrupt_from = written;
  display = error_code;
}

wire-Faithful : Faithful wire
wire-Faithful = record {
  step_back = λ s v h. sym h;
  signal_back = λ s v h. sym h;
  output_back = λ o v h. sym h;
  interrupt_back = λ i v h. sym h;
}

abbrev output_event : RunStreamEvent String String String String String
output_event = Request.completed [] "42" "{}"

output_recorded :
    event_record wire "run" output_event
    ≡ ok (finish (Payload.done "42" "run") Store.completed "completed" none)
unfolding event_record
output_recorded = refl

event_record-typed_example :
    ReadsBack wire "run" "session"
      (pos 3)
      output_event
      (finish (Payload.done "42" "run") Store.completed "completed" none)
event_record-typed_example =
    event_record-typed wire "run" "session" (pos 3) output_event
      (finish (Payload.done "42" "run") Store.completed "completed" none) wire-Faithful
      output_recorded

abbrev quiet : Channels (RuntimeEvent Sample)
quiet = record {
  World = ℕ;
  Sender = ℕ;
  Receiver = ℕ;
  unbounded_channel = λ n. ((n, n), suc n);
  send = λ sender sent n. (true, n);
}

abbrev begun : RunStart (RuntimeParams Sample)
begun = record {
  run_id = "run";
  session_id = "session";
  thread_id = "thread";
  agent_kind = "agent";
  model = none;
  client_run_key = none;
  parent_run_id = none;
  retry_of_run_id = none;
  scope = "scope";
  metadata = "{}";
  input = none;
  entries = [];
  lease = none;
}

-- The run is in the registry and in the store, and the receiver stays for two events.
abbrev bridged : Bridge Sample wire (memory_store (RuntimeParams Sample)) quiet
bridged = record {
  life = record {
    registry = record {
      runs =
          (
            "run",
            record {
              handle = record { token = "token"; flag = 0 };
              current_seq = pos 0;
              terminal_published = false;
              stream_senders = [];
            },
          )
          ∷ [];
      flags = λ _. false;
      fresh = 1;
      world = 0;
    };
    store = record {
      inner = (start_run (at 0) begun (empty (RuntimeParams Sample))).1;
      clocks = λ _. at 5;
    };
    event_locks = [];
    next_lock = 0;
    clones = λ _. 0;
    max_in_flight = 4;
  };
  runner = record { cancelled_runs = []; active_runs = []; flags = λ _. false };
  sent = [];
  room = 2;
}

abbrev target : Target Sample
target = record { run_id = "run"; session_id = "session"; scope = "scope" }

abbrev streamed : List (Pull Sample wire (memory_store (RuntimeParams Sample)) quiet)
streamed =
    arrives (Request.started "run" "session" "thread") ∷ arrives output_event ∷ disconnects ∷ []

bridge-Passes_example :
    (told : List (RunStreamEvent String String String String String)) × ((bridge Sample wire
        (memory_store (RuntimeParams Sample))
        quiet
        target
        streamed
        bridged).sent
      ≡ [] ++ told)
    × Passes Sample wire (memory_store (RuntimeParams Sample)) quiet target bridged streamed told
bridge-Passes_example =
    bridge-Passes Sample wire (memory_store (RuntimeParams Sample)) quiet target streamed bridged
