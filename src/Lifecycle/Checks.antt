-- ===== src/Lifecycle/Checks.antt =====
-- Lifecycles over the memory store, with channels that keep a log of what was sent.
use typemach.Base.{ℕ, none, some, Bool, true, false, List, [], ◌∷◌, ◌++◌, ◌<◌, ◌≡◌, refl, arith}
use typemach.Base.Int.{ℤ, pos, i64_bound}
use typemach.Base.Eq.{string_eq}
use typemach.Base.Map.{get}
use typemach.Error.{ok, err, invalid_run_event}
use typemach.Event.{RunEventEnvelope}
use typemach.Store.{CommitPlan, RunFinish, completed, finished}
use typemach.Registry.{Channels, RunHandle, ActiveRun, RunRegistry, send_all}
use typemach.Memory.Store.{memory_store}
use typemach.Memory.Tests.Sample.{Sample, at, event, run_with, open_with, start_with}
use typemach.Lifecycle.State.{RunLifecycle}
use typemach.Lifecycle.Start.{start_run}
use typemach.Lifecycle.Commit.{commit_with}
use typemach.Lifecycle.Events.{append_with, finish_with}
use typemach.Lifecycle.Recorded.{InStep, Recorded, append_with-records}
use typemach.Lifecycle.Finished.{finish_with-ends}
use typemach.Lifecycle.Follow.{subscribe}
use typemach.Lifecycle.Refused.{commit_with-refused}
use typemach.Lifecycle.Undo.{InRange}
use typemach.Lifecycle.Starts.{Starts, start_run-registers}
use typemach.Lifecycle.Subscribed.{subscribe-gapless, ToldAll}
use typemach.Memory.Queries.{scoped_run}

-- Every sender logs what it sends.
abbrev log : Channels (RunEventEnvelope Bool)
log = record {
  World = List (ℕ × RunEventEnvelope Bool);
  Sender = ℕ;
  Receiver = ℕ;
  unbounded_channel = λ world. ((1, 1), world);
  send = λ sender sent world. (true, (sender, sent) ∷ world);
}

abbrev handle : RunHandle
handle = record { token = "token"; flag = 0 }

abbrev told_two : ActiveRun log
told_two = record {
  handle = handle;
  current_seq = pos 2;
  terminal_published = false;
  stream_senders = 7 ∷ [];
}

-- The run has told two events, and both are in the store.
abbrev in_flight : RunLifecycle (memory_store Sample) log
in_flight = record {
  registry = record { runs = ("run", told_two) ∷ []; flags = λ _. false; fresh = 1; world = [] };
  store = record {
    inner =
        open_with (record (run_with none none) { events = event 1 false ∷ event 2 false ∷ [] }) [];
    clocks = λ _. at 5;
  };
  event_locks = [];
  next_lock = 0;
  clones = λ _. 0;
  max_in_flight = 4;
}

-- Two events, of which the second has the number of the first.
abbrev two_events : CommitPlan Sample
two_events = record {
  lease = none;
  checkpoint = none;
  event_count = 2;
  effects = [];
  items = [];
  entries = [];
  finish = none;
}

abbrev third : ℕ → ℤ → RunEventEnvelope Bool
third k seq = event 3 false

third-refused :
    (commit_with "run" "session" "scope" two_events third in_flight).0
    ≡ err (invalid_run_event "event seq does not match allocated seq")
unfolding commit_with typemach.Lifecycle.Commit.check_plan typemach.Lifecycle.Commit.commit_next
    typemach.Lifecycle.Commit.next_seqs typemach.Lifecycle.Commit.commit_numbered
    typemach.Lifecycle.Commit.build_events typemach.Lifecycle.State.with_run
    typemach.Lifecycle.State.event_lock typemach.Lifecycle.State.or_rewind
    typemach.Lifecycle.State.rewind_seqs typemach.Lifecycle.Check.validate_commit_events
    typemach.Lifecycle.Check.check_events typemach.Lifecycle.Check.check_event get
    typemach.Memory.Queries.lookup_run typemach.Memory.Queries.scoped_run
    typemach.Memory.State.run_lookup typemach.Registry.next_seq typemach.Registry.rewind_seq
    typemach.Base.Map.insert typemach.Base.Int.inc typemach.Registry.dec i64_bound
third-refused = refl

two-InRange : InRange "run" 2 in_flight.registry
unfolding get i64_bound
two-InRange = (omega arith, omega arith)

commit_with-refused_example :
    (commit_with "run" "session" "scope" two_events third in_flight).1.registry ≡ in_flight.registry
commit_with-refused_example =
    commit_with-refused "run" "session" "scope" two_events third in_flight
      (invalid_run_event "event seq does not match allocated seq") two-InRange third-refused

start_run-registers_example :
    Starts {S = memory_store Sample} "run" handle
      (some 7)
      in_flight.registry
      (start_run (start_with none) handle (some 7) in_flight)
start_run-registers_example = start_run-registers (start_with none) handle (some 7) in_flight

found-stored :
    scoped_run "run" "scope" in_flight.store.inner
    ≡ some (record (run_with none none) { events = event 1 false ∷ event 2 false ∷ [] })
unfolding scoped_run get
found-stored = refl

-- The queue begins with an event that the replay has too.
subscribe-gapless_example :
    ToldAll Sample log true
      (some 1)
      (pos 1)
      (event 1 false ∷ [])
      (event 2 false ∷ [])
      (event 4 true ∷ [])
      (subscribe "run" "scope" (pos 1) in_flight).0
unfolding typemach.Registry.subscribe get
subscribe-gapless_example =
    subscribe-gapless "run" "scope" (pos 1) in_flight
      (record (run_with none none) { events = event 1 false ∷ event 2 false ∷ [] })
      (event 1 false ∷ []) (event 2 false ∷ []) (event 4 true ∷ []) found-stored refl
      (omega arith, tt, (omega arith, omega arith, (omega arith, omega arith, tt)))

abbrev next_event : ℤ → RunEventEnvelope Bool
next_event seq = record { run_id = "run"; session_id = "session"; seq = seq; payload = false }

in_step : InStep "run" "scope" "session" 2 (event 1 false ∷ event 2 false ∷ []) in_flight
unfolding get
in_step = record {
  active = told_two;
  registered = refl;
  counted = refl;
  stored = record {
    run = record (run_with none none) { events = event 1 false ∷ event 2 false ∷ [] };
    found = refl;
    scoped = refl;
    in_session = refl;
    live = refl;
    unleased = refl;
    logged = refl;
    behind = omega arith;
  };
}

three_in_range : 3 < i64_bound
unfolding i64_bound
three_in_range = omega arith

append_with-records_example :
    Recorded "run" "scope" "session" 2
      (event 1 false ∷ event 2 false ∷ [])
      (event 3 false)
      (append_with "run" "scope" next_event in_flight)
append_with-records_example =
    append_with-records "run" "scope" "session" 2 (event 1 false ∷ event 2 false ∷ []) next_event
      in_flight three_in_range
      (record { of_run = refl; of_session = refl; numbered = refl; goes_on = refl }) in_step

abbrev the_end : RunFinish Sample
the_end = record {
  run_id = "run";
  session_id = "session";
  scope = "scope";
  status = completed;
  finish_reason = "stop";
  error_code = none;
  entries = [];
  finish_data = 7;
}

abbrev last_event : ℤ → RunEventEnvelope Bool
last_event seq = record { run_id = "run"; session_id = "session"; seq = seq; payload = true }

end-made : (finish_with the_end last_event in_flight).0 ≡ ok (finished (event 3 true))
unfolding finish_with typemach.Lifecycle.Events.check_finish typemach.Lifecycle.Events.finish_next
    typemach.Lifecycle.Events.finish_given typemach.Lifecycle.Events.finish_numbered
    typemach.Lifecycle.Events.finish_published typemach.Lifecycle.Events.close_run
    typemach.Lifecycle.State.with_run typemach.Lifecycle.State.event_lock
    typemach.Lifecycle.State.or_rewind typemach.Lifecycle.State.leave_with
    typemach.Lifecycle.State.remove_event_lock typemach.Lifecycle.State.may_remove
    typemach.Lifecycle.Check.validate_finish_event typemach.Lifecycle.Check.check_event get
    typemach.Memory.Queries.lookup_run typemach.Memory.Queries.scoped_run
    typemach.Memory.State.run_lookup typemach.Registry.next_seq typemach.Base.Map.insert
    typemach.Base.Int.inc i64_bound typemach.Store.into_record typemach.Memory.Finish.finish_run
    typemach.Memory.Finish.check_finish typemach.Memory.Validate.validate_event_run
    typemach.Memory.Finish.finish_target typemach.Memory.Finish.check_finish_target
    typemach.Memory.Finish.check_finish_open typemach.Memory.Validate.scope_key
    typemach.Memory.Ops.validate_entries_after typemach.Memory.Validate.validate_next_seq
end-made = refl

found-run : get "run" in_flight.registry.runs ≡ some told_two
unfolding get
found-run = refl

finish_with-ends_example :
    (get "run" (finish_with the_end last_event in_flight).1.registry.runs ≡ none)
    × ((finish_with the_end last_event in_flight).1.registry.world
        ≡ (send_all log (7 ∷ []) (event 3 true) []).1)
unfolding typemach.Store.result_event
finish_with-ends_example =
    finish_with-ends the_end last_event in_flight told_two (finished (event 3 true)) found-run
      end-made
