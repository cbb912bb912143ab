-- ===== src/Runner/Checks.antt =====
-- Turns of a concrete machine.
use typemach.Base.{
  ℕ, zero, suc, ◌+◌, ◌≤◌, ◌<◌, String, Option, none, some, Bool, true, false, List, [], ◌∷◌, ◌≡◌,
  refl, length, last, if◌then◌else◌, arith,
}
use typemach.Base.Eq.{string_eq}
use typemach.Base.Map.{Map}
use typemach.Run.Limits
use typemach.Run.Request.{start_request, resume_request, completed, interrupted}
use typemach.Error.{Result, ok, ◌>>=◌, written}
use typemach.Checkpoint.{CheckpointRecord}
use typemach.Checkpoint.Saver.{CheckpointSaver, memory_saver, memory_saver-Lawful}
use typemach.Machine.{
  Machine, Transition, next, interrupt, complete, reenter_interrupted_step, emits, returns,
}
use typemach.Runner.Resume.{Request}
use typemach.Runner.Invoke.{
  Position, Turn, answers, stops, goes, round, invoke_inner, load_start, Output,
}
use typemach.Runner.Channel.{Channel, Tick, works, beats, acquires, terminal_event}
use typemach.Runner.Stream.{run_stream_driver}
use typemach.Runner.Saved.{Codecs}
use typemach.Runner.Limit.{invoke_inner-ends, invoke_inner-bounded, counter_max}
use typemach.Runner.Again.{
  round-resumes, invoke_inner-interrupted, invoke_inner-completed, Interrupted, Completed,
}
use typemach.Runner.Driver.{Finished, run_stream_driver-Story}
use typemach.Runner.Same.{as_terminal, streamed}
use typemach.Runner.Equal.{run_stream_driver-invoke_inner}
use typemach.Runner.Active.{Active, perform, marks, signals, looks, enters}
use typemach.Runner.Race.{
  Race, begins, marks_it, signals_it, looks_first, enters_it, looks_again, signalled, registered,
  cancel_run-reaches,
}

-- The choice decides: 0 goes on, 1 interrupts, and any other completes.
abbrev answer : ℕ → ℕ → Transition ℕ ℕ ℕ
answer zero step = next (step + 1)
answer (suc zero) step = interrupt step
answer (suc (suc _)) step = complete step

abbrev Stepper : Machine ℕ
Stepper = record {
  Step = ℕ;
  State = ℕ;
  Input = ℕ;
  Signal = ℕ;
  Output = ℕ;
  Interrupt = ℕ;
  Choice = ℕ;
  start_step = 0;
  resume_action = λ _. reenter_interrupted_step;
  new_state = λ input previous snapshot. elim previous [ none ↦ ok input | some old ↦ ok old ];
  apply_resume_input = λ state input. ok (state + input);
  transition =
      λ choice step state ctx. emits state (λ _. returns (ok (answer choice step)) (state + 1));
  state_value = λ a. written a;
  state_from = λ v. written v;
  step_value = λ a. written a;
  step_from = λ v. written v;
  interrupt_value = λ a. written a;
  interrupt_from = λ v. written v;
  trace_value = λ step result. step;
}

abbrev Saver : CheckpointSaver ℕ
Saver = memory_saver ℕ

Stepper-Codecs : Codecs Stepper
Stepper-Codecs = record {
  state_back = λ a v h. cc;
  step_back = λ a v h. cc;
  interrupt_back = λ a v h. cc;
}

abbrev request : Request Stepper
request = start_request "run" "session" "thread" 10 5

abbrev resumption : Request Stepper
resumption = resume_request "other" "session" "thread" 3 5

abbrev turn : ℕ → Turn Stepper Saver (Limits.new 5)
turn choice = record { choice = choice; meanwhile = λ w. w; branch = answers }

-- One step, and then the last choice.
abbrev turns : ℕ → ℕ → Turn Stepper Saver (Limits.new 5)
turns final zero = turn 0
turns final (suc _) = turn final

abbrev running_at : CheckpointRecord ℕ
running_at = record {
  version = 1;
  state = 12;
  next_step = none;
  interrupted_step = none;
  interrupt = none;
  run_id = some "run";
}

abbrev interrupted_at : CheckpointRecord ℕ
interrupted_at = record {
  version = 1;
  state = 12;
  next_step = none;
  interrupted_step = some 1;
  interrupt = some 1;
  run_id = some "run";
}

small : 5 < counter_max
unfolding counter_max
small = omega arith

completes :
    invoke_inner {M = Stepper} {CK = Saver} 6 request false (turns 2) []
    ≡ some (ok (completed (0 ∷ 1 ∷ []) 1 12), ("thread", running_at) ∷ [])
unfolding invoke_inner load_start typemach.Checkpoint.Saver.memory_load
    typemach.Checkpoint.Saver.memory_save typemach.Runner.Resume.restore_or_start
    typemach.Base.Map.get typemach.Base.Map.insert typemach.Runner.Resume.fresh_start
    typemach.Runner.Invoke.run_loop round typemach.Runner.Invoke.u32
    typemach.Runner.Invoke.take_answer typemach.Runner.Invoke.transition_or_cancel
    typemach.Runner.Invoke.silent typemach.Runner.Invoke.take_transition
    typemach.Runner.Invoke.saved_next typemach.Runner.Invoke.save_running
    typemach.Runner.Invoke.save_interrupted typemach.Runner.Invoke.saved_last
    typemach.Runner.Invoke.with_snapshot typemach.Runner.Invoke.save_record
    typemach.Runner.Resume.running_record typemach.Runner.Resume.interrupted_record
    typemach.Runner.Resume.next_value typemach.Checkpoint.checkpoint_version
    typemach.Checkpoint.interrupted typemach.Checkpoint.running typemach.Machine.to_json
completes = refl

interrupts :
    invoke_inner {M = Stepper} {CK = Saver} 6 request false (turns 1) []
    ≡ some (ok (interrupted 1 12), ("thread", interrupted_at) ∷ [])
unfolding invoke_inner load_start typemach.Checkpoint.Saver.memory_load
    typemach.Checkpoint.Saver.memory_save typemach.Runner.Resume.restore_or_start
    typemach.Base.Map.get typemach.Base.Map.insert typemach.Runner.Resume.fresh_start
    typemach.Runner.Invoke.run_loop round typemach.Runner.Invoke.u32
    typemach.Runner.Invoke.take_answer typemach.Runner.Invoke.transition_or_cancel
    typemach.Runner.Invoke.silent typemach.Runner.Invoke.take_transition
    typemach.Runner.Invoke.saved_next typemach.Runner.Invoke.save_running
    typemach.Runner.Invoke.save_interrupted typemach.Runner.Invoke.saved_last
    typemach.Runner.Invoke.with_snapshot typemach.Runner.Invoke.save_record
    typemach.Runner.Resume.running_record typemach.Runner.Resume.interrupted_record
    typemach.Runner.Resume.next_value typemach.Checkpoint.checkpoint_version
    typemach.Checkpoint.interrupted typemach.Checkpoint.running typemach.Machine.to_json
interrupts = refl

invoke_inner-ends_example :
    (r : Result (Output Stepper)) × (w : Saver.World) × (invoke_inner {M = Stepper} {CK = Saver} 6
        request false
        (λ _. turn 0)
        []
      ≡ some (r, w))
invoke_inner-ends_example = invoke_inner-ends request false (λ _. turn 0) [] small

invoke_inner-bounded_example : length {A = ℕ} (0 ∷ 1 ∷ []) ≤ 5
invoke_inner-bounded_example =
    invoke_inner-bounded {M = Stepper} {CK = Saver} 6 request false (turns 2) []
      (("thread", running_at) ∷ []) (0 ∷ 1 ∷ []) 1 12 small completes

-- The first step, and the position after it.
abbrev here : Position Stepper Saver
here = record { step_count = 0; current_step = 0; state = 10; trace = []; world = [] }

abbrev there : Position Stepper Saver
there = record {
  step_count = 1;
  current_step = 1;
  state = 11;
  trace = 0 ∷ [];
  world =
      (
        "thread",
        record {
          version = 1;
          state = 11;
          next_step = some 1;
          interrupted_step = none;
          interrupt = none;
          run_id = some "run";
        },
      )
      ∷ [];
}

steps : round {M = Stepper} {CK = Saver} request (turn 0) here ≡ goes there
unfolding round typemach.Base.Map.insert typemach.Runner.Invoke.u32
    typemach.Runner.Invoke.take_answer typemach.Runner.Invoke.transition_or_cancel
    typemach.Runner.Invoke.silent typemach.Runner.Invoke.take_transition
    typemach.Runner.Invoke.saved_next typemach.Runner.Invoke.save_running
    typemach.Runner.Invoke.save_record typemach.Runner.Resume.running_record
    typemach.Runner.Resume.next_value typemach.Checkpoint.checkpoint_version
    typemach.Checkpoint.running typemach.Machine.to_json typemach.Checkpoint.Saver.memory_save
steps = refl

round-resumes_example : load_start Stepper Saver request there.world ≡ (ok 11 >>= λ a. ok (a, 1))
round-resumes_example =
    round-resumes Stepper-Codecs (memory_saver-Lawful ℕ) request request (turn 0) here there steps
      refl refl refl

invoke_inner-interrupted_example :
    Interrupted Stepper-Codecs
      (memory_saver-Lawful ℕ)
      request
      resumption
      1
      12
      (("thread", interrupted_at) ∷ [])
invoke_inner-interrupted_example =
    invoke_inner-interrupted Stepper-Codecs (memory_saver-Lawful ℕ) 6 request resumption false
      (turns 1) [] (("thread", interrupted_at) ∷ []) 1 12 interrupts refl refl

invoke_inner-completed_example :
    Completed Stepper-Codecs
      (memory_saver-Lawful ℕ)
      request
      request
      12
      (("thread", running_at) ∷ [])
invoke_inner-completed_example =
    invoke_inner-completed Stepper-Codecs (memory_saver-Lawful ℕ) 6 request request false (turns 2)
      [] (("thread", running_at) ∷ []) (0 ∷ 1 ∷ []) 1 12 completes refl

-- A heartbeat and the signal come before each answer.
abbrev ticks : ℕ → List Tick
ticks _ = beats ∷ works ∷ []

run_stream_driver-invoke_inner_example :
    (channel : Channel Stepper) × (run_stream_driver Stepper Saver 6 request
        (record { beats = 1; lock_end = acquires; is_cancelled = false })
        (λ k. streamed Stepper Saver (turns 2 k) (ticks k))
        []
        (record { sent = []; left = none })
      ≡ some (("thread", running_at) ∷ [], channel))
    × (last channel.sent
        ≡ terminal_event Stepper (as_terminal Stepper (ok (completed (0 ∷ 1 ∷ []) 1 12))))
run_stream_driver-invoke_inner_example =
    run_stream_driver-invoke_inner Stepper Saver 6 request 1 false (turns 2) ticks []
      (("thread", running_at) ∷ []) (ok (completed (0 ∷ 1 ∷ []) 1 12)) (λ choice step state. refl)
      completes

-- The same once more, for the test below.
driven :
    (channel : Channel Stepper) × (run_stream_driver Stepper Saver 6 request
        (record { beats = 1; lock_end = acquires; is_cancelled = false })
        (λ k. streamed Stepper Saver (turns 2 k) (ticks k))
        []
        (record { sent = []; left = none })
      ≡ some (("thread", running_at) ∷ [], channel))
    × (last channel.sent
        ≡ terminal_event Stepper (as_terminal Stepper (ok (completed (0 ∷ 1 ∷ []) 1 12))))
driven =
    run_stream_driver-invoke_inner Stepper Saver 6 request 1 false (turns 2) ticks []
      (("thread", running_at) ∷ []) (ok (completed (0 ∷ 1 ∷ []) 1 12)) (λ choice step state. refl)
      completes

abbrev told : Channel Stepper
told = driven.0

run_stream_driver-Story_example : Finished Stepper request told
run_stream_driver-Story_example =
    run_stream_driver-Story Stepper Saver 6 request
      (record { beats = 1; lock_end = acquires; is_cancelled = false })
      (λ k. streamed Stepper Saver (turns 2 k) (ticks k)) [] (("thread", running_at) ∷ []) none told
      driven.1

-- The mark comes after the first look, and the signal before the entry.
abbrev quiet : Active
quiet = record { cancelled_runs = []; active_runs = []; flags = λ _. false }

abbrev after_look : Active
after_look = perform (looks "run" 0) quiet

abbrev after_mark : Active
after_mark = perform (marks "run") after_look

abbrev after_signal : Active
after_signal = perform (signals "run") after_mark

abbrev after_entry : Active
after_entry = perform (enters "run" 0) after_signal

abbrev after_second_look : Active
after_second_look = perform (looks "run" 0) after_entry

race : Race "run" 0 signalled registered after_second_look
race =
    looks_again after_second_look
      (enters_it after_entry
        (signals_it after_signal
          (marks_it after_mark (looks_first after_look (begins quiet) refl) refl) refl)
        refl)
      refl

cancel_run-reaches_example : after_second_look.flags 0 ≡ true
cancel_run-reaches_example = cancel_run-reaches "run" 0 after_second_look race
