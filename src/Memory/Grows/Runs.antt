-- ===== src/Memory/Grows/Runs.antt =====
-- The updates that the calls make of a run, and what a run keeps.
use typemach.Base.{ℕ, List, [], ◌∷◌, ◌++◌, ◌≡◌, refl, sym, ◌∙◌, arith, true, false}
use mathlib.Core.List.{append-nil}
use typemach.Params.{Params}
use typemach.Store.{RunFinish, RunFinishRecord, is_terminal}
use typemach.Memory.State.{MemoryRun}
use typemach.Memory.Finish.{finished_run, push_event}
use typemach.Memory.Commit.{append_events, ended_run}
use typemach.Memory.Leases.{reaped_run, is_stale}
use typemach.Memory.Grows.{RunGrows}

module _ {P : Params} where
  -- A change of an open run that only adds to its log.
  pub RunGrows-open :
      (a b : MemoryRun P) (more : List P.Event)
      → is_terminal a.status ≡ false
      → b.start ≡ a.start
      → b.events ≡ a.events ++ more
      → RunGrows a b
  RunGrows-open a b more live start events = record {
    start = start;
    events = (more, events);
    status = λ ended. cc;
    log = λ ended. cc;
    terminal_event = λ ended. cc;
    finish_reason = λ ended. cc;
    finish_data = λ ended. cc;
  }

  pub finished_run-RunGrows :
      (finish : RunFinishRecord P) (a : MemoryRun P)
      → is_terminal a.status ≡ false
      → RunGrows a (finished_run finish a)
  unfolding finished_run
  finished_run-RunGrows finish a live =
      RunGrows-open a _ (finish.terminal_event ∷ []) live refl refl

  pub push_event-RunGrows :
      (event : P.Event) (a : MemoryRun P)
      → is_terminal a.status ≡ false
      → RunGrows a (push_event event a)
  unfolding push_event
  push_event-RunGrows event a live = RunGrows-open a _ (event ∷ []) live refl refl

  pub append_events-RunGrows :
      (events : List P.Event) (a : MemoryRun P)
      → is_terminal a.status ≡ false
      → RunGrows a (append_events events a)
  unfolding append_events
  append_events-RunGrows events a live = RunGrows-open a _ events live refl refl

  pub ended_run-RunGrows :
      (finish : RunFinish P) (event : P.Event) (events : List P.Event) (a : MemoryRun P)
      → is_terminal a.status ≡ false
      → RunGrows a (ended_run finish event (append_events events a))
  unfolding ended_run append_events
  ended_run-RunGrows finish event events a live = RunGrows-open a _ events live refl refl

  stale-not-terminal :
      (now : ℕ) (a : MemoryRun P) → is_stale now a ≡ true → is_terminal a.status ≡ false
  unfolding is_stale
  stale-not-terminal now a h = ground arith

  pub reaped_run-RunGrows :
      (now : ℕ) (event : P.Event) (a : MemoryRun P)
      → is_stale now a ≡ true
      → RunGrows a (reaped_run a event)
  unfolding reaped_run
  reaped_run-RunGrows now event a stale =
      RunGrows-open a _ (event ∷ []) (stale-not-terminal now a stale) refl refl

  -- A change that touches neither the start, the log nor the end of a run.
  pub RunGrows-same :
      (a b : MemoryRun P)
      → b.start ≡ a.start
      → b.events ≡ a.events
      → b.status ≡ a.status
      → b.terminal_event ≡ a.terminal_event
      → b.finish_reason ≡ a.finish_reason
      → b.finish_data ≡ a.finish_data
      → RunGrows a b
  RunGrows-same a b start events status event reason finish_data = record {
    start = start;
    events = ([], events ∙ sym (append-nil a.events));
    status = λ _. status;
    log = λ _. events;
    terminal_event = λ _. event;
    finish_reason = λ _. reason;
    finish_data = λ _. finish_data;
  }
