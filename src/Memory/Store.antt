-- ===== src/Memory/Store.antt =====
-- `impl RunStore` and `impl RunTx` of src/store/memory.rs: the calls of the memory store, with the
-- clocks that they read.
use typemach.Base.{ℕ, suc, map_option}
use typemach.Error.{Result, ok}
use typemach.Params.{Params}
use typemach.Store.Interface.{RunStore}
use typemach.Memory.State.{Inner, Clock, Action}
use typemach.Memory.Sessions.{ensure_session}
use typemach.Memory.Start.{start_run}
use typemach.Memory.Finish.{finish_run, mark_cancelled, record_event}
use typemach.Memory.Commit.{commit_run}
use typemach.Memory.Effects.{reserve_effect, start_effect}
use typemach.Memory.Queries.{
  lookup_run, terminal_event_of, find_idempotent_run, check_run_start, list_events,
}

-- What the store holds, and what the clocks will answer in the calls to come.
pub record Clocked (P : Params) : Type 0 where
  pub inner : Inner P
  pub clocks : ℕ → Clock

module _ {P : Params} where
  abbrev pub read : {A : Type 0} → (Inner P → Result A) → Clocked P → Result A × Clocked P
  read query w = (query w.inner, w)

  abbrev pub act : {A : Type 0} → Action P A → Clocked P → Result A × Clocked P
  act call w = ((call w.inner).0, record w { inner = (call w.inner).1 })

  -- A call that reads the clocks.
  abbrev pub timed : {A : Type 0} → (Clock → Action P A) → Clocked P → Result A × Clocked P
  timed call w = (
    (call (w.clocks 0) w.inner).0,
    record { inner = (call (w.clocks 0) w.inner).1; clocks = λ k. w.clocks (suc k) },
  )

abbrev pub memory_store : (P : Params) → RunStore P
memory_store P = record {
  World = Clocked P;
  ensure_session = λ asked scope w.
      map_option (λ x. (ok x.0, record w { inner = x.1 })) (ensure_session asked scope w.inner);
  start_run = λ run. timed (λ clock. start_run clock run);
  lookup_run = λ run_id scope. read (λ s. ok (lookup_run run_id scope s));
  finish_run = λ finish. timed (λ clock. finish_run clock finish);
  terminal_event = λ run_id scope. read (λ s. ok (terminal_event_of run_id scope s));
  find_idempotent_run = λ scope session key. read (find_idempotent_run scope session key);
  check_run_start = λ run_id start. read (check_run_start run_id start);
  mark_cancelled = λ run_id scope. act (mark_cancelled run_id scope);
  record_event = λ run_id scope event. act (record_event run_id scope event);
  list_events = λ run_id scope after limit. read (list_events run_id scope after limit);
  commit_run = λ commit. timed (λ clock. commit_run clock commit);
  reserve_effect = λ run_id scope lease key kind request.
      timed (λ clock. reserve_effect clock run_id scope lease key kind request);
  start_effect =
      λ run_id scope lease key. timed (λ clock. start_effect clock run_id scope lease key);
}
