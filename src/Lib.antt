-- ===== src/Lib.antt =====
-- typemach: a library that runs agents as machines whose runs, events and checkpoints a store keeps.
--
-- A store (src/store.rs) is asked by a runtime to open sessions, to start runs on threads, to record
-- what a run does (events, effects, items, entries, checkpoints) in one commit, and to finish it. Workers
-- hold leases on the runs that they advance; a reaper ends the runs whose lease has run out. This library
-- is about that contract, about the store that keeps it in memory, src/store/memory.rs and the three
-- files below it, about the registry of the runs that a process has in flight, about the lifecycle that
-- numbers a run's events and keeps registry and store together, about the runner that steps a machine
-- and saves a checkpoint after each step, and about what a transactional runtime holds back until the
-- commit of a step.
--
-- Which file models what:
--   Run, Error, Op, Checkpoint, Event, Store: the data of src/run.rs, src/error.rs, src/op.rs,
--     src/checkpoint.rs and src/store.rs, field by field, with the texts of the statuses and what is
--     parsed from them (Op/Parse, Store/Parse).
--   Params: what a store is generic in (scope, event, finish data), and serde: the texts that
--     `serde_json` writes are functions of the value, of which nothing else is assumed. They may fail.
--   Memory/State: `MemoryRunStoreInner`, its runs and leases, and the clocks.
--   Memory/Validate: src/store/memory/validate.rs, the checks on events.
--   Memory/Ops: src/store/memory/op.rs, the checks and writes of effects, items and entries.
--   Memory/Leases: src/store/memory/lease.rs, `renew`, `release`, `reap_stale` and the claims.
--   Memory/Sessions, Start, Finish, Commit, Effects, Queries: the calls of src/store/memory.rs.
--   Memory/Calls: histories, lists of calls in the order in which they take the store's lock.
--   Registry: src/registry.rs. The flag that the clones of a handle share is a number into a table of
--     flags. The channels of `async_rt` are a parameter, a state with `unbounded_channel` and `send` on
--     it, of which nothing is assumed; what the receivers do meanwhile is a request `elsewhere`.
--     `request_cancel` sets the flag after it has given the lock back; here it is one step, and the flag
--     set between two other steps is a request `cancels_handle`.
--   Run/Limits, Run/Request: the requests, limits, outputs and stream events of src/run.rs.
--   Machine: src/machine.rs. A machine is a parameter. What a transition learns from outside (the
--     operations of its context, the network, time) is a choice, of which nothing is assumed; its calls
--     of `emit` are a tree, since a stream answers them.
--   Checkpoint/Saver: the trait of savers as an interface, and `MemorySaver`.
--   Runner/Resume, Invoke: `restore_or_start`, the saves, and the loop of `invoke`. A turn says what
--     ends the wait of a round (an answer, a cancellation, a timer that is set), what the transition
--     learns and what other tasks do with the saver meanwhile. Once a save is made nothing of the turn
--     waits again, and other tasks of the runner are kept off the thread by its lock.
--   Runner/Channel, Stream: the same for `stream` and its driver, with the heartbeats and the channel:
--     the receiver closes after so many events, or when the wait finds it closed.
--   Runner/Active: the cancelled and the active runs, each step under one lock, and `RunCancel`.
--   Store/Interface: the traits `RunStore` and `RunTx`, an interface of which nothing is assumed: a call
--     may fail, and may have changed the store when it does. Memory/Store fills it.
--   Lifecycle/State, Start, Check, Events, Commit, Payload, Follow: src/lifecycle.rs, over any store and
--     the registry. A lock of `event_locks` is a number, and `clones` says how many other calls hold it.
--     A call that holds a run's event lock is one function; the other tasks that use the registry or the
--     store between its steps are left out, but for what the store does in a call. `build_event` is a
--     function of the number (and of how often it has been called, where it may keep a state). A
--     receiver's queue is the list that it will hand out.
--   Op/Run: the trait `RunOps`, `NoopRunOps`, and the operations of `RunContext` in src/run.rs.
--   Runtime/Start, Payload, Record, Bridge: src/runtime.rs over the lifecycle: the start of a run, the
--     payloads, what is recorded of an event and with which code, and the bridge, whose loop goes over
--     what it meets (an event, the end of the stream, the receiver gone). serde on a machine's types and
--     the texts of errors are a parameter, `Wire`. The receiver stays for so many events more.
--   Runtime/Pending, Ops, Saver: `PendingOps` and `TxRunOps` of src/runtime/tx/op.rs, whose calls hold
--     the lock of what is pending, and `TxSaver` of src/runtime/tx.rs.
-- And for the proofs:
--   Memory/Cases: for each call, the paths through it as a rule of elimination.
--   Memory/Frame, Ready, Checked: what the writes leave alone, and what the checks establish.
--   Memory/Valid: well-formed stores, and each call on them.
--   Memory/Grows: what no call takes back.
--   Memory/Spared, Writes, Fits, Applied: the calls that leave a started effect alone, a list of writes
--     under keys of their own, and all that a commit has written.
--   Memory/Atomic, Fenced, Again, Durable, Renewal, Reaper with Ended, Once, Pages, Named, and SameKey
--     with Keyed: what each file is named for.
--   Memory/Tests: a concrete store.
--   Registry/Keeps, Ends, Capacity, Rewind, Cancel, Checks: the changes of the map, the end of a run, the
--     number of runs, the numbers of events, cancellation, and concrete runs.
--   Lifecycle/Undo, Refused, Starts, Gapless, Subscribed, Recorded, Finished, Checks: calls one after
--     the other and the numbers given back, a commit that fails, a start, a replay and its tail, events
--     over the memory store, the end of a run, and a concrete lifecycle.
--   Runtime/Read, Recorded, Turn, Passes, Keyed, Tidy, Checks: a record read back, how a bridge records an
--     event, what it makes of one and passes on in all, writes kept by key, what is pending, and a concrete run.
--   Runner/Rounds, Limit, Saved, Again, Protocol, Told, Driver, Same, Equal, Race, Checks: the ways
--     through a round, the limit of steps, what is read back, the turn after a turn, the order of a
--     stream's events, a stream against `invoke`, cancellation, and a concrete machine.
--
-- How the state corresponds. The store's mutex is held from the first access of a call to its return,
-- so a call is one function from a state to a result and the state after it, and threads interleave by
-- whole calls. A `HashMap` is an association list with at most one entry that `get` sees for a key; no
-- proof relies on its order. A call that reads the clock several times gets a reading for each, with no
-- assumption that they grow. Instants and times to live are natural numbers of ticks. The numbers of
-- events and entries are 64-bit and signed, and adding one to them wraps as it does in a release build;
-- where this matters a hypothesis says that the last number of a log is not the greatest.
--
-- The loops go over lists of the request or over the keys of a map, but for two. The one that looks for
-- the name of a new session has fuel for one round more than there are sessions, and `none` is its
-- answer if that were not enough: of so many different names one is free, and the result on
-- `ensure_session` says that the fuel does, while the 64-bit counter does not wrap. The loop of a turn
-- has fuel for a number of rounds; one more than the limit of steps is enough, unless that limit is
-- `u32::MAX`, which the counter of steps never passes. Names are printed by Base/Decimal, which stands
-- for the standard library's `format!`.
--
-- What a turn finds of the turn before is stated under two hypotheses (Runner/Saved, Checkpoint/Saver):
-- that serde reads back what it has written of a machine's types, and that the saver loads what it has
-- saved last. `MemorySaver` is proved to be such a saver; `TxSaver` is none, since it queues what it
-- saves for the commit and loads from the store.
--
-- Not modelled: the two SQL stores (src/sqlite.rs, src/pg.rs), whose meaning is the databases'; the
-- runner's table of thread locks; of the runtime the bridge of a `TxRuntime` (src/runtime/tx.rs), its
-- renewal of leases and the tasks that are spawned; the agent crate, tests and examples.
pub mod Base
pub mod Error
pub mod Run
pub mod Op
pub mod Checkpoint
pub mod Machine
pub mod Lifecycle
pub mod Runner
pub mod Runtime
pub mod Event
pub mod Params
pub mod Registry
pub mod Store
pub mod Memory
