-- ===== src/Memory/State.antt =====
-- `MemoryRunStoreInner`, its runs and leases, and the monad of calls on it.
use typemach.Base.{
  ℕ, String, Option, none, some, Bool, true, false, List, [], map_option, min, ◌-◌, ◌&&◌, not,
}
use typemach.Base.Int.{ℤ, pos, i64_bound}
use typemach.Base.Eq.{◌=?◌, string_eq}
use typemach.Base.Map.{Map, values, find}
use typemach.Run.{RunId, SessionId, ThreadId, LeaseId, WorkerId}
use typemach.Op.{Effect, Item, Entry}
use typemach.Checkpoint.{CheckpointRecord}
use typemach.Error.{Result, ok, err, MachineError}
use typemach.Params.{Params}
use typemach.Store.{RunStatus, running, RunStart, RunLookup}

-- Instants are ticks of the monotonic clock, which neither wraps nor runs out.
pub record MemoryLease : Type 0 where
  pub owner : WorkerId
  pub id : LeaseId
  pub until : ℕ

pub record MemoryThreadLease : Type 0 where
  pub run : RunId
  pub owner : WorkerId
  pub id : LeaseId
  pub until : ℕ

pub record MemoryRun (P : Params) : Type 0 where
  pub start : RunStart P
  pub status : RunStatus
  pub finish_reason : Option String
  pub cancel_requested : Bool
  pub finish_data : Option P.FinishData
  pub terminal_event : Option P.Event
  pub events : List P.Event
  pub lease : Option MemoryLease

pub record Inner (P : Params) : Type 0 where
  pub next_session : ℕ
  pub sessions : Map SessionId P.Scope
  pub runs : Map RunId (MemoryRun P)
  pub thread_leases : Map ThreadId MemoryThreadLease
  pub checkpoints : Map ThreadId (CheckpointRecord P.Value)
  pub idempotency : Map (String × SessionId × String) RunId
  pub entry_seq : Map (String × SessionId) ℤ
  pub entries : Map (String × SessionId × String) (Entry P.Value)
  pub effects : Map (RunId × String) (Effect P.Value)
  pub items : Map (RunId × String) (Item P.Value)

-- `MemoryRunStoreInner::default`.
abbrev pub empty : (P : Params) → Inner P
empty P = record {
  next_session = 0;
  sessions = [];
  runs = [];
  thread_leases = [];
  checkpoints = [];
  idempotency = [];
  entry_seq = [];
  entries = [];
  effects = [];
  items = [];
}

-- What the clocks answer in one call: the readings of `Instant::now()` in the order in which the
-- call makes them, and the wall clock's time since the epoch in milliseconds (`none` before it).
pub record Clock : Type 0 where
  pub instant : ℕ → ℕ
  pub since_epoch : ℕ → Option ℕ

-- `now_ms`, for the k-th reading of the wall clock.
abbrev pub now_ms : Clock → ℕ → ℤ
now_ms c k = elim (c.since_epoch k) [ none ↦ pos 0 | some d ↦ pos (min d (i64_bound - 1)) ]

-- A call on the store: what it returns, and the state that it leaves, after an error too.
abbrev pub Action : Params → Type 0 → Type 0
Action P A = Inner P → Result A × Inner P

module _ {P : Params} {A : Type 0} where
  abbrev pub pure : A → Action P A
  pure a s = (ok a, s)

  abbrev pub fail : MachineError → Action P A
  fail e s = (err e, s)

  abbrev pub gets : (Inner P → A) → Action P A
  gets f s = (ok (f s), s)

  -- `e?` for a result that is computed from the state.
  abbrev pub checks : (Inner P → Result A) → Action P A
  checks f s = (f s, s)

  abbrev pub lift : Result A → Action P A
  lift r s = (r, s)

abbrev pub modify : {P : Params} → (Inner P → Inner P) → Action P (Unit {0})
modify f s = (ok tt, f s)

infixl 5 ◌>>=◌ ◌>>◌
abbrev pub ◌>>=◌ : {P : Params} {A B : Type 0} → Action P A → (A → Action P B) → Action P B
◌>>=◌ m f s = let (r, s') = m s in elim r [ ok a ↦ f a s' | err e ↦ (err e, s') ]

abbrev pub ◌>>◌ : {P : Params} {B : Type 0} → Action P (Unit {0}) → Action P B → Action P B
m >> k = m >>= λ _. k

abbrev pub is_running : RunStatus → Bool
is_running running = true
is_running _ = false

module _ {P : Params} where
  unfoldable pub run_lookup : MemoryRun P → RunLookup
  run_lookup run = record {
    run_id = run.start.run_id;
    session_id = run.start.session_id;
    thread_id = run.start.thread_id;
    status = run.status;
    finish_reason = run.finish_reason;
    cancel_requested = run.cancel_requested;
    owner = map_option (λ l. l.owner) run.lease;
  }

  -- The test of `running_memory_thread`: a running run on the thread, other than `except`.
  abbrev pub holds_thread : ThreadId → RunId → MemoryRun P → Bool
  holds_thread thread except run =
      is_running run.status && run.start.thread_id =? thread && not (run.start.run_id =? except)

  unfoldable pub running_memory_thread :
      Inner P → ThreadId → RunId → Option (Option WorkerId × Option RunId)
  running_memory_thread s thread except =
      map_option (λ run. (map_option (λ l. l.owner) run.lease, some run.start.run_id))
        (find (holds_thread thread except) (values s.runs))
