-- ===== src/Memory/Valid.antt =====
-- Well-formed stores. The invariant is about the runs, their logs, and the leases on threads.
use typemach.Base.{
  String, Option, none, some, Bool, true, false, List, [], ◌∷◌, ◌++◌, ◌≡◌, refl, ◌∙◌, ap, last,
  init, any, map_option, All, arith,
}
use typemach.Base.Int.{ℤ, pos, ◌<ℤ◌}
use typemach.Base.Eq.{Eq, string_eq}
use typemach.Base.Map.{get}
use typemach.Run.{RunId, ThreadId, SessionId}
use typemach.Params.{Params}
use typemach.Store.{is_terminal}
use typemach.Memory.State.{Inner, MemoryRun, MemoryLease, MemoryThreadLease}
pub mod Log
pub mod Runs
pub mod Leases
pub mod Checks
pub mod Start
pub mod Puts
pub mod Calls
pub mod History

module _ (P : Params) where
  abbrev pub IsAfter : Option ℤ → ℤ → Type 0
  IsAfter none n = Unit
  IsAfter (some last) n = last <ℤ n

  -- Positive numbers, each greater than the one before.
  abbrev pub Ordered : Option ℤ → List P.Event → Type 0
  Ordered before [] = Unit
  Ordered before (e ∷ es) =
      (pos 0 <ℤ P.event.seq e) × IsAfter before (P.event.seq e) × Ordered (some (P.event.seq e)) es

  -- The event is of this run and session.
  abbrev pub Belongs : RunId → SessionId → P.Event → Type 0
  Belongs run_id session e = (P.event.run_id e ≡ run_id) × (P.event.session_id e ≡ session)

-- How an ended run looks: no lease, and a log whose last event alone is terminal and is the one kept.
pub record Ended {P : Params} (r : MemoryRun P) (event : P.Event) : Type 0 where
  pub unleased : r.lease ≡ none
  pub kept : r.terminal_event ≡ some event
  pub last_event : last r.events ≡ some event
  pub terminal : P.event.is_terminal event ≡ true
  pub only : any P.event.is_terminal (init r.events) ≡ false

pub record RunValid {P : Params} (run_id : RunId) (r : MemoryRun P) : Type 0 where
  pub keyed : r.start.run_id ≡ run_id
  pub ordered : Ordered P none r.events
  pub belongs : All (Belongs P run_id r.start.session_id) r.events
  pub open_log : is_terminal r.status ≡ false → any P.event.is_terminal r.events ≡ false
  pub ended : is_terminal r.status ≡ true → (event : P.Event) × Ended r event

-- The lease is the thread's own: `l` holds the thread for the run that has the same lease.
pub record LeaseOf {P : Params} (s : Inner P) (thread : ThreadId) (l : MemoryThreadLease)
    (r : MemoryRun P) (a : MemoryLease) : Type 0 where
  pub found : get l.run s.runs ≡ some r
  pub live : is_terminal r.status ≡ false
  pub on_thread : r.start.thread_id ≡ thread
  pub leased : r.lease ≡ some a
  pub owner : a.owner ≡ l.owner
  pub id : a.id ≡ l.id

pub record LeasesValid {P : Params} (s : Inner P) : Type 0 where
  -- A lease on a thread is that of an open run on it.
  pub of_thread :
      (thread : ThreadId) (l : MemoryThreadLease)
      → get thread s.thread_leases ≡ some l
      → (r : MemoryRun P) × (a : MemoryLease) × LeaseOf s thread l r a
  -- A leased run holds its thread.
  pub of_run :
      (run_id : RunId) (r : MemoryRun P) (a : MemoryLease)
      → get run_id s.runs ≡ some r
      → r.lease ≡ some a
      → (l : MemoryThreadLease) × (get r.start.thread_id s.thread_leases ≡ some l)
        × (l.run ≡ run_id)

-- At most one run is open on a thread.
abbrev pub Exclusive : {P : Params} → Inner P → Type 0
Exclusive {P} s =
    (j k : RunId) (q r : MemoryRun P)
    → get j s.runs ≡ some q
    → get k s.runs ≡ some r
    → is_terminal q.status ≡ false
    → is_terminal r.status ≡ false
    → q.start.thread_id ≡ r.start.thread_id
    → j ≡ k

pub record Valid {P : Params} (s : Inner P) : Type 0 where
  pub runs : (k : RunId) (r : MemoryRun P) → get k s.runs ≡ some r → RunValid k r
  pub exclusive : Exclusive s
  pub leases : LeasesValid s
