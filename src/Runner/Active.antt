-- ===== src/Runner/Active.antt =====
-- src/runner.rs: the runs in flight of a runner and their cancellation, and `RunCancel` of src/run.rs.
-- Each step holds one lock; the calls are made of them, and tasks interleave between them.
use typemach.Base.{ℕ, ◌==◌, none, some, Bool, true, false, if◌then◌else◌}
use typemach.Base.Eq.{string_eq}
use typemach.Base.Map.{Map, get, insert, remove, contains_key}
use typemach.Run.{RunId}

-- `cancelled_runs` is a set; a `RunCancel` is the number of its flag, by which `Arc::ptr_eq` tells it
-- from others.
pub record Active : Type 0 where
  pub cancelled_runs : Map RunId (Unit {0})
  pub active_runs : Map RunId ℕ
  pub flags : ℕ → Bool

-- `RunCancel::cancel`.
unfoldable pub cancel : ℕ → Active → Active
cancel control s = record s { flags = λ k. if k == control then true else s.flags k }

-- `RunCancel::is_cancelled`.
abbrev pub is_cancelled_flag : ℕ → Active → Bool
is_cancelled_flag control s = s.flags control

-- `Runner::is_cancelled`.
unfoldable pub is_cancelled : RunId → Active → Bool
is_cancelled run_id s = contains_key run_id s.cancelled_runs

-- `cancel_run`, its two locks.
unfoldable pub mark : RunId → Active → Active
mark run_id s = record s { cancelled_runs = insert run_id tt s.cancelled_runs }

unfoldable pub signal_active : RunId → Active → Active
signal_active run_id s = elim (get run_id s.active_runs) [
  | none ↦ s
  | some control ↦ cancel control s
]

unfoldable pub cancel_run : RunId → Active → Active
cancel_run run_id s = signal_active run_id (mark run_id s)

-- `register_active`: a look at the set, the entry, and a second look.
unfoldable pub look : RunId → ℕ → Active → Active
look run_id control s = if is_cancelled run_id s then cancel control s else s

unfoldable pub enter : RunId → ℕ → Active → Active
enter run_id control s = record s { active_runs = insert run_id control s.active_runs }

unfoldable pub register_active : RunId → ℕ → Active → Active
register_active run_id control s =
    look run_id control (enter run_id control (look run_id control s))

-- `unregister_active`: the entry, if it is this task's own, and then the mark.
unfoldable pub owns_entry : RunId → ℕ → Active → Bool
owns_entry run_id control s = elim (get run_id s.active_runs) [
  | none ↦ false
  | some active ↦ active == control
]

unfoldable pub leave : RunId → ℕ → Active → Bool × Active
leave run_id control s =
    if owns_entry run_id control s
    then (true, record s { active_runs = remove run_id s.active_runs })
    else (false, s)

unfoldable pub unmark : RunId → Active → Active
unmark run_id s = record s { cancelled_runs = remove run_id s.cancelled_runs }

unfoldable pub unregister_active : RunId → ℕ → Active → Active
unregister_active run_id control s =
    let (removed, s') = leave run_id control s in if removed then unmark run_id s' else s'

-- The steps that tasks make, each under one lock.
pub data Micro : Type 0 where
  marks : RunId → Micro
  signals : RunId → Micro
  looks : RunId → ℕ → Micro
  enters : RunId → ℕ → Micro
  leaves : RunId → ℕ → Micro
  unmarks : RunId → Micro

unfoldable pub perform : Micro → Active → Active
perform (marks run_id) s = mark run_id s
perform (signals run_id) s = signal_active run_id s
perform (looks run_id control) s = look run_id control s
perform (enters run_id control) s = enter run_id control s
perform (leaves run_id control) s = (leave run_id control s).1
perform (unmarks run_id) s = unmark run_id s
