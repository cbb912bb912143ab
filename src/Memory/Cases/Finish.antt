-- ===== src/Memory/Cases/Finish.antt =====
-- The paths through `finish_run`, `record_event` and `mark_cancelled`.
use typemach.Base.{String, some, Bool, true, false, ◌≡◌, refl, inl, inr, Bool-cases, Option-cases}
use typemach.Base.Eq.{string_eq}
use typemach.Base.Map.{get}
use typemach.Run.{RunId}
use typemach.Error.{Result, ok, Result-cases}
use typemach.Params.{Params}
use typemach.Store.{RunFinishRecord, FinishRunResult, finished, is_terminal}
use typemach.Memory.State.{Inner, MemoryRun, Clock}
use typemach.Memory.Start.{insert_run}
use typemach.Memory.Finish.{
  check_finish, check_finish_target, check_finish_open, finish_target, finish_run, finish_write,
  mark_cancelled, check_record, check_record_open, push_event, record_open, record_target,
  record_event,
}

-- The answer says that the call has ended the run.
abbrev pub ended_now : {E : Type 0} → Result (FinishRunResult E) → Bool
ended_now (ok (finished e)) = true
ended_now _ = false

module _ {P : Params} where
  -- `finish_run` writes only for a run that is there, open, unleased and past all checks.
  pub record FinishPasses (finish : RunFinishRecord P) (s : Inner P) (scope : String)
      (run : MemoryRun P) : Type 0 where
    pub shape : check_finish finish ≡ ok tt
    pub found : get finish.run_id s.runs ≡ some run
    pub target : check_finish_target finish run ≡ ok tt
    pub still_open : is_terminal run.status ≡ false
    pub checked : check_finish_open finish run s ≡ ok scope

  finish_target_cases {ℓ} :
      (clock : Clock) (finish : RunFinishRecord P) (run : MemoryRun P) (s : Inner P)
      (Q : Result (FinishRunResult P.Event) × Inner P → Type ℓ)
      → ((r : Result (FinishRunResult P.Event)) → ended_now r ≡ false → Q (r, s))
      → ((scope : String)
          → check_finish_target finish run ≡ ok tt
          → is_terminal run.status ≡ false
          → check_finish_open finish run s ≡ ok scope
          → Q (ok (finished finish.terminal_event), finish_write clock scope finish run s))
      → Q (finish_target clock finish run s)
  unfolding finish_target
  finish_target_cases clock finish run s Q stay write =
      elim (Result-cases (check_finish_target finish run)) [
        | inl (e, bad) ↦ rw (bad, finish_target) (stay _ refl)
        | inr (_, target) ↦ elim (Bool-cases (is_terminal run.status)) [
          | inl ended ↦ elim (Option-cases run.terminal_event) [
            | inl missing ↦ rw (target, finish_target, ended, missing) (stay _ refl)
            | inr (event, kept) ↦ rw (target, finish_target, ended, kept) (stay _ refl)
          ]
          | inr live ↦ elim (Result-cases (check_finish_open finish run s)) [
            | inl (e, bad) ↦ rw (target, finish_target, live, bad) (stay _ refl)
            | inr (scope, checked) ↦
                rw (target, finish_target, live, checked) (write scope target live checked)
          ]
        ]
      ]

  pub finish_cases {ℓ} :
      (clock : Clock) (finish : RunFinishRecord P) (s : Inner P)
      (Q : Result (FinishRunResult P.Event) × Inner P → Type ℓ)
      → ((r : Result (FinishRunResult P.Event)) → ended_now r ≡ false → Q (r, s))
      → ((scope : String) (run : MemoryRun P)
          → FinishPasses finish s scope run
          → Q (ok (finished finish.terminal_event), finish_write clock scope finish run s))
      → Q (finish_run clock finish s)
  unfolding finish_run
  finish_cases clock finish s Q stay write = elim (Result-cases (check_finish finish)) [
    | inl (e, bad) ↦ rw (bad, finish_run) (stay _ refl)
    | inr (_, shape) ↦ elim (Option-cases (get finish.run_id s.runs)) [
      | inl missing ↦ rw (shape, finish_run, missing) (stay _ refl)
      | inr (run, found) ↦
          rw (shape, finish_run, found)
            (finish_target_cases clock finish run s Q stay λ scope target live checked.
              write scope run (record {
                shape = shape;
                found = found;
                target = target;
                still_open = live;
                checked = checked;
              }))
    ]
  ]

  record_target_cases {ℓ} :
      (run_id : RunId) (scope : P.Scope) (event : P.Event) (run : MemoryRun P) (s : Inner P)
      (Q : Result Bool × Inner P → Type ℓ)
      → ((r : Result Bool) → Q (r, s))
      → (is_terminal run.status ≡ false
          → check_record_open event run ≡ ok tt
          → Q (ok true, insert_run run_id (push_event event run) s))
      → Q (record_target run_id scope event run s)
  unfolding record_target record_open
  record_target_cases run_id scope event run s Q stay write =
      elim (Bool-cases (P.scope_eq.beq run.start.scope scope)) [
        | inr other ↦ rw (other, record_target) (stay _)
        | inl scoped ↦ elim (Bool-cases (is_terminal run.status)) [
          | inl ended ↦ rw (scoped, record_target, ended) (stay _)
          | inr live ↦ elim (Result-cases (check_record_open event run)) [
            | inl (e, bad) ↦ rw (scoped, record_target, live, record_open, bad) (stay _)
            | inr (_, checked) ↦
                rw (scoped, record_target, live, record_open, checked) (write live checked)
          ]
        ]
      ]

  -- `record_event` writes only for a run that is there, open and unleased.
  pub record_cases {ℓ} :
      (run_id : RunId) (scope : P.Scope) (event : P.Event) (s : Inner P)
      (Q : Result Bool × Inner P → Type ℓ)
      → ((r : Result Bool) → Q (r, s))
      → ((run : MemoryRun P)
          → check_record P run_id event ≡ ok tt
          → get run_id s.runs ≡ some run
          → is_terminal run.status ≡ false
          → check_record_open event run ≡ ok tt
          → Q (ok true, insert_run run_id (push_event event run) s))
      → Q (record_event run_id scope event s)
  unfolding record_event
  record_cases run_id scope event s Q stay write =
      elim (Result-cases (check_record P run_id event)) [
        | inl (e, bad) ↦ rw (bad, record_event) (stay _)
        | inr (_, shape) ↦ elim (Option-cases (get run_id s.runs)) [
          | inl missing ↦ rw (shape, record_event, missing) (stay _)
          | inr (run, found) ↦
              rw (shape, record_event, found)
                (record_target_cases run_id scope event run s Q stay
                  λ live checked. write run shape found live checked)
        ]
      ]

  pub cancel_cases {ℓ} :
      (run_id : RunId) (scope : P.Scope) (s : Inner P) (Q : Result (Unit {0}) × Inner P → Type ℓ)
      → ((r : Result (Unit {0})) → Q (r, s))
      → ((run : MemoryRun P)
          → get run_id s.runs ≡ some run
          → Q (ok tt, insert_run run_id (record run { cancel_requested = true }) s))
      → Q (mark_cancelled run_id scope s)
  unfolding mark_cancelled
  cancel_cases run_id scope s Q stay write = elim (Option-cases (get run_id s.runs)) [
    | inl missing ↦ rw (missing, mark_cancelled) (stay _)
    | inr (run, found) ↦ elim (Bool-cases (P.scope_eq.beq run.start.scope scope)) [
      | inr other ↦ rw (found, mark_cancelled, other) (stay _)
      | inl scoped ↦ rw (found, mark_cancelled, scoped) (write run found)
    ]
  ]
