-- ===== src/Memory/Cases/Commit.antt =====
-- The paths through `commit_run`.
use typemach.Base.{String, some, Bool, true, false, ◌≡◌, refl, inl, inr, Bool-cases, Option-cases}
use typemach.Base.Eq.{◌=?◌, string_eq}
use typemach.Base.Map.{get}
use typemach.Error.{Result, ok, Result-cases}
use typemach.Params.{Params}
use typemach.Store.{RunCommit, RunCommitResult, recorded, finished_with, finished, is_terminal}
use typemach.Memory.State.{Inner, MemoryRun, Clock}
use typemach.Memory.Commit.{
  check_commit_shape, check_commit, commit_write, commit_open, commit_target, commit_ended,
  commit_run,
}

-- The answer says that the commit has been written.
abbrev pub wrote : {E : Type 0} → Result (RunCommitResult E) → Bool
wrote (ok (recorded es)) = true
wrote (ok (finished_with es (finished e))) = true
wrote _ = false

module _ {P : Params} where
  commit_ended-wrote :
      (c : RunCommit P) (run : MemoryRun P) → wrote (ok (commit_ended c run)) ≡ false
  unfolding commit_ended
  commit_ended-wrote c run = elim (Option-cases c.finish) [
    | inl open_still ↦ rw (open_still, commit_ended) refl
    | inr (finish, ends) ↦ elim (Option-cases run.terminal_event) [
      | inl missing ↦ rw (ends, commit_ended, missing) refl
      | inr (event, kept) ↦ rw (ends, commit_ended, kept) refl
    ]
  ]

  -- A commit writes only for a run that is there, in scope, open, and past all checks.
  pub record CommitPasses (clock : Clock) (c : RunCommit P) (s : Inner P) (scope : String)
      (run : MemoryRun P) : Type 0 where
    pub shape : check_commit_shape c ≡ ok tt
    pub found : get c.run_id s.runs ≡ some run
    pub in_scope : P.scope_eq.beq run.start.scope c.scope ≡ true
    pub session : (run.start.session_id =? c.session_id) ≡ true
    pub still_open : is_terminal run.status ≡ false
    pub checked : check_commit clock c run s ≡ ok scope

  commit_open_cases {ℓ} :
      (clock : Clock) (c : RunCommit P) (run : MemoryRun P) (s : Inner P)
      (Q : Result (RunCommitResult P.Event) × Inner P → Type ℓ)
      → ((r : Result (RunCommitResult P.Event)) → wrote r ≡ false → Q (r, s))
      → ((scope : String)
          → check_commit clock c run s ≡ ok scope
          → Q (commit_write clock scope c run s))
      → Q (commit_open clock c run s)
  unfolding commit_open
  commit_open_cases clock c run s Q stay write = elim (Result-cases (check_commit clock c run s)) [
    | inl (e, bad) ↦ rw (bad, commit_open) (stay _ refl)
    | inr (scope, checked) ↦ rw (checked, commit_open) (write scope checked)
  ]

  commit_target_cases {ℓ} :
      (clock : Clock) (c : RunCommit P) (run : MemoryRun P) (s : Inner P)
      (Q : Result (RunCommitResult P.Event) × Inner P → Type ℓ)
      → ((r : Result (RunCommitResult P.Event)) → wrote r ≡ false → Q (r, s))
      → (P.scope_eq.beq run.start.scope c.scope ≡ true
          → (run.start.session_id =? c.session_id) ≡ true
          → is_terminal run.status ≡ false
          → Q (commit_open clock c run s))
      → Q (commit_target clock c run s)
  unfolding commit_target
  commit_target_cases clock c run s Q stay go =
      elim (Bool-cases (P.scope_eq.beq run.start.scope c.scope)) [
        | inr other ↦ rw (other, commit_target) (stay _ refl)
        | inl scoped ↦ elim (Bool-cases (run.start.session_id =? c.session_id)) [
          | inr other ↦ rw (scoped, commit_target, other) (stay _ refl)
          | inl session ↦ elim (Bool-cases (is_terminal run.status)) [
            | inl ended ↦
                rw (scoped, commit_target, session, ended) (stay _ (commit_ended-wrote c run))
            | inr live ↦ rw (scoped, commit_target, session, live) (go scoped session live)
          ]
        ]
      ]

  pub commit_cases {ℓ} :
      (clock : Clock) (c : RunCommit P) (s : Inner P)
      (Q : Result (RunCommitResult P.Event) × Inner P → Type ℓ)
      → ((r : Result (RunCommitResult P.Event)) → wrote r ≡ false → Q (r, s))
      → ((scope : String) (run : MemoryRun P)
          → CommitPasses clock c s scope run
          → Q (commit_write clock scope c run s))
      → Q (commit_run clock c s)
  unfolding commit_run
  commit_cases clock c s Q stay write = elim (Result-cases (check_commit_shape c)) [
    | inl (e, bad) ↦ rw (bad, commit_run) (stay _ refl)
    | inr (_, shape) ↦ elim (Option-cases (get c.run_id s.runs)) [
      | inl missing ↦ rw (shape, commit_run, missing) (stay _ refl)
      | inr (run, found) ↦
          rw (shape, commit_run, found)
            (commit_target_cases clock c run s Q stay λ scoped session live.
              commit_open_cases clock c run s Q stay λ scope checked. write scope run (record {
                shape = shape;
                found = found;
                in_scope = scoped;
                session = session;
                still_open = live;
                checked = checked;
              }))
    ]
  ]
