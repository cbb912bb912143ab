-- ===== src/Memory/Keyed.antt =====
-- The clients' keys of `start_run`, src/store/memory.rs.
use typemach.Base.{
  ℕ, String, Option, none, some, List, [], ◌∷◌, ◌≡◌, refl, ◌∙◌, ap, inl, inr, Bool-cases,
  Option-cases, leb, length, last,
}
use typemach.Base.Int.{ℤ}
use typemach.Base.Eq.{string_eq, triple_eq, eq-cases}
use typemach.Base.Map.{get, insert, keys, get-insert_ne}
use typemach.Run.{RunId, SessionId}
use typemach.Error.{Result-cases}
use typemach.Params.{Params}
use typemach.Store.{RunStart, RunCommit, RunLookup, CheckpointWrite, LeaseClaim}
use typemach.Memory.State.{Inner, MemoryRun, Clock, now_ms}
use typemach.Memory.Start.{
  start_run, start_write, open_session, insert_run, insert_key, new_run, idempotency_key,
  idempotent_run,
}
use typemach.Memory.Finish.{finish_write}
use typemach.Memory.Commit.{write_checkpoint, write_events, end_run, commit_run}
use typemach.Memory.Leases.{reap_one, reap_ids, reap_stale, reap_run, push_lookup}
use typemach.Memory.Frame.{apply_entries-Frame}
use typemach.Memory.Checked.{CommitChecked-of_ok, written, commit_write_lem, written-Frame}
use typemach.Memory.Cases.Sessions.{ensured_cases}
use typemach.Memory.Cases.Start.{start_cases, claimed}
use typemach.Memory.Cases.Finish.{finish_cases, record_cases, cancel_cases}
use typemach.Memory.Cases.Commit.{commit_cases}
use typemach.Memory.Cases.Effects.{reserve_cases, start_effect_cases}
use typemach.Memory.Cases.Leases.{renew_cases, release_cases, reap_one_cases, renewed, released}
use typemach.Memory.Calls.{
  Call, ensures, starts, finishes, cancels, records, commits, reserves, begins, renews, releases,
  reaps, step, run_calls,
}
use typemach.Memory.Grows.Calls.{step-Grows}

module _ {P : Params} where
  write_events-keys :
      (c : RunCommit P) (run : MemoryRun P) (s : Inner P)
      → (write_events c run s).1.idempotency ≡ s.idempotency
  unfolding write_events end_run insert_run
  write_events-keys c run s = elim (Option-cases c.finish) [
    | inl open_still ↦ rw (open_still, write_events) refl
    | inr (finish, ends) ↦ elim (Option-cases (last c.events)) [
      | inl missing ↦ rw (ends, write_events, missing) refl
      | inr (event, found) ↦ rw (ends, write_events, found) refl
    ]
  ]

  write_checkpoint-keys :
      (w : Option (CheckpointWrite P.Value)) (s : Inner P)
      → (write_checkpoint w s).idempotency ≡ s.idempotency
  unfolding write_checkpoint
  write_checkpoint-keys none s = refl
  write_checkpoint-keys (some w) s = refl

  commit_run-keys :
      (clock : Clock) (c : RunCommit P) (s : Inner P)
      → (commit_run clock c s).1.idempotency ≡ s.idempotency
  commit_run-keys clock c s =
      commit_cases clock c s (λ x. x.1.idempotency ≡ s.idempotency) (λ r no. refl)
        λ scope run passes.
          let checked = CommitChecked-of_ok clock c run s passes.checked in
          rw (commit_write_lem clock scope c run s checked.effects) (
            write_events-keys c run (written clock scope c run s)
            ∙ (written-Frame clock scope c run s).idempotency
            ∙ write_checkpoint-keys c.checkpoint s)

  reap_ids-keys :
      (limit : ℕ) (build_event : ℕ → RunLookup → ℤ → P.Event) (now : ℕ) (ids : List RunId)
      (reaped : List RunLookup) (s : Inner P)
      → (reap_ids limit build_event now ids reaped s).1.idempotency ≡ s.idempotency
  unfolding reap_ids reap_run
  reap_ids-keys limit build_event now [] reaped s = refl
  reap_ids-keys limit build_event now (id ∷ ids) reaped s =
      let (r, t) = reap_one now (build_event (length reaped)) id s in
      let first : t.idempotency ≡ s.idempotency =
        reap_one_cases now (build_event (length reaped)) id s (λ x. x.1.idempotency ≡ s.idempotency)
          (λ e. refl) (λ quiet. refl) λ run found stale checked. refl in
      elim (Bool-cases (leb limit (length reaped))) [
        | inl full ↦ rw (full, reap_ids) refl
        | inr room ↦ elim (Result-cases r) [
          | inl (e, bad) ↦ rw (room, reap_ids, bad) first
          | inr (o, good) ↦
              rw (room, reap_ids, good)
                (reap_ids-keys limit build_event now ids (push_lookup reaped o) t ∙ first)
        ]
      ]

  -- The key names a run of the store, which was started by `run`.
  pub record KeyOf (key : String × SessionId × String) (run : RunStart P) (s : Inner P)
      : Type 0 where
    pub id : RunId
    pub named : get key s.idempotency ≡ some id
    pub found_run : MemoryRun P
    pub found : get id s.runs ≡ some found_run
    pub start : found_run.start ≡ run

  pub KeyOf-idempotent :
      (key : String × SessionId × String) (run : RunStart P) (s : Inner P) (k : KeyOf key run s)
      → idempotent_run (some key) s ≡ some k.found_run
  unfolding idempotent_run
  KeyOf-idempotent key run s k = rw (k.named, idempotent_run) k.found

  claimed-keys :
      (clock : Clock) (run : RunStart P) (claim : Option LeaseClaim) (s : Inner P)
      → (claimed clock run claim s).idempotency ≡ s.idempotency
  unfolding claimed
  claimed-keys clock run none s = refl
  claimed-keys clock run (some claim) s = refl

  -- A key that is put in beside one that names a run is another key.
  insert_key-keys :
      (key : String × SessionId × String) (other : Option (String × SessionId × String))
      (id : RunId) (run : RunStart P) (s : Inner P)
      → KeyOf key run s
      → idempotent_run other s ≡ none
      → get key (insert_key other id s).idempotency ≡ get key s.idempotency
  unfolding insert_key
  insert_key-keys key none id run s k unkeyed = refl
  insert_key-keys key (some other) id run s k unkeyed = elim (eq-cases key other) [
    | inl (_, same) ↦
        absurd
          (cc (KeyOf-idempotent key run s k, ap (λ x. idempotent_run (some x) s) same, unkeyed))
    | inr (_, apart) ↦ get-insert_ne key other id s.idempotency apart
  ]

  insert_key-same :
      (other : Option (String × SessionId × String)) (id : RunId) (s t : Inner P)
      → t.idempotency ≡ s.idempotency
      → (insert_key other id t).idempotency ≡ (insert_key other id s).idempotency
  unfolding insert_key
  insert_key-same none id s t same = same
  insert_key-same (some other) id s t same = ap (insert other id) same

  start_run-keys :
      (clock : Clock) (new run : RunStart P) (key : String × SessionId × String) (s : Inner P)
      → KeyOf key run s
      → get key (start_run clock new s).1.idempotency ≡ get key s.idempotency
  unfolding start_write insert_run open_session
  start_run-keys clock new run key s k =
      let t = open_session new.session_id new.scope s in
      let k' : KeyOf key run t = record {
        id = k.id;
        named = k.named;
        found_run = k.found_run;
        found = k.found;
        start = k.start;
      } in
      start_cases clock new s (λ x. get key x.1.idempotency ≡ get key s.idempotency) (λ r no. refl)
        λ scope sig passes.
          let other = idempotency_key scope new in
          let u = claimed clock new new.lease t in
          let w = insert_run new.run_id (new_run clock new) (insert_key other new.run_id u) in
          let entries =
            apply_entries-Frame (now_ms clock 0) scope new.run_id new.session_id new.thread_id
              new.entries w in
          let same = insert_key-same other new.run_id t u (claimed-keys clock new new.lease t) in
          ap (get key) (entries.idempotency ∙ same)
          ∙ insert_key-keys key other new.run_id run t k' passes.unkeyed

  step-keys :
      (call : Clock × Call P) (run : RunStart P) (key : String × SessionId × String) (s : Inner P)
      → KeyOf key run s
      → get key (step call s).idempotency ≡ get key s.idempotency
  unfolding step reap_stale finish_write insert_run renewed released
  step-keys (clock, ensures asked scope) run key s k =
      ensured_cases asked scope s (λ t. get key t.idempotency ≡ get key s.idempotency) refl
        λ id n. refl
  step-keys (clock, starts new) run key s k = start_run-keys clock new run key s k
  step-keys (clock, finishes finish) run key s k =
      finish_cases clock finish s (λ x. get key x.1.idempotency ≡ get key s.idempotency)
        (λ r no. refl)
        λ scope old passes.
          ap (get key)
            (apply_entries-Frame (now_ms clock 0) scope finish.run_id finish.session_id
              old.start.thread_id finish.entries s).idempotency
  step-keys (clock, cancels run_id scope) run key s k =
      cancel_cases run_id scope s (λ x. get key x.1.idempotency ≡ get key s.idempotency) (λ r. refl)
        λ old found. refl
  step-keys (clock, records run_id scope event) run key s k =
      record_cases run_id scope event s (λ x. get key x.1.idempotency ≡ get key s.idempotency)
        (λ r. refl) λ old shape found live checked. refl
  step-keys (clock, commits c) run key s k = ap (get key) (commit_run-keys clock c s)
  step-keys (clock, reserves run_id scope lease name kind request) run key s k =
      reserve_cases clock run_id scope lease name kind request s
        (λ x. get key x.1.idempotency ≡ get key s.idempotency) (λ e. refl) (λ old found same. refl)
        λ old admitted fresh. refl
  step-keys (clock, begins run_id scope lease name) run key s k =
      start_effect_cases clock run_id scope lease name s
        (λ x. get key x.1.idempotency ≡ get key s.idempotency) (λ e. refl) (λ old found done. refl)
        λ old e admitted found idle fresh. refl
  step-keys (clock, renews lease ttl) run key s k =
      renew_cases clock lease ttl s (λ x. get key x.1.idempotency ≡ get key s.idempotency) refl
        λ old active thread passes. refl
  step-keys (clock, releases lease) run key s k =
      release_cases lease s (λ x. get key x.1.idempotency ≡ get key s.idempotency) (λ free. refl)
        λ old found held. refl
  step-keys (clock, reaps limit build_event) run key s k =
      ap (get key) (reap_ids-keys limit build_event (clock.instant 0) (keys s.runs) [] s)

  step-KeyOf :
      (call : Clock × Call P) (run : RunStart P) (key : String × SessionId × String) (s : Inner P)
      → KeyOf key run s
      → KeyOf key run (step call s)
  step-KeyOf call run key s k =
      let (later, found, grows) = (step-Grows call s).runs k.id k.found_run k.found in
      record {
        id = k.id;
        named = step-keys call run key s k ∙ k.named;
        found_run = later;
        found = found;
        start = grows.start ∙ k.start;
      }

  pub run_calls-KeyOf :
      (calls : List (Clock × Call P)) (run : RunStart P) (key : String × SessionId × String)
      (s : Inner P)
      → KeyOf key run s
      → KeyOf key run (run_calls calls s)
  unfolding run_calls
  run_calls-KeyOf [] run key s k = k
  run_calls-KeyOf (call ∷ calls) run key s k =
      run_calls-KeyOf calls run key (step call s) (step-KeyOf call run key s k)
