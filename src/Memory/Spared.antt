-- ===== src/Memory/Spared.antt =====
-- The calls of src/store/memory.rs that leave an effect alone which has been started.
use typemach.Base.{
  ℕ, String, Option, none, some, Bool, true, false, List, [], ◌∷◌, any, ◌&&◌, All, ◌≡◌, ◌≢◌, refl,
  sym, last, ap, ◌∙◌, inl, inr, Bool-cases, Option-cases, length, leb, arith,
}
use typemach.Base.Int.{ℤ}
use typemach.Base.Eq.{◌=?◌, string_eq, pair_eq, triple_eq}
use typemach.Base.Map.{get, get-insert_ne, get_unique, keys}
use typemach.Run.{RunId, SessionId, ThreadId, LeaseId}
use typemach.Error.{Result-cases}
use typemach.Op.{Effect, EffectUpdate, ItemWrite, EntryWrite, is_blocking, is_done}
use typemach.Params.{Params}
use typemach.Store.{RunLookup, RunCommit, RunStart, LeaseClaim, CheckpointWrite}
use typemach.Memory.State.{Inner, MemoryRun, Clock, now_ms}
use typemach.Memory.Ops.{
  apply_effect_update, apply_effect_updates, apply_item, apply_items, apply_entry, apply_entries,
}
use typemach.Memory.Start.{
  start_write, insert_key, insert_run, open_session, idempotency_key, new_run,
}
use typemach.Memory.Finish.{finish_write}
use typemach.Memory.Effects.{reserve_effect, start_effect}
use typemach.Memory.Leases.{reap_one, reap_ids, reap_stale, reap_run, push_lookup}
use typemach.Memory.Commit.{write_checkpoint, write_events, end_run, commit_run}
use typemach.Memory.Checked.{CommitChecked-of_ok, written, commit_write_lem}
use typemach.Memory.Cases.Sessions.{ensured_cases}
use typemach.Memory.Cases.Start.{start_cases, claimed}
use typemach.Memory.Cases.Finish.{finish_cases, record_cases, cancel_cases}
use typemach.Memory.Cases.Commit.{commit_cases}
use typemach.Memory.Cases.Effects.{reserve_cases, start_effect_cases}
use typemach.Memory.Cases.Leases.{renew_cases, release_cases, reap_one_cases, renewed, released}
use typemach.Memory.Calls.{
  Call, ensures, starts, finishes, cancels, records, commits, reserves, begins, renews, releases,
  reaps, step, run_calls,
}

module _ {V : Type 0} where
  -- The update is of another effect.
  abbrev IsOther : RunId × String → RunId → EffectUpdate V → Type 0
  IsOther k run_id u = k ≢ (run_id, u.key)

  apart :
      (run_id id : RunId) (key : String) (us : List (EffectUpdate V))
      → (id =? run_id && any (λ u. u.key =? key) us) ≡ false
      → All (IsOther (run_id, key) id) us
  apart run_id id key [] h = tt
  apart run_id id key (u ∷ us) h = (
    λ p.
        let same_run = (string_eq.beq_iff id run_id).1 (sym (ap (λ x. x.0) p)) in
        let same_key = (string_eq.beq_iff u.key key).1 (sym (ap (λ x. x.1) p)) in ground arith,
    apart run_id id key us (ground arith),
  )

module _ {P : Params} where
  -- The call is a commit with an update of this effect.
  unfoldable pub settles : RunId → String → Call P → Bool
  settles run_id key (commits c) = c.run_id =? run_id && any (λ u. u.key =? key) c.effects
  settles run_id key call = false

  pub apply_items-effects :
      (now : ℤ) (run_id : RunId) (items : List (ItemWrite P.Value)) (s : Inner P)
      → (apply_items now run_id items s).effects ≡ s.effects
  unfolding apply_items apply_item
  apply_items-effects now run_id [] s = refl
  apply_items-effects now run_id (item ∷ items) s =
      let rest = apply_items-effects now run_id items (apply_item now run_id item s) in
      elim (Option-cases (get (run_id, item.key) s.items)) [
        | inl fresh ↦ rest ∙ rw (fresh, apply_item) refl
        | inr (old, found) ↦ rest ∙ rw (found, apply_item) refl
      ]

  pub apply_entries-effects :
      (now : ℤ) (scope : String) (run_id : RunId) (session : SessionId) (thread : ThreadId)
      (entries : List (EntryWrite P.Value)) (s : Inner P)
      → (apply_entries now scope run_id session thread entries s).effects ≡ s.effects
  unfolding apply_entries apply_entry
  apply_entries-effects now scope run_id session thread [] s = refl
  apply_entries-effects now scope run_id session thread (entry ∷ entries) s =
      let rest =
        apply_entries-effects now scope run_id session thread entries
          (apply_entry now scope run_id session thread entry s) in
      elim (Option-cases (get (scope, session, entry.key) s.entries)) [
        | inl fresh ↦ rest ∙ rw (fresh, apply_entry) refl
        | inr (old, found) ↦ rest ∙ rw (found, apply_entry) refl
      ]

  insert_key-effects :
      (key : Option (String × SessionId × String)) (run_id : RunId) (s : Inner P)
      → (insert_key key run_id s).effects ≡ s.effects
  unfolding insert_key
  insert_key-effects none run_id s = refl
  insert_key-effects (some key) run_id s = refl

  claimed-effects :
      (clock : Clock) (run : RunStart P) (claim : Option LeaseClaim) (s : Inner P)
      → (claimed clock run claim s).effects ≡ s.effects
  unfolding claimed
  claimed-effects clock run none s = refl
  claimed-effects clock run (some claim) s = refl

  start_write-effects :
      (clock : Clock) (scope : String) (run : RunStart P) (claim : Option LeaseClaim) (s : Inner P)
      → (start_write clock scope run (claimed clock run claim s)).effects ≡ s.effects
  unfolding start_write insert_run
  start_write-effects clock scope run claim s =
      let t = claimed clock run claim s in
      let key = idempotency_key scope run in
      apply_entries-effects (now_ms clock 0) scope run.run_id run.session_id run.thread_id
        run.entries (insert_run run.run_id (new_run clock run) (insert_key key run.run_id t))
      ∙ insert_key-effects key run.run_id t
      ∙ claimed-effects clock run claim s

  pub apply_effect_update-apart :
      (now : ℤ) (run_id : RunId) (u : EffectUpdate P.Value) (s : Inner P) (k : RunId × String)
      → k ≢ (run_id, u.key)
      → get k (apply_effect_update now run_id u s).1.effects ≡ get k s.effects
  unfolding apply_effect_update
  apply_effect_update-apart now run_id u s k other =
      elim (Option-cases (get (run_id, u.key) s.effects)) [
        | inl missing ↦ rw (missing, apply_effect_update) refl
        | inr (old, found) ↦ elim (Bool-cases (is_done old.status && is_done u.status)) [
          | inl again ↦ rw (found, apply_effect_update, again) refl
          | inr fresh ↦
              rw (found, apply_effect_update, fresh)
                (get-insert_ne k (run_id, u.key) _ s.effects other)
        ]
      ]

  apply_effect_updates-apart :
      (now : ℤ) (run_id : RunId) (us : List (EffectUpdate P.Value)) (s : Inner P)
      (k : RunId × String)
      → All (IsOther k run_id) us
      → get k (apply_effect_updates now run_id us s).1.effects ≡ get k s.effects
  unfolding apply_effect_updates
  apply_effect_updates-apart now run_id [] s k others = refl
  apply_effect_updates-apart now run_id (u ∷ us) s k others =
      let (r, t) = apply_effect_update now run_id u s in
      let first = apply_effect_update-apart now run_id u s k others.0 in
      elim (Result-cases r) [
        | inl (e, bad) ↦ rw (bad, apply_effect_updates) first
        | inr (_, good) ↦
            rw (good, apply_effect_updates)
              (apply_effect_updates-apart now run_id us t k others.1 ∙ first)
      ]

  pub write_checkpoint-effects :
      (w : Option (CheckpointWrite P.Value)) (s : Inner P)
      → (write_checkpoint w s).effects ≡ s.effects
  unfolding write_checkpoint
  write_checkpoint-effects none s = refl
  write_checkpoint-effects (some w) s = refl

  written-apart :
      (clock : Clock) (scope : String) (c : RunCommit P) (run : MemoryRun P) (s : Inner P)
      (k : RunId × String)
      → All (IsOther k c.run_id) c.effects
      → get k (written clock scope c run s).effects ≡ get k s.effects
  unfolding written
  written-apart clock scope c run s k others =
      let t = write_checkpoint c.checkpoint s in
      let u = (apply_effect_updates (now_ms clock 0) c.run_id c.effects t).1 in
      ap (get k) (
        apply_entries-effects (now_ms clock 2) scope c.run_id c.session_id run.start.thread_id
          c.entries (apply_items (now_ms clock 1) c.run_id c.items u)
        ∙ apply_items-effects (now_ms clock 1) c.run_id c.items u)
      ∙ apply_effect_updates-apart (now_ms clock 0) c.run_id c.effects t k others
      ∙ ap (get k) (write_checkpoint-effects c.checkpoint s)

  pub write_events-effects :
      (c : RunCommit P) (run : MemoryRun P) (s : Inner P)
      → (write_events c run s).1.effects ≡ s.effects
  unfolding write_events end_run insert_run
  write_events-effects c run s = elim (Option-cases c.finish) [
    | inl open_still ↦ rw (open_still, write_events) refl
    | inr (finish, ends) ↦ elim (Option-cases (last c.events)) [
      | inl missing ↦ rw (ends, write_events, missing) refl
      | inr (event, found) ↦ rw (ends, write_events, found) refl
    ]
  ]

  reap_ids-effects :
      (limit : ℕ) (build_event : ℕ → RunLookup → ℤ → P.Event) (now : ℕ) (ids : List RunId)
      (reaped : List RunLookup) (s : Inner P)
      → (reap_ids limit build_event now ids reaped s).1.effects ≡ s.effects
  unfolding reap_ids reap_run
  reap_ids-effects limit build_event now [] reaped s = refl
  reap_ids-effects limit build_event now (id ∷ ids) reaped s =
      let (r, t) = reap_one now (build_event (length reaped)) id s in
      let first : t.effects ≡ s.effects =
        reap_one_cases now (build_event (length reaped)) id s (λ x. x.1.effects ≡ s.effects)
          (λ e. refl) (λ quiet. refl) λ run found stale checked. refl in
      elim (Bool-cases (leb limit (length reaped))) [
        | inl full ↦ rw (full, reap_ids) refl
        | inr room ↦ elim (Result-cases r) [
          | inl (e, bad) ↦ rw (room, reap_ids, bad) first
          | inr (o, good) ↦
              rw (room, reap_ids, good)
                (reap_ids-effects limit build_event now ids (push_lookup reaped o) t ∙ first)
        ]
      ]

  module _ (run_id : RunId) (key : String) (e : Effect P.Value) where
    abbrev Held : Inner P → Type 0
    Held s = get (run_id, key) s.effects ≡ some e

    reserve-Held :
        (clock : Clock) (id : RunId) (scope : P.Scope) (lease : Option LeaseId)
        (other kind : String) (request : P.Value) (s : Inner P)
        → Held s
        → Held (reserve_effect clock id scope lease other kind request s).1
    reserve-Held clock id scope lease other kind request s h =
        reserve_cases clock id scope lease other kind request s (λ x. Held x.1) (λ _. h)
          (λ old found same. h)
          λ run admitted fresh.
            get-insert_ne (run_id, key) (id, other) _ s.effects
              (λ p. absurd (cc (ap (λ k. get k s.effects) p)))
            ∙ h

    start-Held :
        (clock : Clock) (id : RunId) (scope : P.Scope) (lease : Option LeaseId) (other : String)
        (s : Inner P)
        → is_blocking e.status ≡ true
        → Held s
        → Held (start_effect clock id scope lease other s).1
    start-Held clock id scope lease other s blocks h =
        start_effect_cases clock id scope lease other s (λ x. Held x.1) (λ _. h)
          (λ old found done. h)
          λ run old admitted found idle fresh.
            get-insert_ne (run_id, key) (id, other) _ s.effects
              (λ p.
                let same : e ≡ old = get_unique s.effects h found p in
                absurd (cc (ap (λ x. is_blocking x.status) same)))
            ∙ h

    commit-Held :
        (clock : Clock) (c : RunCommit P) (s : Inner P)
        → settles run_id key (commits c) ≡ false
        → Held s
        → Held (commit_run clock c s).1
    unfolding settles
    commit-Held clock c s spares h =
        commit_cases clock c s (λ x. Held x.1) (λ r _. h)
          λ scope run passes.
            let checked = CommitChecked-of_ok clock c run s passes.checked in
            rw (commit_write_lem clock scope c run s checked.effects) (
              ap (get (run_id, key)) (write_events-effects c run (written clock scope c run s))
              ∙ written-apart clock scope c run s (run_id, key)
                  (apart run_id c.run_id key c.effects spares)
              ∙ h)

    -- An effect that blocks stays as it is unless a commit settles it.
    step-Held :
        (call : Clock × Call P) (s : Inner P)
        → is_blocking e.status ≡ true
        → settles run_id key call.1 ≡ false
        → Held s
        → Held (step call s)
    unfolding step reap_stale insert_run renewed released finish_write open_session
    step-Held (clock, ensures asked scope) s blocks spares h =
        ensured_cases asked scope s Held h λ id n. h
    step-Held (clock, starts run) s blocks spares h =
        start_cases clock run s (λ x. Held x.1) (λ r _. h)
          λ scope sig passes.
            ap (get (run_id, key)) (
              start_write-effects clock scope run run.lease
                (open_session run.session_id run.scope s))
            ∙ h
    step-Held (clock, finishes finish) s blocks spares h =
        finish_cases clock finish s (λ x. Held x.1) (λ r _. h)
          λ scope run passes.
            ap (get (run_id, key)) (
              apply_entries-effects (now_ms clock 0) scope finish.run_id finish.session_id
                run.start.thread_id finish.entries s)
            ∙ h
    step-Held (clock, cancels id scope) s blocks spares h =
        cancel_cases id scope s (λ x. Held x.1) (λ r. h) λ run found. h
    step-Held (clock, records id scope event) s blocks spares h =
        record_cases id scope event s (λ x. Held x.1) (λ r. h) λ run shape found live checked. h
    step-Held (clock, commits c) s blocks spares h = commit-Held clock c s spares h
    step-Held (clock, reserves id scope lease other kind request) s blocks spares h =
        reserve-Held clock id scope lease other kind request s h
    step-Held (clock, begins id scope lease other) s blocks spares h =
        start-Held clock id scope lease other s blocks h
    step-Held (clock, renews lease ttl) s blocks spares h =
        renew_cases clock lease ttl s (λ x. Held x.1) h λ run active thread passes. h
    step-Held (clock, releases lease) s blocks spares h =
        release_cases lease s (λ x. Held x.1) (λ free. h) λ run found held. h
    step-Held (clock, reaps limit build_event) s blocks spares h =
        ap (get (run_id, key))
          (reap_ids-effects limit build_event (clock.instant 0) (keys s.runs) [] s)
        ∙ h

    pub run_calls-Held :
        (calls : List (Clock × Call P)) (s : Inner P)
        → is_blocking e.status ≡ true
        → All (λ call. settles run_id key call.1 ≡ false) calls
        → get (run_id, key) s.effects ≡ some e
        → get (run_id, key) (run_calls calls s).effects ≡ some e
    unfolding run_calls
    run_calls-Held [] s blocks spare h = h
    run_calls-Held (call ∷ calls) s blocks spare h =
        run_calls-Held calls (step call s) blocks spare.1 (step-Held call s blocks spare.0 h)
