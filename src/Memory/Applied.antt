-- ===== src/Memory/Applied.antt =====
-- All that `commit_run` of src/store/memory.rs has written when it says so.
use typemach.Base.{
  String, Option, none, some, true, All, ◌≡◌, refl, sym, ◌∙◌, inl, inr, Bool-cases, Option-cases,
  List, [], ◌∷◌, last, ◌&&◌,
}
use mathlib.Core.Path.{subst}
use typemach.Base.Int.{ℤ}
use typemach.Base.Eq.{string_eq, pair_eq, triple_eq}
use typemach.Base.Map.{get, insert}
use typemach.Run.{RunId, SessionId, ThreadId}
use typemach.Error.{ok, Result-cases}
use typemach.Op.{EffectUpdate, ItemWrite, EntryWrite, is_done}
use typemach.Params.{Params}
use typemach.Store.{RunCommit, CheckpointWrite}
use typemach.Memory.State.{Inner, MemoryRun, Clock, now_ms}
use typemach.Memory.Validate.{scope_key}
use typemach.Memory.Ops.{
  apply_effect_update, apply_effect_updates, apply_item, apply_items, apply_entry, apply_entries,
}
use typemach.Memory.Start.{insert_run}
use typemach.Memory.Commit.{commit_run, commit_write, write_checkpoint, write_events, end_run}
use typemach.Memory.Checked.{CommitChecked, CommitChecked-of_ok, written, commit_write_lem}
use typemach.Memory.Cases.Commit.{commit_cases, CommitPasses, wrote}
use typemach.Memory.Spared.{
  apply_items-effects, apply_entries-effects, write_events-effects, write_checkpoint-effects,
}
use typemach.Memory.Fits.{EffectFits, ItemFits, EntryFits, effects-fit, items-fit, entries-fit}
use typemach.Memory.Durable.{Wrote, commit_run-Wrote}

module _ {P : Params} where
  -- The items and the entries are the same.
  record SameOps (s t : Inner P) : Type 0 where
    items : t.items ≡ s.items
    entries : t.entries ≡ s.entries

  apply_effect_update-SameOps :
      (now : ℤ) (run_id : RunId) (u : EffectUpdate P.Value) (s : Inner P)
      → SameOps s (apply_effect_update now run_id u s).1
  unfolding apply_effect_update
  apply_effect_update-SameOps now run_id u s = elim (Option-cases (get (run_id, u.key) s.effects)) [
    | inl missing ↦ rw (missing, apply_effect_update) (record { items = refl; entries = refl })
    | inr (old, found) ↦ elim (Bool-cases (is_done old.status && is_done u.status)) [
      | inl again ↦ rw (found, apply_effect_update, again) (record { items = refl; entries = refl })
      | inr fresh ↦ rw (found, apply_effect_update, fresh) (record { items = refl; entries = refl })
    ]
  ]

  apply_effect_updates-SameOps :
      (now : ℤ) (run_id : RunId) (us : List (EffectUpdate P.Value)) (s : Inner P)
      → SameOps s (apply_effect_updates now run_id us s).1
  unfolding apply_effect_updates
  apply_effect_updates-SameOps now run_id [] s = record { items = refl; entries = refl }
  apply_effect_updates-SameOps now run_id (u ∷ us) s =
      let (r, t) = apply_effect_update now run_id u s in
      let first = apply_effect_update-SameOps now run_id u s in
      let rest = apply_effect_updates-SameOps now run_id us t in
      elim (Result-cases r) [
        | inl (e, bad) ↦ rw (bad, apply_effect_updates) first
        | inr (_, good) ↦
            rw (good, apply_effect_updates)
              (record { items = rest.items ∙ first.items; entries = rest.entries ∙ first.entries })
      ]

  write_checkpoint-SameOps :
      (w : Option (CheckpointWrite P.Value)) (s : Inner P) → SameOps s (write_checkpoint w s)
  unfolding write_checkpoint
  write_checkpoint-SameOps none s = record { items = refl; entries = refl }
  write_checkpoint-SameOps (some w) s = record { items = refl; entries = refl }

  apply_items-entries :
      (now : ℤ) (run_id : RunId) (items : List (ItemWrite P.Value)) (s : Inner P)
      → (apply_items now run_id items s).entries ≡ s.entries
  unfolding apply_items apply_item
  apply_items-entries now run_id [] s = refl
  apply_items-entries now run_id (item ∷ items) s =
      let rest = apply_items-entries now run_id items (apply_item now run_id item s) in
      elim (Option-cases (get (run_id, item.key) s.items)) [
        | inl fresh ↦ rest ∙ rw (fresh, apply_item) refl
        | inr (old, found) ↦ rest ∙ rw (found, apply_item) refl
      ]

  apply_entries-items :
      (now : ℤ) (scope : String) (run_id : RunId) (session : SessionId) (thread : ThreadId)
      (entries : List (EntryWrite P.Value)) (s : Inner P)
      → (apply_entries now scope run_id session thread entries s).items ≡ s.items
  unfolding apply_entries apply_entry
  apply_entries-items now scope run_id session thread [] s = refl
  apply_entries-items now scope run_id session thread (entry ∷ entries) s =
      let rest =
        apply_entries-items now scope run_id session thread entries
          (apply_entry now scope run_id session thread entry s) in
      elim (Option-cases (get (scope, session, entry.key) s.entries)) [
        | inl fresh ↦ rest ∙ rw (fresh, apply_entry) refl
        | inr (old, found) ↦ rest ∙ rw (found, apply_entry) refl
      ]

  write_events-SameOps :
      (c : RunCommit P) (run : MemoryRun P) (s : Inner P) → SameOps s (write_events c run s).1
  unfolding write_events end_run insert_run
  write_events-SameOps c run s = elim (Option-cases c.finish) [
    | inl open_still ↦ rw (open_still, write_events) (record { items = refl; entries = refl })
    | inr (finish, ends) ↦ elim (Option-cases (last c.events)) [
      | inl missing ↦ rw (ends, write_events, missing) (record { items = refl; entries = refl })
      | inr (event, found) ↦
          rw (ends, write_events, found) (record { items = refl; entries = refl })
    ]
  ]

  -- Each effect, item and entry that the commit names stands in the store as the commit says.
  pub record Stored (c : RunCommit P) (t : Inner P) : Type 0 where
    pub scope : String
    pub scoped : scope_key P c.scope ≡ ok scope
    pub effects : All (λ u. EffectFits u (get (c.run_id, u.key) t.effects)) c.effects
    pub items : All (λ w. ItemFits w (get (c.run_id, w.key) t.items)) c.items
    pub entries : All (λ w. EntryFits w (get (scope, c.session_id, w.key) t.entries)) c.entries

  module _ (clock : Clock) (c : RunCommit P) (s : Inner P) (scope : String) (run : MemoryRun P)
      (passes : CommitPasses clock c s scope run) where
    checked : CommitChecked clock c run s scope
    checked = CommitChecked-of_ok clock c run s passes.checked

    commit_write-Stored : Stored c (commit_write clock scope c run s).1
    unfolding written
    commit_write-Stored =
        let thread = run.start.thread_id in
        let t0 = write_checkpoint c.checkpoint s in
        let t1 = (apply_effect_updates (now_ms clock 0) c.run_id c.effects t0).1 in
        let t2 = apply_items (now_ms clock 1) c.run_id c.items t1 in
        let t3 = apply_entries (now_ms clock 2) scope c.run_id c.session_id thread c.entries t2 in
        let t4 = (write_events c run t3).1 in
        let ops0 = write_checkpoint-SameOps c.checkpoint s in
        let ops1 = apply_effect_updates-SameOps (now_ms clock 0) c.run_id c.effects t0 in
        let ops4 = write_events-SameOps c run t3 in
        let effects : t4.effects ≡ t1.effects =
          write_events-effects c run t3
          ∙ apply_entries-effects (now_ms clock 2) scope c.run_id c.session_id thread c.entries t2
          ∙ apply_items-effects (now_ms clock 1) c.run_id c.items t1 in
        let items : t4.items ≡ t2.items =
          ops4.items
          ∙ apply_entries-items (now_ms clock 2) scope c.run_id c.session_id thread c.entries t2 in
        let entries_before : t2.entries ≡ s.entries =
          apply_items-entries (now_ms clock 1) c.run_id c.items t1 ∙ ops1.entries ∙ ops0.entries in
        rw (commit_write_lem clock scope c run s checked.effects) (record {
          scope = scope;
          scoped = checked.scoped;
          effects =
              subst (λ m. All (λ u. EffectFits u (get (c.run_id, u.key) m)) c.effects) (sym effects)
                (effects-fit (now_ms clock 0) c.run_id c.effects s t0 checked.effects
                  (write_checkpoint-effects c.checkpoint s));
          items =
              subst (λ m. All (λ w. ItemFits w (get (c.run_id, w.key) m)) c.items) (sym items)
                (items-fit (now_ms clock 1) c.run_id c.items s t1 checked.items
                  (ops1.items ∙ ops0.items));
          entries =
              subst (λ m. All (λ w. EntryFits w (get (scope, c.session_id, w.key) m)) c.entries)
                (sym ops4.entries)
                (entries-fit (now_ms clock 2) scope c.run_id c.session_id thread c.entries s t2
                  checked.entries entries_before);
        })

  -- The checkpoint of the commit is its thread's, and the others stay.
  abbrev pub Saved : Option (CheckpointWrite P.Value) → Inner P → Inner P → Type 0
  Saved none s t = t.checkpoints ≡ s.checkpoints
  Saved (some w) s t = t.checkpoints ≡ insert w.thread_id w.checkpoint s.checkpoints

  saved_lem :
      (w : Option (CheckpointWrite P.Value)) (s t : Inner P)
      → t.checkpoints ≡ (write_checkpoint w s).checkpoints
      → Saved w s t
  unfolding write_checkpoint
  saved_lem none s t h = h
  saved_lem (some w) s t h = h

  -- The checkpoint, the events and the end of the run, and what the commit names besides.
  pub record Applied (c : RunCommit P) (s t : Inner P) : Type 0 where
    pub wrote_run : Wrote c s t
    pub checkpoint : Saved c.checkpoint s t
    pub stored : Stored c t

  pub commit_run-Applied :
      (clock : Clock) (c : RunCommit P) (s : Inner P)
      → wrote (commit_run clock c s).0 ≡ true
      → Applied c s (commit_run clock c s).1
  commit_run-Applied clock c s h = record {
    wrote_run = commit_run-Wrote clock c s h;
    checkpoint =
        saved_lem c.checkpoint s (commit_run clock c s).1
          (commit_run-Wrote clock c s h).checkpoints;
    stored =
        commit_cases clock c s (λ x. wrote x.0 ≡ true → Stored c x.1) (λ r no h'. absurd (cc))
          (λ scope run passes _. commit_write-Stored clock c s scope run passes) h;
  }
