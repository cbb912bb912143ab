-- ===== src/Memory/Frame.antt =====
-- What the writes of effects, items and entries leave alone.
use typemach.Base.{
  String, Option, none, some, List, [], ◌∷◌, ◌≡◌, refl, inl, inr, ◌∙◌, Option-cases, Bool-cases,
  ◌&&◌,
}
use typemach.Base.Int.{ℤ}
use typemach.Base.Eq.{string_eq, pair_eq, triple_eq}
use typemach.Base.Map.{get}
use typemach.Run.{RunId, SessionId, ThreadId}
use typemach.Error.{Result-cases}
use typemach.Op.{EffectUpdate, ItemWrite, EntryWrite, is_done}
use typemach.Params.{Params}
use typemach.Store.{CheckpointWrite}
use typemach.Memory.State.{Inner}
use typemach.Memory.Start.{insert_key}
use typemach.Memory.Commit.{write_checkpoint}
use typemach.Memory.Ops.{
  apply_effect_update, apply_effect_updates, apply_item, apply_items, apply_entry, apply_entries,
}

-- The runs, the leases and the sessions are the same.
pub record SameRuns {P : Params} (s t : Inner P) : Type 0 where
  pub runs : t.runs ≡ s.runs
  pub thread_leases : t.thread_leases ≡ s.thread_leases
  pub sessions : t.sessions ≡ s.sessions

-- So are the checkpoints and the clients' keys.
pub record Frame {P : Params} (s t : Inner P) : Type 0 where
  pub same : SameRuns s t
  pub checkpoints : t.checkpoints ≡ s.checkpoints
  pub idempotency : t.idempotency ≡ s.idempotency

module _ {P : Params} where
  pub SameRuns-refl : (s : Inner P) → SameRuns s s
  SameRuns-refl s = record { runs = refl; thread_leases = refl; sessions = refl }

  pub SameRuns-trans : (s t u : Inner P) → SameRuns s t → SameRuns t u → SameRuns s u
  SameRuns-trans s t u f g = record {
    runs = g.runs ∙ f.runs;
    thread_leases = g.thread_leases ∙ f.thread_leases;
    sessions = g.sessions ∙ f.sessions;
  }

  Frame-refl : (s : Inner P) → Frame s s
  Frame-refl s = record { same = SameRuns-refl s; checkpoints = refl; idempotency = refl }

  pub Frame-trans : (s t u : Inner P) → Frame s t → Frame t u → Frame s u
  Frame-trans s t u f g = record {
    same = SameRuns-trans s t u f.same g.same;
    checkpoints = g.checkpoints ∙ f.checkpoints;
    idempotency = g.idempotency ∙ f.idempotency;
  }

  pub insert_key-SameRuns :
      (key : Option (String × SessionId × String)) (run_id : RunId) (s : Inner P)
      → SameRuns s (insert_key key run_id s)
  unfolding insert_key
  insert_key-SameRuns none run_id s = SameRuns-refl s
  insert_key-SameRuns (some key) run_id s = record {
    runs = refl;
    thread_leases = refl;
    sessions = refl;
  }

  pub write_checkpoint-SameRuns :
      (w : Option (CheckpointWrite P.Value)) (s : Inner P) → SameRuns s (write_checkpoint w s)
  unfolding write_checkpoint
  write_checkpoint-SameRuns none s = SameRuns-refl s
  write_checkpoint-SameRuns (some w) s = record {
    runs = refl;
    thread_leases = refl;
    sessions = refl;
  }

  apply_item-Frame :
      (now : ℤ) (run_id : RunId) (item : ItemWrite P.Value) (s : Inner P)
      → Frame s (apply_item now run_id item s)
  unfolding apply_item
  apply_item-Frame now run_id item s = elim (Option-cases (get (run_id, item.key) s.items)) [
    | inl fresh ↦
        rw (fresh, apply_item)
          (record {
            same = record { runs = refl; thread_leases = refl; sessions = refl };
            checkpoints = refl;
            idempotency = refl;
          })
    | inr (old, found) ↦ rw (found, apply_item) (Frame-refl s)
  ]

  pub apply_items-Frame :
      (now : ℤ) (run_id : RunId) (items : List (ItemWrite P.Value)) (s : Inner P)
      → Frame s (apply_items now run_id items s)
  unfolding apply_items
  apply_items-Frame now run_id [] s = Frame-refl s
  apply_items-Frame now run_id (item ∷ items) s =
      Frame-trans s _ _ (apply_item-Frame now run_id item s)
        (apply_items-Frame now run_id items (apply_item now run_id item s))

  apply_entry-Frame :
      (now : ℤ) (scope : String) (run_id : RunId) (session : SessionId) (thread : ThreadId)
      (entry : EntryWrite P.Value) (s : Inner P)
      → Frame s (apply_entry now scope run_id session thread entry s)
  unfolding apply_entry
  apply_entry-Frame now scope run_id session thread entry s =
      elim (Option-cases (get (scope, session, entry.key) s.entries)) [
        | inl fresh ↦
            rw (fresh, apply_entry)
              (record {
                same = record { runs = refl; thread_leases = refl; sessions = refl };
                checkpoints = refl;
                idempotency = refl;
              })
        | inr (old, found) ↦ rw (found, apply_entry) (Frame-refl s)
      ]

  pub apply_entries-Frame :
      (now : ℤ) (scope : String) (run_id : RunId) (session : SessionId) (thread : ThreadId)
      (entries : List (EntryWrite P.Value)) (s : Inner P)
      → Frame s (apply_entries now scope run_id session thread entries s)
  unfolding apply_entries
  apply_entries-Frame now scope run_id session thread [] s = Frame-refl s
  apply_entries-Frame now scope run_id session thread (entry ∷ entries) s =
      Frame-trans s _ _ (apply_entry-Frame now scope run_id session thread entry s) (
        apply_entries-Frame now scope run_id session thread entries
          (apply_entry now scope run_id session thread entry s))

  apply_effect_update-Frame :
      (now : ℤ) (run_id : RunId) (u : EffectUpdate P.Value) (s : Inner P)
      → Frame s (apply_effect_update now run_id u s).1
  unfolding apply_effect_update
  apply_effect_update-Frame now run_id u s = elim (Option-cases (get (run_id, u.key) s.effects)) [
    | inl missing ↦ rw (missing, apply_effect_update) (Frame-refl s)
    | inr (old, found) ↦ elim (Bool-cases (is_done old.status && is_done u.status)) [
      | inl again ↦ rw (found, apply_effect_update, again) (Frame-refl s)
      | inr fresh ↦
          rw (found, apply_effect_update, fresh)
            (record {
              same = record { runs = refl; thread_leases = refl; sessions = refl };
              checkpoints = refl;
              idempotency = refl;
            })
    ]
  ]

  pub apply_effect_updates-Frame :
      (now : ℤ) (run_id : RunId) (us : List (EffectUpdate P.Value)) (s : Inner P)
      → Frame s (apply_effect_updates now run_id us s).1
  unfolding apply_effect_updates
  apply_effect_updates-Frame now run_id [] s = Frame-refl s
  apply_effect_updates-Frame now run_id (u ∷ us) s =
      let (r, t) = apply_effect_update now run_id u s in
      let first = apply_effect_update-Frame now run_id u s in
      let rest = apply_effect_updates-Frame now run_id us t in
      elim (Result-cases r) [
        | inl (e, bad) ↦ rw (bad, apply_effect_updates) first
        | inr (_, good) ↦ rw (good, apply_effect_updates) (Frame-trans s t _ first rest)
      ]
