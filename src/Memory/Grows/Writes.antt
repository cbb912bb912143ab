-- ===== src/Memory/Grows/Writes.antt =====
-- The writes that the calls are made of, one lemma for each.
use typemach.Base.{String, Option, none, some, List, [], ◌∷◌, ◌≡◌, refl, inl, inr, Option-cases}
use typemach.Base.Int.{ℤ}
use typemach.Base.Eq.{string_eq, pair_eq, triple_eq}
use typemach.Base.Map.{get, insert}
use typemach.Base.Grow.{
  MapGrows, MapGrows-refl, MapGrows-insert, MapGrows-insert_new, MapGrows-or_insert, Same,
}
use typemach.Run.{RunId, SessionId, ThreadId}
use typemach.Op.{ItemWrite, EntryWrite}
use typemach.Params.{Params}
use typemach.Store.{CheckpointWrite}
use typemach.Memory.State.{Inner, MemoryRun}
use typemach.Memory.Ops.{apply_item, apply_items, new_item, apply_entry, apply_entries}
use typemach.Memory.Start.{open_session, insert_run, insert_key}
use typemach.Memory.Commit.{write_checkpoint}
use typemach.Memory.Grows.{
  RunGrows, RunGrows-refl, EffectGrows, EffectGrows-refl, Grows, Grows-refl, Grows-trans,
}

module _ {P : Params} where
  -- A state that differs in its runs, and in what `Grows` does not speak of.
  pub Grows-runs :
      (s t : Inner P)
      → t.sessions ≡ s.sessions
      → t.entries ≡ s.entries
      → t.effects ≡ s.effects
      → t.items ≡ s.items
      → MapGrows RunGrows s.runs t.runs
      → Grows s t
  Grows-runs s t sessions entries effects items runs = record {
    sessions = rw sessions (MapGrows-refl Same (λ _. refl) s.sessions);
    runs = runs;
    entries = rw entries (MapGrows-refl Same (λ _. refl) s.entries);
    effects = rw effects (MapGrows-refl EffectGrows EffectGrows-refl s.effects);
    items = rw items (MapGrows-refl Same (λ _. refl) s.items);
  }

  pub MapGrows-run :
      (s : Inner P) (run_id : RunId) {a : MemoryRun P} (b : MemoryRun P)
      → get run_id s.runs ≡ some a
      → RunGrows a b
      → MapGrows RunGrows s.runs (insert run_id b s.runs)
  MapGrows-run s run_id {a} b found grows =
      MapGrows-insert RunGrows RunGrows-refl run_id b s.runs
        (λ v h. let same : v ≡ a = cc in rw same grows)

  pub insert_run-Grows :
      (s : Inner P) (run_id : RunId) {a : MemoryRun P} (b : MemoryRun P)
      → get run_id s.runs ≡ some a
      → RunGrows a b
      → Grows s (insert_run run_id b s)
  unfolding insert_run
  insert_run-Grows s run_id b found grows =
      Grows-runs s _ refl refl refl refl (MapGrows-run s run_id b found grows)

  pub insert_run_new-Grows :
      (s : Inner P) (run_id : RunId) (b : MemoryRun P)
      → get run_id s.runs ≡ none
      → Grows s (insert_run run_id b s)
  unfolding insert_run
  insert_run_new-Grows s run_id b fresh =
      Grows-runs s _ refl refl refl refl
        (MapGrows-insert RunGrows RunGrows-refl run_id b s.runs (λ v h. absurd (cc)))

  pub open_session-Grows :
      (session : SessionId) (scope : P.Scope) (s : Inner P) → Grows s (open_session session scope s)
  unfolding open_session
  open_session-Grows session scope s = record {
    sessions = MapGrows-or_insert session scope s.sessions;
    runs = MapGrows-refl RunGrows RunGrows-refl s.runs;
    entries = MapGrows-refl Same (λ _. refl) s.entries;
    effects = MapGrows-refl EffectGrows EffectGrows-refl s.effects;
    items = MapGrows-refl Same (λ _. refl) s.items;
  }

  pub insert_key-Grows :
      (key : Option (String × SessionId × String)) (run_id : RunId) (s : Inner P)
      → Grows s (insert_key key run_id s)
  unfolding insert_key
  insert_key-Grows none run_id s = Grows-refl s
  insert_key-Grows (some key) run_id s =
      Grows-runs s _ refl refl refl refl (MapGrows-refl RunGrows RunGrows-refl s.runs)

  pub write_checkpoint-Grows :
      (w : Option (CheckpointWrite P.Value)) (s : Inner P) → Grows s (write_checkpoint w s)
  unfolding write_checkpoint
  write_checkpoint-Grows none s = Grows-refl s
  write_checkpoint-Grows (some w) s =
      Grows-runs s _ refl refl refl refl (MapGrows-refl RunGrows RunGrows-refl s.runs)

  pub apply_item-Grows :
      (now : ℤ) (run_id : RunId) (item : ItemWrite P.Value) (s : Inner P)
      → Grows s (apply_item now run_id item s)
  unfolding apply_item
  apply_item-Grows now run_id item s = elim (Option-cases (get (run_id, item.key) s.items)) [
    | inl fresh ↦
        rw (fresh, apply_item)
          (record {
            sessions = MapGrows-refl Same (λ _. refl) s.sessions;
            runs = MapGrows-refl RunGrows RunGrows-refl s.runs;
            entries = MapGrows-refl Same (λ _. refl) s.entries;
            effects = MapGrows-refl EffectGrows EffectGrows-refl s.effects;
            items = MapGrows-insert_new (run_id, item.key) (new_item now run_id item) s.items fresh;
          })
    | inr (old, found) ↦ rw (found, apply_item) (Grows-refl s)
  ]

  pub apply_items-Grows :
      (now : ℤ) (run_id : RunId) (items : List (ItemWrite P.Value)) (s : Inner P)
      → Grows s (apply_items now run_id items s)
  unfolding apply_items
  apply_items-Grows now run_id [] s = Grows-refl s
  apply_items-Grows now run_id (item ∷ items) s =
      Grows-trans s _ _ (apply_item-Grows now run_id item s)
        (apply_items-Grows now run_id items (apply_item now run_id item s))

  pub apply_entry-Grows :
      (now : ℤ) (scope : String) (run_id : RunId) (session : SessionId) (thread : ThreadId)
      (entry : EntryWrite P.Value) (s : Inner P)
      → Grows s (apply_entry now scope run_id session thread entry s)
  unfolding apply_entry
  apply_entry-Grows now scope run_id session thread entry s =
      elim (Option-cases (get (scope, session, entry.key) s.entries)) [
        | inl fresh ↦
            rw (fresh, apply_entry)
              (record {
                sessions = MapGrows-refl Same (λ _. refl) s.sessions;
                runs = MapGrows-refl RunGrows RunGrows-refl s.runs;
                entries = MapGrows-insert_new (scope, session, entry.key) _ s.entries fresh;
                effects = MapGrows-refl EffectGrows EffectGrows-refl s.effects;
                items = MapGrows-refl Same (λ _. refl) s.items;
              })
        | inr (old, found) ↦ rw (found, apply_entry) (Grows-refl s)
      ]

  pub apply_entries-Grows :
      (now : ℤ) (scope : String) (run_id : RunId) (session : SessionId) (thread : ThreadId)
      (entries : List (EntryWrite P.Value)) (s : Inner P)
      → Grows s (apply_entries now scope run_id session thread entries s)
  unfolding apply_entries
  apply_entries-Grows now scope run_id session thread [] s = Grows-refl s
  apply_entries-Grows now scope run_id session thread (entry ∷ entries) s =
      Grows-trans s _ _ (apply_entry-Grows now scope run_id session thread entry s) (
        apply_entries-Grows now scope run_id session thread entries
          (apply_entry now scope run_id session thread entry s))
