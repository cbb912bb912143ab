-- ===== src/Runtime/Saver.antt =====
-- `TxSaver` of src/runtime/tx.rs: the records that a runner has saved and no commit has taken yet.
use typemach.Base.{Option, none, some, List, [], ◌∷◌, ◌++◌}
use typemach.Base.Eq.{string_eq}
use typemach.Base.Map.{Map, get, insert, remove}
use typemach.Run.{ThreadId}
use typemach.Error.{Result, ok}
use typemach.Checkpoint.{CheckpointRecord}
use typemach.Checkpoint.Saver.{CheckpointSaver}
use typemach.Store.{CheckpointWrite}

-- `inner` is the store, of which `load_checkpoint` is asked.
pub record TxSaver (V W : Type 0) : Type 0 where
  pub inner : W
  pub pending : Map ThreadId (List (CheckpointRecord V))

module _ {V W : Type 0} where
  abbrev pub queue_of : ThreadId → TxSaver V W → List (CheckpointRecord V)
  queue_of thread_id s = elim (get thread_id s.pending) [ none ↦ [] | some queue ↦ queue ]

  unfoldable pub save :
      ThreadId → CheckpointRecord V → TxSaver V W → Result (Unit {0}) × TxSaver V W
  save thread_id checkpoint s = (
    ok tt,
    record s { pending = insert thread_id (queue_of thread_id s ++ checkpoint ∷ []) s.pending },
  )

  -- What is left of a queue: an empty one is removed.
  unfoldable pub keep_rest : ThreadId → List (CheckpointRecord V) → TxSaver V W → TxSaver V W
  keep_rest thread_id [] s = record s { pending = remove thread_id s.pending }
  keep_rest thread_id (checkpoint ∷ rest) s = record s {
    pending = insert thread_id (checkpoint ∷ rest) s.pending;
  }

  -- `get_mut(…)?`, `pop_front()?`.
  unfoldable pub take_front :
      ThreadId
      → Option (List (CheckpointRecord V))
      → TxSaver V W
      → Option (CheckpointWrite V) × TxSaver V W
  take_front thread_id none s = (none, s)
  take_front thread_id (some []) s = (none, s)
  take_front thread_id (some (checkpoint ∷ rest)) s =
      (some (record { thread_id = thread_id; checkpoint = checkpoint }), keep_rest thread_id rest s)

  unfoldable pub take : ThreadId → TxSaver V W → Option (CheckpointWrite V) × TxSaver V W
  take thread_id s = take_front thread_id (get thread_id s.pending) s

  unfoldable pub clear : ThreadId → TxSaver V W → TxSaver V W
  clear thread_id s = record s { pending = remove thread_id s.pending }

-- `impl CheckpointSaver for TxSaver`.
abbrev pub tx_saver :
    (V W : Type 0) → (ThreadId → W → Result (Option (CheckpointRecord V))) → CheckpointSaver V
tx_saver V W load_checkpoint = record {
  World = TxSaver V W;
  save = save;
  load = λ thread_id s. load_checkpoint thread_id s.inner;
}
