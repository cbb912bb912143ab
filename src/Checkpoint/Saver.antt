-- ===== src/Checkpoint/Saver.antt =====
-- The trait `CheckpointSaver` of src/checkpoint.rs, and the saver that keeps its records in memory.
use typemach.Base.{String, Option, some, ◌≡◌, ap}
use typemach.Base.Eq.{string_eq}
use typemach.Base.Map.{Map, get, insert, get-insert_self}
use typemach.Run.{ThreadId}
use typemach.Error.{Result, ok}
use typemach.Checkpoint.{CheckpointRecord}

pub record CheckpointSaver (V : Type 0) : Type 1 where
  pub World : Type 0
  pub save : ThreadId → CheckpointRecord V → World → Result (Unit {0}) × World
  pub load : ThreadId → World → Result (Option (CheckpointRecord V))

-- A saver that a runner may rely on: what was saved last for a thread is what is loaded.
pub record Lawful {V : Type 0} (CK : CheckpointSaver V) : Type 0 where
  pub load-save :
      (thread : ThreadId) (record' : CheckpointRecord V) (w : CK.World)
      → (CK.save thread record' w).0 ≡ ok tt
      → CK.load thread (CK.save thread record' w).1 ≡ ok (some record')

-- `MemorySaver`, whose two calls hold its mutex.
unfoldable pub memory_save :
    {V : Type 0}
    → ThreadId
    → CheckpointRecord V
    → Map String (CheckpointRecord V)
    → Result (Unit {0}) × Map String (CheckpointRecord V)
memory_save thread checkpoint guard = (ok tt, insert thread checkpoint guard)

unfoldable pub memory_load :
    {V : Type 0} → ThreadId → Map String (CheckpointRecord V) → Result (Option (CheckpointRecord V))
memory_load thread guard = ok (get thread guard)

abbrev pub memory_saver : (V : Type 0) → CheckpointSaver V
memory_saver V = record {
  World = Map String (CheckpointRecord V);
  save = memory_save;
  load = memory_load;
}

pub memory_saver-Lawful : (V : Type 0) → Lawful (memory_saver V)
unfolding memory_save memory_load
memory_saver-Lawful V = record {
  load-save = λ thread checkpoint w _. ap ok (get-insert_self thread checkpoint w);
}
