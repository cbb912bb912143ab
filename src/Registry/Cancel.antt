-- ===== src/Registry/Cancel.antt =====
-- The cancellation of a run in flight, src/registry.rs.
use mathlib.Core.Option.{some-injective}
use typemach.Base.{
  ℕ, some, true, List, [], ◌∷◌, ◌≡◌, ◌<◌, ap, inl, inr, Option-cases, Bool-cases, arith, leb,
  length,
}
use typemach.Base.Eq.{string_eq}
use typemach.Base.Int.{int_beq}
use typemach.Base.Map.{get}
use typemach.Run.{RunId}
use typemach.Registry.{
  Channels, RunHandle, RunRegistry, Request, opens, cancels_handle, inserts, removes, sequences,
  rewinds, subscribes, cancels, publishes, ends, elsewhere, serve, serve_all, try_insert, remove,
  next_seq, rewind_seq, subscribe, request_cancel, handle, publish, publish_terminal, broadcast,
  new_handle, set_flag, is_cancelled,
}

module _ {E : Type 0} {C : Channels E} where
  -- The flag belongs to a handle, and is set.
  abbrev Set : ℕ → RunRegistry C → Type 0
  Set k s = (s.flags k ≡ true) × (k < s.fresh)

  serve-Set : (call : Request C) (k : ℕ) (s : RunRegistry C) → Set k s → Set k (serve call s)
  unfolding serve new_handle set_flag try_insert remove next_seq rewind_seq subscribe request_cancel
      handle publish publish_terminal broadcast
  serve-Set (opens token) k s (set, old) = (ground (arith, set, old), ground (arith, old))
  serve-Set (cancels_handle held) k s (set, old) = (ground (arith, set), old)
  serve-Set (inserts j h sender max) k s set = elim (Option-cases (get j s.runs)) [
    | inl absent ↦ elim (Bool-cases (leb max (length s.runs))) [
      | inl full ↦ rw (absent, full, serve, try_insert) set
      | inr room ↦ rw (absent, room, serve, try_insert) set
    ]
    | inr (run, found) ↦ rw (found, serve, try_insert) set
  ]
  serve-Set (removes j) k s set = set
  serve-Set (sequences j) k s set = elim (Option-cases (get j s.runs)) [
    | inl absent ↦ rw (absent, serve, next_seq) set
    | inr (run, found) ↦ rw (found, serve, next_seq) set
  ]
  serve-Set (rewinds j seq) k s set = elim (Option-cases (get j s.runs)) [
    | inl absent ↦ rw (absent, serve, rewind_seq) set
    | inr (run, found) ↦ elim (Bool-cases (int_beq run.current_seq seq)) [
      | inl last ↦ rw (found, last, serve, rewind_seq) set
      | inr other ↦ rw (found, other, serve, rewind_seq) set
    ]
  ]
  serve-Set (subscribes j) k s set = elim (Option-cases (get j s.runs)) [
    | inl absent ↦ rw (absent, serve, subscribe) set
    | inr (run, found) ↦ elim (Bool-cases run.terminal_published) [
      | inl over ↦ rw (found, over, serve, subscribe) set
      | inr live ↦ rw (found, live, serve, subscribe) set
    ]
  ]
  serve-Set (cancels j) k s (set, old) = elim (Option-cases (get j s.runs)) [
    | inl absent ↦ rw (absent, serve, request_cancel, handle) (set, old)
    | inr (run, found) ↦ rw (found, serve, request_cancel, handle) (ground (arith, set), old)
  ]
  serve-Set (publishes j event) k s set = elim (Option-cases (get j s.runs)) [
    | inl absent ↦ rw (absent, serve, publish) set
    | inr (run, found) ↦ elim (Bool-cases run.terminal_published) [
      | inl over ↦ rw (found, over, serve, publish) set
      | inr live ↦ rw (found, live, serve, publish) set
    ]
  ]
  serve-Set (ends j event) k s set = elim (Option-cases (get j s.runs)) [
    | inl absent ↦ rw (absent, serve, publish_terminal) set
    | inr (run, found) ↦ elim (Bool-cases run.terminal_published) [
      | inl over ↦ rw (found, over, serve, publish_terminal) set
      | inr live ↦ rw (found, live, serve, publish_terminal) set
    ]
  ]
  serve-Set (elsewhere move) k s set = set

  serve_all-Set :
      (calls : List (Request C)) (k : ℕ) (s : RunRegistry C) → Set k s → Set k (serve_all calls s)
  unfolding serve_all
  serve_all-Set [] k s set = set
  serve_all-Set (call ∷ calls) k s set =
      serve_all-Set calls k (serve call s) (serve-Set call k s set)

  request_cancel-Set :
      (run_id : RunId) (held : RunHandle) (s : RunRegistry C)
      → (request_cancel run_id s).0 ≡ some held
      → held.flag < s.fresh
      → Set held.flag (request_cancel run_id s).1
  unfolding request_cancel handle set_flag
  request_cancel-Set run_id held s made old = elim (Option-cases (get run_id s.runs)) [
    | inl absent ↦ absurd (cc (rw (absent, request_cancel, handle) at made))
    | inr (run, found) ↦
        let is : run.handle ≡ held =
          some-injective run.handle held (rw (found, request_cancel, handle) at made) in
        rw (found, request_cancel, handle) (ground (arith, ap (λ h. h.flag) is), old)
  ]

  -- A cancelled run stays cancelled: after `request_cancel` has found a run whose flag was
  -- taken by an earlier `RunHandle::new`, the flag that all clones of this handle read is set for good, whatever calls
  -- follow, new handles and the removal of the run included.
  pub request_cancel-lasts :
      (run_id : RunId) (held : RunHandle) (calls : List (Request C)) (s : RunRegistry C)
      → (request_cancel run_id s).0 ≡ some held
      → held.flag < s.fresh
      → is_cancelled held (serve_all calls (request_cancel run_id s).1) ≡ true
  request_cancel-lasts run_id held calls s made old =
      (serve_all-Set calls held.flag (request_cancel run_id s).1
        (request_cancel-Set run_id held s made old)).0
