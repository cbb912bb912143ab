-- ===== src/Registry/Keeps.antt =====
-- What one call on a registry does to the entries of its map, src/registry.rs.
use typemach.Base.{
  ℕ, Option, none, some, true, false, ◌≡◌, refl, Option-cases, Bool-cases, inl, inr, leb, length,
}
use typemach.Base.Eq.{string_eq}
use typemach.Base.Int.{int_beq}
use typemach.Base.Map.{Map, get, insert, remove as remove_key}
use typemach.Run.{RunId}
use typemach.Registry.{
  Channels, RunHandle, ActiveRun, RunRegistry, Request, opens, cancels_handle, inserts, removes,
  sequences, rewinds, subscribes, cancels, publishes, ends, elsewhere, serve, try_insert, remove,
  next_seq, rewind_seq, subscribe, request_cancel, handle, publish, publish_terminal, broadcast,
  new_handle, set_flag,
}

module _ {E : Type 0} {C : Channels E} where
  -- The run stays itself: its handle is the same, and an end is not taken back.
  pub record Later (old new : ActiveRun C) : Type 0 where
    pub handle : new.handle ≡ old.handle
    pub ended : old.terminal_published ≡ true → new.terminal_published ≡ true

  -- The ways a call changes the map.
  pub change_cases {ℓ} :
      (call : Request C) (s : RunRegistry C) (Q : Map RunId (ActiveRun C) → Type ℓ)
      → Q s.runs
      → ((k : RunId) (old new : ActiveRun C)
          → get k s.runs ≡ some old
          → Later old new
          → Q (insert k new s.runs))
      → ((k : RunId) (h : RunHandle) (sender : Option C.Sender) (max : ℕ) (new : ActiveRun C)
          → call ≡ inserts k h sender max
          → get k s.runs ≡ none
          → leb max (length s.runs) ≡ false
          → Q (insert k new s.runs))
      → ((k : RunId) → call ≡ removes k → Q (remove_key k s.runs))
      → Q (serve call s).runs
  unfolding serve new_handle set_flag try_insert remove next_seq rewind_seq subscribe request_cancel
      handle publish publish_terminal broadcast
  change_cases (opens token) s Q stay change add drop = stay
  change_cases (cancels_handle held) s Q stay change add drop = stay
  change_cases (inserts k h sender max) s Q stay change add drop =
      elim (Option-cases (get k s.runs)) [
        | inl absent ↦ elim (Bool-cases (leb max (length s.runs))) [
          | inl full ↦ rw (absent, full, serve, try_insert) stay
          | inr room ↦ rw (absent, room, serve, try_insert) (add k h sender max _ refl absent room)
        ]
        | inr (run, found) ↦ rw (found, serve, try_insert) stay
      ]
  change_cases (removes k) s Q stay change add drop = drop k refl
  change_cases (sequences k) s Q stay change add drop = elim (Option-cases (get k s.runs)) [
    | inl absent ↦ rw (absent, serve, next_seq) stay
    | inr (run, found) ↦
        rw (found, serve, next_seq)
          (change k run _ found (record { handle = refl; ended = λ h. h }))
  ]
  change_cases (rewinds k seq) s Q stay change add drop = elim (Option-cases (get k s.runs)) [
    | inl absent ↦ rw (absent, serve, rewind_seq) stay
    | inr (run, found) ↦ elim (Bool-cases (int_beq run.current_seq seq)) [
      | inl last ↦
          rw (found, last, serve, rewind_seq)
            (change k run _ found (record { handle = refl; ended = λ h. h }))
      | inr other ↦ rw (found, other, serve, rewind_seq) stay
    ]
  ]
  change_cases (subscribes k) s Q stay change add drop = elim (Option-cases (get k s.runs)) [
    | inl absent ↦ rw (absent, serve, subscribe) stay
    | inr (run, found) ↦ elim (Bool-cases run.terminal_published) [
      | inl over ↦ rw (found, over, serve, subscribe) stay
      | inr live ↦
          rw (found, live, serve, subscribe)
            (change k run _ found (record { handle = refl; ended = λ h. absurd (cc) }))
    ]
  ]
  change_cases (cancels k) s Q stay change add drop = elim (Option-cases (get k s.runs)) [
    | inl absent ↦ rw (absent, serve, request_cancel, handle) stay
    | inr (run, found) ↦ rw (found, serve, request_cancel, handle) stay
  ]
  change_cases (publishes k event) s Q stay change add drop = elim (Option-cases (get k s.runs)) [
    | inl absent ↦ rw (absent, serve, publish) stay
    | inr (run, found) ↦ elim (Bool-cases run.terminal_published) [
      | inl over ↦ rw (found, over, serve, publish) stay
      | inr live ↦
          rw (found, live, serve, publish)
            (change k run _ found (record { handle = refl; ended = λ h. absurd (cc) }))
    ]
  ]
  change_cases (ends k event) s Q stay change add drop = elim (Option-cases (get k s.runs)) [
    | inl absent ↦ rw (absent, serve, publish_terminal) stay
    | inr (run, found) ↦ elim (Bool-cases run.terminal_published) [
      | inl over ↦ rw (found, over, serve, publish_terminal) stay
      | inr live ↦
          rw (found, live, serve, publish_terminal)
            (change k run _ found (record { handle = refl; ended = λ h. refl }))
    ]
  ]
  change_cases (elsewhere move) s Q stay change add drop = stay
