-- ===== src/Memory/Cases/Effects.antt =====
-- The paths through `reserve_effect` and `start_effect`.
use typemach.Base.{
  String, Option, none, some, true, false, ◌≡◌, inl, inr, Bool-cases, Option-cases, ◌&&◌,
}
use typemach.Base.Eq.{◌=?◌, string_eq, pair_eq}
use typemach.Base.Map.{get}
use typemach.Run.{RunId, LeaseId}
use typemach.Error.{MachineError, Result, ok, err, Result-cases}
use typemach.Op.{Effect, is_done, is_blocking}
use typemach.Params.{Params}
use typemach.Memory.State.{Inner, MemoryRun, Clock, now_ms}
use typemach.Memory.Effects.{
  effect_run, reserve_open, reserve_effect, reserved_effect, start_open, start_effect,
  started_effect, put_effect,
}

module _ {P : Params} where
  reserve_open_cases {ℓ} :
      (clock : Clock) (run_id : RunId) (key kind : String) (request : P.Value) (s : Inner P)
      (Q : Result (Effect P.Value) × Inner P → Type ℓ)
      → ((e : MachineError) → Q (err e, s))
      → ((old : Effect P.Value)
          → get (run_id, key) s.effects ≡ some old
          → (old.kind =? kind && P.value_eq.beq old.request request) ≡ true
          → Q (ok old, s))
      → (get (run_id, key) s.effects ≡ none
          → let effect = reserved_effect (now_ms clock 0) run_id key kind request in
            Q (ok effect, put_effect run_id key effect s))
      → Q (reserve_open clock run_id key kind request s)
  unfolding reserve_open
  reserve_open_cases clock run_id key kind request s Q fail again write =
      elim (Option-cases (get (run_id, key) s.effects)) [
        | inl fresh ↦ rw (fresh, reserve_open) (write fresh)
        | inr (old, found) ↦
            elim (Bool-cases (old.kind =? kind && P.value_eq.beq old.request request)) [
              | inl same ↦ rw (found, reserve_open, same) (again old found same)
              | inr other ↦ rw (found, reserve_open, other) (fail _)
            ]
      ]

  -- A reservation writes only a new effect, of a run that `effect_run` admits.
  pub reserve_cases {ℓ} :
      (clock : Clock) (run_id : RunId) (scope : P.Scope) (lease : Option LeaseId)
      (key kind : String) (request : P.Value) (s : Inner P)
      (Q : Result (Effect P.Value) × Inner P → Type ℓ)
      → ((e : MachineError) → Q (err e, s))
      → ((old : Effect P.Value)
          → get (run_id, key) s.effects ≡ some old
          → (old.kind =? kind && P.value_eq.beq old.request request) ≡ true
          → Q (ok old, s))
      → ((run : MemoryRun P)
          → effect_run run_id scope lease clock s ≡ ok run
          → get (run_id, key) s.effects ≡ none
          → let effect = reserved_effect (now_ms clock 0) run_id key kind request in
            Q (ok effect, put_effect run_id key effect s))
      → Q (reserve_effect clock run_id scope lease key kind request s)
  unfolding reserve_effect
  reserve_cases clock run_id scope lease key kind request s Q fail again write =
      elim (Result-cases (effect_run run_id scope lease clock s)) [
        | inl (e, bad) ↦ rw (bad, reserve_effect) (fail _)
        | inr (run, admitted) ↦
            rw (admitted, reserve_effect)
              (reserve_open_cases clock run_id key kind request s Q fail again (write run admitted))
      ]

  start_open_cases {ℓ} :
      (clock : Clock) (run_id : RunId) (key : String) (s : Inner P)
      (Q : Result (Effect P.Value) × Inner P → Type ℓ)
      → ((e : MachineError) → Q (err e, s))
      → ((old : Effect P.Value)
          → get (run_id, key) s.effects ≡ some old
          → is_done old.status ≡ true
          → Q (ok old, s))
      → ((old : Effect P.Value)
          → get (run_id, key) s.effects ≡ some old
          → is_blocking old.status ≡ false
          → is_done old.status ≡ false
          → let effect = started_effect (now_ms clock 0) old in
            Q (ok effect, put_effect run_id key effect s))
      → Q (start_open clock run_id key s)
  unfolding start_open
  start_open_cases clock run_id key s Q fail settled write =
      elim (Option-cases (get (run_id, key) s.effects)) [
        | inl missing ↦ rw (missing, start_open) (fail _)
        | inr (old, found) ↦ elim (Bool-cases (is_blocking old.status)) [
          | inl pending ↦ rw (found, start_open, pending) (fail _)
          | inr idle ↦ elim (Bool-cases (is_done old.status)) [
            | inl done ↦ rw (found, start_open, idle, done) (settled old found done)
            | inr fresh ↦ rw (found, start_open, idle, fresh) (write old found idle fresh)
          ]
        ]
      ]

  -- A start writes only an effect that is neither pending nor done.
  pub start_effect_cases {ℓ} :
      (clock : Clock) (run_id : RunId) (scope : P.Scope) (lease : Option LeaseId) (key : String)
      (s : Inner P) (Q : Result (Effect P.Value) × Inner P → Type ℓ)
      → ((e : MachineError) → Q (err e, s))
      → ((old : Effect P.Value)
          → get (run_id, key) s.effects ≡ some old
          → is_done old.status ≡ true
          → Q (ok old, s))
      → ((run : MemoryRun P) (old : Effect P.Value)
          → effect_run run_id scope lease clock s ≡ ok run
          → get (run_id, key) s.effects ≡ some old
          → is_blocking old.status ≡ false
          → is_done old.status ≡ false
          → let effect = started_effect (now_ms clock 0) old in
            Q (ok effect, put_effect run_id key effect s))
      → Q (start_effect clock run_id scope lease key s)
  unfolding start_effect
  start_effect_cases clock run_id scope lease key s Q fail settled write =
      elim (Result-cases (effect_run run_id scope lease clock s)) [
        | inl (e, bad) ↦ rw (bad, start_effect) (fail _)
        | inr (run, admitted) ↦
            rw (admitted, start_effect)
              (start_open_cases clock run_id key s Q fail settled λ old. write run old admitted)
      ]
