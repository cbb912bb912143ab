-- ===== src/Runner/Limit.antt =====
-- The limit on the steps of a turn, src/runner.rs.
use mathlib.Core.Path.{subst}
use typemach.Base.{
  ℕ, zero, suc, ◌+◌, ◌-◌, ◌^◌, ◌≤◌, ◌<◌, some, Bool, true, false, List, [], ◌∷◌, ◌++◌, length,
  length-append, ltb, ◌≡◌, refl, inl, inr, arith,
}
use typemach.Error.{Result, ok, err, Result-cases}
use typemach.Checkpoint.Saver.{CheckpointSaver}
use typemach.Machine.{Machine}
use typemach.Run.Request.{completed, interrupted}
use typemach.Runner.Resume.{Request}
use typemach.Runner.Invoke.{
  Position, Turn, Round, Output, stops, goes, round, run_loop, invoke_inner, load_start,
  start_position, u32,
}
use typemach.Runner.Rounds.{
  round_cases, after, Goes, goes-injective, Round-cases, run_loop-last, with_snapshot-eq-ok,
}

-- Below this limit the `u32` that counts the steps passes it before it wraps.
unfoldable pub counter_max : ℕ
counter_max = 2 ^ 32 - 1

u32-suc : (n : ℕ) → n < counter_max → u32 (n + 1) ≡ n + 1
unfolding u32 counter_max
u32-suc n h = omega arith

module _ {V : Type 0} {M : Machine V} {CK : CheckpointSaver V} where
  -- So many steps have been made, each with its line in the trace.
  record Counted (limit : ℕ) (p : Position M CK) : Type 0 where
    count : p.step_count ≤ limit
    lines : length p.trace ≡ p.step_count

  Counted-after :
      (request : Request M) (turn : Turn M CK request.runtime_limits) (p : Position M CK)
      (step : M.Step) (state : M.State) (w : CK.World)
      → request.runtime_limits.max_steps < counter_max
      → Counted request.runtime_limits.max_steps p
      → Goes request turn p step state w
      → Counted request.runtime_limits.max_steps (after p step state w)
        × ((after p step state w).step_count ≡ p.step_count + 1)
  Counted-after request turn p step state w small c g =
      let same = u32-suc p.step_count (omega (arith, small, c.count)) in
      let line = M.trace_value p.current_step "next" in
      (
        record {
          count = ground (arith, g.within);
          lines = omega (arith, length-append p.trace (line ∷ []), same, c.lines);
        },
        same,
      )

  round-Counted :
      (request : Request M) (turn : Turn M CK request.runtime_limits) (p q : Position M CK)
      → request.runtime_limits.max_steps < counter_max
      → Counted request.runtime_limits.max_steps p
      → round request turn p ≡ goes q
      → Counted request.runtime_limits.max_steps q × (q.step_count ≡ p.step_count + 1)
  round-Counted request turn p q small c =
      round_cases request turn p
        (λ x.
          x ≡ goes q
          → Counted request.runtime_limits.max_steps q × (q.step_count ≡ p.step_count + 1))
        (λ e w h. cc)
        (λ step state w g h.
          subst
            (λ x. Counted request.runtime_limits.max_steps x × (x.step_count ≡ p.step_count + 1))
            (goes-injective h) (Counted-after request turn p step state w small c g))
        (λ found state w stop h. cc) λ output state w done h. cc

  stops-result :
      {r r' : Result (Output M)} {w w' : CK.World}
      → ◌≡◌ {A = Round M CK} (stops r w) (stops r' w')
      → r ≡ r'
  stops-result h = cc

  completed_lines :
      (request : Request M) (p : Position M CK) (line : V)
      → ltb request.runtime_limits.max_steps (u32 (p.step_count + 1)) ≡ false
      → Counted request.runtime_limits.max_steps p
      → request.runtime_limits.max_steps < counter_max
      → length (p.trace ++ line ∷ []) ≤ request.runtime_limits.max_steps
  completed_lines request p line within c small =
      let same = u32-suc p.step_count (omega (arith, small, c.count)) in
      rw (length-append p.trace (line ∷ []), c.lines) (ground (arith, same))

  run_loop-ends :
      (fuel : ℕ) (request : Request M) (turns : ℕ → Turn M CK request.runtime_limits)
      (p : Position M CK)
      → request.runtime_limits.max_steps < counter_max
      → Counted request.runtime_limits.max_steps p
      → request.runtime_limits.max_steps < p.step_count + fuel
      → (r : Result (Output M)) × (w : CK.World) × (run_loop fuel request turns p ≡ some (r, w))
  unfolding run_loop
  run_loop-ends zero request turns p small c enough = absurd (omega (arith, c.count, enough))
  run_loop-ends (suc fuel) request turns p small c enough =
      elim (Round-cases (round request (turns 0) p)) [
        | inl (r, w, stop) ↦ (r, w, rw (stop, run_loop) refl)
        | inr (q, go) ↦
            let (c', next) = round-Counted request (turns 0) p q small c go in
            let (r, w, rest) =
              run_loop-ends fuel request (λ k. turns (suc k)) q small c'
                (omega (arith, next, enough)) in
            (r, w, rw (go, run_loop) rest)
      ]

  -- The loop of a turn ends, and within one round more than its limit, whatever the machine, the saver
  -- and the other tasks do. The limit is below `u32::MAX`.
  pub invoke_inner-ends :
      (request : Request M) (is_cancelled : Bool) (turns : ℕ → Turn M CK request.runtime_limits)
      (w : CK.World)
      → request.runtime_limits.max_steps < counter_max
      → (r : Result (Output M)) × (w' : CK.World) × (invoke_inner
            (suc request.runtime_limits.max_steps)
            request
            is_cancelled
            turns
            w
          ≡ some (r, w'))
  unfolding invoke_inner
  invoke_inner-ends request true turns w small = (err _, w, refl)
  invoke_inner-ends request false turns w small = elim (Result-cases (load_start M CK request w)) [
    | inl (e, failed) ↦ (err e, w, rw (failed, invoke_inner) refl)
    | inr (start, loaded) ↦
        let (r, w', done) =
          run_loop-ends (suc request.runtime_limits.max_steps) request turns
            (start_position w start) small (record { count = omega arith; lines = refl })
            (omega arith) in
        (r, w', rw (loaded, invoke_inner) done)
  ]

  stop_bound :
      (request : Request M) (turn : Turn M CK request.runtime_limits) (p : Position M CK)
      (trace : List V) (output : M.Output) (snapshot : V) (w : CK.World)
      → request.runtime_limits.max_steps < counter_max
      → Counted request.runtime_limits.max_steps p
      → round request turn p ≡ stops (ok (completed trace output snapshot)) w
      → length trace ≤ request.runtime_limits.max_steps
  stop_bound request turn p trace output snapshot w small c =
      round_cases request turn p
        (λ x.
          x ≡ stops (ok (completed trace output snapshot)) w
          → length trace ≤ request.runtime_limits.max_steps)
        (λ e w' h. absurd (cc)) (λ step state w' g h. absurd (cc))
        (λ found state w' stop h.
          let (_, _, same) = with_snapshot-eq-ok M state (interrupted found) (stops-result h) in
          absurd (cc))
        λ made state w' done h.
          let line = M.trace_value p.current_step "complete" in
          let (_, _, same) =
            with_snapshot-eq-ok M state (completed (p.trace ++ line ∷ []) made) (stops-result h) in
          let lines : p.trace ++ line ∷ [] ≡ trace = cc in
          rw (← lines) (completed_lines request p line done.within c small)

  -- The trace of a turn that completes is no longer than its limit of steps. The limit is below
  -- `u32::MAX`.
  pub invoke_inner-bounded :
      (fuel : ℕ) (request : Request M) (is_cancelled : Bool)
      (turns : ℕ → Turn M CK request.runtime_limits) (w w' : CK.World) (trace : List V)
      (output : M.Output) (snapshot : V)
      → request.runtime_limits.max_steps < counter_max
      → invoke_inner fuel request is_cancelled turns w
        ≡ some (ok (completed trace output snapshot), w')
      → length trace ≤ request.runtime_limits.max_steps
  unfolding invoke_inner
  invoke_inner-bounded fuel request true turns w w' trace output snapshot small h = absurd (cc)
  invoke_inner-bounded fuel request false turns w w' trace output snapshot small h =
      elim (Result-cases (load_start M CK request w)) [
        | inl (e, failed) ↦ absurd (cc (rw (failed, invoke_inner) at h))
        | inr (start, loaded) ↦
            let final =
              run_loop-last request (Counted request.runtime_limits.max_steps)
                (λ turn p q c go. (round-Counted request turn p q small c go).0) fuel turns
                (start_position w start) (record { count = omega arith; lines = refl })
                (ok (completed trace output snapshot)) w' (rw (loaded, invoke_inner) at h) in
            stop_bound request final.turn final.from trace output snapshot w' small final.kept
              final.stop
      ]
