-- ===== src/Runner/Rounds.antt =====
-- One round of the loop of `invoke`, and the positions that rounds lead to, src/runner.rs.
use typemach.Base.{
  zero, suc, ◌∙◌, ℕ, ◌+◌, none, Option, ◌⊎◌, some, false, [], ◌∷◌, ◌++◌, ltb, ◌≡◌, refl, inl, inr,
  Bool-cases,
}
use typemach.Error.{>>=-eq-ok, MachineError, Result, ok, err, max_steps_exceeded}
use typemach.Checkpoint.Saver.{CheckpointSaver}
use typemach.Machine.{Machine, to_json, Transition, next, interrupt, complete}
use typemach.Run.Request.{completed, interrupted}
use typemach.Runner.Resume.{Request}
use typemach.Runner.Invoke.{
  Position, Turn, Round, stops, goes, round, take_answer, take_transition, transition_or_cancel,
  Output, run_loop, saved_next, saved_last, save_running, save_interrupted, with_snapshot, u32,
  counted,
}

pub pair-cases :
    {A B : Type 0} (x : Result A × B)
    → ((e : MachineError) × (b : B) × (x ≡ (err e, b))) ⊎ ((a : A) × (b : B) × (x ≡ (ok a, b)))
pair-cases (err e, b) = inl (e, b, refl)
pair-cases (ok a, b) = inr (a, b, refl)

module _ {V : Type 0} {M : Machine V} {CK : CheckpointSaver V} where
  -- The loop goes on: the limit is not reached, the machine answers with another step, and it is
  -- saved.
  pub record Goes (request : Request M) (turn : Turn M CK request.runtime_limits)
      (p : Position M CK) (step : M.Step) (state : M.State) (w : CK.World) : Type 0 where
    pub within : ltb request.runtime_limits.max_steps (u32 (p.step_count + 1)) ≡ false
    pub answer : transition_or_cancel request turn p.current_step p.state ≡ (ok (next step), state)
    pub saved :
        save_running M CK request.run_id request.thread_id state
          (some step)
          (turn.meanwhile p.world)
        ≡ (ok tt, w)

  abbrev pub after : Position M CK → M.Step → M.State → CK.World → Position M CK
  after p step state w = record {
    step_count = u32 (p.step_count + 1);
    current_step = step;
    state = state;
    trace = p.trace ++ M.trace_value p.current_step "next" ∷ [];
    world = w;
  }

  -- The machine interrupts: the step that did so is saved with the interrupt.
  pub record Interrupts (request : Request M) (turn : Turn M CK request.runtime_limits)
      (p : Position M CK) (found : M.Interrupt) (state : M.State) (w : CK.World) : Type 0 where
    pub within : ltb request.runtime_limits.max_steps (u32 (p.step_count + 1)) ≡ false
    pub answer :
        transition_or_cancel request turn p.current_step p.state ≡ (ok (interrupt found), state)
    pub saved :
        save_interrupted M CK request.run_id request.thread_id state p.current_step found
          (turn.meanwhile p.world)
        ≡ (ok tt, w)

  pub record Completes (request : Request M) (turn : Turn M CK request.runtime_limits)
      (p : Position M CK) (output : M.Output) (state : M.State) (w : CK.World) : Type 0 where
    pub within : ltb request.runtime_limits.max_steps (u32 (p.step_count + 1)) ≡ false
    pub answer :
        transition_or_cancel request turn p.current_step p.state ≡ (ok (complete output), state)
    pub saved :
        save_running M CK request.run_id request.thread_id state none (turn.meanwhile p.world)
        ≡ (ok tt, w)

  take_cases {ℓ} :
      (request : Request M) (turn : Turn M CK request.runtime_limits) (p : Position M CK)
      (answer : Transition M.Step M.Interrupt M.Output) (state : M.State) (Q : Round M CK → Type ℓ)
      → ltb request.runtime_limits.max_steps (u32 (p.step_count + 1)) ≡ false
      → transition_or_cancel request turn p.current_step p.state ≡ (ok answer, state)
      → ((e : MachineError) (w : CK.World) → Q (stops (err e) w))
      → ((step : M.Step) (state : M.State) (w : CK.World)
          → Goes request turn p step state w
          → Q (goes (after p step state w)))
      → ((found : M.Interrupt) (state : M.State) (w : CK.World)
          → Interrupts request turn p found state w
          → Q (stops (with_snapshot M state (interrupted found)) w))
      → ((output : M.Output) (state : M.State) (w : CK.World)
          → Completes request turn p output state w
          → Q (
              stops
                (with_snapshot M state
                  (completed (p.trace ++ M.trace_value p.current_step "complete" ∷ []) output))
                w))
      → Q (take_transition request (counted p) state (turn.meanwhile p.world) answer)
  unfolding take_transition saved_next saved_last
  take_cases request turn p (next step) state Q within answered fails onward stop done =
      let run =
        save_running M CK request.run_id request.thread_id state (some step)
          (turn.meanwhile p.world) in
      elim (pair-cases run) [
        | inl (e, w, failed) ↦ rw (failed, saved_next) (fails e w)
        | inr (_, w, saved) ↦
            rw (saved, saved_next)
              (onward step state w (record { within = within; answer = answered; saved = saved }))
      ]
  take_cases request turn p (interrupt found) state Q within answered fails onward stop done =
      let run =
        save_interrupted M CK request.run_id request.thread_id state p.current_step found
          (turn.meanwhile p.world) in
      elim (pair-cases run) [
        | inl (e, w, failed) ↦ rw (failed, saved_last) (fails e w)
        | inr (_, w, saved) ↦
            rw (saved, saved_last)
              (stop found state w (record { within = within; answer = answered; saved = saved }))
      ]
  take_cases request turn p (complete output) state Q within answered fails onward stop done =
      let run =
        save_running M CK request.run_id request.thread_id state none (turn.meanwhile p.world) in
      elim (pair-cases run) [
        | inl (e, w, failed) ↦ rw (failed, saved_last) (fails e w)
        | inr (_, w, saved) ↦
            rw (saved, saved_last)
              (done output state w (record { within = within; answer = answered; saved = saved }))
      ]

  -- The ways through a round.
  pub round_cases {ℓ} :
      (request : Request M) (turn : Turn M CK request.runtime_limits) (p : Position M CK)
      (Q : Round M CK → Type ℓ)
      → ((e : MachineError) (w : CK.World) → Q (stops (err e) w))
      → ((step : M.Step) (state : M.State) (w : CK.World)
          → Goes request turn p step state w
          → Q (goes (after p step state w)))
      → ((found : M.Interrupt) (state : M.State) (w : CK.World)
          → Interrupts request turn p found state w
          → Q (stops (with_snapshot M state (interrupted found)) w))
      → ((output : M.Output) (state : M.State) (w : CK.World)
          → Completes request turn p output state w
          → Q (
              stops
                (with_snapshot M state
                  (completed (p.trace ++ M.trace_value p.current_step "complete" ∷ []) output))
                w))
      → Q (round request turn p)
  unfolding round take_answer
  round_cases request turn p Q fails onward stop done =
      let here = transition_or_cancel request turn p.current_step p.state in
      elim (Bool-cases (ltb request.runtime_limits.max_steps (u32 (p.step_count + 1)))) [
        | inl over ↦
            rw (over, round) (fails (max_steps_exceeded request.runtime_limits.max_steps) p.world)
        | inr within ↦ elim (pair-cases here) [
          | inl (e, state, failed) ↦
              rw (within, round, failed, take_answer) (fails e (turn.meanwhile p.world))
          | inr (answer, state, answered) ↦
              rw (within, round, answered, take_answer)
                (take_cases request turn p answer state Q within answered fails onward stop done)
        ]
      ]

  pub goes-injective : {p q : Position M CK} → goes p ≡ goes q → p ≡ q
  goes-injective h = cc

  pub Round-cases :
      (x : Round M CK)
      → ((r : Result (Output M)) × (w : CK.World) × (x ≡ stops r w))
        ⊎ ((p : Position M CK) × (x ≡ goes p))
  Round-cases (stops r w) = inl (r, w, refl)
  Round-cases (goes p) = inr (p, refl)

  -- The last round of a loop, from a position that has what every round keeps.
  pub record LastRound {ℓ} (request : Request M) (P : Position M CK → Type ℓ)
      (r : Result (Output M)) (w : CK.World) : Type ℓ where
    pub turn : Turn M CK request.runtime_limits
    pub from : Position M CK
    pub kept : P from
    pub stop : round request turn from ≡ stops r w

  pub run_loop-last {ℓ} :
      (request : Request M) (P : Position M CK → Type ℓ)
      → ((turn : Turn M CK request.runtime_limits) (p q : Position M CK)
          → P p
          → round request turn p ≡ goes q
          → P q)
      → (fuel : ℕ) (turns : ℕ → Turn M CK request.runtime_limits) (p : Position M CK) → P p
      → (r : Result (Output M)) (w : CK.World) → run_loop fuel request turns p ≡ some (r, w)
      → LastRound request P r w
  unfolding run_loop
  run_loop-last request P keep zero turns p kept r w h = absurd (cc)
  run_loop-last request P keep (suc fuel) turns p kept r w h =
      elim (Round-cases (round request (turns 0) p)) [
        | inl (r', w', stop) ↦
            let same : ◌≡◌ {A = Option (Result (Output M) × CK.World)} (some (r', w'))
                (some (r, w)) =
              rw (stop, run_loop) at h in
            let is : ◌≡◌ {A = Round M CK} (stops r' w') (stops r w) = cc in
            record { turn = turns 0; from = p; kept = kept; stop = stop ∙ is }
        | inr (q, go) ↦
            run_loop-last request P keep fuel (λ k. turns (suc k)) q (keep (turns 0) p q kept go) r
              w (rw (go, run_loop) at h)
      ]

module _ {V : Type 0} (M : Machine V) where
  pub with_snapshot-eq-ok :
      (state : M.State) (output : V → Output M) {x : Output M}
      → with_snapshot M state output ≡ ok x
      → (snapshot : V) × (to_json M state ≡ ok snapshot) × (output snapshot ≡ x)
  unfolding with_snapshot
  with_snapshot-eq-ok state output h =
      let (snapshot, made, same) =
        >>=-eq-ok (to_json M state) (λ snapshot. ok (output snapshot)) h in
      (snapshot, made, cc)
