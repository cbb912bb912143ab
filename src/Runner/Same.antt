-- ===== src/Runner/Same.antt =====
-- One round of `stream` against one of `invoke`, src/runner.rs: the same turn, and a receiver that
-- stays.
use mathlib.Core.Path.{subst}
use typemach.Base.{none, some, true, false, List, [], ◌∷◌, ◌≡◌, refl, sym, ap, ◌∙◌, inl, inr}
use typemach.Run.Limits.{RuntimeLimits}
use typemach.Run.Request.{StepResult, RunOutput, step_finished, signal}
use typemach.Error.{Result, ok, err, MachineError, Result-cases}
use typemach.Checkpoint.Saver.{CheckpointSaver}
use typemach.Machine.{Machine, Transition, emits, returns, to_json}
use typemach.Runner.Resume.{Request}
use typemach.Runner.Invoke.{
  Position, Turn, Round, Branch, Output, MachineAct, context, silent, transition_or_cancel,
  with_snapshot, take_transition, take_answer, saved_next, saved_last,
}
use typemach.Runner.Channel.{
  StreamTransition, completed, interrupted, cancelled, receiver_closed, StreamBranch, answers,
  cancels, step_timer, run_timer, Tick, works, beats, Event, Terminal, Channel, taken, send_event,
  beat, work, work_out, run_ticks, end_wait, terminal_event, stream_answer, map_answer,
}
use typemach.Runner.Stream.{
  StreamTurn, stream_transition, StreamRound, stops, goes, send_finished, sent_next,
  stream_snapshot, sent_last, take_stream, take_wait,
}

abbrev pub stream_branch : {limits : RuntimeLimits} → Branch limits → StreamBranch limits
stream_branch Branch.answers = answers
stream_branch Branch.cancels = cancels
stream_branch (Branch.step_timer t h) = step_timer t h
stream_branch (Branch.run_timer t h) = run_timer t h

module _ {V : Type 0} (M : Machine V) where
  -- The machine does not ask whether it is streamed.
  abbrev pub Indifferent : Request M → Type 0
  Indifferent request =
      (choice : M.Choice) (step : M.Step) (state : M.State)
      → M.transition choice step state (context M true request)
        ≡ M.transition choice step state (context M false request)

  -- An outcome of `invoke`, as the driver of a stream has it.
  abbrev pub as_terminal : Result (Output M) → Result (Terminal M)
  as_terminal (ok (RunOutput.completed trace output snapshot)) =
      ok (completed trace output snapshot)
  as_terminal (ok (RunOutput.interrupted found snapshot)) = ok (interrupted found snapshot)
  as_terminal (err e) = err e

  pub send-open :
      (event : Event M) (channel : Channel M)
      → channel.left ≡ none
      → send_event M event channel ≡ (true, taken M event none channel)
  unfolding send_event
  send-open event channel is_open = rw (is_open, send_event) refl

  work_out-silent :
      (act : MachineAct M) (channel : Channel M)
      → channel.left ≡ none
      → (after : Channel M) × (work_out M act channel ≡ ((silent M act).0, (silent M act).1, after))
        × (after.left ≡ none)
  unfolding work_out silent
  work_out-silent (returns answer state) channel is_open = (channel, refl, is_open)
  work_out-silent (emits sign go) channel is_open =
      let (after, worked, still) =
        work_out-silent (go (ok tt)) (taken M (signal sign) none channel) refl in
      (after, rw (send-open (signal sign) channel is_open) worked, still)

  run_ticks-silent :
      (request : Request M) (ticks : List Tick) (act : MachineAct M) (channel : Channel M)
      → channel.left ≡ none
      → (act' : MachineAct M) × (after : Channel M) × (run_ticks M request ticks act channel
          ≡ (some act', after))
        × (silent M act' ≡ silent M act)
        × (after.left ≡ none)
  unfolding run_ticks work silent
  run_ticks-silent request [] act channel is_open = (act, channel, refl, refl, is_open)
  run_ticks-silent request (works ∷ ticks) (returns answer state) channel is_open =
      run_ticks-silent request ticks (returns answer state) channel is_open
  run_ticks-silent request (works ∷ ticks) (emits sign go) channel is_open =
      rw (send-open (signal sign) channel is_open)
        (run_ticks-silent request ticks (go (ok tt)) (taken M (signal sign) none channel) refl)
  run_ticks-silent request (beats ∷ ticks) act channel is_open =
      rw (send-open (beat M request) channel is_open)
        (run_ticks-silent request ticks act (taken M (beat M request) none channel) refl)

  -- How the answer of a wait in `stream` stands to that in `invoke`.
  pub data Matches
      : Result (Transition M.Step M.Interrupt M.Output)
        → Result (StreamTransition M.Step M.Interrupt M.Output)
        → Type 0 where
    answered :
        (answer : Transition M.Step M.Interrupt M.Output)
        → Matches (ok answer) (ok (stream_answer M answer))
    fails : (e : MachineError) → Matches (err e) (err e)
    drops : Matches (err MachineError.cancelled) (ok cancelled)

  map_answer-Matches :
      (r : Result (Transition M.Step M.Interrupt M.Output)) → Matches r (map_answer M r)
  map_answer-Matches (ok answer) = answered answer
  map_answer-Matches (err e) = fails e

module _ {V : Type 0} (M : Machine V) (CK : CheckpointSaver V) where
  -- A turn of `invoke` with these ticks, streamed.
  abbrev pub streamed :
      {limits : RuntimeLimits} → Turn M CK limits → List Tick → StreamTurn M CK limits
  streamed turn ticks = record {
    choice = turn.choice;
    meanwhile = turn.meanwhile;
    ticks = ticks;
    branch = stream_branch turn.branch;
  }

  pub record WaitMatches (here : Result (Transition M.Step M.Interrupt M.Output) × M.State)
      (there : Result (StreamTransition M.Step M.Interrupt M.Output) × M.State × Channel M)
      : Type 0 where
    pub answer : Matches M here.0 there.0
    pub state : there.1 ≡ here.1
    pub is_open : there.2.left ≡ none

  end_wait-Matches :
      (request : Request M) (turn : Turn M CK request.runtime_limits) (step : M.Step)
      (state : M.State) (act : MachineAct M) (channel : Channel M)
      → channel.left ≡ none
      → silent M act ≡ silent M (M.transition turn.choice step state (context M false request))
      → WaitMatches
          (transition_or_cancel request turn step state)
          (end_wait M (stream_branch turn.branch) state act channel)
  unfolding transition_or_cancel end_wait
  end_wait-Matches request turn step state act channel is_open same = by_branch turn.branch
    where
      by_branch :
          (branch : Branch request.runtime_limits)
          → WaitMatches
              (elim branch [
                | Branch.answers ↦
                    silent M (M.transition turn.choice step state (context M false request))
                | Branch.cancels ↦ (err MachineError.cancelled, state)
                | Branch.step_timer _ _ ↦ (err MachineError.step_timeout, state)
                | Branch.run_timer _ _ ↦ (err MachineError.run_timeout, state)
              ])
              (end_wait M (stream_branch branch) state act channel)
      by_branch Branch.answers =
          let (after, worked, still) = work_out-silent M act channel is_open in
          rw (← same, worked)
            (record {
              answer = map_answer-Matches M (silent M act).0;
              state = refl;
              is_open = still;
            })
      by_branch Branch.cancels = record { answer = drops; state = refl; is_open = is_open }
      by_branch (Branch.step_timer _ _) = record {
        answer = fails MachineError.step_timeout;
        state = refl;
        is_open = is_open;
      }
      by_branch (Branch.run_timer _ _) = record {
        answer = fails MachineError.run_timeout;
        state = refl;
        is_open = is_open;
      }

  pub stream_transition-Matches :
      (request : Request M) (turn : Turn M CK request.runtime_limits) (ticks : List Tick)
      (step : M.Step) (state : M.State) (channel : Channel M)
      → Indifferent M request
      → channel.left ≡ none
      → WaitMatches
          (transition_or_cancel request turn step state)
          (stream_transition M CK request (streamed turn ticks) step state channel)
  unfolding stream_transition
  stream_transition-Matches request turn ticks step state channel indifferent is_open =
      let act = M.transition turn.choice step state (context M true request) in
      let (act', after, ticked, same, still) =
        run_ticks-silent M request ticks act channel is_open in
      subst
        (λ x. WaitMatches (transition_or_cancel request turn step state) (elim x.0 [
          | none ↦ (ok receiver_closed, state, x.1)
          | some going ↦ end_wait M (stream_branch turn.branch) state going x.1
        ]))
        (sym ticked)
        (end_wait-Matches request turn step state act' after still
          (same ∙ ap (silent M) (indifferent turn.choice step state)))

  -- Two rounds that go the same way, with the same saver after them.
  abbrev pub RoundMatches : Round M CK → StreamRound M CK → Type 0
  RoundMatches (Round.stops r w) (stops r' w' channel) =
      (terminal_event M r' ≡ terminal_event M (as_terminal M r)) × (w' ≡ w) × (channel.left ≡ none)
  RoundMatches (Round.goes p) (goes q) = (q.at ≡ p) × (q.channel.left ≡ none)
  RoundMatches _ _ = ⊥

  send_finished-open :
      (step : M.Step) (result : StepResult) (w : CK.World) (channel : Channel M)
      (go : Channel M → StreamRound M CK)
      → channel.left ≡ none
      → send_finished M CK step result w channel go
        ≡ go (taken M (step_finished step result) none channel)
  unfolding send_finished
  send_finished-open step result w channel go is_open =
      rw (send-open M (step_finished step result) channel is_open) refl

  stream_snapshot-Matches :
      (state : M.State) (output : V → Output M) (terminal : V → Terminal M)
      → ((v : V) → as_terminal M (ok (output v)) ≡ ok (terminal v))
      → stream_snapshot M CK state terminal ≡ as_terminal M (with_snapshot M state output)
  unfolding stream_snapshot with_snapshot
  stream_snapshot-Matches state output terminal same = elim (Result-cases (to_json M state)) [
    | inl (e, bad) ↦ rw bad refl
    | inr (v, made) ↦ rw made (sym (same v))
  ]

  saved_last-Matches :
      (step : M.Step) (result : StepResult) (output : Result (Output M))
      (terminal : Result (Terminal M)) (channel : Channel M) (saved : Result (Unit {0}) × CK.World)
      → terminal ≡ as_terminal M output
      → channel.left ≡ none
      → RoundMatches (saved_last output saved) (sent_last M CK step result terminal channel saved)
  unfolding saved_last sent_last
  saved_last-Matches step result output terminal channel (err e, w) same is_open =
      (refl, refl, is_open)
  saved_last-Matches step result output terminal channel (ok _, w) same is_open =
      rw (send_finished-open step result w channel (λ channel'. stops terminal w channel') is_open)
        (ap (terminal_event M) same, refl, refl)

  saved_next-Matches :
      (p : Position M CK) (step : M.Step) (state : M.State) (channel : Channel M)
      (saved : Result (Unit {0}) × CK.World)
      → channel.left ≡ none
      → RoundMatches (saved_next p step state saved) (sent_next M CK p step state channel saved)
  unfolding saved_next sent_next send_finished
  saved_next-Matches p step state channel (err e, w) is_open = (refl, refl, is_open)
  saved_next-Matches p step state channel (ok _, w) is_open =
      rw (send-open M (step_finished p.current_step StepResult.next) channel is_open) (refl, refl)

  take-Matches :
      (request : Request M) (p : Position M CK) (state : M.State) (w : CK.World)
      (channel : Channel M) (answer : Transition M.Step M.Interrupt M.Output)
      → channel.left ≡ none
      → RoundMatches
          (take_transition request p state w answer)
          (take_stream M CK request p state w channel (stream_answer M answer))
  unfolding take_transition take_stream
  take-Matches request p state w channel (Transition.next step) is_open =
      saved_next-Matches p step state channel _ is_open
  take-Matches request p state w channel (Transition.interrupt found) is_open =
      saved_last-Matches p.current_step StepResult.interrupt _ _ channel _
        (stream_snapshot-Matches state _ (interrupted found) λ v. refl) is_open
  take-Matches request p state w channel (Transition.complete output) is_open =
      saved_last-Matches p.current_step StepResult.complete _ _ channel _
        (stream_snapshot-Matches state _ (completed _ output) λ v. refl) is_open

  pub take_answer-Matches :
      (request : Request M) (p : Position M CK) (w : CK.World)
      (here : Result (Transition M.Step M.Interrupt M.Output) × M.State)
      (there : Result (StreamTransition M.Step M.Interrupt M.Output) × M.State × Channel M)
      → WaitMatches here there
      → RoundMatches (take_answer request p w here) (take_wait M CK request p w there)
  unfolding take_answer take_wait take_stream terminal_event
  take_answer-Matches request p w (r, state) (r', state', channel) matches =
      subst
        (λ a.
          RoundMatches (take_answer request p w (r, state))
            (take_wait M CK request p w (r', a, channel)))
        (sym matches.state) (go r r' matches.answer)
    where
      go :
          (r : Result (Transition M.Step M.Interrupt M.Output))
          (r' : Result (StreamTransition M.Step M.Interrupt M.Output))
          → Matches M r r'
          → RoundMatches
              (take_answer request p w (r, state))
              (take_wait M CK request p w (r', state, channel))
      go _ _ (answered answer) = take-Matches request p state w channel answer matches.is_open
      go _ _ (fails e) = (refl, refl, matches.is_open)
      go _ _ drops = (refl, refl, matches.is_open)
