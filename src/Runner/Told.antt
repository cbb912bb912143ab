-- ===== src/Runner/Told.antt =====
-- What a stream has told when it ends, src/runner.rs.
use typemach.Base.{
  ℕ, ◌+◌, Option, none, some, true, ltb, ◌≡◌, refl, inl, inr, ap, Bool-cases, if◌then◌else◌,
}
use typemach.Run.Request.{StepResult, step_started, step_finished}
use typemach.Error.{Result, ok, err, Result-cases}
use typemach.Checkpoint.Saver.{CheckpointSaver}
use typemach.Machine.{Act, Transition, Machine, to_json}
use typemach.Runner.Resume.{Request}
use typemach.Runner.Invoke.{Position, u32, counted, context}
use typemach.Runner.Channel.{
  StreamTransition, next, interrupt, complete, completed, interrupted, cancelled, receiver_closed,
  Terminal, Channel, taken, run_ticks, end_wait,
}
use typemach.Runner.Stream.{
  StreamTurn, stream_transition, StreamPosition, StreamRound, stops, goes, send_finished, sent_next,
  stream_snapshot, sent_last, take_stream, take_wait, stream_step, stream_round,
}
use typemach.Runner.Protocol.{
  Phase, idle, busy, interrupting, completing, Open, idle_open, busy_open, interrupting_open,
  completing_open, Follows, starts, goes_on, interrupts, completes, Story, tells, send_cases,
  run_ticks-Story, end_wait-Waited, Waited, Ticked,
}

module _ {V : Type 0} (M : Machine V) where
  -- The phase from which the driver can tell this result.
  abbrev pub Fits : Phase M.Step → Option ℕ → Result (Terminal M) → Type 0
  Fits phase left (ok (completed trace output snapshot)) = phase ≡ completing
  Fits phase left (ok (interrupted found snapshot)) = phase ≡ interrupting
  Fits phase left (ok cancelled) = Open phase
  Fits phase left (ok receiver_closed) = left ≡ some 0
  Fits phase left (err e) = Open phase

  pub record Told (request : Request M) (result : Result (Terminal M)) (channel : Channel M)
      : Type 0 where
    pub phase : Phase M.Step
    pub story : Story M request channel.sent phase
    pub fits : Fits phase channel.left result

  pub Told-closed :
      {request : Request M} {phase : Phase M.Step} (channel : Channel M)
      → Story M request channel.sent phase
      → channel.left ≡ some 0
      → Told request (ok receiver_closed) channel
  Told-closed channel story closed = record { phase = _; story = story; fits = closed }

module _ {V : Type 0} (M : Machine V) (CK : CheckpointSaver V) where
  -- A snapshot that fails is told as a failure.
  Told-snapshot :
      (request : Request M) (phase : Phase M.Step) (channel : Channel M) (state : M.State)
      (terminal : V → Terminal M)
      → Story M request channel.sent phase
      → Open phase
      → ((v : V) → Fits M phase channel.left (ok (terminal v)))
      → Told M request (stream_snapshot M CK state terminal) channel
  unfolding stream_snapshot
  Told-snapshot request phase channel state terminal story is_open fits =
      elim (Result-cases (to_json M state)) [
        | inl (e, bad) ↦ rw bad (record { phase = phase; story = story; fits = is_open })
        | inr (v, made) ↦ rw (made) (record { phase = phase; story = story; fits = fits v })
      ]

  -- A round goes on between two steps, or stops with what it has to tell.
  abbrev pub RoundTold : Request M → StreamRound M CK → Type 0
  RoundTold request (stops result w channel) = Told M request result channel
  RoundTold request (goes p) = Story M request p.channel.sent (idle p.at.step_count)

  send_finished-Told :
      (request : Request M) (step : M.Step) (n : ℕ) (result : StepResult) (w : CK.World)
      (channel : Channel M) (phase : Phase M.Step) (go : Channel M → StreamRound M CK)
      → Story M request channel.sent (busy step n)
      → Follows M request (busy step n) (step_finished step result) phase
      → ((after : Option ℕ)
          → Story M request (taken M (step_finished step result) after channel).sent phase
          → RoundTold request (go (taken M (step_finished step result) after channel)))
      → RoundTold request (send_finished M CK step result w channel go)
  unfolding send_finished
  send_finished-Told request step n result w channel phase go story follows rest =
      send_cases M (step_finished step result) channel
        (λ x. RoundTold request (if x.0 then go x.1 else stops (ok receiver_closed) w x.1))
        (λ closed. Told-closed M channel story closed)
        λ after. rest after (tells (step_finished step result) phase story follows)

  sent_last-Told :
      (request : Request M) (step : M.Step) (n : ℕ) (result : StepResult)
      (terminal : Result (Terminal M)) (channel : Channel M) (phase : Phase M.Step)
      (saved : Result (Unit {0}) × CK.World)
      → Story M request channel.sent (busy step n)
      → Follows M request (busy step n) (step_finished step result) phase
      → ((after : Option ℕ)
          → Story M request (taken M (step_finished step result) after channel).sent phase
          → Told M request terminal (taken M (step_finished step result) after channel))
      → RoundTold request (sent_last M CK step result terminal channel saved)
  unfolding sent_last
  sent_last-Told request step n result terminal channel phase (err e, w) story follows rest =
      record { phase = busy step n; story = story; fits = busy_open step n }
  sent_last-Told request step n result terminal channel phase (ok _, w) story follows rest =
      send_finished-Told request step n result w channel phase
        (λ channel'. stops terminal w channel') story follows rest

  sent_next-Told :
      (request : Request M) (p : Position M CK) (step : M.Step) (state : M.State)
      (channel : Channel M) (saved : Result (Unit {0}) × CK.World)
      → Story M request channel.sent (busy p.current_step p.step_count)
      → RoundTold request (sent_next M CK p step state channel saved)
  unfolding sent_next
  sent_next-Told request p step state channel (err e, w) story = record {
    phase = busy p.current_step p.step_count;
    story = story;
    fits = busy_open p.current_step p.step_count;
  }
  sent_next-Told request p step state channel (ok _, w) story =
      send_finished-Told request p.current_step p.step_count StepResult.next w channel
        (idle p.step_count) _ story (goes_on p.current_step p.step_count) λ after told. told

  take_stream-Told :
      (request : Request M) (p : Position M CK) (state : M.State) (w : CK.World)
      (channel : Channel M) (answer : StreamTransition M.Step M.Interrupt M.Output)
      → Story M request channel.sent (busy p.current_step p.step_count)
      → (answer ≡ receiver_closed → channel.left ≡ some 0)
      → RoundTold request (take_stream M CK request p state w channel answer)
  unfolding take_stream
  take_stream-Told request p state w channel (next step) story closed =
      sent_next-Told request p step state channel _ story
  take_stream-Told request p state w channel (interrupt found) story closed =
      sent_last-Told request p.current_step p.step_count StepResult.interrupt _ channel interrupting
        _ story (interrupts p.current_step p.step_count)
        λ after told.
          Told-snapshot request interrupting _ state (interrupted found) told interrupting_open
            λ v. refl
  take_stream-Told request p state w channel (complete output) story closed =
      sent_last-Told request p.current_step p.step_count StepResult.complete _ channel completing _
        story (completes p.current_step p.step_count)
        λ after told.
          Told-snapshot request completing _ state (completed _ output) told completing_open
            λ v. refl
  take_stream-Told request p state w channel cancelled story closed = record {
    phase = busy p.current_step p.step_count;
    story = story;
    fits = busy_open p.current_step p.step_count;
  }
  take_stream-Told request p state w channel receiver_closed story closed =
      Told-closed M channel story (closed refl)

  take_wait-Told :
      (request : Request M) (p : Position M CK) (w : CK.World)
      (waited : Result (StreamTransition M.Step M.Interrupt M.Output) × M.State × Channel M)
      → Waited M request p.current_step p.step_count waited
      → RoundTold request (take_wait M CK request p w waited)
  unfolding take_wait
  take_wait-Told request p w (err e, state, channel) (story, closed) = record {
    phase = busy p.current_step p.step_count;
    story = story;
    fits = busy_open p.current_step p.step_count;
  }
  take_wait-Told request p w (ok answer, state, channel) (story, closed) =
      take_stream-Told request p state w channel answer story (λ h. closed (ap ok h))

  stream_transition-Waited :
      (request : Request M) (turn : StreamTurn M CK request.runtime_limits) (p : Position M CK)
      (channel : Channel M)
      → Story M request channel.sent (busy p.current_step p.step_count)
      → Waited M request p.current_step p.step_count
          (stream_transition M CK request turn p.current_step p.state channel)
  unfolding stream_transition
  stream_transition-Waited request turn p channel story =
      let act = M.transition turn.choice p.current_step p.state (context M true request) in
      ticked_wait (run_ticks M request turn.ticks act channel)
        (run_ticks-Story M request turn.ticks act channel p.current_step p.step_count story)
    where
      ticked_wait :
          (ticked : Option (Act M.State M.Signal (Transition M.Step M.Interrupt M.Output))
            × Channel M)
          → Ticked M request p.current_step p.step_count ticked
          → Waited M request p.current_step p.step_count (elim ticked.0 [
            | none ↦ (ok receiver_closed, p.state, ticked.1)
            | some act' ↦ end_wait M turn.branch p.state act' ticked.1
          ])
      ticked_wait (none, channel') (told, closed) = (told, λ h. closed)
      ticked_wait (some act', channel') told =
          end_wait-Waited M request turn.branch p.state act' channel' p.current_step p.step_count
            told

  pub stream_round-Told :
      (request : Request M) (turn : StreamTurn M CK request.runtime_limits)
      (p : StreamPosition M CK)
      → Story M request p.channel.sent (idle p.at.step_count)
      → RoundTold request (stream_round M CK request turn p)
  unfolding stream_round stream_step
  stream_round-Told request turn p story =
      let step = p.at.current_step in
      let n = u32 (p.at.step_count + 1) in
      elim (Bool-cases (ltb request.runtime_limits.max_steps n)) [
        | inl over ↦
            rw (over, stream_round)
              (record {
                phase = idle p.at.step_count;
                story = story;
                fits = idle_open p.at.step_count;
              })
        | inr within ↦
            rw (within, stream_round)
              (send_cases M (step_started step n) p.channel
                (λ x. RoundTold request (
                  if x.0
                  then take_wait M CK request (counted p.at) (turn.meanwhile p.at.world)
                      (stream_transition M CK request turn step p.at.state x.1)
                  else stops (ok receiver_closed) p.at.world x.1))
                (λ closed. Told-closed M p.channel story closed)
                λ after.
                  let channel = taken M (step_started step n) after p.channel in
                  take_wait-Told request (counted p.at) (turn.meanwhile p.at.world)
                    (stream_transition M CK request turn step p.at.state channel)
                    (stream_transition-Waited request turn (counted p.at) channel (
                      tells (step_started step n) (busy step n) story
                        (starts p.at.step_count step))))
      ]
