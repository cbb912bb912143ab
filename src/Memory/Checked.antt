-- ===== src/Memory/Checked.antt =====
-- What the checks of a commit establish, and the state that its writes build up from it.
use typemach.Base.{
  String, Option, none, some, true, false, List, [], ◌∷◌, ◌≡◌, refl, ◌∙◌, last, not, ◌||◌,
  true_of_not, any, init, arith,
}
use mathlib.Core.Path.{subst}
use typemach.Base.Eq.{◌=?◌, string_eq}
use typemach.Error.{ok, >>=-eq-ok, fail_if, fail_if-eq-ok}
use typemach.Params.{Params}
use typemach.Run.{RunId}
use typemach.Op.{EffectUpdate}
use typemach.Store.{RunCommit, RunFinish, is_terminal, CheckpointWrite}
use typemach.Memory.State.{Inner, MemoryRun, Clock, now_ms}
use typemach.Memory.Validate.{
  scope_key, validate_commit_events, validate_events, validate_event_sequence, validate_finish,
  validate_last,
}
use typemach.Memory.Ops.{
  validate_effect_updates, validate_items, validate_entries, apply_effect_updates, apply_items,
  apply_entries,
}
use typemach.Memory.Leases.{check_memory_lease}
use typemach.Memory.Commit.{
  is_empty_commit, check_commit_shape, check_checkpoint, check_commit, commit_write, commit_rest,
  write_checkpoint, write_events,
}
use typemach.Memory.Grows.{Grows, Grows-trans}
use typemach.Memory.Grows.Writes.{write_checkpoint-Grows, apply_items-Grows, apply_entries-Grows}
use typemach.Memory.Ready.{Ready, Ready-of_ok, apply_effect_updates-Ready}
use typemach.Memory.Frame.{
  Frame, Frame-trans, SameRuns, SameRuns-trans, write_checkpoint-SameRuns,
  apply_effect_updates-Frame, apply_items-Frame, apply_entries-Frame,
}

module _ (P : Params) where
  validate_last_of_ok :
      (events : List P.Event) (o : Option P.Event)
      → validate_last P events o ≡ ok tt
      → (event : P.Event) × (o ≡ some event)
        × (P.event.is_terminal event ≡ true)
        × (any P.event.is_terminal (init events) ≡ false)
  unfolding validate_last
  validate_last_of_ok events none h = cc
  validate_last_of_ok events (some event) h = (event, refl, ground arith, ground arith)

module _ {P : Params} where
  pub record CommitChecked (clock : Clock) (c : RunCommit P) (run : MemoryRun P) (s : Inner P)
      (scope : String) : Type 0 where
    pub lease : check_memory_lease run c.lease (clock.instant 0) ≡ ok tt
    pub checkpoint : check_checkpoint s run c.run_id c.lease (clock.instant 1) c.checkpoint ≡ ok tt
    pub sequence : validate_event_sequence run c.events ≡ ok tt
    pub effects : validate_effect_updates s c.run_id c.effects ≡ ok tt
    pub items : validate_items s c.run_id c.items ≡ ok tt
    pub scoped : scope_key P c.scope ≡ ok scope
    pub entries : validate_entries s scope c.session_id c.entries ≡ ok tt

  -- A chain of checks that has passed has passed each of them.
  pub CommitChecked-of_ok :
      (clock : Clock) (c : RunCommit P) (run : MemoryRun P) (s : Inner P) {scope : String}
      → check_commit clock c run s ≡ ok scope
      → CommitChecked clock c run s scope
  unfolding check_commit
  CommitChecked-of_ok clock c run s {scope} h =
      let (_, lease, h₁) = >>=-eq-ok (check_memory_lease run c.lease (clock.instant 0)) _ h in
      let (_, checkpoint, h₂) =
        >>=-eq-ok (check_checkpoint s run c.run_id c.lease (clock.instant 1) c.checkpoint) _ h₁ in
      let (_, sequence, h₃) = >>=-eq-ok (validate_event_sequence run c.events) _ h₂ in
      let (_, effects, h₄) = >>=-eq-ok (validate_effect_updates s c.run_id c.effects) _ h₃ in
      let (_, items, h₅) = >>=-eq-ok (validate_items s c.run_id c.items) _ h₄ in
      let (key, scoped, h₆) = >>=-eq-ok (scope_key P c.scope) _ h₅ in
      let (_, entries, h₇) = >>=-eq-ok (validate_entries s key c.session_id c.entries) _ h₆ in
      let same : key ≡ scope = cc in
      record {
        lease = lease;
        checkpoint = checkpoint;
        sequence = sequence;
        effects = effects;
        items = items;
        scoped = scoped ∙ h₇;
        entries = subst (λ k. validate_entries s k c.session_id c.entries ≡ ok tt) same entries;
      }

  -- The state once a commit has written its checkpoint, effects, items and entries.
  unfoldable pub written : Clock → String → RunCommit P → MemoryRun P → Inner P → Inner P
  written clock scope c run s =
      apply_entries (now_ms clock 2) scope c.run_id c.session_id run.start.thread_id c.entries (
        apply_items (now_ms clock 1) c.run_id c.items
          (apply_effect_updates (now_ms clock 0) c.run_id c.effects
            (write_checkpoint c.checkpoint s)).1)

  write_checkpoint-Ready :
      (w : Option (CheckpointWrite P.Value)) (s : Inner P) (run_id : RunId)
      (us : List (EffectUpdate P.Value))
      → Ready s run_id us
      → Ready (write_checkpoint w s) run_id us
  unfolding write_checkpoint
  write_checkpoint-Ready none s run_id us h = h
  write_checkpoint-Ready (some w) s run_id us h = go us h
    where
      go :
          (vs : List (EffectUpdate P.Value))
          → Ready s run_id vs
          → Ready (write_checkpoint (some w) s) run_id vs
      go [] h = tt
      go (v ∷ vs) h = (h.0, h.1, go vs h.2)

  module _ (clock : Clock) (scope : String) (c : RunCommit P) (run : MemoryRun P) (s : Inner P)
      (checked : validate_effect_updates s c.run_id c.effects ≡ ok tt) where
    ready : Ready (write_checkpoint c.checkpoint s) c.run_id c.effects
    ready =
        write_checkpoint-Ready c.checkpoint s c.run_id c.effects
          (Ready-of_ok s c.run_id c.effects checked)

    -- Past the checks the writes of effects go through, and the events follow.
    pub commit_write_lem :
        commit_write clock scope c run s ≡ write_events c run (written clock scope c run s)
    unfolding commit_write commit_rest written
    commit_write_lem =
        let t = write_checkpoint c.checkpoint s in
        let (passed, _) = apply_effect_updates-Ready (now_ms clock 0) c.run_id c.effects t ready in
        rw (passed, commit_write)

    pub written-Grows : Grows s (written clock scope c run s)
    unfolding written
    written-Grows =
        let t = write_checkpoint c.checkpoint s in
        let u = (apply_effect_updates (now_ms clock 0) c.run_id c.effects t).1 in
        let v = apply_items (now_ms clock 1) c.run_id c.items u in
        Grows-trans s t _ (write_checkpoint-Grows c.checkpoint s) (
          Grows-trans t u _
            (apply_effect_updates-Ready (now_ms clock 0) c.run_id c.effects t ready).1
            (Grows-trans u v _ (apply_items-Grows _ c.run_id c.items u)
              (apply_entries-Grows _ scope c.run_id c.session_id run.start.thread_id c.entries v)))

  -- After the checkpoint the runs, the leases, the checkpoints and the keys stay.
  pub written-Frame :
      (clock : Clock) (scope : String) (c : RunCommit P) (run : MemoryRun P) (s : Inner P)
      → Frame (write_checkpoint c.checkpoint s) (written clock scope c run s)
  unfolding written
  written-Frame clock scope c run s =
      let t = write_checkpoint c.checkpoint s in
      let u = (apply_effect_updates (now_ms clock 0) c.run_id c.effects t).1 in
      let v = apply_items (now_ms clock 1) c.run_id c.items u in
      Frame-trans t u _ (apply_effect_updates-Frame _ c.run_id c.effects t) (
        Frame-trans u v _ (apply_items-Frame _ c.run_id c.items u)
          (apply_entries-Frame _ scope c.run_id c.session_id run.start.thread_id c.entries v))

  pub written-SameRuns :
      (clock : Clock) (scope : String) (c : RunCommit P) (run : MemoryRun P) (s : Inner P)
      → SameRuns s (written clock scope c run s)
  written-SameRuns clock scope c run s =
      SameRuns-trans s (write_checkpoint c.checkpoint s) _
        (write_checkpoint-SameRuns c.checkpoint s) (written-Frame clock scope c run s).same

  -- A commit that finishes its run has a last event, which is terminal, and no other one is.
  pub record ShapeOk (c : RunCommit P) : Type 0 where
    pub some_write : is_empty_commit c ≡ false
    pub events : validate_events P c.run_id c.session_id c.events ≡ ok tt
    pub finish : validate_finish c c.finish ≡ ok tt

  pub ShapeOk-of_ok : (c : RunCommit P) → check_commit_shape c ≡ ok tt → ShapeOk c
  unfolding check_commit_shape validate_commit_events
  ShapeOk-of_ok c h =
      let (_, nonempty, h₁) = >>=-eq-ok (fail_if (is_empty_commit c) _) _ h in
      let (_, events, h₂) = >>=-eq-ok (validate_events P c.run_id c.session_id c.events) _ h₁ in
      record { some_write = ground arith; events = events; finish = h₂ }

  pub record FinishOk (c : RunCommit P) (finish : RunFinish P) (event : P.Event) : Type 0 where
    pub last_event : last c.events ≡ some event
    pub terminal : P.event.is_terminal event ≡ true
    pub only : any P.event.is_terminal (init c.events) ≡ false
    pub status : is_terminal finish.status ≡ true

  pub FinishOk-of_ok :
      (c : RunCommit P) (finish : RunFinish P)
      → validate_finish c (some finish) ≡ ok tt
      → (event : P.Event) × FinishOk c finish event
  unfolding validate_finish
  FinishOk-of_ok c finish h =
      let (target, h₁) =
        fail_if-eq-ok (not (finish.run_id =? c.run_id) || not (finish.session_id =? c.session_id)) _
          _ h in
      let (status, h₂) = fail_if-eq-ok (not (is_terminal finish.status)) _ _ h₁ in
      let (event, last_event, terminal, only) = validate_last_of_ok P c.events (last c.events) h₂ in
      (
        event,
        record {
          last_event = last_event;
          terminal = terminal;
          only = only;
          status = true_of_not (is_terminal finish.status) status;
        },
      )

  -- An open commit leaves its run open.
  pub validate_finish-none :
      (c : RunCommit P) → validate_finish c none ≡ ok tt → any P.event.is_terminal c.events ≡ false
  unfolding validate_finish
  validate_finish-none c h = ground arith
