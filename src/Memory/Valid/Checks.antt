-- ===== src/Memory/Valid/Checks.antt =====
-- What the checks of a call say of the events that it writes.
use typemach.Base.{
  String, Option, none, some, true, false, [], ◌∷◌, ◌≡◌, refl, not, is_some, true_of_not,
}
use typemach.Base.Eq.{◌=?◌, string_eq}
use typemach.Run.{RunId}
use typemach.Error.{ok, >>=-eq-ok, fail_if-eq-ok, fail_if-ok}
use typemach.Params.{Params}
use typemach.Store.{RunFinishRecord, RunCommit, is_terminal}
use typemach.Memory.State.{Inner, MemoryRun, Clock}
use typemach.Memory.Validate.{
  scope_key, validate_event_run, validate_next_seq, validate_event_sequence,
}
use typemach.Memory.Ops.{validate_entries}
use typemach.Memory.Finish.{
  check_finish, check_finish_target, check_finish_open, check_record, check_record_open,
}
use typemach.Memory.Checked.{CommitChecked-of_ok, ShapeOk-of_ok}
use typemach.Memory.Cases.Finish.{FinishPasses}
use typemach.Memory.Cases.Commit.{CommitPasses}
use typemach.Memory.Valid.Log.{Ordered-of_ok, Belongs-of_ok, Belongs-of_run, next_seq-Ordered}
use typemach.Memory.Valid.Runs.{Fits}

free_of {ℓ} : {A : Type ℓ} (o : Option A) → is_some o ≡ false → o ≡ none
free_of none h = refl
free_of (some a) h = cc

eq_of_not : (a b : String) → not (a =? b) ≡ false → a ≡ b
eq_of_not a b h = (string_eq.beq_iff a b).0 (true_of_not _ h)

module _ {P : Params} where
  pub record FinishFits (finish : RunFinishRecord P) (run : MemoryRun P) : Type 0 where
    pub fits : Fits finish.run_id run (finish.terminal_event ∷ [])
    pub terminal : P.event.is_terminal finish.terminal_event ≡ true
    pub status : is_terminal finish.status ≡ true
    pub unleased : run.lease ≡ none

  pub FinishFits-of_passes :
      (finish : RunFinishRecord P) (s : Inner P) (scope : String) (run : MemoryRun P)
      → FinishPasses finish s scope run
      → FinishFits finish run
  unfolding check_finish check_finish_target check_finish_open
  FinishFits-of_passes finish s scope run passes =
      let event = finish.terminal_event in
      let (_, belongs, h₁) =
        >>=-eq-ok (validate_event_run P finish.run_id finish.session_id event) _ passes.shape in
      let (terminal, h₂) = fail_if-eq-ok (not (P.event.is_terminal event)) _ _ h₁ in
      let (session, _) =
        fail_if-eq-ok (not (finish.session_id =? run.start.session_id)) _ _ passes.target in
      let (unleased, k₁) = fail_if-eq-ok (is_some run.lease) _ _ passes.checked in
      let (key, _, k₂) = >>=-eq-ok (scope_key P finish.scope) _ k₁ in
      let (_, _, k₃) = >>=-eq-ok (validate_entries s key finish.session_id finish.entries) _ k₂ in
      let (_, next, _) = >>=-eq-ok (validate_next_seq run event) _ k₃ in
      record {
        fits = record {
          still_open = passes.still_open;
          ordered = next_seq-Ordered P run event next;
          belongs = (
            rw (← eq_of_not finish.session_id run.start.session_id session)
                (Belongs-of_run P finish.run_id finish.session_id event belongs),
            tt,
          );
        };
        terminal = true_of_not _ terminal;
        status = true_of_not _ (fail_if-ok _ _ h₂);
        unleased = free_of run.lease unleased;
      }

  pub record RecordFits (run_id : RunId) (event : P.Event) (run : MemoryRun P) : Type 0 where
    pub fits : Fits run_id run (event ∷ [])
    pub not_terminal : P.event.is_terminal event ≡ false
    pub unleased : run.lease ≡ none

  pub RecordFits-of_ok :
      (run_id : RunId) (event : P.Event) (run : MemoryRun P)
      → check_record P run_id event ≡ ok tt
      → is_terminal run.status ≡ false
      → check_record_open event run ≡ ok tt
      → RecordFits run_id event run
  unfolding check_record check_record_open
  RecordFits-of_ok run_id event run shape live checked =
      let (not_terminal, h₁) = fail_if-eq-ok (P.event.is_terminal event) _ _ shape in
      let (unleased, k₁) = fail_if-eq-ok (is_some run.lease) _ _ checked in
      let (session, next) =
        fail_if-eq-ok (not (P.event.session_id event =? run.start.session_id)) _ _ k₁ in
      record {
        fits = record {
          still_open = live;
          ordered = next_seq-Ordered P run event next;
          belongs = (
            (
              eq_of_not (P.event.run_id event) run_id (fail_if-ok _ _ h₁),
              eq_of_not (P.event.session_id event) run.start.session_id session,
            ),
            tt,
          );
        };
        not_terminal = not_terminal;
        unleased = free_of run.lease unleased;
      }

  pub CommitFits-of_passes :
      (clock : Clock) (c : RunCommit P) (s : Inner P) (scope : String) (run : MemoryRun P)
      → CommitPasses clock c s scope run
      → Fits c.run_id run c.events
  unfolding validate_event_sequence
  CommitFits-of_passes clock c s scope run passes =
      let checked = CommitChecked-of_ok clock c run s passes.checked in
      let shape = ShapeOk-of_ok c passes.shape in
      record {
        still_open = passes.still_open;
        ordered = Ordered-of_ok P _ c.events checked.sequence;
        belongs =
            rw ((string_eq.beq_iff run.start.session_id c.session_id).0 passes.session)
              (Belongs-of_ok P c.run_id c.session_id c.events shape.events);
      }
