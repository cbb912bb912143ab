-- ===== src/Runner/Race.antt =====
-- A cancellation that races with the start of its run, src/runner.rs.
use typemach.Base.{
  ℕ, some, true, ◌≡◌, ◌≢◌, refl, sym, ◌∙◌, inl, inr, arith, Bool-cases, Option-cases,
}
use typemach.Base.Eq.{string_eq, eq-cases}
use typemach.Base.Map.{get, get-insert_self, get-insert_ne, get-remove_ne}
use typemach.Run.{RunId}
use typemach.Runner.Active.{
  Active, owns_entry, cancel, is_cancelled, mark, signal_active, look, enter, leave, unmark, Micro,
  marks, signals, looks, enters, leaves, unmarks, perform,
}

-- How far `cancel_run` and `register_active` are.
pub data CancelPoint : Type 0 where
  unmarked : CancelPoint
  marked : CancelPoint
  signalled : CancelPoint

pub data RegisterPoint : Type 0 where
  outside : RegisterPoint
  looked : RegisterPoint
  entered : RegisterPoint
  registered : RegisterPoint

-- A step that neither ends the run nor puts another in its place.
abbrev pub Spares : RunId → Micro → Type 0
Spares run_id (enters k control) = k ≢ run_id
Spares run_id (leaves k control) = k ≢ run_id
Spares run_id (unmarks k) = k ≢ run_id
Spares run_id _ = Unit {0}

-- One `cancel_run` and one `register_active` of a run, and steps of other tasks, in any order that
-- keeps to the order of each.
pub data Race (run_id : RunId) (control : ℕ) : CancelPoint → RegisterPoint → Active → Type 0 where
  begins : (s : Active) → Race run_id control unmarked outside s
  marks_it :
      {r : RegisterPoint} {s : Active} (t : Active)
      → Race run_id control unmarked r s
      → t ≡ perform (marks run_id) s
      → Race run_id control marked r t
  signals_it :
      {r : RegisterPoint} {s : Active} (t : Active)
      → Race run_id control marked r s
      → t ≡ perform (signals run_id) s
      → Race run_id control signalled r t
  looks_first :
      {c : CancelPoint} {s : Active} (t : Active)
      → Race run_id control c outside s
      → t ≡ perform (looks run_id control) s
      → Race run_id control c looked t
  enters_it :
      {c : CancelPoint} {s : Active} (t : Active)
      → Race run_id control c looked s
      → t ≡ perform (enters run_id control) s
      → Race run_id control c entered t
  looks_again :
      {c : CancelPoint} {s : Active} (t : Active)
      → Race run_id control c entered s
      → t ≡ perform (looks run_id control) s
      → Race run_id control c registered t
  others :
      {c : CancelPoint} {r : RegisterPoint} {s : Active} (m : Micro) (t : Active)
      → Race run_id control c r s
      → Spares run_id m
      → t ≡ perform m s
      → Race run_id control c r t

module _ (run_id : RunId) (control : ℕ) where
  abbrev Marked : CancelPoint → Active → Type 0
  Marked unmarked s = Unit {0}
  Marked _ s = is_cancelled run_id s ≡ true

  abbrev Entered : RegisterPoint → Active → Type 0
  Entered entered s = get run_id s.active_runs ≡ some control
  Entered registered s = get run_id s.active_runs ≡ some control
  Entered _ s = Unit {0}

  abbrev Flagged : CancelPoint → RegisterPoint → Active → Type 0
  Flagged signalled registered s = s.flags control ≡ true
  Flagged _ _ s = Unit {0}

  -- What a step of any task keeps.
  record Kept (s t : Active) : Type 0 where
    mark : is_cancelled run_id s ≡ true → is_cancelled run_id t ≡ true
    entry : get run_id s.active_runs ≡ some control → get run_id t.active_runs ≡ some control
    flag : s.flags control ≡ true → t.flags control ≡ true

  cancel-Kept : (other : ℕ) (s : Active) → Kept s (cancel other s)
  unfolding cancel is_cancelled
  cancel-Kept other s = record { mark = λ h. h; entry = λ h. h; flag = λ h. ground (arith, h) }

  look-Kept : (k : RunId) (other : ℕ) (s : Active) → Kept s (look k other s)
  unfolding look
  look-Kept k other s = elim (Bool-cases (is_cancelled k s)) [
    | inl hit ↦ rw hit (cancel-Kept other s)
    | inr miss ↦ rw miss (record { mark = λ h. h; entry = λ h. h; flag = λ h. h })
  ]

  signal-Kept : (k : RunId) (s : Active) → Kept s (signal_active k s)
  unfolding signal_active
  signal-Kept k s = elim (Option-cases (get k s.active_runs)) [
    | inl absent ↦
        rw (absent, signal_active) (record { mark = λ h. h; entry = λ h. h; flag = λ h. h })
    | inr (other, found) ↦ rw (found, signal_active) (cancel-Kept other s)
  ]

  mark-Kept : (k : RunId) (s : Active) → Kept s (mark k s)
  unfolding mark is_cancelled
  mark-Kept k s = record {
    mark = λ h. elim (eq-cases run_id k) [
      | inl (_, same) ↦ rw (same, get-insert_self k tt s.cancelled_runs) refl
      | inr (_, apart) ↦ rw (get-insert_ne run_id k tt s.cancelled_runs apart) h
    ];
    entry = λ h. h;
    flag = λ h. h;
  }

  perform-Kept : (m : Micro) (s : Active) → Spares run_id m → Kept s (perform m s)
  unfolding perform enter leave unmark is_cancelled
  perform-Kept (marks k) s spared = mark-Kept k s
  perform-Kept (signals k) s spared = signal-Kept k s
  perform-Kept (looks k other) s spared = look-Kept k other s
  perform-Kept (enters k other) s spared = record {
    mark = λ h. h;
    entry = λ h. get-insert_ne run_id k other s.active_runs (λ same. spared (sym same)) ∙ h;
    flag = λ h. h;
  }
  perform-Kept (leaves k other) s spared = elim (Bool-cases (owns_entry k other s)) [
    | inl own ↦
        rw (own, perform, leave)
          (record {
            mark = λ h. h;
            entry = λ h. get-remove_ne run_id k s.active_runs (λ same. spared (sym same)) ∙ h;
            flag = λ h. h;
          })
    | inr foreign ↦
        rw (foreign, perform, leave) (record { mark = λ h. h; entry = λ h. h; flag = λ h. h })
  ]
  perform-Kept (unmarks k) s spared = record {
    mark = λ h. rw (get-remove_ne run_id k s.cancelled_runs (λ same. spared (sym same))) h;
    entry = λ h. h;
    flag = λ h. h;
  }

  record Invariant (c : CancelPoint) (r : RegisterPoint) (s : Active) : Type 0 where
    mark : Marked c s
    entry : Entered r s
    flag : Flagged c r s

  keep_mark : (c : CancelPoint) {s t : Active} → Kept s t → Marked c s → Marked c t
  keep_mark unmarked kept h = tt
  keep_mark marked kept h = kept.mark h
  keep_mark signalled kept h = kept.mark h

  keep_entry : (r : RegisterPoint) {s t : Active} → Kept s t → Entered r s → Entered r t
  keep_entry outside kept h = tt
  keep_entry looked kept h = tt
  keep_entry entered kept h = kept.entry h
  keep_entry registered kept h = kept.entry h

  keep_flag :
      (c : CancelPoint) (r : RegisterPoint) {s t : Active}
      → Kept s t
      → Flagged c r s
      → Flagged c r t
  keep_flag signalled registered kept h = kept.flag h
  keep_flag signalled outside kept h = tt
  keep_flag signalled looked kept h = tt
  keep_flag signalled entered kept h = tt
  keep_flag unmarked r kept h = tt
  keep_flag marked r kept h = tt

  cancel-flag : (s : Active) → (cancel control s).flags control ≡ true
  unfolding cancel
  cancel-flag s = ground arith

  -- `cancel_run` finds the entry and sets its flag.
  signal-Flagged :
      (r : RegisterPoint) (s : Active) → Entered r s → Flagged signalled r (signal_active run_id s)
  unfolding signal_active
  signal-Flagged outside s h = tt
  signal-Flagged looked s h = tt
  signal-Flagged entered s h = tt
  signal-Flagged registered s h = rw (h, signal_active) (cancel-flag s)

  -- `register_active` finds the mark and sets the flag.
  look-Flagged :
      (c : CancelPoint) (s : Active) → Marked c s → Flagged c registered (look run_id control s)
  unfolding look
  look-Flagged unmarked s h = tt
  look-Flagged marked s h = tt
  look-Flagged signalled s h = rw (h, look) (cancel-flag s)

  mark-hit : (s : Active) → is_cancelled run_id (mark run_id s) ≡ true
  unfolding mark is_cancelled
  mark-hit s = rw (get-insert_self run_id tt s.cancelled_runs) refl

  enter-Marked : (c : CancelPoint) (s : Active) → Marked c s → Marked c (enter run_id control s)
  unfolding enter is_cancelled
  enter-Marked unmarked s h = tt
  enter-Marked marked s h = h
  enter-Marked signalled s h = h

  enter-entry : (s : Active) → get run_id (enter run_id control s).active_runs ≡ some control
  unfolding enter
  enter-entry s = get-insert_self run_id control s.active_runs

  looked-Flagged : (c : CancelPoint) (s : Active) → Flagged c looked s
  looked-Flagged unmarked s = tt
  looked-Flagged marked s = tt
  looked-Flagged signalled s = tt

  entered-Flagged : (c : CancelPoint) (s : Active) → Flagged c entered s
  entered-Flagged unmarked s = tt
  entered-Flagged marked s = tt
  entered-Flagged signalled s = tt

  Race-Invariant :
      {c : CancelPoint} {r : RegisterPoint} {s : Active}
      → Race run_id control c r s
      → Invariant c r s
  unfolding perform
  Race-Invariant (begins s) = record { mark = tt; entry = tt; flag = tt }
  Race-Invariant (marks_it {r} {s} t race is) =
      let before = Race-Invariant race in
      let kept = mark-Kept run_id s in
      rw is (record { mark = mark-hit s; entry = keep_entry r kept before.entry; flag = tt })
  Race-Invariant (signals_it {r} {s} t race is) =
      let before = Race-Invariant race in
      let kept = signal-Kept run_id s in
      rw is (record {
        mark = kept.mark before.mark;
        entry = keep_entry r kept before.entry;
        flag = signal-Flagged r s before.entry;
      })
  Race-Invariant (looks_first {c} {s} t race is) =
      let before = Race-Invariant race in
      rw is (record {
        mark = keep_mark c (look-Kept run_id control s) before.mark;
        entry = tt;
        flag = looked-Flagged c (look run_id control s);
      })
  Race-Invariant (enters_it {c} {s} t race is) =
      let before = Race-Invariant race in
      rw is (record {
        mark = enter-Marked c s before.mark;
        entry = enter-entry s;
        flag = entered-Flagged c (enter run_id control s);
      })
  Race-Invariant (looks_again {c} {s} t race is) =
      let before = Race-Invariant race in
      let kept = look-Kept run_id control s in
      rw is (record {
        mark = keep_mark c kept before.mark;
        entry = kept.entry before.entry;
        flag = look-Flagged c s before.mark;
      })
  Race-Invariant (others {c} {r} {s} m t race spared is) =
      let before = Race-Invariant race in
      let kept = perform-Kept m s spared in
      rw is (record {
        mark = keep_mark c kept before.mark;
        entry = keep_entry r kept before.entry;
        flag = keep_flag c r kept before.flag;
      })

-- No cancellation is lost: once `cancel_run` and `register_active` of a run have both been made, the
-- run's flag is set, in whatever order their steps and those of other tasks came. The others neither
-- end the run nor put another in its place.
pub cancel_run-reaches :
    (run_id : RunId) (control : ℕ) (s : Active)
    → Race run_id control signalled registered s
    → s.flags control ≡ true
cancel_run-reaches run_id control s race = (Race-Invariant run_id control race).flag
