-- ===== src/Memory/Valid/Log.antt =====
-- The checks on the numbers of events, and the order of the log.
use typemach.Base.{
  Option, none, some, false, List, [], ◌∷◌, ◌++◌, ◌≡◌, refl, last, any, map_option, All, arith, not,
  Bool,
}
use typemach.Base.Int.{ℤ, pos, ◌<ℤ◌, leb_ℤ}
use typemach.Base.Eq.{◌=?◌, string_eq}
use typemach.Run.{RunId, SessionId}
use typemach.Error.{ok, >>=-eq-ok, fail_if-eq-ok, fail_if-ok}
use typemach.Params.{Params}
use typemach.Memory.State.{MemoryRun}
use typemach.Memory.Validate.{
  not_after, validate_sequence, validate_next_seq, validate_events, validate_event_run,
}
use typemach.Memory.Valid.{IsAfter, Ordered, Belongs}

module _ (P : Params) where
  not_after_sound :
      (before : Option ℤ) (e : P.Event)
      → not_after P before e ≡ false
      → IsAfter P before (P.event.seq e)
  not_after_sound none e h = tt
  not_after_sound (some n) e h = ground arith

  positive : (e : P.Event) → leb_ℤ (P.event.seq e) (pos 0) ≡ false → pos 0 <ℤ P.event.seq e
  positive e h = ground arith

  pub Ordered-of_ok :
      (before : Option ℤ) (es : List P.Event)
      → validate_sequence P before es ≡ ok tt
      → Ordered P before es
  unfolding validate_sequence
  Ordered-of_ok before [] h = tt
  Ordered-of_ok before (e ∷ es) h =
      let (above, h₁) = fail_if-eq-ok (leb_ℤ (P.event.seq e) (pos 0)) _ _ h in
      let (later, h₂) = fail_if-eq-ok (not_after P before e) _ _ h₁ in
      (positive e above, not_after_sound before e later, Ordered-of_ok (some (P.event.seq e)) es h₂)

  abbrev last_seq : Option ℤ → List P.Event → Option ℤ
  last_seq before [] = before
  last_seq before (e ∷ es) = last_seq (some (P.event.seq e)) es

  last_seq-cons :
      (before : Option ℤ) (e : P.Event) (es : List P.Event)
      → last_seq before (e ∷ es) ≡ map_option P.event.seq (last (e ∷ es))
  last_seq-cons before e [] = refl
  last_seq-cons before e (f ∷ es) = last_seq-cons (some (P.event.seq e)) f es

  last_seq-last : (es : List P.Event) → last_seq none es ≡ map_option P.event.seq (last es)
  last_seq-last [] = refl
  last_seq-last (e ∷ es) = last_seq-cons none e es

  Ordered-append_from :
      (before : Option ℤ) (es fs : List P.Event)
      → Ordered P before es
      → Ordered P (last_seq before es) fs
      → Ordered P before (es ++ fs)
  Ordered-append_from before [] fs h k = k
  Ordered-append_from before (e ∷ es) fs h k =
      (h.0, h.1, Ordered-append_from (some (P.event.seq e)) es fs h.2 k)

  -- A log in order, and events in order from its last one on.
  pub Ordered-append :
      (es fs : List P.Event)
      → Ordered P none es
      → Ordered P (map_option P.event.seq (last es)) fs
      → Ordered P none (es ++ fs)
  Ordered-append es fs h k = Ordered-append_from none es fs h (rw (last_seq-last es) k)

  -- The last number of a log in order is positive.
  pub Ordered-last :
      (before : Option ℤ) (es : List P.Event) {f : P.Event}
      → Ordered P before es
      → last es ≡ some f
      → pos 0 <ℤ P.event.seq f
  Ordered-last before [] h e = cc
  Ordered-last before (x ∷ []) {f} h e = let same : x ≡ f = cc in rw (← same) h.0
  Ordered-last before (x ∷ y ∷ es) h e = Ordered-last (some (P.event.seq x)) (y ∷ es) h.2 e

  pub Belongs-of_run :
      (run_id : RunId) (session : SessionId) (e : P.Event)
      → validate_event_run P run_id session e ≡ ok tt
      → Belongs P run_id session e
  unfolding validate_event_run
  Belongs-of_run run_id session e h =
      let (run, h₁) = fail_if-eq-ok (not (P.event.run_id e =? run_id)) _ _ h in
      (
        ground (arith, (string_eq.beq_iff (P.event.run_id e) run_id).0),
        ground (arith, (string_eq.beq_iff (P.event.session_id e) session).0),
      )

  pub Belongs-of_ok :
      (run_id : RunId) (session : SessionId) (es : List P.Event)
      → validate_events P run_id session es ≡ ok tt
      → All (Belongs P run_id session) es
  unfolding validate_events
  Belongs-of_ok run_id session [] h = tt
  Belongs-of_ok run_id session (e ∷ es) h =
      let (_, mine, h₁) = >>=-eq-ok (validate_event_run P run_id session e) _ h in
      let (_, h₂) = fail_if-eq-ok (leb_ℤ (P.event.seq e) (pos 0)) _ _ h₁ in
      (Belongs-of_run run_id session e mine, Belongs-of_ok run_id session es h₂)

  pub Belongs-append :
      (run_id : RunId) (session : SessionId) (es fs : List P.Event)
      → All (Belongs P run_id session) es
      → All (Belongs P run_id session) fs
      → All (Belongs P run_id session) (es ++ fs)
  Belongs-append run_id session [] fs h k = k
  Belongs-append run_id session (e ∷ es) fs h k = (h.0, Belongs-append run_id session es fs h.1 k)

  pub any-append :
      (p : P.Event → Bool) (es fs : List P.Event)
      → any p es ≡ false
      → any p fs ≡ false
      → any p (es ++ fs) ≡ false
  any-append p [] fs h k = k
  any-append p (e ∷ es) fs h k = ground (arith, any-append p es fs)

  -- The check on one event.
  pub next_seq-Ordered :
      (run : MemoryRun P) (e : P.Event)
      → validate_next_seq run e ≡ ok tt
      → Ordered P (map_option P.event.seq (last run.events)) (e ∷ [])
  unfolding validate_next_seq
  next_seq-Ordered run e h =
      let (above, h₁) = fail_if-eq-ok (leb_ℤ (P.event.seq e) (pos 0)) _ _ h in
      (positive e above, not_after_sound _ e (fail_if-ok _ _ h₁), tt)
