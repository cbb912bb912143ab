-- ===== src/Memory/Pages.antt =====
-- `list_events` of src/store/memory.rs, page by page.
use typemach.Base.{
  ℕ, ◌<◌, zero, suc, Option, none, some, true, false, List, [], ◌∷◌, ◌++◌, ◌≡◌, refl, sym, ◌∙◌, ap,
  ◌⊎◌, inl, inr, length, last, take, ltb, arith, ◌==◌, All, Bool-cases,
}
use typemach.Base.Int.{ℤ, ◌<ℤ◌, ◌≤ℤ◌, ltb_ℤ}
use typemach.Base.Sort.{IsChain, sort_by_chain}
use typemach.Run.{RunId}
use typemach.Error.{ok}
use typemach.Op.{Page}
use typemach.Params.{Params}
use typemach.Memory.State.{Inner, MemoryRun}
use typemach.Memory.Queries.{filter_by, page_of, event_le, scoped_run, events_after, list_events}
use typemach.Memory.Valid.{IsAfter, Ordered}

module _ (P : Params) where
  -- The events after a number.
  abbrev pub later : ℤ → List P.Event → List P.Event
  later n es = filter_by (λ e. ltb_ℤ n (P.event.seq e)) es

  earlier-Ordered :
      (before : Option ℤ) (n : ℤ) (es : List P.Event)
      → IsAfter P before n
      → Ordered P (some n) es
      → Ordered P before es
  earlier-Ordered before n [] h o = tt
  earlier-Ordered none n (e ∷ es) h o = (o.0, tt, o.2)
  earlier-Ordered (some b) n (e ∷ es) h o = (o.0, omega (arith, h, o.1), o.2)

  later-Ordered :
      (before : Option ℤ) (n : ℤ) (es : List P.Event)
      → Ordered P before es
      → Ordered P before (later n es)
  unfolding filter_by
  later-Ordered before n [] o = tt
  later-Ordered before n (e ∷ es) o =
      let rest = later-Ordered (some (P.event.seq e)) n es o.2 in
      elim (Bool-cases (ltb_ℤ n (P.event.seq e))) [
        | inl kept ↦ rw (kept, filter_by) (o.0, o.1, rest)
        | inr dropped ↦
            rw (dropped, filter_by) (earlier-Ordered before (P.event.seq e) (later n es) o.1 rest)
      ]

  Ordered-IsChain :
      (before : Option ℤ) (es : List P.Event) → Ordered P before es → IsChain (event_le P) es
  Ordered-IsChain before [] o = tt
  Ordered-IsChain before (e ∷ []) o = tt
  Ordered-IsChain before (e ∷ f ∷ es) o =
      (ground (arith, o.2.1), Ordered-IsChain (some (P.event.seq e)) (f ∷ es) o.2)

  -- All of a log that starts after `n` is later than `n`.
  pub later-all : (n m : ℤ) (es : List P.Event) → n ≤ℤ m → Ordered P (some m) es → later n es ≡ es
  unfolding filter_by
  later-all n m [] h o = refl
  later-all n m (e ∷ es) h o =
      let past : ltb_ℤ n (P.event.seq e) ≡ true = ground (arith, h, o.1) in
      let rest = later-all n (P.event.seq e) es (omega (arith, h, o.1)) o.2 in
      rw (past, filter_by, rest) refl

  -- What is later than `n` and then later than `m` is later than the greater.
  later-later : (n m : ℤ) (es : List P.Event) → n ≤ℤ m → later m (later n es) ≡ later m es
  unfolding filter_by
  later-later n m [] h = refl
  later-later n m (e ∷ es) h = elim (Bool-cases (ltb_ℤ n (P.event.seq e))) [
    | inl kept ↦ elim (Bool-cases (ltb_ℤ m (P.event.seq e))) [
      | inl far ↦ rw (kept, filter_by, far, later-later n m es h) refl
      | inr near ↦ rw (kept, filter_by, near, later-later n m es h) refl
    ]
    | inr dropped ↦
        let near : ltb_ℤ m (P.event.seq e) ≡ false = ground (arith, h, dropped) in
        rw (dropped, filter_by, near, later-later n m es h) refl
  ]

  taken-after :
      (b : ℤ) (k : ℕ) (es : List P.Event) {f : P.Event}
      → Ordered P (some b) es
      → last (take k es) ≡ some f
      → b <ℤ P.event.seq f
  taken-after b zero es o h = cc
  taken-after b (suc k) [] o h = cc
  taken-after b (suc zero) (e ∷ es) {f} o h = let same : e ≡ f = cc in rw (← same) o.1
  taken-after b (suc (suc k)) (e ∷ []) {f} o h = let same : e ≡ f = cc in rw (← same) o.1
  taken-after b (suc (suc k)) (e ∷ g ∷ es) {f} o h =
      let far = taken-after (P.event.seq e) (suc k) (g ∷ es) o.2 h in omega (arith, o.1, far)

  near-later :
      (f e : P.Event) (xs es : List P.Event)
      → ltb_ℤ (P.event.seq f) (P.event.seq e) ≡ false
      → (e ∷ xs) ++ later (P.event.seq f) (e ∷ es) ≡ e ∷ xs ++ later (P.event.seq f) es
  unfolding filter_by
  near-later f e xs es h = rw (h, filter_by) refl

  split-one :
      (e : P.Event) (es : List P.Event)
      → Ordered P (some (P.event.seq e)) es
      → e ∷ es ≡ (e ∷ []) ++ later (P.event.seq e) (e ∷ es)
  split-one e es o =
      let rest = later-all (P.event.seq e) (P.event.seq e) es (omega arith) o in
      ap (λ x. e ∷ x) (sym rest) ∙ sym (near-later e e [] es (ground arith))

  -- A prefix, and what is later than its last event.
  split-later :
      (before : Option ℤ) (k : ℕ) (es : List P.Event) {f : P.Event}
      → Ordered P before es
      → last (take k es) ≡ some f
      → es ≡ take k es ++ later (P.event.seq f) es
  split-later before zero es o h = cc
  split-later before (suc k) [] o h = cc
  split-later before (suc zero) (e ∷ es) {f} o h =
      let same : e ≡ f = cc in rw (← same) (split-one e es o.2)
  split-later before (suc (suc k)) (e ∷ []) {f} o h =
      let same : e ≡ f = cc in rw (← same) (split-one e [] o.2)
  split-later before (suc (suc k)) (e ∷ g ∷ es) {f} o h =
      let far = taken-after (P.event.seq e) (suc k) (g ∷ es) o.2 h in
      let near : ltb_ℤ (P.event.seq f) (P.event.seq e) ≡ false = ground (arith, far) in
      let rest = split-later (some (P.event.seq e)) (suc k) (g ∷ es) o.2 h in
      ap (λ x. e ∷ x) rest ∙ sym (near-later f e (take (suc k) (g ∷ es)) (g ∷ es) near)

  later-All : (n : ℤ) (es : List P.Event) → All (λ e. n <ℤ P.event.seq e) (later n es)
  unfolding filter_by
  later-All n [] = tt
  later-All n (e ∷ es) = elim (Bool-cases (ltb_ℤ n (P.event.seq e))) [
    | inl kept ↦ rw (kept, filter_by) (ground (arith, kept), later-All n es)
    | inr dropped ↦ rw (dropped, filter_by) (later-All n es)
  ]

  taken-All :
      (n : ℤ) (k : ℕ) (es : List P.Event) {f : P.Event}
      → All (λ e. n <ℤ P.event.seq e) es
      → last (take k es) ≡ some f
      → n <ℤ P.event.seq f
  taken-All n zero es o h = cc
  taken-All n (suc k) [] o h = cc
  taken-All n (suc zero) (e ∷ es) {f} o h = let same : e ≡ f = cc in rw (← same) o.0
  taken-All n (suc (suc k)) (e ∷ []) {f} o h = let same : e ≡ f = cc in rw (← same) o.0
  taken-All n (suc (suc k)) (e ∷ g ∷ es) {f} o h = taken-All n (suc k) (g ∷ es) o.1 h

  taken-some :
      (k : ℕ) (es : List P.Event)
      → 0 < k
      → 0 < length es
      → (f : P.Event) × (last (take k es) ≡ some f)
  taken-some zero es h l = absurd (omega (arith, h))
  taken-some (suc k) [] h l = absurd (omega (arith, l))
  taken-some (suc zero) (e ∷ es) h l = (e, refl)
  taken-some (suc (suc k)) (e ∷ []) h l = (e, refl)
  taken-some (suc (suc k)) (e ∷ g ∷ es) h l =
      taken-some (suc k) (g ∷ es) (omega arith) (omega arith)

  -- A page of the events after `after`: all of them, or the first ones and where the others begin.
  abbrev pub Pages : ℤ → ℕ → List P.Event → Page P.Event → Type 0
  Pages after limit log page =
      ((page.next ≡ none) × (page.items ≡ later after log))
      ⊎ ((n : ℤ) × (page.next ≡ some n)
          × (length page.items ≡ limit)
          × (after <ℤ n)
          × (later after log ≡ page.items ++ later n log))

  length-take : (k : ℕ) (es : List P.Event) → k < length es → length (take k es) ≡ k
  length-take zero es h = refl
  length-take (suc k) [] h = absurd (omega (arith, h))
  length-take (suc k) (e ∷ es) h = ap suc (length-take k es (omega (arith, h)))

  page_of-Pages :
      (after : ℤ) (limit : ℕ) (log : List P.Event)
      → 0 < limit
      → Ordered P none log
      → Pages after limit log (page_of P.event.seq limit (later after log))
  unfolding page_of
  page_of-Pages after limit log some_limit o =
      let es = later after log in
      let ordered = later-Ordered none after log o in
      elim (Bool-cases (ltb limit (length es))) [
        | inr fits ↦ rw (fits, page_of) (inl (refl, refl))
        | inl cut ↦
            let more : limit < length es = ground (arith, cut) in
            let (f, found) = taken-some limit es some_limit (omega (arith, more)) in
            let n = P.event.seq f in
            let past = taken-All after limit es (later-All after log) found in
            let rest = later-later after n log (omega (arith, past)) in
            rw (cut, page_of, found)
              (inr (
                n,
                refl,
                length-take limit es more,
                past,
                split-later none limit es ordered found ∙ ap (λ x. take limit es ++ x) rest,
              ))
      ]

module _ {P : Params} where
  -- Of a run with an ordered log, `list_events` answers all the events after the number asked for, or
  -- the first `limit` of them together with a greater number: the events after that one are exactly
  -- the others. So a reader that follows the numbers sees each event once, and misses none.
  pub list_events-Pages :
      (run_id : RunId) (scope : P.Scope) (after : ℤ) (limit : ℕ) (s : Inner P) (run : MemoryRun P)
      → scoped_run run_id scope s ≡ some run
      → Ordered P none run.events
      → 0 < limit
      → (page : Page P.Event) × (list_events run_id scope after limit s ≡ ok page)
        × Pages P after limit run.events page
  unfolding list_events events_after
  list_events-Pages run_id scope after limit s run found o some_limit =
      let es = later P after run.events in
      let sorted =
        sort_by_chain (event_le P) es
          (Ordered-IsChain P none es (later-Ordered P none after run.events o)) in
      let many : (limit == 0) ≡ false = ground (arith, some_limit) in
      (
        page_of P.event.seq limit es,
        rw (many, list_events, found, sorted) refl,
        page_of-Pages P after limit run.events some_limit o,
      )
