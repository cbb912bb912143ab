-- ===== src/Lifecycle/Gapless.antt =====
-- A subscriber's replay and the tail that follows it, src/lifecycle.rs.
use typemach.Base.{
  Option, none, some, true, false, List, [], ◌∷◌, ◌++◌, last, All, ◌≡◌, refl, sym, ap, ◌∙◌, ◌⊎◌,
  inl, inr, Bool-cases, arith,
}
use typemach.Base.Int.{ℤ, ◌<ℤ◌, ◌≤ℤ◌, ltb_ℤ, leb_ℤ}
use typemach.Params.{Params}
use typemach.Memory.Queries.{filter_by}
use typemach.Memory.Valid.{Ordered}
use typemach.Memory.Pages.{later, later-all}
use typemach.Lifecycle.Follow.{follow, last_replay_seq, replay_end, max_ℤ}

module _ (P : Params) where
  -- On a log in order, a tail hands out what is later than its cursor.
  pub follow-later :
      (before : Option ℤ) (n : ℤ) (queue : List P.Event)
      → Ordered P before queue
      → follow P n queue ≡ later P n queue
  unfolding follow filter_by
  follow-later before n [] o = refl
  follow-later before n (e ∷ queue) o = elim (Bool-cases (leb_ℤ (P.event.seq e) n)) [
    | inl old ↦
        let near : ltb_ℤ n (P.event.seq e) ≡ false = ground (arith, old) in
        rw (old, follow, near, filter_by) (follow-later (some (P.event.seq e)) n queue o.2)
    | inr new ↦
        let far : ltb_ℤ n (P.event.seq e) ≡ true = ground (arith, new) in
        let past : n ≤ℤ P.event.seq e = ground (arith, new) in
        rw (new, follow, far, filter_by)
          (ap (λ x. e ∷ x)
            (follow-later (some (P.event.seq e)) (P.event.seq e) queue o.2
              ∙ later-all P (P.event.seq e) (P.event.seq e) queue (omega arith) o.2
              ∙ sym (later-all P n (P.event.seq e) queue past o.2)))
  ]

  later-append :
      (n : ℤ) (xs ys : List P.Event) → later P n (xs ++ ys) ≡ later P n xs ++ later P n ys
  unfolding filter_by
  later-append n [] ys = refl
  later-append n (e ∷ xs) ys = elim (Bool-cases (ltb_ℤ n (P.event.seq e))) [
    | inl kept ↦ rw (kept, filter_by) (ap (λ x. e ∷ x) (later-append n xs ys))
    | inr dropped ↦ rw (dropped, filter_by) (later-append n xs ys)
  ]

  abbrev UpTo : ℤ → List P.Event → Type 0
  UpTo n = All (λ e. P.event.seq e ≤ℤ n)

  later-UpTo : (n : ℤ) (xs : List P.Event) → UpTo n xs → later P n xs ≡ []
  unfolding filter_by
  later-UpTo n [] h = refl
  later-UpTo n (e ∷ xs) h =
      let near : ltb_ℤ n (P.event.seq e) ≡ false = ground (arith, h.0) in
      rw (near, filter_by) (later-UpTo n xs h.1)

  UpTo-mono : (n m : ℤ) (xs : List P.Event) → n ≤ℤ m → UpTo n xs → UpTo m xs
  UpTo-mono n m [] h up = tt
  UpTo-mono n m (e ∷ xs) h up = (omega (arith, h, up.0), UpTo-mono n m xs h up.1)

  UpTo-right : (n : ℤ) (xs ys : List P.Event) → UpTo n (xs ++ ys) → UpTo n ys
  UpTo-right n [] ys up = up
  UpTo-right n (e ∷ xs) ys up = UpTo-right n xs ys up.1

  -- The last of a log in order is its greatest.
  last-greatest :
      (before : Option ℤ) (e : P.Event) (es : List P.Event)
      → Ordered P before (e ∷ es)
      → (f : P.Event) × (last (e ∷ es) ≡ some f) × UpTo (P.event.seq f) (e ∷ es)
  last-greatest before e [] o = (e, refl, (omega arith, tt))
  last-greatest before e (g ∷ es) o =
      let (f, found, up) = last-greatest (some (P.event.seq e)) g es o.2 in
      (f, found, (omega (arith, o.2.1, up.0), up))

  last-cons :
      (e : P.Event) (xs : List P.Event) {f : P.Event} → last xs ≡ some f → last (e ∷ xs) ≡ some f
  last-cons e [] h = cc
  last-cons e (x ∷ xs) h = h

  -- What a replay leaves to be told: nothing was later than the cursor, or the replay ends with the
  -- log's last event.
  replay-cases :
      (before : Option ℤ) (n : ℤ) (xs : List P.Event)
      → Ordered P before xs
      → ((later P n xs ≡ []) × UpTo n xs)
        ⊎ ((f : P.Event) × (last (later P n xs) ≡ some f)
            × (last xs ≡ some f)
            × (n <ℤ P.event.seq f)
            × UpTo (P.event.seq f) xs)
  unfolding filter_by
  replay-cases before n [] o = inl (refl, tt)
  replay-cases before n (e ∷ xs) o = elim (Bool-cases (ltb_ℤ n (P.event.seq e))) [
    | inl kept ↦
        let past : n ≤ℤ P.event.seq e = ground (arith, kept) in
        let (f, found, up) = last-greatest before e xs o in
        rw (kept, filter_by, later-all P n (P.event.seq e) xs past o.2)
          (inr (f, found, found, ground (arith, kept, up.0), up))
    | inr dropped ↦
        let near : P.event.seq e ≤ℤ n = ground (arith, dropped) in
        rw (dropped, filter_by)
          (elim (replay-cases (some (P.event.seq e)) n xs o.2) [
            | inl (nothing, up) ↦ inl (nothing, (near, up))
            | inr (f, told, found, past, up) ↦
                inr (f, told, last-cons e xs found, past, (omega (arith, near, past), up))
          ])
  ]

  Ordered-right :
      (before : Option ℤ) (xs ys : List P.Event)
      → Ordered P before (xs ++ ys)
      → (b : Option ℤ) × Ordered P b ys
  Ordered-right before [] ys o = (before, o)
  Ordered-right before (e ∷ xs) ys o = Ordered-right (some (P.event.seq e)) xs ys o.2

  Ordered-left :
      (before : Option ℤ) (xs ys : List P.Event) → Ordered P before (xs ++ ys) → Ordered P before xs
  Ordered-left before [] ys o = tt
  Ordered-left before (e ∷ xs) ys o = (o.0, o.1, Ordered-left (some (P.event.seq e)) xs ys o.2)

  Ordered-past :
      (before : Option ℤ) (xs ys : List P.Event) {f : P.Event}
      → Ordered P before (xs ++ ys)
      → last xs ≡ some f
      → Ordered P (some (P.event.seq f)) ys
  Ordered-past before [] ys o h = cc
  Ordered-past before (e ∷ []) ys {f} o h = let same : e ≡ f = cc in rw (← same) o.2
  Ordered-past before (e ∷ x ∷ xs) ys o h = Ordered-past (some (P.event.seq e)) (x ∷ xs) ys o.2 h

  tail-Ordered :
      (before : Option ℤ) (xs ys rest : List P.Event)
      → Ordered P before ((xs ++ ys) ++ rest)
      → (b : Option ℤ) × Ordered P b (ys ++ rest)
  tail-Ordered before [] ys rest o = (before, o)
  tail-Ordered before (e ∷ xs) ys rest o = tail-Ordered (some (P.event.seq e)) xs ys rest o.2

  last_replay_seq-none : (n : ℤ) (es : List P.Event) → es ≡ [] → last_replay_seq P n es ≡ n
  unfolding max_ℤ
  last_replay_seq-none n [] h = ground arith
  last_replay_seq-none n (e ∷ es) h = cc

  last_replay_seq-some :
      (n : ℤ) (es : List P.Event) {f : P.Event}
      → last es ≡ some f
      → n <ℤ P.event.seq f
      → last_replay_seq P n es ≡ P.event.seq f
  unfolding max_ℤ
  last_replay_seq-some n es {f} found past =
      let above : leb_ℤ (P.event.seq f) n ≡ false = ground (arith, past) in
      ap (replay_end P n) found ∙ rw (above, max_ℤ) refl

  -- What the tail hands out after a replay is what came later than the replayed part.
  tail-rest :
      (n : ℤ) (xs ys rest : List P.Event)
      → Ordered P none ((xs ++ ys) ++ rest)
      → later P (last_replay_seq P n (later P n (xs ++ ys))) (ys ++ rest) ≡ later P n rest
  tail-rest n xs ys rest o =
      elim (replay-cases none n (xs ++ ys) (Ordered-left none (xs ++ ys) rest o)) [
        | inl (nothing, up) ↦
            ap (λ m. later P m (ys ++ rest)) (last_replay_seq-none n (later P n (xs ++ ys)) nothing)
            ∙ later-append n ys rest
            ∙ ap (λ es. es ++ later P n rest) (later-UpTo n ys (UpTo-right n xs ys up))
        | inr (f, told, found, past, up) ↦
            let m = P.event.seq f in
            let o' = Ordered-past none (xs ++ ys) rest o found in
            ap (λ k. later P k (ys ++ rest))
              (last_replay_seq-some n (later P n (xs ++ ys)) told past)
            ∙ later-append m ys rest
            ∙ ap (λ es. es ++ later P m rest) (later-UpTo m ys (UpTo-right m xs ys up))
            ∙ later-all P m m rest (omega arith) o'
            ∙ sym (later-all P n m rest (omega (arith, past)) o')
      ]

  -- A replay of the log up to some event, and a tail whose queue begins anywhere in that part.
  pub replay-follow :
      (n : ℤ) (xs ys rest : List P.Event)
      → Ordered P none ((xs ++ ys) ++ rest)
      → later P n (xs ++ ys) ++ follow P (last_replay_seq P n (later P n (xs ++ ys))) (ys ++ rest)
        ≡ later P n ((xs ++ ys) ++ rest)
  replay-follow n xs ys rest o =
      let replay = later P n (xs ++ ys) in
      let (b, o') = tail-Ordered none xs ys rest o in
      ap (λ es. replay ++ es)
        (follow-later b (last_replay_seq P n replay) (ys ++ rest) o' ∙ tail-rest n xs ys rest o)
      ∙ sym (later-append n (xs ++ ys) rest)
