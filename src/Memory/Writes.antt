-- ===== src/Memory/Writes.antt =====
-- The writes of src/store/memory/op.rs: a list of writes to one table, each under a key of its own,
-- and the loop of checks before them.
use mathlib.Core.Path.{subst}
use typemach.Base.{String, Option, false, List, [], ◌∷◌, All, any, ◌≡◌, ◌≢◌, refl, sym, ◌∙◌, arith}
use typemach.Base.Eq.{◌=?◌, string_eq, ne_of_beq}
use typemach.Error.{Result, ok}

module _ {W K : Type 0} (key : W → K) where
  abbrev pub Apart : K → List W → Type 0
  Apart k ws = All (λ w. k ≢ key w) ws

  -- No two of the writes have the same key.
  abbrev pub Distinct : List W → Type 0
  Distinct [] = Unit
  Distinct (w ∷ ws) = Apart (key w) ws × Distinct ws

-- `write_all` makes the writes one after the other where the table agrees to each. A write puts what
-- fits under its own key, and changes nothing under the others.
module _ {S W K V : Type 0} (at : K → S → Option V) (key : W → K) (write : W → S → S)
    (write_all : List W → S → S) (Agrees Fits : W → Option V → Type 0)
    (all_nil : (s : S) → write_all [] s ≡ s)
    (all_cons : (w : W) (ws : List W) (s : S)
      → Agrees w (at (key w) s)
      → write_all (w ∷ ws) s ≡ write_all ws (write w s))
    (own : (w : W) (s : S) → Agrees w (at (key w) s) → Fits w (at (key w) (write w s)))
    (others : (w : W) (s : S) (k : K) → k ≢ key w → at k (write w s) ≡ at k s) where
  abbrev pub AllAgree : List W → S → Type 0
  AllAgree ws s = All (λ w. Agrees w (at (key w) s)) ws

  agree-write :
      (w : W) (ws : List W) (s : S) → Apart key (key w) ws → AllAgree ws s → AllAgree ws (write w s)
  agree-write w [] s apart agree = tt
  agree-write w (v ∷ ws) s apart agree = (
    subst (Agrees v) (sym (others w s (key v) (λ p. apart.0 (sym p)))) agree.0,
    agree-write w ws s apart.1 agree.1,
  )

  write_all-others :
      (ws : List W) (s : S) (k : K)
      → Distinct key ws
      → AllAgree ws s
      → Apart key k ws
      → at k (write_all ws s) ≡ at k s
  write_all-others [] s k distinct agree apart = rw (all_nil s) refl
  write_all-others (w ∷ ws) s k distinct agree apart = rw (all_cons w ws s agree.0) (
      write_all-others ws (write w s) k distinct.1 (agree-write w ws s distinct.0 agree.1) apart.1
      ∙ others w s k apart.0)

  -- Each of the writes is found under its key once all are made.
  pub write_all_lem :
      (ws : List W) (s : S)
      → Distinct key ws
      → AllAgree ws s
      → All (λ w. Fits w (at (key w) (write_all ws s))) ws
  write_all_lem [] s distinct agree = tt
  write_all_lem (w ∷ ws) s distinct agree =
      let t = write w s in
      let still = agree-write w ws s distinct.0 agree.1 in
      subst (λ u. All (λ v. Fits v (at (key v) u)) (w ∷ ws)) (sym (all_cons w ws s agree.0))
        (
          subst (Fits w) (sym (write_all-others ws t (key w) distinct.1 still distinct.0))
              (own w s agree.0),
          write_all_lem ws t distinct.1 still,
        )

-- A loop of checks, each against the names of the rounds before.
module _ {W K : Type 0} (key : W → K) (name : W → String)
    (named : (w v : W) → key w ≡ key v → name w ≡ name v)
    (loop : List W → List W → Result (Unit {0})) (Passes : W → Type 0)
    (round : (seen : List W) (w : W) (ws : List W)
      → loop seen (w ∷ ws) ≡ ok tt
      → (any (λ prev. name prev =? name w) seen ≡ false)
        × Passes w
        × (loop (w ∷ seen) ws ≡ ok tt)) where
  abbrev Unseen : List W → List W → Type 0
  Unseen seen ws = All (λ w. any (λ prev. name prev =? name w) seen ≡ false) ws

  Unseen-head :
      (w : W) (seen ws : List W) → Unseen (w ∷ seen) ws → Apart key (key w) ws × Unseen seen ws
  Unseen-head w seen [] h = (tt, tt)
  Unseen-head w seen (v ∷ ws) h =
      let (here, rest) = Unseen-head w seen ws h.1 in
      let other : (name w =? name v) ≡ false = ground (arith, h.0) in
      ((λ p. ne_of_beq (name w) (name v) other (named w v p), here), (ground (arith, h.0), rest))

  loop-passes_after :
      (seen ws : List W) → loop seen ws ≡ ok tt → All Passes ws × Distinct key ws × Unseen seen ws
  loop-passes_after seen [] h = (tt, tt, tt)
  loop-passes_after seen (w ∷ ws) h =
      let (fresh, passes, more) = round seen w ws h in
      let (rest, distinct, unseen) = loop-passes_after (w ∷ seen) ws more in
      let (here, below) = Unseen-head w seen ws unseen in
      ((passes, rest), (here, distinct), (fresh, below))

  -- What a loop that succeeds has established.
  pub loop-passes : (ws : List W) → loop [] ws ≡ ok tt → All Passes ws × Distinct key ws
  loop-passes ws h = let (passes, distinct, _) = loop-passes_after [] ws h in (passes, distinct)
