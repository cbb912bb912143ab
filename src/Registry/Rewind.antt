-- ===== src/Registry/Rewind.antt =====
-- The event numbers that the registry hands out and takes back, src/registry.rs.
use typemach.Base.{some, true, [], ◌∷◌, ◌≡◌, ◌≤◌, ◌<◌, refl, arith, ap, ◌∙◌}
use typemach.Base.Int.{ℤ, pos, negsuc, inc, i64_bound, pos_part, neg_part, int_beq}
use typemach.Base.Eq.{Eq, string_eq}
use typemach.Base.Map.{Map, get, insert, get-insert_self}
use typemach.Run.{RunId}
use typemach.Registry.{Channels, ActiveRun, RunRegistry, dec, next_seq, rewind_seq, put}

module _ {K : Type 0} {V : Type 0} ⦃e : Eq K⦄ where
  -- What stood under a key is put back.
  insert-insert_back :
      (k : K) (v w : V) (m : Map K V) → get k m ≡ some v → insert k v (insert k w m) ≡ m
  unfolding get insert
  insert-insert_back k v w [] h = absurd (cc)
  insert-insert_back k v w ((j, u) ∷ m) h = ground (arith, insert-insert_back k v w m)

-- On `i64`, which both wrap.
dec-inc : (a : ℤ) → pos_part a < i64_bound → neg_part a ≤ i64_bound → dec (inc a) ≡ a
unfolding dec inc
dec-inc (pos n) h k = ground arith
dec-inc (negsuc n) h k = ground arith

pub int_beq_refl : (a : ℤ) → int_beq a a ≡ true
int_beq_refl (pos n) = ground arith
int_beq_refl (negsuc n) = ground arith

module _ {E : Type 0} {C : Channels E} where
  abbrev pub raised : ActiveRun C → ActiveRun C
  raised run = record run { current_seq = inc run.current_seq }

  pub next_seq-found :
      (run_id : RunId) (run : ActiveRun C) (s : RunRegistry C)
      → get run_id s.runs ≡ some run
      → next_seq run_id s ≡ (some (inc run.current_seq), put run_id (raised run) s)
  unfolding next_seq
  next_seq-found run_id run s found = rw (found, next_seq) refl

  pub rewind_seq-put :
      (run_id : RunId) (run : ActiveRun C) (s : RunRegistry C)
      → get run_id s.runs ≡ some run
      → pos_part run.current_seq < i64_bound
      → neg_part run.current_seq ≤ i64_bound
      → rewind_seq run_id (inc run.current_seq) (put run_id (raised run) s) ≡ (true, s)
  unfolding rewind_seq
  rewind_seq-put run_id run s found above below =
      rw
        (
          get-insert_self run_id (raised run) s.runs,
          int_beq_refl (inc run.current_seq),
          dec-inc run.current_seq above below,
          rewind_seq,
        )
        (ap (λ m. (true, record s { runs = m }))
          (insert-insert_back run_id run (raised run) s.runs found))

  -- The number that was handed out last is taken back: the registry is again as it was.
  -- The run's number is within `i64`.
  pub rewind_seq-next_seq :
      (run_id : RunId) (run : ActiveRun C) (s : RunRegistry C)
      → get run_id s.runs ≡ some run
      → pos_part run.current_seq < i64_bound
      → neg_part run.current_seq ≤ i64_bound
      → ((next_seq run_id s).0 ≡ some (inc run.current_seq))
        × (rewind_seq run_id (inc run.current_seq) (next_seq run_id s).1 ≡ (true, s))
  rewind_seq-next_seq run_id run s found above below =
      let handed = next_seq-found run_id run s found in
      (
        ap (λ x. x.0) handed,
        ap (λ x. rewind_seq run_id (inc run.current_seq) x.1) handed
            ∙ rewind_seq-put run_id run s found above below,
      )
