-- ===== src/Memory/Named.antt =====
-- The loop of `ensure_session`, src/store/memory.rs, and what the call leaves.
use typemach.Base.{
  ℕ, zero, suc, ◌+◌, ◌^◌, ◌<◌, ◌≤◌, Option, none, some, true, false, [], ◌∷◌, ◌≡◌, ◌≢◌, refl, sym,
  ◌∙◌, ap, inl, inr, length, Bool-cases, arith, is_some,
}
use typemach.Base.Decimal.{decimal_injective}
use typemach.Base.Eq.{Eq, string_eq}
use typemach.Base.Map.{Map, get, insert, remove, contains_key, or_insert, get-remove_ne}
use typemach.Run.{SessionId}
use typemach.Params.{Params}
use typemach.Memory.State.{Inner}
use typemach.Memory.Sessions.{
  next_number, session_name, next_free, pick_session, put_session, ensure_session,
}
use text.Mathlib.TextLemmas.{append_inj}

module _ {K V : Type 0} ⦃e : Eq K⦄ where
  length-remove : (k : K) (m : Map K V) → length (remove k m) ≤ length m
  unfolding remove
  length-remove k [] = omega arith
  length-remove k ((j, w) ∷ m) = ground (arith, length-remove k m)

  -- Removing a key that is there makes the map shorter.
  length-remove_found :
      (k : K) (m : Map K V) → contains_key k m ≡ true → length (remove k m) < length m
  unfolding get remove
  length-remove_found k [] h = absurd (cc)
  length-remove_found k ((j, w) ∷ m) h = ground (arith, length-remove k m, length-remove_found k m)

session_name_injective : (m n : ℕ) → session_name m ≡ session_name n → m ≡ n
unfolding session_name
session_name_injective m n same = decimal_injective m n (append_inj same refl).1

-- More numbers than there are names have one that is free.
free_number :
    {A : Type 0} (f n : ℕ) (m : Map SessionId A)
    → length m < f
    → (j : ℕ) × (j < f) × (contains_key (session_name (n + j)) m ≡ false)
free_number zero n m h = absurd (omega (arith, h))
free_number (suc f) n m h = elim (Bool-cases (contains_key (session_name n) m)) [
  | inr free ↦ (0, omega arith, rw (same_sum n) free)
  | inl taken ↦
      let shorter = length-remove_found (session_name n) m taken in
      let (j, below, free) =
        free_number f (suc n) (remove (session_name n) m) (omega (arith, h, shorter)) in
      let other : session_name (suc n + j) ≢ session_name n =
        λ same. absurd (omega (arith, session_name_injective (suc n + j) n same)) in
      (
        suc j,
        omega (arith, below),
        ap (λ k. contains_key (session_name k) m) (step_sum n j)
            ∙ ap is_some (sym (get-remove_ne (session_name (suc n + j)) (session_name n) m other))
            ∙ free,
      )
]
  where
    same_sum : (n : ℕ) → n + 0 ≡ n
    same_sum n = omega arith

    step_sum : (n j : ℕ) → n + suc j ≡ suc n + j
    step_sum n j = omega arith

next_free-taken :
    {A : Type 0} (f n : ℕ) (m : Map SessionId A)
    → contains_key (session_name (next_number n)) m ≡ true
    → next_free (suc f) n m ≡ next_free f (next_number n) m
unfolding next_free
next_free-taken f n m taken = rw (taken, next_free) refl

-- The loop finds it.
next_free-found :
    {A : Type 0} (f n j : ℕ) (m : Map SessionId A)
    → j < f
    → n + j + 1 < 2 ^ 64
    → contains_key (session_name (suc n + j)) m ≡ false
    → (k : ℕ) × (next_free f n m ≡ some (session_name k, k))
      × (contains_key (session_name k) m ≡ false)
      × (n < k)
      × (k ≤ n + f)
unfolding next_free
next_free-found zero n j m h fits free = absurd (omega (arith, h))
next_free-found (suc f) n zero m h fits free =
    let next : next_number n ≡ suc n = omega (arith, fits) in
    let here : contains_key (session_name (suc n)) m ≡ false =
      ap (λ k. contains_key (session_name k) m) (plus_zero (suc n)) ∙ free in
    (suc n, rw (next, next_free, here) refl, here, omega arith, omega arith)
  where
    plus_zero : (n : ℕ) → n ≡ n + 0
    plus_zero n = omega arith
next_free-found (suc f) n (suc j) m h fits free =
    let next : next_number n ≡ suc n = omega (arith, fits) in
    elim (Bool-cases (contains_key (session_name (suc n)) m)) [
      | inr here ↦ (suc n, rw (next, next_free, here) refl, here, omega arith, omega arith)
      | inl taken ↦
          let (k, found, name, above, below) =
            next_free-found f (suc n) j m (omega (arith, h)) (omega (arith, fits))
              (ap (λ k. contains_key (session_name k) m) (shift n j) ∙ free) in
          (
            k,
            next_free-taken f n m (ap (λ x. contains_key (session_name x) m) next ∙ taken)
                ∙ ap (λ x. next_free f x m) next
                ∙ found,
            name,
            omega (arith, above),
            omega (arith, below),
          )
    ]
  where
    shift : (n j : ℕ) → suc (suc n) + j ≡ suc n + suc j
    shift n j = omega arith

module _ {P : Params} where
  -- While the counter is far enough from the greatest `u64`, the loop of `ensure_session` ends, within
  -- one round more than there are sessions. The name that it picks is new, the session is then there
  -- with the caller's scope, and every other session is as it was.
  pub ensure_session-fresh :
      (scope : P.Scope) (s : Inner P)
      → s.next_session + length s.sessions + 1 < 2 ^ 64
      → (k : ℕ) × (t : Inner P) × (ensure_session none scope s ≡ some (session_name k, t))
        × (get (session_name k) s.sessions ≡ none)
        × (t.sessions ≡ insert (session_name k) scope s.sessions)
        × (s.next_session < k)
        × (t.next_session ≡ k)
  unfolding ensure_session pick_session or_insert
  ensure_session-fresh scope s fits =
      let f = suc (length s.sessions) in
      let (j, below, free) = free_number f (suc s.next_session) s.sessions (omega arith) in
      let (k, found, name, above, _) =
        next_free-found f s.next_session j s.sessions below (omega (arith, fits, below)) free in
      let id = session_name k in
      let absent : get id s.sessions ≡ none = none_of (get id s.sessions) name in
      (
        k,
        put_session id k scope s,
        rw (found, ensure_session) refl,
        absent,
        rw name refl,
        above,
        refl,
      )
    where
      none_of : {A : Type 0} (o : Option A) → is_some o ≡ false → o ≡ none
      none_of none h = refl
      none_of (some a) h = cc
