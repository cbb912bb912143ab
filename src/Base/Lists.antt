-- ===== src/Base/Lists.antt =====
-- Lists measured by native numbers, tests over lists, and predicates by recursion.
use Prim.Native.Nat.{ℕ, zero, suc, ◌+◌}
use mathlib.Core.Path.{◌≡◌, refl}
use mathlib.Core.Bool.{Bool, true, false, ◌||◌}
use mathlib.Core.List.{List, [], ◌∷◌, ◌++◌}
use mathlib.Core.Option.{Option, none, some}
use native.Mathlib.Omega.{arith}

module _ {ℓ} {A : Type ℓ} where
  abbrev pub length : List A → ℕ
  length [] = 0
  length (x ∷ xs) = suc (length xs)

  abbrev pub is_empty : List A → Bool
  is_empty [] = true
  is_empty (x ∷ xs) = false

  -- `slice::last`.
  abbrev pub last : List A → Option A
  last [] = none
  last (x ∷ []) = some x
  last (x ∷ y ∷ xs) = last (y ∷ xs)

  -- All but the last element: `&xs[..xs.len() - 1]`.
  abbrev pub init : List A → List A
  init [] = []
  init (x ∷ []) = []
  init (x ∷ y ∷ xs) = x ∷ init (y ∷ xs)

  -- `Iterator::any`.
  abbrev pub any : (A → Bool) → List A → Bool
  any p [] = false
  any p (x ∷ xs) = p x || any p xs

  -- `Vec::truncate`.
  abbrev pub take : ℕ → List A → List A
  take zero xs = []
  take (suc n) [] = []
  take (suc n) (x ∷ xs) = x ∷ take n xs

  pub last-append : (xs : List A) (a : A) → last (xs ++ a ∷ []) ≡ some a
  last-append [] a = refl
  last-append (x ∷ []) a = refl
  last-append (x ∷ y ∷ xs) a = last-append (y ∷ xs) a

  pub length-append : (xs ys : List A) → length (xs ++ ys) ≡ length xs + length ys
  length-append [] ys = omega arith
  length-append (x ∷ xs) ys = omega (arith, length-append xs ys)

module _ {ℓ} {A : Type ℓ} where
  pub last-append_some : (xs ys : List A) {a : A} → last ys ≡ some a → last (xs ++ ys) ≡ some a
  last-append_some [] ys h = h
  last-append_some (x ∷ []) [] h = cc
  last-append_some (x ∷ []) (y ∷ ys) h = h
  last-append_some (x ∷ x' ∷ xs) ys h = last-append_some (x' ∷ xs) ys h

  pub init-append : (xs ys : List A) {a : A} → last ys ≡ some a → init (xs ++ ys) ≡ xs ++ init ys
  init-append [] ys h = refl
  init-append (x ∷ []) [] h = cc
  init-append (x ∷ []) (y ∷ ys) h = refl
  init-append (x ∷ x' ∷ xs) ys h = rw (init-append (x' ∷ xs) ys h)

-- A predicate holds of every element.
abbrev pub All {ℓ κ} : {A : Type ℓ} → (A → Type κ) → List A → Type κ
All P [] = Unit
All P (x ∷ xs) = P x × All P xs
