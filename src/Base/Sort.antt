-- ===== src/Base/Sort.antt =====
-- `slice::sort_by_key`, a stable sort, as an insertion sort.
use typemach.Base.Tests.{if◌then◌else◌}
use mathlib.Core.Path.{◌≡◌, refl}
use mathlib.Core.Bool.{Bool, true}
use mathlib.Core.List.{List, [], ◌∷◌}

module _ {ℓ} {A : Type ℓ} where
  unfoldable pub insert_by : (A → A → Bool) → A → List A → List A
  insert_by le x [] = x ∷ []
  insert_by le x (y ∷ ys) = if le x y then x ∷ y ∷ ys else y ∷ insert_by le x ys

  unfoldable pub sort_by : (A → A → Bool) → List A → List A
  unfolding insert_by
  sort_by le [] = []
  sort_by le (x ∷ xs) = insert_by le x (sort_by le xs)

  -- Neighbours are in order.
  abbrev pub IsChain : (A → A → Bool) → List A → Type 0
  IsChain le [] = Unit
  IsChain le (x ∷ []) = Unit
  IsChain le (x ∷ y ∷ ys) = (le x y ≡ true) × IsChain le (y ∷ ys)

  -- A list in order stays as it is.
  pub sort_by_chain : (le : A → A → Bool) (xs : List A) → IsChain le xs → sort_by le xs ≡ xs
  unfolding sort_by
  sort_by_chain le [] h = refl
  sort_by_chain le (x ∷ []) h = refl
  sort_by_chain le (x ∷ y ∷ ys) h = rw (sort_by_chain le (y ∷ ys) h.1, h.0)
