-- ===== src/Base/Map.antt =====
-- `HashMap` as an association list. The order of the entries stands for the hash map's own, which
-- the program may not rely on: nothing is assumed of it.
use mathlib.Core.Path.{◌≡◌, refl, sym, ◌∙◌}
use mathlib.Core.Logic.{◌≢◌, ◌⊎◌, inl, inr}
use mathlib.Core.Bool.{Bool, false}
use mathlib.Core.Option.{Option, none, some}
use mathlib.Core.List.{List, [], ◌∷◌, map}
use native.Mathlib.Omega.{arith}
use typemach.Base.Tests.{if◌then◌else◌, is_some}
use typemach.Base.Eq.{Eq, eq-cases, beq_refl}

abbrev pub Map {ℓ} : Type 0 → Type ℓ → Type ℓ
Map K V = List (K × V)

abbrev pub values {ℓ} : {K : Type 0} {V : Type ℓ} → Map K V → List V
values m = map (λ e. e.1) m

abbrev pub keys {ℓ} : {K : Type 0} {V : Type ℓ} → Map K V → List K
keys m = map (λ e. e.0) m

-- `Iterator::find`, over the values of a map or any list.
unfoldable pub find {ℓ} : {A : Type ℓ} → (A → Bool) → List A → Option A
find p [] = none
find p (x ∷ xs) = if p x then some x else find p xs

module _ {ℓ} {K : Type 0} {V : Type ℓ} ⦃e : Eq K⦄ where
  unfoldable pub get : K → Map K V → Option V
  get k [] = none
  get k ((j, v) ∷ m) = if e.beq k j then some v else get k m

  unfoldable pub insert : K → V → Map K V → Map K V
  insert k v [] = (k, v) ∷ []
  insert k v ((j, w) ∷ m) = if e.beq k j then (j, v) ∷ m else (j, w) ∷ insert k v m

  unfoldable pub remove : K → Map K V → Map K V
  remove k [] = []
  remove k ((j, w) ∷ m) = if e.beq k j then remove k m else (j, w) ∷ remove k m

  abbrev pub contains_key : K → Map K V → Bool
  contains_key k m = is_some (get k m)

  pub get-insert_self : (k : K) (v : V) (m : Map K V) → get k (insert k v m) ≡ some v
  unfolding get insert
  get-insert_self k v [] = ground (arith, beq_refl k)
  get-insert_self k v ((j, w) ∷ m) = ground (arith, beq_refl k, get-insert_self k v m)

  pub get-insert_ne : (j k : K) (v : V) (m : Map K V) → j ≢ k → get j (insert k v m) ≡ get j m
  unfolding get insert
  get-insert_ne j k v [] h = ground (arith, (e.beq_iff j k).0)
  get-insert_ne j k v ((i, w) ∷ m) h =
      ground (arith, (e.beq_iff j i).0, (e.beq_iff k i).0, get-insert_ne j k v m h)

  pub get-remove_self : (k : K) (m : Map K V) → get k (remove k m) ≡ none
  unfolding get remove
  get-remove_self k [] = refl
  get-remove_self k ((j, w) ∷ m) = ground (arith, get-remove_self k m)

  pub get-remove_ne : (j k : K) (m : Map K V) → j ≢ k → get j (remove k m) ≡ get j m
  unfolding get remove
  get-remove_ne j k [] h = refl
  get-remove_ne j k ((i, w) ∷ m) h =
      ground (arith, (e.beq_iff j i).0, (e.beq_iff k i).0, get-remove_ne j k m h)

  -- What is found is found at a value that the iterator passes.
  pub find-values-none :
      (p : V → Bool) (m : Map K V) (k : K) (v : V)
      → find p (values m) ≡ none
      → get k m ≡ some v
      → p v ≡ false
  unfolding get find
  find-values-none p [] k v h g = cc
  find-values-none p ((j, w) ∷ m) k v h g = ground (arith, find-values-none p m k v)

  -- `HashMap::entry(k).or_insert(v)`.
  unfoldable pub or_insert : K → V → Map K V → Map K V
  or_insert k v m = if contains_key k m then m else insert k v m

  -- What stands in a map after a write.
  pub insert-cases :
      (k : K) (v : V) (m : Map K V) (j : K) {w : V}
      → get j (insert k v m) ≡ some w
      → ((j ≡ k) × (w ≡ v)) ⊎ ((j ≢ k) × (get j m ≡ some w))
  insert-cases k v m j {w} h = elim (eq-cases j k) [
    | inl (_, same) ↦ inl (same, cc (get-insert_self k v m))
    | inr (_, other) ↦ inr (other, sym (get-insert_ne j k v m other) ∙ h)
  ]

  -- What stands in a map after a removal.
  pub remove-cases :
      (k : K) (m : Map K V) (j : K) {w : V}
      → get j (remove k m) ≡ some w
      → (j ≢ k) × (get j m ≡ some w)
  remove-cases k m j {w} h = elim (eq-cases j k) [
    | inl (_, same) ↦ absurd (cc (get-remove_self k m))
    | inr (_, other) ↦ (other, sym (get-remove_ne j k m other) ∙ h)
  ]

  -- A key has one value.
  pub get_unique :
      (m : Map K V) {j k : K} {v w : V} → get j m ≡ some v → get k m ≡ some w → j ≡ k → v ≡ w
  get_unique m p q same = cc
