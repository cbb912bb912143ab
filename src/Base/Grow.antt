-- ===== src/Base/Grow.antt =====
-- Maps that only grow: a key stays, and its value changes by a relation.
use typemach.Base.Tests.{Option-cases}
use mathlib.Core.Path.{◌≡◌, refl, ◌∙◌}
use mathlib.Core.Logic.{inl, inr}
use mathlib.Core.Option.{none, some}
use typemach.Base.Eq.{Eq, eq-cases}
use typemach.Base.Map.{Map, get, insert, or_insert, get-insert_self, get-insert_ne}

abbrev pub Same : {V : Type 0} → V → V → Type 0
Same v w = w ≡ v

pub Same-trans : {V : Type 0} (u v w : V) → Same u v → Same v w → Same u w
Same-trans u v w p q = q ∙ p

module _ {K V : Type 0} ⦃e : Eq K⦄ where
  -- Each key of the first map is in the second, with a value that is related to the first's.
  abbrev pub MapGrows : (V → V → Type 0) → Map K V → Map K V → Type 0
  MapGrows R m n = (k : K) (v : V) → get k m ≡ some v → (w : V) × (get k n ≡ some w) × R v w

module _ {K V : Type 0} ⦃e : Eq K⦄ (R : V → V → Type 0) (R_refl : (v : V) → R v v) where
  pub MapGrows-refl : (m : Map K V) → MapGrows R m m
  MapGrows-refl m k v h = (v, h, R_refl v)

  -- A write that is related to what it overwrites.
  pub MapGrows-insert :
      (j : K) (w : V) (m : Map K V)
      → ((v : V) → get j m ≡ some v → R v w)
      → MapGrows R m (insert j w m)
  MapGrows-insert j w m step k v h = elim (eq-cases k j) [
    | inl (_, same) ↦ (w, rw same (get-insert_self j w m), step v (rw (← same) h))
    | inr (_, other) ↦ (v, rw (get-insert_ne k j w m other) h, R_refl v)
  ]

module _ {K V : Type 0} ⦃e : Eq K⦄ (R : V → V → Type 0) where
  pub MapGrows-trans :
      ((u v w : V) → R u v → R v w → R u w)
      → (l m n : Map K V) → MapGrows R l m
      → MapGrows R m n
      → MapGrows R l n
  MapGrows-trans R_trans l m n f g k v h =
      let (w, at_m, r) = f k v h in let (x, at_n, q) = g k w at_m in (x, at_n, R_trans v w x r q)

module _ {K V : Type 0} ⦃e : Eq K⦄ where
  -- A new key leaves the others as they were.
  pub MapGrows-insert_new :
      (j : K) (w : V) (m : Map K V) → get j m ≡ none → MapGrows Same m (insert j w m)
  MapGrows-insert_new j w m fresh = MapGrows-insert Same (λ v. refl) j w m (λ v h. absurd (cc))

  pub MapGrows-or_insert : (j : K) (w : V) (m : Map K V) → MapGrows Same m (or_insert j w m)
  unfolding or_insert
  MapGrows-or_insert j w m = elim (Option-cases (get j m)) [
    | inl fresh ↦ rw fresh (MapGrows-insert_new j w m fresh)
    | inr (v, old) ↦ rw old (MapGrows-refl Same (λ u. refl) m)
  ]
