-- ===== src/Base/Eq.antt =====
-- Decidable equality by a Boolean test, as an instance argument (`PartialEq`, and `Eq` of a key).
use Prim.Native.String.{String}
use mathlib.Core.Path.{◌≡◌, refl, ap}
use mathlib.Core.Logic.{◌↔◌, ◌⊎◌, inl, inr, ◌≢◌}
use mathlib.Core.Bool.{Bool, true, false, ◌&&◌}
use mathlib.Core.Option.{Option, none, some, some-injective}
use native.Mathlib.Omega.{arith}
use text.Mathlib.Text.{◌==◌ as str_eq}
use text.Mathlib.TextEquality.{eq_iff}
use typemach.Base.Tests.{Bool-cases, if◌then◌else◌}

pub record Eq {ℓ} (A : Type ℓ) : Type ℓ where
  -- `==`, and that it says what it should.
  pub beq : (left right : A) → Bool
  pub beq_iff : (left right : A) → (beq left right ≡ true) ↔ (left ≡ right)

instance abbrev pub string_eq : Eq String
string_eq = record { beq = str_eq; beq_iff = eq_iff }

infix 50 ◌=?◌
abbrev pub ◌=?◌ {ℓ} : {A : Type ℓ} ⦃e : Eq A⦄ → A → A → Bool
◌=?◌ ⦃e⦄ = e.beq

module _ {ℓ} {A : Type ℓ} ⦃e : Eq A⦄ where
  pub beq_refl : (a : A) → e.beq a a ≡ true
  beq_refl a = (e.beq_iff a a).1 refl

  pub eq-cases : (a b : A) → ((e.beq a b ≡ true) × (a ≡ b)) ⊎ ((e.beq a b ≡ false) × (a ≢ b))
  eq-cases a b = elim (Bool-cases (e.beq a b)) [
    | inl same ↦ inl (same, (e.beq_iff a b).0 same)
    | inr other ↦ inr (other, λ p. ground (arith, (e.beq_iff a b).1 p))
  ]

  pub ne_of_beq : (a b : A) → e.beq a b ≡ false → a ≢ b
  ne_of_beq a b h p = ground (arith, (e.beq_iff a b).1 p)

module _ {A B : Type 0} ⦃a : Eq A⦄ ⦃b : Eq B⦄ where
  abbrev pub pair_beq : A × B → A × B → Bool
  pair_beq x y = a.beq x.0 y.0 && b.beq x.1 y.1

  pub pair_beq_iff : (x y : A × B) → (pair_beq x y ≡ true) ↔ (x ≡ y)
  pair_beq_iff x y = (
    λ h. ground (arith, (a.beq_iff x.0 y.0).0, (b.beq_iff x.1 y.1).0),
    λ h. ground (arith, (a.beq_iff x.0 y.0).1, (b.beq_iff x.1 y.1).1),
  )

  instance abbrev pub pair_eq : Eq (A × B)
  pair_eq = record { beq = pair_beq; beq_iff = pair_beq_iff }

module _ {A B C : Type 0} ⦃a : Eq A⦄ ⦃b : Eq B⦄ ⦃c : Eq C⦄ where
  abbrev pub triple_beq : A × B × C → A × B × C → Bool
  triple_beq x y = a.beq x.0 y.0 && b.beq x.1 y.1 && c.beq x.2 y.2

  pub triple_beq_iff : (x y : A × B × C) → (triple_beq x y ≡ true) ↔ (x ≡ y)
  triple_beq_iff x y = (
    λ h. ground (arith, (a.beq_iff x.0 y.0).0, (b.beq_iff x.1 y.1).0, (c.beq_iff x.2 y.2).0),
    λ h. ground (arith, (a.beq_iff x.0 y.0).1, (b.beq_iff x.1 y.1).1, (c.beq_iff x.2 y.2).1),
  )

  instance abbrev pub triple_eq : Eq (A × B × C)
  triple_eq = record { beq = triple_beq; beq_iff = triple_beq_iff }

module _ {A : Type 0} ⦃a : Eq A⦄ where
  abbrev pub option_beq : Option A → Option A → Bool
  option_beq none none = true
  option_beq none (some y) = false
  option_beq (some x) none = false
  option_beq (some x) (some y) = a.beq x y

  pub option_beq_iff : (x y : Option A) → (option_beq x y ≡ true) ↔ (x ≡ y)
  option_beq_iff none none = ground arith
  option_beq_iff none (some y) = ground arith
  option_beq_iff (some x) none = ground arith
  option_beq_iff (some x) (some y) =
      (λ h. ap some ((a.beq_iff x y).0 h), λ h. (a.beq_iff x y).1 (cc))

  instance abbrev pub option_eq : Eq (Option A)
  option_eq = record { beq = option_beq; beq_iff = option_beq_iff }

-- An arm of a `match` on a text: it is taken, or the others are tried.
pub arm-cases {ℓ} :
    {A : Type ℓ} (value text : String) (a : A) (rest : Option A) {b : A}
    → (if value =? text then some a else rest) ≡ some b
    → ((value ≡ text) × (a ≡ b)) ⊎ (rest ≡ some b)
arm-cases value text a rest {b} h = elim (eq-cases value text) [
  | inl (hit, same) ↦ inl (same, some-injective a b (rw hit at h))
  | inr (miss, _) ↦ inr (rw miss at h)
]
