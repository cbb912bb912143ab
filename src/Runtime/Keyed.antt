-- ===== src/Runtime/Keyed.antt =====
-- Writes that are kept by key, src/runtime/tx/op.rs.
use typemach.Base.{
  String, none, some, Bool, true, false, List, [], ◌∷◌, ◌++◌, ◌≡◌, refl, sym, ap, ◌∙◌, inl, inr,
  Option-cases, Bool-cases, if◌then◌else◌, arith,
}
use mathlib.Core.Path.{subst}
use typemach.Base.Eq.{◌=?◌, string_eq, beq_refl}
use typemach.Base.Map.{find}
use typemach.Error.{Result, ok, err, MachineError}
use typemach.Runtime.Pending.{push}

beq_sym : (a b : String) → (a =? b) ≡ false → (b =? a) ≡ false
beq_sym a b h =
    ground (arith, string_eq.beq_iff b a, (string_eq.beq_iff a b).1, (string_eq.beq_iff b a).0)

module _ {A : Type 0} (key : A → String) where
  -- No key has two writes.
  abbrev pub Distinct : List A → Type 0
  Distinct [] = Unit
  Distinct (a ∷ rest) = (find (λ b. key b =? key a) rest ≡ none) × Distinct rest

  find-append_none :
      (k : String) (rest : List A) (b : A)
      → find (λ x. key x =? k) rest ≡ none
      → (key b =? k) ≡ false
      → find (λ x. key x =? k) (rest ++ b ∷ []) ≡ none
  unfolding find
  find-append_none k [] b h other = ground (arith, other)
  find-append_none k (a ∷ rest) b h other = ground (arith, other, find-append_none k rest b)

  find-head_ne :
      (k : String) (a : A) (rest : List A)
      → find (λ x. key x =? k) (a ∷ rest) ≡ none
      → ((key a =? k) ≡ false) × (find (λ x. key x =? k) rest ≡ none)
  unfolding find
  find-head_ne k a rest h = ground arith

  append-Distinct :
      (rest : List A) (b : A)
      → find (λ x. key x =? key b) rest ≡ none
      → Distinct rest
      → Distinct (rest ++ b ∷ [])
  unfolding find
  append-Distinct [] b h d = (refl, tt)
  append-Distinct (a ∷ rest) b h d =
      let (other, absent) = find-head_ne (key b) a rest h in
      (
        find-append_none (key a) rest b d.0 (beq_sym (key a) (key b) other),
        append-Distinct rest b absent d.1,
      )

  pub push-Distinct :
      (beq : A → A → Bool) (conflict : MachineError) (a : A) (pending : List A)
      → Distinct pending
      → Distinct (push key beq conflict a pending).1
  unfolding push
  push-Distinct beq conflict a pending d =
      elim (Option-cases (find (λ x. key x =? key a) pending)) [
        | inl absent ↦ rw (absent, push) (append-Distinct pending a absent d)
        | inr (x, found) ↦ rw (found, push) d
      ]

  find-append_self :
      (a : A) (pending : List A)
      → find (λ x. key x =? key a) pending ≡ none
      → find (λ x. key x =? key a) (pending ++ a ∷ []) ≡ some a
  unfolding find
  find-append_self a [] h = ground (arith, beq_refl (key a))
  find-append_self a (b ∷ pending) h = ground (arith, find-append_self a pending)

  push-new :
      (beq : A → A → Bool) (conflict : MachineError) (a : A) (pending : List A)
      → find (λ x. key x =? key a) pending ≡ none
      → push key beq conflict a pending ≡ (ok tt, pending ++ a ∷ [])
  unfolding push
  push-new beq conflict a pending absent = rw (absent, push) refl

  push-there :
      (beq : A → A → Bool) (conflict : MachineError) (a x : A) (pending : List A)
      → find (λ y. key y =? key a) pending ≡ some x
      → push key beq conflict a pending ≡ (if beq x a then ok tt else err conflict, pending)
  unfolding push
  push-there beq conflict a x pending found = rw (found, push) refl

  -- A write that has been taken is taken again, and changes nothing.
  pub push-again :
      (beq : A → A → Bool) (conflict : MachineError) (a : A) (pending : List A)
      → beq a a ≡ true
      → (push key beq conflict a pending).0 ≡ ok tt
      → push key beq conflict a (push key beq conflict a pending).1
        ≡ (ok tt, (push key beq conflict a pending).1)
  push-again beq conflict a pending same taken =
      let Again : Result (Unit {0}) × List A → Type 0 =
        λ y. push key beq conflict a y.1 ≡ (ok tt, y.1) in
      elim (Option-cases (find (λ x. key x =? key a) pending)) [
        | inl absent ↦
            let there = find-append_self a pending absent in
            subst Again (sym (push-new beq conflict a pending absent)) (
              push-there beq conflict a a (pending ++ a ∷ []) there
              ∙ ap (λ b. (if b then ok tt else err conflict, pending ++ a ∷ [])) same)
        | inr (x, found) ↦ elim (Bool-cases (beq x a)) [
          | inl equal ↦
              let settled =
                push-there beq conflict a x pending found
                ∙ ap (λ b. (if b then ok tt else err conflict, pending)) equal in
              subst Again (sym settled) settled
          | inr other ↦
              let refused =
                push-there beq conflict a x pending found
                ∙ ap (λ b. (if b then ok tt else err conflict, pending)) other in
              absurd (cc)
        ]
      ]
