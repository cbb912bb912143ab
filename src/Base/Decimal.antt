-- ===== src/Base/Decimal.antt =====
-- A number printed in decimal, as `format!` prints a `u64`, and read back.
use Prim.Native.Nat.{ℕ, zero, suc, ◌+◌, ◌*◌, ◌-◌, ◌/◌, ◌%◌, ◌<◌}
use Prim.Native.Char.{Char, code}
use Prim.Native.String.{String, [], ◌∷◌, ◌++◌}
use Prim.Native.String.append
use mathlib.Core.Path.{◌≡◌, refl, sym, ◌∙◌, ap}
use mathlib.Core.Logic.{inl, inr}
use native.Mathlib.Omega.{arith}
use typemach.Base.Tests.{ltb, if◌then◌else◌, Bool-cases}

digit : ℕ → Char
digit zero = "0"
digit (suc zero) = "1"
digit (suc (suc zero)) = "2"
digit (suc (suc (suc zero))) = "3"
digit (suc (suc (suc (suc zero)))) = "4"
digit (suc (suc (suc (suc (suc zero))))) = "5"
digit (suc (suc (suc (suc (suc (suc zero)))))) = "6"
digit (suc (suc (suc (suc (suc (suc (suc zero))))))) = "7"
digit (suc (suc (suc (suc (suc (suc (suc (suc zero)))))))) = "8"
digit _ = "9"

digit_value : (n : ℕ) → n < 10 → code (digit n) - 48 ≡ n
unfolding digit
digit_value zero h = refl
digit_value (suc zero) h = refl
digit_value (suc (suc zero)) h = refl
digit_value (suc (suc (suc zero))) h = refl
digit_value (suc (suc (suc (suc zero)))) h = refl
digit_value (suc (suc (suc (suc (suc zero))))) h = refl
digit_value (suc (suc (suc (suc (suc (suc zero)))))) h = refl
digit_value (suc (suc (suc (suc (suc (suc (suc zero))))))) h = refl
digit_value (suc (suc (suc (suc (suc (suc (suc (suc zero)))))))) h = refl
digit_value (suc (suc (suc (suc (suc (suc (suc (suc (suc zero))))))))) h = refl
digit_value (suc (suc (suc (suc (suc (suc (suc (suc (suc (suc n)))))))))) h =
    absurd (omega (arith, h))

-- The fuel is a bound on the digits, for which any greater number serves.
print : ℕ → ℕ → String
print zero n = []
print (suc f) n =
    let rest = print f (n / 10) in if ltb n 10 then digit n ∷ [] else rest ++ (digit (n % 10) ∷ [])

unfoldable pub decimal : ℕ → String
unfolding print digit
decimal n = print (suc n) n

read : String → ℕ → ℕ
read [] n = n
read (c ∷ s) n = read s (n * 10 + (code c - 48))

read-append : (s t : String) (n : ℕ) → read (s ++ t) n ≡ read t (read s n)
unfolding read
read-append [] t n = ap (λ x. read x n) (append.nil t)
read-append (c ∷ s) t n =
    ap (λ x. read x n) (append.cons c s t) ∙ read-append s t (n * 10 + (code c - 48))

read-print : (f n : ℕ) → n < f → read (print f n) 0 ≡ n
unfolding read print
read-print zero n h = absurd (omega (arith, h))
read-print (suc f) n h = elim (Bool-cases (ltb n 10)) [
  | inl small ↦
      let value = digit_value n (ground (arith, small)) in rw (small, print) (omega (arith, value))
  | inr large ↦
      let rest = read-print f (n / 10) (ground (arith, large, h)) in
      let last_one = digit_value (n % 10) (omega arith) in
      rw (large, print)
        (read-append (print f (n / 10)) (digit (n % 10) ∷ []) 0 ∙ rw (rest, last_one) (omega arith))
]

-- Different numbers have different prints.
pub decimal_injective : (m n : ℕ) → decimal m ≡ decimal n → m ≡ n
unfolding decimal
decimal_injective m n same =
    sym (read-print (suc m) m (omega arith))
    ∙ ap (λ s. read s 0) same
    ∙ read-print (suc n) n (omega arith)
