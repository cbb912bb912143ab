-- ===== src/Base/Int.antt =====
-- Signed 64-bit integers over the native numbers: the orders that the program tests, and `+ 1`.
use Prim.Native.Nat.{ℕ, suc, ◌+◌, ◌-◌, ◌≤◌, ◌<◌, ◌^◌}
use mathlib.Core.Path.{◌≡◌, refl}
use mathlib.Core.Bool.{Bool, true, ◌&&◌}
use native.Mathlib.Omega.{arith}
use typemach.Base.Tests.{ltb, leb, if◌then◌else◌, ◌==◌}

-- `negsuc n` is -(n + 1).
pub data ℤ : Type 0 where
  pos : ℕ → ℤ
  negsuc : ℕ → ℤ

abbrev pub pos_part : ℤ → ℕ
pos_part (pos n) = n
pos_part (negsuc n) = 0

abbrev pub neg_part : ℤ → ℕ
neg_part (pos n) = 0
neg_part (negsuc n) = suc n

infix 50 ◌≤ℤ◌ ◌<ℤ◌
abbrev pub ◌≤ℤ◌ : ℤ → ℤ → Type 0
a ≤ℤ b = pos_part a + neg_part b ≤ pos_part b + neg_part a

abbrev pub ◌<ℤ◌ : ℤ → ℤ → Type 0
a <ℤ b = pos_part a + neg_part b < pos_part b + neg_part a

abbrev pub leb_ℤ : ℤ → ℤ → Bool
leb_ℤ a b = leb (pos_part a + neg_part b) (pos_part b + neg_part a)

abbrev pub ltb_ℤ : ℤ → ℤ → Bool
ltb_ℤ a b = ltb (pos_part a + neg_part b) (pos_part b + neg_part a)

-- 2 ^ 63, the first number past `i64::MAX`.
unfoldable pub i64_bound : ℕ
i64_bound = 2 ^ 63

-- `x + 1` on `i64`, which wraps at `i64::MAX`.
unfoldable pub inc : ℤ → ℤ
inc (pos n) = if ltb (n + 1) i64_bound then pos (n + 1) else negsuc (i64_bound - 1)
inc (negsuc n) = if n == 0 then pos 0 else negsuc (n - 1)

-- Below `i64::MAX` the increment is the integers' own.
pub lt-inc : (a : ℤ) → pos_part a + 1 < i64_bound → a <ℤ inc a
unfolding inc
lt-inc (pos n) h = ground arith
lt-inc (negsuc n) h = ground arith

pub inc-pos : (n : ℕ) → n + 1 < i64_bound → inc (pos n) ≡ pos (n + 1)
unfolding inc
inc-pos n h = ground arith

pub inc-zero : inc (pos 0) ≡ pos 1
unfolding inc i64_bound
inc-zero = refl

abbrev pub int_beq : ℤ → ℤ → Bool
int_beq a b = leb_ℤ a b && leb_ℤ b a

pub int_beq-eq : (a b : ℤ) → int_beq a b ≡ true → a ≡ b
int_beq-eq a b h = ground arith
