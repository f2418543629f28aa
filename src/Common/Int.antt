-- ===== src/Common/Int.antt =====
-- Signed integers of Go that stay far from their bounds: counters that go up and down by one.
use Prim.Native.Nat.{ℕ, zero, suc, ◌+◌, ◌-◌, ◌<◌}
use mathlib.Core.Path.{◌≡◌, refl}
use mathlib.Core.Bool.{Bool, true, false}
use native.Mathlib.Omega.{arith}
use eidola.Common.Tests.{ltb, if◌then◌else◌}

infix 60 ◌+ℤ◌
-- `negsuc n` is -(n + 1).
pub data ℤ : Type 0 where
  pos : ℕ → ℤ
  negsuc : ℕ → ℤ

abbrev pub pos_part : ℤ → ℕ
pos_part (pos n) = n
pos_part (negsuc n) = 0

abbrev pub neg_part : ℤ → ℕ
neg_part (pos n) = 0
neg_part (negsuc n) = suc n

-- `x++` and `x--`
unfoldable pub increment : ℤ → ℤ
increment (pos n) = pos (suc n)
increment (negsuc zero) = pos 0
increment (negsuc (suc n)) = negsuc n

unfoldable pub decrement : ℤ → ℤ
decrement (pos zero) = negsuc 0
decrement (pos (suc n)) = pos n
decrement (negsuc n) = negsuc (suc n)

-- `x < n` and `x > 0`
unfoldable pub below : ℤ → ℕ → Bool
below (pos m) n = ltb m n
below (negsuc m) n = true

unfoldable pub positive : ℤ → Bool
positive (pos m) = ltb 0 m
positive (negsuc m) = false

-- `x > n` and `x + y`
unfoldable pub above : ℤ → ℕ → Bool
above (pos m) n = ltb n m
above (negsuc m) n = false

unfoldable pub difference : ℕ → ℕ → ℤ
difference a b = if ltb a b then negsuc (b - a - 1) else pos (a - b)

unfoldable pub ◌+ℤ◌ : ℤ → ℤ → ℤ
unfolding difference
pos a +ℤ pos b = pos (a + b)
pos a +ℤ negsuc b = difference a (suc b)
negsuc a +ℤ pos b = difference b (suc a)
negsuc a +ℤ negsuc b = negsuc (suc (a + b))

pub decrement-increment : (a : ℤ) → decrement (increment a) ≡ a
unfolding increment decrement
decrement-increment (pos n) = refl
decrement-increment (negsuc zero) = refl
decrement-increment (negsuc (suc n)) = refl

pub increment_parts :
    (a : ℤ) → pos_part (increment a) + neg_part a ≡ neg_part (increment a) + pos_part a + 1
unfolding increment
increment_parts (pos n) = omega arith
increment_parts (negsuc zero) = omega arith
increment_parts (negsuc (suc n)) = omega arith

pub decrement_parts :
    (a : ℤ) → pos_part (decrement a) + neg_part a + 1 ≡ neg_part (decrement a) + pos_part a
unfolding decrement
decrement_parts (pos zero) = omega arith
decrement_parts (pos (suc n)) = omega arith
decrement_parts (negsuc n) = omega arith

pub below-lt : (a : ℤ) (n : ℕ) → below a n ≡ true → 0 < n → pos_part a < n + neg_part a
unfolding below
below-lt (pos m) n h k = ground arith
below-lt (negsuc m) n h k = omega arith
