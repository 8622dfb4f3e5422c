-- ===== src/Prelude/Int.antt =====
-- Go's `int` on a 64-bit host: an integer that wraps at 2^63. `negsuc n` is -(n + 1).
use Prim.Native.Nat.{ℕ, suc, ◌+◌, ◌-◌, ◌%◌, ◌<◌}
use mathlib.Core.Path.{◌≡◌}
use mathlib.Core.Bool.{Bool}
use native.Mathlib.Omega.{arith}
use donsy.Prelude.Tests.{ltb, if◌then◌else◌}

pub data ℤ : Type 0 where
  pos : ℕ → ℤ
  negsuc : ℕ → ℤ

abbrev pub pos_part : ℤ → ℕ
pos_part (pos n) = n
pos_part (negsuc n) = 0

abbrev pub neg_part : ℤ → ℕ
neg_part (pos n) = 0
neg_part (negsuc n) = suc n

-- The tests `a < b` and `a == b` of two ints.
abbrev pub ltb_ℤ : ℤ → ℤ → Bool
ltb_ℤ a b = ltb (pos_part a + neg_part b) (pos_part b + neg_part a)

abbrev pub two63 : ℕ
two63 = 9223372036854775808

abbrev pub two64 : ℕ
two64 = 18446744073709551616

-- The int with a 64-bit pattern.
abbrev of_bits : ℕ → ℤ
of_bits b = if ltb b two63 then pos b else negsuc (two64 - 1 - b)

abbrev pub wrap : ℤ → ℤ
wrap (pos n) = of_bits (n % two64)
wrap (negsuc n) = of_bits (two64 - 1 - n % two64)

-- `n + x` for a constant n that is not negative, and `x++`.
unfoldable pub add_const : ℕ → ℤ → ℤ
add_const k (pos n) = wrap (pos (k + n))
add_const k (negsuc n) = if ltb n k then wrap (pos (k - 1 - n)) else wrap (negsuc (n - k))

unfoldable pub inc : ℤ → ℤ
unfolding add_const
inc x = add_const 1 x

-- Below the overflow the sum is exact.
pub add_const-pos : (k n : ℕ) → k + n < two63 → add_const k (pos n) ≡ pos (k + n)
unfolding add_const
add_const-pos k n h = ground arith

pub inc-pos : (n : ℕ) → n + 1 < two63 → inc (pos n) ≡ pos (n + 1)
unfolding inc
inc-pos n h = ground arith

pub inc-parts :
    (x : ℤ)
    → neg_part x ≡ 0
    → pos_part x + 1 < two63
    → (neg_part (inc x) ≡ 0) × (pos_part (inc x) ≡ pos_part x + 1)
inc-parts (pos n) h k = ground (arith, inc-pos n)
inc-parts (negsuc n) h k = absurd (omega arith)
