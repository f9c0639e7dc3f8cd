-- ===== src/Base/Int64.antt =====
-- Go's `int` and `int64`, as 64-bit patterns: 2^64 - n stands for -n. Sums wrap, and an order is
-- read on the signed values.
use Prim.Native.Nat.{ℕ, ◌+◌, ◌-◌, ◌%◌, ◌^◌, ◌≤◌, ◌<◌}
use mathlib.Core.Path.{◌≡◌, refl}
use mathlib.Core.Bool.{Bool, true, false}
use native.Mathlib.Omega.{arith}
use firework.Base.Tests.{ltb}

abbrev pub word : ℕ
word = 2 ^ 64

-- The sign bit.
abbrev pub half_word : ℕ
half_word = 2 ^ 63

abbrev pub max_int64 : ℕ
max_int64 = 2 ^ 63 - 1

-- Quantities below this bound can be added in pairs with no overflow.
abbrev pub safe_bound : ℕ
safe_bound = 2 ^ 61

unfoldable pub add64 : ℕ → ℕ → ℕ
add64 a b = (a + b) % word

unfoldable pub sub64 : ℕ → ℕ → ℕ
sub64 a b = (a + word - b) % word

-- a < b, a > b on the signed values.
unfoldable pub lt64 : ℕ → ℕ → Bool
lt64 a b = ltb ((a + half_word) % word) ((b + half_word) % word)

abbrev pub gt64 : ℕ → ℕ → Bool
gt64 a b = lt64 b a

abbrev pub minus_one : ℕ
minus_one = word - 1

pub add64_small : (a b : ℕ) → a + b < half_word → add64 a b ≡ a + b
unfolding add64
add64_small a b h = omega arith

pub lt64_small : (a b : ℕ) → a < half_word → b < half_word → lt64 a b ≡ ltb a b
unfolding lt64
lt64_small a b h k = ground arith

-- The admission test `used + wanted > capacity` on small quantities: it fails exactly when the sum
-- fits, and then the sum has not wrapped.
pub admit :
    (u v c : ℕ)
    → u < half_word
    → v < half_word
    → c < half_word
    → u + v < half_word
    → gt64 (add64 u v) c ≡ false
    → u + v ≤ c
unfolding add64 lt64
admit u v c hu hv hc hs h = ground arith

pub refuse : (u v c : ℕ) → u + v < half_word → c < half_word → gt64 (add64 u v) c ≡ true → c < u + v
unfolding add64 lt64
refuse u v c hs hc h = ground arith

negative : lt64 minus_one 0 ≡ true
unfolding lt64
negative = refl

wraps : lt64 (add64 max_int64 1) 0 ≡ true
unfolding lt64 add64
wraps = refl
