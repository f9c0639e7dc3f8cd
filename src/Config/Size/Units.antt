-- ===== src/Config/Size/Units.antt =====
-- internal/config/size.go: the units of a size, and what the multiplication by a unit gives.
use firework.Base.{
  ℕ, ◌*◌, ◌/◌, ◌%◌, ◌≤◌, ◌<◌, String, Bool, true, false, ◌≡◌, ◌⊎◌, inl, inr, Option, none, some,
  arith, if_ind, not,
}
use firework.Base.Int64.{word, max_int64, gt64, lt64}
use firework.Base.Decimal.Printed.{IsWord}
use firework.Config.Size.{mib, gib, tib, SizeError, scale}

-- The three units, the last one for storage pools only.
pub data Scale : Type 0 where
  mebi gibi tebi : Scale

abbrev pub multiplier : Scale → ℕ
multiplier mebi = mib
multiplier gibi = gib
multiplier tebi = tib

abbrev pub suffix : Scale → String
suffix mebi = "Mi"
suffix gibi = "Gi"
suffix tebi = "Ti"

abbrev pub is_tebi : Scale → Bool
is_tebi tebi = true
is_tebi _ = false

-- What is read is the bytes of a positive number of units, as a product of natural numbers, and an
-- int64 holds them.
abbrev pub IsScaled : Scale → Option ℕ → SizeError ⊎ ℕ → Type 0
IsScaled u o (inl e) = Unit
IsScaled u none (inr b) = ⊥
IsScaled u (some n) (inr b) = (0 < n) × (b ≡ n * multiplier u) × (b ≤ max_int64)

-- With a number that passes the two tests the product does not wrap.
scale-IsScaled_if :
    (u : Scale) (n : ℕ)
    → (gt64 n 0 ≡ true
        → gt64 n (max_int64 / multiplier u) ≡ false
        → IsScaled u (some n) (inr (n * multiplier u % word)))
    → IsScaled u (some n) (scale (multiplier u) (some n))
unfolding scale
scale-IsScaled_if u n h =
    if_ind (IsScaled u (some n)) (not (gt64 n 0)) (λ _. tt)
      (λ e.
        if_ind (IsScaled u (some n)) (gt64 n (max_int64 / multiplier u)) (λ _. tt)
          (λ f. h (ground (arith, e)) f))

in_bounds :
    (u : Scale) (n : ℕ)
    → n < word
    → gt64 n 0 ≡ true
    → gt64 n (max_int64 / multiplier u) ≡ false
    → IsScaled u (some n) (inr (n * multiplier u % word))
unfolding lt64
in_bounds mebi n l e f = (ground (arith, e), ground (arith, e, f), ground (arith, e, f))
in_bounds gibi n l e f = (ground (arith, e), ground (arith, e, f), ground (arith, e, f))
in_bounds tebi n l e f = (ground (arith, e), ground (arith, e, f), ground (arith, e, f))

pub scale-IsScaled : (u : Scale) (o : Option ℕ) → IsWord o → IsScaled u o (scale (multiplier u) o)
unfolding scale
scale-IsScaled u none l = tt
scale-IsScaled u (some n) l = scale-IsScaled_if u n (in_bounds u n l)

pub scaled_bounds :
    (u : Scale) (o : Option ℕ) (b : ℕ) → IsScaled u o (inr b) → (0 < b) × (b ≤ max_int64)
scaled_bounds u none b h = absurd h
scaled_bounds mebi (some n) b (p, e, l) = (omega (arith, p, e), l)
scaled_bounds gibi (some n) b (p, e, l) = (omega (arith, p, e), l)
scaled_bounds tebi (some n) b (p, e, l) = (omega (arith, p, e), l)
