-- ===== src/Config/Size/Bounds.antt =====
-- internal/config/size.go: what sizes are read, and that their bytes fit in an int64.
use Prim.Native.String.{len}
use firework.Base.{
  ℕ, ◌*◌, ◌≤◌, ◌<◌, String, str_append, Bool, true, ◌≡◌, refl, ◌∙◌, ◌&&◌, ◌||◌, ◌⊎◌, inl, inr,
  if◌then◌else◌, some, arith, ltb, ◌==◌, if_ind, not, Bool-cases, sym,
}
use firework.Base.Int64.{half_word, max_int64, lt64}
use firework.Base.Text.{trim_space, is_space}
use firework.Base.Decimal.{parse_int, has_suffix, trim_suffix, decimal, has_no_space}
use firework.Base.Decimal.Printed.{
  parse_int-decimal, parse_int-printed, parse_int-IsWord, has_suffix-append, trim_suffix-append,
}
use firework.Base.Decimal.Spaces.{
  decimal-has_no_space, append-has_no_space, trim_space-has_no_space,
}
use firework.Config.Size.Units.{
  Scale, mebi, gibi, tebi, multiplier, suffix, is_tebi, IsScaled, scale-IsScaled, scaled_bounds,
}
use firework.Config.Size.{SizeError, not_a_size, size_overflows, scale, parse_trimmed, parse_size}

-- The same of a text: it ends with an allowed unit, and the number is what stands before it.
abbrev pub Fits : String → Bool → SizeError ⊎ ℕ → Type 0
Fits value allow_ti (inl e) = Unit
Fits value allow_ti (inr b) =
    (u : Scale) × ((not (is_tebi u) || allow_ti) ≡ true)
    × (has_suffix (trim_space value) (suffix u) ≡ true)
    × IsScaled u (parse_int (trim_suffix (trim_space value) (suffix u))) (inr b)

-- The case of one unit in the switch.
scaled-Fits :
    (u : Scale) (value : String) (allow_ti : Bool) (b : SizeError ⊎ ℕ)
    → (not (is_tebi u) || allow_ti) ≡ true
    → has_suffix (trim_space value) (suffix u) ≡ true
    → IsScaled u (parse_int (trim_suffix (trim_space value) (suffix u))) b
    → Fits value allow_ti b
scaled-Fits u value allow_ti (inl e) a h k = tt
scaled-Fits u value allow_ti (inr b) a h k = (u, a, h, k)

unit-Fits :
    (u : Scale) (value : String) (allow_ti : Bool)
    → (not (is_tebi u) || allow_ti) ≡ true
    → has_suffix (trim_space value) (suffix u) ≡ true
    → Fits value allow_ti
        (scale (multiplier u) (parse_int (trim_suffix (trim_space value) (suffix u))))
unit-Fits u value allow_ti a h =
    let o = parse_int (trim_suffix (trim_space value) (suffix u)) in
    scaled-Fits u value allow_ti _ a h
      (scale-IsScaled u o (parse_int-IsWord (trim_suffix (trim_space value) (suffix u))))

-- Whatever the text is, what is not an error is read of a text that ends with an allowed unit, is the
-- product of a positive number, which stands before the unit, and the unit's bytes, and is at most
-- 2 ^ 63 - 1: the product has not wrapped.
pub parse_size-Fits :
    (value : String) (allow_ti : Bool) → Fits value allow_ti (parse_size value allow_ti)
unfolding parse_size parse_trimmed
parse_size-Fits value allow_ti =
    let v : String = trim_space value in
    if_ind (Fits value allow_ti) (has_suffix v "Mi") (λ e. unit-Fits mebi value allow_ti refl e)
      (λ _.
        if_ind (Fits value allow_ti) (has_suffix v "Gi") (λ e. unit-Fits gibi value allow_ti refl e)
          (λ _.
            if_ind (Fits value allow_ti) (allow_ti && has_suffix v "Ti")
              (λ e. unit-Fits tebi value allow_ti (ground (arith, e)) (ground (arith, e)))
              (λ _. tt)))

pub Fits-bounds :
    (value : String) (allow_ti : Bool) (b : ℕ)
    → Fits value allow_ti (inr b)
    → (0 < b) × (b ≤ max_int64)
Fits-bounds value allow_ti b (u, _, _, h) = scaled_bounds u _ b h

scale-decimal :
    (u : Scale) (n : ℕ)
    → 0 < n
    → n * multiplier u < half_word
    → scale (multiplier u) (some n) ≡ inr (n * multiplier u)
unfolding scale lt64
scale-decimal mebi n h l = ground arith
scale-decimal gibi n h l = ground arith
scale-decimal tebi n h l = ground arith

scale-overflow :
    (u : Scale) (n : ℕ)
    → n < half_word
    → half_word ≤ n * multiplier u
    → scale (multiplier u) (some n) ≡ inl size_overflows
unfolding scale lt64
scale-overflow mebi n h l = ground arith
scale-overflow gibi n h l = ground arith
scale-overflow tebi n h l = ground arith

suffix_space : (u : Scale) → has_no_space (suffix u) ≡ true
unfolding has_no_space is_space
suffix_space mebi = refl
suffix_space gibi = refl
suffix_space tebi = refl

len-suffix : (u : Scale) → len (suffix u) ≡ 2
len-suffix mebi = refl
len-suffix gibi = refl
len-suffix tebi = refl

same_len : (u v : Scale) → len (suffix u) ≡ len (suffix v)
same_len u v = len-suffix u ∙ sym (len-suffix v)

small : (u : Scale) (n : ℕ) → n * multiplier u < half_word → n < half_word
small mebi n l = omega (arith, l)
small gibi n l = omega (arith, l)
small tebi n l = omega (arith, l)

-- A numeral with a unit is not changed by the trimming, and its end tells the unit.
trimmed_size :
    (n : ℕ) (u : Scale)
    → trim_space (str_append (decimal n) (suffix u)) ≡ str_append (decimal n) (suffix u)
unfolding has_no_space
trimmed_size n u =
    trim_space-has_no_space (str_append (decimal n) (suffix u))
      (append-has_no_space (decimal n) (suffix u) (decimal-has_no_space n) (suffix_space u))

ends_with :
    (n : ℕ) (u v : Scale)
    → has_suffix (str_append (decimal n) (suffix u)) (suffix v) ≡ (suffix u == suffix v)
ends_with n u v = has_suffix-append (decimal n) (suffix u) (suffix v) (same_len u v)

parse_size-unit :
    (n : ℕ) (u : Scale) (allow_ti : Bool)
    → (not (is_tebi u) || allow_ti) ≡ true
    → parse_size (str_append (decimal n) (suffix u)) allow_ti
      ≡ scale (multiplier u) (parse_int (decimal n))
unfolding parse_size parse_trimmed
parse_size-unit n mebi allow_ti h =
    rw (trimmed_size n mebi, ends_with n mebi mebi, trim_suffix-append (decimal n) "Mi") refl
parse_size-unit n gibi allow_ti h =
    rw
      (
        trimmed_size n gibi,
        ends_with n gibi mebi,
        ends_with n gibi gibi,
        trim_suffix-append (decimal n) "Gi",
      )
      refl
parse_size-unit n tebi allow_ti h =
    rw
      (
        trimmed_size n tebi,
        ends_with n tebi mebi,
        ends_with n tebi gibi,
        ends_with n tebi tebi,
        trim_suffix-append (decimal n) "Ti",
        h,
      )
      refl

-- A positive number printed in decimal in front of an allowed unit is read as that many bytes,
-- where an int64 holds them.
pub parse_size-decimal :
    (n : ℕ) (u : Scale) (allow_ti : Bool)
    → (not (is_tebi u) || allow_ti) ≡ true
    → 0 < n
    → n * multiplier u < half_word
    → parse_size (str_append (decimal n) (suffix u)) allow_ti ≡ inr (n * multiplier u)
unfolding scale
parse_size-decimal n u allow_ti h p l =
    parse_size-unit n u allow_ti h ∙ rw (parse_int-decimal n (small u n l)) (scale-decimal u n p l)

-- A number in front of an allowed unit is refused as too large where an int64 holds the number but
-- not its bytes, and as no size where an int64 does not even hold the number.
pub parse_size-refuses :
    (n : ℕ) (u : Scale) (allow_ti : Bool)
    → (not (is_tebi u) || allow_ti) ≡ true
    → half_word ≤ n * multiplier u
    → parse_size (str_append (decimal n) (suffix u)) allow_ti
      ≡ (if ltb n half_word then inl size_overflows else inl not_a_size)
unfolding scale
parse_size-refuses n u allow_ti h l =
    parse_size-unit n u allow_ti h ∙ elim (Bool-cases (ltb n half_word)) [
      | inl e ↦ rw (parse_int-printed n, e) (scale-overflow u n (ground (arith, e)) l)
      | inr e ↦ rw (parse_int-printed n, e) refl
    ]
