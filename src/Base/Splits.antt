-- ===== src/Base/Splits.antt =====
-- strings.Split on texts that were joined by dots.
use Prim.Native.Char.{code}
use Prim.Native.Nat.{ℕ, zero, suc, ◌/◌, ◌%◌}
use Prim.Native.String.{String, ◌++◌ as str_append}
use mathlib.Core.Path.{◌≡◌, refl, ap, ◌∙◌}
use mathlib.Core.Bool.{false}
use mathlib.Core.List.{[], ◌∷◌}
use native.Mathlib.Omega.{arith}
use text.Mathlib.TextLemmas.{nil-append, cons-append}
use firework.Base.Tests.{eqb, ltb, if_ind}
use firework.Base.Text.{split_on, contains_char}
use firework.Base.Decimal.{decimal, digits_from, digit_char, digit_char-code}

dot-append : (t : String) → str_append "." t ≡ String.◌∷◌ "." t
dot-append t = cons-append "." "" t ∙ ap (String.◌∷◌ ".") (nil-append t)

-- A first part without a dot is the first of the parts.
pub split-append :
    (s t : String)
    → contains_char 46 s ≡ false
    → split_on 46 (str_append s (str_append "." t)) ≡ s ∷ split_on 46 t
unfolding contains_char split_on
split-append String.[] t h = rw (nil-append (str_append "." t), dot-append t) refl
split-append (String.◌∷◌ c s) t h =
    rw (cons-append c s (str_append "." t), split-append s t (ground (arith, h)))
      (if_ind (λ ss. ss ≡ String.◌∷◌ c s ∷ split_on 46 t) (eqb (code c) 46)
        (λ e. absurd (ground (arith, e, h))) (λ _. refl))

-- A text without a dot is its only part.
pub split-contains_char : (s : String) → contains_char 46 s ≡ false → split_on 46 s ≡ s ∷ []
unfolding contains_char split_on
split-contains_char String.[] h = refl
split-contains_char (String.◌∷◌ c s) h = rw (split-contains_char s (ground (arith, h))) (
    if_ind (λ ss. ss ≡ String.◌∷◌ c s ∷ []) (eqb (code c) 46) (λ e. absurd (ground (arith, e, h)))
      (λ _. refl))

digit-contains_char :
    (n : ℕ) (s : String)
    → contains_char 46 s ≡ false
    → contains_char 46 (String.◌∷◌ (digit_char (n % 10)) s) ≡ false
unfolding contains_char
digit-contains_char n s h = rw (digit_char-code (n % 10) (omega arith), h) (ground arith)

digits_from-contains_char :
    (fuel n : ℕ) (s : String)
    → contains_char 46 s ≡ false
    → contains_char 46 (digits_from fuel n s) ≡ false
unfolding digits_from
digits_from-contains_char zero n s h = digit-contains_char n s h
digits_from-contains_char (suc fuel) n s h =
    if_ind (λ t. contains_char 46 t ≡ false) (ltb n 10) (λ _. digit-contains_char n s h)
      (λ _.
        digits_from-contains_char fuel (n / 10) (String.◌∷◌ (digit_char (n % 10)) s)
          (digit-contains_char n s h))

-- A numeral has no dot.
pub decimal-contains_char : (n : ℕ) → contains_char 46 (decimal n) ≡ false
unfolding decimal contains_char
decimal-contains_char n = digits_from-contains_char n n "" refl
