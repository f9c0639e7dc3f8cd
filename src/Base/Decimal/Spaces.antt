-- ===== src/Base/Decimal/Spaces.antt =====
-- strings.TrimSpace on texts without white space, numerals among them.
use Prim.Native.Nat.{ℕ, zero, suc, ◌/◌, ◌%◌}
use Prim.Native.Char.{code}
use Prim.Native.String.{String, ◌++◌ as str_append}
use mathlib.Core.Path.{◌≡◌, refl}
use mathlib.Core.Bool.{true, false}
use native.Mathlib.Omega.{arith}
use firework.Base.Tests.{ltb, if_ind}
use firework.Base.Text.{is_space, trim_left, trim_right, trim_space}
use text.Mathlib.TextLemmas.{nil-append, cons-append}
use firework.Base.Decimal.{digit_char, digit_char-code, digits_from, decimal, has_no_space}

trim_left-has_no_space : (s : String) → has_no_space s ≡ true → trim_left s ≡ s
unfolding trim_left has_no_space
trim_left-has_no_space String.[] h = refl
trim_left-has_no_space (String.◌∷◌ c s) h =
    let space : is_space (code c) ≡ false = ground (arith, h) in rw space refl

trim_right-has_no_space : (s : String) → has_no_space s ≡ true → trim_right s ≡ s
unfolding trim_right has_no_space
trim_right-has_no_space String.[] h = refl
trim_right-has_no_space (String.◌∷◌ c s) h =
    let space : is_space (code c) ≡ false = ground (arith, h) in
    rw (space, trim_right-has_no_space s (ground (arith, h))) (ground arith)

pub trim_space-has_no_space : (s : String) → has_no_space s ≡ true → trim_space s ≡ s
unfolding trim_space
trim_space-has_no_space s h = rw (trim_left-has_no_space s h) (trim_right-has_no_space s h)

digit-has_no_space :
    (n : ℕ) (s : String)
    → has_no_space s ≡ true
    → has_no_space (String.◌∷◌ (digit_char (n % 10)) s) ≡ true
unfolding has_no_space is_space
digit-has_no_space n s h = rw (digit_char-code (n % 10) (omega arith), h) (ground arith)

digits_from-has_no_space :
    (fuel n : ℕ) (s : String) → has_no_space s ≡ true → has_no_space (digits_from fuel n s) ≡ true
unfolding digits_from has_no_space
digits_from-has_no_space zero n s h = digit-has_no_space n s h
digits_from-has_no_space (suc fuel) n s h =
    if_ind (λ t. has_no_space t ≡ true) (ltb n 10) (λ _. digit-has_no_space n s h)
      (λ _.
        digits_from-has_no_space fuel (n / 10) (String.◌∷◌ (digit_char (n % 10)) s)
          (digit-has_no_space n s h))

pub decimal-has_no_space : (n : ℕ) → has_no_space (decimal n) ≡ true
unfolding decimal has_no_space
decimal-has_no_space n = digits_from-has_no_space n n "" refl

pub append-has_no_space :
    (s t : String)
    → has_no_space s ≡ true
    → has_no_space t ≡ true
    → has_no_space (str_append s t) ≡ true
unfolding has_no_space
append-has_no_space String.[] t h k = rw (nil-append t) k
append-has_no_space (String.◌∷◌ c s) t h k =
    rw (cons-append c s t, append-has_no_space s t (ground (arith, h)) k) (ground (arith, h))
