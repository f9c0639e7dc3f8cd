-- ===== src/Base/Decimal/Printed.antt =====
-- strconv.ParseInt on what the verb %d prints, the range of its numbers, and the ends of texts.
use Prim.Native.Nat.{ℕ, zero, suc, ◌+◌, ◌-◌, ◌*◌, ◌/◌, ◌%◌, ◌≤◌, ◌<◌}
use Prim.Native.Char.{code}
use Prim.Native.String.{String, len, ◌++◌ as str_append}
use mathlib.Core.Path.{◌≡◌, refl, ap, ◌∙◌}
use mathlib.Core.Bool.{Bool, true, false}
use mathlib.Core.Option.{Option, none, some}
use native.Mathlib.Omega.{arith}
use text.Mathlib.Text.{◌==◌}
use text.Mathlib.TextPositions.{len-append, slice-append_left, slice-append_right, eq_refl}
use firework.Base.Tests.{if◌then◌else◌, ltb, leb, eqb, if_ind}
use firework.Base.Int64.{half_word, word}
use firework.Base.Decimal.{
  is_digit, parse_digits, in_range, parse_natural, parse_int, digit_char, digit_char-code,
  digits_from, decimal, has_suffix, trim_suffix,
}

parse_digit :
    (n d : ℕ) (s : String)
    → d < 10
    → parse_digits n (String.◌∷◌ (digit_char d) s) ≡ parse_digits (n * 10 + d) s
unfolding parse_digits
parse_digit n d s h =
    let c : code (digit_char d) ≡ 48 + d = digit_char-code d h in
    if_ind (λ o. o ≡ parse_digits (n * 10 + d) s) (is_digit (code (digit_char d)))
      (λ _. rw c (ap (λ k. parse_digits (n * 10 + k) s) (omega arith)))
      (λ e. absurd (ground (arith, c, e)))

parse_digits-digits_from :
    (fuel n : ℕ) (s : String) → n ≤ fuel → parse_digits 0 (digits_from fuel n s) ≡ parse_digits n s
unfolding digits_from
parse_digits-digits_from zero n s h =
    parse_digit 0 (n % 10) s (omega arith) ∙ ap (λ k. parse_digits k s) (omega arith)
parse_digits-digits_from (suc fuel) n s h =
    if_ind (λ t. parse_digits 0 t ≡ parse_digits n s) (ltb n 10)
      (λ e. parse_digit 0 (n % 10) s (omega arith) ∙ ap (λ k. parse_digits k s) (ground (arith, e)))
      (λ e.
        parse_digits-digits_from fuel (n / 10) (String.◌∷◌ (digit_char (n % 10)) s)
          (ground (arith, e))
        ∙ parse_digit (n / 10) (n % 10) s (omega arith)
        ∙ ap (λ k. parse_digits k s) (omega arith))

pub parse_digits-decimal : (n : ℕ) → parse_digits 0 (decimal n) ≡ some n
unfolding decimal parse_digits
parse_digits-decimal n = parse_digits-digits_from n n "" (omega arith)

-- A text that begins with a digit is read as one without a sign.
abbrev pub is_numeral : String → Bool
is_numeral String.[] = false
is_numeral (String.◌∷◌ c s) = is_digit (code c)

parse_int-unsigned :
    (s : String) → is_numeral s ≡ true → parse_int s ≡ in_range false (parse_digits 0 s)
unfolding parse_int parse_natural
parse_int-unsigned String.[] h = absurd (ground (arith, h))
parse_int-unsigned (String.◌∷◌ c s) h = ground (arith, h)

digits_from-is_numeral : (fuel n : ℕ) (s : String) → is_numeral (digits_from fuel n s) ≡ true
unfolding digits_from
digits_from-is_numeral zero n s = rw (digit_char-code (n % 10) (omega arith)) (ground arith)
digits_from-is_numeral (suc fuel) n s =
    if_ind (λ t. is_numeral t ≡ true) (ltb n 10)
      (λ _. rw (digit_char-code (n % 10) (omega arith)) (ground arith))
      (λ _. digits_from-is_numeral fuel (n / 10) (String.◌∷◌ (digit_char (n % 10)) s))

pub parse_int-printed : (n : ℕ) → parse_int (decimal n) ≡ (if ltb n half_word then some n else none)
unfolding decimal
parse_int-printed n =
    parse_int-unsigned (decimal n) (digits_from-is_numeral n n "")
    ∙ rw (parse_digits-decimal n) refl

pub parse_int-decimal : (n : ℕ) → n < half_word → parse_int (decimal n) ≡ some n
parse_int-decimal n h = parse_int-printed n ∙ ground (arith, h)

-- Where there is a number, 64 bits hold it.
abbrev pub IsWord : Option ℕ → Type 0
IsWord none = Unit
IsWord (some n) = n < word

in_range-IsWord : (b : Bool) (o : Option ℕ) → IsWord (in_range b o)
in_range-IsWord b none = tt
in_range-IsWord true (some m) = if_ind IsWord (leb m half_word) (λ _. omega arith) (λ _. tt)
in_range-IsWord false (some m) = if_ind IsWord (ltb m half_word) (λ e. ground (arith, e)) (λ _. tt)

pub parse_int-IsWord : (s : String) → IsWord (parse_int s)
unfolding parse_int
parse_int-IsWord String.[] = tt
parse_int-IsWord (String.◌∷◌ c s) =
    if_ind IsWord (eqb (code c) 43) (λ _. in_range-IsWord false (parse_natural s))
      (λ _.
        if_ind IsWord (eqb (code c) 45) (λ _. in_range-IsWord true (parse_natural s))
          (λ _. in_range-IsWord false (parse_natural (String.◌∷◌ c s))))

-- The end of a text is the text that was put there.
pub has_suffix-append : (s t u : String) → len t ≡ len u → has_suffix (str_append s t) u ≡ (t == u)
unfolding has_suffix
has_suffix-append s t u h =
    let start : len (str_append s t) - len u ≡ len s = rw (len-append s t) (omega arith) in
    rw (start, len-append s t, slice-append_right s t) (ground (arith, h))

pub trim_suffix-append : (s t : String) → trim_suffix (str_append s t) t ≡ s
unfolding trim_suffix
trim_suffix-append s t =
    let start : len (str_append s t) - len t ≡ len s = rw (len-append s t) (omega arith) in
    rw (has_suffix-append s t t refl, eq_refl t, start) (slice-append_left s t)
