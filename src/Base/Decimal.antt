-- ===== src/Base/Decimal.antt =====
-- Decimal numerals: strconv.ParseInt in base 10, which refuses what is not a
-- numeral or does not fit in 64 bits, the verb %d on natural numbers, and Go's tests and cuts of
-- the end of a text.
use Prim.Native.Nat.{ℕ, zero, suc, ◌+◌, ◌-◌, ◌*◌, ◌/◌, ◌%◌, ◌≤◌, ◌<◌}
use Prim.Native.Char.{Char, code}
use Prim.Native.String.{String, len, slice, ◌++◌ as str_append}
use mathlib.Core.Path.{◌≡◌, refl, sym, ap, ◌∙◌}
use mathlib.Core.Bool.{Bool, true, false, not, ◌&&◌}
use mathlib.Core.Option.{Option, none, some}
use native.Mathlib.Omega.{arith}
use text.Mathlib.Text.{◌==◌}
use text.Mathlib.TextPositions.{len-append, slice-append_left, slice-append_right, eq_refl}
use firework.Base.Tests.{ltb, leb, eqb, if◌then◌else◌, if_ind, Bool-cases}
use firework.Base.Text.{is_space, trim_left, trim_right, trim_space}
use firework.Base.Int64.{half_word, word}
pub mod Printed
pub mod Spaces

abbrev pub is_digit : ℕ → Bool
is_digit c = leb 48 c && leb c 57

-- The number that the digits of a text continue `n` to.
unfoldable pub parse_digits : ℕ → String → Option ℕ
parse_digits n String.[] = some n
parse_digits n (String.◌∷◌ c s) =
    let rest = parse_digits (n * 10 + (code c - 48)) s in if is_digit (code c) then rest else none

-- The pattern of n, or of -n, where 64 bits hold it.
abbrev pub in_range : Bool → Option ℕ → Option ℕ
in_range negative none = none
in_range true (some n) = if leb n half_word then some ((word - n) % word) else none
in_range false (some n) = if ltb n half_word then some n else none

unfoldable pub parse_natural : String → Option ℕ
unfolding parse_digits
parse_natural String.[] = none
parse_natural (String.◌∷◌ c s) = parse_digits 0 (String.◌∷◌ c s)

-- strconv.ParseInt(s, 10, 64)
unfoldable pub parse_int : String → Option ℕ
unfolding parse_natural
parse_int String.[] = none
parse_int (String.◌∷◌ c s) =
    if eqb (code c) 43
    then in_range false (parse_natural s)
    else if eqb (code c) 45
    then in_range true (parse_natural s)
    else in_range false (parse_natural (String.◌∷◌ c s))

abbrev pub digit_char : ℕ → Char
digit_char zero = "0"
digit_char (suc zero) = "1"
digit_char (suc (suc zero)) = "2"
digit_char (suc (suc (suc zero))) = "3"
digit_char (suc (suc (suc (suc zero)))) = "4"
digit_char (suc (suc (suc (suc (suc zero))))) = "5"
digit_char (suc (suc (suc (suc (suc (suc zero)))))) = "6"
digit_char (suc (suc (suc (suc (suc (suc (suc zero))))))) = "7"
digit_char (suc (suc (suc (suc (suc (suc (suc (suc zero)))))))) = "8"
digit_char _ = "9"

pub digit_char-code : (d : ℕ) → d < 10 → code (digit_char d) ≡ 48 + d
digit_char-code zero h = refl
digit_char-code (suc zero) h = refl
digit_char-code (suc (suc zero)) h = refl
digit_char-code (suc (suc (suc zero))) h = refl
digit_char-code (suc (suc (suc (suc zero)))) h = refl
digit_char-code (suc (suc (suc (suc (suc zero))))) h = refl
digit_char-code (suc (suc (suc (suc (suc (suc zero)))))) h = refl
digit_char-code (suc (suc (suc (suc (suc (suc (suc zero))))))) h = refl
digit_char-code (suc (suc (suc (suc (suc (suc (suc (suc zero)))))))) h = refl
digit_char-code (suc (suc (suc (suc (suc (suc (suc (suc (suc zero))))))))) h = refl
digit_char-code (suc (suc (suc (suc (suc (suc (suc (suc (suc (suc d)))))))))) h = omega (arith, h)

-- The numeral of n in front of a text; `fuel` bounds the digits but one.
unfoldable pub digits_from : ℕ → ℕ → String → String
digits_from zero n s = String.◌∷◌ (digit_char (n % 10)) s
digits_from (suc fuel) n s =
    let rest = digits_from fuel (n / 10) (String.◌∷◌ (digit_char (n % 10)) s) in
    if ltb n 10 then String.◌∷◌ (digit_char (n % 10)) s else rest

-- The verb %d. A number has fewer digits than it counts, so the fuel is enough.
unfoldable pub decimal : ℕ → String
unfolding digits_from
decimal n = digits_from n n ""

-- strings.HasSuffix and strings.TrimSuffix
unfoldable pub has_suffix : String → String → Bool
has_suffix s suffix = leb (len suffix) (len s) && slice s (len s - len suffix) (len s) == suffix

unfoldable pub trim_suffix : String → String → String
unfolding has_suffix
trim_suffix s suffix = if has_suffix s suffix then slice s 0 (len s - len suffix) else s

-- A text without white space.
unfoldable pub has_no_space : String → Bool
has_no_space String.[] = true
has_no_space (String.◌∷◌ c s) = not (is_space (code c)) && has_no_space s
