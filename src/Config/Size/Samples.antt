-- ===== src/Config/Size/Samples.antt =====
-- internal/config/size.go on sizes as an operator writes them.
use firework.Base.{◌*◌, true, false, ◌≡◌, refl, inl, inr, arith}
use firework.Base.Int64.{lt64}
use firework.Base.Text.{trim_space}
use firework.Base.Decimal.{decimal, parse_int, has_suffix, trim_suffix}
use firework.Config.Size.{parse_size, mib, gib, tib, not_a_size, size_overflows}
use firework.Config.Size.Units.{gibi, tebi}
use firework.Config.Size.Bounds.{Fits, parse_size-Fits, parse_size-decimal, parse_size-refuses}

spaced : parse_size " 10Gi\n" false ≡ inr (10 * gib)
unfolding parse_size has_suffix trim_space parse_int trim_suffix lt64
spaced = refl

no_tebi : parse_size "1Ti" false ≡ inl not_a_size
unfolding parse_size has_suffix trim_space parse_int trim_suffix lt64
no_tebi = refl

signed : parse_size "+3Mi" false ≡ inr (3 * mib)
unfolding parse_size has_suffix trim_space parse_int trim_suffix lt64
signed = refl

negative : parse_size "-3Mi" false ≡ inl not_a_size
unfolding parse_size has_suffix trim_space parse_int trim_suffix lt64
negative = refl

empty_number : parse_size "Mi" false ≡ inl not_a_size
unfolding parse_size has_suffix trim_space parse_int trim_suffix lt64
empty_number = refl

parse_size-Fits_example : Fits " 10Gi" false (parse_size " 10Gi" false)
parse_size-Fits_example = parse_size-Fits " 10Gi" false

parse_size-decimal_example : parse_size "12Ti" true ≡ inr (12 * tib)
unfolding decimal
parse_size-decimal_example = parse_size-decimal 12 tebi true refl (omega arith) (omega arith)

parse_size-refuses_example : parse_size "9000000000Gi" false ≡ inl size_overflows
unfolding decimal
parse_size-refuses_example = parse_size-refuses 9000000000 gibi false refl (omega arith)
