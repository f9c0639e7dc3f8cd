-- ===== src/Config/Size.antt =====
-- internal/config/size.go: the sizes of volumes and of storage pools.
use Prim.Native.String.{len}
use firework.Base.{
  ℕ, suc, ◌+◌, ◌-◌, ◌*◌, ◌/◌, ◌%◌, ◌^◌, ◌≤◌, ◌<◌, String, str_append, Bool, true, false, ◌≡◌, refl,
  ap, ◌∙◌, not, ◌&&◌, ◌||◌, ◌⊎◌, inl, inr, if◌then◌else◌, Option, none, some, arith, ltb, ◌==◌,
}
use firework.Base.Int64.{word, half_word, max_int64, gt64, lt64}
use firework.Base.Text.{trim_space}
use firework.Base.Decimal.{parse_int, has_suffix, trim_suffix}
pub mod Units
pub mod Bounds
pub mod Samples

abbrev pub mib : ℕ
mib = 1024 * 1024

abbrev pub gib : ℕ
gib = 1024 * mib

abbrev pub tib : ℕ
tib = 1024 * gib

-- The two errors: the text is not a size, and its bytes do not fit in an int64.
pub data SizeError : Type 0 where
  not_a_size size_overflows : SizeError

unfoldable pub scale : ℕ → Option ℕ → SizeError ⊎ ℕ
scale multiplier none = inl not_a_size
scale multiplier (some n) =
    if not (gt64 n 0)
    then inl not_a_size
    else if gt64 n (max_int64 / multiplier)
    then inl size_overflows
    else inr (n * multiplier % word)

-- The switch on the end of a trimmed text.
unfoldable pub parse_trimmed : String → Bool → SizeError ⊎ ℕ
unfolding scale
parse_trimmed value allow_ti =
    if has_suffix value "Mi"
    then scale mib (parse_int (trim_suffix value "Mi"))
    else if has_suffix value "Gi"
    then scale gib (parse_int (trim_suffix value "Gi"))
    else if allow_ti && has_suffix value "Ti"
    then scale tib (parse_int (trim_suffix value "Ti"))
    else inl not_a_size

unfoldable pub parse_size : String → Bool → SizeError ⊎ ℕ
unfolding parse_trimmed
parse_size value allow_ti = parse_trimmed (trim_space value) allow_ti

unfoldable pub parse_volume_size : String → SizeError ⊎ ℕ
unfolding parse_size
parse_volume_size value = parse_size value false

unfoldable pub parse_storage_capacity : String → SizeError ⊎ ℕ
unfolding parse_size
parse_storage_capacity value = parse_size value true
