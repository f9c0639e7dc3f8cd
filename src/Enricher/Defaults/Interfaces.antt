-- ===== src/Enricher/Defaults/Interfaces.antt =====
-- tapIfname of internal/enricher/defaults.go: names of interfaces are short enough for Linux.
use Prim.Native.Nat.{Ordering, compare}
use Prim.Native.Char.{Char, code, len_utf8, len_utf8_def}
use Prim.Native.String.{len, slice, fits}
use Prim.Native.String.len
use Prim.Native.String.slice
use text.Mathlib.TextPositions.{len-append, starts_with-append}
use text.Mathlib.Text.{starts_with}
use firework.Base.{
  ℕ, zero, suc, ◌+◌, ◌-◌, ◌/◌, ◌%◌, ◌^◌, ◌≤◌, ◌<◌, String, str_append, Bool, true, ◌≡◌, refl, ◌∙◌,
  if◌then◌else◌, Option, List, eqb, leb, ltb, arith, if_ind,
}
use firework.Base.Decimal.{digit_char-code}
use firework.Config.{VolumeConfig}
use firework.Enricher.Defaults.{tap_ifname, hex_digits, hex_char}

not_past : (c : Char) (n : ℕ) → leb (len_utf8 c) n ≡ true → len_utf8 c ≤ n
not_past c n h = ground (arith, h)

len-fits :
    (c : Char) (t : String) (n : ℕ) (o : Ordering)
    → compare (len_utf8 c) n ≡ o
    → len t ≤ n - len_utf8 c
    → len (fits o c t) ≤ n
len-fits c t n Ordering.lt e h = omega (arith, len.cons c t, h, not_past c n (rw (e, leb) refl))
len-fits c t n Ordering.eq e h = omega (arith, len.cons c t, h, not_past c n (rw (e, leb) refl))
len-fits c t n Ordering.gt e h = rw len.nil (omega arith)

-- A cut text is as long as the cut allows.
len-slice : (s : String) (n : ℕ) → len (slice s 0 n) ≤ n
len-slice String.[] n = rw (slice.nil 0 n, len.nil) (omega arith)
len-slice (String.◌∷◌ c s) n = rw (slice.cons-zero c s n) (
    len-fits c (slice s 0 (n - len_utf8 c)) n (compare (len_utf8 c) n) refl
      (len-slice s (n - len_utf8 c)))

len_utf8-ascii : (c : Char) → code c < 128 → len_utf8 c ≡ 1
len_utf8-ascii c h = len_utf8_def c ∙ ground (arith, h)

ascii_if : (b : Bool) (c d : Char) → code c < 128 → code d < 128 → code (if b then c else d) < 128
ascii_if b c d h k = if_ind (λ c. code c < 128) b (λ _. h) (λ _. k)

letter :
    (d : ℕ)
    → code (
        if eqb d 10
        then "a"
        else if eqb d 11
        then "b"
        else if eqb d 12
        then "c"
        else if eqb d 13
        then "d"
        else if eqb d 14
        then "e"
        else "f")
      < 128
letter d = ascii_if (eqb d 10) _ _ (omega arith) (
    ascii_if (eqb d 11) _ _ (omega arith) (
      ascii_if (eqb d 12) _ _ (omega arith) (
        ascii_if (eqb d 13) _ _ (omega arith)
          (ascii_if (eqb d 14) _ _ (omega arith) (omega arith)))))

len-hex_char : (d : ℕ) → len_utf8 (hex_char d) ≡ 1
len-hex_char d = len_utf8-ascii (hex_char d) (
    if_ind (λ c. code c < 128) (ltb d 10)
      (λ e. rw (digit_char-code d (ground (arith, e))) (ground (arith, e))) (λ _. letter d))

len-hex_digits : (k n : ℕ) (s : String) → len (hex_digits k n s) ≡ k + len s
unfolding hex_digits
len-hex_digits zero n s = omega arith
len-hex_digits (suc k) n s =
    len-hex_digits k (n / 16) (String.◌∷◌ (hex_char (n % 16)) s)
    ∙ omega (arith, len.cons (hex_char (n % 16)) s, len-hex_char (n % 16))

module _ (sum32 : String → ℕ) (parse_duration : String → Option ℕ)
    (sort_slice : List VolumeConfig → List VolumeConfig) where
  short_name : (name : String) → leb (len name) 11 ≡ true → len name ≤ 11
  short_name name e = ground (arith, e)

  -- The name of an interface has at most 15 bytes, as Linux asks for, and begins with "tap-".
  pub tap_ifname-fits :
      (name : String)
      → (len (tap_ifname sum32 parse_duration sort_slice name) ≤ 15)
        × (starts_with (tap_ifname sum32 parse_duration sort_slice name) "tap-" ≡ true)
  unfolding tap_ifname
  tap_ifname-fits name =
      if_ind (λ t. (len t ≤ 15) × (starts_with t "tap-" ≡ true)) (leb (len name) 11)
        (λ e. (
          omega (arith, short_name name e, len-append "tap-" name),
          starts_with-append "tap-" name,
        ))
        (λ _.
          let hash : String = hex_digits 5 (sum32 name % 2 ^ 20) "" in
          let cut : String = str_append (slice name 0 6) hash in
          (
            omega (
              arith,
              len-append "tap-" cut,
              len-append (slice name 0 6) hash,
              len-slice name 6,
              len-hex_digits 5 (sum32 name % 2 ^ 20) "",
            ),
            starts_with-append "tap-" cut,
          ))
