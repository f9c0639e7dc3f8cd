-- ===== src/Base/Text.antt =====
-- The functions of Go's `strings` that the program uses, over native strings.
use Prim.Native.Nat.{ℕ}
use Prim.Native.Char.{Char, code}
use Prim.Native.String.{String, len, slice, find}
use mathlib.Core.Path.{◌≡◌, refl}
use mathlib.Core.Bool.{Bool, true, false, ◌&&◌, ◌||◌}
use mathlib.Core.List.{List, [], ◌∷◌}
use text.Mathlib.Text.{◌==◌, starts_with}
use firework.Base.Tests.{leb, eqb, if◌then◌else◌}

-- unicode.IsSpace
unfoldable pub is_space : ℕ → Bool
is_space c =
    (leb 9 c && leb c 13)
    || eqb c 32
    || eqb c 0x85
    || eqb c 0xA0
    || eqb c 0x1680
    || (leb 0x2000 c && leb c 0x200A)
    || eqb c 0x2028
    || eqb c 0x2029
    || eqb c 0x202F
    || eqb c 0x205F
    || eqb c 0x3000

-- A text without the white space at its start, and at its end.
unfoldable pub trim_left : String → String
unfolding is_space
trim_left String.[] = String.[]
trim_left (String.◌∷◌ c s) =
    let rest = trim_left s in if is_space (code c) then rest else String.◌∷◌ c s

unfoldable pub trim_right : String → String
unfolding is_space
trim_right String.[] = String.[]
trim_right (String.◌∷◌ c s) =
    let rest = trim_right s in
    if rest == "" && is_space (code c) then String.[] else String.◌∷◌ c rest

-- strings.TrimSpace
unfoldable pub trim_space : String → String
unfolding trim_left trim_right
trim_space s = trim_right (trim_left s)

-- strings.Contains
abbrev pub contains : String → String → Bool
contains s t = leb (find s t) (len s)

-- strings.TrimPrefix
abbrev pub trim_prefix : String → String → String
trim_prefix s prefix = if starts_with s prefix then slice s (len prefix) (len s) else s

-- strings.Split at a separator of one byte.
abbrev pub prepend : Char → List String → List String
prepend c [] = String.◌∷◌ c String.[] ∷ []
prepend c (s ∷ ss) = String.◌∷◌ c s ∷ ss

unfoldable pub split_on : ℕ → String → List String
split_on sep String.[] = String.[] ∷ []
split_on sep (String.◌∷◌ c s) =
    let rest = split_on sep s in if eqb (code c) sep then String.[] ∷ rest else prepend c rest

-- strings.ContainsAny, and the characters of a text one by one.
unfoldable pub contains_char : ℕ → String → Bool
contains_char c String.[] = false
contains_char c (String.◌∷◌ d s) = eqb (code d) c || contains_char c s

unfoldable pub contains_any : String → String → Bool
unfolding contains_char
contains_any s String.[] = false
contains_any s (String.◌∷◌ c cs) = contains_char (code c) s || contains_any s cs

trimmed : trim_space " a b\n" ≡ "a b"
unfolding trim_space
trimmed = refl

blank : trim_space " \t " ≡ ""
unfolding trim_space
blank = refl

contained : contains "a/b" "/" ≡ true
contained = refl

not_contained : contains "ab" "/" ≡ false
not_contained = refl

trimmed_prefix : trim_prefix "spiffe://x" "spiffe://" ≡ "x"
trimmed_prefix = refl

split_name : split_on 46 "a.bc." ≡ "a" ∷ "bc" ∷ "" ∷ []
unfolding split_on
split_name = refl
