-- ===== src/Agent/Addresses.antt =====
-- assignNetworking of internal/agent/agent.go: the guests' addresses lie in the subnet and differ.
use firework.Base.{
  ℕ, ◌+◌, ◌-◌, ◌*◌, ◌/◌, ◌%◌, ◌^◌, ◌≤◌, ◌<◌, String, false, ◌≡◌, refl, ap, sym, ◌∙◌, not, Option,
  none, some, List, [], ◌∷◌, eqb, ltb, leb, or_else, arith, if_ind,
}
use firework.Base.Text.{split_on}
use firework.Base.Decimal.{decimal, parse_digits}
use firework.Base.Decimal.Printed.{parse_digits-decimal}
use firework.Base.Splits.{split-append, split-contains_char, decimal-contains_char}
use firework.Agent.{guest_address, dotted}

-- The number in a dotted text.
abbrev read_part : String → ℕ
read_part s = or_else (parse_digits 0 s) 0

abbrev pub read_parts : List String → ℕ
read_parts (a ∷ b ∷ c ∷ d ∷ []) =
    read_part a * 2 ^ 24 + read_part b * 2 ^ 16 + read_part c * 2 ^ 8 + read_part d
read_parts _ = 0

read_part-decimal : (n : ℕ) → read_part (decimal n) ≡ n
read_part-decimal n = rw (parse_digits-decimal n) refl

split-dotted :
    (a : ℕ)
    → split_on 46 (dotted a)
      ≡ decimal (a / 2 ^ 24 % 256)
        ∷ decimal (a / 2 ^ 16 % 256)
        ∷ decimal (a / 2 ^ 8 % 256)
        ∷ decimal (a % 256)
        ∷ []
unfolding dotted
split-dotted a =
    rw
      (
        split-append (decimal (a / 2 ^ 24 % 256)) _ (decimal-contains_char (a / 2 ^ 24 % 256)),
        split-append (decimal (a / 2 ^ 16 % 256)) _ (decimal-contains_char (a / 2 ^ 16 % 256)),
        split-append (decimal (a / 2 ^ 8 % 256)) _ (decimal-contains_char (a / 2 ^ 8 % 256)),
        split-contains_char (decimal (a % 256)) (decimal-contains_char (a % 256)),
      )
      refl

-- What is printed is read back, so two addresses that are printed alike are one.
pub read_parts-dotted : (a : ℕ) → a < 2 ^ 32 → read_parts (split_on 46 (dotted a)) ≡ a
read_parts-dotted a h =
    rw
      (
        split-dotted a,
        read_part-decimal (a / 2 ^ 24 % 256),
        read_part-decimal (a / 2 ^ 16 % 256),
        read_part-decimal (a / 2 ^ 8 % 256),
        read_part-decimal (a % 256),
      )
      (omega (arith, h))

pub dotted_injective : (a b : ℕ) → a < 2 ^ 32 → b < 2 ^ 32 → dotted a ≡ dotted b → a ≡ b
dotted_injective a b h k e =
    sym (read_parts-dotted a h) ∙ ap (λ s. read_parts (split_on 46 s)) e ∙ read_parts-dotted b k

-- An address that is found is that of the index, after the network's and the gateway's, and before the
-- last of the subnet; and the subnet contains it.
abbrev pub IsGuest : ℕ → ℕ → ℕ → Option ℕ → Type 0
IsGuest base ones idx none = Unit
IsGuest base ones idx (some a) =
    (a ≡ base + idx + 2)
    × (idx + 3 < 2 ^ (32 - ones))
    × (a / 2 ^ (32 - ones) ≡ base / 2 ^ (32 - ones))

in_range : (count idx : ℕ) → leb (count - 1) (idx + 2) ≡ false → idx + 3 < count
in_range count idx e = ground (arith, e)

unwrapped :
    (base count idx : ℕ)
    → base + count ≤ 2 ^ 32
    → idx + 3 < count
    → (base + (idx + 2) % 2 ^ 32) % 2 ^ 32 ≡ base + idx + 2
unwrapped base count idx h k = omega (arith, h, k)

contained : (x y : ℕ) → not (eqb x y) ≡ false → x ≡ y
contained x y e = ground (arith, e)

pub guest_address-IsGuest :
    (base ones idx : ℕ)
    → base + 2 ^ (32 - ones) ≤ 2 ^ 32
    → IsGuest base ones idx (guest_address base ones idx)
unfolding guest_address
guest_address-IsGuest base ones idx h =
    if_ind (IsGuest base ones idx) (ltb 30 ones) (λ _. tt)
      (λ _.
        if_ind (IsGuest base ones idx) (leb (2 ^ (32 - ones) - 1) (idx + 2)) (λ _. tt)
          (λ e.
            if_ind (IsGuest base ones idx)
              (not (
                eqb ((base + (idx + 2) % 2 ^ 32) % 2 ^ 32 / 2 ^ (32 - ones))
                  (base / 2 ^ (32 - ones))))
              (λ _. tt)
              (λ k.
                let inside = in_range (2 ^ (32 - ones)) idx e in
                (unwrapped base (2 ^ (32 - ones)) idx h inside, inside, contained _ _ k))))
