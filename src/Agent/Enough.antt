-- ===== src/Agent/Enough.antt =====
-- assignNetworking of internal/agent/agent.go on a subnet that has room for all guests.
use firework.Base.{
  ℕ, zero, suc, ◌+◌, ◌-◌, ◌^◌, ◌/◌, ◌%◌, ◌*◌, ◌≤◌, ◌<◌, String, ◌≡◌, refl, ap, ◌∙◌, Option, none,
  some, List, [], ◌∷◌, arith, ltb, leb, eqb, not, if◌then◌else◌, false,
}
use native.Mathlib.Nat.{div-add-mod, div-eq_of_lt, add-mul-div_left}
use firework.Config.{NetworkConfig, ServiceConfig}
use firework.Agent.{guest_address, dotted, networked, assign_one, assigned_or, assign_networking}

-- How many services have networking, and which addresses they have, in their order.
abbrev pub networks_first : Option NetworkConfig → ℕ → ℕ
networks_first none n = n
networks_first (some network) n = suc n

abbrev pub networked_count : List ServiceConfig → ℕ
networked_count [] = 0
networked_count (s ∷ ss) = networks_first s.network (networked_count ss)

abbrev pub with_ip : Option NetworkConfig → List String → List String
with_ip none ips = ips
with_ip (some network) ips = network.guest_ip ∷ ips

abbrev pub guest_ips : List ServiceConfig → List String
guest_ips [] = []
guest_ips (s ∷ ss) = with_ip s.network (guest_ips ss)

-- The addresses of so many places from an index on.
abbrev pub addresses_from : ℕ → ℕ → ℕ → List String
addresses_from base idx zero = []
addresses_from base idx (suc n) = dotted (base + idx + 2) ∷ addresses_from base (suc idx) n

same_block :
    (base count idx : ℕ)
    → base % count ≡ 0
    → idx + 3 < count
    → (base + idx + 2) / count ≡ base / count
same_block base count idx b k =
    let whole = div-add-mod base count in
    let split : (base + idx + 2 ≡ (idx + 2) + count * (base / count)) = omega (arith, whole, b) in
    let small = div-eq_of_lt {n = idx + 2} {m = count} (omega (arith, k)) in
    ap (λ n. n / count) split
    ∙ add-mul-div_left (idx + 2) (base / count) (omega (arith, k))
    ∙ ap (λ n. n + base / count) small
    ∙ omega arith

unwrapped :
    (base count idx : ℕ)
    → base + count ≤ 2 ^ 32
    → idx + 3 < count
    → (base + (idx + 2) % 2 ^ 32) % 2 ^ 32 ≡ base + idx + 2
unwrapped base count idx h k = omega (arith, h, k)

-- The tests of guestIPv4ForIndex, one after the other.
narrow : (ones : ℕ) → ones ≤ 30 → ltb 30 ones ≡ false
narrow ones o = ground (arith, o)

has_room : (count idx : ℕ) → idx + 3 < count → leb (count - 1) (idx + 2) ≡ false
has_room count idx k = ground (arith, k)

within : (x y : ℕ) → x ≡ y → not (eqb x y) ≡ false
within x y e = ground (arith, e)

tests_pass :
    (base ones count idx c : ℕ)
    → ones ≤ 30
    → idx + 3 < count
    → c ≡ base + idx + 2
    → (base + idx + 2) / count ≡ base / count
    → (if ltb 30 ones
        then none
        else if leb (count - 1) (idx + 2)
        then none
        else if not (eqb (c / count) (base / count))
        then none
        else some c)
      ≡ some (base + idx + 2)
tests_pass base ones count idx c o k e d =
    rw (e, narrow ones o, has_room count idx k, within _ _ d) refl

module _ (base ones : ℕ) (o : ones ≤ 30) (h : base + 2 ^ (32 - ones) ≤ 2 ^ 32)
    (aligned : base % 2 ^ (32 - ones) ≡ 0) where
  guest_address-found :
      (idx : ℕ) → idx + 3 < 2 ^ (32 - ones) → guest_address base ones idx ≡ some (base + idx + 2)
  unfolding guest_address
  guest_address-found idx k =
      tests_pass base ones (2 ^ (32 - ones)) idx _ o k (unwrapped base (2 ^ (32 - ones)) idx h k)
        (same_block base (2 ^ (32 - ones)) idx aligned k)

  module _ (gateway netmask : String) where
    guest_ips-networked :
        (s : ServiceConfig) (n : NetworkConfig) (idx a : ℕ) (ss : List ServiceConfig)
        → guest_ips (networked base ones gateway netmask s n idx a ∷ ss) ≡ dotted a ∷ guest_ips ss
    unfolding networked
    guest_ips-networked s n idx a ss = refl

    turn-addresses :
        (idx : ℕ) (s : ServiceConfig) (ss : List ServiceConfig) (n : Option NetworkConfig)
        (found : Option ℕ) (next : ℕ → List ServiceConfig)
        → s.network ≡ n
        → (idx + 3 < 2 ^ (32 - ones) → found ≡ some (base + idx + 2))
        → idx + networks_first n (networked_count ss) + 2 < 2 ^ (32 - ones)
        → ((k : ℕ)
            → k + networked_count ss + 2 < 2 ^ (32 - ones)
            → guest_ips (next k) ≡ addresses_from base k (networked_count ss))
        → guest_ips (
            assigned_or base ones gateway netmask
              (s ∷ ss)
              (assign_one base ones gateway netmask s n idx found)
              next)
          ≡ addresses_from base idx (networks_first n (networked_count ss))
    unfolding assign_one
    turn-addresses idx s ss none found next e f r k = rw e (k idx r)
    turn-addresses idx s ss (some n) found next e f r k = rw (f (omega (arith, r))) (
        guest_ips-networked s n idx (base + idx + 2) (next (suc idx))
        ∙ ap (λ ips. dotted (base + idx + 2) ∷ ips) (k (suc idx) (omega (arith, r))))

    -- Where the subnet's prefix has at most 30 bits, its address is aligned and its block lies below
    -- 2 ^ 32, and there is room after the index, the networked services get the addresses base + j + 2
    -- of the places j from the index on, in their order.
    pub assign_networking-addresses :
        (idx : ℕ) (ss : List ServiceConfig)
        → idx + networked_count ss + 2 < 2 ^ (32 - ones)
        → guest_ips (assign_networking base ones gateway netmask idx ss)
          ≡ addresses_from base idx (networked_count ss)
    unfolding assign_networking
    assign_networking-addresses idx [] r = refl
    assign_networking-addresses idx (s ∷ ss) r =
        turn-addresses idx s ss s.network (guest_address base ones idx)
          (λ k. assign_networking base ones gateway netmask k ss) refl (guest_address-found idx) r
          (λ k. assign_networking-addresses k ss)
