-- ===== src/Agent/Distinct.antt =====
-- assignNetworking of internal/agent/agent.go: which addresses the guests of a node get.
use firework.Base.{
  ℕ, suc, ◌+◌, ◌-◌, ◌^◌, ◌≤◌, ◌<◌, String, ◌≡◌, ◌≢◌, refl, ap, sym, ◌∙◌, Option, none, some, List,
  [], ◌∷◌, arith, All, All-map, inl, inr, ◌⊎◌,
}
use firework.Base.Sort.{Pairwise}
use firework.Base.Text.{split_on}
use firework.Config.{NetworkConfig, ServiceConfig}
use firework.Agent.{
  guest_address, dotted, ip_of, networked, assign_one, assigned_or, assign_networking,
}
use firework.Agent.Addresses.{
  IsGuest, guest_address-IsGuest, dotted_injective, read_parts, read_parts-dotted,
}

abbrev pub IsBlank : ServiceConfig → Type 0
IsBlank s = ip_of s.network ≡ ""

-- The two services do not share an address.
abbrev pub Apart : ServiceConfig → ServiceConfig → Type 0
Apart s t = IsBlank s ⊎ (ip_of s.network ≢ ip_of t.network)

-- The service has no address, or one of a place in the subnet that is at least the index.
abbrev pub InPool : ℕ → ℕ → ℕ → ServiceConfig → Type 0
InPool base ones idx s =
    IsBlank s
    ⊎ ((j : ℕ) × (idx ≤ j) × (j + 3 < 2 ^ (32 - ones)) × (ip_of s.network ≡ dotted (base + j + 2)))

abbrev pub IsPooled : ℕ → ℕ → ℕ → List ServiceConfig → Type 0
IsPooled base ones idx ss = All (InPool base ones idx) ss × Pairwise Apart ss

Pairwise-blank : (ss : List ServiceConfig) → All IsBlank ss → Pairwise Apart ss
Pairwise-blank [] h = tt
Pairwise-blank (s ∷ ss) (b, h) =
    (All-map IsBlank (Apart s) ss (λ t _. inl b) h, Pairwise-blank ss h)

blank-IsPooled :
    (base ones idx : ℕ) (ss : List ServiceConfig) → All IsBlank ss → IsPooled base ones idx ss
blank-IsPooled base ones idx ss h =
    (All-map IsBlank (InPool base ones idx) ss (λ t b. inl b) h, Pairwise-blank ss h)

module _ (base ones : ℕ) (h : base + 2 ^ (32 - ones) ≤ 2 ^ 32) where
  later : (idx : ℕ) (s : ServiceConfig) → InPool base ones (suc idx) s → InPool base ones idx s
  later idx s (inl b) = inl b
  later idx s (inr (j, k, m, e)) = inr (j, omega (arith, k), m, e)

  below : (count j : ℕ) → base + count ≤ 2 ^ 32 → j + 3 < count → base + j + 2 < 2 ^ 32
  below count j b k = omega (arith, b, k)

  dotted-blank : (a : ℕ) → a < 2 ^ 32 → dotted a ≡ "" → a ≡ 0
  unfolding split_on
  dotted-blank a k e = sym (read_parts-dotted a k) ∙ ap (λ s. read_parts (split_on 46 s)) e

  Apart-later :
      (idx : ℕ) (s t : ServiceConfig)
      → ip_of s.network ≡ dotted (base + idx + 2)
      → idx + 3 < 2 ^ (32 - ones)
      → InPool base ones (suc idx) t
      → Apart s t
  Apart-later idx s t e m (inl b) = inr (λ k.
      let none_left =
        dotted-blank (base + idx + 2) (below (2 ^ (32 - ones)) idx h m) (sym e ∙ k ∙ b) in
      omega (arith, none_left))
  Apart-later idx s t e m (inr (j, l, n, f)) = inr (λ k.
      let same =
        dotted_injective (base + idx + 2) (base + j + 2) (below (2 ^ (32 - ones)) idx h m)
          (below (2 ^ (32 - ones)) j h n) (sym e ∙ k ∙ f) in
      omega (arith, same, l))

  module _ (gateway netmask : String) where
    ip_of-networked :
        (s : ServiceConfig) (n : NetworkConfig) (idx a : ℕ)
        → ip_of (networked base ones gateway netmask s n idx a).network ≡ dotted a
    unfolding networked
    ip_of-networked s n idx a = refl

    -- One turn of the loop, where the rest is spread from the next index on.
    turn-IsPooled :
        (idx : ℕ) (s : ServiceConfig) (ss : List ServiceConfig) (n : Option NetworkConfig)
        (found : Option ℕ) (next : ℕ → List ServiceConfig)
        → s.network ≡ n
        → IsGuest base ones idx found
        → All IsBlank (s ∷ ss)
        → ((k : ℕ) → IsPooled base ones k (next k))
        → IsPooled base ones idx (
            assigned_or base ones gateway netmask
              (s ∷ ss)
              (assign_one base ones gateway netmask s n idx found)
              next)
    unfolding assign_one
    turn-IsPooled idx s ss none found next e g (b, bs) k =
        let (p, q) = k idx in
        ((inl b, p), (All-map (InPool base ones idx) (Apart s) (next idx) (λ t _. inl b) p, q))
    turn-IsPooled idx s ss (some n) none next e g b k = blank-IsPooled base ones idx (s ∷ ss) b
    turn-IsPooled idx s ss (some n) (some a) next e (x, m, c) b k =
        let (p, q) = k (suc idx) in
        let f = ip_of-networked s n idx a ∙ ap dotted x in
        (
          (
            inr (idx, omega arith, m, f),
            All-map (InPool base ones (suc idx)) (InPool base ones idx) (next (suc idx)) (later idx)
                p,
          ),
          (
            All-map (InPool base ones (suc idx))
                (Apart (networked base ones gateway netmask s n idx a)) (next (suc idx))
                (λ t. Apart-later idx (networked base ones gateway netmask s n idx a) t f m) p,
            q,
          ),
        )

    -- Where the services come without an address, each place in the subnet is given once.
    pub assign_networking-IsPooled :
        (idx : ℕ) (ss : List ServiceConfig)
        → All IsBlank ss
        → IsPooled base ones idx (assign_networking base ones gateway netmask idx ss)
    unfolding assign_networking
    assign_networking-IsPooled idx [] b = (tt, tt)
    assign_networking-IsPooled idx (s ∷ ss) (b, bs) =
        turn-IsPooled idx s ss s.network (guest_address base ones idx)
          (λ k. assign_networking base ones gateway netmask k ss) refl
          (guest_address-IsGuest base ones idx h) (b, bs) (λ k. assign_networking-IsPooled k ss bs)
