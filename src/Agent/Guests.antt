-- ===== src/Agent/Guests.antt =====
-- assignNetworking of internal/agent/agent.go: the addresses of all the guests of a node.
use firework.Base.{
  ℕ, ◌+◌, ◌-◌, ◌%◌, ◌^◌, ◌≤◌, ◌<◌, String, ◌≡◌, List, arith, All, All-map, inl, inr, ◌⊎◌,
}
use firework.Base.Sort.{Pairwise}
use firework.Config.{ServiceConfig}
use firework.Agent.{dotted, ip_of, assign_networking}
use firework.Agent.Distinct.{IsBlank, Apart, InPool, assign_networking-IsPooled}
use firework.Agent.Enough.{guest_ips, addresses_from, networked_count, assign_networking-addresses}

-- The service has no address, or one strictly between the first host's and the last of the subnet.
abbrev pub InSubnet : ℕ → ℕ → ServiceConfig → Type 0
InSubnet base ones s =
    IsBlank s
    ⊎ ((a : ℕ) × (base + 1 < a) × (a + 1 < base + 2 ^ (32 - ones)) × (ip_of s.network ≡ dotted a))

-- The services with networking all have an address, in their order, or the subnet is used up.
abbrev pub IsUsedUp : ℕ → ℕ → ℕ → List ServiceConfig → List ServiceConfig → Type 0
IsUsedUp base ones idx given out =
    (guest_ips out ≡ addresses_from base idx (networked_count given))
    ⊎ (2 ^ (32 - ones) ≤ idx + networked_count given + 2)

abbrev pub IsSpread : ℕ → ℕ → ℕ → List ServiceConfig → List ServiceConfig → Type 0
IsSpread base ones idx given out =
    All (InSubnet base ones) out × Pairwise Apart out × IsUsedUp base ones idx given out

placed_inside :
    (base ones idx : ℕ) (s : ServiceConfig) → InPool base ones idx s → InSubnet base ones s
placed_inside base ones idx s (inl b) = inl b
placed_inside base ones idx s (inr (j, _, m, e)) =
    inr (base + j + 2, omega arith, omega (arith, m), e)

module _ (base ones : ℕ) (o : ones ≤ 30) (h : base + 2 ^ (32 - ones) ≤ 2 ^ 32)
    (aligned : base % 2 ^ (32 - ones) ≡ 0) (gateway netmask : String) where
  -- Where the prefix of the subnet has at most 30 bits, its address is aligned and its block lies below 2 ^ 32,
  -- and the services come without an address: in what `assign_networking` returns each service has no
  -- address, or one after that of the first host, base + 1, and before the last of the subnet, the
  -- broadcast's; no two services have the same address, save that services may have none; and the
  -- services with networking all get one, in their order from the index on, or the subnet has no more.
  pub assign_networking-IsSpread :
      (idx : ℕ) (ss : List ServiceConfig)
      → All IsBlank ss
      → IsSpread base ones idx ss (assign_networking base ones gateway netmask idx ss)
  assign_networking-IsSpread idx ss blank =
      let (pooled, apart) = assign_networking-IsPooled base ones h gateway netmask idx ss blank in
      let room : (idx + networked_count ss + 2 < 2 ^ (32 - ones))
          ⊎ (2 ^ (32 - ones) ≤ idx + networked_count ss + 2) =
        omega arith in
      (
        All-map (InPool base ones idx) (InSubnet base ones) _ (placed_inside base ones idx) pooled,
        apart,
        elim room [
          | inl r ↦ inl (assign_networking-addresses base ones o h aligned gateway netmask idx ss r)
          | inr full ↦ inr full
        ],
      )
