-- ===== src/Scheduler/Place/Shortage.antt =====
-- When ScheduleWithStorage finds no node for a service: the tests of the candidates, told by sums that do not wrap.
use firework.Base.{
  ◌≢◌, ℕ, String, ◌+◌, ◌<◌, ◌≡◌, refl, ◌⊎◌, ◌↔◌, inl, inr, not, ◌==◌, ◌&&◌, ◌||◌, Option, none,
  List, [], ◌∷◌, arith, All, All-zip, if_ind, eq_iff, ltb,
}
use firework.Base.Int64.{add64, gt64, lt64, safe_bound}
use firework.Base.Sort.{sort_stable, sort_stable-All, All-sort_stable}
use firework.Config.{ServiceConfig}
use firework.Scheduler.{Node, StorageReservations}
use firework.Scheduler.Storage.{Fit, fit_storage}
use firework.Scheduler.Place.{Progress, candidate_less, try_node, first_fit, choose}
use firework.Scheduler.Place.Capacity.{IsSmallService, IsSmallNode}
use firework.Scheduler.Place.Rules.{first_fit-none}

module _ (reservations : StorageReservations) (service : ServiceConfig) (bound : String)
    (st : Progress) where
  -- Why a node cannot take the service: it is not the one that the service is bound to, or has too few vCPUs left,
  -- or too little memory, or the volumes do not fit.
  abbrev pub IsUnfit : Node → Type 0
  IsUnfit n =
      ((bound ≢ "") × (n.instance_id ≢ bound))
      ⊎ ((n.capacity_vcpus < st.used_vcpu n.instance_id + service.vcpus)
          ⊎ ((n.capacity_mem_mb < st.used_mem n.instance_id + service.memory_mb)
              ⊎ (fit_storage service n reservations st.used_local st.used_shared ≡ none)))

  module _ (small : IsSmallService service)
      (used : (id : String) → (st.used_vcpu id < safe_bound) × (st.used_mem id < safe_bound)) where
    over :
        (u v c : ℕ)
        → u < safe_bound
        → v < safe_bound
        → c < safe_bound
        → gt64 (add64 u v) c ≡ ltb c (u + v)
    unfolding add64 lt64
    over u v c hu hv hc = ground arith

    tests :
        (n : Node)
        → IsSmallNode n
        → (gt64 (add64 (st.used_vcpu n.instance_id) service.vcpus) n.capacity_vcpus
            ≡ ltb n.capacity_vcpus (st.used_vcpu n.instance_id + service.vcpus))
          × (gt64 (add64 (st.used_mem n.instance_id) service.memory_mb) n.capacity_mem_mb
              ≡ ltb n.capacity_mem_mb (st.used_mem n.instance_id + service.memory_mb))
    tests n s = (
      over _ _ _ (used n.instance_id).0 small.vcpus_small s.cpu_small,
      over _ _ _ (used n.instance_id).1 small.memory_small s.mem_small,
    )

    try_node-IsUnfit :
        (n : Node) → IsSmallNode n → try_node reservations service bound st n ≡ none → IsUnfit n
    unfolding try_node
    try_node-IsUnfit n s e =
        let (t, u) = tests n s in
        let Q = λ (o : Option Fit). o ≡ none → IsUnfit n in
        if_ind Q (not (bound == "") && not (n.instance_id == bound))
          (λ f _.
            inl (ground (arith, f, eq_iff bound ""), ground (arith, f, eq_iff n.instance_id bound)))
          (λ _.
            if_ind Q
              (gt64 (add64 (st.used_vcpu n.instance_id) service.vcpus) n.capacity_vcpus
                || gt64 (add64 (st.used_mem n.instance_id) service.memory_mb) n.capacity_mem_mb)
              (λ f _. inr (ground (arith, f, t, u))) (λ _ g. inr (inr (inr g))))
          e

    IsUnfit-try_node :
        (n : Node) → IsSmallNode n → IsUnfit n → try_node reservations service bound st n ≡ none
    unfolding try_node
    IsUnfit-try_node n s (inl (a, b)) =
        ground (arith, a, b, eq_iff bound "", eq_iff n.instance_id bound)
    IsUnfit-try_node n s (inr (inl h)) = let (t, u) = tests n s in ground (arith, h, t)
    IsUnfit-try_node n s (inr (inr (inl h))) = let (t, u) = tests n s in ground (arith, h, u)
    IsUnfit-try_node n s (inr (inr (inr h))) = ground (arith, h)

    first_fit-All :
        (nodes : List Node)
        → All (λ n. try_node reservations service bound st n ≡ none) nodes
        → first_fit reservations service bound st nodes ≡ none
    unfolding first_fit
    first_fit-All [] h = refl
    first_fit-All (n ∷ nodes) (skipped, h) = rw (skipped, first_fit) (first_fit-All nodes h)

    -- No node is chosen for a service exactly if each node is not the one that the service is bound to, or has fewer vCPUs or
    -- less memory than what is used and what the service wants add up to, or does not fit the volumes.
    -- The conditions are that all quantities are below 2 ^ 61.
    pub choose_complete :
        (preferred : String) (nodes : List Node)
        → All IsSmallNode nodes
        → (choose reservations service bound preferred st nodes ≡ none) ↔ All IsUnfit nodes
    unfolding choose
    choose_complete preferred nodes s =
        let less = candidate_less service preferred st in
        let Skipped = λ (n : Node). try_node reservations service bound st n ≡ none in
        (
          λ e. All-zip IsSmallNode Skipped IsUnfit nodes try_node-IsUnfit s (
              sort_stable-All less Skipped nodes
                (first_fit-none reservations service bound st (sort_stable less nodes) e)),
          λ h. first_fit-All (sort_stable less nodes) (
              All-sort_stable less Skipped nodes
                (All-zip IsSmallNode IsUnfit Skipped nodes IsUnfit-try_node s h)),
        )
