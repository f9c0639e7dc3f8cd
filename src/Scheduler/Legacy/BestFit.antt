-- ===== src/Scheduler/Legacy/BestFit.antt =====
-- bestFit of internal/scheduler/scheduler.go: it answers a node with room, told by sums that do not wrap, if there is one.
use firework.Base.{
  ℕ, ◌+◌, ◌<◌, String, ◌≡◌, Bool, true, false, ◌&&◌, ◌||◌, not, ◌==◌, List, [], ◌∷◌, same, arith,
  eq_iff, eq_refl, if_ind, leb, All,
}
use firework.Base.Int64.{half_word, sub64, lt64, gt64, minus_one}
use firework.Config.{ServiceConfig}
use firework.Scheduler.{Node, has_conflict}
use firework.Scheduler.Legacy.{Usage, Best, free_vcpus, is_short, improve, best_from, best_fit}

module _ (service : ServiceConfig) (u : Usage) where
  -- What is used and what the service wants add up to no more than the node has.
  abbrev pub fits : Node → Bool
  fits n =
      leb (u.used_vcpus n.instance_id + service.vcpus) n.capacity_vcpus
      && leb (u.used_mem n.instance_id + service.memory_mb) n.capacity_mem_mb

  -- Whether a node of this id has room for the service, and whether any node has.
  abbrev pub has_room : List Node → String → Bool
  has_room [] id = false
  has_room (n ∷ nodes) id = (n.instance_id == id && fits n) || has_room nodes id

  abbrev pub any_room : List Node → Bool
  any_room [] = false
  any_room (n ∷ nodes) = fits n || any_room nodes

  -- The node has an id, and its quantities are below 2 ^ 63.
  pub record IsPlain (n : Node) : Type 0 where
    pub named : (n.instance_id == "") ≡ false
    pub vcpus_small : n.capacity_vcpus < half_word
    pub mem_small : n.capacity_mem_mb < half_word
    pub used_vcpus_small : u.used_vcpus n.instance_id < half_word
    pub used_mem_small : u.used_mem n.instance_id < half_word

  module _ (v : service.vcpus < half_word) (m : service.memory_mb < half_word) where
    lacks :
        (cap used want : ℕ)
        → cap < half_word
        → used < half_word
        → want < half_word
        → lt64 (sub64 cap used) want ≡ not (leb (used + want) cap)
    unfolding lt64 sub64
    lacks cap used want c d w = ground arith

    is_short-fits : (n : Node) → IsPlain n → is_short service u n ≡ not (fits n)
    unfolding is_short
    is_short-fits n p =
        rw
          (
            lacks n.capacity_vcpus (u.used_vcpus n.instance_id) service.vcpus p.vcpus_small
                p.used_vcpus_small v,
            lacks n.capacity_mem_mb (u.used_mem n.instance_id) service.memory_mb p.mem_small
                p.used_mem_small m,
          )
          (ground arith)

    -- One turn: the answer stays, or is the node, which has room; and it stays empty only if it has not.
    abbrev Turn : Node → Best → Best → Type 0
    Turn n best b =
        ((b.id == best.id || (b.id == n.instance_id && fits n)) ≡ true)
        × ((b.id == "") ≡ (best.id == "" && not (fits n)))

    improve-Turn : (n : Node) (best : Best) → IsPlain n → Turn n best (improve service u n best)
    unfolding improve
    improve-Turn n best p =
        let s = is_short-fits n p in
        let conflict = has_conflict service u.groups n.instance_id in
        if_ind (Turn n best) (is_short service u n)
          (λ e. (ground (arith, eq_refl best.id), ground (arith, e, s)))
          (λ e.
            if_ind (Turn n best)
              (best.id == ""
                || (best.conflict && not conflict)
                || (same best.conflict conflict && gt64 (free_vcpus service u n) best.free))
              (λ _. (ground (arith, eq_refl n.instance_id, e, s), ground (arith, p.named, e, s)))
              (λ f. (ground (arith, eq_refl best.id), ground (arith, e, f, s))))

    best_from-room :
        (nodes : List Node) (best : Best)
        → All IsPlain nodes
        → (((best_from service u nodes best).id == best.id
              || has_room nodes (best_from service u nodes best).id)
            ≡ true)
          × (((best_from service u nodes best).id == "") ≡ (best.id == "" && not (any_room nodes)))
    unfolding best_from
    best_from-room [] best p = (ground (arith, eq_refl best.id), ground arith)
    best_from-room (n ∷ nodes) best (q, p) =
        let next = improve service u n best in
        let end = (best_from service u nodes next).id in
        let (found, empty) = best_from-room nodes next p in
        let (turn, stays) = improve-Turn n best q in
        (
          ground (
            arith,
            found,
            turn,
            eq_iff end next.id,
            eq_iff next.id best.id,
            eq_iff end best.id,
            eq_iff next.id n.instance_id,
            eq_iff n.instance_id end,
          ),
          ground (arith, empty, stays),
        )

    -- The node that bestFit answers, if any, is one of the nodes, and what is used on it and what the
    -- service wants add up to no more than it has, in vCPUs and in memory; and it answers none exactly if no
    -- node has such room. The conditions are that nodes have ids and quantities are below 2 ^ 63.
    pub best_fit-has_room :
        (nodes : List Node)
        → All IsPlain nodes
        → ((best_fit service u nodes == "" || has_room nodes (best_fit service u nodes)) ≡ true)
          × ((best_fit service u nodes == "") ≡ not (any_room nodes))
    unfolding best_fit
    best_fit-has_room nodes p =
        best_from-room nodes (record { id = ""; free = minus_one; conflict = true }) p
