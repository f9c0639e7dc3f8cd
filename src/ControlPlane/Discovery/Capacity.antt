-- ===== src/ControlPlane/Discovery/Capacity.antt =====
-- internal/controlplane/controller.go with internal/scheduler/scheduler.go: services are placed on nodes that the
-- registry holds for live, within their capacities.
use firework.Base.{
  ℕ, ◌≤◌, ◌<◌, String, ◌≡◌, ◌≢◌, sym, if◌then◌else◌, true, false, Option, none, some, List, [], ◌∷◌,
  if_ind, Bool-cases, All, All-map, All-zip, sum_by, inl, inr, ◌⊎◌,
}
use firework.Base.Int64.{half_word}
use firework.Base.Dict.{Dict, items}
use firework.Base.Sort.{Pairwise, sort_stable, All-sort_stable, sort_stable-Apart, sort_stable-All}
use firework.Config.{ServiceConfig}
use firework.Scheduler.{Node, StorageReservations}
use firework.Scheduler.Place.{schedule_with_storage}
use firework.Scheduler.Place.Absent.{IsOther, schedule_with_storage-nothing}
use firework.Scheduler.Place.Capacity.{
  IsSmallService, IsSmallNode, Distinct, FitsNode, vcpus_of, memory_of,
  schedule_with_storage-FitsNode,
}
use firework.ControlPlane.Registry.{NodeRecord}
use firework.ControlPlane.Discovery.{
  takes_part, node_of, node_less, active_nodes, discover_active_nodes,
}
use firework.ControlPlane.Discovery.Live.{IsSmallRecord, is_live, takes_part-is_live}

-- Two records are of different nodes.
unfoldable pub RecordsDiffer : Option NodeRecord → Option NodeRecord → Type 0
RecordsDiffer none b = Unit
RecordsDiffer (some a) none = Unit
RecordsDiffer (some a) (some b) = a.node_id ≢ b.node_id

active_nodes-IsSmallNode :
    (now ttl : ℕ) (records : List (Option NodeRecord))
    → All IsSmallRecord records
    → All IsSmallNode (active_nodes now ttl records)
unfolding active_nodes IsSmallRecord
active_nodes-IsSmallNode now ttl [] h = tt
active_nodes-IsSmallNode now ttl (none ∷ records) (p, h) =
    active_nodes-IsSmallNode now ttl records h
active_nodes-IsSmallNode now ttl (some rec ∷ records) ((c, m, _), h) =
    if_ind (All IsSmallNode) (takes_part now ttl rec)
      (λ _. (record { cpu_small = c; mem_small = m }, active_nodes-IsSmallNode now ttl records h))
      (λ _. active_nodes-IsSmallNode now ttl records h)

active_nodes-differ :
    (now ttl : ℕ) (rec : NodeRecord) (records : List (Option NodeRecord))
    → All (RecordsDiffer (some rec)) records
    → All (Distinct (node_of rec)) (active_nodes now ttl records)
unfolding active_nodes RecordsDiffer
active_nodes-differ now ttl rec [] h = tt
active_nodes-differ now ttl rec (none ∷ records) (p, h) = active_nodes-differ now ttl rec records h
active_nodes-differ now ttl rec (some other ∷ records) (p, h) =
    if_ind (All (Distinct (node_of rec))) (takes_part now ttl other)
      (λ _. (p, active_nodes-differ now ttl rec records h))
      (λ _. active_nodes-differ now ttl rec records h)

active_nodes-Distinct :
    (now ttl : ℕ) (records : List (Option NodeRecord))
    → Pairwise RecordsDiffer records
    → Pairwise Distinct (active_nodes now ttl records)
unfolding active_nodes
active_nodes-Distinct now ttl [] h = tt
active_nodes-Distinct now ttl (none ∷ records) (p, h) = active_nodes-Distinct now ttl records h
active_nodes-Distinct now ttl (some rec ∷ records) (p, h) =
    if_ind (Pairwise Distinct) (takes_part now ttl rec)
      (λ _. (active_nodes-differ now ttl rec records p, active_nodes-Distinct now ttl records h))
      (λ _. active_nodes-Distinct now ttl records h)

-- A record that takes part is one of the nodes, and a record that does not has the id of none.
abbrev IsKept : (Node → Type 0) → ℕ → ℕ → Option NodeRecord → Type 0
IsKept P now ttl none = Unit
IsKept P now ttl (some rec) = (takes_part now ttl rec ≡ false) ⊎ P (node_of rec)

active_nodes-IsKept :
    (P : Node → Type 0) (now ttl : ℕ) (records : List (Option NodeRecord))
    → All P (active_nodes now ttl records)
    → All (IsKept P now ttl) records
unfolding active_nodes
active_nodes-IsKept P now ttl [] h = tt
active_nodes-IsKept P now ttl (none ∷ records) h = (tt, active_nodes-IsKept P now ttl records h)
active_nodes-IsKept P now ttl (some rec ∷ records) h = elim (Bool-cases (takes_part now ttl rec)) [
  | inl e ↦
      let (p, q) = rw (e, if◌then◌else◌) at h in (inr p, active_nodes-IsKept P now ttl records q)
  | inr e ↦ (inl e, active_nodes-IsKept P now ttl records (rw (e, if◌then◌else◌) at h))
]

abbrev IsLeftOut : List Node → ℕ → ℕ → Option NodeRecord → Type 0
IsLeftOut nodes now ttl none = Unit
IsLeftOut nodes now ttl (some rec) =
    (takes_part now ttl rec ≡ true) ⊎ All (IsOther rec.node_id) nodes

add-IsLeftOut :
    (rec : NodeRecord) (nodes : List Node) (now ttl : ℕ) (o : Option NodeRecord)
    → RecordsDiffer (some rec) o
    → IsLeftOut nodes now ttl o
    → IsLeftOut (node_of rec ∷ nodes) now ttl o
unfolding RecordsDiffer
add-IsLeftOut rec nodes now ttl none d h = tt
add-IsLeftOut rec nodes now ttl (some other) d (inl e) = inl e
add-IsLeftOut rec nodes now ttl (some other) d (inr h) = inr (d, h)

active_nodes-IsLeftOut :
    (now ttl : ℕ) (records : List (Option NodeRecord))
    → Pairwise RecordsDiffer records
    → All (IsLeftOut (active_nodes now ttl records) now ttl) records
unfolding active_nodes
active_nodes-IsLeftOut now ttl [] d = tt
active_nodes-IsLeftOut now ttl (none ∷ records) (_, d) =
    (tt, active_nodes-IsLeftOut now ttl records d)
active_nodes-IsLeftOut now ttl (some rec ∷ records) (apart, d) =
    let rest = active_nodes-IsLeftOut now ttl records d in
    let nodes = active_nodes now ttl records in
    if_ind (λ ns. All (IsLeftOut ns now ttl) (some rec ∷ records)) (takes_part now ttl rec)
      (λ e. (
        inl e,
        All-zip (RecordsDiffer (some rec)) (IsLeftOut nodes now ttl) _ records
            (add-IsLeftOut rec nodes now ttl) apart rest,
      ))
      (λ e. (
        inr (
            All-map (Distinct (node_of rec)) (IsOther rec.node_id) nodes (λ n d k. d (sym k))
              (active_nodes-differ now ttl rec records apart)),
        rest,
      ))

sorted-IsLeftOut :
    (now ttl : ℕ) (nodes : List Node) (o : Option NodeRecord)
    → IsLeftOut nodes now ttl o
    → IsLeftOut (sort_stable node_less nodes) now ttl o
sorted-IsLeftOut now ttl nodes none h = tt
sorted-IsLeftOut now ttl nodes (some rec) (inl e) = inl e
sorted-IsLeftOut now ttl nodes (some rec) (inr h) =
    inr (All-sort_stable node_less (IsOther rec.node_id) nodes h)

-- What the registry's record of a node promises of the placement: a live node is given services whose vCPUs and
-- memory add up to no more than its record says, and another node is given nothing.
abbrev pub IsServed : ℕ → ℕ → Dict (List ServiceConfig) → Option NodeRecord → Type 0
IsServed now ttl result none = Unit
IsServed now ttl result (some rec) =
    ((is_live now ttl rec ≡ true)
      × (sum_by vcpus_of (items result rec.node_id) ≤ rec.capacity.vcpus)
      × (sum_by memory_of (items result rec.node_id) ≤ rec.capacity.memory_mb))
    ⊎ ((is_live now ttl rec ≡ false) × (items result rec.node_id ≡ []))

module _ (now ttl : ℕ) (now_small : now < half_word) (ttl_small : ttl < half_word)
    (existing : Dict String) (reservations : StorageReservations) where
  record-IsServed :
      (nodes : List Node) (services : List ServiceConfig) (o : Option NodeRecord)
      → IsSmallRecord o
      → IsKept (FitsNode (schedule_with_storage nodes existing reservations services).0) now ttl o
        × IsLeftOut nodes now ttl o
      → IsServed now ttl (schedule_with_storage nodes existing reservations services).0 o
  record-IsServed nodes services none small h = tt
  record-IsServed nodes services (some rec) small (kept, out) =
      let live = takes_part-is_live now ttl now_small ttl_small rec small in
      elim (Bool-cases (is_live now ttl rec)) [
        | inl e ↦ (elim kept [ inl f ↦ absurd (cc (live, e, f)) | inr (p, q) ↦ inl (e, p, q) ])
        | inr e ↦ (elim out [
          | inl f ↦ absurd (cc (live, e, f))
          | inr others ↦ inr (
            e,
            schedule_with_storage-nothing rec.node_id nodes existing reservations services others,
          )
        ])
      ]

  -- The records are of different nodes, times are below 2 ^ 63, and other quantities below 2 ^ 61. Then a node
  -- whose record is live is given services whose vCPUs and memory add up to no more than the record
  -- says, and a node whose record is not live is given nothing.
  pub discovered-IsServed :
      (records : List (Option NodeRecord)) (services : List ServiceConfig)
      → Pairwise RecordsDiffer records
      → All IsSmallRecord records
      → All IsSmallService services
      → All
          (IsServed now ttl
            (schedule_with_storage
              (discover_active_nodes now ttl records)
              existing
              reservations
              services).0)
          records
  unfolding discover_active_nodes
  discovered-IsServed records services differ small ok =
      let nodes = active_nodes now ttl records in
      let sorted = sort_stable node_less nodes in
      let P = FitsNode (schedule_with_storage sorted existing reservations services).0 in
      let fits =
        schedule_with_storage-FitsNode sorted
          (sort_stable-Apart node_less Distinct (λ a b d e. d (sym e)) nodes
            (active_nodes-Distinct now ttl records differ))
          (All-sort_stable node_less IsSmallNode nodes
            (active_nodes-IsSmallNode now ttl records small))
          existing reservations services ok in
      let kept = active_nodes-IsKept P now ttl records (sort_stable-All node_less P nodes fits) in
      let out =
        All-map _ (IsLeftOut sorted now ttl) records (sorted-IsLeftOut now ttl nodes)
          (active_nodes-IsLeftOut now ttl records differ) in
      All-zip IsSmallRecord (λ o. IsKept P now ttl o × IsLeftOut sorted now ttl o) _ records
        (record-IsServed sorted services) small
        (All-zip (IsKept P now ttl) (IsLeftOut sorted now ttl) _ records (λ o k l. (k, l)) kept out)
