-- ===== src/ControlPlane/Discovery/Live.antt =====
-- internal/controlplane/controller.go with registry.go: which records of nodes count, told apart from the code's tests.
use firework.Base.{
  ℕ, ◌+◌, ◌≤◌, ◌<◌, String, ◌≡◌, refl, ◌∙◌, ◌==◌, Bool, ◌&&◌, ◌||◌, not, if◌then◌else◌, Option,
  none, some, List, [], ◌∷◌, arith, ltb, leb, All, sum_by, Bool-cases, inl, inr,
}
use firework.Base.Int64.{safe_bound, half_word, gt64, lt64, sub64}
use firework.Base.Sort.{sum_by-sort_stable}
use firework.Scheduler.{Node}
use firework.ControlPlane.Upsert.{keep}
use firework.ControlPlane.Registry.{NodeRecord, NodeHeartbeatRequest, heartbeat, beat}
use firework.ControlPlane.Discovery.{takes_part, node_less, active_nodes, discover_active_nodes}

-- A node is ready, was seen at most the time to live ago, and has vCPUs and memory.
abbrev pub is_live : ℕ → ℕ → NodeRecord → Bool
is_live now ttl rec =
    rec.state == "ready"
    && ltb 0 rec.last_seen_at
    && leb now (rec.last_seen_at + ttl)
    && ltb 0 rec.capacity.vcpus
    && ltb 0 rec.capacity.memory_mb

-- The capacities are below 2 ^ 61, and the time before the year 2262.
unfoldable pub IsSmallRecord : Option NodeRecord → Type 0
IsSmallRecord none = Unit
IsSmallRecord (some rec) =
    (rec.capacity.vcpus < safe_bound)
    × (rec.capacity.memory_mb < safe_bound)
    × (rec.last_seen_at < half_word)

-- What a record that is read adds to a measure of the nodes.
abbrev pub weigh_record : ℕ → ℕ → (Node → ℕ) → Option NodeRecord → ℕ
weigh_record now ttl f none = 0
weigh_record now ttl f (some rec) =
    if is_live now ttl rec
    then f (record {
      instance_id = rec.node_id;
      capacity_vcpus = rec.capacity.vcpus;
      capacity_mem_mb = rec.capacity.memory_mb;
      local_capacity_bytes = rec.storage.local_capacity_bytes;
      shared_backend_id = rec.storage.shared_backend_id;
      shared_capacity_bytes = rec.storage.shared_capacity_bytes;
    })
    else 0

module _ (now ttl : ℕ) (now_small : now < half_word) (ttl_small : ttl < half_word) where
  recently : (seen : ℕ) → seen < half_word → gt64 (sub64 now seen) ttl ≡ not (leb now (seen + ttl))
  unfolding lt64 sub64
  recently seen s = ground arith

  positive : (n : ℕ) → n < safe_bound → gt64 n 0 ≡ ltb 0 n
  unfolding lt64
  positive n s = ground arith

  pub takes_part-is_live :
      (rec : NodeRecord) → IsSmallRecord (some rec) → takes_part now ttl rec ≡ is_live now ttl rec
  unfolding takes_part IsSmallRecord
  takes_part-is_live rec (c, m, s) =
      rw
        (
          recently rec.last_seen_at s,
          positive rec.capacity.vcpus c,
          positive rec.capacity.memory_mb m,
        )
        (ground arith)

  active_nodes-total :
      (f : Node → ℕ) (records : List (Option NodeRecord))
      → All IsSmallRecord records
      → sum_by f (active_nodes now ttl records) ≡ sum_by (weigh_record now ttl f) records
  unfolding active_nodes
  active_nodes-total f [] s = refl
  active_nodes-total f (none ∷ records) (_, s) = omega (arith, active_nodes-total f records s)
  active_nodes-total f (some rec ∷ records) (p, s) =
      let rest = active_nodes-total f records s in
      rw (takes_part-is_live rec p) (elim (Bool-cases (is_live now ttl rec)) [
        | inl e ↦ rw e (omega (arith, rest))
        | inr e ↦ rw e (omega (arith, rest))
      ])

  -- However nodes are weighed, those that are discovered weigh what the readable records weigh that are ready, seen
  -- at a time from which the time to live has not passed, and with vCPUs and memory: each of them is there once, with the id, the capacities and the
  -- storage of its record, and no other. The conditions are that times are below 2 ^ 63 and capacities
  -- below 2 ^ 61.
  pub discover_active_nodes-total :
      (f : Node → ℕ) (records : List (Option NodeRecord))
      → All IsSmallRecord records
      → sum_by f (discover_active_nodes now ttl records) ≡ sum_by (weigh_record now ttl f) records
  unfolding discover_active_nodes
  discover_active_nodes-total f records s =
      sum_by-sort_stable node_less f (active_nodes now ttl records) ∙ active_nodes-total f records s

-- Whether a heartbeat makes a node count: it is new or was ready, and each capacity is in the
-- heartbeat, or else in the record.
abbrev pub has_either : ℕ → ℕ → Bool
has_either reported known = ltb 0 reported || ltb 0 known

abbrev pub wakes : NodeHeartbeatRequest → NodeRecord → Bool
wakes req cur =
    (cur.state == "" || cur.state == "ready")
    && has_either req.capacity.vcpus cur.capacity.vcpus
    && has_either req.capacity.memory_mb cur.capacity.memory_mb

abbrev either_of : ℕ → ℕ → ℕ
either_of reported known = if ltb 0 reported then reported else known

small_either :
    (reported known : ℕ)
    → reported < safe_bound
    → known < safe_bound
    → either_of reported known < safe_bound
small_either reported known r k = ground (arith, r, k)

positive_either :
    (reported known : ℕ) → ltb 0 (either_of reported known) ≡ has_either reported known
positive_either reported known = ground arith

ready_either :
    (state : String)
    → ((if state == "" then "ready" else state) == "ready") ≡ (state == "" || state == "ready")
ready_either state = elim (Bool-cases (state == "")) [ inl e ↦ rw e refl | inr e ↦ rw e refl ]

heartbeat-fields :
    (bounded_message : String → String) (now : ℕ) (cur next : NodeRecord)
    (req : NodeHeartbeatRequest)
    → heartbeat bounded_message req now cur ≡ keep next
    → req.capacity.vcpus < safe_bound
    → req.capacity.memory_mb < safe_bound
    → (next.last_seen_at ≡ now)
      × (next.state ≡ (if cur.state == "" then "ready" else cur.state))
      × (next.capacity.vcpus ≡ either_of req.capacity.vcpus cur.capacity.vcpus)
      × (next.capacity.memory_mb ≡ either_of req.capacity.memory_mb cur.capacity.memory_mb)
unfolding heartbeat beat lt64
heartbeat-fields bounded_message now cur next req e rv rm =
    (ground arith, ground arith, ground arith, ground arith)

-- A heartbeat that is accepted counts for the time to live and no longer: at a later time the controller takes the node in exactly
-- if that time is within the time to live of the heartbeat, the node is new or was ready, and each
-- capacity is positive in the heartbeat or else in the record; so one that was set to another state
-- stays out. The conditions are that times and capacities are below 2 ^ 61.
pub heartbeat-takes_part :
    (bounded_message : String → String) (now later ttl : ℕ) (cur next : NodeRecord)
    (req : NodeHeartbeatRequest)
    → heartbeat bounded_message req now cur ≡ keep next
    → 0 < now
    → now ≤ later
    → later < safe_bound
    → ttl < safe_bound
    → req.capacity.vcpus < safe_bound
    → req.capacity.memory_mb < safe_bound
    → cur.capacity.vcpus < safe_bound
    → cur.capacity.memory_mb < safe_bound
    → takes_part later ttl next ≡ (wakes req cur && leb later (now + ttl))
unfolding IsSmallRecord
heartbeat-takes_part bounded_message now later ttl cur next req e p l ls ts rv rm cv cm =
    let (seen, state, vcpus, memory) = heartbeat-fields bounded_message now cur next req e rv rm in
    let small : IsSmallRecord (some next) = (
      rw vcpus (small_either req.capacity.vcpus cur.capacity.vcpus rv cv),
      rw memory (small_either req.capacity.memory_mb cur.capacity.memory_mb rm cm),
      omega (arith, seen, l, ls),
    ) in
    takes_part-is_live later ttl (omega (arith, ls)) (omega (arith, ts)) next small
    ∙ rw
        (
          state,
          seen,
          vcpus,
          memory,
          positive_either req.capacity.vcpus cur.capacity.vcpus,
          positive_either req.capacity.memory_mb cur.capacity.memory_mb,
          ready_either cur.state,
        )
        (ground (arith, p))
