-- ===== src/Scheduler/Place/Capacity.antt =====
-- ScheduleWithStorage gives no node more than it has: vCPUs and memory.
use firework.Base.{
  ℕ, String, ◌+◌, ◌≤◌, ◌<◌, ◌≡◌, ◌≢◌, false, ◌==◌, if◌then◌else◌, some, List, [], ◌∷◌, arith, All,
  sum_by, sum_by-append, Bool-cases, if_ind, inl, inr, eq_iff, eq_refl, All-zip, All-map,
}
use firework.Base.Dict.{Dict, items, append_at, items-append_at}
use firework.Base.Int64.{add64, gt64, safe_bound, admit, add64_small}
use firework.Base.Sort.{Pairwise, sort_stable, All-sort_stable}
use firework.Config.{ServiceConfig}
use firework.Scheduler.{Node, StorageReservations, add_at}
use firework.Scheduler.Storage.{Fit, fit_storage, local_binding}
use firework.Scheduler.Place.{
  Progress, start, service_less, try_node, leave, leave_unplaced, reserve, commit, settle,
  schedule_with_storage,
}
use firework.Scheduler.Place.Rules.{run-Inv, items-start}

-- The quantities a placement moves are far from the ends of int64.
pub record IsSmallService (s : ServiceConfig) : Type 0 where
  pub vcpus_small : s.vcpus < safe_bound
  pub memory_small : s.memory_mb < safe_bound

abbrev pub vcpus_of : ServiceConfig → ℕ
vcpus_of s = s.vcpus

abbrev pub memory_of : ServiceConfig → ℕ
memory_of s = s.memory_mb

-- The capacities `cpu` and `mem` by node id are those of the node.
pub record HasCapacity (cpu mem : String → ℕ) (n : Node) : Type 0 where
  pub cpu_eq : n.capacity_vcpus ≡ cpu n.instance_id
  pub mem_eq : n.capacity_mem_mb ≡ mem n.instance_id
  pub cpu_small : n.capacity_vcpus < safe_bound
  pub mem_small : n.capacity_mem_mb < safe_bound

fit_storage-same :
    (service : ServiceConfig) (node : Node) (r : StorageReservations) (local shared : String → ℕ)
    (fit : Fit)
    → fit_storage service node r local shared ≡ some fit
    → (fit.candidate.vcpus ≡ service.vcpus) × (fit.candidate.memory_mb ≡ service.memory_mb)
unfolding fit_storage
fit_storage-same service node r local shared fit e = ground arith

-- A node that was chosen has room for the service.
try_node-room :
    (r : StorageReservations) (service : ServiceConfig) (bound : String) (st : Progress)
    (node : Node) (fit : Fit)
    → try_node r service bound st node ≡ some fit
    → (gt64 (add64 (st.used_vcpu node.instance_id) service.vcpus) node.capacity_vcpus ≡ false)
      × (gt64 (add64 (st.used_mem node.instance_id) service.memory_mb) node.capacity_mem_mb ≡ false)
      × (fit_storage service node r st.used_local st.used_shared ≡ some fit)
unfolding try_node
try_node-room r service bound st node fit e = ground arith

-- The admission test on small quantities.
room_of :
    (u v c k : ℕ)
    → u ≤ k
    → c ≡ k
    → c < safe_bound
    → v < safe_bound
    → gt64 (add64 u v) c ≡ false
    → u + v ≤ k
room_of u v c k within same c_small v_small h =
    omega (arith, admit u v c (omega arith) (omega arith) (omega arith) (omega arith) h)

-- One resource: `used` counts the measure `f` of what stands on each node, within `capacity`.
module _ (f : ServiceConfig → ℕ) (capacity used : String → ℕ) (result : Dict (List ServiceConfig))
    (id : String) (s : ServiceConfig) (wanted : ℕ) (same : f s ≡ wanted)
    (room : used id + wanted ≤ capacity id) (small : capacity id < safe_bound) where
  charge-le :
      ((j : String) → used j ≤ capacity j) → (j : String) → add_at used id wanted j ≤ capacity j
  charge-le within j = elim (Bool-cases (id == j)) [
    | inl e ↦
        rw (e, if◌then◌else◌)
          (rw (← (eq_iff id j).0 e) (omega (arith, add64_small (used id) wanted)))
    | inr e ↦ rw (e, if◌then◌else◌) (within j)
  ]

  charge-sum :
      ((j : String) → sum_by f (items result j) ≡ used j)
      → (j : String) → sum_by f (items (append_at id s result) j) ≡ add_at used id wanted j
  charge-sum counted j = rw items-append_at (elim (Bool-cases (id == j)) [
    | inl e ↦
        rw (e, if◌then◌else◌)
          (omega (
            arith,
            add64_small (used id) wanted,
            sum_by-append f (items result id) (s ∷ []),
            counted id,
          ))
    | inr e ↦ rw (e, if◌then◌else◌) (counted j)
  ])

module _ (cpu mem : String → ℕ) where
  record IsWithin (st : Progress) (rest : List ServiceConfig) : Type 0 where
    small : All IsSmallService rest
    cpu_within : (id : String) → st.used_vcpu id ≤ cpu id
    mem_within : (id : String) → st.used_mem id ≤ mem id
    cpu_sum : (id : String) → sum_by vcpus_of (items st.result id) ≡ st.used_vcpu id
    mem_sum : (id : String) → sum_by memory_of (items st.result id) ≡ st.used_mem id

  leave-IsWithin :
      (service : ServiceConfig) (rest : List ServiceConfig) (reason message : String)
      (st : Progress)
      → IsWithin st (service ∷ rest)
      → IsWithin (leave service reason message st) rest
  unfolding leave
  leave-IsWithin service rest reason message st inv = record {
    small = inv.small.1;
    cpu_within = inv.cpu_within;
    mem_within = inv.mem_within;
    cpu_sum = inv.cpu_sum;
    mem_sum = inv.mem_sum;
  }

  reserve-IsWithin :
      (rest : List ServiceConfig) (node : Node) (fit : Fit) (st : Progress)
      → IsWithin st rest
      → IsWithin (reserve node fit st) rest
  unfolding reserve
  reserve-IsWithin rest node fit st inv = record {
    small = inv.small;
    cpu_within = inv.cpu_within;
    mem_within = inv.mem_within;
    cpu_sum = inv.cpu_sum;
    mem_sum = inv.mem_sum;
  }

  commit-IsWithin :
      (service chosen : ServiceConfig) (rest : List ServiceConfig) (id : String) (st : Progress)
      → chosen.vcpus ≡ service.vcpus
      → chosen.memory_mb ≡ service.memory_mb
      → cpu id < safe_bound
      → mem id < safe_bound
      → st.used_vcpu id + service.vcpus ≤ cpu id
      → st.used_mem id + service.memory_mb ≤ mem id
      → IsWithin st (service ∷ rest)
      → IsWithin (commit service id chosen st) rest
  unfolding commit
  commit-IsWithin service chosen rest id st same_cpu same_mem cs ms cr mr inv = record {
    small = inv.small.1;
    cpu_within =
        charge-le vcpus_of cpu st.used_vcpu st.result id chosen service.vcpus same_cpu cr cs
          inv.cpu_within;
    mem_within =
        charge-le memory_of mem st.used_mem st.result id chosen service.memory_mb same_mem mr ms
          inv.mem_within;
    cpu_sum =
        charge-sum vcpus_of cpu st.used_vcpu st.result id chosen service.vcpus same_cpu cr cs
          inv.cpu_sum;
    mem_sum =
        charge-sum memory_of mem st.used_mem st.result id chosen service.memory_mb same_mem mr ms
          inv.mem_sum;
  }

  settle-IsWithin :
      (r : StorageReservations) (service : ServiceConfig) (rest : List ServiceConfig)
      (st : Progress) (node : Node) (fit : Fit)
      → IsWithin st (service ∷ rest)
      → HasCapacity cpu mem node
      → try_node r service (local_binding service).0 st node ≡ some fit
      → IsWithin (settle service (some (node, fit)) st) rest
  unfolding settle leave_unplaced reserve
  settle-IsWithin r service rest st node fit inv has tried =
      let id = node.instance_id in
      let (cpu_free, mem_free, fits) =
        try_node-room r service (local_binding service).0 st node fit tried in
      let (same_cpu, same_mem) =
        fit_storage-same service node r st.used_local st.used_shared fit fits in
      if_ind (λ st'. IsWithin st' rest) (id == "")
        (λ _.
          leave-IsWithin service rest _ _ (reserve node fit st)
            (reserve-IsWithin _ node fit st inv))
        (λ _.
          commit-IsWithin service fit.candidate rest id (reserve node fit st) same_cpu same_mem
            (omega (arith, has.cpu_eq, has.cpu_small)) (omega (arith, has.mem_eq, has.mem_small))
            (room_of _ _ _ _ (inv.cpu_within id) has.cpu_eq has.cpu_small inv.small.0.vcpus_small
              cpu_free)
            (room_of _ _ _ _ (inv.mem_within id) has.mem_eq has.mem_small inv.small.0.memory_small
              mem_free)
            (reserve-IsWithin _ node fit st inv))

  start-IsWithin :
      (nodes : List Node) (services : List ServiceConfig)
      → All IsSmallService services
      → IsWithin (start nodes) services
  unfolding start
  start-IsWithin nodes services small = record {
    small = small;
    cpu_within = λ id. omega arith;
    mem_within = λ id. omega arith;
    cpu_sum = λ id. rw (items-start nodes id);
    mem_sum = λ id. rw (items-start nodes id);
  }

-- A field of the first node with the given id.
by_id : (Node → ℕ) → List Node → String → ℕ
by_id f [] id = 0
by_id f (n ∷ nodes) id = if n.instance_id == id then f n else by_id f nodes id

abbrev pub Distinct : Node → Node → Type 0
Distinct m n = m.instance_id ≢ n.instance_id

by_id-eq :
    (f : Node → ℕ) (nodes : List Node)
    → Pairwise Distinct nodes
    → All (λ n. f n ≡ by_id f nodes n.instance_id) nodes
unfolding by_id
by_id-eq f [] d = tt
by_id-eq f (n ∷ nodes) (apart, d) = (
  rw (eq_refl n.instance_id),
  All-zip (Distinct n) _ _ nodes (λ m a e. ground (arith, eq_iff n.instance_id m.instance_id)) apart
      (by_id-eq f nodes d),
)

pub record IsSmallNode (n : Node) : Type 0 where
  pub cpu_small : n.capacity_vcpus < safe_bound
  pub mem_small : n.capacity_mem_mb < safe_bound

-- The vCPUs and the memory of the services that a node is given are within the node's capacity.
abbrev pub FitsNode : Dict (List ServiceConfig) → Node → Type 0
FitsNode result n =
    (sum_by vcpus_of (items result n.instance_id) ≤ n.capacity_vcpus)
    × (sum_by memory_of (items result n.instance_id) ≤ n.capacity_mem_mb)

module _ (nodes : List Node) (distinct : Pairwise Distinct nodes)
    (small : All IsSmallNode nodes) where
  cpu_by_id : String → ℕ
  cpu_by_id = by_id (λ n. n.capacity_vcpus) nodes

  mem_by_id : String → ℕ
  mem_by_id = by_id (λ n. n.capacity_mem_mb) nodes

  nodes-HasCapacity : All (HasCapacity cpu_by_id mem_by_id) nodes
  unfolding cpu_by_id mem_by_id
  nodes-HasCapacity =
      All-zip (λ n. n.capacity_vcpus ≡ cpu_by_id n.instance_id) _ (HasCapacity cpu_by_id mem_by_id)
        nodes
        (λ n c (m, s). record {
          cpu_eq = c;
          mem_eq = m;
          cpu_small = s.cpu_small;
          mem_small = s.mem_small;
        })
        (by_id-eq (λ n. n.capacity_vcpus) nodes distinct)
        (All-zip (λ n. n.capacity_mem_mb ≡ mem_by_id n.instance_id) IsSmallNode
          (λ n. (n.capacity_mem_mb ≡ mem_by_id n.instance_id) × IsSmallNode n) nodes
          (λ n m s. (m, s)) (by_id-eq (λ n. n.capacity_mem_mb) nodes distinct) small)

  -- Nodes have distinct ids, and every quantity is below 2^61: then no node is given services whose
  -- vCPUs or memory add up to more than it has.
  pub schedule_with_storage-FitsNode :
      (existing : Dict String) (reservations : StorageReservations) (services : List ServiceConfig)
      → All IsSmallService services
      → All (FitsNode (schedule_with_storage nodes existing reservations services).0) nodes
  unfolding schedule_with_storage
  schedule_with_storage-FitsNode existing reservations services ok =
      let sorted = sort_stable service_less services in
      let cpu = cpu_by_id in
      let mem = mem_by_id in
      let end =
        run-Inv nodes existing reservations (IsWithin cpu mem) (HasCapacity cpu mem)
          (leave-IsWithin cpu mem) (settle-IsWithin cpu mem reservations) nodes-HasCapacity sorted
          (start nodes)
          (start-IsWithin cpu mem nodes sorted
            (All-sort_stable service_less IsSmallService services ok)) in
      All-map (HasCapacity cpu mem) _ nodes
        (λ n has. (
          omega (arith, end.cpu_sum n.instance_id, end.cpu_within n.instance_id, has.cpu_eq),
          omega (arith, end.mem_sum n.instance_id, end.mem_within n.instance_id, has.mem_eq),
        ))
        nodes-HasCapacity
