-- ===== src/Scheduler/Legacy.antt =====
-- internal/scheduler/scheduler.go: Schedule with bestFit, the placement by CPU and memory only, and
-- BuildNodeConfigs. sort.Slice, whose order among equals is its own, is a parameter.
pub mod BestFit
pub mod Partition
pub mod Samples
use firework.Base.{
  ℕ, String, ◌≡◌, refl, Bool, true, false, ◌&&◌, ◌||◌, not, ◌==◌, if◌then◌else◌, Option, none, some,
  List, [], ◌∷◌, snoc, same, str_lt, arith, eq_iff, eq_refl, if_ind,
}
use firework.Base.Dict.{Dict, lookup, insert, append_at}
use firework.Base.Int64.{add64, sub64, lt64, gt64, minus_one}
use firework.Config.{ServiceConfig, NodeConfig}
use firework.Scheduler.{Node, add_at, Groups, no_groups, has_conflict, join_group}

-- The maps that Schedule fills.
pub record Usage : Type 0 where
  pub used_vcpus : String → ℕ
  pub used_mem : String → ℕ
  pub groups : Groups
  pub result : Dict (List ServiceConfig)

-- bestFit's variables.
pub record Best : Type 0 where
  pub id : String
  pub free : ℕ
  pub conflict : Bool

module _ (service : ServiceConfig) (u : Usage) where
  abbrev free_vcpus : Node → ℕ
  free_vcpus n = sub64 n.capacity_vcpus (u.used_vcpus n.instance_id)

  abbrev free_mem : Node → ℕ
  free_mem n = sub64 n.capacity_mem_mb (u.used_mem n.instance_id)

  -- freeVCPUs < svc.VCPUs || freeMemMB < svc.MemoryMB
  unfoldable pub is_short : Node → Bool
  is_short n = lt64 (free_vcpus n) service.vcpus || lt64 (free_mem n) service.memory_mb

  unfoldable pub improve : Node → Best → Best
  improve n best =
      let conflict = has_conflict service u.groups n.instance_id in
      if is_short n
      then best
      else if best.id == ""
          || (best.conflict && not conflict)
          || (same best.conflict conflict && gt64 (free_vcpus n) best.free)
      then record { id = n.instance_id; free = free_vcpus n; conflict = conflict }
      else best

  unfoldable pub best_from : List Node → Best → Best
  best_from [] best = best
  best_from (n ∷ nodes) best = best_from nodes (improve n best)

  unfoldable pub best_fit : List Node → String
  best_fit nodes = (best_from nodes (record { id = ""; free = minus_one; conflict = true })).id

unfoldable pub assign : ServiceConfig → String → Usage → Usage
assign service id u = record {
  used_vcpus = add_at u.used_vcpus id service.vcpus;
  used_mem = add_at u.used_mem id service.memory_mb;
  groups = join_group service u.groups id;
  result = append_at id service u.result;
}

-- usedVCPUs + VCPUs > CapacityVCPUs || usedMemMB + MemoryMB > CapacityMemMB
unfoldable pub overloads : ServiceConfig → Usage → Node → Bool
overloads service u n =
    gt64 (add64 (u.used_vcpus n.instance_id) service.vcpus) n.capacity_vcpus
    || gt64 (add64 (u.used_mem n.instance_id) service.memory_mb) n.capacity_mem_mb

unfoldable pub node_by_id : List Node → Dict Node → Dict Node
node_by_id [] m = m
node_by_id (n ∷ nodes) m = node_by_id nodes (insert n.instance_id n m)

-- Phase 1, for a service whose node of the previous run is this one, if it is alive.
unfoldable pub keep_or_leave :
    ServiceConfig → Option Node → Usage × List ServiceConfig → Usage × List ServiceConfig
keep_or_leave service none (u, unplaced) = (u, snoc unplaced service)
keep_or_leave service (some n) (u, unplaced) =
    if overloads service u n || has_conflict service u.groups n.instance_id
    then (u, snoc unplaced service)
    else (assign service n.instance_id u, unplaced)

abbrev pub previous_node : Dict Node → Option String → Option Node
previous_node nodes none = none
previous_node nodes (some id) = lookup id nodes

unfoldable pub keep_existing :
    Dict Node
    → Dict String
    → List ServiceConfig
    → Usage × List ServiceConfig
    → Usage × List ServiceConfig
keep_existing nodes existing [] st = st
keep_existing nodes existing (service ∷ services) st =
    keep_existing nodes existing services
      (keep_or_leave service (previous_node nodes (lookup service.name existing)) st)

-- Phase 2; `none` is the error for want of capacity.
unfoldable pub pack : List Node → List ServiceConfig → Usage → Option Usage
pack nodes [] u = some u
pack nodes (service ∷ services) u =
    let target = best_fit service u nodes in
    let rest = pack nodes services (assign service target u) in if target == "" then none else rest

unfoldable pub empty_assignment : List Node → Dict (List ServiceConfig)
empty_assignment [] = []
empty_assignment (n ∷ nodes) = insert n.instance_id [] (empty_assignment nodes)

abbrev pub fresh_usage : List Node → Usage
fresh_usage nodes = record {
  used_vcpus = λ id. 0;
  used_mem = λ id. 0;
  groups = no_groups;
  result = empty_assignment nodes;
}

abbrev pub assignment_of : Option Usage → Option (Dict (List ServiceConfig))
assignment_of none = none
assignment_of (some u) = some u.result

abbrev pub larger : ServiceConfig → ServiceConfig → Bool
larger a b = gt64 a.vcpus b.vcpus

module _
    (sort_slice : (ServiceConfig → ServiceConfig → Bool)
      → List ServiceConfig
      → List ServiceConfig) where
  unfoldable pub schedule :
      List ServiceConfig → List Node → Dict String → Option (Dict (List ServiceConfig))
  schedule [] [] existing = some []
  schedule (_ ∷ _) [] existing = none
  schedule services (n ∷ nodes) existing =
      let all = n ∷ nodes in
      let (u, unplaced) =
        keep_existing (node_by_id all []) existing services (fresh_usage all, []) in
      assignment_of (pack all (sort_slice larger unplaced) u)

abbrev node_config : String → List ServiceConfig → NodeConfig
node_config id services = record {
  node = id;
  services = services;
  host_ip = "";
  desired_revision = "";
  placement_revision = "";
  rendered_revision = "";
}

unfoldable pub node_configs : Dict (List ServiceConfig) → List NodeConfig
node_configs [] = []
node_configs ((id, []) ∷ assignment) = node_configs assignment
node_configs ((id, service ∷ services) ∷ assignment) =
    node_config id (service ∷ services) ∷ node_configs assignment

abbrev config_less : NodeConfig → NodeConfig → Bool
config_less a b = str_lt a.node b.node

unfoldable pub build_node_configs :
    ((NodeConfig → NodeConfig → Bool) → List NodeConfig → List NodeConfig)
    → Dict (List ServiceConfig)
    → List NodeConfig
build_node_configs sort_slice assignment = sort_slice config_less (node_configs assignment)
