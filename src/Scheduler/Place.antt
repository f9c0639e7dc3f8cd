-- ===== src/Scheduler/Place.antt =====
-- internal/scheduler/scheduler.go: ScheduleWithStorage. Each service in turn is put on the first
-- candidate node that can take it, or is left pending with a reason.
pub mod Rules
pub mod Absent
pub mod Capacity
pub mod Partition
pub mod Binding
pub mod Choice
pub mod Shortage
pub mod Samples
use firework.Base.{
  ℕ, String, Bool, true, false, ◌&&◌, ◌||◌, not, ◌==◌, if◌then◌else◌, Option, none, some, List, [],
  ◌∷◌, str_append, str_lt, eqb, same, or_else, snoc,
}
use firework.Base.Dict.{Dict, lookup, insert, append_at}
use firework.Base.Int64.{add64, sub64, gt64}
use firework.Base.Sort.{sort_stable}
use firework.Config.{VolumeConfig, ServiceConfig}
use firework.Scheduler.{
  Node, StorageReservations, Pending, Groups, add_at, no_groups, has_conflict, join_group,
}
use firework.Scheduler.Storage.{Fit, local_binding, has_shared_volume, fit_storage}

-- The local variables of ScheduleWithStorage.
pub record Progress : Type 0 where
  pub result : Dict (List ServiceConfig)
  pub used_vcpu : String → ℕ
  pub used_mem : String → ℕ
  pub used_local : String → ℕ
  pub used_shared : String → ℕ
  pub groups : Groups
  pub pending : List Pending

abbrev zeros : String → ℕ
zeros id = 0

unfoldable pub empty_result : List Node → Dict (List ServiceConfig)
empty_result [] = []
empty_result (node ∷ nodes) = insert node.instance_id [] (empty_result nodes)

unfoldable pub start : List Node → Progress
start nodes = record {
  result = empty_result nodes;
  used_vcpu = zeros;
  used_mem = zeros;
  used_local = zeros;
  used_shared = zeros;
  groups = no_groups;
  pending = [];
}

-- _, active := nodeByID[id]
unfoldable pub is_active : List Node → String → Bool
is_active [] id = false
is_active (node ∷ nodes) id = node.instance_id == id || is_active nodes id

-- The order in which services are placed: most vCPUs first, then by name.
unfoldable pub service_less : ServiceConfig → ServiceConfig → Bool
service_less a b = if not (eqb a.vcpus b.vcpus) then gt64 a.vcpus b.vcpus else str_lt a.name b.name

-- The order in which nodes are tried.
unfoldable pub candidate_less : ServiceConfig → String → Progress → Node → Node → Bool
candidate_less service preferred st a b =
    let a_conflict = has_conflict service st.groups a.instance_id in
    let b_conflict = has_conflict service st.groups b.instance_id in
    if not (same a_conflict b_conflict)
    then not a_conflict
    else let a_preferred = a.instance_id == preferred in
      let b_preferred = b.instance_id == preferred in
      if not (same a_preferred b_preferred)
      then a_preferred
      else let free_a = sub64 a.capacity_vcpus (st.used_vcpu a.instance_id) in
        let free_b = sub64 b.capacity_vcpus (st.used_vcpu b.instance_id) in
        if not (eqb free_a free_b) then gt64 free_a free_b else str_lt a.instance_id b.instance_id

module _ (reservations : StorageReservations) (service : ServiceConfig) (bound : String)
    (st : Progress) where
  -- The tests on one candidate: `none` is `continue`.
  unfoldable pub try_node : Node → Option Fit
  try_node node =
      let id = node.instance_id in
      if not (bound == "") && not (id == bound)
      then none
      else if gt64 (add64 (st.used_vcpu id) service.vcpus) node.capacity_vcpus
          || gt64 (add64 (st.used_mem id) service.memory_mb) node.capacity_mem_mb
      then none
      else fit_storage service node reservations st.used_local st.used_shared

  -- The loop over the candidates, up to its `break`.
  unfoldable pub first_fit : List Node → Option (Node × Fit)
  first_fit [] = none
  first_fit (node ∷ nodes) = elim (try_node node) [
    | none ↦ first_fit nodes
    | some fit ↦ some (node, fit)
  ]

-- The sort of the candidates and the loop over them.
unfoldable pub choose :
    StorageReservations
    → ServiceConfig
    → String
    → String
    → Progress
    → List Node
    → Option (Node × Fit)
choose reservations service bound preferred st nodes =
    first_fit reservations service bound st
      (sort_stable (candidate_less service preferred st) nodes)

unfoldable pub leave : ServiceConfig → String → String → Progress → Progress
leave service reason message st = record st {
  pending =
      snoc st.pending (record { service = service.name; reason_code = reason; message = message });
}

-- The reason and the message where no candidate was chosen.
unfoldable pub unplaced_reason : List VolumeConfig → String × String
unplaced_reason [] = ("insufficient_compute_capacity", "no active node satisfies compute capacity")
unplaced_reason (_ ∷ _) =
    ("volume_capacity_unavailable", "no active node satisfies volume binding and capacity")

-- `chosen == ""`
unfoldable pub leave_unplaced : ServiceConfig → Progress → Progress
leave_unplaced service st =
    let (reason, message) = unplaced_reason service.volumes in leave service reason message st

-- The storage counters, which the loop over the candidates writes.
unfoldable pub reserve : Node → Fit → Progress → Progress
reserve node fit st = record st {
  used_local = add_at st.used_local node.instance_id fit.local_delta;
  used_shared =
      if node.shared_backend_id == ""
      then st.used_shared
      else add_at st.used_shared node.shared_backend_id fit.shared_delta;
}

-- The writes after the loop over the candidates.
unfoldable pub commit : ServiceConfig → String → ServiceConfig → Progress → Progress
commit service chosen chosen_service st = record st {
  result = append_at chosen chosen_service st.result;
  used_vcpu = add_at st.used_vcpu chosen service.vcpus;
  used_mem = add_at st.used_mem chosen service.memory_mb;
  groups = join_group service st.groups chosen;
}

unfoldable pub settle : ServiceConfig → Option (Node × Fit) → Progress → Progress
settle service none st = leave_unplaced service st
settle service (some (node, fit)) st =
    let st' = reserve node fit st in
    if node.instance_id == ""
    then leave_unplaced service st'
    else commit service node.instance_id fit.candidate st'

-- The order of the pending services in the answer.
unfoldable pub pending_less : Pending → Pending → Bool
pending_less a b = str_lt a.service b.service

module _ (nodes : List Node) (existing : Dict String) (reservations : StorageReservations) where
  -- From the sort of the candidates to the end of the loop's body.
  unfoldable pub place : ServiceConfig → String → String → Progress → Progress
  place service bound preferred st =
      settle service (choose reservations service bound preferred st nodes) st

  -- The body of the loop over the services.
  unfoldable pub schedule_one : Progress → ServiceConfig → Progress
  schedule_one st service =
      let (bound, split) = local_binding service in
      if split
      then leave service "local_volume_binding_conflict"
          "local volumes are retained on different nodes" st
      else if has_shared_volume service && not reservations.shared_enabled
      then leave service "shared_volume_runtime_unavailable"
          "shared volumes await durable supervisor and fencing validation" st
      else if bound == ""
      then place service bound (or_else (lookup service.name existing) "") st
      else if not (is_active nodes bound)
      then leave service "local_volume_node_unavailable"
          (str_append "bound node " (str_append bound " is unavailable")) st
      else place service bound bound st

  unfoldable pub run : Progress → List ServiceConfig → Progress
  run st [] = st
  run st (service ∷ services) = run (schedule_one st service) services

  unfoldable pub schedule_with_storage :
      List ServiceConfig → Dict (List ServiceConfig) × List Pending
  schedule_with_storage services =
      let st = run (start nodes) (sort_stable service_less services) in
      (st.result, sort_stable pending_less st.pending)
