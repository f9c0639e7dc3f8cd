-- ===== src/ControlPlane/Discovery.antt =====
-- internal/controlplane/controller.go: discoverActiveNodes and readExistingAssignment, on the records and the
-- placement that are read. A node record that is missing or cannot be read is `none`.
use firework.Base.{
  ℕ, String, Bool, true, false, ◌&&◌, ◌||◌, not, ◌==◌, if◌then◌else◌, Option, none, some, List, [],
  ◌∷◌, eqb, str_lt,
}
use firework.Base.Int64.{gt64, sub64}
use firework.Base.Dict.{Dict, insert}
use firework.Base.Sort.{sort_stable}
use firework.Config.{ServiceConfig, NodeConfig}
use firework.Scheduler.{Node}
use firework.ControlPlane.Registry.{NodeRecord, node_state_ready}
pub mod Live
pub mod Capacity

-- A node takes part when it is ready, was seen within the time to live, and has vCPUs and memory.
unfoldable pub takes_part : ℕ → ℕ → NodeRecord → Bool
takes_part now ttl rec =
    if not (rec.state == node_state_ready)
    then false
    else if eqb rec.last_seen_at 0 || gt64 (sub64 now rec.last_seen_at) ttl
    then false
    else gt64 rec.capacity.vcpus 0 && gt64 rec.capacity.memory_mb 0

abbrev pub node_of : NodeRecord → Node
node_of rec = record {
  instance_id = rec.node_id;
  capacity_vcpus = rec.capacity.vcpus;
  capacity_mem_mb = rec.capacity.memory_mb;
  local_capacity_bytes = rec.storage.local_capacity_bytes;
  shared_backend_id = rec.storage.shared_backend_id;
  shared_capacity_bytes = rec.storage.shared_capacity_bytes;
}

unfoldable pub active_nodes : ℕ → ℕ → List (Option NodeRecord) → List Node
active_nodes now ttl [] = []
active_nodes now ttl (none ∷ records) = active_nodes now ttl records
active_nodes now ttl (some rec ∷ records) =
    let rest = active_nodes now ttl records in
    if takes_part now ttl rec then node_of rec ∷ rest else rest

abbrev pub node_less : Node → Node → Bool
node_less a b = str_lt a.instance_id b.instance_id

unfoldable pub discover_active_nodes : ℕ → ℕ → List (Option NodeRecord) → List Node
unfolding active_nodes
discover_active_nodes now ttl records = sort_stable node_less (active_nodes now ttl records)

unfoldable pub host_ips : ℕ → ℕ → List (Option NodeRecord) → Dict String → Dict String
host_ips now ttl [] found = found
host_ips now ttl (none ∷ records) found = host_ips now ttl records found
host_ips now ttl (some rec ∷ records) found = host_ips now ttl records (
    if takes_part now ttl rec && not (rec.host_ip == "")
    then insert rec.node_id rec.host_ip found
    else found)

-- The node of each service in the last placement.
unfoldable pub assign_services : String → List ServiceConfig → Dict String → Dict String
assign_services node [] found = found
assign_services node (svc ∷ services) found =
    assign_services node services (insert svc.name node found)

unfoldable pub existing_assignment : List NodeConfig → Dict String → Dict String
unfolding assign_services
existing_assignment [] found = found
existing_assignment (nc ∷ ncs) found =
    existing_assignment ncs (assign_services nc.node nc.services found)
