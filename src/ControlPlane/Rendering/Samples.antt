-- ===== src/ControlPlane/Rendering/Samples.antt =====
-- internal/controlplane/controller.go on two nodes of which one went silent.
use firework.ControlPlane.CrossNode.{printed_int}
use firework.Base.{
  ℕ, String, true, false, ◌≡◌, refl, Option, none, some, List, [], ◌∷◌, All, arith, sum_by,
  eq_false,
}
use firework.Base.Int64.{lt64, sub64}
use firework.Base.Decimal.{decimal}
use firework.Base.Dict.{Dict, lookup, insert}
use firework.Base.Sort.{Pairwise, sort_stable}
use firework.Config.{NodeConfig, ServiceConfig, CrossNodeLink}
use firework.Scheduler.{Node}
use firework.Scheduler.Place.{schedule_with_storage}
use firework.Scheduler.Place.Capacity.{IsSmallService}
use firework.Scheduler.Place.Samples.{service, no_reservations}
use firework.ControlPlane.Registry.{NodeRecord}
use firework.ControlPlane.Rendering.{
  Objects, stored, unacknowledged, Weather, PlacementRevision, pointer, publish_placement,
  publish_rendered, rendered_current, legacy_node, write_configs, clean_legacy, put_object,
  same_key, is_kept,
}
use firework.ControlPlane.Rendering.Placement.{Placed, publish_placement-Placed}
use firework.ControlPlane.Rendering.Order.{Rendered, publish_rendered-Rendered}
use firework.ControlPlane.Registry.{
  NodeHeartbeatRequest, heartbeat, beat, apply_heartbeat_agent_status,
}
use firework.ControlPlane.Discovery.Live.{
  weigh_record, IsSmallRecord, discover_active_nodes-total, heartbeat-takes_part,
}
use firework.ControlPlane.Discovery.Capacity.{RecordsDiffer, IsServed, discovered-IsServed}
use firework.ControlPlane.Discovery.{discover_active_nodes, takes_part, active_nodes}
use firework.ControlPlane.CrossNode.{set_links}
use firework.ControlPlane.CrossNode.Addresses.{addresses, linked, set_links-addresses}

abbrev node_config : String → NodeConfig
node_config name = record {
  node = name;
  services = [];
  host_ip = "";
  desired_revision = "";
  placement_revision = "";
  rendered_revision = "r2";
}

abbrev printed : NodeConfig → Option String
printed nc = some nc.node

-- The answer to the write of the pointer is lost.
abbrev stormy : Weather
stormy = record {
  written = λ k. elim (same_key k rendered_current) [ true ↦ unacknowledged | false ↦ stored ];
  deleted = λ k. stored;
  listed = some (legacy_node "n1" ∷ legacy_node "n9" ∷ []);
}

abbrev nothing : Objects
nothing k = none

abbrev two_configs : List NodeConfig
two_configs = node_config "n1" ∷ node_config "n2" ∷ []

pointer_moved :
    (publish_rendered printed stormy true "r2" two_configs nothing).0 rendered_current
    ≡ some (pointer "r2")
unfolding publish_rendered write_configs clean_legacy put_object same_key is_kept
pointer_moved = refl

publish_rendered-Rendered_example :
    Rendered printed "r2" two_configs nothing
      (publish_rendered printed stormy true "r2" two_configs nothing)
publish_rendered-Rendered_example =
    publish_rendered-Rendered printed stormy "r2" nothing true two_configs ((refl, tt), (tt, tt))

abbrev new_placement : PlacementRevision
new_placement = record {
  revision = "p2";
  desired_revision = "d1";
  leader_epoch = 3;
  created_at = 100;
  node_configs = two_configs;
  pending_services = [];
}

publish_placement-Placed_example :
    Placed new_placement nothing (publish_placement stormy true new_placement nothing)
publish_placement-Placed_example = publish_placement-Placed new_placement nothing stormy true

abbrev node_record : String → ℕ → NodeRecord
node_record id seen = record {
  node_id = id;
  generation = 1;
  state = "ready";
  labels = [];
  capacity = record { vcpus = 4; memory_mb = 2048 };
  used = record { vcpus = 0; memory_mb = 0 };
  host_ip = "10.0.0.1";
  registered_at = 1;
  last_seen_at = seen;
  updated_at = seen;
  agent_status = none;
  storage = record { local_capacity_bytes = 0; shared_backend_id = ""; shared_capacity_bytes = 0 };
}

abbrev records : List (Option NodeRecord)
records = some (node_record "n1" 90) ∷ none ∷ some (node_record "n2" 10) ∷ []

silent_node_left_out : sum_by (λ (n : Node). 1) (discover_active_nodes 100 30 records) ≡ 1
unfolding discover_active_nodes sort_stable active_nodes takes_part lt64 sub64
silent_node_left_out = refl

records_small : All IsSmallRecord records
unfolding IsSmallRecord
records_small =
    ((omega arith, omega arith, omega arith), (tt, ((omega arith, omega arith, omega arith), tt)))

discover_active_nodes-total_example :
    sum_by (λ (n : Node). n.capacity_vcpus) (discover_active_nodes 100 30 records)
    ≡ sum_by (weigh_record 100 30 (λ (n : Node). n.capacity_vcpus)) records
discover_active_nodes-total_example =
    discover_active_nodes-total 100 30 (omega arith) (omega arith) (λ (n : Node). n.capacity_vcpus)
      records records_small

abbrev jobs : List ServiceConfig
jobs = service "a" 2 512 "" [] ∷ service "b" 3 512 "" [] ∷ []

jobs_small : All IsSmallService jobs
jobs_small = (
  record { vcpus_small = omega arith; memory_small = omega arith },
  (record { vcpus_small = omega arith; memory_small = omega arith }, tt),
)

records_differ : Pairwise RecordsDiffer records
unfolding RecordsDiffer
records_differ = ((tt, (eq_false "n1" "n2" refl, tt)), ((tt, tt), (tt, tt)))

discovered-IsServed_example :
    All
      (IsServed 100 30
        (schedule_with_storage (discover_active_nodes 100 30 records) [] no_reservations jobs).0)
      records
discovered-IsServed_example =
    discovered-IsServed 100 30 (omega arith) (omega arith) [] no_reservations records jobs
      records_differ records_small jobs_small

-- "n2" is heard of again.
abbrev woken : NodeRecord
woken = record (node_record "n2" 95) { registered_at = 1 }

abbrev second_heartbeat : NodeHeartbeatRequest
second_heartbeat = record {
  node_id = "n2";
  generation = 1;
  capacity = record { vcpus = 0; memory_mb = 0 };
  used = record { vcpus = 0; memory_mb = 0 };
  host_ip = "";
  agent_status = none;
  storage = record { local_capacity_bytes = 0; shared_backend_id = ""; shared_capacity_bytes = 0 };
}

heartbeat-takes_part_example : takes_part 100 30 woken ≡ true
unfolding heartbeat beat apply_heartbeat_agent_status lt64
heartbeat-takes_part_example =
    heartbeat-takes_part (λ t. t) 95 100 30 (node_record "n2" 10) woken second_heartbeat refl
      (omega arith) (omega arith) (omega arith) (omega arith) (omega arith) (omega arith)
      (omega arith) (omega arith)

abbrev seed : String → CrossNodeLink
seed name = record { service = name; env = "SEEDS"; host_port = 9300; protocol = "" }

abbrev known_ips : Dict String
known_ips = ("es-1", "10.0.0.1") ∷ ("es-2", "10.0.0.2") ∷ []

two_seeds :
    lookup "SEEDS" (set_links known_ips (seed "es-1" ∷ seed "gone" ∷ seed "es-2" ∷ []) ([], [])).0
    ≡ some "10.0.0.1:9300,10.0.0.2:9300"
unfolding set_links lookup insert decimal printed_int lt64
two_seeds = refl

set_links-addresses_example :
    lookup "SEEDS"
      (set_links known_ips (seed "es-1" ∷ seed "es-2" ∷ []) (("SEEDS", "x") ∷ [], [])).0
    ≡ linked
        (lookup "SEEDS" (("SEEDS", "x") ∷ []))
        false
        (addresses known_ips "SEEDS" (seed "es-1" ∷ seed "es-2" ∷ []))
set_links-addresses_example =
    set_links-addresses known_ips "SEEDS" (seed "es-1" ∷ seed "es-2" ∷ []) (("SEEDS", "x") ∷ [])
