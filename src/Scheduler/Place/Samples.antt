-- ===== src/Scheduler/Place/Samples.antt =====
-- Nodes and services on which the scheduler is run.
use firework.Base.{
  ◌↔◌, ℕ, String, ◌≡◌, ◌+◌, All, sum_by, eq_false, arith, refl, false, List, [], ◌∷◌, none, map,
}
use firework.Base.Dict.{items, total_by}
use firework.Config.{VolumeConfig, ServiceConfig, volume_type_local}
use firework.Base.Dict.{append_at, insert, lookup}
use firework.Base.Int64.{add64, sub64, lt64}
use firework.Base.Sort.{sort_stable, Pairwise}
use firework.Scheduler.{Node, StorageReservations, Pending, has_conflict, join_group}
use firework.Scheduler.Storage.{
  fit_storage, fit_volumes, fit_volume, charge, admits_storage, local_binding, binding_from,
  has_shared_volume, any_shared,
}
use firework.Scheduler.Place.{
  schedule_with_storage, run, start, service_less, pending_less, schedule_one, place, choose,
  settle, first_fit, try_node, candidate_less, leave, leave_unplaced, unplaced_reason, reserve,
  commit, empty_result, is_active,
}
use firework.Scheduler.Storage.{Fit}
use firework.Scheduler.Place.Capacity.{
  Distinct, IsSmallNode, IsSmallService, FitsNode, schedule_with_storage-FitsNode,
}
use firework.Scheduler.Place.Partition.{weigh, weigh_pending, schedule_with_storage-total}
use firework.Scheduler.Place.Binding.{IsPlacement, schedule_with_storage-IsPlacement}
use firework.Scheduler.Place.Shortage.{IsUnfit, choose_complete}

abbrev pub node : String → ℕ → ℕ → ℕ → Node
node id vcpus mem bytes = record {
  instance_id = id;
  capacity_vcpus = vcpus;
  capacity_mem_mb = mem;
  local_capacity_bytes = bytes;
  shared_backend_id = "";
  shared_capacity_bytes = 0;
}

abbrev pub service : String → ℕ → ℕ → String → List VolumeConfig → ServiceConfig
service name vcpus mem group volumes = record {
  name = name;
  image = "rootfs";
  kernel = "vmlinux";
  vcpus = vcpus;
  memory_mb = mem;
  kernel_args = "";
  network = none;
  health_check = none;
  port_forwards = [];
  env = [];
  links = [];
  metadata = [];
  anti_affinity_group = group;
  cross_node_links = [];
  node_host_ip_env = "";
  volumes = volumes;
}

abbrev pub local_volume : String → ℕ → String → VolumeConfig
local_volume name bytes bound = record {
  name = name;
  type = volume_type_local;
  mount_path = "/data";
  size_bytes = bytes;
  bound_node = bound;
  shared_backend_id = "";
  resize_generation = 1;
}

abbrev pub no_reservations : StorageReservations
no_reservations = record {
  local_by_node = λ id. 0;
  shared_by_backend = λ id. 0;
  recorded_logical_ids = λ id. false;
  shared_enabled = false;
}

abbrev pub two_nodes : List Node
two_nodes = node "i-1" 4 4096 100 ∷ node "i-2" 2 2048 0 ∷ []

abbrev pub web_and_db : List ServiceConfig
web_and_db =
    service "web-1" 1 512 "web" []
    ∷ service "web-2" 1 512 "web" []
    ∷ service "db" 2 1024 "" (local_volume "data" 60 "" ∷ [])
    ∷ service "logs" 1 512 "" (local_volume "data" 60 "" ∷ [])
    ∷ []

program : Unit {0}
unfolding schedule_with_storage run start service_less schedule_one place choose settle first_fit
    try_node candidate_less leave leave_unplaced unplaced_reason reserve commit empty_result
    is_active local_binding binding_from has_shared_volume any_shared fit_storage fit_volumes
    fit_volume charge admits_storage has_conflict join_group sort_stable pending_less lt64 sub64
    add64 append_at insert lookup
program = tt

placed_names :
    map
      (λ (s : ServiceConfig). s.name)
      (items (schedule_with_storage two_nodes [] no_reservations web_and_db).0 "i-1")
    ≡ "db" ∷ "web-1" ∷ []
unfolding program
placed_names = refl

pending_names :
    map
      (λ (p : Pending). p.service)
      (schedule_with_storage two_nodes [] no_reservations web_and_db).1
    ≡ "logs" ∷ []
unfolding program
pending_names = refl

two_nodes-Distinct : Pairwise Distinct two_nodes
two_nodes-Distinct = ((eq_false "i-1" "i-2" refl, tt), (tt, tt))

two_nodes-IsSmallNode : All IsSmallNode two_nodes
two_nodes-IsSmallNode = (
  record { cpu_small = omega arith; mem_small = omega arith },
  (record { cpu_small = omega arith; mem_small = omega arith }, tt),
)

web_and_db-IsSmallService : All IsSmallService web_and_db
web_and_db-IsSmallService = (
  record { vcpus_small = omega arith; memory_small = omega arith },
  (
    record { vcpus_small = omega arith; memory_small = omega arith },
    (
      record { vcpus_small = omega arith; memory_small = omega arith },
      (record { vcpus_small = omega arith; memory_small = omega arith }, tt),
    ),
  ),
)

schedule_with_storage-FitsNode_example :
    All (FitsNode (schedule_with_storage two_nodes [] no_reservations web_and_db).0) two_nodes
schedule_with_storage-FitsNode_example =
    schedule_with_storage-FitsNode two_nodes two_nodes-Distinct two_nodes-IsSmallNode []
      no_reservations web_and_db web_and_db-IsSmallService

abbrev pub one_each : String → ℕ
one_each name = 1

schedule_with_storage-total_example :
    total_by (weigh one_each) (schedule_with_storage two_nodes [] no_reservations web_and_db).0
      + sum_by
          (weigh_pending one_each)
          (schedule_with_storage two_nodes [] no_reservations web_and_db).1
    ≡ 4
schedule_with_storage-total_example =
    schedule_with_storage-total one_each two_nodes [] no_reservations web_and_db

abbrev pub AnyService : ServiceConfig → Type 0
AnyService s = Unit

schedule_with_storage-IsPlacement_example :
    All
      (IsPlacement AnyService "i-1")
      (items (schedule_with_storage two_nodes [] no_reservations web_and_db).0 "i-1")
schedule_with_storage-IsPlacement_example =
    schedule_with_storage-IsPlacement AnyService two_nodes [] no_reservations web_and_db "i-1"
      (tt, (tt, (tt, (tt, tt))))

abbrev pub web : ServiceConfig
web = service "web-1" 1 512 "web" []

abbrev pub on_first : Fit
on_first = record { candidate = web; local_delta = 0; shared_delta = 0 }

abbrev pub giant : ServiceConfig
giant = service "giant" 64 512 "" []

giant_small : IsSmallService giant
giant_small = record { vcpus_small = omega arith; memory_small = omega arith }

two_small : All IsSmallNode two_nodes
two_small = (
  record { cpu_small = omega arith; mem_small = omega arith },
  (record { cpu_small = omega arith; mem_small = omega arith }, tt),
)

choose_complete_example :
    (choose no_reservations giant "" "" (start two_nodes) two_nodes ≡ none)
    ↔ All (IsUnfit no_reservations giant "" (start two_nodes)) two_nodes
unfolding program
choose_complete_example =
    choose_complete no_reservations giant "" (start two_nodes) giant_small
      (λ id. (omega arith, omega arith)) "" two_nodes two_small
