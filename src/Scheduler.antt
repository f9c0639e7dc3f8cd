-- ===== src/Scheduler.antt =====
-- internal/scheduler/scheduler.go: the placement of services on nodes. This file has its data and
-- what the entry points share; `Storage` is the fit of a service's volumes, `Place` is
-- ScheduleWithStorage, `Legacy` is Schedule and BuildNodeConfigs.
pub mod Storage
pub mod Place
pub mod Legacy
use firework.Base.{ℕ, String, Bool, true, false, ◌&&◌, not, ◌==◌, if◌then◌else◌}
use firework.Base.Dict.{update}
use firework.Base.Int64.{add64}
use firework.Config.{ServiceConfig}

pub record Node : Type 0 where
  pub instance_id : String
  pub capacity_vcpus : ℕ
  pub capacity_mem_mb : ℕ
  pub local_capacity_bytes : ℕ
  pub shared_backend_id : String
  pub shared_capacity_bytes : ℕ

-- The maps of the source are read by key only.
pub record StorageReservations : Type 0 where
  pub local_by_node : String → ℕ
  pub shared_by_backend : String → ℕ
  pub recorded_logical_ids : String → Bool
  pub shared_enabled : Bool

pub record Pending : Type 0 where
  pub service : String
  pub reason_code : String
  pub message : String

-- counters[k] += d
abbrev pub add_at : (String → ℕ) → String → ℕ → String → ℕ
add_at f k d = update f k (add64 (f k) d)

-- groups[node][group]
abbrev pub Groups : Type 0
Groups = String → String → Bool

abbrev pub no_groups : Groups
no_groups node group = false

-- svc.AntiAffinityGroup != "" && nodeGroups[id][svc.AntiAffinityGroup]
unfoldable pub has_conflict : ServiceConfig → Groups → String → Bool
has_conflict svc groups id =
    not (svc.anti_affinity_group == "") && groups id svc.anti_affinity_group

-- if svc.AntiAffinityGroup != "" { nodeGroups[id][svc.AntiAffinityGroup] = true }
unfoldable pub join_group : ServiceConfig → Groups → String → Groups
join_group svc groups id =
    if svc.anti_affinity_group == ""
    then groups
    else update groups id (update (groups id) svc.anti_affinity_group true)
