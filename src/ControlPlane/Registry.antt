-- ===== src/ControlPlane/Registry.antt =====
-- internal/controlplane/registry.go, and the types of state.go: the records of nodes and the changes
-- that the registry's handlers make to them. A time is a number of nanoseconds, 0 the zero time.
-- BoundedMessage (internal/statusmodel) is a parameter: it shortens and cleans a text.
pub mod Handlers
pub mod Generations
use firework.Base.{
  ℕ, String, Bool, true, false, ◌&&◌, ◌||◌, not, ◌==◌, if◌then◌else◌, Option, none, some, List, [],
  map, eqb,
}
use firework.Base.Int64.{lt64, gt64}
use firework.ControlPlane.Upsert.{Mutation, keep, refuse}

-- NodeState is a string with three legal values.
abbrev pub node_state_ready : String
node_state_ready = "ready"

abbrev pub node_state_draining : String
node_state_draining = "draining"

abbrev pub node_state_down : String
node_state_down = "down"

pub record Resources : Type 0 where
  pub vcpus : ℕ
  pub memory_mb : ℕ

pub record StorageResources : Type 0 where
  pub local_capacity_bytes : ℕ
  pub shared_backend_id : String
  pub shared_capacity_bytes : ℕ

-- The types of internal/statusmodel.
pub record Condition : Type 0 where
  pub type : String
  pub status : String
  pub reason_code : String
  pub message : String
  pub last_transition_at : ℕ

pub record VolumeStatus : Type 0 where
  pub logical_id : String
  pub type : String
  pub mount_path : String
  pub bound_node : String
  pub shared_backend_id : String
  pub desired_size_bytes : ℕ
  pub applied_size_bytes : ℕ
  pub resize_generation : ℕ
  pub state : String
  pub last_error : String

pub record ServiceStatus : Type 0 where
  pub name : String
  pub vm_state : String
  pub pid : ℕ
  pub network_address : String
  pub health : String
  pub health_check_type : String
  pub health_last_checked_at : ℕ
  pub health_failures : ℕ
  pub restart_count : ℕ
  pub last_transition_at : ℕ
  pub reason_code : String
  pub message : String
  pub volumes : List VolumeStatus

pub record AgentStatus : Type 0 where
  pub schema_version : ℕ
  pub agent_version : String
  pub node_id : String
  pub observed_at : ℕ
  pub phase : String
  pub desired_revision : String
  pub placement_revision : String
  pub observed_revision : String
  pub applied_revision : String
  pub last_applied_at : ℕ
  pub desired_services : ℕ
  pub ready_services : ℕ
  pub reason_code : String
  pub message : String
  pub conditions : List Condition
  pub services : List ServiceStatus

pub record NodeRecord : Type 0 where
  pub node_id : String
  pub generation : ℕ
  pub state : String
  pub labels : List String
  pub capacity : Resources
  pub used : Resources
  pub host_ip : String
  pub registered_at : ℕ
  pub last_seen_at : ℕ
  pub updated_at : ℕ
  pub agent_status : Option AgentStatus
  pub storage : StorageResources

pub record NodeRegisterRequest : Type 0 where
  pub node_id : String
  pub generation : ℕ
  pub labels : List String
  pub capacity : Resources
  pub state : String
  pub host_ip : String
  pub storage : StorageResources

pub record NodeHeartbeatRequest : Type 0 where
  pub node_id : String
  pub generation : ℕ
  pub capacity : Resources
  pub used : Resources
  pub host_ip : String
  pub agent_status : Option AgentStatus
  pub storage : StorageResources

-- Why a mutator gives up.
pub data Refusal : Type 0 where
  stale_generation : Refusal
  missing_schema_version : Refusal
  status_of_other_node : Refusal

abbrev pub no_resources : Resources
no_resources = record { vcpus = 0; memory_mb = 0 }

-- NodeRecord{NodeID: nodeID}
abbrev pub new_record : String → NodeRecord
new_record node_id = record {
  node_id = node_id;
  generation = 0;
  state = "";
  labels = [];
  capacity = no_resources;
  used = no_resources;
  host_ip = "";
  registered_at = 0;
  last_seen_at = 0;
  updated_at = 0;
  agent_status = none;
  storage = record { local_capacity_bytes = 0; shared_backend_id = ""; shared_capacity_bytes = 0 };
}

-- The mutator of handleRegister.
unfoldable pub register : NodeRegisterRequest → ℕ → NodeRecord → Mutation Refusal NodeRecord
register req now cur =
    let changed = gt64 req.generation cur.generation in
    if gt64 cur.generation req.generation
    then refuse stale_generation
    else keep (record {
      node_id = req.node_id;
      generation = req.generation;
      state = if req.state == "" then node_state_ready else req.state;
      labels = req.labels;
      capacity = req.capacity;
      used = if changed then no_resources else cur.used;
      host_ip = req.host_ip;
      registered_at = if eqb cur.registered_at 0 || changed then now else cur.registered_at;
      last_seen_at = now;
      updated_at = now;
      agent_status = if changed then none else cur.agent_status;
      storage = req.storage;
    })

module _ (bounded_message : String → String) where
  unfoldable pub bound_condition : Condition → Condition
  bound_condition c = record c { message = bounded_message c.message }

  unfoldable pub bound_service : ServiceStatus → ServiceStatus
  bound_service s = record s { message = bounded_message s.message }

  -- applyHeartbeatAgentStatus: the status that the record gets.
  unfoldable pub apply_heartbeat_agent_status :
      String → Option AgentStatus → Mutation Refusal (Option AgentStatus)
  apply_heartbeat_agent_status node_id none = keep none
  apply_heartbeat_agent_status node_id (some incoming) =
      if not (gt64 incoming.schema_version 0)
      then refuse missing_schema_version
      else if not (incoming.node_id == "") && not (incoming.node_id == node_id)
      then refuse status_of_other_node
      else keep (
          some (record incoming {
            message = bounded_message incoming.message;
            conditions = map bound_condition incoming.conditions;
            services = map bound_service incoming.services;
          }))

  -- The record after a heartbeat with this agent status.
  unfoldable pub beat : NodeHeartbeatRequest → ℕ → NodeRecord → Option AgentStatus → NodeRecord
  beat req now cur status = record {
    node_id = req.node_id;
    generation = req.generation;
    state = if cur.state == "" then node_state_ready else cur.state;
    labels = cur.labels;
    capacity = record {
      vcpus = if gt64 req.capacity.vcpus 0 then req.capacity.vcpus else cur.capacity.vcpus;
      memory_mb =
          if gt64 req.capacity.memory_mb 0 then req.capacity.memory_mb else cur.capacity.memory_mb;
    };
    used = req.used;
    host_ip = if req.host_ip == "" then cur.host_ip else req.host_ip;
    registered_at = if eqb cur.registered_at 0 then now else cur.registered_at;
    last_seen_at = now;
    updated_at = now;
    agent_status = status;
    storage = req.storage;
  }

  -- The mutator of handleHeartbeat.
  unfoldable pub heartbeat : NodeHeartbeatRequest → ℕ → NodeRecord → Mutation Refusal NodeRecord
  heartbeat req now cur =
      if gt64 cur.generation req.generation
      then refuse stale_generation
      else elim (apply_heartbeat_agent_status req.node_id req.agent_status) [
        | refuse e ↦ refuse e
        | keep status ↦ keep (beat req now cur status)
      ]

-- The mutator of handleState.
unfoldable pub set_state : String → String → ℕ → NodeRecord → Mutation Refusal NodeRecord
set_state node_id state now cur = keep (record cur {
  node_id = node_id;
  generation = if eqb cur.generation 0 then now else cur.generation;
  registered_at = if eqb cur.registered_at 0 then now else cur.registered_at;
  state = state;
  last_seen_at = now;
  updated_at = now;
})
