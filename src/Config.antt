-- ===== src/Config.antt =====
-- internal/config/types.go: what the control plane schedules and the agents run. An integer is a
-- 64-bit pattern (Base.Int64); a nil slice or map is an empty one, a nil pointer is `none`.
use firework.Base.{ℕ, String, Option, List}
use firework.Base.Dict.{Dict}
pub mod Size

pub record NetworkConfig : Type 0 where
  pub interface : String
  pub host_dev_name : String
  pub guest_mac : String
  pub guest_ip : String

pub record PortForward : Type 0 where
  pub host_port : ℕ
  pub vm_port : ℕ

pub record HealthCheckConfig : Type 0 where
  pub type : String
  pub target : String
  pub port : ℕ
  pub path : String
  pub interval : ℕ
  pub timeout : ℕ
  pub retries : ℕ

-- `VolumeType` is a string with two legal values.
abbrev pub volume_type_local : String
volume_type_local = "local"

abbrev pub volume_type_shared : String
volume_type_shared = "shared"

pub record VolumeConfig : Type 0 where
  pub name : String
  pub type : String
  pub mount_path : String
  pub size_bytes : ℕ
  pub bound_node : String
  pub shared_backend_id : String
  pub resize_generation : ℕ

pub record CrossNodeLink : Type 0 where
  pub service : String
  pub env : String
  pub host_port : ℕ
  pub protocol : String

pub record ServiceLink : Type 0 where
  pub service : String
  pub env_var : String
  pub port : ℕ
  pub protocol : String

pub record ServiceConfig : Type 0 where
  pub name : String
  pub image : String
  pub kernel : String
  pub vcpus : ℕ
  pub memory_mb : ℕ
  pub kernel_args : String
  pub network : Option NetworkConfig
  pub health_check : Option HealthCheckConfig
  pub port_forwards : List PortForward
  pub env : Dict String
  pub links : List ServiceLink
  pub metadata : Dict String
  pub anti_affinity_group : String
  pub cross_node_links : List CrossNodeLink
  pub node_host_ip_env : String
  pub volumes : List VolumeConfig

pub record NodeConfig : Type 0 where
  pub node : String
  pub services : List ServiceConfig
  pub host_ip : String
  pub desired_revision : String
  pub placement_revision : String
  pub rendered_revision : String
