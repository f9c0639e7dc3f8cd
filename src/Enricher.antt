-- ===== src/Enricher.antt =====
-- internal/enricher/input.go: what the users write. A nil slice or map is an empty one, a nil pointer
-- is `none`; reading the YAML files is left out.
use firework.Base.{ℕ, String, Bool, Option, List}
use firework.Base.Dict.{Dict}
use firework.Config.{PortForward, ServiceLink, CrossNodeLink}
pub mod Defaults
pub mod Checks
pub mod Validation
pub mod Tenants
pub mod Pipeline
pub mod Agreement
pub mod Samples

pub record VolumeSpec : Type 0 where
  pub name : String
  pub type : String
  pub mount_path : String
  pub size : String
  pub bound_node : String
  pub shared_backend_id : String
  pub size_bytes : ℕ
  pub resize_generation : ℕ

pub record HealthCheckSpec : Type 0 where
  pub type : String
  pub port : ℕ
  pub path : String
  pub interval : String
  pub timeout : String
  pub retries : ℕ

pub record ServiceSpec : Type 0 where
  pub name : String
  pub image : String
  pub kernel : String
  pub vcpus : ℕ
  pub memory_mb : ℕ
  pub kernel_args : String
  pub node_type : String
  pub network : Bool
  pub port_forwards : List PortForward
  pub health_check : Option HealthCheckSpec
  pub env : Dict String
  pub links : List ServiceLink
  pub metadata : Dict String
  pub anti_affinity_group : String
  pub cross_node_links : List CrossNodeLink
  pub node_host_ip_env : String
  pub volumes : List VolumeSpec

pub record VolumeDefaults : Type 0 where
  pub local_size : String
  pub shared_size : String

pub record GlobalDefaults : Type 0 where
  pub kernel : String
  pub vcpus : ℕ
  pub memory_mb : ℕ
  pub kernel_args : String
  pub health_check : Option HealthCheckSpec
  pub volume_defaults : VolumeDefaults

pub record InputConfig : Type 0 where
  pub services : List ServiceSpec
  pub defaults : GlobalDefaults
