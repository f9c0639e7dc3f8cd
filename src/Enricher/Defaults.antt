-- ===== src/Enricher/Defaults.antt =====
-- internal/enricher/defaults.go: how the specification of a service is completed. time.ParseDuration
-- is a parameter, `none` for its error, with which it gives 0; so are the hash of FNV-1a
-- and sort.Slice.
use Prim.Native.Char.{Char}
use Prim.Native.String.{len, slice}
use firework.Base.{
  ℕ, zero, suc, ◌+◌, ◌-◌, ◌*◌, ◌/◌, ◌%◌, ◌^◌, String, str_append, Bool, true, false, ◌==◌,
  if◌then◌else◌, Option, none, some, List, [], ◌∷◌, map, eqb, leb, ltb, or_else, ◌⊎◌, inl, inr,
  str_lt,
}
use firework.Base.Decimal.{digit_char}
use firework.Config.{
  NetworkConfig, HealthCheckConfig, VolumeConfig, ServiceConfig, volume_type_local,
  volume_type_shared,
}
use firework.Config.Size.{SizeError, parse_volume_size}
use firework.Enricher.{ServiceSpec, VolumeSpec, HealthCheckSpec, VolumeDefaults, GlobalDefaults}
pub mod Interfaces

abbrev pub fallback_kernel : String
fallback_kernel = "/var/lib/images/vmlinux-5.10"

abbrev pub fallback_vcpus : ℕ
fallback_vcpus = 1

abbrev pub fallback_memory_mb : ℕ
fallback_memory_mb = 256

abbrev pub fallback_kernel_args : String
fallback_kernel_args = "console=ttyS0 reboot=k panic=1 pci=off init=/sbin/fc-init"

abbrev pub fallback_volume_size : String
fallback_volume_size = "10Gi"

abbrev pub fallback_interval : String
fallback_interval = "10s"

abbrev pub fallback_timeout : String
fallback_timeout = "5s"

abbrev pub fallback_retries : ℕ
fallback_retries = 3

unfoldable pub coalesce : List String → String
coalesce [] = ""
coalesce (v ∷ vs) = let rest = coalesce vs in if v == "" then rest else v

unfoldable pub coalesce_int : List ℕ → ℕ
coalesce_int [] = 0
coalesce_int (v ∷ vs) = let rest = coalesce_int vs in if eqb v 0 then rest else v

-- A field of the service over the one of the defaults.
abbrev pub over : String → String → String
over own default = if own == "" then default else own

abbrev pub over_int : ℕ → ℕ → ℕ
over_int own default = if eqb own 0 then default else own

unfoldable pub merge_health_check :
    Option HealthCheckSpec → Option HealthCheckSpec → Option HealthCheckSpec
merge_health_check none defs = defs
merge_health_check (some spec) none = some spec
merge_health_check (some spec) (some defs) = some (record {
  type = over spec.type defs.type;
  port = over_int spec.port defs.port;
  path = over spec.path defs.path;
  interval = over spec.interval defs.interval;
  timeout = over spec.timeout defs.timeout;
  retries = over_int spec.retries defs.retries;
})

-- The size that a volume asks for.
unfoldable pub volume_size : VolumeSpec → VolumeDefaults → String
volume_size spec defs =
    if spec.size == ""
    then (if spec.type == volume_type_local
        then coalesce (defs.local_size ∷ fallback_volume_size ∷ [])
        else if spec.type == volume_type_shared
        then coalesce (defs.shared_size ∷ fallback_volume_size ∷ [])
        else "")
    else spec.size

-- ParseVolumeSize gives 0 with its error.
abbrev pub bytes_or_zero : SizeError ⊎ ℕ → ℕ
bytes_or_zero (inl e) = 0
bytes_or_zero (inr bytes) = bytes

unfoldable pub resolve_volume : VolumeDefaults → VolumeSpec → VolumeConfig
resolve_volume defs spec = record {
  name = spec.name;
  type = spec.type;
  mount_path = spec.mount_path;
  size_bytes = bytes_or_zero (parse_volume_size (volume_size spec defs));
  bound_node = "";
  shared_backend_id = "";
  resize_generation = 0;
}

-- The verb %05x on a number below 2 ^ 20.
abbrev pub hex_char : ℕ → Char
hex_char d =
    if ltb d 10
    then digit_char d
    else if eqb d 10
    then "a"
    else if eqb d 11
    then "b"
    else if eqb d 12
    then "c"
    else if eqb d 13
    then "d"
    else if eqb d 14
    then "e"
    else "f"

unfoldable pub hex_digits : ℕ → ℕ → String → String
hex_digits zero n s = s
hex_digits (suc k) n s = hex_digits k (n / 16) (String.◌∷◌ (hex_char (n % 16)) s)

module _ (sum32 : String → ℕ) (parse_duration : String → Option ℕ)
    (sort_slice : List VolumeConfig → List VolumeConfig) where
  -- The cut is at six bytes: a character that it cuts is left out here.
  unfoldable pub tap_ifname : String → String
  tap_ifname service_name =
      if leb (len service_name) 11
      then str_append "tap-" service_name
      else str_append "tap-"
          (str_append (slice service_name 0 6) (hex_digits 5 (sum32 service_name % 2 ^ 20) ""))

  abbrev pub duration : String → String → ℕ
  duration value fallback = or_else (parse_duration (over value fallback)) 0

  unfoldable pub build_health_check : HealthCheckSpec → HealthCheckConfig
  build_health_check spec = record {
    type = spec.type;
    target = "";
    port = spec.port;
    path = spec.path;
    interval = duration spec.interval fallback_interval;
    timeout = duration spec.timeout fallback_timeout;
    retries = over_int spec.retries fallback_retries;
  }

  abbrev pub built : Option HealthCheckSpec → Option HealthCheckConfig
  built none = none
  built (some spec) = some (build_health_check spec)

  unfoldable pub resolve_volumes : List VolumeSpec → VolumeDefaults → List VolumeConfig
  resolve_volumes specs defs = sort_slice (map (resolve_volume defs) specs)

  abbrev pub network_of : ServiceSpec → Option NetworkConfig
  network_of spec =
      if spec.network
      then some (record {
        interface = tap_ifname spec.name;
        host_dev_name = "";
        guest_mac = "";
        guest_ip = "";
      })
      else none

  unfoldable pub enrich_service : ServiceSpec → GlobalDefaults → ServiceConfig
  enrich_service spec defs = record {
    name = spec.name;
    image = spec.image;
    kernel = coalesce (spec.kernel ∷ defs.kernel ∷ fallback_kernel ∷ []);
    vcpus = coalesce_int (spec.vcpus ∷ defs.vcpus ∷ fallback_vcpus ∷ []);
    memory_mb = coalesce_int (spec.memory_mb ∷ defs.memory_mb ∷ fallback_memory_mb ∷ []);
    kernel_args = coalesce (spec.kernel_args ∷ defs.kernel_args ∷ fallback_kernel_args ∷ []);
    network = network_of spec;
    health_check = built (merge_health_check spec.health_check defs.health_check);
    port_forwards = spec.port_forwards;
    env = spec.env;
    links = spec.links;
    metadata = spec.metadata;
    anti_affinity_group = spec.anti_affinity_group;
    cross_node_links = spec.cross_node_links;
    node_host_ip_env = spec.node_host_ip_env;
    volumes = resolve_volumes spec.volumes defs.volume_defaults;
  }
