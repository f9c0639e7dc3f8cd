-- ===== src/Enricher/Samples.antt =====
-- internal/enricher on an input with two services and one tenant.
use Prim.Native.String.{len}
use text.Mathlib.Text.{starts_with}
use firework.Base.{
  ◌≤◌, String, ◌≡◌, refl, true, false, none, some, List, [], ◌∷◌, inr, map, length, All, str_lt,
}
use firework.Base.Dict.{lookup, insert}
use firework.Base.Text.{trim_space}
use firework.Base.Decimal.{parse_int, has_suffix, trim_suffix}
use firework.Base.Int64.{lt64}
use firework.Base.Sort.{Pairwise, sort_stable}
use firework.Base.Paths.{clean_path, join_path, dir_path, base_path}
use firework.Config.Size.{parse_volume_size}
use firework.Ingress.{is_subdomain, matches_label}
use firework.Ingress.Samples.{same_text, web_metadata}
use firework.Traefik.{backend_port}
use firework.Enricher.{ServiceSpec, VolumeSpec, GlobalDefaults, InputConfig}
use firework.Enricher.Defaults.{enrich_service, tap_ifname, merge_health_check, hex_digits}
use firework.Enricher.Defaults.Interfaces.{tap_ifname-fits}
use firework.Enricher.Agreement.{backend_port-enrich_service}
use firework.Enricher.Checks.{
  validate_volumes, effective_backend_port, forbidden_volume_mount, overlaps, check_volume,
  check_volumes, validate_volume_defaults,
}
use firework.Enricher.Checks.Mounts.{IsMount, Apart, validate_volumes-Apart}
use firework.Enricher.Validation.{validate_input, check_subdomain, check_warnings}
use firework.Enricher.Tenants.{
  TenantOverride, TenantConfig, expand_tenants, merge, derive_tenant_image,
}
use firework.Enricher.Pipeline.{enrich, with_tenants, group_by_node_type}
use firework.Enricher.Pipeline.Total.{config_for, enrich-total}

abbrev disk : String → String → String → VolumeSpec
disk name path size = record {
  name = name;
  type = "local";
  mount_path = path;
  size = size;
  bound_node = "";
  shared_backend_id = "";
  size_bytes = 0;
  resize_generation = 0;
}

abbrev defaults : GlobalDefaults
defaults = record {
  kernel = "";
  vcpus = 0;
  memory_mb = 512;
  kernel_args = "";
  health_check =
      some (record {
        type = "http";
        port = 8080;
        path = "/";
        interval = "";
        timeout = "";
        retries = 0;
      });
  volume_defaults = record { local_size = "5Gi"; shared_size = "" };
}

abbrev web : ServiceSpec
web = record {
  name = "web";
  image = "/var/lib/images/web.ext4";
  kernel = "";
  vcpus = 2;
  memory_mb = 0;
  kernel_args = "";
  node_type = "general";
  network = true;
  port_forwards = [];
  health_check = none;
  env = [];
  links = [];
  metadata = web_metadata;
  anti_affinity_group = "";
  cross_node_links = [];
  node_host_ip_env = "";
  volumes = disk "data" "/data" "" ∷ disk "logs" "/logs" "512Mi" ∷ [];
}

abbrev no_override : TenantOverride
no_override = record {
  source_image = "";
  node_type = "";
  image = "";
  vcpus = 0;
  memory_mb = 0;
  kernel_args = "";
  network = false;
  port_forwards = [];
  health_check = none;
  links = [];
  env = [];
  metadata = [];
  anti_affinity_group = "";
  cross_node_links = [];
  node_host_ip_env = "";
  volumes = [];
}

-- A tenant with a name of its own for the routes of its copy.
abbrev tenants : List TenantConfig
tenants =
    record {
      id = "acme";
      services =
          record {
            base_name = "web";
            override = record no_override { metadata = ("subdomain", "acme") ∷ [] };
          }
          ∷ [];
    }
    ∷ []

abbrev input : InputConfig
input = record { services = web ∷ []; defaults = defaults }

expanded_names :
    map {B = String × String}
      (λ (s : ServiceSpec). (s.name, s.image))
      (with_tenants input.services tenants)
    ≡ ("web", "/var/lib/images/web.ext4") ∷ ("acme-web", "/var/lib/images/acme-web.ext4") ∷ []
unfolding expand_tenants lookup insert clean_path derive_tenant_image join_path dir_path base_path
expanded_names = refl

accepted :
    validate_input same_text (record input { services = with_tenants input.services tenants }) ≡ []
unfolding validate_input check_subdomain lookup insert expand_tenants validate_volume_defaults
    parse_volume_size has_suffix trim_space parse_int trim_suffix lt64 is_subdomain matches_label
    effective_backend_port merge_health_check validate_volumes check_volumes check_volume clean_path
    forbidden_volume_mount overlaps derive_tenant_image join_path dir_path base_path merge
accepted = refl

long_name : tap_ifname (λ s. 0xabcde) (λ s. none) (λ vs. vs) "tenant-3-data" ≡ "tap-tenantabcde"
unfolding tap_ifname hex_digits
long_name = refl

tap_ifname-fits_example :
    (len (tap_ifname (λ s. 0xabcde) (λ s. none) (λ vs. vs) "tenant-3-data") ≤ 15)
    × (starts_with (tap_ifname (λ s. 0xabcde) (λ s. none) (λ vs. vs) "tenant-3-data") "tap-" ≡ true)
tap_ifname-fits_example = tap_ifname-fits (λ s. 0xabcde) (λ s. none) (λ vs. vs) "tenant-3-data"

backend_port-enrich_service_example :
    backend_port (enrich_service (λ s. 0) (λ s. none) (λ vs. vs) web defaults)
    ≡ effective_backend_port web defaults
backend_port-enrich_service_example =
    backend_port-enrich_service (λ s. 0) (λ s. none) (λ vs. vs) web defaults

two_mounts : validate_volumes web ≡ []
unfolding validate_volumes check_volumes check_volume matches_label lookup clean_path
    forbidden_volume_mount overlaps insert parse_volume_size has_suffix trim_space parse_int
    trim_suffix lt64
two_mounts = refl

nested_mounts :
    length
      (validate_volumes (record web { volumes = disk "a" "/data" "" ∷ disk "b" "/data/b" "" ∷ [] }))
    ≡ 1
unfolding validate_volumes check_volumes check_volume matches_label lookup clean_path
    forbidden_volume_mount overlaps insert parse_volume_size has_suffix trim_space parse_int
    trim_suffix lt64
nested_mounts = refl

validate_volumes-Apart_example :
    (length web.volumes ≤ 25) × All IsMount web.volumes × Pairwise Apart web.volumes
validate_volumes-Apart_example = validate_volumes-Apart web two_mounts

enrich-total_example :
    enrich same_text (λ s. 0) (λ s. none) (λ vs. vs) input tenants
    ≡ inr (record {
      node_configs =
          map
            (config_for same_text
              (λ s. 0)
              (λ s. none)
              (λ vs. vs)
              input.defaults
              (with_tenants input.services tenants))
            (sort_stable str_lt
              (map (λ p. p.0) (group_by_node_type (with_tenants input.services tenants))));
      warnings = check_warnings (with_tenants input.services tenants);
    })
enrich-total_example =
    enrich-total same_text (λ s. 0) (λ s. none) (λ vs. vs) (λ P vs h. h) input tenants accepted
