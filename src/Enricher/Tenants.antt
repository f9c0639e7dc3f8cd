-- ===== src/Enricher/Tenants.antt =====
-- internal/enricher/tenant.go: the services of the tenants, from their files. Reading the files is left out.
use firework.Base.{
  ℕ, String, str_append, Bool, ◌==◌, if◌then◌else◌, Option, none, some, List, [], ◌∷◌, ◌++◌, map,
  eqb,
}
use firework.Base.Dict.{Dict, lookup, insert}
use firework.Base.Paths.{dir_path, base_path, join_path}
use firework.Config.{PortForward, ServiceLink, CrossNodeLink}
use firework.Enricher.{ServiceSpec, HealthCheckSpec, VolumeSpec}

pub record TenantOverride : Type 0 where
  pub source_image : String
  pub node_type : String
  pub image : String
  pub vcpus : ℕ
  pub memory_mb : ℕ
  pub kernel_args : String
  pub network : Bool
  pub port_forwards : List PortForward
  pub health_check : Option HealthCheckSpec
  pub links : List ServiceLink
  pub env : Dict String
  pub metadata : Dict String
  pub anti_affinity_group : String
  pub cross_node_links : List CrossNodeLink
  pub node_host_ip_env : String
  pub volumes : List VolumeSpec

pub record TenantServiceFile : Type 0 where
  pub base_name : String
  pub override : TenantOverride

pub record TenantConfig : Type 0 where
  pub id : String
  pub services : List TenantServiceFile

abbrev pub tenant_name : String → String → String
tenant_name id name = str_append id (str_append "-" name)

abbrev pub tenant_link : String → ServiceLink → ServiceLink
tenant_link id link = record link { service = tenant_name id link.service }

abbrev pub tenant_cross_link : String → CrossNodeLink → CrossNodeLink
tenant_cross_link id link = record link { service = tenant_name id link.service }

unfoldable pub standalone_spec : String → TenantServiceFile → ServiceSpec
standalone_spec id tsf =
    let ov = tsf.override in
    record {
      name = tenant_name id tsf.base_name;
      image =
          if ov.image == ""
          then str_append "/var/lib/images/"
              (str_append id (str_append "-" (str_append tsf.base_name "-rootfs.ext4")))
          else ov.image;
      kernel = "";
      vcpus = ov.vcpus;
      memory_mb = ov.memory_mb;
      kernel_args = ov.kernel_args;
      node_type = ov.node_type;
      network = ov.network;
      port_forwards = ov.port_forwards;
      health_check = ov.health_check;
      env = ov.env;
      links = map (tenant_link id) ov.links;
      metadata = ov.metadata;
      anti_affinity_group = ov.anti_affinity_group;
      cross_node_links = map (tenant_cross_link id) ov.cross_node_links;
      node_host_ip_env = ov.node_host_ip_env;
      volumes = ov.volumes;
    }

unfoldable pub derive_tenant_image : String → String → String
derive_tenant_image base_image id =
    join_path (dir_path base_image) (tenant_name id (base_path base_image))

-- The entries of the second map written into the first.
unfoldable pub merge : Dict String → Dict String → Dict String
merge base [] = base
merge base ((key, value) ∷ rest) = merge (insert key value base) rest

abbrev pub or_own {ℓ} : {A : Type ℓ} → List A → List A → List A
or_own own [] = own
or_own own (x ∷ xs) = x ∷ xs

abbrev pub or_option {ℓ} : {A : Type ℓ} → Option A → Option A → Option A
or_option own none = own
or_option own (some a) = some a

-- A clone of the base service with what the override sets; what it does not set is inherited.
unfoldable pub override_spec : String → ServiceSpec → TenantOverride → ServiceSpec
override_spec id base ov = record base {
  name = tenant_name id base.name;
  image = derive_tenant_image base.image id;
  vcpus = if eqb ov.vcpus 0 then base.vcpus else ov.vcpus;
  memory_mb = if eqb ov.memory_mb 0 then base.memory_mb else ov.memory_mb;
  kernel_args = if ov.kernel_args == "" then base.kernel_args else ov.kernel_args;
  health_check = or_option base.health_check ov.health_check;
  env = merge base.env ov.env;
  metadata = merge base.metadata ov.metadata;
  port_forwards = or_own base.port_forwards ov.port_forwards;
  volumes = or_own base.volumes ov.volumes;
  links = map (tenant_link id) base.links;
}

-- One file of a tenant: none of a service that is neither a base service nor complete.
unfoldable pub expand_file : String → TenantServiceFile → Option ServiceSpec → List ServiceSpec
unfolding override_spec standalone_spec
expand_file id tsf (some base) = override_spec id base tsf.override ∷ []
expand_file id tsf none = if tsf.override.node_type == "" then [] else standalone_spec id tsf ∷ []

abbrev pub by_name : List ServiceSpec → Dict ServiceSpec → Dict ServiceSpec
by_name [] found = found
by_name (svc ∷ services) found = by_name services (insert svc.name svc found)

unfoldable pub expand_tenant : Dict ServiceSpec → String → List TenantServiceFile → List ServiceSpec
unfolding expand_file
expand_tenant base id [] = []
expand_tenant base id (tsf ∷ files) =
    expand_file id tsf (lookup tsf.base_name base) ++ expand_tenant base id files

unfoldable pub expand_all : Dict ServiceSpec → List TenantConfig → List ServiceSpec
unfolding expand_tenant
expand_all base [] = []
expand_all base (tenant ∷ tenants) =
    expand_tenant base tenant.id tenant.services ++ expand_all base tenants

unfoldable pub expand_tenants : List ServiceSpec → List TenantConfig → List ServiceSpec
unfolding expand_all
expand_tenants base tenants = expand_all (by_name base []) tenants
