-- ===== src/Enricher/Pipeline.antt =====
-- Enrich of internal/enricher/enricher.go, on the input and the tenants that were read.
use firework.Base.{
  String, Bool, ◌==◌, if◌then◌else◌, Option, none, some, List, [], ◌∷◌, ◌++◌, map, str_lt, ◌⊎◌, inl,
  inr, ℕ,
}
use firework.Base.Dict.{Dict, items, append_at}
use firework.Base.Sort.{sort_stable}
use firework.Config.{VolumeConfig, ServiceConfig, NodeConfig}
use firework.Enricher.{ServiceSpec, GlobalDefaults, InputConfig}
use firework.Enricher.Defaults.{enrich_service}
use firework.Enricher.Checks.{InputError}
use firework.Enricher.Validation.{
  OutputError, Warn, validate_input, validate_output, check_warnings,
}
use firework.Enricher.Tenants.{TenantConfig, expand_tenants}
pub mod Groups
pub mod Total

-- The two errors of the pipeline, with their messages.
pub data EnrichError : Type 0 where
  invalid_input : List InputError → EnrichError
  invalid_output : String → List OutputError → EnrichError

pub record Result : Type 0 where
  pub node_configs : List NodeConfig
  pub warnings : List Warn

abbrev pub group_from : List ServiceSpec → Dict (List ServiceSpec) → Dict (List ServiceSpec)
group_from [] groups = groups
group_from (svc ∷ services) groups = group_from services (append_at svc.node_type svc groups)

abbrev pub group_by_node_type : List ServiceSpec → Dict (List ServiceSpec)
group_by_node_type services = group_from services []

abbrev pub node_config : String → List ServiceConfig → NodeConfig
node_config node_type services = record {
  node = node_type;
  services = services;
  host_ip = "";
  desired_revision = "";
  placement_revision = "";
  rendered_revision = "";
}

-- The rest of the node types after one whose configuration has these errors.
abbrev pub collect :
    NodeConfig → List OutputError → EnrichError ⊎ List NodeConfig → EnrichError ⊎ List NodeConfig
collect nc (e ∷ es) rest = inl (invalid_output nc.node (e ∷ es))
collect nc [] (inl e) = inl e
collect nc [] (inr ncs) = inr (nc ∷ ncs)

abbrev pub with_tenants : List ServiceSpec → List TenantConfig → List ServiceSpec
with_tenants services [] = services
with_tenants services (tenant ∷ tenants) = services ++ expand_tenants services (tenant ∷ tenants)

abbrev pub finish : List Warn → EnrichError ⊎ List NodeConfig → EnrichError ⊎ Result
finish warnings (inl e) = inl e
finish warnings (inr ncs) = inr (record { node_configs = ncs; warnings = warnings })

module _ (to_lower : String → String) (sum32 : String → ℕ) (parse_duration : String → Option ℕ)
    (sort_slice : List VolumeConfig → List VolumeConfig) where
  unfoldable pub enrich_group : GlobalDefaults → String → List ServiceSpec → NodeConfig
  enrich_group defs node_type services =
      node_config node_type
        (map (λ spec. enrich_service sum32 parse_duration sort_slice spec defs) services)

  unfoldable pub enrich_groups :
      GlobalDefaults → Dict (List ServiceSpec) → List String → EnrichError ⊎ List NodeConfig
  unfolding enrich_group
  enrich_groups defs groups [] = inr []
  enrich_groups defs groups (node_type ∷ node_types) =
      let nc = enrich_group defs node_type (items groups node_type) in
      collect nc (validate_output nc) (enrich_groups defs groups node_types)

  abbrev pub enrich_valid : InputConfig → List InputError → EnrichError ⊎ Result
  enrich_valid input (e ∷ es) = inl (invalid_input (e ∷ es))
  enrich_valid input [] =
      let groups = group_by_node_type input.services in
      finish (check_warnings input.services)
        (enrich_groups input.defaults groups (sort_stable str_lt (map (λ p. p.0) groups)))

  unfoldable pub enrich : InputConfig → List TenantConfig → EnrichError ⊎ Result
  unfolding enrich_groups
  enrich input tenants =
      let full = record input { services = with_tenants input.services tenants } in
      enrich_valid full (validate_input to_lower full)
