-- ===== src/Enricher/Pipeline/Total.antt =====
-- internal/enricher: an input that passes ValidateInput is enriched; ValidateOutput finds nothing in it.
use firework.Base.{
  ℕ, String, Bool, true, false, ◌≡◌, refl, ◌==◌, Option, List, [], ◌∷◌, map, arith, if_ind, All,
  All-map, All-zip, filter_by, inr, str_lt, nil-join_all, eqb, join_all,
}
use firework.Base.Int64.{gt64}
use firework.Base.Dict.{Dict, lookup, insert, lookup-insert}
use firework.Base.Sort.{Pairwise, sort_stable}
use firework.Config.{VolumeConfig, NodeConfig}
use firework.Enricher.{ServiceSpec, VolumeSpec, VolumeDefaults, GlobalDefaults, InputConfig}
use firework.Enricher.Defaults.{
  enrich_service, resolve_volumes, resolve_volume, coalesce, coalesce_int, fallback_kernel,
  fallback_vcpus, fallback_memory_mb,
}
use firework.Enricher.Validation.{
  check_sizes, check_output, output_messages, validate_output, validate_input, check_warnings,
}
use firework.Enricher.Validation.Accepted.{IsGood, IsSized, IsFresh, Differ, validate_input-IsGood}
use firework.Enricher.Tenants.{TenantConfig}
use firework.Enricher.Pipeline.{
  with_tenants, group_by_node_type, enrich_group, enrich_groups, enrich,
}
use firework.Enricher.Pipeline.Groups.{
  has_type, IsNamed, items-group_by_node_type, node_types-IsNamed, All-filter_by,
  Pairwise-filter_by,
}

-- A fallback that is there is never missing from the result.
coalesce-filled : (a b c : String) → (c == "") ≡ false → (coalesce (a ∷ b ∷ c ∷ []) == "") ≡ false
unfolding coalesce
coalesce-filled a b c h =
    if_ind (λ s. (s == "") ≡ false) (a == "")
      (λ _.
        if_ind (λ s. (s == "") ≡ false) (b == "")
          (λ _.
            if_ind (λ s. (s == "") ≡ false) (c == "") (λ e. absurd (ground (arith, e, h))) (λ e. e))
          (λ e. e))
      (λ e. e)

coalesce_int-filled : (a b c : ℕ) → eqb c 0 ≡ false → eqb (coalesce_int (a ∷ b ∷ c ∷ [])) 0 ≡ false
unfolding coalesce_int
coalesce_int-filled a b c h = ground (arith, h)

abbrev IsPositive : VolumeConfig → Type 0
IsPositive volume = gt64 volume.size_bytes 0 ≡ true

check_sizes-nil :
    (svc : String) (volumes : List VolumeConfig)
    → All IsPositive volumes
    → check_sizes svc volumes ≡ []
unfolding check_sizes
check_sizes-nil svc [] h = refl
check_sizes-nil svc (volume ∷ volumes) (p, h) = rw (p, check_sizes-nil svc volumes h) refl

resolved-IsPositive :
    (defs : VolumeDefaults) (specs : List VolumeSpec)
    → All (IsSized defs) specs
    → All IsPositive (map (resolve_volume defs) specs)
resolved-IsPositive defs [] h = tt
resolved-IsPositive defs (spec ∷ specs) (p, h) = (p, resolved-IsPositive defs specs h)

IsFresh-before :
    (names : Dict Bool) (s t : ServiceSpec)
    → IsFresh names t
    → Differ s t
    → IsFresh (insert s.name true names) t
IsFresh-before names s t h d = rw (lookup-insert s.name t.name true names, d) h

module _ (to_lower : String → String) (sum32 : String → ℕ) (parse_duration : String → Option ℕ)
    (sort_slice : List VolumeConfig → List VolumeConfig) where
  -- What Enrich makes of the services of one node type.
  abbrev pub config_for : GlobalDefaults → List ServiceSpec → String → NodeConfig
  config_for defs services node_type =
      enrich_group to_lower sum32 parse_duration sort_slice defs node_type
        (filter_by (has_type node_type) services)

module _ (to_lower : String → String) (sum32 : String → ℕ) (parse_duration : String → Option ℕ)
    (sort_slice : List VolumeConfig → List VolumeConfig)
    (sort_keeps : (P : VolumeConfig → Type 0) (volumes : List VolumeConfig)
      → All P volumes
      → All P (sort_slice volumes)) where
  output_messages-nil :
      (defs : GlobalDefaults) (names : Dict Bool) (s : ServiceSpec)
      → IsGood defs s
      → IsFresh names s
      → join_all (output_messages names (enrich_service sum32 parse_duration sort_slice s defs))
        ≡ []
  unfolding output_messages enrich_service resolve_volumes
  output_messages-nil defs names s good fresh =
      nil-join_all (output_messages names (enrich_service sum32 parse_duration sort_slice s defs)) (
        rw fresh refl,
        (
          rw good.imaged refl,
          (
            rw (coalesce-filled s.kernel defs.kernel fallback_kernel refl) refl,
            (
              rw (coalesce_int-filled s.vcpus defs.vcpus fallback_vcpus refl) refl,
              (
                rw (coalesce_int-filled s.memory_mb defs.memory_mb fallback_memory_mb refl) refl,
                (
                  check_sizes-nil s.name
                      (sort_slice (map (resolve_volume defs.volume_defaults) s.volumes))
                      (sort_keeps IsPositive (map (resolve_volume defs.volume_defaults) s.volumes)
                        (resolved-IsPositive defs.volume_defaults s.volumes good.sized)),
                  tt,
                ),
              ),
            ),
          ),
        ),
      )

  check_output-nil :
      (defs : GlobalDefaults) (names : Dict Bool) (services : List ServiceSpec)
      → All (λ s. IsFresh names s × IsGood defs s) services
      → Pairwise Differ services
      → check_output names
          (map (λ s. enrich_service sum32 parse_duration sort_slice s defs) services)
        ≡ []
  unfolding check_output enrich_service
  check_output-nil defs names [] h k = refl
  check_output-nil defs names (s ∷ services) ((fresh, good), h) (d, k) =
      rw
        (
          good.named,
          output_messages-nil defs names s good fresh,
          check_output-nil defs (insert s.name true names) services
              (All-zip _ _ _ services (λ t (f, g) a. (IsFresh-before names s t f a, g)) h d) k,
        )
        refl

  validate_output-nil :
      (defs : GlobalDefaults) (node_type : String) (services : List ServiceSpec)
      → IsNamed node_type
      → All (IsGood defs) services
      → Pairwise Differ services
      → validate_output
          (enrich_group to_lower sum32 parse_duration sort_slice defs node_type services)
        ≡ []
  unfolding validate_output enrich_group lookup
  validate_output-nil defs node_type services n h k =
      rw (n, check_output-nil defs [] services (All-map _ _ services (λ s g. (refl, g)) h) k) refl

  enrich_groups-total :
      (defs : GlobalDefaults) (services : List ServiceSpec) (node_types : List String)
      → All (IsGood defs) services
      → Pairwise Differ services
      → All IsNamed node_types
      → enrich_groups to_lower sum32 parse_duration sort_slice defs
          (group_by_node_type services)
          node_types
        ≡ inr (map (config_for to_lower sum32 parse_duration sort_slice defs services) node_types)
  unfolding enrich_groups
  enrich_groups-total defs services [] h k n = refl
  enrich_groups-total defs services (node_type ∷ node_types) h k (n, ns) =
      rw
        (
          items-group_by_node_type services node_type,
          validate_output-nil defs node_type (filter_by (has_type node_type) services) n
              (All-filter_by (IsGood defs) (has_type node_type) services h)
              (Pairwise-filter_by Differ (has_type node_type) services k),
          enrich_groups-total defs services node_types h k ns,
        )
        refl

  -- sort.Slice keeps what holds of all items. Then an input that, with the services of the tenants,
  -- passes ValidateInput is enriched: there is a configuration for each node type, in order, with
  -- the completed services of that type, and ValidateOutput refuses none of them.
  pub enrich-total :
      (input : InputConfig) (tenants : List TenantConfig)
      → validate_input to_lower (record input { services = with_tenants input.services tenants })
        ≡ []
      → enrich to_lower sum32 parse_duration sort_slice input tenants
        ≡ inr (record {
          node_configs =
              map
                (config_for to_lower sum32 parse_duration sort_slice input.defaults
                  (with_tenants input.services tenants))
                (sort_stable str_lt
                  (map (λ p. p.0) (group_by_node_type (with_tenants input.services tenants))));
          warnings = check_warnings (with_tenants input.services tenants);
        })
  unfolding enrich
  enrich-total input tenants h =
      let services = with_tenants input.services tenants in
      let (goods, apart) =
        validate_input-IsGood to_lower (record input { services = services }) h in
      rw
        (
          h,
          enrich_groups-total input.defaults services
              (sort_stable str_lt (map (λ p. p.0) (group_by_node_type services))) goods apart
              (node_types-IsNamed services (All-map _ _ services (λ s g. g.typed) goods)),
        )
        refl
