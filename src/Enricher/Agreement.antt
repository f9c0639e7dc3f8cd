-- ===== src/Enricher/Agreement.antt =====
-- backendPort of internal/traefik/traefik.go and effectiveBackendPort of internal/enricher/validation.go,
-- which say of each other that they must agree.
use firework.Base.{ℕ, String, ◌≡◌, refl, Option, none, some, List, [], ◌∷◌}
use firework.Config.{PortForward, VolumeConfig}
use firework.Traefik.{backend_port, first_port, health_port}
use firework.Enricher.{ServiceSpec, HealthCheckSpec, GlobalDefaults}
use firework.Enricher.Defaults.{enrich_service, merge_health_check, build_health_check, built}
use firework.Enricher.Checks.{effective_backend_port, first_vm_port, positive_port}

first_port-first_vm_port :
    (forwards : List PortForward) (fallback : ℕ)
    → first_port forwards fallback ≡ first_vm_port forwards fallback
first_port-first_vm_port [] fallback = refl
first_port-first_vm_port (forward ∷ rest) fallback = refl

module _ (sum32 : String → ℕ) (parse_duration : String → Option ℕ)
    (sort_slice : List VolumeConfig → List VolumeConfig) where
  health_port-built :
      (hc : Option HealthCheckSpec)
      → health_port (built sum32 parse_duration sort_slice hc) ≡ positive_port hc
  unfolding build_health_check
  health_port-built none = refl
  health_port-built (some spec) = refl

  -- The port that an agent proxies to is the one that the validation of the input has looked at,
  -- whatever the service and the defaults are.
  pub backend_port-enrich_service :
      (spec : ServiceSpec) (defs : GlobalDefaults)
      → backend_port (enrich_service sum32 parse_duration sort_slice spec defs)
        ≡ effective_backend_port spec defs
  unfolding backend_port enrich_service effective_backend_port
  backend_port-enrich_service spec defs =
      rw (health_port-built (merge_health_check spec.health_check defs.health_check)) (
        first_port-first_vm_port spec.port_forwards
          (positive_port (merge_health_check spec.health_check defs.health_check)))
