-- ===== src/Enricher/Validation.antt =====
-- internal/enricher/validation.go: ValidateInput, ValidateOutput and CheckWarnings. No error is the empty list.
-- strings.ToLower is a parameter, as in Ingress.
use firework.Base.{
  ℕ, String, Bool, true, false, ◌&&◌, ◌||◌, not, ◌==◌, if◌then◌else◌, Option, none, some, List, [],
  ◌∷◌, ◌++◌, eqb, is_some, or_else, join_all,
}
use firework.Base.Int64.{gt64}
use firework.Base.Dict.{Dict, lookup, insert}
use firework.Config.{PortForward, VolumeConfig, ServiceConfig, NodeConfig}
use firework.Ingress.{is_subdomain, validate_host, metadata_host, metadata_subdomain}
use firework.Enricher.{ServiceSpec, HealthCheckSpec, GlobalDefaults, InputConfig}
use firework.Enricher.Checks.{
  InputError, empty_name, duplicate_name, missing_image, missing_node_type, bad_health_type,
  both_routes, bad_subdomain, bad_host, duplicate_subdomain, duplicate_host, no_network, no_backend,
  complain, validate_volume_defaults, validate_volumes, effective_backend_port,
}
pub mod Accepted

-- The host names met so far, with their services: subSeen and hostSeen.
pub record Seen : Type 0 where
  pub subdomains : Dict String
  pub hosts : Dict String

abbrev pub claim_subdomain : String → String → Option String → Seen → List InputError × Seen
claim_subdomain name sub (some other) seen = (duplicate_subdomain other name ∷ [], seen)
claim_subdomain name sub none seen =
    ([], record seen { subdomains = insert sub name seen.subdomains })

unfoldable pub check_subdomain : String → String → Seen → List InputError × Seen
check_subdomain name sub seen =
    if not (is_subdomain sub)
    then (bad_subdomain name ∷ [], seen)
    else claim_subdomain name sub (lookup sub seen.subdomains) seen

abbrev pub claim_host : String → String → Option String → Seen → List InputError × Seen
claim_host name h (some other) seen = (duplicate_host other name ∷ [], seen)
claim_host name h none seen = ([], record seen { hosts = insert h name seen.hosts })

abbrev pub check_host : String → Option String → Seen → List InputError × Seen
check_host name none seen = (bad_host name ∷ [], seen)
check_host name (some h) seen = claim_host name h (lookup h seen.hosts) seen

abbrev pub bad_health : Option HealthCheckSpec → Bool
bad_health none = false
bad_health (some hc) = not (hc.type == "http") && not (hc.type == "tcp")

-- The messages on one named service, given those on its routes.
unfoldable pub service_messages : Dict Bool → List InputError → ServiceSpec → List (List InputError)
service_messages names routing s =
    complain (or_else (lookup s.name names) false) (duplicate_name s.name)
    ∷ complain (s.image == "") (missing_image s.name)
    ∷ complain (s.node_type == "") (missing_node_type s.name)
    ∷ complain (bad_health s.health_check) (bad_health_type s.name)
    ∷ routing
    ∷ validate_volumes s
    ∷ []

module _ (to_lower : String → String) where
  -- The switch of validateRouting, on the host and the subdomain in the metadata.
  unfoldable pub check_names :
      String → Option String → Option String → Seen → List InputError × Seen
  unfolding check_subdomain
  check_names name host (some sub) seen = check_subdomain name sub seen
  check_names name (some host) none seen = check_host name (validate_host to_lower host) seen
  check_names name none none seen = ([], seen)

  unfoldable pub validate_routing : ServiceSpec → GlobalDefaults → Seen → List InputError × Seen
  unfolding check_names
  validate_routing s defs seen =
      let host = lookup metadata_host s.metadata in
      let sub = lookup metadata_subdomain s.metadata in
      let (errors, after) = check_names s.name host sub seen in
      let routed = is_some host || is_some sub in
      (
        join_all (
            complain (is_some host && is_some sub) (both_routes s.name)
            ∷ errors
            ∷ complain (routed && not s.network) (no_network s.name)
            ∷ complain (routed && eqb (effective_backend_port s defs) 0) (no_backend s.name)
            ∷ []),
        after,
      )

  -- The loop of ValidateInput over the services.
  unfoldable pub validate_services :
      GlobalDefaults → Dict Bool → Seen → List ServiceSpec → List InputError
  unfolding validate_routing service_messages
  validate_services defs names seen [] = []
  validate_services defs names seen (s ∷ services) =
      let (errors, after) = validate_routing s defs seen in
      let skipped = validate_services defs names seen services in
      let rest = validate_services defs (insert s.name true names) after services in
      if s.name == ""
      then empty_name ∷ skipped
      else join_all (service_messages names errors s) ++ rest

  unfoldable pub validate_input : InputConfig → List InputError
  unfolding validate_services
  validate_input input =
      validate_volume_defaults input.defaults.volume_defaults
      ++ validate_services input.defaults [] (record { subdomains = []; hosts = [] }) input.services

pub data OutputError : Type 0 where
  no_node_name unnamed_service : OutputError
  repeated_service no_image no_kernel zero_vcpus zero_memory : String → OutputError
  bad_size_bytes : String → String → OutputError

unfoldable pub check_sizes : String → List VolumeConfig → List OutputError
check_sizes svc [] = []
check_sizes svc (volume ∷ volumes) =
    complain (not (gt64 volume.size_bytes 0)) (bad_size_bytes svc volume.name)
    ++ check_sizes svc volumes

-- The messages on one named service.
unfoldable pub output_messages : Dict Bool → ServiceConfig → List (List OutputError)
unfolding check_sizes
output_messages names svc =
    complain (or_else (lookup svc.name names) false) (repeated_service svc.name)
    ∷ complain (svc.image == "") (no_image svc.name)
    ∷ complain (svc.kernel == "") (no_kernel svc.name)
    ∷ complain (eqb svc.vcpus 0) (zero_vcpus svc.name)
    ∷ complain (eqb svc.memory_mb 0) (zero_memory svc.name)
    ∷ check_sizes svc.name svc.volumes
    ∷ []

-- The loop of ValidateOutput over the services.
unfoldable pub check_output : Dict Bool → List ServiceConfig → List OutputError
unfolding output_messages
check_output names [] = []
check_output names (svc ∷ services) =
    let skipped = check_output names services in
    let rest = check_output (insert svc.name true names) services in
    if svc.name == ""
    then unnamed_service ∷ skipped
    else join_all (output_messages names svc) ++ rest

unfoldable pub validate_output : NodeConfig → List OutputError
unfolding check_output
validate_output nc = complain (nc.node == "") no_node_name ++ check_output [] nc.services

pub record Warn : Type 0 where
  pub code : String
  pub service : String

abbrev pub warn_health_check_without_network : String
warn_health_check_without_network = "health_check_without_network"

abbrev pub warn_remote_routing_no_host_port : String
warn_remote_routing_no_host_port = "remote_routing_no_host_port"

abbrev pub lacks_host_port : List PortForward → Bool
lacks_host_port [] = true
lacks_host_port (forward ∷ rest) = eqb forward.host_port 0

unfoldable pub check_warnings : List ServiceSpec → List Warn
check_warnings [] = []
check_warnings (svc ∷ services) =
    complain (is_some svc.health_check && not svc.network)
      (record { code = warn_health_check_without_network; service = svc.name })
    ++ complain
        ((is_some (lookup metadata_host svc.metadata)
            || is_some (lookup metadata_subdomain svc.metadata))
          && lacks_host_port svc.port_forwards)
        (record { code = warn_remote_routing_no_host_port; service = svc.name })
    ++ check_warnings services
