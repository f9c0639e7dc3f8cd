-- ===== src/Traefik.antt =====
-- internal/traefik/traefik.go: the routing files that an agent renders for its own services and for
-- those of other nodes. The YAML printer is a parameter, as is sort.Slice; an error is `none`.
use firework.Base.{
  ℕ, String, str_append, Bool, true, false, ◌||◌, ◌==◌, if◌then◌else◌, ◌>>=◌, Option, none, some,
  List, [], ◌∷◌, eqb, is_some, or_else,
}
use firework.Base.Int64.{gt64}
use firework.Base.Dict.{Dict, lookup, insert}
use firework.Config.{NetworkConfig, PortForward, HealthCheckConfig, ServiceConfig, NodeConfig}
use firework.Ingress.{Resolved, no_route, refused, routed, resolve}
pub mod Render
pub mod Routes
pub mod Files
pub mod Samples

abbrev pub remote_file_prefix : String
remote_file_prefix = "remote-"

abbrev pub config_file_name : String → String
config_file_name service_name = str_append service_name ".yaml"

abbrev pub remote_config_file_name : String → String
remote_config_file_name service_name =
    str_append remote_file_prefix (str_append service_name ".yaml")

abbrev pub health_port : Option HealthCheckConfig → ℕ
health_port none = 0
health_port (some hc) = if gt64 hc.port 0 then hc.port else 0

abbrev pub first_port : List PortForward → ℕ → ℕ
first_port [] fallback = fallback
first_port (forward ∷ rest) fallback = forward.vm_port

unfoldable pub backend_port : ServiceConfig → ℕ
backend_port svc = first_port svc.port_forwards (health_port svc.health_check)

-- The address of a service on its node, empty where it has no network.
abbrev pub guest_ip : Option NetworkConfig → String
guest_ip none = ""
guest_ip (some network) = network.guest_ip

-- The first host port, 0 where there is none.
abbrev pub first_host_port : List PortForward → ℕ
first_host_port [] = 0
first_host_port (forward ∷ rest) = forward.host_port

-- The two maps that the renderers fill: files by their names, and who claimed a host name.
pub record Rendering (C : Type 0) : Type 0 where
  pub desired : Dict C
  pub owner : Dict String

-- A rendering with one more file.
abbrev pub with_file : {C : Type 0} → String → String → String → C → Rendering C → Rendering C
with_file file host identity content r = record {
  desired = insert file content r.desired;
  owner = insert host identity r.owner;
}

abbrev pub add_local_file :
    {C : Type 0} → ServiceConfig → String → Option C → Rendering C → Option (Rendering C)
add_local_file svc host none r = none
add_local_file svc host (some content) r =
    some
      (with_file (config_file_name svc.name) host (str_append "local service " svc.name) content r)

abbrev pub add_remote_file :
    {C : Type 0} → NodeConfig → ServiceConfig → String → Option C → Rendering C → Rendering C
add_remote_file nc svc host none r = r
add_remote_file nc svc host (some content) r =
    with_file (remote_config_file_name svc.name) host
      (str_append "remote service " (str_append svc.name (str_append " on node " nc.node))) content
      r

abbrev pub nothing_rendered : {C : Type 0} → Rendering C
nothing_rendered = record { desired = []; owner = [] }

module _ {C : Type 0} (to_lower : String → String)
    (marshal : String → String → String → ℕ → Option C)
    (sort_nodes : List NodeConfig → List NodeConfig)
    (sort_services : List ServiceConfig → List ServiceConfig) (ingress_domain : String) where
  -- One service of renderLocal, once its host is known.
  unfoldable pub claim_local : ServiceConfig → String → Rendering C → Option (Rendering C)
  claim_local svc host r =
      if guest_ip svc.network == ""
      then none
      else if eqb (backend_port svc) 0
      then none
      else if is_some (lookup host r.owner)
      then none
      else add_local_file svc host (marshal svc.name host (guest_ip svc.network) (backend_port svc))
          r

  abbrev pub render_local_service : ServiceConfig → Resolved → Rendering C → Option (Rendering C)
  render_local_service svc refused r = none
  render_local_service svc no_route r = some r
  render_local_service svc (routed host) r = claim_local svc host r

  unfoldable pub render_local : List ServiceConfig → Rendering C → Option (Rendering C)
  render_local [] r = some r
  render_local (svc ∷ rest) r = do
    r₁ ← render_local_service svc (resolve to_lower svc.metadata ingress_domain) r
    render_local rest r₁

  -- One service of renderRemote, once its host is known: what cannot be routed is skipped.
  unfoldable pub claim_remote : NodeConfig → ServiceConfig → String → Rendering C → Rendering C
  claim_remote nc svc host r =
      if nc.host_ip == ""
      then r
      else if eqb (first_host_port svc.port_forwards) 0
      then r
      else if is_some (lookup host r.owner)
      then r
      else if is_some (lookup (remote_config_file_name svc.name) r.desired)
      then r
      else add_remote_file nc svc host
          (marshal svc.name host nc.host_ip (first_host_port svc.port_forwards)) r

  abbrev pub render_remote_service :
      NodeConfig → ServiceConfig → Resolved → Rendering C → Rendering C
  render_remote_service nc svc refused r = r
  render_remote_service nc svc no_route r = r
  render_remote_service nc svc (routed host) r = claim_remote nc svc host r

  unfoldable pub render_services : NodeConfig → List ServiceConfig → Rendering C → Rendering C
  render_services nc [] r = r
  render_services nc (svc ∷ rest) r =
      render_services nc rest
        (render_remote_service nc svc (resolve to_lower svc.metadata ingress_domain) r)

  unfoldable pub render_nodes : List NodeConfig → Rendering C → Rendering C
  render_nodes [] r = r
  render_nodes (nc ∷ rest) r = render_nodes rest (render_services nc (sort_services nc.services) r)

  unfoldable pub render_remote : List NodeConfig → Rendering C → Rendering C
  render_remote remote_nodes r = render_nodes (sort_nodes remote_nodes) r

  -- What Sync renders, before it writes files.
  unfoldable pub render : List ServiceConfig → List NodeConfig → Option (Rendering C)
  render services remote_nodes = do
    r ← render_local services nothing_rendered
    some (render_remote remote_nodes r)
