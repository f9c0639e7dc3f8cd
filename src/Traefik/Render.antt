-- ===== src/Traefik/Render.antt =====
-- internal/traefik/traefik.go: what every new route keeps, the renderers keep.
use firework.Base.{
  ℕ, String, str_append, true, false, ◌≡◌, refl, subst, ◌==◌, Option, none, some, List, [], ◌∷◌,
  eqb, is_some, if_ind, Option-cases, inl, inr,
}
use firework.Base.Dict.{lookup}
use firework.Config.{ServiceConfig, NodeConfig}
use firework.Ingress.{Resolved, no_route, refused, routed, resolve}
use firework.Ingress.Names.{IsLegal, is_host_name, resolve-IsLegal}
use firework.Traefik.{
  Rendering, config_file_name, remote_config_file_name, backend_port, guest_ip, first_host_port,
  with_file, add_local_file, claim_local, render_local_service, render_local, add_remote_file,
  claim_remote, render_remote_service, render_services, render_nodes, render_remote,
}

-- What holds of a rendering, if there is one.
unfoldable pub Ends : {C : Type 0} → (Rendering C → Type 0) → Option (Rendering C) → Type 0
Ends P none = Unit
Ends P (some r) = P r

-- What adding a route must keep: the host is legal and free, and for a remote route so is the file.
abbrev pub AddsLocal : {C : Type 0} → (C → String) → (Rendering C → Type 0) → Type 0
AddsLocal {C} host_of P =
    (file host identity : String) (c : C) (r : Rendering C)
    → is_host_name host ≡ true
    → host_of c ≡ host
    → is_some (lookup host r.owner) ≡ false
    → P r
    → P (with_file file host identity c r)

abbrev pub AddsRemote : {C : Type 0} → (C → String) → (Rendering C → Type 0) → Type 0
AddsRemote {C} host_of P =
    (file host identity : String) (c : C) (r : Rendering C)
    → is_host_name host ≡ true
    → host_of c ≡ host
    → is_some (lookup host r.owner) ≡ false
    → is_some (lookup file r.desired) ≡ false
    → P r
    → P (with_file file host identity c r)

module _ {C : Type 0} (host_of : C → String) (to_lower : String → String)
    (marshal : String → String → String → ℕ → Option C)
    (sort_nodes : List NodeConfig → List NodeConfig)
    (sort_services : List ServiceConfig → List ServiceConfig) (ingress_domain : String)
    (marshal_host : (name host address : String) (port : ℕ) (c : C)
      → marshal name host address port ≡ some c
      → host_of c ≡ host)
    (P : Rendering C → Type 0) where
  add_local_file-Ends :
      (svc : ServiceConfig) (host : String) (o : Option C) (r : Rendering C)
      → AddsLocal host_of P
      → ((c : C) → o ≡ some c → host_of c ≡ host)
      → is_host_name host ≡ true
      → is_some (lookup host r.owner) ≡ false
      → P r
      → Ends P (add_local_file svc host o r)
  unfolding Ends
  add_local_file-Ends svc host none r add law h free p = tt
  add_local_file-Ends svc host (some c) r add law h free p =
      add (config_file_name svc.name) host (str_append "local service " svc.name) c r h (law c refl)
        free p

  claim_local-Ends :
      (svc : ServiceConfig) (host : String) (r : Rendering C)
      → AddsLocal host_of P
      → is_host_name host ≡ true
      → P r
      → Ends P (claim_local to_lower marshal sort_nodes sort_services ingress_domain svc host r)
  unfolding claim_local Ends
  claim_local-Ends svc host r add h p =
      let content : Option C = marshal svc.name host (guest_ip svc.network) (backend_port svc) in
      if_ind (Ends P) (guest_ip svc.network == "") (λ _. tt)
        (λ _.
          if_ind (Ends P) (eqb (backend_port svc) 0) (λ _. tt)
            (λ _.
              if_ind (Ends P) (is_some (lookup host r.owner)) (λ _. tt)
                (λ free.
                  add_local_file-Ends svc host content r add
                    (λ c e.
                      marshal_host svc.name host (guest_ip svc.network) (backend_port svc) c e)
                    h free p)))

  service-Ends :
      (svc : ServiceConfig) (found : Resolved) (r : Rendering C)
      → AddsLocal host_of P
      → IsLegal found
      → P r
      → Ends P (
          render_local_service to_lower marshal sort_nodes sort_services ingress_domain svc found r)
  unfolding Ends
  service-Ends svc refused r add h p = tt
  service-Ends svc no_route r add h p = p
  service-Ends svc (routed host) r add h p = claim_local-Ends svc host r add h p

  pub render_local-Ends :
      (services : List ServiceConfig) (r : Rendering C)
      → AddsLocal host_of P
      → P r
      → Ends P (render_local to_lower marshal sort_nodes sort_services ingress_domain services r)
  unfolding render_local Ends
  render_local-Ends [] r add p = p
  render_local-Ends (svc ∷ rest) r add p =
      let found : Resolved = resolve to_lower svc.metadata ingress_domain in
      elim (Option-cases (
        render_local_service to_lower marshal sort_nodes sort_services ingress_domain svc found
          r)) [
            | inl e ↦ rw e tt
            | inr (r₁, e) ↦
                let step =
                  service-Ends svc found r add
                    (resolve-IsLegal to_lower svc.metadata ingress_domain) p in
                rw e (render_local-Ends rest r₁ add (subst (Ends P) e step))
          ]

  add_remote_file-add :
      (nc : NodeConfig) (svc : ServiceConfig) (host : String) (o : Option C) (r : Rendering C)
      → AddsRemote host_of P
      → ((c : C) → o ≡ some c → host_of c ≡ host)
      → is_host_name host ≡ true
      → is_some (lookup host r.owner) ≡ false
      → is_some (lookup (remote_config_file_name svc.name) r.desired) ≡ false
      → P r
      → P (add_remote_file nc svc host o r)
  add_remote_file-add nc svc host none r add law h free fresh p = p
  add_remote_file-add nc svc host (some c) r add law h free fresh p =
      add (remote_config_file_name svc.name) host
        (str_append "remote service " (str_append svc.name (str_append " on node " nc.node))) c r h
        (law c refl) free fresh p

  claim_remote-add :
      (nc : NodeConfig) (svc : ServiceConfig) (host : String) (r : Rendering C)
      → AddsRemote host_of P
      → is_host_name host ≡ true
      → P r
      → P (claim_remote to_lower marshal sort_nodes sort_services ingress_domain nc svc host r)
  unfolding claim_remote
  claim_remote-add nc svc host r add h p =
      let port : ℕ = first_host_port svc.port_forwards in
      if_ind P (nc.host_ip == "") (λ _. p)
        (λ _.
          if_ind P (eqb port 0) (λ _. p)
            (λ _.
              if_ind P (is_some (lookup host r.owner)) (λ _. p)
                (λ free.
                  if_ind P (is_some (lookup (remote_config_file_name svc.name) r.desired)) (λ _. p)
                    (λ fresh.
                      add_remote_file-add nc svc host (marshal svc.name host nc.host_ip port) r add
                        (λ c e. marshal_host svc.name host nc.host_ip port c e) h free fresh p))))

  remote_service-add :
      (nc : NodeConfig) (svc : ServiceConfig) (found : Resolved) (r : Rendering C)
      → AddsRemote host_of P
      → IsLegal found
      → P r
      → P (
          render_remote_service to_lower marshal sort_nodes sort_services ingress_domain nc svc
            found r)
  remote_service-add nc svc refused r add h p = p
  remote_service-add nc svc no_route r add h p = p
  remote_service-add nc svc (routed host) r add h p = claim_remote-add nc svc host r add h p

  render_services-add :
      (nc : NodeConfig) (services : List ServiceConfig) (r : Rendering C)
      → AddsRemote host_of P
      → P r
      → P (render_services to_lower marshal sort_nodes sort_services ingress_domain nc services r)
  unfolding render_services
  render_services-add nc [] r add p = p
  render_services-add nc (svc ∷ rest) r add p =
      let found : Resolved = resolve to_lower svc.metadata ingress_domain in
      render_services-add nc rest
        (render_remote_service to_lower marshal sort_nodes sort_services ingress_domain nc svc found
          r)
        add
        (remote_service-add nc svc found r add
          (resolve-IsLegal to_lower svc.metadata ingress_domain) p)

  render_nodes-add :
      (nodes : List NodeConfig) (r : Rendering C)
      → AddsRemote host_of P
      → P r
      → P (render_nodes to_lower marshal sort_nodes sort_services ingress_domain nodes r)
  unfolding render_nodes
  render_nodes-add [] r add p = p
  render_nodes-add (nc ∷ rest) r add p =
      render_nodes-add rest
        (render_services to_lower marshal sort_nodes sort_services ingress_domain nc
          (sort_services nc.services) r)
        add (render_services-add nc (sort_services nc.services) r add p)

  pub render_remote-add :
      (nodes : List NodeConfig) (r : Rendering C)
      → AddsRemote host_of P
      → P r
      → P (render_remote to_lower marshal sort_nodes sort_services ingress_domain nodes r)
  unfolding render_remote
  render_remote-add nodes r add p = render_nodes-add (sort_nodes nodes) r add p
