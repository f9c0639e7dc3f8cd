-- ===== src/Traefik/Samples.antt =====
-- internal/traefik/traefik.go on a node with one routed service, beside another node.
use firework.Base.{ℕ, String, ◌≡◌, refl, ap, sym, ◌==◌, true, false, Option, some, [], ◌∷◌}
use mathlib.Core.Option.{some-injective}
use firework.Base.Dict.{Dict, lookup, insert}
use firework.Base.Text.{trim_space, split_on, contains_any}
use firework.Base.Decimal.{trim_suffix, has_suffix}
use firework.Base.Sort.{sort_stable}
use firework.Config.{ServiceConfig, NodeConfig}
use firework.Ingress.{
  resolve, resolve_subdomain, is_subdomain, is_dns_name, validate_host, normalize_domain,
  compose_fqdn, matches_label, any_bad_label, any_contained,
}
use firework.Ingress.Names.{is_host_name}
use firework.Ingress.Samples.{same_text, web_metadata}
use firework.Scheduler.Place.Samples.{service}
use firework.Traefik.{
  Rendering, render, render_local, render_remote, render_nodes, render_services, claim_local,
  claim_remote, backend_port,
}
use firework.Traefik.Routes.{render-host_once, render-is_host_name, render_remote-keeps}
use firework.Traefik.Files.{Faults, apply_files, rename_all, remove_stale, stage, is_stale}
use firework.Traefik.Files.Outcome.{Leaves, target, apply_files-Leaves}

-- A file is the host and the address that it routes to.
abbrev printed : String → String → String → ℕ → Option (String × String)
printed name host address port = some (host, address)

printed_host :
    (name host address : String) (port : ℕ) (c : String × String)
    → printed name host address port ≡ some c
    → c.0 ≡ host
printed_host name host address port c e =
    ap (λ (p : String × String). p.0) (sym (some-injective (host, address) c e))

abbrev routed_service : String → Dict String → ServiceConfig
routed_service name metadata =
    let s = service name 1 512 "" [] in
    record s {
      network =
          some (record {
            interface = "";
            host_dev_name = "";
            guest_mac = "";
            guest_ip = "172.16.0.2";
          });
      port_forwards = record { host_port = 8080; vm_port = 80 } ∷ [];
      metadata = metadata;
    }

abbrev web : ServiceConfig
web = routed_service "web" web_metadata

abbrev other_node : NodeConfig
other_node = record {
  node = "n2";
  services =
      routed_service "copy" web_metadata
      ∷ routed_service "shop" (("host", "shop.example.org") ∷ [])
      ∷ [];
  host_ip = "10.0.0.2";
  desired_revision = "";
  placement_revision = "";
  rendered_revision = "";
}

abbrev rendered : Rendering (String × String)
rendered = record {
  desired =
      ("web.yaml", ("web.example.com", "172.16.0.2"))
      ∷ ("remote-shop.yaml", ("shop.example.org", "10.0.0.2"))
      ∷ [];
  owner =
      ("web.example.com", "local service web")
      ∷ ("shop.example.org", "remote service shop on node n2")
      ∷ [];
}

-- The other node's claim of the same host is skipped.
rendered_routes :
    render same_text printed (λ ns. ns) (λ ss. ss) "example.com" (web ∷ []) (other_node ∷ [])
    ≡ some rendered
unfolding render render_local render_remote render_nodes render_services claim_local claim_remote
    backend_port resolve lookup insert resolve_subdomain is_subdomain is_dns_name validate_host
    normalize_domain compose_fqdn matches_label any_bad_label any_contained trim_space split_on
    trim_suffix has_suffix contains_any
rendered_routes = refl

render-host_once_example : ◌≡◌ {A = String} "web.yaml" "web.yaml"
unfolding lookup
render-host_once_example =
    render-host_once (λ (p : String × String). p.0) same_text printed (λ ns. ns) (λ ss. ss)
      "example.com" printed_host (web ∷ []) (other_node ∷ []) rendered "web.yaml" "web.yaml"
      ("web.example.com", "172.16.0.2") ("web.example.com", "172.16.0.2") rendered_routes refl refl
      refl

render-is_host_name_example : is_host_name "shop.example.org" ≡ true
unfolding lookup
render-is_host_name_example =
    render-is_host_name (λ (p : String × String). p.0) same_text printed (λ ns. ns) (λ ss. ss)
      "example.com" printed_host (web ∷ []) (other_node ∷ []) rendered "remote-shop.yaml"
      ("shop.example.org", "10.0.0.2") rendered_routes refl

render_remote-keeps_example :
    lookup "web.yaml"
      (render_remote same_text printed (λ ns. ns) (λ ss. ss) "" (other_node ∷ []) rendered).desired
    ≡ some ("web.example.com", "172.16.0.2")
unfolding lookup
render_remote-keeps_example =
    render_remote-keeps (λ (p : String × String). p.0) same_text printed (λ ns. ns) (λ ss. ss) ""
      printed_host (other_node ∷ []) rendered "web.yaml" ("web.example.com", "172.16.0.2") refl

-- The new web.yaml cannot be renamed into place.
abbrev no_rename : Faults
no_rename = record {
  mkdir_fails = false;
  stage_dir_fails = false;
  write_fails = λ name. false;
  rename_fails = λ name. name == "web.yaml";
  read_fails = false;
  remove_fails = λ name. false;
}

abbrev old_files : Dict (String × String)
old_files = ("gone.yaml", ("gone.example.com", "172.16.0.3")) ∷ []

first_rename_only :
    apply_files no_rename rendered.desired false old_files
    ≡ (insert "remote-shop.yaml" ("shop.example.org", "10.0.0.2") old_files, false)
unfolding apply_files rename_all remove_stale stage is_stale sort_stable lookup insert has_suffix
first_rename_only = refl

apply_files-Leaves_example :
    Leaves "gone.yaml"
      (lookup "gone.yaml" old_files)
      (target rendered.desired old_files false "gone.yaml")
      (apply_files no_rename rendered.desired false old_files)
apply_files-Leaves_example =
    apply_files-Leaves rendered.desired old_files false "gone.yaml" no_rename
