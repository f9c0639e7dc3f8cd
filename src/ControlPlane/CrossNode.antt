-- ===== src/ControlPlane/CrossNode.antt =====
-- applyHostIPAndCrossNodeLinks of internal/controlplane/controller.go: the addresses of the nodes in the
-- configurations, and in the environment of services that talk to services of other nodes.
use firework.Base.{
  ℕ, ◌-◌, String, str_append, Bool, true, false, ◌&&◌, ◌||◌, not, ◌==◌, if◌then◌else◌, Option, none,
  some, List, [], ◌∷◌, or_else, map,
}
use firework.Base.Decimal.{decimal}
use firework.Base.Int64.{lt64, word}
use firework.Base.Dict.{Dict, lookup, insert}
use firework.Config.{ServiceConfig, NodeConfig, CrossNodeLink}
pub mod Addresses

unfoldable pub set_host_ip : Dict String → NodeConfig → NodeConfig
set_host_ip ips nc =
    let ip = or_else (lookup nc.node ips) "" in if ip == "" then nc else record nc { host_ip = ip }

-- The address of the node of each service; the last one counts.
unfoldable pub service_ips : String → List ServiceConfig → Dict String → Dict String
service_ips ip [] found = found
service_ips ip (svc ∷ services) found = service_ips ip services (insert svc.name ip found)

unfoldable pub host_ip_of_services : List NodeConfig → Dict String → Dict String
unfolding service_ips
host_ip_of_services [] found = found
host_ip_of_services (nc ∷ ncs) found =
    host_ip_of_services ncs (service_ips nc.host_ip nc.services found)

-- The verb %d on an int.
unfoldable pub printed_int : ℕ → String
printed_int n = if lt64 n 0 then str_append "-" (decimal (word - n)) else decimal n

abbrev pub address : CrossNodeLink → String → String
address link ip =
    let plain = str_append ip (str_append ":" (printed_int link.host_port)) in
    if link.protocol == "" then plain else str_append link.protocol (str_append "://" plain)

-- The environment and the variables set so far.
abbrev pub set_link : CrossNodeLink → String → Dict String × Dict Bool → Dict String × Dict Bool
set_link link ip (env, links) =
    if or_else (lookup link.env links) false
    then (
      insert link.env
          (str_append (or_else (lookup link.env env) "") (str_append "," (address link ip))) env,
      links,
    )
    else (insert link.env (address link ip) env, insert link.env true links)

unfoldable pub set_links :
    Dict String → List CrossNodeLink → Dict String × Dict Bool → Dict String × Dict Bool
set_links ips [] st = st
set_links ips (link ∷ links) st =
    let ip = or_else (lookup link.service ips) "" in
    set_links ips links (if ip == "" then st else set_link link ip st)

unfoldable pub link_service : Dict String → String → ServiceConfig → ServiceConfig
unfolding set_links
link_service ips host_ip svc =
    let linked = (set_links ips svc.cross_node_links (svc.env, [])).0 in
    record svc {
      env =
          if not (svc.node_host_ip_env == "") && not (host_ip == "")
          then insert svc.node_host_ip_env host_ip linked
          else linked;
    }

unfoldable pub apply_host_ips : Dict String → List NodeConfig → List NodeConfig
unfolding link_service set_host_ip host_ip_of_services
apply_host_ips ips ncs =
    let addressed = map (set_host_ip ips) ncs in
    let of_services = host_ip_of_services addressed [] in
    map
      (λ (nc : NodeConfig). record nc {
        services = map (link_service of_services nc.host_ip) nc.services;
      })
      addressed
