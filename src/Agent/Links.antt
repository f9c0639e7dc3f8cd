-- ===== src/Agent/Links.antt =====
-- resolveLinks, injectEnvVars and preflightRouting of internal/agent/agent.go.
use firework.Base.{
  String, str_append, Bool, true, false, Option, none, some, List, [], ◌∷◌, ◌==◌, if◌then◌else◌,
  not, ◌&&◌, is_some, map, str_lt,
}
use firework.ControlPlane.CrossNode.{printed_int}
use firework.Base.Dict.{Dict, lookup, insert}
use firework.Base.Sort.{sort_stable}
use firework.Base.Text.{contains_any}
use firework.Config.{ServiceLink, ServiceConfig}
use firework.Ingress.{Resolved, no_route, refused, routed, resolve, metadata_subdomain}
use firework.Agent.{ip_of, insert_kernel_arg}

unfoldable pub ips_by_name : List ServiceConfig → Dict String → Dict String
ips_by_name [] ips = ips
ips_by_name (svc ∷ services) ips =
    ips_by_name services
      (if ip_of svc.network == "" then ips else insert svc.name (ip_of svc.network) ips)

abbrev pub link_url : ServiceLink → String → String
link_url link ip =
    str_append (if link.protocol == "" then "http" else link.protocol)
      (str_append "://" (str_append ip (str_append ":" (printed_int link.port))))

abbrev pub set_url : ServiceLink → Option String → Dict String → Dict String
set_url link none env = env
set_url link (some ip) env = insert link.env_var (link_url link ip) env

unfoldable pub set_urls : Dict String → List ServiceLink → Dict String → Dict String
set_urls ips [] env = env
set_urls ips (link ∷ links) env = set_urls ips links (set_url link (lookup link.service ips) env)

unfoldable pub resolve_links : List ServiceConfig → List ServiceConfig
unfolding ips_by_name set_urls
resolve_links services =
    let ips = ips_by_name services [] in
    map (λ (svc : ServiceConfig). record svc { env = set_urls ips svc.links svc.env }) services

-- base64.RawURLEncoding
module _ (encode : String → String) where
  unfoldable pub env_kernel_arg : String → String → String
  env_kernel_arg key value =
      if contains_any value " \t\n\r\u{b}\u{c}"
      then str_append "firework.env64." (str_append key (str_append "=" (encode value)))
      else str_append "firework.env." (str_append key (str_append "=" value))

  abbrev pub key_less : String × String → String × String → Bool
  key_less a b = str_lt a.0 b.0

  unfoldable pub append_env : Dict String → String → String
  unfolding env_kernel_arg
  append_env [] kernel_args = kernel_args
  append_env ((key, value) ∷ env) kernel_args =
      append_env env (insert_kernel_arg kernel_args (env_kernel_arg key value))

  unfoldable pub inject_env_vars : List ServiceConfig → List ServiceConfig
  unfolding append_env
  inject_env_vars services =
      map
        (λ (svc : ServiceConfig). record svc {
          kernel_args = append_env (sort_stable key_less svc.env) svc.kernel_args;
        })
        services

pub data RoutingError : Type 0 where
  traefik_disabled : String → RoutingError
  unresolved : String → RoutingError

-- Whether Traefik is managed, and what strings.ToLower does, are arguments.
module _ (managed : Bool) (to_lower : String → String) (ingress_domain : String) where
  abbrev pub is_refused : Resolved → Bool
  is_refused refused = true
  is_refused no_route = false
  is_refused (routed host) = false

  unfoldable pub preflight_routing : List ServiceConfig → Option RoutingError
  preflight_routing [] = none
  preflight_routing (svc ∷ services) =
      let rest = preflight_routing services in
      if is_some (lookup metadata_subdomain svc.metadata) && not managed
      then some (traefik_disabled svc.name)
      else if not managed
      then rest
      else if is_refused (resolve to_lower svc.metadata ingress_domain)
      then some (unresolved svc.name)
      else rest
