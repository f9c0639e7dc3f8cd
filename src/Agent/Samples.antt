-- ===== src/Agent/Samples.antt =====
-- assignNetworking of internal/agent/agent.go on a subnet of eight addresses and three services.
use firework.Base.Int64.{lt64}
use firework.ControlPlane.CrossNode.{printed_int}
use firework.Base.{false}
use firework.Base.Dict.{lookup}
use firework.Base.Text.{contains_any}
use firework.Ingress.{metadata_subdomain}
use firework.Agent.Links.{
  ips_by_name, set_urls, resolve_links, env_kernel_arg, append_env, inject_env_vars,
  traefik_disabled, preflight_routing,
}
use firework.Base.{false, Option, none}
use firework.Config.{NodeConfig}
use firework.Agent.{merge_revision_metadata}
use firework.Base.{◌≡◌, refl, List, [], ◌∷◌, some, ℕ, String, arith}
use firework.Base.Text.{is_space}
use firework.Base.Decimal.{decimal}
use firework.Base.Dict.{insert}
use firework.Base.Sort.{sort_stable}
use firework.Config.{ServiceConfig}
use firework.Scheduler.Place.Samples.{service}
use firework.Agent.{
  ip_of, assign_networking, networked, assign_one, guest_address, guest_mac, dotted,
  insert_kernel_arg, has_kernel_arg_prefix, fields, split_spaces, any_prefix, before_separator,
  join_spaces,
}
use firework.Agent.Enough.{guest_ips, addresses_from, networked_count, assign_networking-addresses}
use firework.Agent.Fetch.{see_services, merge_config, merge_all, fetch_and_merge}
use firework.Agent.Fetch.Revisions.{IsAllAgreed, fetch_and_merge-IsAgreed}
use firework.Base.{◌+◌}
use firework.Agent.Guests.{IsSpread, assign_networking-IsSpread}

abbrev networked_service : String → String → ServiceConfig
networked_service name kernel_args =
    let s = service name 1 512 "" [] in
    record s {
      network =
          some (record { interface = "tap0"; guest_mac = ""; host_dev_name = ""; guest_ip = "" });
      kernel_args = kernel_args;
    }

abbrev three_services : List ServiceConfig
three_services =
    networked_service "api" "quiet -- init"
    ∷ service "batch" 1 512 "" []
    ∷ networked_service "web" "ip=dhcp"
    ∷ []

-- 172.16.0.0/29
abbrev subnet : ℕ
subnet = 2886729728

ips : List ServiceConfig → List String
ips [] = []
ips (s ∷ ss) = ip_of s.network ∷ ips ss

kernel_args_of : List ServiceConfig → List String
kernel_args_of [] = []
kernel_args_of (s ∷ ss) = s.kernel_args ∷ kernel_args_of ss

assigned_ips :
    ips (assign_networking subnet 29 "172.16.0.1" "255.255.255.248" 0 three_services)
    ≡ "172.16.0.2" ∷ "" ∷ "172.16.0.3" ∷ []
unfolding ips assign_networking networked assign_one guest_address dotted decimal
assigned_ips = refl

assigned_args :
    kernel_args_of (assign_networking subnet 29 "172.16.0.1" "255.255.255.248" 0 three_services)
    ≡ "quiet ip=172.16.0.2::172.16.0.1:255.255.255.248::eth0:off -- init" ∷ "" ∷ "ip=dhcp" ∷ []
unfolding kernel_args_of assign_networking networked assign_one guest_address dotted
    insert_kernel_arg has_kernel_arg_prefix fields split_spaces any_prefix before_separator
    join_spaces is_space decimal
assigned_args = refl

mac_7 : guest_mac 7 ≡ "AA:FC:00:00:00:08"
unfolding guest_mac
mac_7 = refl

assign_networking-IsSpread_example :
    IsSpread subnet 29 0 three_services
      (assign_networking subnet 29 "172.16.0.1" "255.255.255.248" 0 three_services)
assign_networking-IsSpread_example =
    assign_networking-IsSpread subnet 29 (omega arith) (omega arith) (omega arith) "172.16.0.1"
      "255.255.255.248" 0 three_services (refl, (refl, (refl, tt)))

-- With 172.16.0.5/29 the first guest gets the last address of the subnet: the host's bits are not cleared.
unaligned :
    ips (assign_networking (subnet + 5) 29 "172.16.0.1" "255.255.255.248" 0 three_services)
    ≡ "172.16.0.7" ∷ "" ∷ "" ∷ []
unfolding ips assign_networking networked assign_one guest_address dotted decimal
unaligned = refl

assign_networking-addresses_example :
    guest_ips (assign_networking subnet 29 "172.16.0.1" "255.255.255.248" 0 three_services)
    ≡ addresses_from subnet 0 (networked_count three_services)
assign_networking-addresses_example =
    assign_networking-addresses subnet 29 (omega arith) (omega arith) (omega arith) "172.16.0.1"
      "255.255.255.248" 0 three_services (omega arith)

abbrev config_of : List ServiceConfig → String → String → NodeConfig
config_of services desired rendered = record {
  node = "n1";
  services = services;
  host_ip = "";
  desired_revision = desired;
  placement_revision = "";
  rendered_revision = rendered;
}

-- Three labels: the second is not there, and the others differ in one of their revisions.
abbrev fetched_configs : List (Option NodeConfig)
fetched_configs =
    some (config_of (service "web" 1 512 "" [] ∷ service "api" 1 512 "" [] ∷ []) "d1" "r1")
    ∷ none
    ∷ some (config_of (service "web" 4 512 "" [] ∷ []) "d1" "r2")
    ∷ []

abbrev merged_sample : NodeConfig
merged_sample = config_of (service "api" 1 512 "" [] ∷ service "web" 4 512 "" [] ∷ []) "d1" ""

fetched_sample : fetch_and_merge "n1" fetched_configs ≡ some merged_sample
unfolding fetch_and_merge merge_all merge_config see_services insert sort_stable
    merge_revision_metadata
fetched_sample = refl

fetch_and_merge-IsAgreed_example : IsAllAgreed fetched_configs merged_sample
fetch_and_merge-IsAgreed_example =
    fetch_and_merge-IsAgreed "n1" fetched_configs merged_sample fetched_sample

-- "web" calls "api", which has an address, and "cache", which does not.
abbrev linked_services : List ServiceConfig
linked_services =
    (let s = networked_service "api" "quiet" in
      record s {
        network = some (record {
          interface = "tap0";
          guest_mac = "";
          host_dev_name = "";
          guest_ip = "172.16.0.2";
        });
      })
    ∷ (let s = networked_service "web" "quiet -- init" in
        record s {
          links =
              record { service = "api"; env_var = "API_URL"; port = 8080; protocol = "" }
              ∷ record { service = "cache"; env_var = "CACHE_URL"; port = 6379; protocol = "tcp" }
              ∷ [];
          env = ("MOTD", "good day") ∷ [];
        })
    ∷ []

-- A coding that marks what it codes.
abbrev coded : String → String
coded s = "c29tZQ"

linked_args :
    kernel_args_of (inject_env_vars coded (resolve_links linked_services))
    ≡ "quiet"
      ∷ "quiet firework.env.API_URL=http://172.16.0.2:8080 firework.env64.MOTD=c29tZQ -- init" ∷ []
unfolding kernel_args_of inject_env_vars resolve_links ips_by_name set_urls lookup insert append_env
    sort_stable env_kernel_arg contains_any insert_kernel_arg fields split_spaces before_separator
    join_spaces is_space decimal printed_int lt64
linked_args = refl

abbrev routed_service : ServiceConfig
routed_service =
    let s = networked_service "web" "" in record s { metadata = (metadata_subdomain, "shop") ∷ [] }

unmanaged_plain : preflight_routing false coded "example.com" (three_services) ≡ none
unfolding preflight_routing lookup
unmanaged_plain = refl

unmanaged_routed :
    preflight_routing false coded "example.com" (routed_service ∷ [])
    ≡ some (traefik_disabled "web")
unfolding preflight_routing lookup
unmanaged_routed = refl
