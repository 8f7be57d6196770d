-- ===== src/Proxy/Tests.antt =====
-- A parser that knows one URL, and what the filter makes of its host.
use nono_py.Common.{
  Bytes, codes, bytes_eq, true, false, ◌||◌, is_empty, any, [], ◌∷◌, Option, none, some, err,
  if◌then◌else◌, ◌≡◌, refl, ◌⊎◌,
}
use nono_py.Policy.Network.{RouteConfig, in_header}
use nono_py.Proxy.{
  Url, Arguments, hosts_with_allow_all, deny_all_connect_host, route_upstream_host, add_route_host,
  add_route_hosts, effective_filter_hosts, new,
}
use nono_py.Proxy.Laws.{lists, leads_to, effective_filter_hosts-lists}

abbrev parse_url : Bytes → Option Url
parse_url u =
    if bytes_eq u (codes "https://API.io/v1")
    then some record { scheme = codes "https"; host_str = some (codes "API.io") }
    else none

abbrev parse_addr : Bytes → Option Bytes
parse_addr a = if is_empty a then none else some a

abbrev route : RouteConfig
route = record {
  prefix = codes "api";
  upstream = codes "https://API.io/v1";
  credential_key = none;
  inject_mode = in_header;
  inject_header = codes "Authorization";
  credential_format = none;
  path_pattern = none;
  path_replacement = none;
  query_param_name = none;
  env_var = none;
  endpoint_rules = [];
  tls_ca = none;
  tls_client_cert = none;
  tls_client_key = none;
}

abbrev args : Arguments
args = record {
  allowed_hosts = some (codes "Api.IO" ∷ []);
  routes = route ∷ [];
  external_proxy = none;
  bind_addr = codes "127.0.0.1";
  bind_port = 0;
  max_connections = 256;
  allow_all_hosts = false;
}

filters :
    (effective_filter_hosts parse_url [] [] false ≡ deny_all_connect_host ∷ [])
    × (effective_filter_hosts parse_url [] (route ∷ []) false ≡ codes "api.io" ∷ [])
    × (effective_filter_hosts parse_url (codes "Api.IO" ∷ []) (route ∷ []) false
        ≡ codes "Api.IO" ∷ [])
    × (new parse_url parse_addr (record args { allow_all_hosts = true }) ≡ err hosts_with_allow_all)
unfolding effective_filter_hosts add_route_hosts add_route_host route_upstream_host new bytes_eq
filters = (refl, refl, refl, refl)

effective_filter_hosts-lists_example :
    ((h : Bytes)
      → lists (effective_filter_hosts parse_url [] (route ∷ []) false) h
        ≡ (lists [] h || any (leads_to parse_url h) (route ∷ [])))
    ⊎ ((effective_filter_hosts parse_url [] (route ∷ []) false ≡ deny_all_connect_host ∷ [])
        × ((h : Bytes) → (lists [] h || any (leads_to parse_url h) (route ∷ [])) ≡ false))
effective_filter_hosts-lists_example = effective_filter_hosts-lists parse_url [] (route ∷ [])
