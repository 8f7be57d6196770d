-- ===== src/Policy/Network.antt =====
-- src/policy.rs: `resolve_proxy_config_impl`. What it takes from the `nono_proxy` crate is the
-- default connection limit, a parameter; fields that always get the default are left out of the
-- configuration here.
pub mod Selected
pub mod Merging
pub mod Blank
pub mod Laws
mod Tests
use nono_py.Common.{
  ℕ, Bytes, bytes_eq, Bool, true, false, ◌&&◌, ◌||◌, not, is_empty, is_some, any, leb, List, [],
  ◌∷◌, ◌++◌, map, Option, none, some, Result, ok, err, ◌>>=◌, if◌then◌else◌,
}
use nono_py.SortedMap.{Pairs, lookup}
use nono_py.Policy.Types.{
  PolicyInjectMode, header, url_path, query_param, basic_auth, PolicyEndpointRule,
  PolicyRouteConfig, NetworkOps, Group, RustPolicy, PolicyError, unknown_group,
  credentials_unsupported, conflicting_upstream, Platform, group_matches_platform,
}

-- `nono_proxy`'s route
pub data InjectMode : Type 0 where
  in_header in_url_path in_query_param in_basic_auth : InjectMode

pub record EndpointRule : Type 0 where
  pub method : Bytes
  pub path : Bytes

pub record RouteConfig : Type 0 where
  pub prefix : Bytes
  pub upstream : Bytes
  pub credential_key : Option Bytes
  pub inject_mode : InjectMode
  pub inject_header : Bytes
  pub credential_format : Option Bytes
  pub path_pattern : Option Bytes
  pub path_replacement : Option Bytes
  pub query_param_name : Option Bytes
  pub env_var : Option Bytes
  pub endpoint_rules : List EndpointRule
  pub tls_ca : Option Bytes
  pub tls_client_cert : Option Bytes
  pub tls_client_key : Option Bytes

abbrev pub into_inject_mode : PolicyInjectMode → InjectMode
into_inject_mode header = in_header
into_inject_mode url_path = in_url_path
into_inject_mode query_param = in_query_param
into_inject_mode basic_auth = in_basic_auth

abbrev pub into_endpoint_rule : PolicyEndpointRule → EndpointRule
into_endpoint_rule rule = record { method = rule.method; path = rule.path }

abbrev pub into_route : PolicyRouteConfig → RouteConfig
into_route route = record {
  prefix = route.prefix;
  upstream = route.upstream;
  credential_key = route.credential_key;
  inject_mode = into_inject_mode route.inject_mode;
  inject_header = route.inject_header;
  credential_format = some route.credential_format;
  path_pattern = route.path_pattern;
  path_replacement = route.path_replacement;
  query_param_name = route.query_param_name;
  env_var = route.env_var;
  endpoint_rules = map into_endpoint_rule route.endpoint_rules;
  tls_ca = route.tls_ca;
  tls_client_cert = route.tls_client_cert;
  tls_client_key = route.tls_client_key;
}

pub record ExternalProxy : Type 0 where
  pub address : Bytes
  pub bypass_hosts : List Bytes

pub record ProxyConfig : Type 0 where
  pub allowed_hosts : List Bytes
  pub routes : List RouteConfig
  pub external_proxy : Option ExternalProxy
  pub max_connections : ℕ

-- The loop's variables. The sets `seen_hosts` and `seen_bypass` hold the members of the lists.
-- `upstream_proxy_group` is left out, a name for the message of the conflict.
pub record Gathered : Type 0 where
  pub allowed_hosts : List Bytes
  pub routes : List RouteConfig
  pub upstream_proxy : Option Bytes
  pub upstream_bypass : List Bytes
  pub max_connections : Option ℕ

abbrev pub gathered_none : Gathered
gathered_none = record {
  allowed_hosts = [];
  routes = [];
  upstream_proxy = none;
  upstream_bypass = [];
  max_connections = none;
}

abbrev pub has : List Bytes → Bytes → Bool
has xs x = any (λ y. bytes_eq y x) xs

-- The loops that push the hosts not yet seen.
unfoldable pub push_new : List Bytes → List Bytes → List Bytes
push_new xs [] = xs
push_new xs (h ∷ hs) = push_new (if has xs h then xs else xs ++ h ∷ []) hs

unfoldable pub set_upstream : Option Bytes → Option Bytes → Result PolicyError (Option Bytes)
set_upstream existing none = ok existing
set_upstream none (some proxy) = ok (some proxy)
set_upstream (some existing) (some proxy) =
    if bytes_eq existing proxy
    then ok (some existing)
    else err (conflicting_upstream existing proxy)

abbrev pub min_limit : Option ℕ → Option ℕ → Option ℕ
min_limit current none = current
min_limit none (some limit) = some limit
min_limit (some current) (some limit) = some (if leb current limit then current else limit)

-- The body of the loop, for a group's `network`.
unfoldable pub gather : Gathered → NetworkOps → Result PolicyError Gathered
gather g network = if not (is_empty network.credentials) then err credentials_unsupported else do
  upstream ← set_upstream g.upstream_proxy network.upstream_proxy
  ok record {
    allowed_hosts = push_new g.allowed_hosts network.allow_domain;
    routes = g.routes ++ map (λ p. into_route p.1) network.custom_credentials;
    upstream_proxy = upstream;
    upstream_bypass = push_new g.upstream_bypass network.upstream_bypass;
    max_connections = min_limit g.max_connections network.max_connections;
  }

-- The network part of a group that applies.
abbrev pub group_network : Platform → Group → Option NetworkOps
group_network os group = if group_matches_platform os group then group.network else none

unfoldable pub gather_groups :
    Platform → RustPolicy → Gathered → List Bytes → Result PolicyError Gathered
gather_groups os policy g [] = ok g
gather_groups os policy g (name ∷ names) = elim (lookup name policy) [
  | none ↦ err (unknown_group name)
  | some group ↦ elim (group_network os group) [
    | none ↦ gather_groups os policy g names
    | some network ↦ do g' ← gather g network; gather_groups os policy g' names
  ]
]

abbrev pub is_blank : Gathered → Bool
is_blank g =
    is_empty g.allowed_hosts
    && is_empty g.routes
    && not (is_some g.upstream_proxy)
    && is_empty g.upstream_bypass
    && not (is_some g.max_connections)

abbrev pub configured : ℕ → Gathered → ProxyConfig
configured default_limit g = record {
  allowed_hosts = g.allowed_hosts;
  routes = g.routes;
  external_proxy = elim g.upstream_proxy [
    | none ↦ none
    | some address ↦ some record { address = address; bypass_hosts = g.upstream_bypass }
  ];
  max_connections = elim g.max_connections [ none ↦ default_limit | some limit ↦ limit ];
}

unfoldable pub finish_config : ℕ → Gathered → Option ProxyConfig
finish_config default_limit g = if is_blank g then none else some (configured default_limit g)

unfoldable pub resolve_proxy_config_impl :
    Platform → ℕ → RustPolicy → List Bytes → Result PolicyError (Option ProxyConfig)
resolve_proxy_config_impl os default_limit policy group_names = do
  g ← gather_groups os policy gathered_none group_names
  ok (finish_config default_limit g)
