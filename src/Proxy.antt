-- ===== src/Proxy.antt =====
-- src/proxy.rs: the hosts that a `ProxyConfig` hands to the proxy. URLs are parsed by the `url`
-- crate and addresses by the standard library, both parameters here.
pub mod Laws
mod Tests
use nono_py.Common.{
  ℕ, Bytes, codes, bytes_eq, Bool, true, false, ◌&&◌, ◌||◌, ◌+◌, not, is_empty, any, leb, List, [],
  ◌∷◌, ◌++◌, map, Option, none, some, Result, ok, err, ◌>>=◌, if◌then◌else◌,
}
use nono_py.Policy.Network.{RouteConfig, ExternalProxy}

pub data ProxyError : Type 0 where
  invalid_bind_address hosts_with_allow_all : ProxyError

abbrev pub lower : ℕ → ℕ
lower c = if leb 65 c && leb c 90 then c + 32 else c

-- `eq_ignore_ascii_case`
abbrev pub same_host : Bytes → Bytes → Bool
same_host a b = bytes_eq (map lower a) (map lower b)

abbrev pub deny_all_connect_host : Bytes
deny_all_connect_host = codes "__nono_py_deny_all_connect.invalid"

-- What `Url::parse` says of an upstream: the scheme and the host, which is ASCII.
pub record Url : Type 0 where
  pub scheme : Bytes
  pub host_str : Option Bytes

-- `nono_proxy`'s configuration, by the fields that depend on the arguments
pub record Inner (Addr : Type 0) : Type 0 where
  pub bind_addr : Addr
  pub bind_port : ℕ
  pub allowed_hosts : List Bytes
  pub routes : List RouteConfig
  pub external_proxy : Option ExternalProxy
  pub max_connections : ℕ

pub record ProxyConfig (Addr : Type 0) : Type 0 where
  pub inner : Inner Addr
  pub allowed_hosts : List Bytes
  pub allow_all_hosts : Bool

-- The arguments of `ProxyConfig.new` that the model keeps.
pub record Arguments : Type 0 where
  pub allowed_hosts : Option (List Bytes)
  pub routes : List RouteConfig
  pub external_proxy : Option ExternalProxy
  pub bind_addr : Bytes
  pub bind_port : ℕ
  pub max_connections : ℕ
  pub allow_all_hosts : Bool

abbrev pub hosts_given : Option (List Bytes) → List Bytes
hosts_given none = []
hosts_given (some hosts) = hosts

module _ (parse_url : Bytes → Option Url) where
  unfoldable pub route_upstream_host : Bytes → Option Bytes
  route_upstream_host upstream = elim (parse_url upstream) [
    | none ↦ none
    | some parsed ↦
        if bytes_eq parsed.scheme (codes "http") || bytes_eq parsed.scheme (codes "https")
        then elim parsed.host_str [ none ↦ none | some host ↦ some (map lower host) ]
        else none
  ]

  unfoldable pub add_route_host : List Bytes → Bytes → List Bytes
  add_route_host hosts upstream = elim (route_upstream_host upstream) [
    | none ↦ hosts
    | some host ↦ if any (λ h. same_host h host) hosts then hosts else hosts ++ host ∷ []
  ]

  unfoldable pub add_route_hosts : List Bytes → List RouteConfig → List Bytes
  add_route_hosts hosts [] = hosts
  add_route_hosts hosts (route ∷ routes) =
      add_route_hosts (add_route_host hosts route.upstream) routes

  unfoldable pub effective_filter_hosts : List Bytes → List RouteConfig → Bool → List Bytes
  effective_filter_hosts transparent_hosts routes allow_all_hosts =
      if allow_all_hosts
      then []
      else let hosts = add_route_hosts transparent_hosts routes in
        if is_empty hosts then deny_all_connect_host ∷ [] else hosts

  unfoldable pub from_inner : {Addr : Type 0} → Inner Addr → ProxyConfig Addr
  from_inner inner = record {
    inner = record inner {
      allowed_hosts = effective_filter_hosts inner.allowed_hosts inner.routes false;
    };
    allowed_hosts = inner.allowed_hosts;
    allow_all_hosts = false;
  }

  abbrev pub built : {Addr : Type 0} → Addr → Arguments → ProxyConfig Addr
  built addr args =
      let hosts = hosts_given args.allowed_hosts in
      record {
        inner = record {
          bind_addr = addr;
          bind_port = args.bind_port;
          allowed_hosts = effective_filter_hosts hosts args.routes args.allow_all_hosts;
          routes = args.routes;
          external_proxy = args.external_proxy;
          max_connections = args.max_connections;
        };
        allowed_hosts = hosts;
        allow_all_hosts = args.allow_all_hosts;
      }

  unfoldable pub new :
      {Addr : Type 0} → (Bytes → Option Addr) → Arguments → Result ProxyError (ProxyConfig Addr)
  new parse_addr args = elim (parse_addr args.bind_addr) [
    | none ↦ err invalid_bind_address
    | some addr ↦
        if args.allow_all_hosts && not (is_empty (hosts_given args.allowed_hosts))
        then err hosts_with_allow_all
        else ok (built addr args)
  ]
