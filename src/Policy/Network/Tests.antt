-- ===== src/Policy/Network/Tests.antt =====
-- Two groups with a network, and one for another platform.
use nono_py.Common.{
  Bytes, codes, bytes_eq, List, err, true, any, [], ◌∷◌, none, some, ok, false, ◌≡◌, refl,
}
use nono_py.SortedMap.{lookup}
use nono_py.Policy.Types.{
  NetworkOps, Group, RustPolicy, linux, unknown_group, network_requires_proxy,
}
use nono_py.Policy.Network.{
  ProxyConfig, resolve_proxy_config_impl, gather_groups, gather, push_new, set_upstream,
  finish_config,
}
use nono_py.Policy.Network.Selected.{selected}
use nono_py.Policy.Network.Laws.{resolve_proxy_config_impl-some_iff}

abbrev group_with : NetworkOps → Group
group_with n = record {
  description = [];
  platform = none;
  required = false;
  allow = none;
  deny = none;
  symlink_pairs = none;
  network = some n;
}

abbrev network_a : NetworkOps
network_a = record {
  block = false;
  allow_domain = codes "a.io" ∷ codes "b.io" ∷ [];
  credentials = [];
  custom_credentials = [];
  upstream_proxy = some (codes "up:1");
  upstream_bypass = [];
  max_connections = some 8;
}

abbrev network_b : NetworkOps
network_b = record network_a {
  allow_domain = codes "b.io" ∷ codes "c.io" ∷ [];
  max_connections = some 4;
}

abbrev policy : RustPolicy
policy =
    (codes "a", group_with network_a)
    ∷ (codes "b", group_with network_b)
    ∷ (codes "mac", record (group_with network_a) { platform = some (codes "macos") })
    ∷ []

abbrev names : List Bytes
names = codes "a" ∷ codes "mac" ∷ codes "b" ∷ []

abbrev merged : ProxyConfig
merged = record {
  allowed_hosts = codes "a.io" ∷ codes "b.io" ∷ codes "c.io" ∷ [];
  routes = [];
  external_proxy = some record { address = codes "up:1"; bypass_hosts = [] };
  max_connections = 4;
}

resolved : resolve_proxy_config_impl linux 256 policy names ≡ ok (some merged)
unfolding resolve_proxy_config_impl gather_groups gather push_new set_upstream finish_config lookup
    bytes_eq
resolved = refl

unresolved :
    resolve_proxy_config_impl linux 256 policy (codes "z" ∷ []) ≡ err (unknown_group (codes "z"))
unfolding resolve_proxy_config_impl gather_groups lookup bytes_eq
unresolved = refl

resolve_proxy_config_impl-some_iff_example :
    true ≡ any network_requires_proxy (selected linux policy names)
resolve_proxy_config_impl-some_iff_example =
    resolve_proxy_config_impl-some_iff linux 256 policy names (some merged) resolved
