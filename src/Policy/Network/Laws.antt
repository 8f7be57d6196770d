-- ===== src/Policy/Network/Laws.antt =====
-- `resolve_proxy_config_impl` against the networks of the groups that apply.
use nono_py.Common.{
  ℕ, Bytes, not, is_some, any, all, List, [], ◌∷◌, Option, none, some, ok, >>=-eq-ok, ◌≡◌, refl, ap,
  ◌∙◌, inl, inr, All, Bool-cases,
}
use nono_py.Policy.Types.{NetworkOps, RustPolicy, Platform, network_requires_proxy}
use nono_py.Policy.Network.{
  Gathered, gathered_none, ProxyConfig, has, gather_groups, is_blank, finish_config,
  resolve_proxy_config_impl,
}
use nono_py.Policy.Network.Selected.{selected, gather_all, gather_groups-selected}
use nono_py.Policy.Network.Merging.{Within, Agrees}
use nono_py.Policy.Network.Blank.{gather_all-blank}

resolve-parts :
    (os : Platform) (limit : ℕ) (policy : RustPolicy) (names : List Bytes) {r : Option ProxyConfig}
    → resolve_proxy_config_impl os limit policy names ≡ ok r
    → (g : Gathered) × (gather_all gathered_none (selected os policy names) ≡ ok g)
      × (r ≡ finish_config limit g)
unfolding resolve_proxy_config_impl
resolve-parts os limit policy names h =
    let (g, e, q) = >>=-eq-ok (gather_groups os policy gathered_none names) _ h in
    (g, gather_groups-selected os policy gathered_none names e, cc q)

finish-some : (limit : ℕ) (g : Gathered) → is_some (finish_config limit g) ≡ not (is_blank g)
unfolding finish_config
finish-some limit g = elim (Bool-cases (is_blank g)) [
  | inl e ↦ rw (finish_config, e) refl
  | inr e ↦ rw (finish_config, e) refl
]

not-all :
    (ns : List NetworkOps)
    → not (all (λ m. not (network_requires_proxy m)) ns) ≡ any network_requires_proxy ns
not-all [] = refl
not-all (n ∷ ns) = elim (Bool-cases (network_requires_proxy n)) [
  | inl e ↦ rw e refl
  | inr e ↦ rw e (not-all ns)
]

-- When the groups resolve, there is a proxy configuration exactly if the network of some group
-- that applies requires the proxy, as `resolve_single_group` decides it.
pub resolve_proxy_config_impl-some_iff :
    (os : Platform) (limit : ℕ) (policy : RustPolicy) (names : List Bytes) (r : Option ProxyConfig)
    → resolve_proxy_config_impl os limit policy names ≡ ok r
    → is_some r ≡ any network_requires_proxy (selected os policy names)
resolve_proxy_config_impl-some_iff os limit policy names r h =
    let (g, e, q) = resolve-parts os limit policy names h in
    ap is_some q
    ∙ finish-some limit g
    ∙ ap not (gather_all-blank gathered_none (selected os policy names) e)
    ∙ not-all (selected os policy names)

abbrev pub upstream_address : ProxyConfig → Option Bytes
upstream_address c = elim c.external_proxy [ none ↦ none | some e ↦ some e.address ]

-- The configuration takes every network into account.
abbrev pub IsMerged : List NetworkOps → ProxyConfig → Type 0
IsMerged ns c =
    ((h : Bytes) → has c.allowed_hosts h ≡ any (λ n. has n.allow_domain h) ns)
    × All (λ n. Within (some c.max_connections) n.max_connections) ns
    × All (λ n. Agrees (upstream_address c) n.upstream_proxy) ns
