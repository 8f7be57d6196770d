-- ===== src/Policy/Network/Selected.antt =====
-- The networks of the groups that apply, and the steps of the loop on them.
use nono_py.Common.{
  Bytes, true, is_empty, List, [], ◌∷◌, ◌++◌, map, Option, none, some, Result, ok, err, ◌>>=◌,
  >>=-eq-ok, ◌≡◌, inl, inr, Bool-cases, Option-cases,
}
use nono_py.SortedMap.{lookup}
use nono_py.Policy.Types.{NetworkOps, RustPolicy, PolicyError, Platform}
use nono_py.Policy.Network.{
  Gathered, push_new, set_upstream, min_limit, gather, group_network, gather_groups, into_route,
}

-- The networks of the named groups that apply.
abbrev pub selected : Platform → RustPolicy → List Bytes → List NetworkOps
selected os policy [] = []
selected os policy (name ∷ names) = elim (lookup name policy) [
  | none ↦ selected os policy names
  | some group ↦ elim (group_network os group) [
    | none ↦ selected os policy names
    | some network ↦ network ∷ selected os policy names
  ]
]

unfoldable pub gather_all : Gathered → List NetworkOps → Result PolicyError Gathered
gather_all g [] = ok g
gather_all g (n ∷ ns) = do g' ← gather g n; gather_all g' ns

pub gather_groups-selected :
    (os : Platform) (policy : RustPolicy) (g : Gathered) (names : List Bytes) {r : Gathered}
    → gather_groups os policy g names ≡ ok r
    → gather_all g (selected os policy names) ≡ ok r
unfolding gather_groups gather_all
gather_groups-selected os policy g [] h = h
gather_groups-selected os policy g (name ∷ names) {r} h = elim (Option-cases (lookup name policy)) [
  | inl e ↦ let h' : err _ ≡ ok r = rw (gather_groups, e) at h in absurd (cc h')
  | inr (group, e) ↦ elim (Option-cases (group_network os group)) [
    | inl f ↦
        let h' : gather_groups os policy g names ≡ ok r = rw (gather_groups, e, f) at h in
        rw (selected, e, f) (gather_groups-selected os policy g names h')
    | inr (n, f) ↦
        let h' : (gather g n >>= λ g'. gather_groups os policy g' names) ≡ ok r =
          rw (gather_groups, e, f) at h in
        let (g', step, rest) = >>=-eq-ok (gather g n) _ h' in
        rw (selected, e, f, gather_all, step) (gather_groups-selected os policy g' names rest)
  ]
]

-- What one step does.
abbrev pub stepped : Gathered → NetworkOps → Option Bytes → Gathered
stepped g network upstream = record {
  allowed_hosts = push_new g.allowed_hosts network.allow_domain;
  routes = g.routes ++ map (λ p. into_route p.1) network.custom_credentials;
  upstream_proxy = upstream;
  upstream_bypass = push_new g.upstream_bypass network.upstream_bypass;
  max_connections = min_limit g.max_connections network.max_connections;
}

pub gather-eq-ok :
    (g : Gathered) (n : NetworkOps) {r : Gathered}
    → gather g n ≡ ok r
    → (is_empty n.credentials ≡ true)
      × ((up : Option Bytes) × (set_upstream g.upstream_proxy n.upstream_proxy ≡ ok up)
          × (r ≡ stepped g n up))
unfolding gather
gather-eq-ok g n {r} h = elim (Bool-cases (is_empty n.credentials)) [
  | inl e ↦
      let h' : (set_upstream g.upstream_proxy n.upstream_proxy >>= λ up. ok (stepped g n up))
          ≡ ok r =
        rw e at h in
      let (up, s, q) = >>=-eq-ok (set_upstream g.upstream_proxy n.upstream_proxy) _ h' in
      (e, (up, s, cc q))
  | inr e ↦ let h' : err _ ≡ ok r = rw e at h in absurd (cc h')
]
