-- ===== src/Policy/Groups/Proxied.antt =====
-- The two readings of a policy's network parts together: the proxy's configuration, and the blocking
-- of the network.
use nono_py.Common.{
  ℕ, Bytes, Bool, true, false, ◌||◌, any, List, [], ◌∷◌, Option, some, ok, ◌≡◌, refl, sym, ap, ◌∙◌,
  Option-cases, Bool-cases, inl, inr,
}
use nono_py.Nono.{CapabilityApi, KeepsNetwork}
use nono_py.SortedMap.{lookup}
use nono_py.Policy.Types.{RustPolicy, Platform, group_matches_platform, network_requires_proxy}
use nono_py.Policy.Files.{FileSystem}
use nono_py.Policy.Resolution.{Resolution}
use nono_py.Policy.Network.{ProxyConfig, resolve_proxy_config_impl}
use nono_py.Policy.Network.Selected.{selected}
use nono_py.Policy.Network.Laws.{resolve_proxy_config_impl-some_iff}
use nono_py.Policy.Groups.{resolve_groups_impl}
use nono_py.Policy.Groups.Steps.{blocks, applicable}
use nono_py.Policy.Groups.Laws.{resolve_groups_impl-IsResolved}

-- A group whose network needs the proxy blocks the network.
proxied-blocks :
    (os : Platform) (policy : RustPolicy) (names : List Bytes)
    → any network_requires_proxy (selected os policy names) ≡ true
    → any (λ g. blocks g.1) (applicable os policy names) ≡ true
proxied-blocks os policy [] h = absurd (cc h)
proxied-blocks os policy (name ∷ names) h = elim (Option-cases (lookup name policy)) [
  | inl e ↦
      let h' : any network_requires_proxy (selected os policy names) ≡ true =
        rw (selected, e) at h in
      rw (applicable, e) (proxied-blocks os policy names h')
  | inr (group, e) ↦ elim (Bool-cases (group_matches_platform os group)) [
    | inr f ↦
        let h' : any network_requires_proxy (selected os policy names) ≡ true =
          rw (selected, e, f) at h in
        rw (applicable, e, f) (proxied-blocks os policy names h')
    | inl f ↦ elim (Option-cases group.network) [
      | inl g ↦
          let h' : any network_requires_proxy (selected os policy names) ≡ true =
            rw (selected, e, f, g) at h in
          rw (applicable, e, f, g) (proxied-blocks os policy names h')
      | inr (network, g) ↦
          let h' : (network_requires_proxy network
                || any network_requires_proxy (selected os policy names))
              ≡ true =
            rw (selected, e, f, g) at h in
          rw (applicable, e, f, g)
            (either network.block (network_requires_proxy network) _ _ h'
              (proxied-blocks os policy names))
    ]
  ]
]
  where
    either :
        (block needs later later' : Bool)
        → (needs || later) ≡ true
        → (later ≡ true → later' ≡ true)
        → ((block || needs) || later') ≡ true
    either true needs later later' h k = refl
    either false true later later' h k = refl
    either false false later later' h k = k h

module _ (api : CapabilityApi) (os : Platform) (env : Bytes → Option Bytes) (fs : FileSystem)
    (net : KeepsNetwork api) where
  -- When groups resolve both to a proxy configuration and into a capability set, the set has the
  -- network blocked.
  pub resolve_groups_impl-resolve_proxy_config_impl :
      (policy : RustPolicy) (names : List Bytes) (limit : ℕ) (config : ProxyConfig)
      (caps : api.CapabilitySet) (r : List Bytes × Bool) (t : Resolution api.CapabilitySet)
      → resolve_proxy_config_impl os limit policy names ≡ ok (some config)
      → resolve_groups_impl api os env fs policy names caps ≡ (ok r, t)
      → api.is_network_blocked t.caps ≡ true
  resolve_groups_impl-resolve_proxy_config_impl policy names limit config caps r t p h =
      let needed = resolve_proxy_config_impl-some_iff os limit policy names (some config) p in
      let done = resolve_groups_impl-IsResolved api os env fs net policy names caps r t h in
      done.network
      ∙ ap (λ b. api.is_network_blocked caps || b) (proxied-blocks os policy names (sym needed))
      ∙ or_true (api.is_network_blocked caps)
    where
      or_true : (b : Bool) → (b || true) ≡ true
      or_true true = refl
      or_true false = refl
