-- ===== src/Proxy/Laws.antt =====
-- Which hosts the filter lets through.
use nono_py.Common.{
  ℕ, Bytes, codes, bytes_eq, bytes_eq_iff, Bool, true, false, ◌&&◌, ◌||◌, is_empty, any, List, [],
  ◌∷◌, ◌++◌, Option, none, some, ◌≡◌, refl, sym, ap, ◌∙◌, ◌⊎◌, Bool-cases, Option-cases, arith, inl,
  inr, map,
}
use nono_py.Policy.Network.{RouteConfig}
use nono_py.Proxy.{
  lower, same_host, deny_all_connect_host, Url, route_upstream_host, add_route_host,
  add_route_hosts, effective_filter_hosts,
}

-- A host is listed, in upper or lower case.
abbrev pub lists : List Bytes → Bytes → Bool
lists hosts h = any (λ x. same_host x h) hosts

same_host-congr : (a b h : Bytes) → same_host a b ≡ true → same_host a h ≡ same_host b h
same_host-congr a b h e =
    ap (λ x. bytes_eq x (map lower h)) ((bytes_eq_iff (map lower a) (map lower b)).0 e)

lists-append : (xs ys : List Bytes) (h : Bytes) → lists (xs ++ ys) h ≡ (lists xs h || lists ys h)
lists-append [] ys h = refl
lists-append (x ∷ xs) ys h = ground (arith, lists-append xs ys h)

-- A host that is listed adds nothing.
lists-again :
    (xs : List Bytes) (a h : Bytes) → lists xs a ≡ true → (lists xs h || same_host a h) ≡ lists xs h
lists-again [] a h e = absurd (cc e)
lists-again (x ∷ xs) a h e = elim (Bool-cases (same_host x a)) [
  | inl f ↦ let q = same_host-congr x a h f in ground (arith, q)
  | inr f ↦
      let e' : lists xs a ≡ true = rw f at e in
      let q = lists-again xs a h e' in or_swap (same_host x h) (lists xs h) (same_host a h) q
]
  where
    or_swap : (x y z : Bool) → (y || z) ≡ y → ((x || y) || z) ≡ (x || y)
    or_swap true y z q = refl
    or_swap false y z q = q

lower_again : (c : ℕ) → lower (lower c) ≡ lower c
lower_again c = ground arith

letters_again : (cs : Bytes) → map lower (map lower cs) ≡ map lower cs
letters_again [] = refl
letters_again (c ∷ cs) = let rest = letters_again cs in rw (lower_again c, rest) refl

same_host-lower : (host h : Bytes) → same_host (map lower host) h ≡ same_host host h
same_host-lower host h = ap (λ x. bytes_eq x (map lower h)) (letters_again host)

and_true : (b : Bool) → b ≡ (b && true)
and_true true = refl
and_true false = refl

and_false : (b : Bool) → (b && false) ≡ false
and_false true = refl
and_false false = refl

module _ (parse_url : Bytes → Option Url) where
  abbrev pub is_host : Bytes → Option Bytes → Bool
  is_host h none = false
  is_host h (some host) = same_host host h

  -- The route's upstream is a URL of that host, over http or https.
  abbrev pub leads_to : Bytes → RouteConfig → Bool
  leads_to h route = elim (parse_url route.upstream) [
    | none ↦ false
    | some url ↦
        is_host h url.host_str
        && (bytes_eq url.scheme (codes "http") || bytes_eq url.scheme (codes "https"))
  ]

  leads_to_lem :
      (h : Bytes) (route : RouteConfig)
      → is_host h (route_upstream_host parse_url route.upstream) ≡ leads_to h route
  unfolding route_upstream_host
  leads_to_lem h route = elim (Option-cases (parse_url route.upstream)) [
    | inl e ↦ rw (route_upstream_host, leads_to, e) refl
    | inr (url, e) ↦
        let web : Bool =
          bytes_eq url.scheme (codes "http") || bytes_eq url.scheme (codes "https") in
        elim (Option-cases url.host_str) [
          | inl f ↦ elim (Bool-cases web) [
            | inl g ↦ rw (route_upstream_host, leads_to, e, f, g) refl
            | inr g ↦ rw (route_upstream_host, leads_to, e, f, g) refl
          ]
          | inr (host, f) ↦ elim (Bool-cases web) [
            | inl g ↦
                rw (route_upstream_host, leads_to, e, f, g) (same_host-lower host h ∙ and_true _)
            | inr g ↦ rw (route_upstream_host, leads_to, e, f, g) (sym (and_false _))
          ]
        ]
  ]

  lists-add_route_host :
      (hosts : List Bytes) (route : RouteConfig) (h : Bytes)
      → lists (add_route_host parse_url hosts route.upstream) h
        ≡ (lists hosts h || is_host h (route_upstream_host parse_url route.upstream))
  unfolding add_route_host
  lists-add_route_host hosts route h =
      elim (Option-cases (route_upstream_host parse_url route.upstream)) [
        | inl e ↦ rw (add_route_host, e) (or_false (lists hosts h))
        | inr (a, e) ↦ elim (Bool-cases (lists hosts a)) [
          | inl f ↦ rw (add_route_host, e, f) (sym (lists-again hosts a h f))
          | inr f ↦
              rw (add_route_host, e, f)
                (lists-append hosts (a ∷ []) h ∙ ap (λ b. lists hosts h || b) (sym (or_false _)))
        ]
      ]
    where
      or_false : (b : Bool) → b ≡ (b || false)
      or_false true = refl
      or_false false = refl

  or_assoc : (a b c : Bool) → ((a || b) || c) ≡ (a || (b || c))
  or_assoc true b c = refl
  or_assoc false b c = refl

  lists-add_route_hosts :
      (hosts : List Bytes) (routes : List RouteConfig) (h : Bytes)
      → lists (add_route_hosts parse_url hosts routes) h
        ≡ (lists hosts h || any (leads_to h) routes)
  unfolding add_route_hosts
  lists-add_route_hosts hosts [] h = ground arith
  lists-add_route_hosts hosts (route ∷ routes) h =
      lists-add_route_hosts (add_route_host parse_url hosts route.upstream) routes h
      ∙ ap (λ b. b || any (leads_to h) routes)
          (lists-add_route_host hosts route h ∙ ap (λ b. lists hosts h || b) (leads_to_lem h route))
      ∙ or_assoc (lists hosts h) (leads_to h route) (any (leads_to h) routes)

  lists-empty : (hosts : List Bytes) (h : Bytes) → is_empty hosts ≡ true → lists hosts h ≡ false
  lists-empty [] h e = refl
  lists-empty (x ∷ hosts) h e = absurd (cc e)

  -- Unless every host is allowed, the filter lists, in upper or lower case, exactly the hosts
  -- given and the upstream hosts of the http and https routes; or there are none of either, and
  -- it lists only the host that stands for no host at all.
  pub effective_filter_hosts-lists :
      (hosts : List Bytes) (routes : List RouteConfig)
      → ((h : Bytes)
          → lists (effective_filter_hosts parse_url hosts routes false) h
            ≡ (lists hosts h || any (leads_to h) routes))
        ⊎ ((effective_filter_hosts parse_url hosts routes false ≡ deny_all_connect_host ∷ [])
            × ((h : Bytes) → (lists hosts h || any (leads_to h) routes) ≡ false))
  unfolding effective_filter_hosts
  effective_filter_hosts-lists hosts routes =
      elim (Bool-cases (is_empty (add_route_hosts parse_url hosts routes))) [
        | inl e ↦ inr (
          rw (effective_filter_hosts, e) refl,
          λ h. sym (lists-add_route_hosts hosts routes h) ∙ lists-empty _ h e,
        )
        | inr e ↦ inl (λ h. rw (effective_filter_hosts, e) (lists-add_route_hosts hosts routes h))
      ]
