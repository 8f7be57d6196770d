-- ===== src/Policy/Network/Blank.antt =====
-- When nothing is gathered.
use nono_py.Common.{
  ℕ, Bytes, Bool, true, false, ◌&&◌, ◌||◌, not, is_empty, is_some, all, List, [], ◌∷◌, ◌++◌, map,
  Option, none, some, ok, >>=-eq-ok, ◌≡◌, refl, sym, ap, ◌∙◌, inl, inr, Bool-cases, arith,
  if◌then◌else◌,
}
use nono_py.Policy.Types.{NetworkOps, network_requires_proxy}
use nono_py.Policy.Network.{
  Gathered, has, push_new, set_upstream, min_limit, gather, is_blank, into_route,
}
use nono_py.Policy.Network.Selected.{gather_all, stepped, gather-eq-ok}
use nono_py.Policy.Network.Merging.{set_upstream-eq-ok}

is_empty-append : {A : Type 0} (xs ys : List A) → is_empty (xs ++ ys) ≡ (is_empty xs && is_empty ys)
is_empty-append [] ys = refl
is_empty-append (x ∷ xs) ys = refl

is_empty-map : {A B : Type 0} (f : A → B) (xs : List A) → is_empty (map f xs) ≡ is_empty xs
is_empty-map f [] = refl
is_empty-map f (x ∷ xs) = refl

push_new-nonempty : (xs hs : List Bytes) → is_empty xs ≡ false → is_empty (push_new xs hs) ≡ false
unfolding push_new
push_new-nonempty xs [] e = e
push_new-nonempty xs (h ∷ hs) e =
    push_new-nonempty (if has xs h then xs else xs ++ h ∷ []) hs (elim (Bool-cases (has xs h)) [
      | inl f ↦ rw f e
      | inr f ↦ rw f (is_empty-append xs (h ∷ []) ∙ ground (arith, e))
    ])

push_new-empty : (xs hs : List Bytes) → is_empty (push_new xs hs) ≡ (is_empty xs && is_empty hs)
unfolding push_new
push_new-empty xs [] = ground arith
push_new-empty [] (h ∷ hs) = push_new-nonempty (h ∷ []) hs refl
push_new-empty (x ∷ xs) (h ∷ hs) = push_new-nonempty (x ∷ xs) (h ∷ hs) refl

set_upstream-blank :
    (a b : Option Bytes) {u : Option Bytes}
    → set_upstream a b ≡ ok u
    → not (is_some u) ≡ (not (is_some a) && not (is_some b))
unfolding set_upstream
set_upstream-blank none none {u} h = let q : u ≡ none = cc h in rw q refl
set_upstream-blank (some x) none {u} h = let q : u ≡ some x = cc h in rw q refl
set_upstream-blank none (some y) {u} h = let q : u ≡ some y = cc h in rw q refl
set_upstream-blank (some x) (some y) {u} h =
    let (q, _) = set_upstream-eq-ok (some x) (some y) h in rw q refl

min_limit-blank :
    (a b : Option ℕ) → not (is_some (min_limit a b)) ≡ (not (is_some a) && not (is_some b))
min_limit-blank none none = refl
min_limit-blank (some c) none = refl
min_limit-blank none (some l) = refl
min_limit-blank (some c) (some l) = refl

-- The tests of `is_blank` and `network_requires_proxy`, in the order that a step brings.
shuffle :
    (a a' b b' s s' p p' m m' : Bool)
    → ((a && a') && (b && b') && (not s && not s') && (p && p') && (not m && not m')) ≡ (
        (a && b && not s && p && not m) && not (not a' || not true || not b' || s' || not p' || m'))
shuffle a a' b b' s s' p p' m m' = ground arith

stepped-blank :
    (g : Gathered) (n : NetworkOps) {up : Option Bytes}
    → is_empty n.credentials ≡ true
    → set_upstream g.upstream_proxy n.upstream_proxy ≡ ok up
    → is_blank (stepped g n up) ≡ (is_blank g && not (network_requires_proxy n))
stepped-blank g n {up} c s =
    rw
      (
        push_new-empty g.allowed_hosts n.allow_domain,
        is_empty-append g.routes (map (λ p. into_route p.1) n.custom_credentials),
        is_empty-map (λ p. into_route p.1) n.custom_credentials,
        set_upstream-blank g.upstream_proxy n.upstream_proxy s,
        push_new-empty g.upstream_bypass n.upstream_bypass,
        min_limit-blank g.max_connections n.max_connections,
        c,
      )
      (shuffle (is_empty g.allowed_hosts) (is_empty n.allow_domain) (is_empty g.routes)
        (is_empty n.custom_credentials) (is_some g.upstream_proxy) (is_some n.upstream_proxy)
        (is_empty g.upstream_bypass) (is_empty n.upstream_bypass) (is_some g.max_connections)
        (is_some n.max_connections))

and_assoc : (a b c : Bool) → ((a && b) && c) ≡ (a && (b && c))
and_assoc true b c = refl
and_assoc false b c = refl

pub gather_all-blank :
    (g : Gathered) (ns : List NetworkOps) {r : Gathered}
    → gather_all g ns ≡ ok r
    → is_blank r ≡ (is_blank g && all (λ n. not (network_requires_proxy n)) ns)
unfolding gather_all
gather_all-blank g [] {r} e = let q : g ≡ r = cc e in ap is_blank (sym q) ∙ ground arith
gather_all-blank g (n ∷ ns) e =
    let (g', step, rest) = >>=-eq-ok (gather g n) _ e in
    let (c, (up, s, q)) = gather-eq-ok g n step in
    gather_all-blank g' ns rest
    ∙ ap (λ b. b && all (λ m. not (network_requires_proxy m)) ns)
        (ap is_blank q ∙ stepped-blank g n c s)
    ∙ and_assoc (is_blank g) (not (network_requires_proxy n))
        (all (λ m. not (network_requires_proxy m)) ns)
