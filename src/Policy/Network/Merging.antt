-- ===== src/Policy/Network/Merging.antt =====
-- The hosts, the limits and the upstream proxies that the loop gathers.
use nono_py.Common.{
  ℕ, Bytes, bytes_eq, bytes_eq_iff, Bool, true, false, ◌||◌, any, leb, List, [], ◌∷◌, ◌++◌, Option,
  none, some, ok, err, >>=-eq-ok, ◌≡◌, refl, ap, ◌∙◌, inl, inr, ◌≤◌, All, Bool-cases, Option-cases,
  arith, subst, if◌then◌else◌,
}
use nono_py.Policy.Types.{NetworkOps}
use nono_py.Policy.Network.{Gathered, has, push_new, set_upstream, min_limit, gather}
use nono_py.Policy.Network.Selected.{gather_all, gather-eq-ok}

has-append : (xs ys : List Bytes) (h : Bytes) → has (xs ++ ys) h ≡ (has xs h || has ys h)
has-append [] ys h = refl
has-append (x ∷ xs) ys h = ground (arith, has-append xs ys h)

bytes_eq-has :
    (xs : List Bytes) (x h : Bytes) → has xs x ≡ true → bytes_eq x h ≡ true → has xs h ≡ true
bytes_eq-has xs x h m e = subst (λ y. has xs y ≡ true) ((bytes_eq_iff x h).0 e) m

push_one-has :
    (xs : List Bytes) (x h : Bytes)
    → has (if has xs x then xs else xs ++ x ∷ []) h ≡ (has xs h || bytes_eq x h)
push_one-has xs x h = elim (Bool-cases (has xs x)) [
  | inl e ↦ elim (Bool-cases (bytes_eq x h)) [
    | inl f ↦ let m : has xs h ≡ true = bytes_eq-has xs x h e f in rw (e, f, m) refl
    | inr f ↦ rw (e, f) (ground arith)
  ]
  | inr e ↦ rw e (has-append xs (x ∷ []) h ∙ ground arith)
]

or_assoc : (a b c : Bool) → ((a || b) || c) ≡ (a || (b || c))
or_assoc true b c = refl
or_assoc false b c = refl

push_new-has : (xs hs : List Bytes) (h : Bytes) → has (push_new xs hs) h ≡ (has xs h || has hs h)
unfolding push_new
push_new-has xs [] h = ground arith
push_new-has xs (x ∷ hs) h =
    push_new-has (if has xs x then xs else xs ++ x ∷ []) hs h
    ∙ ap (λ b. b || has hs h) (push_one-has xs x h)
    ∙ or_assoc (has xs h) (bytes_eq x h) (has hs h)

pub gather_all-hosts :
    (g : Gathered) (ns : List NetworkOps) {r : Gathered} (h : Bytes)
    → gather_all g ns ≡ ok r
    → has r.allowed_hosts h ≡ (has g.allowed_hosts h || any (λ n. has n.allow_domain h) ns)
unfolding gather_all
gather_all-hosts g [] h e = ground arith
gather_all-hosts g (n ∷ ns) {r} h e =
    let (g', step, rest) = >>=-eq-ok (gather g n) _ e in
    let (_, (up, _, q)) = gather-eq-ok g n step in
    gather_all-hosts g' ns h rest
    ∙ ap (λ b. b || any (λ m. has m.allow_domain h) ns)
        (ap (λ x. has x.allowed_hosts h) q ∙ push_new-has g.allowed_hosts n.allow_domain h)
    ∙ or_assoc (has g.allowed_hosts h) (has n.allow_domain h) (any (λ m. has m.allow_domain h) ns)

-- The limit is set, and at most the given one if that is set.
abbrev pub Within : Option ℕ → Option ℕ → Type 0
Within current none = Unit
Within current (some l) = (c : ℕ) × (current ≡ some c) × (c ≤ l)

min_limit-left : (a b : Option ℕ) → Within (min_limit a b) a
min_limit-left none b = tt
min_limit-left (some c) none = (c, refl, omega arith)
min_limit-left (some c) (some l) = elim (Bool-cases (leb c l)) [
  | inl e ↦ (c, rw e refl, omega arith)
  | inr e ↦ (l, rw e refl, ground arith)
]

min_limit-right : (a b : Option ℕ) → Within (min_limit a b) b
min_limit-right a none = tt
min_limit-right none (some l) = (l, refl, omega arith)
min_limit-right (some c) (some l) = elim (Bool-cases (leb c l)) [
  | inl e ↦ (c, rw e refl, ground arith)
  | inr e ↦ (l, rw e refl, omega arith)
]

Within-trans : (a b c : Option ℕ) → Within a b → Within b c → Within a c
Within-trans a b none h k = tt
Within-trans a none (some l) h (c, e, k) = absurd (cc e)
Within-trans a (some m) (some l) (x, e, h) (c, f, k) = (x, e, ground arith)

Within-self : (a : Option ℕ) → Within a a
Within-self none = tt
Within-self (some c) = (c, refl, omega arith)

pub gather_all-limit :
    (g : Gathered) (ns : List NetworkOps) {r : Gathered}
    → gather_all g ns ≡ ok r
    → Within r.max_connections g.max_connections
      × All (λ n. Within r.max_connections n.max_connections) ns
unfolding gather_all
gather_all-limit g [] {r} e =
    let q : g ≡ r = cc e in
    (subst (λ x. Within x.max_connections g.max_connections) q (Within-self g.max_connections), tt)
gather_all-limit g (n ∷ ns) {r} e =
    let (g', step, rest) = >>=-eq-ok (gather g n) _ e in
    let (_, (up, _, q)) = gather-eq-ok g n step in
    let (first, later) = gather_all-limit g' ns rest in
    let first' : Within r.max_connections (min_limit g.max_connections n.max_connections) =
      subst (λ x. Within r.max_connections x.max_connections) q first in
    (
      Within-trans _ _ g.max_connections first'
          (min_limit-left g.max_connections n.max_connections),
      (
        Within-trans _ _ n.max_connections first'
            (min_limit-right g.max_connections n.max_connections),
        later,
      ),
    )

-- A setting is absent or the one in force.
abbrev pub Agrees : Option Bytes → Option Bytes → Type 0
Agrees u none = Unit
Agrees u (some a) = u ≡ some a

pub set_upstream-eq-ok :
    (a b : Option Bytes) {u : Option Bytes} → set_upstream a b ≡ ok u → Agrees u a × Agrees u b
unfolding set_upstream
set_upstream-eq-ok none none h = (tt, tt)
set_upstream-eq-ok (some x) none h = (cc h, tt)
set_upstream-eq-ok none (some y) h = (tt, cc h)
set_upstream-eq-ok (some x) (some y) {u} h = elim (Bool-cases (bytes_eq x y)) [
  | inl e ↦
      let h' : ok (some x) ≡ ok u = rw e at h in
      let q : u ≡ some x = cc h' in (q, q ∙ ap some ((bytes_eq_iff x y).0 e))
  | inr e ↦ let h' : err _ ≡ ok u = rw e at h in absurd (cc h')
]

Agrees-trans : (a b c : Option Bytes) → Agrees a b → Agrees b c → Agrees a c
Agrees-trans a b none h k = tt
Agrees-trans a b (some z) h k = subst (λ x. Agrees a x) k h

pub gather_all-upstream :
    (g : Gathered) (ns : List NetworkOps) {r : Gathered}
    → gather_all g ns ≡ ok r
    → Agrees r.upstream_proxy g.upstream_proxy
      × All (λ n. Agrees r.upstream_proxy n.upstream_proxy) ns
unfolding gather_all
gather_all-upstream g [] {r} e = elim (Option-cases g.upstream_proxy) [
  | inl f ↦ (rw f tt, tt)
  | inr (a, f) ↦ (rw f ground arith, tt)
]
gather_all-upstream g (n ∷ ns) {r} e =
    let (g', step, rest) = >>=-eq-ok (gather g n) _ e in
    let (_, (up, s, q)) = gather-eq-ok g n step in
    let (old, new) = set_upstream-eq-ok g.upstream_proxy n.upstream_proxy s in
    let (first, later) = gather_all-upstream g' ns rest in
    let first' : Agrees r.upstream_proxy up =
      subst (λ x. Agrees r.upstream_proxy x.upstream_proxy) q first in
    (
      Agrees-trans _ up g.upstream_proxy first' old,
      (Agrees-trans _ up n.upstream_proxy first' new, later),
    )
