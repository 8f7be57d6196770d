-- ===== src/Policy/Groups/Steps.antt =====
-- What each step of a group's resolution does to the deny paths and to the network.
use nono_py.Common.{
  Bytes, codes, Bool, true, false, ◌&&◌, ◌||◌, List, [], ◌∷◌, ◌++◌, Option, none, some, Result, ok,
  All, All-append, if◌then◌else◌, ◌≡◌, refl, Bool-cases, inl, inr, subst, ap, sym, ◌∙◌,
}
use nono_py.Nono.{CapabilityApi, KeepsNetwork}
use nono_py.SortedMap.{Pairs, lookup}
use nono_py.Policy.Types.{
  AllowOps, DenyOps, NetworkOps, Group, RustPolicy, Platform, group_matches_platform,
  network_requires_proxy,
}
use nono_py.Policy.Files.{FileSystem, GroupError}
use nono_py.Policy.Resolution.{Resolution, pure, when_some, when, each}
use nono_py.Policy.Resolution.Keeps.{>>=-eq-ok, when-Keeps, when_some-Keeps}
use nono_py.Policy.Groups.{
  is_macos, keys, platform_rule, add_deny_access_rules, allow_paths, deny_access, set_blocked,
  block_network, allow_symlink, wants_unlink_overrides, resolve_single_group,
}
use nono_py.Policy.Groups.Keeps.{
  IsKept, allow_paths-Kept, each_deny-Kept, unlink-Kept, symlinks-Kept,
}
use nono_py.Policy.Groups.Denied.{Grows, grown_fields, IsDenied, add_deny_access_rules-IsDenied}

abbrev pub access_of : Group → List Bytes
access_of group = elim group.deny [ none ↦ [] | some ops ↦ ops.access ]

abbrev pub blocks : Group → Bool
blocks group = elim group.network [
  | none ↦ false
  | some network ↦ network.block || network_requires_proxy network
]

abbrev pub unlinks : Group → Bool
unlinks group = elim group.deny [ none ↦ false | some ops ↦ ops.unlink_override_for_user_writable ]

-- The named groups that are for the platform.
abbrev pub applicable : Platform → RustPolicy → List Bytes → Pairs Group
applicable os groups [] = []
applicable os groups (name ∷ names) = elim (lookup name groups) [
  | none ↦ applicable os groups names
  | some group ↦
      if group_matches_platform os group
      then (name, group) ∷ applicable os groups names
      else applicable os groups names
]

module _ (api : CapabilityApi) (os : Platform) (env : Bytes → Option Bytes) (fs : FileSystem)
    (net : KeepsNetwork api) where
  -- Whether the network is blocked.
  abbrev pub blocked : Resolution api.CapabilitySet → Bool
  blocked s = api.is_network_blocked s.caps

  abbrev pub SameNetwork : Resolution api.CapabilitySet → Resolution api.CapabilitySet → Type 0
  SameNetwork s t = blocked t ≡ blocked s

  kept_network : IsKept api SameNetwork
  kept_network = record {
    stays = λ s. refl;
    joins = λ s t u f g. g ∙ f;
    after_add = λ s c. net.after_add_fs c s.caps;
    after_rule = λ s rule caps e. net.after_rule rule s.caps caps e;
    after_push = λ s p. refl;
  }

  IsDenied-Grows :
      (s t : Resolution api.CapabilitySet) (p : Bytes)
      → Grows s t
      → IsDenied api os env fs s.deny_paths p
      → IsDenied api os env fs t.deny_paths p
  IsDenied-Grows s t p g d = record {
    path = d.path;
    expanded = d.expanded;
    itself = g d.path d.itself;
    target = λ c e. g c (d.target c e);
    parent = λ e. let (q, through, h) = d.parent e in (q, through, g q h);
  }

  each-IsDenied :
      (ps : List Bytes) (s t : Resolution api.CapabilitySet) (u : Unit {0})
      → each (add_deny_access_rules api os env fs) ps s ≡ (ok u, t)
      → All (IsDenied api os env fs t.deny_paths) ps
  unfolding each
  each-IsDenied [] s t u h = tt
  each-IsDenied (p ∷ ps) s t u h =
      let deny = add_deny_access_rules api os env fs in
      let (u', s', first, second) = >>=-eq-ok (deny p) (λ _. each deny ps) s h in
      (
        IsDenied-Grows s' t p
            (each_deny-Kept api os env fs Grows (grown_fields api) ps s' t u second)
            (add_deny_access_rules-IsDenied api os env fs p s s' u' first),
        each-IsDenied ps s' t u second,
      )

  All-IsDenied :
      (s t : Resolution api.CapabilitySet) (ps : List Bytes)
      → Grows s t
      → All (IsDenied api os env fs s.deny_paths) ps
      → All (IsDenied api os env fs t.deny_paths) ps
  All-IsDenied s t [] g d = tt
  All-IsDenied s t (p ∷ ps) g (d, ds) = (IsDenied-Grows s t p g d, All-IsDenied s t ps g ds)

  -- What an action does to the two parts of the state.
  pub record Did (ps : List Bytes) (block : Bool) (s t : Resolution api.CapabilitySet)
      : Type 0 where
    pub grows : Grows s t
    pub network : blocked t ≡ (blocked s || block)
    pub denied : All (IsDenied api os env fs t.deny_paths) ps

  or_assoc : (a b c : Bool) → ((a || b) || c) ≡ (a || (b || c))
  or_assoc true b c = refl
  or_assoc false b c = refl

  or_false : (a : Bool) → a ≡ (a || false)
  or_false true = refl
  or_false false = refl

  pub both :
      (ps qs : List Bytes) (b c : Bool) (s t u : Resolution api.CapabilitySet)
      → Did ps b s t
      → Did qs c t u
      → Did (ps ++ qs) (b || c) s u
  both ps qs b c s t u x y = record {
    grows = λ p h. y.grows p (x.grows p h);
    network = y.network ∙ ap (λ n. n || c) x.network ∙ or_assoc (blocked s) b c;
    denied = All-append _ ps qs (All-IsDenied t u ps y.grows x.denied) y.denied;
  }

  pub quietly :
      (s t : Resolution api.CapabilitySet) → Grows s t → SameNetwork s t → Did [] false s t
  quietly s t g n = record { grows = g; network = n ∙ or_false (blocked s); denied = tt }

  allow-Did :
      (name : Bytes) (o : Option AllowOps) (s t : Resolution api.CapabilitySet) (u : Unit {0})
      → when_some o (allow_paths api os env fs name) s ≡ (ok u, t)
      → Did [] false s t
  allow-Did name o s t u h =
      let f = allow_paths api os env fs name in
      let g = grown_fields api in
      let n = kept_network in
      quietly s t
        (when_some-Keeps Grows g.stays g.joins o f (allow_paths-Kept api os env fs Grows g name) s t
          u h)
        (when_some-Keeps SameNetwork n.stays n.joins o f
          (allow_paths-Kept api os env fs SameNetwork n name) s t u h)

  access-Did :
      (o : Option DenyOps) (s t : Resolution api.CapabilitySet) (u : Unit {0})
      → when_some o (deny_access api os env fs) s ≡ (ok u, t)
      → Did (elim o [ none ↦ [] | some ops ↦ ops.access ]) false s t
  access-Did none s t u h =
      let q : s ≡ t = ap (λ x. x.1) h in
      subst (λ x. Did [] false s x) q (quietly s s (λ p k. k) refl)
  access-Did (some ops) s t u h =
      let deny = each (add_deny_access_rules api os env fs) ops.access in
      let unlink =
        when (ops.unlink && is_macos os) (platform_rule api (codes "(deny file-write-unlink)")) in
      let g = grown_fields api in
      let n = kept_network in
      let (u', s', first, second) = >>=-eq-ok deny (λ _. unlink) s h in
      let later = unlink-Kept api os env fs Grows g ops s' t u second in
      record {
        grows = λ p k. later p (each_deny-Kept api os env fs Grows g ops.access s s' u' first p k);
        network =
            unlink-Kept api os env fs SameNetwork n ops s' t u second
            ∙ each_deny-Kept api os env fs SameNetwork n ops.access s s' u' first
            ∙ or_false (blocked s);
        denied = All-IsDenied s' t ops.access later (each-IsDenied ops.access s s' u' first);
      }

  block-Did :
      (o : Option NetworkOps) (s t : Resolution api.CapabilitySet) (u : Unit {0})
      → when_some o (block_network api os env fs) s ≡ (ok u, t)
      → Did []
          (elim o [ none ↦ false | some network ↦ network.block || network_requires_proxy network ])
          s
          t
  block-Did none s t u h =
      let q : s ≡ t = ap (λ x. x.1) h in
      subst (λ x. Did [] false s x) q (quietly s s (λ p k. k) refl)
  block-Did (some network) s t u h =
      elim (Bool-cases (network.block || network_requires_proxy network)) [
        | inl e ↦
            let h' : ◌≡◌ {A = Result GroupError (Unit {0}) × Resolution api.CapabilitySet}
                (set_blocked api os env fs s) (ok u, t) =
              rw e at h in
            let q : record s { caps = api.set_network_blocked true s.caps } ≡ t =
              ap (λ x. x.1) h' in
            rw e (
              subst (λ x. Did [] true s x) q
                (record {
                  grows = λ p k. k;
                  network = net.after_set true s.caps ∙ or_true (blocked s);
                  denied = tt;
                }))
        | inr e ↦
            let h' : ◌≡◌ {A = Result GroupError (Unit {0}) × Resolution api.CapabilitySet}
                (ok tt, s) (ok u, t) =
              rw e at h in
            let q : s ≡ t = ap (λ x. x.1) h' in
            rw e (subst (λ x. Did [] false s x) q (quietly s s (λ p k. k) refl))
      ]
    where
      or_true : (b : Bool) → true ≡ (b || true)
      or_true true = refl
      or_true false = refl

  symlinks-Did :
      (o : Option (Pairs Bytes)) (s t : Resolution api.CapabilitySet) (u : Unit {0})
      → when
          (is_macos os)
          (when_some o (λ pairs. each (allow_symlink api os env fs) (keys pairs)))
          s
        ≡ (ok u, t)
      → Did [] false s t
  symlinks-Did o s t u h =
      let f = λ (pairs : Pairs Bytes). each (allow_symlink api os env fs) (keys pairs) in
      let g = grown_fields api in
      let n = kept_network in
      quietly s t
        (when-Keeps Grows g.stays g.joins (is_macos os) (when_some o f)
          (when_some-Keeps Grows g.stays g.joins o f
            (λ pairs. symlinks-Kept api os env fs Grows g (keys pairs)))
          s t u h)
        (when-Keeps SameNetwork n.stays n.joins (is_macos os) (when_some o f)
          (when_some-Keeps SameNetwork n.stays n.joins o f
            (λ pairs. symlinks-Kept api os env fs SameNetwork n (keys pairs)))
          s t u h)

  append-nil : {A : Type 0} (xs : List A) → xs ++ [] ≡ xs
  append-nil [] = refl
  append-nil (x ∷ xs) = ap (λ ys. x ∷ ys) (append-nil xs)

  four :
      (ps : List Bytes) (b : Bool) (s s1 s2 s3 t : Resolution api.CapabilitySet)
      → Did [] false s s1
      → Did ps false s1 s2
      → Did [] b s2 s3
      → Did [] false s3 t
      → Did ps b s t
  four ps b s s1 s2 s3 t x y z w =
      let xy : Did ps false s s2 = both [] ps false false s s1 s2 x y in
      let zw : Did [] (b || false) s2 t = both [] [] b false s2 s3 t z w in
      let all' : Did (ps ++ []) (b || false) s t = both ps [] false (b || false) s s2 t xy zw in
      let first : Did ps (b || false) s t =
        subst (λ qs. Did qs (b || false) s t) (append-nil ps) all' in
      subst (λ c. Did ps c s t) (sym (or_false b)) first

  pub single-Did :
      (name : Bytes) (group : Group) (s t : Resolution api.CapabilitySet) (b : Bool)
      → resolve_single_group api os env fs name group s ≡ (ok b, t)
      → Did (access_of group) (blocks group) s t × (b ≡ unlinks group)
  unfolding resolve_single_group
  single-Did name group s t b h =
      let (_, s1, e1, h1) =
        >>=-eq-ok (when_some group.allow (allow_paths api os env fs name)) _ s h in
      let (_, s2, e2, h2) = >>=-eq-ok (when_some group.deny (deny_access api os env fs)) _ s1 h1 in
      let (_, s3, e3, h3) =
        >>=-eq-ok (when_some group.network (block_network api os env fs)) _ s2 h2 in
      let (_, s4, e4, h4) =
        >>=-eq-ok
          (when (is_macos os) (
            when_some group.symlink_pairs
              (λ pairs. each (allow_symlink api os env fs) (keys pairs))))
          _ s3 h3 in
      let a = allow-Did name group.allow s s1 tt e1 in
      let d = access-Did group.deny s1 s2 tt e2 in
      let n = block-Did group.network s2 s3 tt e3 in
      let l = symlinks-Did group.symlink_pairs s3 s4 tt e4 in
      let q : s4 ≡ t = ap (λ x. x.1) h4 in
      let w : wants_unlink_overrides api os env fs group.deny ≡ b = pure-eq-ok _ b s4 t h4 in
      (
        subst (λ x. Did (access_of group) (blocks group) s x) q
            (four (access_of group) (blocks group) s s1 s2 s3 s4 a d n l),
        sym w ∙ wants_lem group.deny,
      )
    where
      pure-eq-ok : (x y : Bool) (u v : Resolution api.CapabilitySet) → pure x u ≡ (ok y, v) → x ≡ y
      pure-eq-ok x y u v k = cc k

      wants_lem :
          (o : Option DenyOps)
          → wants_unlink_overrides api os env fs o
            ≡ (elim o [ none ↦ false | some ops ↦ ops.unlink_override_for_user_writable ])
      wants_lem none = refl
      wants_lem (some ops) = refl
