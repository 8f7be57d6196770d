-- ===== src/Policy/Groups/Denied.antt =====
-- The deny paths of a resolution.
use nono_py.Common.{
  Bytes, bytes_eq_iff, Bool, true, false, ◌||◌, any, List, [], ◌∷◌, ◌++◌, Option, none, some,
  Result, ok, err, ◌≡◌, refl, Bool-cases, inl, inr, subst, ap, sym, ◌∙◌, arith,
}
use nono_py.Nono.{CapabilityApi}
use nono_py.Policy.Types.{PolicyError, Platform}
use nono_py.Policy.Paths.{expand_path}
use nono_py.Policy.Checks.Laws.{same_path_self}
use nono_py.Policy.Checks.{components, same_path}
use nono_py.Policy.Files.{FileSystem, not_found, GroupError}
use nono_py.Policy.Files.Nearest.{IsThrough, resolve_parent-IsThrough}
use nono_py.Policy.Resolution.{Resolution, M, ◌>>=◌, lift, in_policy, push_deny, when_some, when}
use nono_py.Policy.Resolution.Keeps.{Keeps, >>=-eq-ok, when-Keeps}
use nono_py.Policy.Groups.{
  is_macos, same_file, canonical_of, other_than, parent_of, add_deny_access_rules, emit_all,
  deny_resolved, deny_canonical, deny_expanded,
}
use nono_py.Policy.Groups.Keeps.{IsKept, emit_all-Kept, deny_resolved-Kept, deny_canonical-Kept}

-- A path of the list is the same path.
abbrev pub covers : List Bytes → Bytes → Bool
covers ds p = any (λ d. same_file d p) ds

-- What is covered stays so.
abbrev pub Grows : {Caps : Type 0} → Resolution Caps → Resolution Caps → Type 0
Grows s t = (p : Bytes) → covers s.deny_paths p ≡ true → covers t.deny_paths p ≡ true

covers-append :
    (xs ys : List Bytes) (p : Bytes) → covers (xs ++ ys) p ≡ (covers xs p || covers ys p)
covers-append [] ys p = refl
covers-append (x ∷ xs) ys p = ground (arith, covers-append xs ys p)

pub grown_fields : (api : CapabilityApi) → IsKept api Grows
grown_fields api = record {
  stays = λ s p h. h;
  joins = λ s t u f g p h. g p (f p h);
  after_add = λ s c p h. h;
  after_rule = λ s rule caps e p h. h;
  after_push = λ s q p h. covers-append s.deny_paths (q ∷ []) p ∙ rw h refl;
}

covers_last : (ds : List Bytes) (p : Bytes) → covers (ds ++ p ∷ []) p ≡ true
covers_last ds p =
    covers-append ds (p ∷ []) p ∙ rw (same_path_self (components p)) (or_true (covers ds p))
  where
    or_true : (b : Bool) → (b || (true || false)) ≡ true
    or_true true = refl
    or_true false = refl

module _ (api : CapabilityApi) (os : Platform) (env : Bytes → Option Bytes) (fs : FileSystem) where
  -- The path as it is expanded is denied, the file that it leads to, and where there is none the
  -- path through its nearest parent that exists.
  pub record IsDenied (ds : List Bytes) (path_str : Bytes) : Type 0 where
    pub path : Bytes
    pub expanded : expand_path env path_str ≡ ok path
    pub itself : covers ds path ≡ true
    pub target : (c : Bytes) → fs.canonicalize path ≡ ok c → covers ds c ≡ true
    pub parent :
        fs.canonicalize path ≡ err not_found
        → (q : Bytes) × IsThrough fs path q × (covers ds q ≡ true)

  push_deny-covers :
      (p : Bytes) (s t : Resolution api.CapabilitySet) (u : Unit {0})
      → push_deny p s ≡ (ok u, t)
      → covers t.deny_paths p ≡ true
  push_deny-covers p s t u h =
      subst (λ x. covers x.deny_paths p ≡ true) (ap (λ x. x.1) h) (covers_last s.deny_paths p)

  abbrev Keeping : {A : Type 0} → M api.CapabilitySet A → Type 0
  Keeping m = Keeps Grows (grown_fields api).stays (grown_fields api).joins m

  lift-eq-ok :
      {A : Type 0} (r : Result GroupError A) (s t : Resolution api.CapabilitySet) (a : A)
      → lift r s ≡ (ok a, t)
      → (r ≡ ok a) × (s ≡ t)
  lift-eq-ok r s t a h = (ap (λ x. x.0) h, ap (λ x. x.1) h)

  in_policy-eq-ok : (r : Result PolicyError Bytes) (p : Bytes) → in_policy r ≡ ok p → r ≡ ok p
  in_policy-eq-ok (ok a) p h = ap ok (cc h)
  in_policy-eq-ok (err e) p h = absurd (cc h)

  some-covers :
      (o : Option Bytes) (q : Bytes) (s t : Resolution api.CapabilitySet) (u : Unit {0})
      → o ≡ some q
      → when_some o push_deny s ≡ (ok u, t)
      → covers t.deny_paths q ≡ true
  some-covers none q s t u e h = absurd (cc e)
  some-covers (some r) q s t u e h =
      subst (λ x. covers t.deny_paths x ≡ true) (cc e) (push_deny-covers r s t u h)

  rules-Grows :
      (path : Bytes) (canonical parent : Option Bytes) (s t : Resolution api.CapabilitySet)
      (u : Unit {0})
      → when (is_macos os) (emit_all api os env fs path canonical parent) s ≡ (ok u, t)
      → Grows s t
  rules-Grows path canonical parent s t u h =
      when-Keeps Grows (grown_fields api).stays (grown_fields api).joins (is_macos os)
        (emit_all api os env fs path canonical parent)
        (emit_all-Kept api os env fs Grows (grown_fields api) path canonical parent) s t u h

  deny_resolved-covers :
      (path : Bytes) (canonical parent : Option Bytes) (q : Bytes)
      (s t : Resolution api.CapabilitySet) (u : Unit {0})
      → parent ≡ some q
      → deny_resolved api os env fs path canonical parent s ≡ (ok u, t)
      → covers t.deny_paths q ≡ true
  deny_resolved-covers path canonical parent q s t u e h =
      let rest = when (is_macos os) (emit_all api os env fs path canonical parent) in
      let (u', s', first, second) = >>=-eq-ok (when_some parent push_deny) (λ _. rest) s h in
      rules-Grows path canonical parent s' t u second q (some-covers parent q s s' u' e first)

  deny_canonical-parts :
      (path : Bytes) (canonical : Option Bytes) (s t : Resolution api.CapabilitySet) (u : Unit {0})
      → deny_canonical api os env fs path canonical s ≡ (ok u, t)
      → ((c : Bytes)
          → other_than api os env fs path canonical ≡ some c
          → covers t.deny_paths c ≡ true)
        × ((parent : Option Bytes) × (parent_of api os env fs path canonical ≡ ok parent)
            × ((q : Bytes) → parent ≡ some q → covers t.deny_paths q ≡ true))
  deny_canonical-parts path canonical s t u h =
      let other = other_than api os env fs path canonical in
      let rest =
        lift (parent_of api os env fs path canonical) >>= deny_resolved api os env fs path other in
      let (u', s1, first, h1) = >>=-eq-ok (when_some other push_deny) (λ _. rest) s h in
      let (parent, s2, second, h2) =
        >>=-eq-ok (lift (parent_of api os env fs path canonical))
          (deny_resolved api os env fs path other) s1 h1 in
      let (found, same) = lift-eq-ok (parent_of api os env fs path canonical) s1 s2 parent second in
      (
        λ c e.
            deny_resolved-Kept api os env fs Grows (grown_fields api) path other parent s2 t u h2 c
              (subst (λ x. covers x.deny_paths c ≡ true) same
                (some-covers other c s s1 u' e first)),
        (parent, found, λ q e. deny_resolved-covers path other parent q s2 t u e h2),
      )

  same_path_eq : (xs ys : List Bytes) → same_path xs ys ≡ true → xs ≡ ys
  unfolding same_path
  same_path_eq [] [] h = refl
  same_path_eq [] (y ∷ ys) h = absurd (cc h)
  same_path_eq (x ∷ xs) [] h = absurd (cc h)
  same_path_eq (x ∷ xs) (y ∷ ys) h = ground (arith, bytes_eq_iff x y, same_path_eq xs ys)

  -- A path that is the same as a covered one is covered.
  covers_same :
      (ds : List Bytes) (c p : Bytes)
      → same_file c p ≡ true
      → covers ds p ≡ true
      → covers ds c ≡ true
  covers_same ds c p e h =
      subst (λ x. any (λ d. same_path (components d) x) ds ≡ true)
        (sym (same_path_eq (components c) (components p) e)) h

  canonical_of-ok :
      (path c : Bytes) → fs.canonicalize path ≡ ok c → canonical_of api os env fs path ≡ ok (some c)
  unfolding canonical_of
  canonical_of-ok path c e = rw (canonical_of, e) refl

  canonical_of-missing :
      (path : Bytes)
      → fs.canonicalize path ≡ err not_found
      → canonical_of api os env fs path ≡ ok none
  unfolding canonical_of
  canonical_of-missing path e = rw (canonical_of, e) refl

  target-covers :
      (path c : Bytes) (canonical : Option Bytes) (ds : List Bytes)
      → canonical ≡ some c
      → covers ds path ≡ true
      → ((x : Bytes) → other_than api os env fs path canonical ≡ some x → covers ds x ≡ true)
      → covers ds c ≡ true
  target-covers path c none ds e h k = absurd (cc e)
  target-covers path c (some x) ds e h k = elim (Bool-cases (same_file x path)) [
    | inl same ↦ subst (λ y. covers ds y ≡ true) (cc e) (covers_same ds x path same h)
    | inr different ↦ subst (λ y. covers ds y ≡ true) (cc e) (k x (rw different refl))
  ]

  -- Where there is no file, the path through the nearest parent is asked for, and covered.
  parent-covers :
      (path : Bytes) (canonical parent : Option Bytes) (ds : List Bytes)
      → canonical ≡ none
      → parent_of api os env fs path canonical ≡ ok parent
      → covers ds path ≡ true
      → ((q : Bytes) → parent ≡ some q → covers ds q ≡ true)
      → (q : Bytes) × IsThrough fs path q × (covers ds q ≡ true)
  unfolding parent_of
  parent-covers path (some c) parent ds e h covered others = absurd (cc e)
  parent-covers path none parent ds e h covered others =
      let (q, through, found) = resolve_parent-IsThrough fs path parent h in
      elim found [
        | inl new ↦ (q, through, others q new)
        | inr (_, same) ↦ (q, through, covers_same ds q path same covered)
      ]

  pub add_deny_access_rules-IsDenied :
      (path_str : Bytes) (s t : Resolution api.CapabilitySet) (u : Unit {0})
      → add_deny_access_rules api os env fs path_str s ≡ (ok u, t)
      → IsDenied t.deny_paths path_str
  unfolding add_deny_access_rules
  add_deny_access_rules-IsDenied path_str s t u h =
      let (path, s1, e1, h1) =
        >>=-eq-ok (lift (in_policy (expand_path env path_str))) (deny_expanded api os env fs) s h in
      let (expands, _) = lift-eq-ok (in_policy (expand_path env path_str)) s s1 path e1 in
      let rest = lift (canonical_of api os env fs path) >>= deny_canonical api os env fs path in
      let (u2, s2, e2, h2) = >>=-eq-ok (push_deny path) (λ _. rest) s1 h1 in
      let (canonical, s3, e3, h3) =
        >>=-eq-ok (lift (canonical_of api os env fs path)) (deny_canonical api os env fs path) s2
          h2 in
      let (found, same) = lift-eq-ok (canonical_of api os env fs path) s2 s3 canonical e3 in
      let (others, (parent, asked, parents)) = deny_canonical-parts path canonical s3 t u h3 in
      let covered : covers t.deny_paths path ≡ true =
        deny_canonical-Kept api os env fs Grows (grown_fields api) path canonical s3 t u h3 path
          (subst (λ x. covers x.deny_paths path ≡ true) same (push_deny-covers path s1 s2 u2 e2)) in
      record {
        path = path;
        expanded = in_policy-eq-ok (expand_path env path_str) path expands;
        itself = covered;
        target = λ c e.
            target-covers path c canonical t.deny_paths (cc (found, canonical_of-ok path c e))
              covered others;
        parent = λ e.
            parent-covers path canonical parent t.deny_paths
              (cc (found, canonical_of-missing path e)) asked covered parents;
      }
