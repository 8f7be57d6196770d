-- ===== src/Policy/Groups/Laws.antt =====
-- What a resolution has done when it succeeds.
use nono_py.Common.{
  Bytes, Bool, true, false, ◌||◌, any, List, [], ◌∷◌, ◌++◌, Option, Result, ok, err, All, ◌≡◌, refl,
  Option-cases, Bool-cases, inl, inr, subst, ap, sym, ◌∙◌, arith,
}
use nono_py.Nono.{CapabilityApi, KeepsNetwork}
use nono_py.SortedMap.{Pairs, lookup}
use nono_py.Policy.Types.{Group, RustPolicy, Platform, group_matches_platform}
use nono_py.Policy.Files.{FileSystem, GroupError}
use nono_py.Policy.Resolution.{Resolution, ◌>>=◌, pure}
use nono_py.Policy.Resolution.Keeps.{>>=-eq-ok}
use nono_py.Policy.Groups.{resolve_single_group, resolve_from, resolve_groups_impl}
use nono_py.Policy.Groups.Steps.{
  access_of, blocks, unlinks, applicable, Did, both, quietly, single-Did,
}
use nono_py.Policy.Groups.Denied.{IsDenied}

abbrev pub names_of : Pairs Group → List Bytes
names_of [] = []
names_of ((name, group) ∷ groups) = name ∷ names_of groups

abbrev pub accesses : Pairs Group → List Bytes
accesses [] = []
accesses ((name, group) ∷ groups) = access_of group ++ accesses groups

append-nil : {A : Type 0} (xs : List A) → xs ++ [] ≡ xs
append-nil [] = refl
append-nil (x ∷ xs) = ap (λ ys. x ∷ ys) (append-nil xs)

append_assoc : (xs ys zs : List Bytes) → (xs ++ ys) ++ zs ≡ xs ++ (ys ++ zs)
append_assoc [] ys zs = refl
append_assoc (x ∷ xs) ys zs = ap (λ l. x ∷ l) (append_assoc xs ys zs)

pure-result : {Caps A : Type 0} (a b : A) (s t : Resolution Caps) → pure a s ≡ (ok b, t) → a ≡ b
pure-result a b s t h = cc h

module _ (api : CapabilityApi) (os : Platform) (env : Bytes → Option Bytes) (fs : FileSystem)
    (net : KeepsNetwork api) where
  -- What the resolution of groups leaves, from the state before it.
  record Resolves (groups : Pairs Group) (names : List Bytes) (overrides : Bool)
      (s t : Resolution api.CapabilitySet) (r : List Bytes × Bool) : Type 0 where
    did : Did api os env fs net (accesses groups) (any (λ g. blocks g.1) groups) s t
    resolved : r.0 ≡ names ++ names_of groups
    wants : r.1 ≡ (any (λ g. unlinks g.1) groups || overrides)

  none-Resolves :
      (done : List Bytes) (overrides : Bool) (s t : Resolution api.CapabilitySet)
      (r : List Bytes × Bool)
      → pure (done, overrides) s ≡ (ok r, t)
      → Resolves [] done overrides s t r
  none-Resolves done overrides s t r h =
      let q : s ≡ t = ap (λ x. x.1) h in
      let w : ◌≡◌ {A = List Bytes × Bool} (done, overrides) r =
        pure-result (done, overrides) r s t h in
      record {
        did =
            subst (λ x. Did api os env fs net [] false s x) q
              (quietly api os env fs net s s (λ p k. k) refl);
        resolved = ap (λ x. x.0) (sym w) ∙ sym (append-nil done);
        wants = ap (λ x. x.1) (sym w);
      }

  more-Resolves :
      (name : Bytes) (group : Group) (rest : Pairs Group) (done : List Bytes)
      (overrides wants : Bool) (s s' t : Resolution api.CapabilitySet) (r : List Bytes × Bool)
      → Did api os env fs net (access_of group) (blocks group) s s'
      → wants ≡ unlinks group
      → Resolves rest (done ++ name ∷ []) (wants || overrides) s' t r
      → Resolves ((name, group) ∷ rest) done overrides s t r
  more-Resolves name group rest done overrides wants s s' t r d w l = record {
    did =
        both api os env fs net (access_of group) (accesses rest) (blocks group)
          (any (λ g. blocks g.1) rest) s s' t d l.did;
    resolved = l.resolved ∙ append_assoc done (name ∷ []) (names_of rest);
    wants =
        l.wants
        ∙ ap (λ b. any (λ g. unlinks g.1) rest || (b || overrides)) w
        ∙ swap (any (λ g. unlinks g.1) rest) (unlinks group) overrides;
  }
    where
      swap : (a b c : Bool) → (a || (b || c)) ≡ ((b || a) || c)
      swap a b c = ground arith

  resolve_from-Resolves :
      (policy : RustPolicy) (names done : List Bytes) (overrides : Bool)
      (s t : Resolution api.CapabilitySet) (r : List Bytes × Bool)
      → resolve_from api os env fs policy (done, overrides) names s ≡ (ok r, t)
      → Resolves (applicable os policy names) done overrides s t r
  unfolding resolve_from
  resolve_from-Resolves policy [] done overrides s t r h = none-Resolves done overrides s t r h
  resolve_from-Resolves policy (name ∷ names) done overrides s t r h =
      elim (Option-cases (lookup name policy)) [
        | inl e ↦
            let h' : ◌≡◌ {A = Result GroupError (List Bytes × Bool) × Resolution api.CapabilitySet}
                (err _, s) (ok r, t) =
              rw (resolve_from, e) at h in
            absurd (cc h')
        | inr (group, e) ↦ elim (Bool-cases (group_matches_platform os group)) [
          | inr f ↦
              let h' : resolve_from api os env fs policy (done, overrides) names s ≡ (ok r, t) =
                rw (resolve_from, e, f) at h in
              rw (applicable, e, f) (resolve_from-Resolves policy names done overrides s t r h')
          | inl f ↦
              let single = resolve_single_group api os env fs name group in
              let rest = λ (wants : Bool).
                resolve_from api os env fs policy (done ++ name ∷ [], wants || overrides) names in
              let h' : (single >>= rest) s ≡ (ok r, t) = rw (resolve_from, e, f) at h in
              let (wants, s', first, second) = >>=-eq-ok single rest s h' in
              let later =
                resolve_from-Resolves policy names (done ++ name ∷ []) (wants || overrides) s' t r
                  second in
              let (d, w) = single-Did api os env fs net name group s s' wants first in
              rw (applicable, e, f)
                (more-Resolves name group (applicable os policy names) done overrides wants s s' t r
                  d w later)
        ]
      ]

  -- The outcome, against the groups that are for the platform.
  pub record IsResolved (policy : RustPolicy) (group_names : List Bytes) (caps : api.CapabilitySet)
      (r : List Bytes × Bool) (t : Resolution api.CapabilitySet) : Type 0 where
    pub names : r.0 ≡ names_of (applicable os policy group_names)
    pub overrides : r.1 ≡ any (λ g. unlinks g.1) (applicable os policy group_names)
    pub denied :
        All (IsDenied api os env fs t.deny_paths) (accesses (applicable os policy group_names))
    pub network :
        api.is_network_blocked t.caps
        ≡ (api.is_network_blocked caps || any (λ g. blocks g.1) (applicable os policy group_names))

  -- When the groups resolve, the names are those of the groups that are for the platform, each path
  -- that one of them denies is denied as it is expanded, also under its canonical name or, if there is
  -- no such file, through the canonical name of its nearest parent that exists, and the network is blocked exactly if it was or one of them blocks it or needs the
  -- proxy; unlink overrides are wanted exactly if one of them wants them.
  pub resolve_groups_impl-IsResolved :
      (policy : RustPolicy) (names : List Bytes) (caps : api.CapabilitySet) (r : List Bytes × Bool)
      (t : Resolution api.CapabilitySet)
      → resolve_groups_impl api os env fs policy names caps ≡ (ok r, t)
      → IsResolved policy names caps r t
  unfolding resolve_groups_impl
  resolve_groups_impl-IsResolved policy names caps r t h =
      let start : Resolution api.CapabilitySet = record { caps = caps; deny_paths = [] } in
      let l = resolve_from-Resolves policy names [] false start t r h in
      record {
        names = l.resolved;
        overrides = l.wants ∙ or_false _;
        denied = l.did.denied;
        network = l.did.network;
      }
    where
      or_false : (b : Bool) → (b || false) ≡ b
      or_false true = refl
      or_false false = refl
