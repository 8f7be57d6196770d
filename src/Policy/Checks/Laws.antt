-- ===== src/Policy/Checks/Laws.antt =====
-- The two checks of a policy against what they are meant to refuse.
use nono_py.Common.{
  bytes_eq_self, Bytes, bytes_eq, bytes_eq_iff, Bool, true, false, ◌&&◌, not, is_empty, List, [],
  ◌∷◌, ◌++◌, some, ok, err, ◌≡◌, refl, sym, ap₂, subst, ◌↔◌, inl, inr, All, Bool-cases,
  Option-cases, arith,
}
use nono_py.SortedMap.{lookup}
use nono_py.Policy.Types.{Group, RustPolicy, linux}
use nono_py.Policy.Checks.{
  components, same_path, path_starts_with, FsCapability, conflicts, cap_conflicts, fatal_conflicts,
  validate_deny_overlaps, is_required, violations, validate_group_exclusions,
}

pub same_path_self : (xs : List Bytes) → same_path xs xs ≡ true
unfolding same_path
same_path_self [] = refl
same_path_self (x ∷ xs) = ground (arith, bytes_eq_self x, same_path_self xs)

-- The path lies inside the other, at any depth.
abbrev pub IsInside : List Bytes → List Bytes → Type 0
IsInside path parent = (c : Bytes) × (rest : List Bytes) × (path ≡ parent ++ c ∷ rest)

path_starts_with-IsInside :
    (d p : List Bytes) → ((path_starts_with d p && not (same_path d p)) ≡ true) ↔ IsInside d p
unfolding path_starts_with same_path
path_starts_with-IsInside [] [] = ((λ h. absurd (cc h)), (λ (c, rest, e). absurd (cc e)))
path_starts_with-IsInside (x ∷ d) [] = ((λ h. (x, d, refl)), (λ h. refl))
path_starts_with-IsInside [] (y ∷ p) = ((λ h. absurd (cc h)), (λ (c, rest, e). absurd (cc e)))
path_starts_with-IsInside (x ∷ d) (y ∷ p) = elim (Bool-cases (bytes_eq x y)) [
  | inl e ↦
      let (to, from) = path_starts_with-IsInside d p in
      let q : x ≡ y = (bytes_eq_iff x y).0 e in
      (
        λ h.
            let h' : (path_starts_with d p && not (same_path d p)) ≡ true =
              rw (path_starts_with, same_path, e) at h in
            let (c, rest, k) = to h' in (c, rest, ap₂ (λ a b. a ∷ b) q k),
        λ (c, rest, k).
            let k' : d ≡ p ++ c ∷ rest = cc k in
            rw (path_starts_with, same_path, e) (from (c, rest, k')),
      )
  | inr e ↦ (
    (λ h. let h' : false ≡ true = rw (path_starts_with, same_path, e) at h in absurd (cc h')),
    (λ (c, rest, k).
        let q : x ≡ y = cc k in
        let f : bytes_eq x y ≡ true = (bytes_eq_iff x y).1 q in absurd (cc (e, f))),
  )
]

-- A directory that the user allowed holds the denied path.
abbrev pub IsConflict : Bytes → FsCapability → Type 0
IsConflict deny_path cap =
    (cap.is_file ≡ false)
    × (cap.user_intent ≡ true)
    × IsInside (components deny_path) (components cap.resolved)

conflicts_iff : (d : Bytes) (cap : FsCapability) → (conflicts d cap ≡ false) ↔ (¬ IsConflict d cap)
unfolding conflicts
conflicts_iff d cap =
    let i = path_starts_with-IsInside (components d) (components cap.resolved) in
    let s = path_starts_with (components d) (components cap.resolved) in
    let e = same_path (components d) (components cap.resolved) in
    (
      λ h (f, u, inside). let t = i.1 inside in test_false cap.is_file s e cap.user_intent h f u t,
      λ n. test_true cap.is_file s e cap.user_intent (λ f u t. n (f, u, i.0 t)),
    )
  where
    test_false :
        (f s e u : Bool)
        → (not f && s && not e && u) ≡ false
        → f ≡ false
        → u ≡ true
        → (s && not e) ≡ true
        → ⊥
    test_false f s e u h a b c = ground arith

    test_true :
        (f s e u : Bool)
        → (f ≡ false → u ≡ true → (s && not e) ≡ true → ⊥)
        → (not f && s && not e && u) ≡ false
    test_true true s e u n = refl
    test_true false true true u n = refl
    test_true false true false true n = absurd (n refl refl refl)
    test_true false true false false n = refl
    test_true false false e u n = refl

cap_conflicts_iff :
    (d : Bytes) (caps : List FsCapability)
    → (is_empty (cap_conflicts d caps) ≡ true) ↔ All (λ c. ¬ IsConflict d c) caps
unfolding cap_conflicts
cap_conflicts_iff d [] = ((λ _. tt), (λ _. refl))
cap_conflicts_iff d (c ∷ caps) =
    let (to, from) = cap_conflicts_iff d caps in
    let (free, taken) = conflicts_iff d c in
    elim (Bool-cases (conflicts d c)) [
      | inl e ↦ (
        (λ h. let h' : false ≡ true = rw (cap_conflicts, e) at h in absurd (cc h')),
        (λ (n, _). absurd (cc (e, taken n))),
      )
      | inr e ↦ (
        (λ h. (free e, to (rw (cap_conflicts, e) at h))),
        (λ (_, h). rw (cap_conflicts, e) (from h)),
      )
    ]

is_empty-append_iff :
    {A : Type 0} (xs ys : List A)
    → (is_empty (xs ++ ys) ≡ true) ↔ ((is_empty xs ≡ true) × (is_empty ys ≡ true))
is_empty-append_iff [] ys = ground arith
is_empty-append_iff (x ∷ xs) ys = ground arith

fatal_conflicts_iff :
    (ds : List Bytes) (caps : List FsCapability)
    → (is_empty (fatal_conflicts ds caps) ≡ true) ↔ All (λ d. All (λ c. ¬ IsConflict d c) caps) ds
unfolding fatal_conflicts
fatal_conflicts_iff [] caps = ((λ _. tt), (λ _. refl))
fatal_conflicts_iff (d ∷ ds) caps =
    let (to, from) = fatal_conflicts_iff ds caps in
    let (here, back) = cap_conflicts_iff d caps in
    let (apart, together) = is_empty-append_iff (cap_conflicts d caps) (fatal_conflicts ds caps) in
    (λ h. let (a, b) = apart h in (here a, to b), λ (a, b). together (back a, from b))

-- On Linux the deny paths pass exactly if no directory that the user allowed has a denied path
-- inside it.
pub validate_deny_overlaps_iff :
    (ds : List Bytes) (caps : List FsCapability)
    → (validate_deny_overlaps linux ds caps ≡ ok tt)
      ↔ All (λ d. All (λ c. ¬ IsConflict d c) caps) ds
unfolding validate_deny_overlaps
validate_deny_overlaps_iff ds caps =
    let (to, from) = fatal_conflicts_iff ds caps in
    elim (Bool-cases (is_empty (fatal_conflicts ds caps))) [
      | inl e ↦ ((λ _. to e), (λ _. rw (validate_deny_overlaps, e) refl))
      | inr e ↦ (
        (λ h. let h' : err _ ≡ ok tt = rw (validate_deny_overlaps, e) at h in absurd (cc h')),
        (λ a. absurd (cc (e, from a))),
      )
    ]

-- The names that a policy requires.
abbrev pub IsRequired : RustPolicy → Bytes → Type 0
IsRequired policy name = (g : Group) × (lookup name policy ≡ some g) × (g.required ≡ true)

is_required_iff :
    (policy : RustPolicy) (name : Bytes)
    → (is_required policy name ≡ false) ↔ (¬ IsRequired policy name)
is_required_iff policy name = elim (Option-cases (lookup name policy)) [
  | inl e ↦ ((λ _ (g, f, _). absurd (cc (e, f))), (λ _. rw (is_required, e) refl))
  | inr (g, e) ↦ elim (Bool-cases g.required) [
    | inl t ↦ (
      (λ h. let h' : g.required ≡ false = rw (is_required, e) at h in absurd (cc (h', t))),
      (λ n. absurd (n (g, e, t))),
    )
    | inr t ↦ (
      (λ _ (k, f, u).
          let q : g ≡ k = cc (e, f) in
          let u' : g.required ≡ true = subst (λ x. x.required ≡ true) (sym q) u in
          absurd (cc (t, u'))),
      (λ _. rw (is_required, e) t),
    )
  ]
]

violations_iff :
    (policy : RustPolicy) (names : List Bytes)
    → (is_empty (violations policy names) ≡ true) ↔ All (λ n. ¬ IsRequired policy n) names
unfolding violations
violations_iff policy [] = ((λ _. tt), (λ _. refl))
violations_iff policy (n ∷ names) =
    let (to, from) = violations_iff policy names in
    let (free, taken) = is_required_iff policy n in
    elim (Bool-cases (is_required policy n)) [
      | inl e ↦ (
        (λ h. let h' : false ≡ true = rw (violations, e) at h in absurd (cc h')),
        (λ (k, _). absurd (cc (e, taken k))),
      )
      | inr e ↦
          ((λ h. (free e, to (rw (violations, e) at h))), (λ (_, h). rw (violations, e) (from h)))
    ]

-- Groups may be excluded exactly if the policy requires none of them; names that it does not know
-- may be excluded too.
validate_group_exclusions_iff :
    (policy : RustPolicy) (names : List Bytes)
    → (validate_group_exclusions policy names ≡ ok tt) ↔ All (λ n. ¬ IsRequired policy n) names
unfolding validate_group_exclusions
validate_group_exclusions_iff policy names =
    let (to, from) = violations_iff policy names in
    elim (Bool-cases (is_empty (violations policy names))) [
      | inl e ↦ ((λ _. to e), (λ _. rw (validate_group_exclusions, e) refl))
      | inr e ↦ (
        (λ h. let h' : err _ ≡ ok tt = rw (validate_group_exclusions, e) at h in absurd (cc h')),
        (λ a. absurd (cc (e, from a))),
      )
    ]
