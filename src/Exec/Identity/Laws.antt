-- ===== src/Exec/Identity/Laws.antt =====
-- The ids that are asked for, and what a successful drop leaves.
use nono_py.Common.{
  ℕ, ◌<◌, List, [], Option, none, some, ok, err, >>=-eq-ok, ◌≡◌, ◌≢◌, ◌↔◌, arith, Option-cases, inl,
  inr, ◌⊎◌, ap, ap₂, ◌∙◌, refl,
}
use nono_py.Exec.Identity.{
  ResolvedIds, uid_zero, gid_zero, resolve_ids, Creds, CredKernel, forget_inherited_groups,
  switch_group, switch_user, drop_privileges, raw_group, raw_user, drop_privileges_raw, or,
}

-- Zero is refused, the uid's refusal first; otherwise the uid is the caller's, an explicit gid
-- wins, and a uid with no gid brings a gid equal to it.
resolve_ids_cases :
    (uid gid : Option ℕ)
    → ((resolve_ids uid gid ≡ err uid_zero) ↔ (uid ≡ some 0))
      × ((resolve_ids uid gid ≡ err gid_zero) ↔ ((uid ≢ some 0) × (gid ≡ some 0)))
      × ((r : ResolvedIds)
          → (resolve_ids uid gid ≡ ok r)
            ↔ ((uid ≢ some 0) × (gid ≢ some 0) × (r ≡ record { uid = uid; gid = or gid uid })))
unfolding resolve_ids
resolve_ids_cases none none = ground arith
resolve_ids_cases none (some g) = ground arith
resolve_ids_cases (some u) none = ground arith
resolve_ids_cases (some u) (some g) = ground arith

-- The ids are taken exactly if neither is zero, the uid as it is named, and the gid as it is named or,
-- without one, as the uid.
pub resolve_ids_iff :
    (uid gid : Option ℕ) (r : ResolvedIds)
    → (resolve_ids uid gid ≡ ok r) ↔ (
        (uid ≢ some 0)
        × (gid ≢ some 0)
        × (r.uid ≡ uid)
        × ((g : ℕ) → gid ≡ some g → r.gid ≡ some g)
        × (gid ≡ none → r.gid ≡ uid))
resolve_ids_iff uid gid r =
    let (_, _, taken) = resolve_ids_cases uid gid in
    let (only, then) = taken r in
    (
      λ h.
          let (u, g, q) = only h in
          (
            u,
            g,
            ap (λ x. x.uid) q,
            λ n e. ap (λ x. x.gid) q ∙ ap (λ o. or o uid) e,
            λ e. ap (λ x. x.gid) q ∙ ap (λ o. or o uid) e,
          ),
      λ (u, g, same, given, default).
          then (u, g, ap₂ (λ x y. record { uid = x; gid = y }) same (chosen gid given default)),
    )
  where
    chosen :
        (o : Option ℕ)
        → ((g : ℕ) → o ≡ some g → r.gid ≡ some g)
        → (o ≡ none → r.gid ≡ uid)
        → r.gid ≡ or o uid
    chosen none given default = default refl
    chosen (some g) given default = given g refl

-- The child never keeps a group of the parent's when it gives up the user, and never becomes root.
resolve_ids-nonroot :
    (uid gid : Option ℕ) (r : ResolvedIds) (u : ℕ)
    → resolve_ids uid gid ≡ ok r
    → r.uid ≡ some u
    → (0 < u) × ((g : ℕ) × (r.gid ≡ some g) × (0 < g))
unfolding resolve_ids
resolve_ids-nonroot none gid r u h e = absurd (ground arith)
resolve_ids-nonroot (some v) none r u h e = (ground arith, (v, ground arith, ground arith))
resolve_ids-nonroot (some v) (some g) r u h e = (ground arith, (g, ground arith, ground arith))

-- What the manual pages say of the calls when they succeed.
pub record Documented (k : CredKernel) : Type 0 where
  pub setgroups_sets : (gs : List ℕ) (c c' : Creds) → k.setgroups gs c ≡ some c' → c'.groups ≡ gs
  pub setgid_keeps : (g : ℕ) (c c' : Creds) → k.setgid g c ≡ some c' → c'.groups ≡ c.groups
  pub setuid_keeps :
      (u : ℕ) (c c' : Creds)
      → k.setuid u c ≡ some c'
      → (c'.groups ≡ c.groups) × (c'.rgid ≡ c.rgid) × (c'.egid ≡ c.egid)
  pub setresgid_keeps :
      (r e s : ℕ) (c c' : Creds) → k.setresgid r e s c ≡ some c' → c'.groups ≡ c.groups
  pub setresuid_keeps :
      (r e s : ℕ) (c c' : Creds)
      → k.setresuid r e s c ≡ some c'
      → (c'.groups ≡ c.groups) × (c'.rgid ≡ c.rgid) × (c'.egid ≡ c.egid)

-- What the process is, once an identity was asked for.
pub record IsDropped (uid gid : Option ℕ) (c : Creds) : Type 0 where
  pub no_groups : c.groups ≡ []
  pub group : (g : ℕ) → gid ≡ some g → (c.rgid ≡ g) × (c.egid ≡ g)
  pub user : (u : ℕ) → uid ≡ some u → (c.ruid ≡ u) × (c.euid ≡ u)

module _ (k : CredKernel) (d : Documented k) where
  switch_group_lem :
      (g : ℕ) (c c' : Creds)
      → switch_group k g c ≡ ok c'
      → (c'.rgid ≡ g) × (c'.egid ≡ g) × (c'.groups ≡ c.groups)
  unfolding switch_group
  switch_group_lem g c c' h = elim (Option-cases (k.setgid g c)) [
    | inl e ↦ ground arith
    | inr (c1, e) ↦ ground (arith, d.setgid_keeps g c c1 e)
  ]

  switch_user_lem :
      (u : ℕ) (c c' : Creds)
      → switch_user k u c ≡ ok c'
      → (c'.ruid ≡ u)
        × (c'.euid ≡ u)
        × (c'.groups ≡ c.groups)
        × (c'.rgid ≡ c.rgid)
        × (c'.egid ≡ c.egid)
  unfolding switch_user
  switch_user_lem u c c' h = elim (Option-cases (k.setuid u c)) [
    | inl e ↦ ground arith
    | inr (c1, e) ↦ ground (arith, d.setuid_keeps u c c1 e)
  ]

  forget_lem : (c c' : Creds) → forget_inherited_groups k c ≡ ok c' → c'.groups ≡ []
  unfolding forget_inherited_groups
  forget_lem c c' h = elim (Option-cases (k.setgroups [] c)) [
    | inl e ↦ ground arith
    | inr (c1, e) ↦ ground (arith, d.setgroups_sets [] c c1 e)
  ]

  -- If the drop succeeds with an identity asked for, the process has no supplementary group, and
  -- its real and effective ids are the ones asked for.
  pub drop_privileges-IsDropped :
      (uid gid : Option ℕ) (c c' : Creds)
      → (uid ≢ none) ⊎ (gid ≢ none)
      → drop_privileges k uid gid c ≡ ok c'
      → IsDropped uid gid c'
  unfolding drop_privileges
  drop_privileges-IsDropped none none c c' asked h = ground arith
  drop_privileges-IsDropped none (some g) c c' asked h =
      let (c1, e1, h1) = >>=-eq-ok (forget_inherited_groups k c) _ h in
      let (c2, e2, h2) = >>=-eq-ok (switch_group k g c1) _ h1 in
      let facts = switch_group_lem g c1 c2 e2 in
      record {
        no_groups = ground (arith, forget_lem c c1 e1);
        group = λ x e. ground arith;
        user = λ x e. ground arith;
      }
  drop_privileges-IsDropped (some u) none c c' asked h =
      let (c1, e1, h1) = >>=-eq-ok (forget_inherited_groups k c) _ h in
      let facts = switch_user_lem u c1 c' h1 in
      record {
        no_groups = ground (arith, forget_lem c c1 e1);
        group = λ x e. ground arith;
        user = λ x e. ground arith;
      }
  drop_privileges-IsDropped (some u) (some g) c c' asked h =
      let (c1, e1, h1) = >>=-eq-ok (forget_inherited_groups k c) _ h in
      let (c2, e2, h2) = >>=-eq-ok (switch_group k g c1) _ h1 in
      let group_facts = switch_group_lem g c1 c2 e2 in
      let user_facts = switch_user_lem u c2 c' h2 in
      record {
        no_groups = ground (arith, forget_lem c c1 e1);
        group = λ x e. ground arith;
        user = λ x e. ground arith;
      }

  raw_group_lem :
      (g : ℕ) (c c' : Creds)
      → raw_group k (some g) c ≡ some c'
      → (c'.rgid ≡ g) × (c'.egid ≡ g) × (c'.groups ≡ c.groups)
  unfolding raw_group
  raw_group_lem g c c' h = elim (Option-cases (k.setresgid g g g c)) [
    | inl e ↦ ground arith
    | inr (c1, e) ↦ ground (arith, d.setresgid_keeps g g g c c1 e)
  ]

  raw_user_lem :
      (u : ℕ) (c c' : Creds)
      → raw_user k (some u) c ≡ some c'
      → (c'.ruid ≡ u)
        × (c'.euid ≡ u)
        × (c'.groups ≡ c.groups)
        × (c'.rgid ≡ c.rgid)
        × (c'.egid ≡ c.egid)
  unfolding raw_user
  raw_user_lem u c c' h = elim (Option-cases (k.setresuid u u u c)) [
    | inl e ↦ ground arith
    | inr (c1, e) ↦ ground (arith, d.setresuid_keeps u u u c c1 e)
  ]

  raw_parts :
      (uid gid : Option ℕ) (c c' : Creds)
      → (uid ≢ none) ⊎ (gid ≢ none)
      → drop_privileges_raw k uid gid c ≡ some c'
      → (c1 c2 : Creds) × (k.setgroups [] c ≡ some c1)
        × (raw_group k gid c1 ≡ some c2)
        × (raw_user k uid c2 ≡ some c')
  unfolding drop_privileges_raw
  raw_parts uid gid c c' asked h = elim (Option-cases (k.setgroups [] c)) [
    | inl e ↦ absurd (ground arith)
    | inr (c1, e) ↦ elim (Option-cases (raw_group k gid c1)) [
      | inl f ↦ absurd (ground arith)
      | inr (c2, f) ↦ (c1, c2, e, f, ground arith)
    ]
  ]

  -- If the clone path's drop succeeds with an identity asked for, the process has no supplementary
  -- group, and its real and effective ids are the ones asked for.
  pub drop_privileges_raw-IsDropped :
      (uid gid : Option ℕ) (c c' : Creds)
      → (uid ≢ none) ⊎ (gid ≢ none)
      → drop_privileges_raw k uid gid c ≡ some c'
      → IsDropped uid gid c'
  drop_privileges_raw-IsDropped none none c c' asked h = ground arith
  drop_privileges_raw-IsDropped none (some g) c c' asked h =
      let (c1, c2, e1, e2, e3) = raw_parts none (some g) c c' asked h in
      let facts = raw_group_lem g c1 c2 e2 in
      record {
        no_groups = unfold raw_user in ground (arith, d.setgroups_sets [] c c1 e1);
        group = λ x e. unfold raw_user in ground arith;
        user = λ x e. ground arith;
      }
  drop_privileges_raw-IsDropped (some u) none c c' asked h =
      let (c1, c2, e1, e2, e3) = raw_parts (some u) none c c' asked h in
      let facts = raw_user_lem u c2 c' e3 in
      record {
        no_groups = unfold raw_group in ground (arith, d.setgroups_sets [] c c1 e1);
        group = λ x e. ground arith;
        user = λ x e. ground arith;
      }
  drop_privileges_raw-IsDropped (some u) (some g) c c' asked h =
      let (c1, c2, e1, e2, e3) = raw_parts (some u) (some g) c c' asked h in
      let group_facts = raw_group_lem g c1 c2 e2 in
      let user_facts = raw_user_lem u c2 c' e3 in
      record {
        no_groups = ground (arith, d.setgroups_sets [] c c1 e1);
        group = λ x e. ground arith;
        user = λ x e. ground arith;
      }
