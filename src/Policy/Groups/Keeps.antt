-- ===== src/Policy/Groups/Keeps.antt =====
-- Relations that every action of a resolution keeps, apart from the blocking of the network.
use nono_py.Common.{
  Bytes, codes, ◌&&◌, List, [], ◌∷◌, ◌++◌, Option, some, Result, ok, err, ◌≡◌, Option-cases, inl,
  inr, subst, ap,
}
use nono_py.Nono.{AccessMode, read, write, read_write, CapabilityApi}
use nono_py.Policy.Types.{AllowOps, DenyOps, Platform}
use nono_py.Policy.Paths.{expand_path, escape_seatbelt_path}
use nono_py.Policy.Files.{FileSystem, GroupError, path_to_utf8}
use nono_py.Policy.Resolution.{
  Resolution, M, ◌>>=◌, lift, in_policy, push_deny, when_some, when, each,
}
use nono_py.Policy.Resolution.Keeps.{
  Keeps, >>=-Keeps, lift-Keeps, when_some-Keeps, when-Keeps, each-Keeps,
}
use nono_py.Policy.Groups.{
  is_macos, platform_rule, new_capability, add_capability, add_existing, add_fs_capability,
  emit_deny_rules, canonical_of, other_than, parent_of, add_deny_access_rules, allow_paths,
  allow_symlink, emit_all, deny_resolved, deny_canonical, deny_expanded,
}

-- A relation that holds over the three changes of the state.
pub record IsKept (api : CapabilityApi)
    (R : Resolution api.CapabilitySet → Resolution api.CapabilitySet → Type 0) : Type 0 where
  pub stays : (s : Resolution api.CapabilitySet) → R s s
  pub joins : (s t u : Resolution api.CapabilitySet) → R s t → R t u → R s u
  pub after_add :
      (s : Resolution api.CapabilitySet) (c : api.FsCapability)
      → R s (record s { caps = api.add_fs c s.caps })
  pub after_rule :
      (s : Resolution api.CapabilitySet) (rule : Bytes) (caps : api.CapabilitySet)
      → api.add_platform_rule rule s.caps ≡ some caps
      → R s (record s { caps = caps })
  pub after_push :
      (s : Resolution api.CapabilitySet) (p : Bytes)
      → R s (record s { deny_paths = s.deny_paths ++ p ∷ [] })

module _ (api : CapabilityApi) (os : Platform) (env : Bytes → Option Bytes) (fs : FileSystem)
    (R : Resolution api.CapabilitySet → Resolution api.CapabilitySet → Type 0)
    (kept : IsKept api R) where
  abbrev pub Kept : {A : Type 0} → M api.CapabilitySet A → Type 0
  Kept m = Keeps R kept.stays kept.joins m

  abbrev then_Kept :
      {A B : Type 0} (m : M api.CapabilitySet A) (f : A → M api.CapabilitySet B)
      → Kept m
      → ((a : A) → Kept (f a))
      → Kept (m >>= f)
  then_Kept m f = >>=-Keeps R kept.stays kept.joins m f

  abbrev lift_Kept : {A : Type 0} (r : Result GroupError A) → Kept (lift r)
  lift_Kept r = lift-Keeps R kept.stays kept.joins r

  push_deny-Kept : (p : Bytes) → Kept (push_deny p)
  push_deny-Kept p s t a h = subst (λ x. R s x) (ap (λ x. x.1) h) (kept.after_push s p)

  platform_rule-Kept : (rule : Bytes) → Kept (platform_rule api rule)
  unfolding platform_rule
  platform_rule-Kept rule s t a h = elim (Option-cases (api.add_platform_rule rule s.caps)) [
    | inl e ↦
        let h' : ◌≡◌ {A = Result GroupError (Unit {0}) × Resolution api.CapabilitySet} (err _, s)
            (ok a, t) =
          rw (platform_rule, e) at h in
        absurd (cc h')
    | inr (caps, e) ↦
        let h' : ◌≡◌ {A = Result GroupError (Unit {0}) × Resolution api.CapabilitySet}
            (ok tt, record s { caps = caps }) (ok a, t) =
          rw (platform_rule, e) at h in
        subst (λ x. R s x) (ap (λ x. x.1) h') (kept.after_rule s rule caps e)
  ]

  add_existing-Kept :
      (group : Bytes) (mode : AccessMode) (path : Bytes)
      → Kept (add_existing api os env fs group mode path)
  add_existing-Kept group mode path = when-Keeps R kept.stays kept.joins (fs.exists path) _ (
      when_some-Keeps R kept.stays kept.joins (new_capability api os env fs mode path)
        (add_capability api os env fs group)
        (λ cap s t a h.
          subst (λ x. R s x) (ap (λ x. x.1) h) (kept.after_add s (api.set_source group cap))))

  add_fs_capability-Kept :
      (group path : Bytes) (mode : AccessMode)
      → Kept (add_fs_capability api os env fs group path mode)
  unfolding add_fs_capability
  add_fs_capability-Kept group path mode =
      then_Kept (lift (in_policy (expand_path env path))) _ (lift_Kept _)
        (add_existing-Kept group mode)

  emit_deny_rules-Kept : (path : Bytes) → Kept (emit_deny_rules api os env fs path)
  unfolding emit_deny_rules
  emit_deny_rules-Kept path = then_Kept (lift (path_to_utf8 path)) _ (lift_Kept _) (λ text.
      then_Kept (lift (in_policy (escape_seatbelt_path text))) _ (lift_Kept _) (λ escaped.
        then_Kept (platform_rule api _) _ (platform_rule-Kept _) (λ _.
          then_Kept (platform_rule api _) _ (platform_rule-Kept _) (λ _.
            then_Kept (platform_rule api _) _ (platform_rule-Kept _) (λ _. platform_rule-Kept _)))))

  allow_symlink-Kept : (path : Bytes) → Kept (allow_symlink api os env fs path)
  allow_symlink-Kept path =
      then_Kept (lift (in_policy (expand_path env path))) _ (lift_Kept _) (λ expanded.
        then_Kept (lift (path_to_utf8 expanded)) _ (lift_Kept _) (λ text.
          then_Kept (lift (in_policy (escape_seatbelt_path text))) _ (lift_Kept _)
            (λ escaped. platform_rule-Kept _)))

  some-Kept :
      {A : Type 0} (o : Option A) (f : A → M api.CapabilitySet (Unit {0}))
      → ((a : A) → Kept (f a))
      → Kept (when_some o f)
  some-Kept o f = when_some-Keeps R kept.stays kept.joins o f

  pub emit_all-Kept :
      (path : Bytes) (canonical parent : Option Bytes)
      → Kept (emit_all api os env fs path canonical parent)
  emit_all-Kept path canonical parent =
      then_Kept (emit_deny_rules api os env fs path) _ (emit_deny_rules-Kept path) (λ _.
        then_Kept (when_some canonical (emit_deny_rules api os env fs)) _
          (some-Kept canonical (emit_deny_rules api os env fs) emit_deny_rules-Kept)
          (λ _. some-Kept parent (emit_deny_rules api os env fs) emit_deny_rules-Kept))

  pub deny_resolved-Kept :
      (path : Bytes) (canonical parent : Option Bytes)
      → Kept (deny_resolved api os env fs path canonical parent)
  deny_resolved-Kept path canonical parent =
      then_Kept (when_some parent push_deny) _ (some-Kept parent push_deny push_deny-Kept) (λ _.
        when-Keeps R kept.stays kept.joins (is_macos os) _ (emit_all-Kept path canonical parent))

  pub deny_canonical-Kept :
      (path : Bytes) (canonical : Option Bytes) → Kept (deny_canonical api os env fs path canonical)
  deny_canonical-Kept path canonical =
      let other = other_than api os env fs path canonical in
      then_Kept (when_some other push_deny) _ (some-Kept other push_deny push_deny-Kept) (λ _.
        then_Kept (lift (parent_of api os env fs path canonical)) _ (lift_Kept _)
          (deny_resolved-Kept path other))

  deny_expanded-Kept : (path : Bytes) → Kept (deny_expanded api os env fs path)
  deny_expanded-Kept path = then_Kept (push_deny path) _ (push_deny-Kept path) (λ _.
      then_Kept (lift (canonical_of api os env fs path)) _ (lift_Kept _) (deny_canonical-Kept path))

  add_deny_access_rules-Kept : (path : Bytes) → Kept (add_deny_access_rules api os env fs path)
  unfolding add_deny_access_rules
  add_deny_access_rules-Kept path =
      then_Kept (lift (in_policy (expand_path env path))) _ (lift_Kept _) deny_expanded-Kept

  each_path-Kept :
      (f : Bytes → M api.CapabilitySet (Unit {0})) (ps : List Bytes)
      → ((p : Bytes) → Kept (f p))
      → Kept (each f ps)
  each_path-Kept f ps = each-Keeps R kept.stays kept.joins f ps

  pub allow_paths-Kept :
      (group : Bytes) (ops : AllowOps) → Kept (allow_paths api os env fs group ops)
  allow_paths-Kept group ops =
      let one = λ (mode : AccessMode) (path : Bytes). add_fs_capability-Kept group path mode in
      then_Kept _ _
        (then_Kept _ _ (each_path-Kept _ ops.read (one read))
          (λ _. each_path-Kept _ ops.write (one write)))
        (λ _. each_path-Kept _ ops.readwrite (one read_write))

  pub each_deny-Kept : (ps : List Bytes) → Kept (each (add_deny_access_rules api os env fs) ps)
  each_deny-Kept ps =
      each_path-Kept (add_deny_access_rules api os env fs) ps add_deny_access_rules-Kept

  pub unlink-Kept :
      (ops : DenyOps)
      → Kept
          (when (ops.unlink && is_macos os) (platform_rule api (codes "(deny file-write-unlink)")))
  unlink-Kept ops =
      when-Keeps R kept.stays kept.joins (ops.unlink && is_macos os) _ (platform_rule-Kept _)

  pub symlinks-Kept : (ps : List Bytes) → Kept (each (allow_symlink api os env fs) ps)
  symlinks-Kept ps = each_path-Kept (allow_symlink api os env fs) ps allow_symlink-Kept
