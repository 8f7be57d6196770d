-- ===== src/Diagnostic/Appended.antt =====
-- What `append_stderr_observations` adds to a list of diagnostics.
use nono_py.Common.{
  Bytes, Bool, true, false, ◌&&◌, ◌||◌, List, [], ◌∷◌, ◌++◌, Option, none, some, if◌then◌else◌, ◌≡◌,
  refl, sym, subst, ap, ◌∙◌, ◌⊎◌, inl, inr, All, any, arith, Bool-cases, Option-cases,
}
use nono_py.Nono.{AccessMode, Grant}
use nono_py.Policy.Checks.Laws.{same_path_self}
use nono_py.Policy.Checks.{components}
use nono_py.Policy.Files.{FileSystem}
use nono_py.Stderr.Scan.{ObservedPathHint, ErrorObservation}
use nono_py.Diagnostic.{
  Remediation, DiagnosticApi, CapabilitySet, actionable_observed_access, actionable_hint,
  actionable_observed_path_hints, push_unique_diagnostic, is_at, observation_path_already_logged,
  closest_covering_capability, push_missing, push_hint, push_hints, push_some,
  append_stderr_observations,
}
use nono_py.Diagnostic.Closest.{IsClosest, IsLast, closest_covering_capability-IsClosest}
use nono_py.Diagnostic.Extends.{
  IsDistinct, Extends, same_list, then_added, push_unique-Extends, push_some-Extends,
  push_missing-Extends,
}

-- Equal diagnostics have one path, and that of a denied path is the path.
pub record KnowsPaths (api : DiagnosticApi) : Type 0 where
  pub equal_path : (d e : api.Diagnostic) → api.equal d e ≡ true → api.path d ≡ api.path e
  pub likely_path :
      (p : Bytes) (access : AccessMode) (remediation : Remediation)
      → api.path (api.likely_sandbox_path p access remediation) ≡ some p

any-map :
    {A : Type 0} (p q : A → Bool)
    → ((x : A) → p x ≡ true → q x ≡ true)
    → (xs : List A) → any p xs ≡ true
    → any q xs ≡ true
any-map p q f [] h = absurd (cc h)
any-map p q f (x ∷ xs) h = elim (Bool-cases (p x)) [
  | inl e ↦ rw (f x e) refl
  | inr e ↦ let rest : any q xs ≡ true = any-map p q f xs (rw e at h) in ground arith
]

any-append :
    {A : Type 0} (p : A → Bool) (xs ys : List A) → any p (xs ++ ys) ≡ (any p xs || any p ys)
any-append p [] ys = refl
any-append p (x ∷ xs) ys = let rest = any-append p xs ys in ground arith

-- A capability covers the path of the hint, with the longest path of those that do, the last of these,
-- and its access contains the hint's.
pub record IsGranted (contains : AccessMode → AccessMode → Bool) (try_canonicalize : Bytes → Bytes)
    (caps : CapabilitySet) (hint : ObservedPathHint) : Type 0 where
  pub cap : Grant
  pub closest : IsLast (try_canonicalize hint.path) caps.fs_capabilities cap
  pub contained : contains cap.access hint.access ≡ true

module _ (api : DiagnosticApi) where
  open api use {Diagnostic}

  -- Some diagnostic has the path.
  abbrev pub IsLogged : List Diagnostic → Bytes → Type 0
  IsLogged ds path = any (λ d. is_at api path (api.path d)) ds ≡ true

  Extends-IsLogged :
      (ds es : List Diagnostic) (path : Bytes)
      → Extends api ds es
      → IsLogged ds path
      → IsLogged es path
  unfolding observation_path_already_logged
  Extends-IsLogged ds es path x h =
      let at : Diagnostic → Bool = λ d. is_at api path (api.path d) in
      ap (any at) x.extended ∙ (any-append at ds x.added ∙ ap (λ b. b || any at x.added) h)

  is_at_lem :
      (path : Bytes) (d : Diagnostic) → api.path d ≡ some path → is_at api path (api.path d) ≡ true
  is_at_lem path d e = rw e (same_path_self (components path))

  module _ (known : KnowsPaths api) where
    push_unique-IsLogged :
        (ds : List Diagnostic) (d : Diagnostic) (path : Bytes)
        → api.path d ≡ some path
        → IsLogged (push_unique_diagnostic api ds d) path
    unfolding push_unique_diagnostic observation_path_already_logged
    push_unique-IsLogged ds d path e =
        let at : Diagnostic → Bool = λ x. is_at api path (api.path x) in
        elim (Bool-cases (any (λ x. api.equal x d) ds)) [
          | inl h ↦ rw h (
              any-map (λ x. api.equal x d) at
                (λ x same. is_at_lem path x (known.equal_path x d same ∙ e)) ds h)
          | inr h ↦
              let last : at d ≡ true = is_at_lem path d e in
              rw h (any-append at ds (d ∷ []) ∙ ground arith)
        ]

    module _ (contains : AccessMode → AccessMode → Bool) (try_canonicalize : Bytes → Bytes)
        (fs : FileSystem) (caps : CapabilitySet) (cwd : Option Bytes) where
      push_hint-Extends :
          (ds : List Diagnostic) (hint : ObservedPathHint)
          → Extends api ds (push_hint contains try_canonicalize fs api caps cwd ds hint)
      push_hint-Extends ds hint =
          elim (Bool-cases (observation_path_already_logged api ds hint.path)) [
            | inl e ↦ rw e (same_list api ds)
            | inr e ↦ rw e (push_unique-Extends api ds _)
          ]

      push_hint-IsLogged :
          (ds : List Diagnostic) (hint : ObservedPathHint)
          → IsLogged (push_hint contains try_canonicalize fs api caps cwd ds hint) hint.path
      unfolding observation_path_already_logged
      push_hint-IsLogged ds hint =
          elim (Bool-cases (observation_path_already_logged api ds hint.path)) [
            | inl e ↦ rw e e
            | inr e ↦ rw e (push_unique-IsLogged ds _ hint.path (known.likely_path _ _ _))
          ]

      push_hints-Extends :
          (ds : List Diagnostic) (hints : List ObservedPathHint)
          → Extends api ds (push_hints contains try_canonicalize fs api caps cwd ds hints)
      unfolding push_hints
      push_hints-Extends ds [] = same_list api ds
      push_hints-Extends ds (hint ∷ hints) =
          let es = push_hint contains try_canonicalize fs api caps cwd ds hint in
          then_added api ds es _ (push_hint-Extends ds hint) (push_hints-Extends es hints)

      closest_grants :
          (hint : ObservedPathHint)
          → actionable_observed_access contains try_canonicalize caps hint.path hint.access ≡ none
          → IsGranted contains try_canonicalize caps hint
      unfolding actionable_observed_access
      closest_grants hint h =
          elim (Option-cases
            (closest_covering_capability contains try_canonicalize caps hint.path)) [
              | inl e ↦
                  let h' : some hint.access ≡ none = rw (actionable_observed_access, e) at h in
                  absurd (cc h')
              | inr (cap, e) ↦ elim (Bool-cases (contains cap.access hint.access)) [
                | inl f ↦ record {
                  cap = cap;
                  closest = subst (IsClosest (try_canonicalize hint.path) caps.fs_capabilities) e (
                      closest_covering_capability-IsClosest contains try_canonicalize caps
                        hint.path);
                  contained = f;
                }
                | inr f ↦
                    let h' : some _ ≡ none = rw (actionable_observed_access, e, f) at h in
                    absurd (cc h')
              ]
            ]

      -- The access is granted already, or the path is logged.
      abbrev pub IsSettled : List Diagnostic → ObservedPathHint → Type 0
      IsSettled ds hint = IsGranted contains try_canonicalize caps hint ⊎ IsLogged ds hint.path

      push_hints-IsSettled :
          (ds : List Diagnostic) (hints : List ObservedPathHint)
          → All
              (IsSettled (
                push_hints contains try_canonicalize fs api caps cwd ds
                  (actionable_observed_path_hints contains try_canonicalize caps hints)))
              hints
      unfolding push_hints actionable_observed_path_hints
      push_hints-IsSettled ds [] = tt
      push_hints-IsSettled ds (hint ∷ hints) =
          let actionable : List ObservedPathHint =
            actionable_observed_path_hints contains try_canonicalize caps hints in
          let Settled : List ObservedPathHint → Type 0 = λ first.
            All
              (IsSettled
                (push_hints contains try_canonicalize fs api caps cwd ds (first ++ actionable)))
              (hint ∷ hints) in
          elim (Option-cases
            (actionable_observed_access contains try_canonicalize caps hint.path hint.access)) [
              | inl e ↦
                  let nothing : actionable_hint contains try_canonicalize caps hint ≡ [] =
                    rw (actionable_hint, e) refl in
                  subst Settled (sym nothing)
                    (inl (closest_grants hint e), push_hints-IsSettled ds hints)
              | inr (access, e) ↦
                  let narrowed : ObservedPathHint = record hint { access = access } in
                  let one : actionable_hint contains try_canonicalize caps hint ≡ narrowed ∷ [] =
                    rw (actionable_hint, e) refl in
                  let es = push_hint contains try_canonicalize fs api caps cwd ds narrowed in
                  subst Settled (sym one) (
                    inr (
                        Extends-IsLogged es _ hint.path (push_hints-Extends es actionable)
                          (push_hint-IsLogged ds narrowed)),
                    push_hints-IsSettled es hints,
                  )
            ]

      -- What the list is before the hints.
      before_hints-Extends :
          (b : Bool) (ds : List Diagnostic)
          → Extends api ds (if b then push_unique_diagnostic api ds api.network_blocked else ds)
      before_hints-Extends true ds = push_unique-Extends api ds api.network_blocked
      before_hints-Extends false ds = same_list api ds

  -- The list goes on from the one before, without repetitions, and has a diagnostic with the path of
  -- every hint whose access is not granted.
  pub record IsAppended (Granted : ObservedPathHint → Type 0) (observation : ErrorObservation)
      (before after : List Diagnostic) : Type 0 where
    pub added : List Diagnostic
    pub extended : after ≡ before ++ added
    pub distinct : IsDistinct api after
    pub reported : All (λ hint. Granted hint ⊎ IsLogged after hint.path) observation.path_hints

-- To a list of diagnostics without repetitions the observations are appended without any: what was in
-- the list stays in front, and for every path hint either the closest covering capability, the last of
-- the longest that cover it, contains the access, or some diagnostic has its path; if equal diagnostics have one path, and that for a denied
-- path has it.
pub append_stderr_observations-IsAppended :
    (contains : AccessMode → AccessMode → Bool) (try_canonicalize : Bytes → Bytes) (fs : FileSystem)
    (api : DiagnosticApi) (known : KnowsPaths api) (caps : CapabilitySet) (cwd : Option Bytes)
    (observation : ErrorObservation) (before : List api.Diagnostic)
    → IsDistinct api before
    → IsAppended api
        (IsGranted contains try_canonicalize caps)
        observation
        before
        (append_stderr_observations contains try_canonicalize fs api caps cwd observation before)
unfolding append_stderr_observations
append_stderr_observations-IsAppended contains try_canonicalize fs api known caps cwd o before h =
    let files = push_some api api.protected_file_write o.blocked_protected_file before in
    let missing = push_missing api files o.missing_paths in
    let failures = push_some api api.application_failure o.non_sandbox_failure missing in
    let blocked = o.network_blocked_hint && caps.is_network_blocked in
    let networks =
      if blocked then push_unique_diagnostic api failures api.network_blocked else failures in
    let extends =
      then_added api before files _
        (push_some-Extends api api.protected_file_write o.blocked_protected_file before)
        (then_added api files missing _ (push_missing-Extends api files o.missing_paths) (
          then_added api missing failures _
            (push_some-Extends api api.application_failure o.non_sandbox_failure missing)
            (then_added api failures networks _
              (before_hints-Extends api known contains try_canonicalize fs caps cwd blocked
                failures)
              (push_hints-Extends api known contains try_canonicalize fs caps cwd networks
                (actionable_observed_path_hints contains try_canonicalize caps o.path_hints))))) in
    record {
      added = extends.added;
      extended = extends.extended;
      distinct = extends.distinct h;
      reported =
          push_hints-IsSettled api known contains try_canonicalize fs caps cwd networks
            o.path_hints;
    }
