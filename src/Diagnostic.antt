-- ===== src/Diagnostic.antt =====
-- src/diagnostic.rs: the report on the error output of a command that ran in the sandbox.
pub mod Closest
pub mod Extends
pub mod Appended
mod Tests
use nono_py.Common.{
  ℕ, Bytes, Bool, true, false, ◌&&◌, ◌||◌, not, is_some, List, [], ◌∷◌, ◌++◌, Option, none, some,
  if◌then◌else◌, leb, length, any,
}
use nono_py.Nono.{AccessMode, read, write, read_write, Grant}
use nono_py.Policy.Checks.{components, same_path, path_starts_with}
use nono_py.Policy.Files.{FileSystem}
use nono_py.Stderr.Lines.{last_name}
use nono_py.Stderr.Scan.{ObservedPathHint, ErrorObservation}

-- `NonoRemediation`, by the two cases that are made here.
pub data Remediation : Type 0 where
  allow_cwd : Remediation
  grant_path : (is_file : Bool) (path : Bytes) (access : AccessMode) → Remediation

-- The diagnostics of the nono crate with their constructors; `equal` is their `==`.
pub record DiagnosticApi : Type 1 where
  pub Diagnostic : Type 0
  pub equal : Diagnostic → Diagnostic → Bool
  pub path : Diagnostic → Option Bytes
  pub protected_file_write : Bytes → Diagnostic
  pub missing_path : Bytes → Diagnostic
  pub application_failure : Bytes → Diagnostic
  pub network_blocked : Diagnostic
  pub likely_sandbox_path : Bytes → AccessMode → Remediation → Diagnostic

-- The capability set by its file capabilities, in their order, and whether it blocks the network.
pub record CapabilitySet : Type 0 where
  pub fs_capabilities : List Grant
  pub is_network_blocked : Bool

unfoldable pub narrow_missing_access : AccessMode → AccessMode → AccessMode
narrow_missing_access read read_write = write
narrow_missing_access write read_write = read
narrow_missing_access _ inferred = inferred

abbrev pub is_same : Bytes → Bytes → Bool
is_same a b = same_path (components a) (components b)

unfoldable pub covers : Bytes → Grant → Bool
covers canonical cap =
    if cap.is_file
    then is_same cap.resolved canonical
    else path_starts_with (components canonical) (components cap.resolved)

abbrev pub score : Grant → ℕ
score cap = length cap.resolved

-- The loop, with the best capability so far and its score.
unfoldable pub closest_from : Bytes → Option Grant → ℕ → List Grant → Option Grant
closest_from canonical best best_score [] = best
closest_from canonical best best_score (cap ∷ caps) =
    if covers canonical cap && leb best_score (score cap)
    then closest_from canonical (some cap) (score cap) caps
    else closest_from canonical best best_score caps

module _ (api : DiagnosticApi) where
  open api use {Diagnostic}

  unfoldable pub push_unique_diagnostic : List Diagnostic → Diagnostic → List Diagnostic
  push_unique_diagnostic diagnostics diagnostic =
      if any (λ existing. api.equal existing diagnostic) diagnostics
      then diagnostics
      else diagnostics ++ diagnostic ∷ []

  abbrev pub is_at : Bytes → Option Bytes → Bool
  is_at path none = false
  is_at path (some p) = is_same p path

  unfoldable pub observation_path_already_logged : List Diagnostic → Bytes → Bool
  observation_path_already_logged diagnostics path =
      any (λ diagnostic. is_at path (api.path diagnostic)) diagnostics

  -- The loops over the missing paths and over the hints.
  unfoldable pub push_missing : List Diagnostic → List Bytes → List Diagnostic
  push_missing ds [] = ds
  push_missing ds (path ∷ paths) =
      push_missing (push_unique_diagnostic ds (api.missing_path path)) paths

  abbrev pub push_some : (Bytes → Diagnostic) → Option Bytes → List Diagnostic → List Diagnostic
  push_some make none ds = ds
  push_some make (some text) ds = push_unique_diagnostic ds (make text)

-- `contains` of access modes and `try_canonicalize` are the nono crate's.
module _ (contains : AccessMode → AccessMode → Bool) (try_canonicalize : Bytes → Bytes) where
  unfoldable pub closest_covering_capability : CapabilitySet → Bytes → Option Grant
  closest_covering_capability caps path =
      closest_from (try_canonicalize path) none 0 caps.fs_capabilities

  unfoldable pub actionable_observed_access : CapabilitySet → Bytes → AccessMode → Option AccessMode
  actionable_observed_access caps path inferred = elim (closest_covering_capability caps path) [
    | none ↦ some inferred
    | some cap ↦
        if contains cap.access inferred
        then none
        else some (narrow_missing_access cap.access inferred)
  ]

  abbrev pub actionable_hint : CapabilitySet → ObservedPathHint → List ObservedPathHint
  actionable_hint caps hint = elim (actionable_observed_access caps hint.path hint.access) [
    | none ↦ []
    | some access ↦ record hint { access = access } ∷ []
  ]

  unfoldable pub actionable_observed_path_hints :
      CapabilitySet → List ObservedPathHint → List ObservedPathHint
  actionable_observed_path_hints caps [] = []
  actionable_observed_path_hints caps (hint ∷ hints) =
      actionable_hint caps hint ++ actionable_observed_path_hints caps hints

  unfoldable pub observed_hint_points_to_ungranted_cwd : CapabilitySet → Option Bytes → Bytes → Bool
  observed_hint_points_to_ungranted_cwd caps none path = false
  observed_hint_points_to_ungranted_cwd caps (some current_dir) path =
      path_starts_with (components path) (components current_dir)
      && not (is_some (closest_covering_capability caps current_dir))

  module _ (fs : FileSystem) where
    -- The probe of a path that no capability covers.
    abbrev pub looks_like_file : Bytes → Bool
    looks_like_file path =
        fs.is_file path || (is_some (last_name (components path)) && not (fs.is_dir path))

    unfoldable pub remediation_for_observed_hint :
        CapabilitySet → Option Bytes → ObservedPathHint → Remediation
    remediation_for_observed_hint caps cwd hint =
        if observed_hint_points_to_ungranted_cwd caps cwd hint.path
        then allow_cwd
        else elim (closest_covering_capability caps hint.path) [
          | some cap ↦
              grant_path cap.is_file cap.resolved (narrow_missing_access cap.access hint.access)
          | none ↦ grant_path (looks_like_file hint.path) hint.path hint.access
        ]

    module _ (api : DiagnosticApi) where
      open api use {Diagnostic}

      abbrev pub push_hint :
          CapabilitySet → Option Bytes → List Diagnostic → ObservedPathHint → List Diagnostic
      push_hint caps cwd ds hint =
          if observation_path_already_logged api ds hint.path
          then ds
          else push_unique_diagnostic api ds (
              api.likely_sandbox_path hint.path hint.access
                (remediation_for_observed_hint caps cwd hint))

      unfoldable pub push_hints :
          CapabilitySet → Option Bytes → List Diagnostic → List ObservedPathHint → List Diagnostic
      push_hints caps cwd ds [] = ds
      push_hints caps cwd ds (hint ∷ hints) = push_hints caps cwd (push_hint caps cwd ds hint) hints

      unfoldable pub append_stderr_observations :
          CapabilitySet → Option Bytes → ErrorObservation → List Diagnostic → List Diagnostic
      append_stderr_observations caps cwd observation diagnostics =
          let files =
            push_some api api.protected_file_write observation.blocked_protected_file diagnostics in
          let missing = push_missing api files observation.missing_paths in
          let failures =
            push_some api api.application_failure observation.non_sandbox_failure missing in
          let blocked = observation.network_blocked_hint && caps.is_network_blocked in
          let networks =
            if blocked then push_unique_diagnostic api failures api.network_blocked else failures in
          push_hints caps cwd networks (actionable_observed_path_hints caps observation.path_hints)
