-- ===== src/Diagnostic/Tests.antt =====
-- A report on a denied path, with diagnostics that are their kind and their path.
use nono_py.Common.{
  Bytes, codes, bytes_eq, bytes_eq_iff, starts_with, Bool, true, false, [], ◌∷◌, Option, none, some,
  err, ◌≡◌, refl, ap,
}
use nono_py.Nono.{AccessMode, read, write, read_write}
use nono_py.Policy.Checks.{components, segments, normal, same_path, path_starts_with}
use nono_py.Policy.Files.{FileSystem, not_found}
use nono_py.Stderr.Scan.{ErrorObservation}
use nono_py.Diagnostic.{
  allow_cwd, grant_path, DiagnosticApi, CapabilitySet, narrow_missing_access, covers, closest_from,
  closest_covering_capability, actionable_observed_access, actionable_observed_path_hints,
  observed_hint_points_to_ungranted_cwd, remediation_for_observed_hint, push_unique_diagnostic,
  observation_path_already_logged, push_missing, push_hints, append_stderr_observations,
}
use nono_py.Diagnostic.Appended.{
  KnowsPaths, IsGranted, IsAppended, append_stderr_observations-IsAppended,
}

abbrev mode_contains : AccessMode → AccessMode → Bool
mode_contains read_write _ = true
mode_contains read read = true
mode_contains write write = true
mode_contains _ _ = false

abbrev unresolved : Bytes → Bytes
unresolved path = path

abbrev empty_disk : FileSystem
empty_disk = record {
  exists = λ cs. false;
  is_dir = λ cs. false;
  is_file = λ cs. false;
  canonicalize = λ cs. err not_found;
}

data Sample : Type 0 where
  protected missing failure likely : Bytes → Sample
  network : Sample

abbrev sample_path : Sample → Option Bytes
sample_path (protected p) = some p
sample_path (missing p) = some p
sample_path (failure p) = none
sample_path (likely p) = some p
sample_path network = none

abbrev sample_equal : Sample → Sample → Bool
sample_equal (protected p) (protected q) = bytes_eq p q
sample_equal (missing p) (missing q) = bytes_eq p q
sample_equal (failure p) (failure q) = bytes_eq p q
sample_equal (likely p) (likely q) = bytes_eq p q
sample_equal network network = true
sample_equal _ _ = false

abbrev samples : DiagnosticApi
samples = record {
  Diagnostic = Sample;
  equal = sample_equal;
  path = sample_path;
  protected_file_write = protected;
  missing_path = missing;
  application_failure = failure;
  network_blocked = network;
  likely_sandbox_path = λ p access remediation. likely p;
}

samples_path : (d e : Sample) → sample_equal d e ≡ true → sample_path d ≡ sample_path e
samples_path (protected p) (protected q) h = ap some ((bytes_eq_iff p q).0 h)
samples_path (missing p) (missing q) h = ap some ((bytes_eq_iff p q).0 h)
samples_path (failure p) (failure q) h = refl
samples_path (likely p) (likely q) h = ap some ((bytes_eq_iff p q).0 h)
samples_path network network h = refl
samples_path _ _ h = absurd (cc h)

samples_known : KnowsPaths samples
samples_known = record { equal_path = samples_path; likely_path = λ p access r. refl }

abbrev grants : CapabilitySet
grants = record {
  fs_capabilities =
      record { resolved = codes "/a"; is_file = false; access = read_write }
      ∷ record { resolved = codes "/a/b"; is_file = false; access = read }
      ∷ [];
  is_network_blocked = true;
}

abbrev observed : ErrorObservation
observed = record {
  blocked_protected_file = none;
  path_hints =
      record { path = codes "/a/b/c"; access = read_write }
      ∷ record { path = codes "/a/x"; access = write }
      ∷ record { path = codes "/q"; access = read }
      ∷ [];
  missing_paths = codes "/q" ∷ codes "/q" ∷ [];
  non_sandbox_failure = none;
  network_blocked_hint = true;
}

report_functions : Unit {0}
unfolding narrow_missing_access covers closest_from closest_covering_capability
    actionable_observed_access actionable_observed_path_hints observed_hint_points_to_ungranted_cwd
    remediation_for_observed_hint push_unique_diagnostic observation_path_already_logged
    push_missing push_hints append_stderr_observations components segments normal same_path
    path_starts_with bytes_eq starts_with
report_functions = tt

appended :
    append_stderr_observations mode_contains unresolved empty_disk samples grants none observed []
    ≡ missing (codes "/q") ∷ network ∷ likely (codes "/a/b/c") ∷ []
unfolding report_functions
appended = refl

-- Half of the access is granted, so that the other half is to be granted.
remedied :
    remediation_for_observed_hint mode_contains unresolved empty_disk grants none
      (record { path = codes "/a/b/c"; access = read_write })
    ≡ grant_path false (codes "/a/b") write
unfolding report_functions
remedied = refl

outside :
    remediation_for_observed_hint mode_contains unresolved empty_disk grants
      (some (codes "/w"))
      (record { path = codes "/w/c"; access = read_write })
    ≡ allow_cwd
unfolding report_functions
outside = refl

append_stderr_observations-IsAppended_example :
    IsAppended samples (IsGranted mode_contains unresolved grants) observed [] (
      append_stderr_observations mode_contains unresolved empty_disk samples grants none observed
        [])
append_stderr_observations-IsAppended_example =
    append_stderr_observations-IsAppended mode_contains unresolved empty_disk samples samples_known
      grants none observed [] tt
