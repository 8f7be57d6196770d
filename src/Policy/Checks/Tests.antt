-- ===== src/Policy/Checks/Tests.antt =====
-- A denied path under an allowed directory, and beside one.
use nono_py.Common.{
  Bytes, codes, bytes_eq, starts_with, true, false, List, [], ◌∷◌, none, ok, err, ◌≡◌, refl, All,
  ◌↔◌,
}
use nono_py.SortedMap.{lookup}
use nono_py.Policy.Types.{Group, RustPolicy, linux, macos, deny_overlap, required_excluded}
use nono_py.Policy.Checks.{
  FsCapability, validate_deny_overlaps, fatal_conflicts, cap_conflicts, conflicts, components,
  segments, normal, same_path, path_starts_with, violations, validate_group_exclusions,
}
use nono_py.Policy.Checks.Laws.{IsConflict, validate_deny_overlaps_iff}

abbrev home : FsCapability
home = record { resolved = codes "/home/u"; is_file = false; user_intent = true }

abbrev caps : List FsCapability
caps = record home { resolved = codes "/tmp"; user_intent = false } ∷ home ∷ []

abbrev inside : Bytes
inside = codes "/home//u/./.ssh/"

overlaps :
    (validate_deny_overlaps linux (codes "/home/user" ∷ codes "/home/u" ∷ []) caps ≡ ok tt)
    × (validate_deny_overlaps linux (inside ∷ []) caps
        ≡ err (deny_overlap ((inside, codes "/home/u") ∷ [])))
    × (validate_deny_overlaps macos (inside ∷ []) caps ≡ ok tt)
unfolding validate_deny_overlaps fatal_conflicts cap_conflicts conflicts components segments normal
    same_path path_starts_with bytes_eq starts_with
overlaps = (refl, refl, refl)

validate_deny_overlaps_iff_example :
    (validate_deny_overlaps linux (inside ∷ []) caps ≡ ok tt)
    ↔ All (λ d. All (λ c. ¬ IsConflict d c) caps) (inside ∷ [])
validate_deny_overlaps_iff_example = validate_deny_overlaps_iff (inside ∷ []) caps

abbrev base : Group
base = record {
  description = [];
  platform = none;
  required = true;
  allow = none;
  deny = none;
  symlink_pairs = none;
  network = none;
}

abbrev policy : RustPolicy
policy = (codes "base", base) ∷ (codes "opt", record base { required = false }) ∷ []

exclusions :
    (validate_group_exclusions policy (codes "opt" ∷ codes "zz" ∷ []) ≡ ok tt)
    × (validate_group_exclusions policy (codes "opt" ∷ codes "base" ∷ [])
        ≡ err (required_excluded (codes "base" ∷ [])))
unfolding validate_group_exclusions violations lookup bytes_eq
exclusions = (refl, refl)
