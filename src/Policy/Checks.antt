-- ===== src/Policy/Checks.antt =====
-- src/policy.rs: `validate_deny_overlaps` and `validate_group_exclusions`.
pub mod Laws
mod Tests
use nono_py.Common.{
  Bytes, bytes_eq, codes, ◌||◌, starts_with, Bool, true, false, ◌&&◌, not, is_empty, List, [], ◌∷◌,
  ◌++◌, Result, ok, err, if◌then◌else◌, none, some, ◌==◌, ℕ,
}
use nono_py.SortedMap.{lookup}
use nono_py.Policy.Types.{
  Group, RustPolicy, PolicyError, deny_overlap, required_excluded, Platform, macos, linux, unknown,
}

-- What lies between the separators of a path.
unfoldable pub segments : Bytes → List Bytes
segments [] = [] ∷ []
segments (c ∷ s) =
    let rest = segments s in
    if c == b'/'
    then [] ∷ rest
    else elim rest [ [] ↦ (c ∷ []) ∷ [] | first ∷ more ↦ (c ∷ first) ∷ more ]

unfoldable pub normal : List Bytes → List Bytes
normal [] = []
normal (s ∷ ss) =
    let rest = normal ss in if is_empty s || bytes_eq s (codes ".") then rest else s ∷ rest

-- `Path::components`, each by its bytes: `/` is the root, and `.` stays at the start of a relative
-- path only.
unfoldable pub components : Bytes → List Bytes
components path =
    if starts_with path (codes "/")
    then codes "/" ∷ normal (segments path)
    else elim (segments path) [
      | [] ↦ []
      | s ∷ ss ↦ if bytes_eq s (codes ".") then s ∷ normal ss else normal (s ∷ ss)
    ]

-- `Path::eq` and `Path::starts_with`, on components
unfoldable pub same_path : List Bytes → List Bytes → Bool
same_path [] [] = true
same_path (x ∷ xs) (y ∷ ys) = bytes_eq x y && same_path xs ys
same_path _ _ = false

unfoldable pub path_starts_with : List Bytes → List Bytes → Bool
path_starts_with xs [] = true
path_starts_with [] (y ∷ ys) = false
path_starts_with (x ∷ xs) (y ∷ ys) = bytes_eq x y && path_starts_with xs ys

-- `nono::FsCapability`, by what is read of it; `user_intent` is `source.is_user_intent()`.
pub record FsCapability : Type 0 where
  pub resolved : Bytes
  pub is_file : Bool
  pub user_intent : Bool

unfoldable pub conflicts : Bytes → FsCapability → Bool
conflicts deny_path cap =
    not cap.is_file
    && path_starts_with (components deny_path) (components cap.resolved)
    && not (same_path (components deny_path) (components cap.resolved))
    && cap.user_intent

-- The inner loop, for one denied path.
unfoldable pub cap_conflicts : Bytes → List FsCapability → List (Bytes × Bytes)
cap_conflicts deny_path [] = []
cap_conflicts deny_path (cap ∷ caps) =
    let rest = cap_conflicts deny_path caps in
    if conflicts deny_path cap then (deny_path, cap.resolved) ∷ rest else rest

unfoldable pub fatal_conflicts : List Bytes → List FsCapability → List (Bytes × Bytes)
fatal_conflicts [] caps = []
fatal_conflicts (d ∷ ds) caps = cap_conflicts d caps ++ fatal_conflicts ds caps

-- The error holds the conflicts as they are found; the message sorts its lines.
unfoldable pub validate_deny_overlaps :
    Platform → List Bytes → List FsCapability → Result PolicyError (Unit {0})
validate_deny_overlaps macos deny_paths caps = ok tt
validate_deny_overlaps os deny_paths caps =
    let found = fatal_conflicts deny_paths caps in
    if is_empty found then ok tt else err (deny_overlap found)

abbrev pub is_required : RustPolicy → Bytes → Bool
is_required policy name = elim (lookup name policy) [ none ↦ false | some g ↦ g.required ]

unfoldable pub violations : RustPolicy → List Bytes → List Bytes
violations policy [] = []
violations policy (name ∷ names) =
    let rest = violations policy names in if is_required policy name then name ∷ rest else rest

unfoldable pub validate_group_exclusions : RustPolicy → List Bytes → Result PolicyError (Unit {0})
validate_group_exclusions policy excluded_groups =
    let found = violations policy excluded_groups in
    if is_empty found then ok tt else err (required_excluded found)
