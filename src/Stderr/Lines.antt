-- ===== src/Stderr/Lines.antt =====
-- src/stderr_observation.rs: what a line looks like, and the access that it speaks of.
use nono_py.Common.{
  Bytes, codes, starts_with, bytes_eq, is_utf8, Bool, false, ◌&&◌, ◌||◌, List, [], ◌∷◌, Option,
  none, some, if◌then◌else◌, is_empty, any,
}
use nono_py.Nono.{AccessMode, read, write, read_write}
use nono_py.Policy.Checks.{components}
use nono_py.Policy.Files.{is_file_name}
use nono_py.Stderr.Text.{to_ascii_lowercase, mentions, trim}

-- Some of the phrases is in the line.
abbrev pub mentions_any : Bytes → List Bytes → Bool
mentions_any s = any (mentions s)

unfoldable pub looks_like_network_denial : Bytes → Bool
looks_like_network_denial line =
    let lower = to_ascii_lowercase line in
    mentions_any lower (codes "network" ∷ codes "socket" ∷ codes "connect" ∷ [])
    && mentions_any lower (
        codes "not permitted"
        ∷ codes "permission denied"
        ∷ codes "operation not permitted"
        ∷ codes "connection refused"
        ∷ codes "unreachable"
        ∷ [])

unfoldable pub looks_like_access_denial : Bytes → Bool
looks_like_access_denial line = mentions_any (to_ascii_lowercase line) (
    codes "operation not permitted"
    ∷ codes "permission denied"
    ∷ codes "read-only file system"
    ∷ [])

unfoldable pub looks_like_structured_access_denial_code : Bytes → Bool
looks_like_structured_access_denial_code line =
    mentions_any (to_ascii_lowercase line) (codes "eperm" ∷ codes "eacces" ∷ [])
    && looks_like_access_denial line

unfoldable pub looks_like_missing_path : Bytes → Bool
looks_like_missing_path line =
    mentions (to_ascii_lowercase line) (codes "no such file or directory")

unfoldable pub detect_non_sandbox_failure_line : Bytes → Option Bytes
detect_non_sandbox_failure_line line =
    let trimmed = trim line in
    let lower = to_ascii_lowercase trimmed in
    if is_empty trimmed
    then none
    else if mentions_any lower
        (codes "eexist" ∷ codes "file already exists" ∷ codes "already exists" ∷ [])
    then some trimmed
    else if mentions_any lower (
        codes "version must be at least"
        ∷ codes "requires version"
        ∷ codes "minimum version"
        ∷ codes "upgrade your"
        ∷ [])
    then some trimmed
    else none

-- The last component, if it is a name.
abbrev pub last_name : List Bytes → Option Bytes
last_name [] = none
last_name (c ∷ []) = if is_file_name c then some c else none
last_name (c ∷ d ∷ cs) = last_name (d ∷ cs)

-- `file_name().and_then(to_str)`
abbrev pub utf8_name : Option Bytes → Option Bytes
utf8_name none = none
utf8_name (some name) = if is_utf8 name then some name else none

abbrev pub file_name : Bytes → Option Bytes
file_name path = utf8_name (last_name (components path))

unfoldable pub detect_protected_file_in_error_line : List Bytes → Bytes → Option Bytes
detect_protected_file_in_error_line [] error_line = none
detect_protected_file_in_error_line (path ∷ paths) error_line =
    let rest = detect_protected_file_in_error_line paths error_line in
    elim (file_name path) [
      | none ↦ rest
      | some name ↦ if mentions error_line name then some name else rest
    ]

abbrev pub profile_names : List Bytes
profile_names =
    codes ".profile"
    ∷ codes ".bash_profile"
    ∷ codes ".bashrc"
    ∷ codes ".zprofile"
    ∷ codes ".zshrc"
    ∷ codes ".zlogin"
    ∷ []

abbrev pub is_profile : Option Bytes → Bool
is_profile none = false
is_profile (some name) = any (bytes_eq name) profile_names

abbrev pub speaks_of_writing : Bytes → Bool
speaks_of_writing lower =
    mentions_any lower (
      codes "cannot create"
      ∷ codes "can't create"
      ∷ codes "write error"
      ∷ codes "read-only file system"
      ∷ codes "operation not permitted, mkdir "
      ∷ codes "permission denied, mkdir "
      ∷ [])
    || (mentions lower (codes "eperm") && mentions lower (codes "mkdir "))
    || (mentions lower (codes "eacces") && mentions lower (codes "mkdir "))
    || any (starts_with lower) (
        codes "tee:"
        ∷ codes "touch:"
        ∷ codes "mkdir:"
        ∷ codes "mktemp:"
        ∷ codes "install:"
        ∷ codes "cp:"
        ∷ codes "mv:"
        ∷ codes "rm:"
        ∷ codes "ln:"
        ∷ codes "chmod:"
        ∷ codes "chown:"
        ∷ codes "truncate:"
        ∷ [])

abbrev pub speaks_of_reading : Bytes → Bool
speaks_of_reading lower =
    mentions_any lower (codes "cannot open" ∷ codes "can't open" ∷ [])
    || any (starts_with lower) (
        codes "cat:"
        ∷ codes "grep:"
        ∷ codes "sed:"
        ∷ codes "awk:"
        ∷ codes "head:"
        ∷ codes "tail:"
        ∷ codes "less:"
        ∷ codes "more:"
        ∷ codes "find:"
        ∷ codes "ls:"
        ∷ [])

unfoldable pub infer_access_from_error_line : Bytes → Bytes → AccessMode
infer_access_from_error_line line path =
    let lower = to_ascii_lowercase line in
    if is_profile (file_name path)
    then read
    else if speaks_of_writing lower
    then write
    else if speaks_of_reading lower
    then read
    else read_write

-- Two modes that differ make both.
unfoldable pub merge_access_modes : AccessMode → AccessMode → AccessMode
merge_access_modes read read = read
merge_access_modes write write = write
merge_access_modes _ _ = read_write
