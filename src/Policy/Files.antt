-- ===== src/Policy/Files.antt =====
-- src/policy.rs: `resolve_parent_symlinks`, on a file system that is a parameter, its functions on the
-- bytes of a path, so that it may tell a path that ends in a slash from one that does not.
pub mod Nearest
use nono_py.Common.{
  Bytes, codes, bytes_eq, Bool, false, ◌||◌, not, is_empty, List, [], ◌∷◌, ◌++◌, Option, none, some,
  Result, ok, err, if◌then◌else◌, is_utf8,
}
use nono_py.Policy.Types.{PolicyError}
use nono_py.Policy.Checks.{components, same_path}

pub data IoError : Type 0 where
  not_found other : IoError

pub record FileSystem : Type 0 where
  pub exists : Bytes → Bool
  pub is_dir : Bytes → Bool
  pub is_file : Bytes → Bool
  pub canonicalize : Bytes → Result IoError Bytes

-- The errors of policies, and those that only resolving has.
pub data GroupError : Type 0 where
  policy : PolicyError → GroupError
  canonicalization parent_canonicalization no_parent : Bytes → GroupError
  rule_refused not_utf8 : Bytes → GroupError

abbrev pub reverse_onto : List Bytes → List Bytes → List Bytes
reverse_onto [] ys = ys
reverse_onto (x ∷ xs) ys = reverse_onto xs (x ∷ ys)

-- `file_name` of a path that ends in this component.
abbrev pub is_file_name : Bytes → Bool
is_file_name c = not (bytes_eq c (codes "/") || bytes_eq c (codes ".") || bytes_eq c (codes ".."))

abbrev pub ends_in_slash : Bytes → Bool
ends_in_slash [] = false
ends_in_slash (c ∷ []) = bytes_eq (c ∷ []) (codes "/")
ends_in_slash (c ∷ d ∷ s) = ends_in_slash (d ∷ s)

-- `PathBuf::push` of a relative part
unfoldable pub push : Bytes → Bytes → Bytes
push base part = if is_empty base || ends_in_slash base then base ++ part else base ++ b'/' ∷ part

unfoldable pub push_all : Bytes → List Bytes → Bytes
push_all base [] = base
push_all base (part ∷ parts) = push_all (push base part) parts

-- The path of some components, as the file system is asked for a parent.
abbrev pub path_of : List Bytes → Bytes
path_of cs = push_all [] cs

module _ (fs : FileSystem) where
  -- The loop, on `current` and its components from the last one on, with the parts that it has taken
  -- off: an ancestor that exists, and the parts from there on.
  unfoldable pub climb :
      Bytes → Bytes → List Bytes → List Bytes → Result GroupError (Bytes × List Bytes)
  climb path current [] suffix =
      if fs.exists current then ok (current, suffix) else err (no_parent path)
  climb path current (name ∷ parents) suffix =
      let further = climb path (path_of (reverse_onto parents [])) parents (name ∷ suffix) in
      if fs.exists current
      then ok (current, suffix)
      else if is_file_name name
      then further
      else err (no_parent path)

  unfoldable pub resolve_parent_symlinks : Bytes → Result GroupError (Option Bytes)
  resolve_parent_symlinks path = elim (climb path path (reverse_onto (components path) []) []) [
    | err e ↦ err e
    | ok (current, suffix) ↦ elim (fs.canonicalize current) [
      | err _ ↦ err (parent_canonicalization path)
      | ok base ↦
          let resolved = push_all base suffix in
          ok (if same_path (components resolved) (components path) then none else some resolved)
    ]
  ]

unfoldable pub path_to_utf8 : Bytes → Result GroupError Bytes
path_to_utf8 path = if is_utf8 path then ok path else err (not_utf8 path)
