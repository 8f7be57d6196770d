-- ===== src/Exec/Env.antt =====
-- src/sandboxed_exec.rs: the environment of the child (`build_env_cstrings`, `sanitize_env_pairs`).
-- A `String` is its bytes, a `CString` its bytes without the final NUL, and the error constructors
-- stand for the messages.
pub mod Allowed
pub mod Build
pub mod Sanitize
mod Tests
use nono_py.Common.{
  ℕ, String, Bytes, codes, bytes_eq, contains, starts_with, is_empty, Bool, ◌||◌, List, [], ◌∷◌,
  ◌++◌, Option, none, some, if◌then◌else◌, Result, ok, err, ◌>>=◌, is_utf8,
}
use nono_py.SortedMap.{Pairs, insert}

pub data EnvError : Type 0 where
  empty_name name_has_nul has_nul name_not_utf8 value_not_utf8 : EnvError
  name_has_equals value_has_nul loader_variable : Bytes → EnvError

unfoldable pub is_dangerous_loader_env : Bytes → Bool
is_dangerous_loader_env key =
    starts_with key (codes "LD_")
    || starts_with key (codes "DYLD_")
    || bytes_eq key (codes "LIBPATH")
    || bytes_eq key (codes "SHLIB_PATH")

unfoldable pub validate_env_var : Bytes → Bytes → Result EnvError (Unit {0})
validate_env_var key value =
    if is_empty key
    then err empty_name
    else if contains b'=' key
    then err (name_has_equals key)
    else if contains 0 key
    then err name_has_nul
    else if contains 0 value
    then err (value_has_nul key)
    else if is_dangerous_loader_env key
    then err (loader_variable key)
    else ok tt

unfoldable pub insert_env_var : Pairs Bytes → Bytes → Bytes → Result EnvError (Pairs Bytes)
insert_env_var env key value = do _ ← validate_env_var key value; ok (insert key value env)

-- The loops that insert the parent's variables and the overrides.
unfoldable pub insert_env_vars : Pairs Bytes → Pairs Bytes → Result EnvError (Pairs Bytes)
insert_env_vars env [] = ok env
insert_env_vars env ((key, value) ∷ vars) = do
  env' ← insert_env_var env key value
  insert_env_vars env' vars

-- `CString::new`
unfoldable pub cstring : Bytes → Result EnvError Bytes
cstring bs = if contains 0 bs then err has_nul else ok bs

abbrev pub entry : Bytes → Bytes → Bytes
entry key value = key ++ b'=' ∷ value

unfoldable pub env_cstrings : Pairs Bytes → Result EnvError (List Bytes)
env_cstrings [] = ok []
env_cstrings ((key, value) ∷ env) = do
  c ← cstring (entry key value)
  cs ← env_cstrings env
  ok (c ∷ cs)

-- `parent` is what `std::env::vars_os` yields.
unfoldable pub build_env_cstrings :
    Pairs Bytes → Option (Pairs Bytes) → Bool → Result EnvError (List Bytes)
build_env_cstrings parent overrides inherit_env = do
  inherited ← if inherit_env then insert_env_vars [] parent else ok []
  env ← elim overrides [ none ↦ ok inherited | some ovr ↦ insert_env_vars inherited ovr ]
  env_cstrings env

-- `String::from_utf8`
unfoldable pub from_utf8 : Bytes → EnvError → Result EnvError Bytes
from_utf8 bs e = if is_utf8 bs then ok bs else err e

unfoldable pub utf8_pairs : Pairs Bytes → Result EnvError (Pairs Bytes)
utf8_pairs [] = ok []
utf8_pairs ((key, value) ∷ env) = do
  key' ← from_utf8 key name_not_utf8
  value' ← from_utf8 value value_not_utf8
  rest ← utf8_pairs env
  ok ((key', value') ∷ rest)

unfoldable pub sanitize_env_pairs : Pairs Bytes → Result EnvError (Pairs Bytes)
sanitize_env_pairs pairs = do env ← insert_env_vars [] pairs; utf8_pairs env
