-- ===== src/Exec/Env/Tests.antt =====
-- Runs of the environment functions, and the instances of their theorems.
use nono_py.Common.{
  Bytes, codes, true, false, List, [], ◌∷◌, none, some, ok, err, ◌≡◌, refl, ◌↔◌, map, starts_with,
  bytes_eq, is_utf8,
}
use nono_py.SortedMap.{
  Pairs, insert, insert_all, from_pairs, cmp_bytes, IsSorted, lookup, last_value,
}
use nono_py.Exec.Env.{
  loader_variable, empty_name, name_has_equals, is_dangerous_loader_env, validate_env_var,
  insert_env_var, insert_env_vars, env_cstrings, cstring, from_utf8, utf8_pairs, build_env_cstrings,
  sanitize_env_pairs,
}
use nono_py.Exec.Env.Allowed.{AllAllowed}
use nono_py.Exec.Env.Build.{
  given, entries, split_entry, build_env_cstrings_iff, build_env_cstrings-split,
}
use nono_py.Exec.Env.Sanitize.{AllText, build_env_cstrings-sanitize_env_pairs}

env_functions : Unit {0}
unfolding build_env_cstrings sanitize_env_pairs utf8_pairs from_utf8 env_cstrings cstring
    insert_env_vars insert_env_var validate_env_var is_dangerous_loader_env starts_with bytes_eq
    is_utf8 insert insert_all from_pairs cmp_bytes
env_functions = tt

abbrev parent_vars : Pairs Bytes
parent_vars = (codes "PATH", codes "/bin") ∷ (codes "HOME", codes "/root") ∷ []

abbrev override_vars : Pairs Bytes
override_vars = (codes "PATH", codes "/usr/bin") ∷ (codes "A", codes "x=y") ∷ []

abbrev built : List Bytes
built = codes "A=x=y" ∷ codes "HOME=/root" ∷ codes "PATH=/usr/bin" ∷ []

inherited : build_env_cstrings parent_vars (some override_vars) true ≡ ok built
unfolding env_functions
inherited = refl

refused :
    (build_env_cstrings ((codes "LD_PRELOAD", codes "x") ∷ []) none true
      ≡ err (loader_variable (codes "LD_PRELOAD")))
    × (sanitize_env_pairs ((codes "A=B", []) ∷ []) ≡ err (name_has_equals (codes "A=B")))
    × (sanitize_env_pairs (([], []) ∷ []) ≡ err empty_name)
unfolding env_functions
refused = (refl, refl, refl)

abbrev sanitized : Pairs Bytes
sanitized = (codes "A", codes "x=y") ∷ (codes "PATH", codes "/usr/bin") ∷ []

sanitize : sanitize_env_pairs override_vars ≡ ok sanitized
unfolding env_functions
sanitize = refl

override_text : AllText override_vars
unfolding is_utf8
override_text = ((refl, refl), ((refl, refl), tt))

build_env_cstrings_iff_example :
    (build_env_cstrings parent_vars (some override_vars) true ≡ ok built) ↔ (
      AllAllowed (given parent_vars (some override_vars) true)
      × (built ≡ entries (from_pairs (given parent_vars (some override_vars) true))))
build_env_cstrings_iff_example = build_env_cstrings_iff parent_vars (some override_vars) true built

build_env_cstrings-split_example :
    (env : Pairs Bytes) × (map split_entry built ≡ map some env)
    × IsSorted env
    × ((j : Bytes) → lookup j env ≡ last_value j none (given parent_vars (some override_vars) true))
build_env_cstrings-split_example =
    build_env_cstrings-split parent_vars (some override_vars) true built inherited

build_env_cstrings-sanitize_env_pairs_example :
    build_env_cstrings parent_vars (some sanitized) false ≡ ok (entries sanitized)
build_env_cstrings-sanitize_env_pairs_example =
    build_env_cstrings-sanitize_env_pairs parent_vars override_vars sanitized sanitize
