-- ===== src/Exec/Env/Allowed.antt =====
-- What `validate_env_var` lets through, described without its tests.
use nono_py.Common.{
  Bytes, codes, bytes_eq, bytes_eq_iff, contains_iff, starts_with, starts_with_iff, Lacks, is_empty,
  Bool, true, false, [], ◌∷◌, ◌++◌, ok, ◌≡◌, refl, ◌≢◌, ◌↔◌, arith, All, >>=-eq-ok, ◌∙◌, ap,
}
use nono_py.SortedMap.{Pairs, insert, insert_all}
use nono_py.Exec.Env.{is_dangerous_loader_env, validate_env_var, insert_env_var, insert_env_vars}

-- Neither a variable of the dynamic loader's families nor one of its two fixed names.
pub record NotLoader (key : Bytes) : Type 0 where
  pub no_ld : (r : Bytes) → key ≢ codes "LD_" ++ r
  pub no_dyld : (r : Bytes) → key ≢ codes "DYLD_" ++ r
  pub no_libpath : key ≢ codes "LIBPATH"
  pub no_shlib_path : key ≢ codes "SHLIB_PATH"

pub record IsAllowed (key value : Bytes) : Type 0 where
  pub named : key ≢ []
  pub no_equals : Lacks b'=' key
  pub no_nul : Lacks 0 key
  pub value_no_nul : Lacks 0 value
  pub not_loader : NotLoader key

abbrev pub AllAllowed : Pairs Bytes → Type 0
AllAllowed = All (λ e. IsAllowed e.0 e.1)

NotLoader-of_false : (key : Bytes) → is_dangerous_loader_env key ≡ false → NotLoader key
unfolding is_dangerous_loader_env
NotLoader-of_false key h = record {
  no_ld = λ r e. ground (arith, (starts_with_iff key (codes "LD_")).1 (r, e));
  no_dyld = λ r e. ground (arith, (starts_with_iff key (codes "DYLD_")).1 (r, e));
  no_libpath = λ e. ground (arith, (bytes_eq_iff key (codes "LIBPATH")).1 e);
  no_shlib_path = λ e. ground (arith, (bytes_eq_iff key (codes "SHLIB_PATH")).1 e);
}

false_of_not : (b : Bool) → ¬ (b ≡ true) → b ≡ false
false_of_not true h = absurd (h refl)
false_of_not false h = refl

false_of_NotLoader : (key : Bytes) → NotLoader key → is_dangerous_loader_env key ≡ false
unfolding is_dangerous_loader_env
false_of_NotLoader key n =
    let ld =
      false_of_not (starts_with key (codes "LD_"))
        (λ h. let (r, e) = (starts_with_iff key (codes "LD_")).0 h in n.no_ld r e) in
    let dyld =
      false_of_not (starts_with key (codes "DYLD_"))
        (λ h. let (r, e) = (starts_with_iff key (codes "DYLD_")).0 h in n.no_dyld r e) in
    let lib =
      false_of_not (bytes_eq key (codes "LIBPATH"))
        (λ h. n.no_libpath ((bytes_eq_iff key (codes "LIBPATH")).0 h)) in
    let shlib =
      false_of_not (bytes_eq key (codes "SHLIB_PATH"))
        (λ h. n.no_shlib_path ((bytes_eq_iff key (codes "SHLIB_PATH")).0 h)) in
    rw (ld, dyld, lib, shlib) refl

IsAllowed-of_ok : (key value : Bytes) → validate_env_var key value ≡ ok tt → IsAllowed key value
unfolding validate_env_var
IsAllowed-of_ok key value h = record {
  named = ground arith;
  no_equals = (contains_iff b'=' key).0 (ground arith);
  no_nul = (contains_iff 0 key).0 (ground arith);
  value_no_nul = (contains_iff 0 value).0 (ground arith);
  not_loader = NotLoader-of_false key (ground arith);
}

is_empty_of_ne : (key : Bytes) → key ≢ [] → is_empty key ≡ false
is_empty_of_ne [] h = absurd (h refl)
is_empty_of_ne (c ∷ cs) h = refl

ok_of_IsAllowed : (key value : Bytes) → IsAllowed key value → validate_env_var key value ≡ ok tt
unfolding validate_env_var
ok_of_IsAllowed key value a =
    rw
      (
        is_empty_of_ne key a.named,
        (contains_iff b'=' key).1 a.no_equals,
        (contains_iff 0 key).1 a.no_nul,
        (contains_iff 0 value).1 a.value_no_nul,
        false_of_NotLoader key a.not_loader,
      )
      refl

-- A variable passes validation exactly when it is allowed.
validate_env_var_iff :
    (key value : Bytes) → (validate_env_var key value ≡ ok tt) ↔ IsAllowed key value
validate_env_var_iff key value = (IsAllowed-of_ok key value, ok_of_IsAllowed key value)

insert_env_var-ok :
    (env : Pairs Bytes) (key value : Bytes)
    → IsAllowed key value
    → insert_env_var env key value ≡ ok (insert key value env)
unfolding insert_env_var
insert_env_var-ok env key value a = rw (ok_of_IsAllowed key value a) refl

-- The loop over allowed variables makes the map of all of them.
pub insert_env_vars-ok :
    (env vars : Pairs Bytes) → AllAllowed vars → insert_env_vars env vars ≡ ok (insert_all env vars)
unfolding insert_env_vars insert_all
insert_env_vars-ok env [] a = refl
insert_env_vars-ok env ((k, v) ∷ vars) (a, as') =
    rw (insert_env_var-ok env k v a) (insert_env_vars-ok (insert k v env) vars as')

-- It succeeds on no others.
pub insert_env_vars-eq-ok :
    (env vars : Pairs Bytes) {m : Pairs Bytes}
    → insert_env_vars env vars ≡ ok m
    → AllAllowed vars × (m ≡ insert_all env vars)
unfolding insert_env_vars insert_all insert_env_var
insert_env_vars-eq-ok env [] h = (tt, cc)
insert_env_vars-eq-ok env ((k, v) ∷ vars) h =
    let (env', e, rest) = >>=-eq-ok (insert_env_var env k v) _ h in
    let (u, valid, e') = >>=-eq-ok (validate_env_var k v) _ e in
    let (allowed, same) = insert_env_vars-eq-ok env' vars rest in
    ((IsAllowed-of_ok k v valid, allowed), same ∙ ap (λ x. insert_all x vars) (cc))
