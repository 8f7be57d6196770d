-- ===== src/Policy/Resolution.antt =====
-- The state and the errors of `resolve_groups_impl` in src/policy.rs. The capability set is changed in
-- place, so that a call that fails still leaves the set as far as it got.
pub mod Keeps
use nono_py.Common.{
  Bytes, codes, bytes_eq, Bool, true, false, ◌&&◌, ◌||◌, not, is_empty, List, [], ◌∷◌, ◌++◌, Option,
  none, some, Result, ok, err, if◌then◌else◌, is_utf8,
}
use nono_py.Policy.Types.{PolicyError}
use nono_py.Policy.Files.{GroupError, policy}

-- The state of a resolution, and an action on it with its result.
pub record Resolution (Caps : Type 0) : Type 0 where
  pub caps : Caps
  pub deny_paths : List Bytes

abbrev pub M : Type 0 → Type 0 → Type 0
M Caps A = Resolution Caps → Result GroupError A × Resolution Caps

-- What follows a success; an error ends the sequence.
abbrev pub onward :
    {Caps A B : Type 0}
    → (A → M Caps B)
    → Result GroupError A × Resolution Caps
    → Result GroupError B × Resolution Caps
onward f (ok a, s) = f a s
onward f (err e, s) = (err e, s)

infixl 5 ◌>>=◌ ◌>>◌
abbrev pub ◌>>=◌ : {Caps A B : Type 0} → M Caps A → (A → M Caps B) → M Caps B
◌>>=◌ m f s = onward f (m s)

abbrev pub ◌>>◌ : {Caps B : Type 0} → M Caps (Unit {0}) → M Caps B → M Caps B
m >> k = m >>= λ _. k

abbrev pub pure : {Caps A : Type 0} → A → M Caps A
pure a s = (ok a, s)

-- `?` on a result that does not touch the state.
abbrev pub lift : {Caps A : Type 0} → Result GroupError A → M Caps A
lift r s = (r, s)

abbrev pub in_policy : {A : Type 0} → Result PolicyError A → Result GroupError A
in_policy (ok a) = ok a
in_policy (err e) = err (policy e)

abbrev pub push_deny : {Caps : Type 0} → Bytes → M Caps (Unit {0})
push_deny p s = (ok tt, record s { deny_paths = s.deny_paths ++ p ∷ [] })

abbrev pub when_some : {Caps A : Type 0} → Option A → (A → M Caps (Unit {0})) → M Caps (Unit {0})
when_some none f = pure tt
when_some (some a) f = f a

abbrev pub when : {Caps : Type 0} → Bool → M Caps (Unit {0}) → M Caps (Unit {0})
when true m = m
when false m = pure tt

-- A `for` loop.
unfoldable pub each : {Caps A : Type 0} → (A → M Caps (Unit {0})) → List A → M Caps (Unit {0})
each f [] = pure tt
each f (x ∷ xs) = f x >> each f xs
