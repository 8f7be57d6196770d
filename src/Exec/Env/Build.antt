-- ===== src/Exec/Env/Build.antt =====
-- `build_env_cstrings`: which environments are built, and what is in them.
use mathlib.Core.Option
use nono_py.Common.{
  Bytes, contains_iff, Lacks, Lacks-append, Bool, true, false, List, [], ◌∷◌, ◌++◌, Option, none,
  some, ok, >>=-eq-ok, ◌≡◌, refl, sym, ap, ◌∙◌, ◌↔◌, arith, All-append, All-left, All-right,
  Bool-cases, ==_iff, ap₂, if◌then◌else◌, map, ◌==◌, Ordering-cases, inl, inr,
}
use nono_py.SortedMap.{
  Pairs, insert, insert_all, from_pairs, cmp_bytes, cmp-eq, insert_all-append, IsSorted,
  from_pairs-IsSorted, lookup, last_value, lookup-from_pairs,
}
use nono_py.Exec.Env.{cstring, entry, env_cstrings, insert_env_vars, build_env_cstrings}
use nono_py.Exec.Env.Allowed.{IsAllowed, AllAllowed, insert_env_vars-ok, insert_env_vars-eq-ok}

insert-AllAllowed :
    (k v : Bytes) (m : Pairs Bytes) → IsAllowed k v → AllAllowed m → AllAllowed (insert k v m)
unfolding insert
insert-AllAllowed k v [] a h = (a, tt)
insert-AllAllowed k v ((j, w) ∷ m) a (b, h) = elim (Ordering-cases (cmp_bytes k j)) [
  | inl e ↦ rw (e, insert) (a, (b, h))
  | inr (inl e) ↦ rw (e, insert) ((rw (cmp-eq k j e) at a), h)
  | inr (inr e) ↦ rw (e, insert) (b, insert-AllAllowed k v m a h)
]

insert_all-AllAllowed :
    (m ps : Pairs Bytes) → AllAllowed m → AllAllowed ps → AllAllowed (insert_all m ps)
unfolding insert_all
insert_all-AllAllowed m [] h k = h
insert_all-AllAllowed m ((k, v) ∷ ps) h (a, as') =
    insert_all-AllAllowed (insert k v m) ps (insert-AllAllowed k v m a h) as'

pub from_pairs-AllAllowed : (ps : Pairs Bytes) → AllAllowed ps → AllAllowed (from_pairs ps)
unfolding from_pairs
from_pairs-AllAllowed ps a = insert_all-AllAllowed [] ps tt a

abbrev pub entries : Pairs Bytes → List Bytes
entries = map (λ e. entry e.0 e.1)

entry-Lacks : (k v : Bytes) → IsAllowed k v → Lacks 0 (entry k v)
entry-Lacks k v a = Lacks-append 0 k (b'=' ∷ v) a.no_nul (omega arith, a.value_no_nul)

-- No entry of allowed variables holds a NUL, so the last check never fails.
env_cstrings-ok : (env : Pairs Bytes) → AllAllowed env → env_cstrings env ≡ ok (entries env)
unfolding env_cstrings cstring
env_cstrings-ok [] a = refl
env_cstrings-ok ((k, v) ∷ env) (a, as') =
    rw ((contains_iff 0 (entry k v)).1 (entry-Lacks k v a), env_cstrings-ok env as') refl

-- The variables that the loops go through, in their order.
abbrev pub given : Pairs Bytes → Option (Pairs Bytes) → Bool → Pairs Bytes
given parent none inherit_env = if inherit_env then parent else []
given parent (some ovr) inherit_env = (if inherit_env then parent else []) ++ ovr

-- If every variable is allowed, the entries of their map are built, and no message is raised.
pub build_env_cstrings-ok :
    (parent : Pairs Bytes) (overrides : Option (Pairs Bytes)) (inherit_env : Bool)
    → AllAllowed (given parent overrides inherit_env)
    → build_env_cstrings parent overrides inherit_env
      ≡ ok (entries (from_pairs (given parent overrides inherit_env)))
unfolding build_env_cstrings from_pairs
build_env_cstrings-ok parent none true a =
    rw (insert_env_vars-ok [] parent a) (env_cstrings-ok _ (insert_all-AllAllowed [] parent tt a))
build_env_cstrings-ok parent none false a = env_cstrings-ok [] tt
build_env_cstrings-ok parent (some ovr) true a =
    let inherited = All-left _ parent ovr a in
    rw (insert_env_vars-ok [] parent inherited, insert_all-append [] parent ovr)
      (rw (insert_env_vars-ok (insert_all [] parent) ovr (All-right _ parent ovr a)) (
        env_cstrings-ok _ (
          insert_all-AllAllowed _ ovr (insert_all-AllAllowed [] parent tt inherited)
            (All-right _ parent ovr a))))
build_env_cstrings-ok parent (some ovr) false a =
    rw (insert_env_vars-ok [] ovr a) (env_cstrings-ok _ (insert_all-AllAllowed [] ovr tt a))

build_env_cstrings-allowed :
    (parent : Pairs Bytes) (overrides : Option (Pairs Bytes)) (inherit_env : Bool)
    {out : List Bytes}
    → build_env_cstrings parent overrides inherit_env ≡ ok out
    → AllAllowed (given parent overrides inherit_env)
unfolding build_env_cstrings
build_env_cstrings-allowed parent none true h =
    let (m, e, _) = >>=-eq-ok (insert_env_vars [] parent) _ h in
    (insert_env_vars-eq-ok [] parent e).0
build_env_cstrings-allowed parent none false h = tt
build_env_cstrings-allowed parent (some ovr) true h =
    let (m, e, h') = >>=-eq-ok (insert_env_vars [] parent) _ h in
    let (n, e', _) = >>=-eq-ok (insert_env_vars m ovr) _ h' in
    All-append _ parent ovr (insert_env_vars-eq-ok [] parent e).0 (insert_env_vars-eq-ok m ovr e').0
build_env_cstrings-allowed parent (some ovr) false h =
    let (n, e', _) = >>=-eq-ok (insert_env_vars [] ovr) _ h in (insert_env_vars-eq-ok [] ovr e').0

-- The child's environment is built exactly when every variable given, by inheritance or by an
-- override, is allowed, and it is then the entries of the map of these variables; so the check for
-- a NUL in a finished entry never fails.
pub build_env_cstrings_iff :
    (parent : Pairs Bytes) (overrides : Option (Pairs Bytes)) (inherit_env : Bool)
    (out : List Bytes)
    → (build_env_cstrings parent overrides inherit_env ≡ ok out) ↔ (
        AllAllowed (given parent overrides inherit_env)
        × (out ≡ entries (from_pairs (given parent overrides inherit_env))))
build_env_cstrings_iff parent overrides inherit_env out = (
  λ h.
      let a = build_env_cstrings-allowed parent overrides inherit_env h in
      let e = build_env_cstrings-ok parent overrides inherit_env a in (a, cc (e, h)),
  λ h. build_env_cstrings-ok parent overrides inherit_env h.0 ∙ ap ok (sym h.1),
)

-- A reader that splits an entry at its first '='.
abbrev pub split_entry : Bytes → Option (Bytes × Bytes)
split_entry [] = none
split_entry (c ∷ cs) =
    if c == b'=' then some ([], cs) else Option.map (λ p. (c ∷ p.0, p.1)) (split_entry cs)

split_entry-entry : (k v : Bytes) → Lacks b'=' k → split_entry (entry k v) ≡ some (k, v)
split_entry-entry [] v h = refl
split_entry-entry (c ∷ k) v (n, h) = elim (Bool-cases (c == b'=')) [
  | inl e ↦ absurd (n ((==_iff c b'=').0 e))
  | inr e ↦ rw (e, split_entry-entry k v h) refl
]

entries-split : (m : Pairs Bytes) → AllAllowed m → map split_entry (entries m) ≡ map some m
entries-split [] a = refl
entries-split ((k, v) ∷ m) (a, as') =
    ap₂ ◌∷◌ (split_entry-entry k v a.no_equals) (entries-split m as')

-- Reading the built entries back, each split at its first '=', gives a map in the order of its
-- names that holds for each name the value given last; an override comes after what is inherited.
pub build_env_cstrings-split :
    (parent : Pairs Bytes) (overrides : Option (Pairs Bytes)) (inherit_env : Bool)
    (out : List Bytes)
    → build_env_cstrings parent overrides inherit_env ≡ ok out
    → (env : Pairs Bytes) × (map split_entry out ≡ map some env)
      × IsSorted env
      × ((j : Bytes) → lookup j env ≡ last_value j none (given parent overrides inherit_env))
build_env_cstrings-split parent overrides inherit_env out h =
    let (a, e) = (build_env_cstrings_iff parent overrides inherit_env out).0 h in
    let vars = given parent overrides inherit_env in
    (
      from_pairs vars,
      rw e (entries-split _ (from_pairs-AllAllowed vars a)),
      from_pairs-IsSorted vars,
      λ j. lookup-from_pairs j vars,
    )
