-- ===== src/Exec/Env/Sanitize.antt =====
-- `sanitize_env_pairs`, which `ProxyHandle.sandbox_env` ends with.
use nono_py.Common.{
  Bytes, true, false, [], ◌∷◌, some, ok, err, >>=-eq-ok, ◌≡◌, refl, sym, ap, ◌∙◌, ◌↔◌, All, is_utf8,
  Bool-cases, Ordering-cases, inl, inr, subst,
}
use nono_py.SortedMap.{
  Pairs, insert, insert_all, from_pairs, cmp_bytes, from_pairs-IsSorted, from_pairs-sorted,
  IsSorted,
}
use nono_py.Exec.Env.{
  EnvError, from_utf8, name_not_utf8, value_not_utf8, utf8_pairs, insert_env_vars,
  sanitize_env_pairs, build_env_cstrings,
}
use nono_py.Exec.Env.Allowed.{AllAllowed, insert_env_vars-ok, insert_env_vars-eq-ok}
use nono_py.Exec.Env.Build.{entries, from_pairs-AllAllowed, build_env_cstrings-ok}

-- What a Rust `String` is in any case.
abbrev pub AllText : Pairs Bytes → Type 0
AllText = All (λ e. (is_utf8 e.0 ≡ true) × (is_utf8 e.1 ≡ true))

from_utf8-eq-ok : (bs : Bytes) (e : EnvError) {r : Bytes} → from_utf8 bs e ≡ ok r → r ≡ bs
unfolding from_utf8
from_utf8-eq-ok bs e h = elim (Bool-cases (is_utf8 bs)) [
  | inl t ↦ let h' : ok bs ≡ ok _ = rw t at h in cc h'
  | inr f ↦ let h' : err e ≡ ok _ = rw f at h in cc h'
]

utf8_pairs-eq-ok : (m : Pairs Bytes) {qs : Pairs Bytes} → utf8_pairs m ≡ ok qs → qs ≡ m
unfolding utf8_pairs
utf8_pairs-eq-ok [] h = cc
utf8_pairs-eq-ok ((k, v) ∷ m) h =
    let (k', ek, h1) = >>=-eq-ok (from_utf8 k name_not_utf8) _ h in
    let (v', ev, h2) = >>=-eq-ok (from_utf8 v value_not_utf8) _ h1 in
    let (rest, er, h3) = >>=-eq-ok (utf8_pairs m) _ h2 in
    let same_key = from_utf8-eq-ok k name_not_utf8 ek in
    let same_value = from_utf8-eq-ok v value_not_utf8 ev in
    let same_rest = utf8_pairs-eq-ok m er in cc (h3, same_key, same_value, same_rest)

utf8_pairs-ok : (m : Pairs Bytes) → AllText m → utf8_pairs m ≡ ok m
unfolding utf8_pairs from_utf8
utf8_pairs-ok [] t = refl
utf8_pairs-ok ((k, v) ∷ m) ((tk, tv), ts) = rw (tk, tv, utf8_pairs-ok m ts) refl

insert-AllText :
    (k v : Bytes) (m : Pairs Bytes)
    → (is_utf8 k ≡ true) × (is_utf8 v ≡ true)
    → AllText m
    → AllText (insert k v m)
unfolding insert
insert-AllText k v [] a h = (a, tt)
insert-AllText k v ((j, w) ∷ m) a (b, h) = elim (Ordering-cases (cmp_bytes k j)) [
  | inl e ↦ rw (e, insert) (a, (b, h))
  | inr (inl e) ↦ rw (e, insert) ((b.0, a.1), h)
  | inr (inr e) ↦ rw (e, insert) (b, insert-AllText k v m a h)
]

insert_all-AllText : (m ps : Pairs Bytes) → AllText m → AllText ps → AllText (insert_all m ps)
unfolding insert_all
insert_all-AllText m [] h k = h
insert_all-AllText m ((k, v) ∷ ps) h (a, as') =
    insert_all-AllText (insert k v m) ps (insert-AllText k v m a h) as'

sanitize-parts :
    (ps qs : Pairs Bytes)
    → sanitize_env_pairs ps ≡ ok qs
    → AllAllowed ps × (qs ≡ from_pairs ps) × (utf8_pairs qs ≡ ok qs)
unfolding sanitize_env_pairs from_pairs
sanitize-parts ps qs h =
    let (m, e, h') = >>=-eq-ok (insert_env_vars [] ps) _ h in
    let (a, same) = insert_env_vars-eq-ok [] ps e in
    let back = utf8_pairs-eq-ok m h' in
    (a, back ∙ same, subst (λ x. utf8_pairs x ≡ ok qs) (sym back) h')

-- For texts, `sanitize_env_pairs` succeeds exactly when all pairs are allowed, with the map of the
-- pairs in the order of their names; so its errors about UTF-8 are never raised.
sanitize_env_pairs_iff :
    (ps qs : Pairs Bytes)
    → AllText ps
    → (sanitize_env_pairs ps ≡ ok qs) ↔ (AllAllowed ps × (qs ≡ from_pairs ps))
unfolding sanitize_env_pairs from_pairs
sanitize_env_pairs_iff ps qs t = (
  λ h. let (a, e, _) = sanitize-parts ps qs h in (a, e),
  λ h.
      rw (insert_env_vars-ok [] ps h.0)
        (utf8_pairs-ok _ (insert_all-AllText [] ps tt t) ∙ ap ok (sym h.1)),
)

from_pairs_again : (ps qs : Pairs Bytes) → qs ≡ from_pairs ps → from_pairs qs ≡ qs
from_pairs_again ps qs e =
    from_pairs-sorted qs (subst (λ x. IsSorted x) (sym e) (from_pairs-IsSorted ps))

-- Sanitising twice is sanitising once.
sanitize_env_pairs_idempotent :
    (ps qs : Pairs Bytes) → sanitize_env_pairs ps ≡ ok qs → sanitize_env_pairs qs ≡ ok qs
unfolding sanitize_env_pairs from_pairs
sanitize_env_pairs_idempotent ps qs h =
    let (a, e, texts) = sanitize-parts ps qs h in
    let a' : AllAllowed qs = subst (λ x. AllAllowed x) (sym e) (from_pairs-AllAllowed ps a) in
    rw (insert_env_vars-ok [] qs a') (ap utf8_pairs (from_pairs_again ps qs e) ∙ texts)

-- The pairs that `sandbox_env` returns are accepted by `sandboxed_exec` as they are, and become
-- the child's whole environment.
pub build_env_cstrings-sanitize_env_pairs :
    (parent ps qs : Pairs Bytes)
    → sanitize_env_pairs ps ≡ ok qs
    → build_env_cstrings parent (some qs) false ≡ ok (entries qs)
build_env_cstrings-sanitize_env_pairs parent ps qs h =
    let (a, e, _) = sanitize-parts ps qs h in
    let a' : AllAllowed qs = subst (λ x. AllAllowed x) (sym e) (from_pairs-AllAllowed ps a) in
    build_env_cstrings-ok parent (some qs) false a'
    ∙ ap (λ x. ok (entries x)) (from_pairs_again ps qs e)
