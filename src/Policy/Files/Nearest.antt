-- ===== src/Policy/Files/Nearest.antt =====
-- What the loop of `resolve_parent_symlinks` finds.
use mathlib.Core.List.{append-nil}
use nono_py.Common.{
  Bytes, true, false, List, [], ◌∷◌, ◌++◌, Option, none, some, ok, err, ◌≡◌, refl, sym, subst, ◌∙◌,
  ◌⊎◌, inl, inr, Bool-cases, Result-cases,
}
use nono_py.Policy.Checks.{components, same_path}
use nono_py.Policy.Files.{
  FileSystem, reverse_onto, is_file_name, push_all, path_of, climb, resolve_parent_symlinks,
}

reverse_append : (xs ys zs : List Bytes) → reverse_onto xs (ys ++ zs) ≡ reverse_onto xs ys ++ zs
reverse_append [] ys zs = refl
reverse_append (x ∷ xs) ys zs = reverse_append xs (x ∷ ys) zs

reverse_twice :
    (xs ys zs : List Bytes) → reverse_onto (reverse_onto xs ys) zs ≡ reverse_onto ys (xs ++ zs)
reverse_twice [] ys zs = refl
reverse_twice (x ∷ xs) ys zs = reverse_twice xs (x ∷ ys) zs

-- The bytes by which the file system is asked for the first components, the others left out: the
-- path's own if none is.
abbrev pub asked : Bytes → List Bytes → List Bytes → Bytes
asked path current [] = path
asked path current (name ∷ suffix) = path_of current

module _ (fs : FileSystem) where
  -- Nothing exists on the way from `current` on.
  abbrev pub Missing : Bytes → List Bytes → List Bytes → Type 0
  Missing path current [] = Unit
  Missing path current (name ∷ suffix) =
      (fs.exists (asked path (current ++ name ∷ []) suffix) ≡ false)
      × Missing path (current ++ name ∷ []) suffix

  -- The nearest parent of the path that exists, or the path itself, and what comes after it.
  pub record IsNearest (path : Bytes) (parts current suffix : List Bytes) : Type 0 where
    pub split : parts ≡ current ++ suffix
    pub is_there : fs.exists (asked path current suffix) ≡ true
    pub missing : Missing path current suffix

  -- The path `q` is `path` with its nearest parent that exists in canonical form.
  pub record IsThrough (path q : Bytes) : Type 0 where
    pub current : List Bytes
    pub suffix : List Bytes
    pub base : Bytes
    pub nearest : IsNearest path (components path) current suffix
    pub canonical : fs.canonicalize (asked path current suffix) ≡ ok base
    pub rest_kept : q ≡ push_all base suffix

  -- What the loop finds, by its components.
  record IsFound (path : Bytes) (parts : List Bytes) (found : Bytes) (suffix : List Bytes)
      : Type 0 where
    current : List Bytes
    nearest : IsNearest path parts current suffix
    same_text : found ≡ asked path current suffix

  stopped :
      (path text found : Bytes) (current suffix rest parts : List Bytes)
      → parts ≡ current ++ suffix
      → text ≡ asked path current suffix
      → fs.exists text ≡ true
      → Missing path current suffix
      → text ≡ found
      → suffix ≡ rest
      → IsFound path parts found rest
  stopped path text found current suffix rest parts split s e m here after =
      subst (λ r. IsFound path parts found r) after
        record {
          current = current;
          nearest = record {
            split = split;
            is_there = subst (λ c. fs.exists c ≡ true) s e;
            missing = m;
          };
          same_text = sym here ∙ s;
        }

  climb-IsFound :
      (path text : Bytes) (names suffix : List Bytes) (found : Bytes) (rest : List Bytes)
      → text ≡ asked path (reverse_onto names []) suffix
      → Missing path (reverse_onto names []) suffix
      → climb fs path text names suffix ≡ ok (found, rest)
      → IsFound path (reverse_onto names suffix) found rest
  unfolding climb
  climb-IsFound path text [] suffix found rest s m h = elim (Bool-cases (fs.exists text)) [
    | inr e ↦ let h' : err _ ≡ ok (found, rest) = rw (climb, e) at h in absurd (cc h')
    | inl e ↦
        let h' : ok (text, suffix) ≡ ok (found, rest) = rw (climb, e) at h in
        let here : text ≡ found = cc h' in
        let after : suffix ≡ rest = cc h' in
        stopped path text found [] suffix rest suffix refl s e m here after
  ]
  climb-IsFound path text (name ∷ names) suffix found rest s m h =
      let whole : List Bytes = reverse_onto (name ∷ names) [] in
      elim (Bool-cases (fs.exists text)) [
        | inl e ↦
            let h' : ok (text, suffix) ≡ ok (found, rest) = rw (climb, e) at h in
            let here : text ≡ found = cc h' in
            let after : suffix ≡ rest = cc h' in
            stopped path text found whole suffix rest (reverse_onto (name ∷ names) suffix)
              (reverse_append (name ∷ names) [] suffix) s e m here after
        | inr e ↦ elim (Bool-cases (is_file_name name)) [
          | inr f ↦ let h' : err _ ≡ ok (found, rest) = rw (climb, e, f) at h in absurd (cc h')
          | inl f ↦
              let last : whole ≡ reverse_onto names [] ++ name ∷ [] =
                reverse_append names [] (name ∷ []) in
              climb-IsFound path (path_of (reverse_onto names [])) names (name ∷ suffix) found rest
                refl
                (
                  subst (λ c. fs.exists (asked path c suffix) ≡ false) last
                      (subst (λ c. fs.exists c ≡ false) s e),
                  subst (λ c. Missing path c suffix) last m,
                )
                (rw (climb, e, f) at h)
        ]
      ]

  -- What is returned is the path through its nearest parent that exists, or nothing if this is the
  -- path again.
  pub resolve_parent-IsThrough :
      (path : Bytes) (r : Option Bytes)
      → resolve_parent_symlinks fs path ≡ ok r
      → (q : Bytes) × IsThrough path q
        × ((r ≡ some q) ⊎ ((r ≡ none) × (same_path (components q) (components path) ≡ true)))
  unfolding resolve_parent_symlinks
  resolve_parent-IsThrough path r h =
      elim (Result-cases (climb fs path path (reverse_onto (components path) []) [])) [
        | inr (x, e) ↦
            let h' : err x ≡ ok r = rw (resolve_parent_symlinks, e) at h in absurd (cc h')
        | inl ((text, suffix), e) ↦
            let found =
              climb-IsFound path path (reverse_onto (components path) []) [] text suffix refl tt
                e in
            let same : reverse_onto (reverse_onto (components path) []) [] ≡ components path =
              reverse_twice (components path) [] [] ∙ append-nil (components path) in
            elim (Result-cases (fs.canonicalize text)) [
              | inr (x, f) ↦
                  let h' : err _ ≡ ok r = rw (resolve_parent_symlinks, e, f) at h in absurd (cc h')
              | inl (base, f) ↦
                  let q : Bytes = push_all base suffix in
                  let through : IsThrough path q = record {
                    current = found.current;
                    suffix = suffix;
                    base = base;
                    nearest = subst (λ p. IsNearest path p found.current suffix) same found.nearest;
                    canonical = subst (λ c. fs.canonicalize c ≡ ok base) found.same_text f;
                    rest_kept = refl;
                  } in
                  elim (Bool-cases (same_path (components q) (components path))) [
                    | inl g ↦
                        let h' : ok none ≡ ok r = rw (resolve_parent_symlinks, e, f, g) at h in
                        (q, through, inr (cc h', g))
                    | inr g ↦
                        let h' : ok (some q) ≡ ok r = rw (resolve_parent_symlinks, e, f, g) at h in
                        (q, through, inl (cc h'))
                  ]
            ]
      ]
