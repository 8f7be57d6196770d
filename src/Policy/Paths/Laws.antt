-- ===== src/Policy/Paths/Laws.antt =====
-- What `expand_path` yields, and that the escaped text can be read back.
use nono_py.Common.{
  ℕ, Bytes, codes, bytes_eq, bytes_eq_iff, strip_prefix-eq-some, strip_prefix-append, ◌≢◌,
  strip_prefix, starts_with, Bool, true, false, ◌==◌, [], ◌∷◌, ◌++◌, Option, none, some, ok, err,
  ◌>>=◌, >>=-eq-ok, if◌then◌else◌, ◌≡◌, refl, sym, ap, ◌∙◌, ◌⊎◌, inl, inr, Bool-cases, Option-cases,
  arith,
}
use nono_py.Policy.Paths.{
  is_control, escape_char, escape_from, escape_seatbelt_path, validated_env_path, join, expand_rest,
  expand_path,
}

abbrev pub before : ℕ → Option (Bytes × Bytes) → Option (Bytes × Bytes)
before c none = none
before c (some (text, rest)) = some (c ∷ text, rest)

-- A reader of the inside of a quoted string: a backslash hides the byte after it, and the first
-- quote that is not hidden ends the string.
unfoldable pub read_quoted : Bool → Bytes → Option (Bytes × Bytes)
read_quoted hidden [] = none
read_quoted true (c ∷ s) = before c (read_quoted false s)
read_quoted false (c ∷ s) =
    let next = read_quoted (c == 92) s in
    if c == 34 then some ([], s) else if c == 92 then next else before c next

read-escape_char :
    (c : ℕ) (s : Bytes) → read_quoted false (escape_char c ++ s) ≡ before c (read_quoted false s)
unfolding read_quoted
read-escape_char c s = elim (Bool-cases (c == 92)) [
  | inl e ↦ let q : c ≡ 92 = ground arith in rw q refl
  | inr e ↦ elim (Bool-cases (c == 34)) [
    | inl f ↦ let q : c ≡ 34 = ground arith in rw q refl
    | inr f ↦ rw (e, f, read_quoted) (rw (e, f) refl)
  ]
]

append_assoc : (xs ys zs : Bytes) → (xs ++ ys) ++ zs ≡ xs ++ (ys ++ zs)
append_assoc [] ys zs = refl
append_assoc (x ∷ xs) ys zs = rw (append_assoc xs ys zs) refl

read-escape_from :
    (path cs after : Bytes) {r : Bytes}
    → escape_from path cs ≡ ok r
    → read_quoted false (r ++ 34 ∷ after) ≡ some (cs, after)
unfolding escape_from read_quoted
read-escape_from path [] after {r} h = let q : r ≡ [] = cc h in rw q refl
read-escape_from path (c ∷ cs) after {r} h = elim (Bool-cases (is_control c cs)) [
  | inl e ↦ let h' : err _ ≡ ok r = rw (escape_from, e) at h in absurd (cc h')
  | inr e ↦
      let h' : (escape_from path cs >>= λ t. ok (escape_char c ++ t)) ≡ ok r =
        rw (escape_from, e) at h in
      let (t, g, k) = >>=-eq-ok (escape_from path cs) _ h' in
      let q : r ≡ escape_char c ++ t = cc k in
      ap (λ x. read_quoted false (x ++ 34 ∷ after)) q
      ∙ ap (λ x. read_quoted false x) (append_assoc (escape_char c) t (34 ∷ after))
      ∙ read-escape_char c (t ++ 34 ∷ after)
      ∙ ap (before c) (read-escape_from path cs after g)
]

-- An escaped path, closed by a quote, is read back as the path, and the rule after the quote is
-- left untouched, so no path can end the quoted string of a rule early.
pub read_quoted-escape_seatbelt_path :
    (path after : Bytes) (r : Bytes)
    → escape_seatbelt_path path ≡ ok r
    → read_quoted false (r ++ 34 ∷ after) ≡ some (path, after)
unfolding escape_seatbelt_path
read_quoted-escape_seatbelt_path path after r h = read-escape_from path path after h

-- The path is the value of a variable, alone or before the rest of the text.
abbrev pub IsExpanded : (Bytes → Option Bytes) → Bytes → Bytes → Bytes → Bytes → Type 0
IsExpanded env short name p r =
    (value : Bytes) × (env name ≡ some value)
    × (starts_with value (codes "/") ≡ true)
    × (((p ≡ short) × (r ≡ value))
        ⊎ ((rest : Bytes) × (p ≡ short ++ b'/' ∷ rest) × (r ≡ join value rest)))

validated-eq-ok :
    (env : Bytes → Option Bytes) (name : Bytes) {v : Bytes}
    → validated_env_path env name ≡ ok v
    → (env name ≡ some v) × (starts_with v (codes "/") ≡ true)
unfolding validated_env_path
validated-eq-ok env name {v} h = elim (Option-cases (env name)) [
  | inl e ↦ let h' : err _ ≡ ok v = rw (validated_env_path, e) at h in absurd (cc h')
  | inr (value, e) ↦ elim (Bool-cases (starts_with value (codes "/"))) [
    | inl f ↦
        let h' : ok value ≡ ok v = rw (validated_env_path, e, f) at h in
        let q : value ≡ v = cc h' in (e ∙ ap some q, rw (sym q) f)
    | inr f ↦ let h' : err _ ≡ ok v = rw (validated_env_path, e, f) at h in absurd (cc h')
  ]
]

alone :
    (env : Bytes → Option Bytes) (name short p : Bytes) {r : Bytes}
    → p ≡ short
    → validated_env_path env name ≡ ok r
    → IsExpanded env short name p r
alone env name short p {r} same h =
    let (e, absolute) = validated-eq-ok env name h in (r, e, absolute, inl (same, refl))

joined :
    (env : Bytes → Option Bytes) (name short p rest : Bytes) {r : Bytes}
    → p ≡ short ++ b'/' ∷ rest
    → (validated_env_path env name >>= λ v. ok (join v rest)) ≡ ok r
    → IsExpanded env short name p r
joined env name short p rest {r} same h =
    let (v, g, k) = >>=-eq-ok (validated_env_path env name) _ h in
    let (e, absolute) = validated-eq-ok env name g in (v, e, absolute, inr (rest, same, cc k))

-- The path is none of the three names, and starts with none of them followed by a slash.
pub record IsPlain (p : Bytes) : Type 0 where
  pub not_tilde : p ≢ codes "~"
  pub not_home : p ≢ codes "$HOME"
  pub not_tmpdir : p ≢ codes "$TMPDIR"
  pub not_under_tilde : (rest : Bytes) → p ≢ codes "~" ++ b'/' ∷ rest
  pub not_under_home : (rest : Bytes) → p ≢ codes "$HOME" ++ b'/' ∷ rest
  pub not_under_tmpdir : (rest : Bytes) → p ≢ codes "$TMPDIR" ++ b'/' ∷ rest

not_text : (p s : Bytes) → bytes_eq p s ≡ false → p ≢ s
not_text p s h e = let q = (bytes_eq_iff p s).1 e in cc (h, q)

not_under : (p s : Bytes) (rest : Bytes) → strip_prefix p s ≡ none → p ≢ s ++ rest
not_under p s rest h e =
    let q : strip_prefix p s ≡ some rest =
      ap (λ x. strip_prefix x s) e ∙ strip_prefix-append s rest in
    cc (h, q)

-- The names other than `~` and a lone `$HOME`.
unnamed :
    (env : Bytes → Option Bytes) (p r : Bytes)
    → strip_prefix p (codes "~/") ≡ none
    → bytes_eq p (codes "~") ≡ false
    → bytes_eq p (codes "$HOME") ≡ false
    → expand_rest env p ≡ ok r
    → ((r ≡ p) × IsPlain p)
      ⊎ (IsExpanded env (codes "~") (codes "HOME") p r
          ⊎ (IsExpanded env (codes "$HOME") (codes "HOME") p r
              ⊎ IsExpanded env (codes "$TMPDIR") (codes "TMPDIR") p r))
unfolding expand_rest
unnamed env p r tilde alone_tilde alone_home h =
    elim (Option-cases (strip_prefix p (codes "$HOME/"))) [
      | inr (rest, e) ↦
          let h' : (validated_env_path env (codes "HOME") >>= λ v. ok (join v rest)) ≡ ok r =
            rw (expand_rest, e) at h in
          inr (
            inr (
              inl (
                joined env _ (codes "$HOME") p rest (strip_prefix-eq-some p (codes "$HOME/") e)
                  h')))
      | inl e ↦ elim (Bool-cases (bytes_eq p (codes "$TMPDIR"))) [
        | inl t ↦
            let h' : validated_env_path env (codes "TMPDIR") ≡ ok r = rw (expand_rest, e, t) at h in
            inr (inr (inr (alone env _ _ p ((bytes_eq_iff p (codes "$TMPDIR")).0 t) h')))
        | inr t ↦ elim (Option-cases (strip_prefix p (codes "$TMPDIR/"))) [
          | inr (rest, f) ↦
              let h' : (validated_env_path env (codes "TMPDIR") >>= λ v. ok (join v rest)) ≡ ok r =
                rw (expand_rest, e, t, f) at h in
              inr (
                inr (
                  inr (
                    joined env _ (codes "$TMPDIR") p rest
                      (strip_prefix-eq-some p (codes "$TMPDIR/") f) h')))
          | inl f ↦
              let h' : ok p ≡ ok r = rw (expand_rest, e, t, f) at h in
              let q : r ≡ p = cc h' in
              inl (
                q,
                record {
                  not_tilde = not_text p _ alone_tilde;
                  not_home = not_text p _ alone_home;
                  not_tmpdir = not_text p _ t;
                  not_under_tilde = λ rest. not_under p (codes "~/") rest tilde;
                  not_under_home = λ rest. not_under p (codes "$HOME/") rest e;
                  not_under_tmpdir = λ rest. not_under p (codes "$TMPDIR/") rest f;
                },
              )
        ]
      ]
    ]

-- An expanded path is the path as it was given, which is then none of `~`, `$HOME` and `$TMPDIR` and
-- starts with none of them and a slash; or it starts with the value of `HOME` or `TMPDIR`, an absolute
-- path, in place of the name it was or started with.
pub expand_path-expands :
    (env : Bytes → Option Bytes) (p r : Bytes)
    → expand_path env p ≡ ok r
    → ((r ≡ p) × IsPlain p)
      ⊎ (IsExpanded env (codes "~") (codes "HOME") p r
          ⊎ (IsExpanded env (codes "$HOME") (codes "HOME") p r
              ⊎ IsExpanded env (codes "$TMPDIR") (codes "TMPDIR") p r))
unfolding expand_path
expand_path-expands env p r h = elim (Option-cases (strip_prefix p (codes "~/"))) [
  | inr (rest, e) ↦
      let h' : (validated_env_path env (codes "HOME") >>= λ v. ok (join v rest)) ≡ ok r =
        rw (expand_path, e) at h in
      inr (inl (joined env _ (codes "~") p rest (strip_prefix-eq-some p (codes "~/") e) h'))
  | inl e ↦ elim (Bool-cases (bytes_eq p (codes "~"))) [
    | inl t ↦
        let h' : validated_env_path env (codes "HOME") ≡ ok r = rw (expand_path, e, t) at h in
        inr (inl (alone env _ _ p ((bytes_eq_iff p (codes "~")).0 t) h'))
    | inr t ↦ elim (Bool-cases (bytes_eq p (codes "$HOME"))) [
      | inl u ↦
          let h' : validated_env_path env (codes "HOME") ≡ ok r = rw (expand_path, e, t, u) at h in
          inr (inr (inl (alone env _ _ p ((bytes_eq_iff p (codes "$HOME")).0 u) h')))
      | inr u ↦ unnamed env p r e t u (rw (expand_path, e, t, u) at h)
    ]
  ]
]
