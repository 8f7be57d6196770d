-- ===== src/Stderr/Paths/Quoted.antt =====
-- A quoted property of an error, as it is written and as it is read.
use nono_py.Common.{
  ℕ, Bytes, codes, starts_with, strip_prefix, true, false, ◌||◌, [], ◌∷◌, ◌++◌, some, if◌then◌else◌,
  ◌==◌, ◌≡◌, ◌≢◌, ◌⊎◌, refl, ap, ◌∙◌, inl, inr, arith,
}
use nono_py.Stderr.Text.{trim, trim_start, skip_white}
use nono_py.Stderr.Paths.{
  is_bad, is_quote, candidate_of, quoted_value, property_value, after_key,
  extract_structured_string_property,
}

-- A backslash before each quote and each backslash.
abbrev pub escaped : ℕ → Bytes → Bytes
escaped quote [] = []
escaped quote (c ∷ s) =
    if c == quote || c == b'\\' then b'\\' ∷ c ∷ escaped quote s else c ∷ escaped quote s

is_quote_cases : (q : ℕ) → is_quote q ≡ true → (q ≡ b'\'') ⊎ (q ≡ b'"')
is_quote_cases q h = ground arith

quoted_value-escaped :
    (q : ℕ) (s rest : Bytes) → q ≢ b'\\' → quoted_value q false (escaped q s ++ q ∷ rest) ≡ some s
unfolding quoted_value
quoted_value-escaped q [] rest h = ground arith
quoted_value-escaped q (c ∷ s) rest h =
    let ih = quoted_value-escaped q s rest h in ground (arith, ih)

strip_prefix-append : (p s : Bytes) → strip_prefix (p ++ s) p ≡ some s
unfolding strip_prefix
strip_prefix-append [] s = refl
strip_prefix-append (c ∷ p) s = ground (arith, strip_prefix-append p s)

candidate_of-good : (s : Bytes) → is_bad s ≡ false → candidate_of s ≡ some s
candidate_of-good s h = rw h refl

property_value-escaped :
    (q : ℕ) (value rest : Bytes)
    → is_quote q ≡ true
    → trim value ≡ value
    → is_bad value ≡ false
    → property_value (q ∷ escaped q value ++ q ∷ rest) ≡ some value
property_value-escaped q value rest hq ht hb =
    let ne : q ≢ b'\\' = elim (is_quote_cases q hq) [ inl e ↦ omega arith | inr e ↦ omega arith ] in
    rw (hq, quoted_value-escaped q value rest ne, ht) (candidate_of-good value hb)

-- The space before a quote is all that is trimmed.
trim_start-quote : (q : ℕ) (s : Bytes) → is_quote q ≡ true → trim_start (b' ' ∷ q ∷ s) ≡ q ∷ s
unfolding skip_white starts_with
trim_start-quote q s h = elim (is_quote_cases q h) [ inl e ↦ rw e refl | inr e ↦ rw e refl ]

after_key-quote :
    (q : ℕ) (s : Bytes)
    → is_quote q ≡ true
    → after_key (codes ": " ++ q ∷ s) ≡ property_value (q ∷ s)
unfolding skip_white starts_with strip_prefix
after_key-quote q s h = ap property_value (trim_start-quote q s h)

-- From a line that, trimmed, starts with the key, a colon, a space and a quoted value with its
-- quotes and backslashes escaped, the property reads that value, whatever follows: if the value is
-- nonempty, has no control character and no space at its ends.
pub extract_structured_string_property-escaped :
    (line key value rest : Bytes) (quote : ℕ)
    → trim line ≡ key ++ (codes ": " ++ quote ∷ escaped quote value ++ quote ∷ rest)
    → is_quote quote ≡ true
    → trim value ≡ value
    → is_bad value ≡ false
    → extract_structured_string_property line key ≡ some value
unfolding extract_structured_string_property
extract_structured_string_property-escaped line key value rest quote e hq ht hb =
    let tail : Bytes = quote ∷ escaped quote value ++ quote ∷ rest in
    rw (e, strip_prefix-append key (codes ": " ++ tail))
      (after_key-quote quote _ hq ∙ property_value-escaped quote value rest hq ht hb)
