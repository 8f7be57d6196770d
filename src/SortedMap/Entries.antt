-- ===== src/SortedMap/Entries.antt =====
-- What holds of the pairs of a map, and how many there are.
use nono_py.Common.{
  Bytes, bytes_eq, bytes_eq_iff, [], ◌∷◌, some, ◌≡◌, subst, arith, Bool-cases, Ordering-cases, inl,
  inr, All, length, suc, ◌≤◌,
}
use mathlib.Core.Option.{some-injective}
use nono_py.SortedMap.Defs.{cmp_bytes, Pairs, insert, lookup}
use nono_py.SortedMap.Order.{cmp-eq}

module _ {ℓ} {V : Type ℓ} where
  pub length-insert : (k : Bytes) (v : V) (m : Pairs V) → length (insert k v m) ≤ suc (length m)
  unfolding insert
  length-insert k v [] = omega arith
  length-insert k v ((j, w) ∷ m) = elim (Ordering-cases (cmp_bytes k j)) [
    | inl h ↦ rw (h, insert) (omega arith)
    | inr (inl h) ↦ rw (h, insert) (omega arith)
    | inr (inr h) ↦ let rest = length-insert k v m in rw (h, insert) (omega arith)
  ]

  module _ {κ} (P : Bytes × V → Type κ) where
    pub All-insert : (k : Bytes) (v : V) (m : Pairs V) → P (k, v) → All P m → All P (insert k v m)
    unfolding insert
    All-insert k v [] p ps = (p, tt)
    All-insert k v ((j, w) ∷ m) p (q, qs) = elim (Ordering-cases (cmp_bytes k j)) [
      | inl h ↦ rw (h, insert) (p, (q, qs))
      | inr (inl h) ↦ rw (h, insert) (subst (λ i. P (i, v)) (cmp-eq k j h) p, qs)
      | inr (inr h) ↦ rw (h, insert) (q, All-insert k v m p qs)
    ]

    pub All-lookup : (k : Bytes) (v : V) (m : Pairs V) → lookup k m ≡ some v → All P m → P (k, v)
    unfolding lookup
    All-lookup k v [] e ps = absurd (cc e)
    All-lookup k v ((j, w) ∷ m) e (q, qs) = elim (Bool-cases (bytes_eq j k)) [
      | inl h ↦
          let e' : some w ≡ some v = rw h at e in
          subst (λ u. P (k, u)) (some-injective w v e')
            (subst (λ i. P (i, w)) ((bytes_eq_iff j k).0 h) q)
      | inr h ↦ let e' : lookup k m ≡ some v = rw h at e in All-lookup k v m e' qs
    ]
