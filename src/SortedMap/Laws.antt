-- ===== src/SortedMap/Laws.antt =====
-- What insertion does to a lookup and to the order, and that a sorted list is its own map.
use mathlib.Core.List.{append-nil, append_assoc}
use nono_py.Common.{
  Ordering, Bytes, bytes_eq, bytes_eq_iff, [], ◌∷◌, ◌++◌, Option, none, some, ◌≡◌, refl, sym, ap,
  ◌∙◌, subst, if◌then◌else◌, arith, Bool-cases, Ordering-cases, ◌≢◌, inl, inr,
}
use nono_py.SortedMap.Defs.{
  cmp_bytes, LtB, Pairs, insert, lookup, insert_all, from_pairs, Above, IsSorted,
}
use nono_py.SortedMap.Order.{cmp-eq, cmp_self, cmp-flip, LtB-trans}

cmp-gt-ne : (a b : Bytes) → cmp_bytes a b ≡ Ordering.gt → a ≢ b
cmp-gt-ne a b h e = cc (cmp_self b, ap (λ x. cmp_bytes x b) e)

module _ {ℓ} {V : Type ℓ} where
  lookup-shadow :
      (i j : Bytes) (v w : V) (m : Pairs V)
      → (if bytes_eq i j then some v else lookup j m)
        ≡ (if bytes_eq i j then some v else (if bytes_eq i j then some w else lookup j m))
  lookup-shadow i j v w m = elim (Bool-cases (bytes_eq i j)) [
    | inl e ↦ rw e refl
    | inr e ↦ rw e refl
  ]

  swap_if :
      (i k j : Bytes) (w v : V) (o : Option V)
      → i ≢ k
      → (if bytes_eq i j then some w else (if bytes_eq k j then some v else o))
        ≡ (if bytes_eq k j then some v else (if bytes_eq i j then some w else o))
  swap_if i k j w v o ne = elim (Bool-cases (bytes_eq i j)) [
    | inr e ↦ rw e refl
    | inl e ↦ elim (Bool-cases (bytes_eq k j)) [
      | inr e' ↦ rw (e, e') refl
      | inl e' ↦ absurd (ne ((bytes_eq_iff i j).0 e ∙ sym ((bytes_eq_iff k j).0 e')))
    ]
  ]

  lookup-insert :
      (k j : Bytes) (v : V) (m : Pairs V)
      → lookup j (insert k v m) ≡ (if bytes_eq k j then some v else lookup j m)
  unfolding lookup insert
  lookup-insert k j v [] = refl
  lookup-insert k j v ((i, w) ∷ m) = elim (Ordering-cases (cmp_bytes k i)) [
    | inl h ↦ rw (h, insert) refl
    | inr (inl h) ↦ rw (h, insert, cmp-eq k i h) (lookup-shadow i j v w m)
    | inr (inr h) ↦
        rw (h, insert, lookup-insert k j v m)
          (swap_if i k j w v (lookup j m) (λ e. cmp-gt-ne k i h (sym e)))
  ]

  Above-trans : (a b : Bytes) (m : Pairs V) → LtB a b → Above b m → Above a m
  Above-trans a b [] h k = tt
  Above-trans a b ((j, v) ∷ m) h (k, ks) = (LtB-trans a b j h k, Above-trans a b m h ks)

  Above-insert : (j k : Bytes) (v : V) (m : Pairs V) → LtB j k → Above j m → Above j (insert k v m)
  unfolding insert
  Above-insert j k v [] h a = (h, tt)
  Above-insert j k v ((i, w) ∷ m) h (a, as') = ground (arith, Above-insert j k v m h as')

  pub insert-IsSorted : (k : Bytes) (v : V) (m : Pairs V) → IsSorted m → IsSorted (insert k v m)
  unfolding insert
  insert-IsSorted k v [] s = (tt, tt)
  insert-IsSorted k v ((j, w) ∷ m) (a, s) =
      ground (arith, insert-IsSorted k v m s, Above-trans k j m, Above-insert j k v m, cmp-flip k j)

  insert_all-IsSorted : (m ps : Pairs V) → IsSorted m → IsSorted (insert_all m ps)
  unfolding insert_all
  insert_all-IsSorted m [] s = s
  insert_all-IsSorted m ((k, v) ∷ ps) s =
      insert_all-IsSorted (insert k v m) ps (insert-IsSorted k v m s)

  Above-last : (j k : Bytes) (v : V) (m : Pairs V) → Above j (m ++ (k, v) ∷ []) → LtB j k
  Above-last j k v [] (h, _) = h
  Above-last j k v (e ∷ m) (_, h) = Above-last j k v m h

  -- Appending a key above all others is what `insert` does with it.
  insert-last :
      (k : Bytes) (v : V) (m : Pairs V)
      → IsSorted (m ++ (k, v) ∷ [])
      → insert k v m ≡ m ++ (k, v) ∷ []
  unfolding insert
  insert-last k v [] s = refl
  insert-last k v ((j, w) ∷ m) (a, s) =
      ground (arith, insert-last k v m s, cmp-flip j k, Above-last j k v m a)

  Above-append :
      (j k : Bytes) (v : V) (m ps : Pairs V)
      → Above j (m ++ (k, v) ∷ ps)
      → Above j (m ++ (k, v) ∷ [])
  Above-append j k v [] ps (h, _) = (h, tt)
  Above-append j k v (e ∷ m) ps (a, h) = (a, Above-append j k v m ps h)

  IsSorted-append :
      (m : Pairs V) (k : Bytes) (v : V) (ps : Pairs V)
      → IsSorted (m ++ (k, v) ∷ ps)
      → IsSorted (m ++ (k, v) ∷ [])
  IsSorted-append [] k v ps s = (tt, tt)
  IsSorted-append ((j, w) ∷ m) k v ps (a, s) =
      (Above-append j k v m ps a, IsSorted-append m k v ps s)

  insert_all-sorted : (ps m : Pairs V) → IsSorted (m ++ ps) → insert_all m ps ≡ m ++ ps
  unfolding insert_all
  insert_all-sorted [] m s = sym (append-nil m)
  insert_all-sorted ((k, v) ∷ ps) m s =
      let regroup : (m ++ (k, v) ∷ []) ++ ps ≡ m ++ (k, v) ∷ ps = append_assoc m _ ps in
      let s' : IsSorted ((m ++ (k, v) ∷ []) ++ ps) = subst (λ l. IsSorted l) (sym regroup) s in
      rw (insert-last k v m (IsSorted-append m k v ps s))
        (insert_all-sorted ps (m ++ (k, v) ∷ []) s' ∙ regroup)

  -- A sorted list of pairs is the map made from it.
  pub from_pairs-sorted : (ps : Pairs V) → IsSorted ps → from_pairs ps ≡ ps
  unfolding from_pairs
  from_pairs-sorted ps s = insert_all-sorted ps [] s

  pub from_pairs-IsSorted : (ps : Pairs V) → IsSorted (from_pairs ps)
  unfolding from_pairs
  from_pairs-IsSorted ps = insert_all-IsSorted [] ps tt

  pub insert_all-append :
      (m ps qs : Pairs V) → insert_all m (ps ++ qs) ≡ insert_all (insert_all m ps) qs
  unfolding insert_all
  insert_all-append m [] qs = refl
  insert_all-append m ((k, v) ∷ ps) qs = insert_all-append (insert k v m) ps qs

  -- The value of the last pair with key `j`, or `found` if there is none.
  abbrev pub last_value : Bytes → Option V → Pairs V → Option V
  last_value j found [] = found
  last_value j found ((k, v) ∷ ps) = last_value j (if bytes_eq k j then some v else found) ps

  lookup-insert_all :
      (j : Bytes) (m ps : Pairs V) → lookup j (insert_all m ps) ≡ last_value j (lookup j m) ps
  unfolding insert_all
  lookup-insert_all j m [] = refl
  lookup-insert_all j m ((k, v) ∷ ps) =
      lookup-insert_all j (insert k v m) ps ∙ ap (λ o. last_value j o ps) (lookup-insert k j v m)

  -- The map made from pairs holds the last value of each key.
  pub lookup-from_pairs :
      (j : Bytes) (ps : Pairs V) → lookup j (from_pairs ps) ≡ last_value j none ps
  unfolding from_pairs lookup
  lookup-from_pairs j ps = lookup-insert_all j [] ps
