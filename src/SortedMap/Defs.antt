-- ===== src/SortedMap/Defs.antt =====
-- The order of byte strings, and the map with its insertion.
use nono_py.Common.{
  compare, Ordering, Bytes, bytes_eq, List, [], ◌∷◌, Option, none, some, ◌≡◌, if◌then◌else◌,
}

-- `Ord for [u8]`: lexicographic, a prefix before its extensions.
unfoldable pub cmp_bytes : Bytes → Bytes → Ordering
cmp_bytes [] [] = Ordering.eq
cmp_bytes [] (y ∷ ys) = Ordering.lt
cmp_bytes (x ∷ xs) [] = Ordering.gt
cmp_bytes (x ∷ xs) (y ∷ ys) = elim (compare x y) [
  | Ordering.lt ↦ Ordering.lt
  | Ordering.eq ↦ cmp_bytes xs ys
  | Ordering.gt ↦ Ordering.gt
]

abbrev pub LtB : Bytes → Bytes → Type 0
LtB a b = cmp_bytes a b ≡ Ordering.lt

abbrev pub Pairs {ℓ} : Type ℓ → Type ℓ
Pairs V = List (Bytes × V)

module _ {ℓ} {V : Type ℓ} where
  -- `BTreeMap::insert`: an equal key keeps its place and takes the new value.
  unfoldable pub insert : Bytes → V → Pairs V → Pairs V
  insert k v [] = (k, v) ∷ []
  insert k v ((j, w) ∷ m) = elim (cmp_bytes k j) [
    | Ordering.lt ↦ (k, v) ∷ (j, w) ∷ m
    | Ordering.eq ↦ (j, v) ∷ m
    | Ordering.gt ↦ (j, w) ∷ insert k v m
  ]

  unfoldable pub lookup : Bytes → Pairs V → Option V
  lookup k [] = none
  lookup k ((j, v) ∷ m) = if bytes_eq j k then some v else lookup k m

  -- Insertion of pairs one after the other.
  unfoldable pub insert_all : Pairs V → Pairs V → Pairs V
  insert_all m [] = m
  insert_all m ((k, v) ∷ ps) = insert_all (insert k v m) ps

  unfoldable pub from_pairs : Pairs V → Pairs V
  unfolding insert_all
  from_pairs ps = insert_all [] ps

  -- Every key comes before all the later ones.
  abbrev pub Above : Bytes → Pairs V → Type 0
  Above k [] = Unit
  Above k ((j, v) ∷ m) = LtB k j × Above k m

  abbrev pub IsSorted : Pairs V → Type 0
  IsSorted [] = Unit
  IsSorted ((k, v) ∷ m) = Above k m × IsSorted m
