-- ===== src/SortedMap/Order.antt =====
-- The order of byte strings is a strict total order.
use nono_py.Common.{Ordering, Bytes, [], ◌∷◌, ◌≡◌, refl, arith}
use nono_py.SortedMap.Defs.{cmp_bytes, LtB}

abbrev flip : Ordering → Ordering
flip Ordering.lt = Ordering.gt
flip Ordering.eq = Ordering.eq
flip Ordering.gt = Ordering.lt

pub cmp-eq : (a b : Bytes) → cmp_bytes a b ≡ Ordering.eq → a ≡ b
unfolding cmp_bytes
cmp-eq [] [] h = refl
cmp-eq [] (y ∷ ys) h = cc
cmp-eq (x ∷ xs) [] h = cc
cmp-eq (x ∷ xs) (y ∷ ys) h = ground (arith, cmp-eq xs ys)

pub cmp_self : (a : Bytes) → cmp_bytes a a ≡ Ordering.eq
unfolding cmp_bytes
cmp_self [] = refl
cmp_self (x ∷ xs) = ground (arith, cmp_self xs)

pub cmp-flip : (a b : Bytes) → cmp_bytes b a ≡ flip (cmp_bytes a b)
unfolding cmp_bytes
cmp-flip [] [] = refl
cmp-flip [] (y ∷ ys) = refl
cmp-flip (x ∷ xs) [] = refl
cmp-flip (x ∷ xs) (y ∷ ys) = ground (arith, cmp-flip xs ys)

pub LtB-trans : (a b c : Bytes) → LtB a b → LtB b c → LtB a c
unfolding cmp_bytes
LtB-trans [] [] c h k = cc
LtB-trans [] (y ∷ ys) [] h k = cc
LtB-trans [] (y ∷ ys) (z ∷ zs) h k = refl
LtB-trans (x ∷ xs) [] c h k = cc
LtB-trans (x ∷ xs) (y ∷ ys) [] h k = cc
LtB-trans (x ∷ xs) (y ∷ ys) (z ∷ zs) h k = ground (arith, LtB-trans xs ys zs)
