-- ===== src/Common/Text.antt =====
-- Byte strings: Rust's `&[u8]`, `str` and `OsStr` as lists of bytes.
use Prim.Native.Nat.{ℕ}
use Prim.Native.Char.{code}
use Prim.Native.String.{String}
use mathlib.Core.Path.{◌≡◌, refl}
use mathlib.Core.Logic.{◌↔◌, ◌≢◌}
use mathlib.Core.Bool.{Bool, true, false, ◌&&◌, ◌||◌}
use mathlib.Core.Option.{Option, none, some}
use mathlib.Core.List.{List, [], ◌∷◌, ◌++◌}
use native.Mathlib.Omega.{arith}
use nono_py.Common.Tests.{◌==◌, if◌then◌else◌}

abbrev pub Bytes : Type 0
Bytes = List ℕ

-- The bytes of an ASCII literal.
abbrev pub codes : String → Bytes
codes String.[] = []
codes (String.◌∷◌ c s) = code c ∷ codes s

unfoldable pub bytes_eq : Bytes → Bytes → Bool
bytes_eq [] [] = true
bytes_eq (x ∷ xs) (y ∷ ys) = x == y && bytes_eq xs ys
bytes_eq _ _ = false

-- `slice::contains`
abbrev pub contains : ℕ → Bytes → Bool
contains b [] = false
contains b (x ∷ xs) = x == b || contains b xs

-- `starts_with` on bytes
unfoldable pub starts_with : Bytes → Bytes → Bool
starts_with s [] = true
starts_with [] (p ∷ ps) = false
starts_with (x ∷ s) (p ∷ ps) = x == p && starts_with s ps

-- `strip_prefix`
unfoldable pub strip_prefix : Bytes → Bytes → Option Bytes
strip_prefix s [] = some s
strip_prefix [] (p ∷ ps) = none
strip_prefix (x ∷ s) (p ∷ ps) = if x == p then strip_prefix s ps else none

pub bytes_eq_iff : (a b : Bytes) → (bytes_eq a b ≡ true) ↔ (a ≡ b)
unfolding bytes_eq
bytes_eq_iff [] [] = ground arith
bytes_eq_iff [] (y ∷ ys) = ground arith
bytes_eq_iff (x ∷ xs) [] = ground arith
bytes_eq_iff (x ∷ xs) (y ∷ ys) = ground (arith, bytes_eq_iff xs ys)

pub bytes_eq_self : (a : Bytes) → bytes_eq a a ≡ true
bytes_eq_self a = (bytes_eq_iff a a).1 refl

pub strip_prefix-append : (p r : Bytes) → strip_prefix (p ++ r) p ≡ some r
unfolding strip_prefix
strip_prefix-append [] r = refl
strip_prefix-append (p ∷ ps) r = let rest = strip_prefix-append ps r in ground arith

pub strip_prefix-eq-some : (s p : Bytes) {r : Bytes} → strip_prefix s p ≡ some r → s ≡ p ++ r
unfolding strip_prefix
strip_prefix-eq-some s [] h = ground arith
strip_prefix-eq-some [] (p ∷ ps) h = cc
strip_prefix-eq-some (x ∷ s) (p ∷ ps) {r} h = ground (arith, strip_prefix-eq-some s ps {r = r})

pub starts_with_iff : (s p : Bytes) → (starts_with s p ≡ true) ↔ ((r : Bytes) × (s ≡ p ++ r))
unfolding starts_with
starts_with_iff s [] = ((λ _. (s, refl)), (λ _. refl))
starts_with_iff [] (p ∷ ps) = ((λ h. cc), (λ h. absurd (cc (h.1))))
starts_with_iff (x ∷ s) (p ∷ ps) =
    let (to, from) = starts_with_iff s ps in
    (
      (λ h. let (r, e) = to (ground arith) in (r, ground arith)),
      (λ h. let t : starts_with s ps ≡ true = from (h.0, ground arith) in ground arith),
    )

-- No byte of the string is `b`.
abbrev pub Lacks : ℕ → Bytes → Type 0
Lacks b [] = Unit
Lacks b (x ∷ xs) = (x ≢ b) × Lacks b xs

pub contains_iff : (b : ℕ) (xs : Bytes) → (contains b xs ≡ false) ↔ Lacks b xs
contains_iff b [] = ((λ _. tt), (λ _. refl))
contains_iff b (x ∷ xs) = ground (arith, contains_iff b xs)

pub Lacks-append : (b : ℕ) (xs ys : Bytes) → Lacks b xs → Lacks b ys → Lacks b (xs ++ ys)
Lacks-append b [] ys hx hy = hy
Lacks-append b (x ∷ xs) ys (h, hx) hy = (h, Lacks-append b xs ys hx hy)
