-- ===== src/Policy/Resolution/Keeps.antt =====
-- Relations between the state before and after a resolution's actions.
use nono_py.Common.{
  Bool, true, false, List, [], ◌∷◌, Option, none, some, Result, ok, err, ◌≡◌, refl, ap, subst,
}
use nono_py.Policy.Files.{GroupError}
use nono_py.Policy.Resolution.{Resolution, M, onward, ◌>>=◌, lift, when_some, when, each}

-- The two parts of a sequence that succeeded.
pub >>=-eq-ok :
    {Caps A B : Type 0} (m : M Caps A) (f : A → M Caps B) (s : Resolution Caps) {b : B}
    {t : Resolution Caps}
    → (m >>= f) s ≡ (ok b, t)
    → (a : A) × (u : Resolution Caps) × (m s ≡ (ok a, u)) × (f a u ≡ (ok b, t))
>>=-eq-ok {Caps} {A} {B} m f s {b} {t} h = go (m s) refl h
  where
    go :
        (r : Result GroupError A × Resolution Caps)
        → m s ≡ r
        → onward f r ≡ (ok b, t)
        → (a : A) × (u : Resolution Caps) × (m s ≡ (ok a, u)) × (f a u ≡ (ok b, t))
    go (ok a, u) e k = (a, u, e, k)
    go (err x, u) e k = absurd (cc k)

module _ {Caps : Type 0} (R : Resolution Caps → Resolution Caps → Type 0)
    (R-refl : (s : Resolution Caps) → R s s)
    (R-trans : (s t u : Resolution Caps) → R s t → R t u → R s u) where
  -- Whenever the action succeeds, the states are related.
  abbrev pub Keeps : {A : Type 0} → M Caps A → Type 0
  Keeps {A} m = (s t : Resolution Caps) (a : A) → m s ≡ (ok a, t) → R s t

  pub >>=-Keeps :
      {A B : Type 0} (m : M Caps A) (f : A → M Caps B)
      → Keeps m
      → ((a : A) → Keeps (f a))
      → Keeps (m >>= f)
  >>=-Keeps m f first next s t b h =
      let (a, u, e, k) = >>=-eq-ok m f s h in R-trans s u t (first s u a e) (next a u t b k)

  pub lift-Keeps : {A : Type 0} (r : Result GroupError A) → Keeps (lift r)
  lift-Keeps r s t a h = let q : s ≡ t = ap (λ x. x.1) h in subst (λ x. R s x) q (R-refl s)

  pub when_some-Keeps :
      {A : Type 0} (o : Option A) (f : A → M Caps (Unit {0}))
      → ((a : A) → Keeps (f a))
      → Keeps (when_some o f)
  when_some-Keeps none f k = lift-Keeps (ok tt)
  when_some-Keeps (some a) f k = k a

  pub when-Keeps : (b : Bool) (m : M Caps (Unit {0})) → Keeps m → Keeps (when b m)
  when-Keeps true m k = k
  when-Keeps false m k = lift-Keeps (ok tt)

  pub each-Keeps :
      {A : Type 0} (f : A → M Caps (Unit {0})) (xs : List A)
      → ((a : A) → Keeps (f a))
      → Keeps (each f xs)
  unfolding each
  each-Keeps f [] k = lift-Keeps (ok tt)
  each-Keeps f (x ∷ xs) k = >>=-Keeps (f x) (λ _. each f xs) (k x) (λ _. each-Keeps f xs k)
