-- ===== src/Diagnostic/Closest.antt =====
-- Which capability `closest_covering_capability` gives.
use mathlib.Core.List.{append-nil, append_assoc}
use nono_py.Common.{
  ℕ, Bytes, Bool, true, false, ◌&&◌, List, [], ◌∷◌, ◌++◌, Option, none, some, ◌≡◌, refl, sym, subst,
  ap, ◌∙◌, ◌⊎◌, inl, inr, ◌≤◌, ◌<◌, All, All-append, All-map, leb, leb→le, arith, Bool-cases,
}
use nono_py.Nono.{AccessMode, Grant}
use nono_py.Diagnostic.{CapabilitySet, covers, score, closest_from, closest_covering_capability}

module _ (canonical : Bytes) where
  -- The capability does not cover the path, or is not longer, or is shorter.
  abbrev pub Misses : Grant → Type 0
  Misses cap = covers canonical cap ≡ false

  abbrev pub AtMost : ℕ → Grant → Type 0
  AtMost n cap = Misses cap ⊎ (score cap ≤ n)

  abbrev pub Below : ℕ → Grant → Type 0
  Below n cap = Misses cap ⊎ (score cap < n)

  -- A capability that covers the path, with the longest path of those that do, the last of them.
  pub record IsLast (caps : List Grant) (cap : Grant) : Type 0 where
    pub before : List Grant
    pub after : List Grant
    pub stands : caps ≡ before ++ cap ∷ after
    pub is_covering : covers canonical cap ≡ true
    pub longest : All (AtMost (score cap)) before
    pub last : All (Below (score cap)) after

  -- The last of the longest that cover the path, or that none does.
  abbrev pub IsClosest : List Grant → Option Grant → Type 0
  IsClosest caps none = All Misses caps
  IsClosest caps (some cap) = IsLast caps cap

  -- What the loop's score is for the capability it has.
  abbrev pub score_of : Option Grant → ℕ
  score_of none = 0
  score_of (some cap) = score cap

  AtMost-mono : (n k : ℕ) → n ≤ k → (cap : Grant) → AtMost n cap → AtMost k cap
  AtMost-mono n k h cap (inl m) = inl m
  AtMost-mono n k h cap (inr l) = inr (omega arith)

  Below-AtMost : (n k : ℕ) → n ≤ k → (cap : Grant) → Below n cap → AtMost k cap
  Below-AtMost n k h cap (inl m) = inl m
  Below-AtMost n k h cap (inr l) = inr (omega arith)

  -- No capability of the list is longer than the one to follow.
  none_longer :
      (caps : List Grant) (best : Option Grant) (n : ℕ)
      → score_of best ≤ n
      → IsClosest caps best
      → All (AtMost n) caps
  none_longer caps none n h s = All-map (λ c m. inl m) caps s
  none_longer caps (some cap) n h s = subst (All (AtMost n)) (sym s.stands) (
      All-append (AtMost n) s.before (cap ∷ s.after)
        (All-map (AtMost-mono (score cap) n h) s.before s.longest)
        (inr h, All-map (Below-AtMost (score cap) n h) s.after s.last))

  taken-IsClosest :
      (caps : List Grant) (best : Option Grant) (cap : Grant)
      → covers canonical cap ≡ true
      → score_of best ≤ score cap
      → IsClosest caps best
      → IsClosest (caps ++ cap ∷ []) (some cap)
  taken-IsClosest caps best cap c h s = record {
    before = caps;
    after = [];
    stands = refl;
    is_covering = c;
    longest = none_longer caps best (score cap) h s;
    last = tt;
  }

  shorter :
      (cap : Grant) (n : ℕ) → (covers canonical cap && leb n (score cap)) ≡ false → Below n cap
  shorter cap n h = elim (Bool-cases (covers canonical cap)) [
    | inr e ↦ inl e
    | inl e ↦ let h' : leb n (score cap) ≡ false = rw e at h in inr (ground arith)
  ]

  missed :
      (cap : Grant) (n : ℕ)
      → n ≤ 0
      → (covers canonical cap && leb n (score cap)) ≡ false
      → Misses cap
  missed cap n z h = elim (shorter cap n h) [ inl m ↦ m | inr l ↦ absurd (omega arith) ]

  passed-IsClosest :
      (caps : List Grant) (best : Option Grant) (cap : Grant)
      → (covers canonical cap && leb (score_of best) (score cap)) ≡ false
      → IsClosest caps best
      → IsClosest (caps ++ cap ∷ []) best
  passed-IsClosest caps none cap h s =
      All-append Misses caps (cap ∷ []) s (missed cap 0 (omega arith) h, tt)
  passed-IsClosest caps (some best) cap h s = record {
    before = s.before;
    after = s.after ++ cap ∷ [];
    stands = ap (λ l. l ++ cap ∷ []) s.stands ∙ append_assoc s.before (best ∷ s.after) (cap ∷ []);
    is_covering = s.is_covering;
    longest = s.longest;
    last =
        All-append (Below (score best)) s.after (cap ∷ []) s.last (shorter cap (score best) h, tt);
  }

  closest_from-IsClosest :
      (seen : List Grant) (best : Option Grant) (caps : List Grant)
      → IsClosest seen best
      → IsClosest (seen ++ caps) (closest_from canonical best (score_of best) caps)
  unfolding closest_from
  closest_from-IsClosest seen best [] s = subst (λ l. IsClosest l best) (sym (append-nil seen)) s
  closest_from-IsClosest seen best (cap ∷ caps) s =
      let regroup : (seen ++ cap ∷ []) ++ caps ≡ seen ++ cap ∷ caps =
        append_assoc seen (cap ∷ []) caps in
      elim (Bool-cases (covers canonical cap && leb (score_of best) (score cap))) [
        | inl e ↦
            let covered : covers canonical cap ≡ true = ground arith in
            let longer = leb→le (score_of best) (score cap) (ground arith) in
            rw e (
              subst (λ l. IsClosest l (closest_from canonical (some cap) (score cap) caps)) regroup
                (closest_from-IsClosest (seen ++ cap ∷ []) (some cap) caps
                  (taken-IsClosest seen best cap covered longer s)))
        | inr e ↦ rw e (
            subst (λ l. IsClosest l (closest_from canonical best (score_of best) caps)) regroup
              (closest_from-IsClosest (seen ++ cap ∷ []) best caps
                (passed-IsClosest seen best cap e s)))
      ]

pub closest_covering_capability-IsClosest :
    (contains : AccessMode → AccessMode → Bool) (try_canonicalize : Bytes → Bytes)
    (caps : CapabilitySet) (path : Bytes)
    → IsClosest
        (try_canonicalize path)
        caps.fs_capabilities
        (closest_covering_capability contains try_canonicalize caps path)
unfolding closest_covering_capability
closest_covering_capability-IsClosest contains try_canonicalize caps path =
    closest_from-IsClosest (try_canonicalize path) [] none caps.fs_capabilities tt
