-- ===== src/Snapshots/Laws.antt =====
-- How a manager takes up the snapshots that are on disk.
use mathlib.Core.List.{append-nil, append_assoc}
use nono_py.Common.{
  ℕ, Bytes, List, [], ◌∷◌, ◌++◌, Option, none, some, Result, ok, err, Result-cases, ◌≡◌, refl, sym,
  subst, ap, ◌∙◌, ◌⊎◌, inl, inr, ◌≤◌, All, All-append, All-map, leb, leb→le, arith, Bool-cases,
  Option-cases,
}
use nono_py.Snapshots.{
  manifest_number, larger, with_number, max_number_of, entries, SnapshotApi, no_previous,
  SnapshotManager, load_latest, find_latest_manifest_on_disk, count_after, new, create_incremental,
}

-- The name is no snapshot's, or that of one with at most this number.
abbrev pub AtMost : ℕ → Bytes → Type 0
AtMost n name =
    (manifest_number name ≡ none) ⊎ ((k : ℕ) × (manifest_number name ≡ some k) × (k ≤ n))

-- A name has the number, and none has a greater one.
pub record IsGreatest (names : List Bytes) (n : ℕ) : Type 0 where
  pub before : List Bytes
  pub name : Bytes
  pub after : List Bytes
  pub stands : names ≡ before ++ name ∷ after
  pub numbered : manifest_number name ≡ some n
  pub greatest : All (AtMost n) names

abbrev pub NoNumber : Bytes → Type 0
NoNumber name = manifest_number name ≡ none

abbrev pub IsMax : List Bytes → Option ℕ → Type 0
IsMax names none = All NoNumber names
IsMax names (some n) = IsGreatest names n

AtMost-mono : (n k : ℕ) → n ≤ k → (name : Bytes) → AtMost n name → AtMost k name
AtMost-mono n k h name (inl e) = inl e
AtMost-mono n k h name (inr (j, e, l)) = inr (j, e, omega arith)

number_kept :
    (seen : List Bytes) (name : Bytes) (n : ℕ)
    → AtMost n name
    → IsGreatest seen n
    → IsGreatest (seen ++ name ∷ []) n
number_kept seen name n h s = record {
  before = s.before;
  name = s.name;
  after = s.after ++ name ∷ [];
  stands = ap (λ l. l ++ name ∷ []) s.stands ∙ append_assoc s.before (s.name ∷ s.after) (name ∷ []);
  numbered = s.numbered;
  greatest = All-append (AtMost n) seen (name ∷ []) s.greatest (h, tt);
}

number_new :
    (seen : List Bytes) (name : Bytes) (n : ℕ)
    → manifest_number name ≡ some n
    → All (AtMost n) seen
    → IsGreatest (seen ++ name ∷ []) n
number_new seen name n e h = record {
  before = seen;
  name = name;
  after = [];
  stands = refl;
  numbered = e;
  greatest = All-append (AtMost n) seen (name ∷ []) h (inr (n, e, omega arith), tt);
}

with_number-IsMax :
    (seen : List Bytes) (name : Bytes) (best : Option ℕ)
    → IsMax seen best
    → IsMax (seen ++ name ∷ []) (with_number (manifest_number name) best)
with_number-IsMax seen name best s = elim (Option-cases (manifest_number name)) [
  | inl e ↦
      subst (λ o. IsMax (seen ++ name ∷ []) (with_number o best)) (sym e) (unnumbered best s e)
  | inr (num, e) ↦
      subst (λ o. IsMax (seen ++ name ∷ []) (with_number o best)) (sym e) (numbered best num s e)
]
  where
    unnumbered :
        (best : Option ℕ)
        → IsMax seen best
        → manifest_number name ≡ none
        → IsMax (seen ++ name ∷ []) best
    unnumbered none s e = All-append NoNumber seen (name ∷ []) s (e, tt)
    unnumbered (some n) s e = number_kept seen name n (inl e) s

    numbered :
        (best : Option ℕ) (num : ℕ)
        → IsMax seen best
        → manifest_number name ≡ some num
        → IsMax (seen ++ name ∷ []) (some (larger num best))
    numbered none num s e = number_new seen name num e (All-map (λ x h. inl h) seen s)
    numbered (some m) num s e = elim (Bool-cases (leb num m)) [
      | inl h ↦ rw h (number_kept seen name m (inr (num, e, leb→le num m h)) s)
      | inr h ↦
          let above : m ≤ num = ground arith in
          rw h (number_new seen name num e (All-map (AtMost-mono m num above) seen s.greatest))
    ]

max_number_of-IsMax :
    (seen : List Bytes) (best : Option ℕ) (names : List Bytes)
    → IsMax seen best
    → IsMax (seen ++ names) (max_number_of best names)
unfolding max_number_of
max_number_of-IsMax seen best [] s = subst (λ l. IsMax l best) (sym (append-nil seen)) s
max_number_of-IsMax seen best (name ∷ names) s =
    subst (λ l. IsMax l (max_number_of (with_number (manifest_number name) best) names))
      (append_assoc seen (name ∷ []) names)
      (max_number_of-IsMax (seen ++ name ∷ []) (with_number (manifest_number name) best) names
        (with_number-IsMax seen name best s))

module _ (api : SnapshotApi) where
  open api use {Snapshots, Manifest, Change, Failure}

  -- No name is a snapshot's, and there is nothing to go on from.
  pub record IsFirst (names : List Bytes) (mgr : SnapshotManager api) : Type 0 where
    pub none_numbered : All NoNumber names
    pub refuses : create_incremental api mgr ≡ (err no_previous, mgr)

  -- The next snapshot is the difference to that with the greatest number.
  pub record IsResumed (names : List Bytes) (inner : Snapshots) (mgr : SnapshotManager api)
      : Type 0 where
    pub n : ℕ
    pub manifest : Manifest
    pub greatest : IsGreatest names n
    pub loaded : api.load_manifest n inner ≡ ok manifest
    pub continues : (create_incremental api mgr).1.inner ≡ (api.create_incremental manifest inner).1

  abbrev pub manager : Snapshots → Option Manifest → SnapshotManager api
  manager inner latest = record {
    inner = inner;
    latest_manifest = latest;
    resumed_count = count_after api latest;
  }

  manager-IsFirst :
      (names : List Bytes) (inner : Snapshots)
      → All NoNumber names
      → IsFirst names (manager inner none)
  unfolding create_incremental
  manager-IsFirst names inner s = record { none_numbered = s; refuses = refl }

  incremental_inner :
      (inner : Snapshots) (m : Manifest)
      → (create_incremental api (manager inner (some m))).1.inner
        ≡ (api.create_incremental m inner).1
  unfolding create_incremental
  incremental_inner inner m = elim (Result-cases (api.create_incremental m inner).0) [
    | inl (_, e) ↦ rw e refl
    | inr (_, e) ↦ rw e refl
  ]

  manager-IsResumed :
      (names : List Bytes) (inner : Snapshots) (n : ℕ) (m : Manifest)
      → IsGreatest names n
      → api.load_manifest n inner ≡ ok m
      → IsResumed names inner (manager inner (some m))
  manager-IsResumed names inner n m s e = record {
    n = n;
    manifest = m;
    greatest = s;
    loaded = e;
    continues = incremental_inner inner m;
  }

  latest_at :
      (names : List Bytes) (inner : Snapshots) (best : Option ℕ) (latest : Option Manifest)
      → IsMax names best
      → load_latest api best inner ≡ ok latest
      → IsFirst names (manager inner latest) ⊎ IsResumed names inner (manager inner latest)
  latest_at names inner none latest s h =
      let same : none ≡ latest = cc in
      subst (λ l. IsFirst names (manager inner l) ⊎ IsResumed names inner (manager inner l)) same
        (inl (manager-IsFirst names inner s))
  latest_at names inner (some n) latest s h = elim (Result-cases (api.load_manifest n inner)) [
    | inr (_, e) ↦
        let h' : ◌≡◌ {A = Result Failure (Option Manifest)} (err _) (ok latest) =
          rw (load_latest, e) at h in
        absurd (cc h')
    | inl (m, e) ↦
        let h' : ◌≡◌ {A = Result Failure (Option Manifest)} (ok (some m)) (ok latest) =
          rw (load_latest, e) at h in
        let same : some m ≡ latest = cc in
        subst (λ l. IsFirst names (manager inner l) ⊎ IsResumed names inner (manager inner l)) same
          (inr (manager-IsResumed names inner n m s e))
  ]

  -- A manager made on a directory of snapshots takes up the one with the greatest number among the
  -- names, from which the next incremental snapshot is then made; if no name has a number, an
  -- incremental snapshot is refused and nothing changes.
  pub new-resumes :
      (names : List Bytes) (inner : Snapshots) (mgr : SnapshotManager api)
      → new api (entries names) inner ≡ ok mgr
      → IsFirst names mgr ⊎ IsResumed names inner mgr
  unfolding new find_latest_manifest_on_disk
  new-resumes names inner mgr h =
      elim (Result-cases (load_latest api (max_number_of none names) inner)) [
        | inr (_, e) ↦
            let h' : ◌≡◌ {A = Result Failure (SnapshotManager api)} (err _) (ok mgr) =
              rw (new, find_latest_manifest_on_disk, e) at h in
            absurd (cc h')
        | inl (latest, e) ↦
            let h' : ◌≡◌ {A = Result Failure (SnapshotManager api)} (ok (manager inner latest))
                (ok mgr) =
              rw (new, find_latest_manifest_on_disk, e) at h in
            let same : manager inner latest ≡ mgr = cc in
            subst (λ m. IsFirst names m ⊎ IsResumed names inner m) same
              (latest_at names inner (max_number_of none names) latest
                (max_number_of-IsMax [] none names tt) e)
      ]
