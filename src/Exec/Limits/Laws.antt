-- ===== src/Exec/Limits/Laws.antt =====
-- The two implementations agree, and leave exactly the limits asked for.
use nono_py.Common.{
  ℕ, Option, none, some, Result, ok, err, >>=-eq-ok, ◌≡◌, ◌≢◌, refl, arith, Option-cases, inl, inr,
  ◌⊎◌, ◌∙◌, ap,
}
use nono_py.Exec.Limits.{
  Resource, cpu, fsize, nproc, nofile, LimitRequest, LimitError, limit_failed, clamp_rlim,
  set_rlimit, set_limit, apply_resource_limits, raw_set_rlimit, apply_resource_limits_raw,
}

abbrev pub succeeded {ℓ} : {A : Type ℓ} → Result LimitError A → Option A
succeeded (ok a) = some a
succeeded (err e) = none

abbrev pub requested : LimitRequest → Resource → Option ℕ
requested q cpu = q.max_cpu_seconds
requested q fsize = q.max_file_size_bytes
requested q nproc = q.max_processes
requested q nofile = q.max_open_files

abbrev pub value_or : Option ℕ → ℕ → ℕ
value_or none d = d
value_or (some v) d = v

module _ {ℓ} {L : Type ℓ} (set : Resource → ℕ → L → Option L) where
  set_limit-cases :
      (r : Resource) (v : Option ℕ) (l : L)
      → ((set_limit set r v l ≡ err (limit_failed r)) × (raw_set_rlimit set r v l ≡ none))
        ⊎ ((l' : L) × (set_limit set r v l ≡ ok l') × (raw_set_rlimit set r v l ≡ some l'))
  unfolding set_limit raw_set_rlimit set_rlimit
  set_limit-cases r none l = inr (l, refl, refl)
  set_limit-cases r (some v) l = elim (Option-cases (set r (clamp_rlim v) l)) [
    | inl e ↦ inl (rw (set_rlimit, e) refl, e)
    | inr (l', e) ↦ inr (l', rw (set_rlimit, e) refl, e)
  ]

  -- The clone path's limits are the fork path's: the same calls in the same order, and a failure of
  -- one exactly where the other fails.
  pub apply_resource_limits_raw_lem :
      (ctx : LimitRequest) (l : L)
      → apply_resource_limits_raw set ctx l ≡ succeeded (apply_resource_limits set ctx l)
  unfolding apply_resource_limits apply_resource_limits_raw
  apply_resource_limits_raw_lem ctx l = elim (set_limit-cases cpu ctx.max_cpu_seconds l) [
    | inl (a, b) ↦ rw (a, b) refl
    | inr (l1, a, b) ↦
        rw (a, b)
          (elim (set_limit-cases fsize ctx.max_file_size_bytes l1) [
            | inl (c, d) ↦ rw (c, d) refl
            | inr (l2, c, d) ↦
                rw (c, d)
                  (elim (set_limit-cases nproc ctx.max_processes l2) [
                    | inl (e, f) ↦ rw (e, f) refl
                    | inr (l3, e, f) ↦
                        rw (e, f)
                          (elim (set_limit-cases nofile ctx.max_open_files l3) [
                            | inl (g, h) ↦ rw (g, h) refl
                            | inr (l4, g, h) ↦ rw (g, h) refl
                          ])
                  ])
          ])
  ]

  -- What a call that succeeds does to the limits in force.
  pub record SetsOne (get : Resource → L → ℕ) : Type ℓ where
    pub sets : (r : Resource) (v : ℕ) (l l' : L) → set r v l ≡ some l' → get r l' ≡ v
    pub keeps :
        (r s : Resource) (v : ℕ) (l l' : L) → set r v l ≡ some l' → s ≢ r → get s l' ≡ get s l

  module _ (get : Resource → L → ℕ) (k : SetsOne get) where
    set_limit_lem :
        (r : Resource) (v : Option ℕ) (l l' : L)
        → set_limit set r v l ≡ ok l'
        → (get r l' ≡ value_or v (get r l)) × ((s : Resource) → s ≢ r → get s l' ≡ get s l)
    unfolding set_limit set_rlimit clamp_rlim
    set_limit_lem r none l l' h = (cc, λ s n. cc)
    set_limit_lem r (some v) l l' h = elim (Option-cases (set r v l)) [
      | inl e ↦ absurd (ground arith)
      | inr (l1, e) ↦
          let same : l1 ≡ l' = ground arith in
          (rw (← same) (k.sets r v l l1 e), λ s n. rw (← same) (k.keeps r s v l l1 e n))
    ]

    -- If they all succeed, every limit asked for is in force and every other is as it was.
    apply_resource_limits-sets :
        (ctx : LimitRequest) (l l' : L)
        → apply_resource_limits set ctx l ≡ ok l'
        → (r : Resource) → get r l' ≡ value_or (requested ctx r) (get r l)
    unfolding apply_resource_limits
    apply_resource_limits-sets ctx l l' h =
        let (l1, e1, h1) = >>=-eq-ok (set_limit set cpu ctx.max_cpu_seconds l) _ h in
        let (l2, e2, h2) = >>=-eq-ok (set_limit set fsize ctx.max_file_size_bytes l1) _ h1 in
        let (l3, e3, h3) = >>=-eq-ok (set_limit set nproc ctx.max_processes l2) _ h2 in
        let (a1, k1) = set_limit_lem cpu ctx.max_cpu_seconds l l1 e1 in
        let (a2, k2) = set_limit_lem fsize ctx.max_file_size_bytes l1 l2 e2 in
        let (a3, k3) = set_limit_lem nproc ctx.max_processes l2 l3 e3 in
        let (a4, k4) = set_limit_lem nofile ctx.max_open_files l3 l' h3 in
        elim [
          | cpu ↦ k4 cpu (cc) ∙ k3 cpu (cc) ∙ k2 cpu (cc) ∙ a1
          | fsize ↦
              k4 fsize (cc)
              ∙ k3 fsize (cc)
              ∙ a2
              ∙ ap (value_or ctx.max_file_size_bytes) (k1 fsize (cc))
          | nproc ↦
              k4 nproc (cc) ∙ a3 ∙ ap (value_or ctx.max_processes) (k2 nproc (cc) ∙ k1 nproc (cc))
          | nofile ↦
              a4
              ∙ ap (value_or ctx.max_open_files) (k3 nofile (cc) ∙ k2 nofile (cc) ∙ k1 nofile (cc))
        ]
