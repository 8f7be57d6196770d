-- ===== src/Exec/Wait/Laws.antt =====
-- What the parent returns, and what becomes of the child.
use nono_py.Common.{
  Bool, true, false, ◌||◌, ap, All, List, [], ◌∷◌, some, Result, ok, err, ◌≡◌, refl, ◌∙◌, ◌↔◌, ◌⊎◌,
  inl, inr, arith, Bool-cases, Option-cases, any, is_some,
}
use nono_py.Exec.Wait.{
  ℤ, Round, WaitError, Handling, nonblocking_failed, kill_process_group_or_child, wait_for_child,
  untouched, finish_parent, parent_process,
}
use nono_py.Exec.Wait.Explained.{
  Explains, exits, dies, times_out, waits, is_reaped, reply-cases, wait-Explains, Explains-joined,
}

module _ (has_deadline group_ok : Bool) where
  -- The code that the parent returns is explained by the rounds: it is the child's own exit code or
  -- minus the signal that ended it, and then the child is reaped and the parent has killed nothing; or
  -- it is 124 at the deadline, and then the parent has killed the child's group, the child by itself
  -- exactly if that failed, and has waited for the child, which is reaped if that wait reaped it.
  pub parent_process-Explains :
      (nonblocking final_wait : Bool) (rounds : List Round) (c : ℤ) (s : Handling)
      → parent_process has_deadline group_ok nonblocking final_wait rounds ≡ some (ok c, s)
      → Explains has_deadline group_ok c s rounds × (s.readers_joined ≡ true)
  unfolding parent_process
  parent_process-Explains nonblocking final_wait rounds c s h = elim (Bool-cases nonblocking) [
    | inr n ↦ absurd (ground arith)
    | inl n ↦ elim (Option-cases (wait_for_child has_deadline group_ok rounds untouched)) [
      | inl e ↦ absurd (ground arith)
      | inr ((ok d, s1), e) ↦
          let same_code : d ≡ c = unfold finish_parent in ground arith in
          let same : s ≡ record s1 { readers_joined = true } =
            unfold finish_parent in ground arith in
          let explained =
            Explains-joined has_deadline group_ok s1
              (wait-Explains has_deadline group_ok rounds s1 d e) in
          (rw same (rw same_code at explained), ground arith)
      | inr ((err x, s1), e) ↦ absurd (unfold finish_parent in ground arith)
    ]
  ]

  -- The child is reaped, and was not killed; or it was killed, and then waited for.
  abbrev pub IsSettled : Handling → Type 0
  IsSettled s =
      ((s.group_killed ≡ false) × (s.reaped ≡ true))
      ⊎ ((s.group_killed ≡ true) × (s.waited_for ≡ true))

  Explains-IsSettled :
      {rounds : List Round} {c : ℤ} (s : Handling)
      → Explains has_deadline group_ok c s rounds
      → IsSettled s
  Explains-IsSettled s (exits r n a b u) = inl (u.group_alive, u.is_reaped)
  Explains-IsSettled s (dies r n a b u) = inl (u.group_alive, u.is_reaped)
  Explains-IsSettled s (times_out r d x w c k) = inr (k.group_killed, k.waited)
  Explains-IsSettled s (waits r w rest) = Explains-IsSettled s rest

  Explains-reaped :
      {rounds : List Round} {c : ℤ} (s : Handling)
      → All (λ r. r.last_wait ≡ true) rounds
      → Explains has_deadline group_ok c s rounds
      → s.reaped ≡ true
  Explains-reaped s w (exits r n a b u) = u.is_reaped
  Explains-reaped s w (dies r n a b u) = u.is_reaped
  Explains-reaped s w (times_out r d x v c k) = k.reaping ∙ w.0
  Explains-reaped s w (waits r v rest) = Explains-reaped s w.1 rest

  or_true : (b : Bool) → (b || true) ≡ true
  or_true true = refl
  or_true false = refl

  error-parts :
      (final_wait : Bool) (x : WaitError) (s1 : Handling) (result : Result WaitError ℤ)
      (s : Handling)
      → finish_parent has_deadline group_ok final_wait (err x, s1) ≡ (result, s)
      → (s.readers_joined ≡ true)
        × (s.group_killed ≡ true)
        × (s.waited_for ≡ true)
        × (s.reaped ≡ (s1.reaped || final_wait))
  unfolding finish_parent kill_process_group_or_child
  error-parts final_wait x s1 result s h = elim (Bool-cases group_ok) [
    | inl g ↦ (ground arith, ground arith, ground arith, ground arith)
    | inr g ↦ (ground arith, ground arith, ground arith, ground arith)
  ]

  -- However the parent returns, it has joined its readers and settled the child, which is reaped
  -- without a kill, or was killed with its group and then waited for, and in any case is reaped if
  -- each wait after a kill reaps it; unless the pipes could not be made non-blocking: then the parent
  -- returns an error at once, and has neither killed the child nor waited for it.
  pub parent_process-reaps_iff :
      (nonblocking final_wait : Bool) (rounds : List Round) (result : Result WaitError ℤ)
      (s : Handling)
      → parent_process has_deadline group_ok nonblocking final_wait rounds ≡ some (result, s)
      → ((nonblocking ≡ true) ↔ ((s.readers_joined ≡ true) × IsSettled s))
        × (nonblocking ≡ true
            → final_wait ≡ true
            → All (λ r. r.last_wait ≡ true) rounds
            → s.reaped ≡ true)
        × (nonblocking ≡ false → (result ≡ err nonblocking_failed) × (s ≡ untouched))
  unfolding parent_process
  parent_process-reaps_iff nonblocking final_wait rounds result s h =
      elim (Bool-cases nonblocking) [
        | inr n ↦ ((ground arith, ground arith), ground arith, ground arith)
        | inl n ↦ elim (Option-cases (wait_for_child has_deadline group_ok rounds untouched)) [
          | inl e ↦ absurd (ground arith)
          | inr ((ok d, s1), e) ↦
              let same : s ≡ record s1 { readers_joined = true } =
                unfold finish_parent in ground arith in
              let explained = wait-Explains has_deadline group_ok rounds s1 d e in
              let joined : s.readers_joined ≡ true = ground arith in
              (
                (λ _. (joined, rw same (Explains-IsSettled s1 explained)), λ _. n),
                λ _ f w. rw same (Explains-reaped s1 w explained),
                λ f. absurd (cc (n, f)),
              )
          | inr ((err x, s1), e) ↦
              let same : finish_parent has_deadline group_ok final_wait (err x, s1) ≡ (result, s) =
                ground arith in
              let (joined, killed, waited, reaping) = error-parts final_wait x s1 result s same in
              (
                (λ _. (joined, inr (killed, waited)), λ _. n),
                λ _ f w. reaping ∙ ap (λ b. s1.reaped || b) f ∙ or_true s1.reaped,
                λ f. absurd (cc (n, f)),
              )
        ]
      ]

  -- A child that ends is noticed: once `waitpid` has said in some round that the child ended, the
  -- loop has returned, with a code or an error.
  pub wait_for_child-returns :
      (rounds : List Round) (s : Handling)
      → any (λ r. is_reaped r.reply) rounds ≡ true
      → is_some (wait_for_child has_deadline group_ok rounds s) ≡ true
  unfolding wait_for_child
  wait_for_child-returns [] s h = cc
  wait_for_child-returns (r ∷ rounds) s h = elim (reply-cases r.reply) [
    | inl e ↦ ground (arith, wait_for_child-returns rounds s)
    | inr (inl e) ↦ ground arith
    | inr (inr (inl e)) ↦ ground (arith, wait_for_child-returns rounds s)
    | inr (inr (inr (t, e))) ↦ ground arith
  ]
