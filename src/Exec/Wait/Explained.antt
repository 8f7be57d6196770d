-- ===== src/Exec/Wait/Explained.antt =====
-- What explains the exit code that the waiting loop gives.
use nono_py.Common.{
  ℕ, Bool, true, false, ◌&&◌, not, List, [], ◌∷◌, some, ok, ◌≡◌, refl, ◌⊎◌, inl, inr, arith,
  Bool-cases,
}
use nono_py.Exec.Wait.{
  ℤ, pos, neg, Status, exited, signaled, other, WaitReply, interrupted, failed, running, reaped,
  Round, Handling, kill_process_group_or_child, exit_code, at_deadline, wait_for_child, untouched,
}

-- The rounds up to the one that ends the loop: supervisor served, and the child still running.
abbrev pub Waits : Bool → Round → Type 0
Waits has_deadline r =
    (r.serviced ≡ true)
    × ((r.reply ≡ interrupted)
        ⊎ ((r.reply ≡ running) × ((has_deadline ≡ false) ⊎ (r.expired ≡ false))))

-- The child is reaped, and the parent has killed nothing.
pub record IsUnharmed (s : Handling) : Type 0 where
  pub group_alive : s.group_killed ≡ false
  pub child_alive : s.child_killed ≡ false
  pub is_reaped : s.reaped ≡ true

-- The group is killed, and the child by itself exactly if that failed; then the parent has waited for
-- the child, which is reaped if this wait reaped it.
pub record IsKilled (group_ok : Bool) (r : Round) (s : Handling) : Type 0 where
  pub group_killed : s.group_killed ≡ true
  pub child_killed : s.child_killed ≡ not group_ok
  pub waited : s.waited_for ≡ true
  pub reaping : s.reaped ≡ r.last_wait

-- What an exit code means, and what was done about the child.
pub data Explains (has_deadline group_ok : Bool) : ℤ → Handling → List Round → Type 0 where
  exits :
      {s : Handling} {rounds : List Round} {c : ℤ} (r : Round) (n : ℕ)
      → r.reply ≡ reaped (exited n)
      → c ≡ pos n
      → IsUnharmed s
      → Explains has_deadline group_ok c s (r ∷ rounds)
  dies :
      {s : Handling} {rounds : List Round} {c : ℤ} (r : Round) (n : ℕ)
      → r.reply ≡ reaped (signaled n)
      → c ≡ neg n
      → IsUnharmed s
      → Explains has_deadline group_ok c s (r ∷ rounds)
  times_out :
      {s : Handling} {rounds : List Round} {c : ℤ} (r : Round)
      → has_deadline ≡ true
      → r.expired ≡ true
      → r.reply ≡ running
      → c ≡ pos 124
      → IsKilled group_ok r s
      → Explains has_deadline group_ok c s (r ∷ rounds)
  waits :
      {s : Handling} {rounds : List Round} {c : ℤ} (r : Round)
      → Waits has_deadline r
      → Explains has_deadline group_ok c s rounds
      → Explains has_deadline group_ok c s (r ∷ rounds)

abbrev pub is_reaped : WaitReply → Bool
is_reaped (reaped status) = true
is_reaped _ = false

pub reply-cases :
    (w : WaitReply)
    → (w ≡ interrupted) ⊎ ((w ≡ failed) ⊎ ((w ≡ running) ⊎ ((t : Status) × (w ≡ reaped t))))
reply-cases interrupted = inl refl
reply-cases failed = inr (inl refl)
reply-cases running = inr (inr (inl refl))
reply-cases (reaped t) = inr (inr (inr (t, refl)))

module _ (has_deadline group_ok : Bool) where
  status-Explains :
      (r : Round) (rounds : List Round) (s : Handling) (t : Status) (c : ℤ)
      → r.reply ≡ reaped t
      → exit_code t ≡ ok c
      → s ≡ record untouched { reaped = true }
      → Explains has_deadline group_ok c s (r ∷ rounds)
  status-Explains r rounds s (exited n) c e h k =
      exits r n e (ground arith)
        (rw k record { group_alive = refl; child_alive = refl; is_reaped = refl })
  status-Explains r rounds s (signaled n) c e h k =
      dies r n e (ground arith)
        (rw k record { group_alive = refl; child_alive = refl; is_reaped = refl })
  status-Explains r rounds s other c e h k = absurd (cc)

  deadline-IsKilled :
      (r : Round) (s : Handling) (c : ℤ)
      → at_deadline group_ok r untouched ≡ (ok c, s)
      → (c ≡ pos 124) × IsKilled group_ok r s
  unfolding at_deadline kill_process_group_or_child
  deadline-IsKilled r s c h = elim (Bool-cases r.last_service) [
    | inr l ↦ absurd (ground arith)
    | inl l ↦ (
      ground arith,
      record {
        group_killed = ground arith;
        child_killed = ground arith;
        waited = ground arith;
        reaping = ground arith;
      },
    )
  ]

  pub wait-Explains :
      (rounds : List Round) (s : Handling) (c : ℤ)
      → wait_for_child has_deadline group_ok rounds untouched ≡ some (ok c, s)
      → Explains has_deadline group_ok c s rounds
  unfolding wait_for_child
  wait-Explains [] s c h = absurd (cc)
  wait-Explains (r ∷ rounds) s c h = elim (Bool-cases r.serviced) [
    | inr z ↦ absurd (ground arith)
    | inl z ↦ elim (reply-cases r.reply) [
      | inl e ↦ waits r (z, inl e) (wait-Explains rounds s c (ground arith))
      | inr (inl e) ↦ absurd (ground arith)
      | inr (inr (inl e)) ↦ elim (Bool-cases (has_deadline && r.expired)) [
        | inl t ↦
            let (code, killed) = deadline-IsKilled r s c (ground arith) in
            times_out r (ground arith) (ground arith) e code killed
        | inr f ↦ waits r (z, inr (e, ground arith)) (wait-Explains rounds s c (ground arith))
      ]
      | inr (inr (inr (t, e))) ↦ status-Explains r rounds s t c e (ground arith) (ground arith)
    ]
  ]

  -- What the readers do is not what an exit code explains.
  pub Explains-joined :
      {rounds : List Round} {c : ℤ} (s : Handling)
      → Explains has_deadline group_ok c s rounds
      → Explains has_deadline group_ok c (record s { readers_joined = true }) rounds
  Explains-joined s (exits r n a b u) =
      exits r n a b
        record { group_alive = u.group_alive; child_alive = u.child_alive; is_reaped = u.is_reaped }
  Explains-joined s (dies r n a b u) =
      dies r n a b
        record { group_alive = u.group_alive; child_alive = u.child_alive; is_reaped = u.is_reaped }
  Explains-joined s (times_out r d x w c k) = times_out r d x w c record {
    group_killed = k.group_killed;
    child_killed = k.child_killed;
    waited = k.waited;
    reaping = k.reaping;
  }
  Explains-joined s (waits r w rest) = waits r w (Explains-joined s rest)
