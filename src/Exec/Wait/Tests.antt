-- ===== src/Exec/Wait/Tests.antt =====
-- Runs of the waiting loop, and the instances of the theorems.
use nono_py.Common.{
  Bool, true, false, List, [], ◌∷◌, none, some, Result, ok, err, ◌≡◌, refl, ◌↔◌, is_some, All,
}
use nono_py.Exec.Wait.{
  ℤ, WaitError, pos, negsuc, signaled, WaitReply, interrupted, running, reaped, Round, Handling,
  nonblocking_failed, waitpid_failed, failed, kill_process_group_or_child, at_deadline,
  wait_for_child, untouched, finish_parent, parent_process,
}
use nono_py.Exec.Wait.Explained.{Explains}
use nono_py.Exec.Wait.Laws.{
  IsSettled, parent_process-Explains, parent_process-reaps_iff, wait_for_child-returns,
}

waiting : Unit {0}
unfolding parent_process finish_parent wait_for_child at_deadline kill_process_group_or_child
waiting = tt

abbrev turn : WaitReply → Bool → Round
turn w late = record {
  serviced = true;
  reply = w;
  expired = late;
  last_service = true;
  last_wait = true;
}

abbrev signal_rounds : List Round
signal_rounds = turn running false ∷ turn interrupted true ∷ turn (reaped (signaled 9)) true ∷ []

abbrev after_signal : Handling
after_signal = record untouched { reaped = true; readers_joined = true }

abbrev late_rounds : List Round
late_rounds = turn running false ∷ turn running true ∷ []

abbrev after_kill : Handling
after_kill = record untouched {
  readers_cancelled = true;
  group_killed = true;
  child_killed = true;
  waited_for = true;
  reaped = true;
  readers_joined = true;
}

by_signal : parent_process true true true true signal_rounds ≡ some (ok (negsuc 8), after_signal)
unfolding waiting
by_signal = refl

late : parent_process true false true true late_rounds ≡ some (ok (pos 124), after_kill)
unfolding waiting
late = refl

-- With no deadline the same rounds are waited through, and a failed `waitpid` is cleaned up after.
other_runs :
    (parent_process false false true true late_rounds ≡ none)
    × (parent_process true false true true (turn failed false ∷ [])
        ≡ some (err waitpid_failed, after_kill))
    × (parent_process true true false true late_rounds ≡ some (err nonblocking_failed, untouched))
unfolding waiting
other_runs = (refl, refl, refl)

parent_process-Explains_example :
    Explains true false (pos 124) after_kill late_rounds × (after_kill.readers_joined ≡ true)
parent_process-Explains_example =
    parent_process-Explains true false true true late_rounds (pos 124) after_kill late

parent_process-reaps_iff_example :
    ((true ≡ true) ↔ ((after_kill.readers_joined ≡ true) × IsSettled true false after_kill))
    × (true ≡ true
        → true ≡ true
        → All (λ r. r.last_wait ≡ true) late_rounds
        → after_kill.reaped ≡ true)
    × (true ≡ false
        → (◌≡◌ {A = Result WaitError ℤ} (ok (pos 124)) (err nonblocking_failed))
          × (after_kill ≡ untouched))
parent_process-reaps_iff_example =
    parent_process-reaps_iff true false true true late_rounds (ok (pos 124)) after_kill late

wait_for_child-returns_example : is_some (wait_for_child true true signal_rounds untouched) ≡ true
wait_for_child-returns_example = wait_for_child-returns true true signal_rounds untouched refl
