-- ===== src/Exec/Handshake/Laws.antt =====
-- That the parent does not wait for a child that is gone, and that it reads no less than it asked for.
use nono_py.Common.{
  ℕ, zero, suc, ◌-◌, Bytes, Bool, true, false, length, take, List, [], ◌∷◌, ◌++◌, none, some, ok,
  err, is_some, ◌+◌, length-append, ◌≡◌, refl, arith,
}
use nono_py.Exec.Io.{ReadReply, got, read_interrupted, read_failed}
use nono_py.Exec.Handshake.{
  PollReply, poll_interrupted, poll_failed, polled, WaitReply, child_exited, still_running,
  wait_interrupted, wait_failed, Turn, Outcome, filled, check_child, turn_outcome,
  read_bootstrap_exact,
}

-- A turn that has no input and sees the child's exit.
abbrev pub IsOver : Turn → Type 0
IsOver t = (broken : Bool) × (t.poll ≡ polled false broken) × (t.wait ≡ child_exited)

filled-some : (bytes : Bytes) (o : Outcome) → is_some o ≡ true → is_some (filled bytes o) ≡ true
filled-some bytes none h = h
filled-some bytes (some (err e)) h = refl
filled-some bytes (some (ok rest)) h = refl

check_child-some :
    (w : WaitReply) (broken : Bool) (o : Outcome)
    → is_some o ≡ true
    → is_some (check_child w broken o) ≡ true
check_child-some child_exited broken o h = refl
check_child-some wait_failed broken o h = refl
check_child-some still_running true o h = refl
check_child-some still_running false o h = h
check_child-some wait_interrupted true o h = refl
check_child-some wait_interrupted false o h = h

turn_outcome-some :
    (p : PollReply) (r : ReadReply) (w : WaitReply) (again : Outcome) (more : Bytes → Outcome)
    → is_some again ≡ true
    → ((bytes : Bytes) → is_some (more bytes) ≡ true)
    → is_some (turn_outcome p r w again more) ≡ true
turn_outcome-some poll_interrupted r w again more h k = h
turn_outcome-some poll_failed r w again more h k = refl
turn_outcome-some (polled false broken) r w again more h k = check_child-some w broken again h
turn_outcome-some (polled true broken) read_interrupted w again more h k = h
turn_outcome-some (polled true broken) read_failed w again more h k = refl
turn_outcome-some (polled true broken) (got []) w again more h k = check_child-some w broken again h
turn_outcome-some (polled true broken) (got (b ∷ bytes)) w again more h k = k (b ∷ bytes)

over_ends :
    (t : Turn) (turns : List Turn) (n : ℕ)
    → IsOver t
    → is_some (read_bootstrap_exact (t ∷ turns) n) ≡ true
unfolding read_bootstrap_exact
over_ends t turns zero h = refl
over_ends t turns (suc n) (broken, e, w) = rw (e, w) refl

-- The parent's read ends, with the bytes or an error, at the latest in a turn that has no input and
-- finds that the child has exited, whatever the turns before it are.
pub read_bootstrap_exact-ends :
    (before : List Turn) (t : Turn) (turns : List Turn) (n : ℕ)
    → IsOver t
    → is_some (read_bootstrap_exact (before ++ t ∷ turns) n) ≡ true
unfolding read_bootstrap_exact
read_bootstrap_exact-ends [] t turns n h = over_ends t turns n h
read_bootstrap_exact-ends (s ∷ before) t turns zero h = refl
read_bootstrap_exact-ends (s ∷ before) t turns (suc n) h =
    let rest : List Turn = before ++ t ∷ turns in
    turn_outcome-some s.poll s.read s.wait (read_bootstrap_exact rest (suc n)) _
      (read_bootstrap_exact-ends before t turns (suc n) h)
      (λ bytes.
        filled-some (take (suc n) bytes) (read_bootstrap_exact rest (suc n - length bytes))
          (read_bootstrap_exact-ends before t turns (suc n - length bytes) h))

-- The bytes are as many as were asked for.
abbrev pub HasLength : ℕ → Outcome → Type 0
HasLength n none = Unit
HasLength n (some (err e)) = Unit
HasLength n (some (ok bytes)) = length bytes ≡ n

check_child-HasLength :
    (w : WaitReply) (broken : Bool) (n : ℕ) (o : Outcome)
    → HasLength n o
    → HasLength n (check_child w broken o)
check_child-HasLength child_exited broken n o h = tt
check_child-HasLength wait_failed broken n o h = tt
check_child-HasLength still_running true n o h = tt
check_child-HasLength still_running false n o h = h
check_child-HasLength wait_interrupted true n o h = tt
check_child-HasLength wait_interrupted false n o h = h

turn_outcome-HasLength :
    (p : PollReply) (r : ReadReply) (w : WaitReply) (n : ℕ) (again : Outcome)
    (more : Bytes → Outcome)
    → HasLength n again
    → ((bytes : Bytes) → HasLength n (more bytes))
    → HasLength n (turn_outcome p r w again more)
turn_outcome-HasLength poll_interrupted r w n again more h k = h
turn_outcome-HasLength poll_failed r w n again more h k = tt
turn_outcome-HasLength (polled false broken) r w n again more h k =
    check_child-HasLength w broken n again h
turn_outcome-HasLength (polled true broken) read_interrupted w n again more h k = h
turn_outcome-HasLength (polled true broken) read_failed w n again more h k = tt
turn_outcome-HasLength (polled true broken) (got []) w n again more h k =
    check_child-HasLength w broken n again h
turn_outcome-HasLength (polled true broken) (got (b ∷ bytes)) w n again more h k = k (b ∷ bytes)

length-take : (n : ℕ) (bytes : Bytes) → length (take n bytes) + (n - length bytes) ≡ n
length-take zero bytes = omega arith
length-take (suc n) [] = omega arith
length-take (suc n) (b ∷ bytes) = let rest = length-take n bytes in omega arith

filled-HasLength :
    (n : ℕ) (bytes : Bytes) (o : Outcome)
    → HasLength (n - length bytes) o
    → HasLength n (filled (take n bytes) o)
filled-HasLength n bytes none h = tt
filled-HasLength n bytes (some (err e)) h = tt
filled-HasLength n bytes (some (ok rest)) h =
    let whole = length-take n bytes in let parts = length-append (take n bytes) rest in omega arith

-- What the parent's read gives, if it gives bytes and no error, is as long as what was asked for.
read_bootstrap_exact-HasLength :
    (turns : List Turn) (n : ℕ) → HasLength n (read_bootstrap_exact turns n)
unfolding read_bootstrap_exact
read_bootstrap_exact-HasLength turns zero = refl
read_bootstrap_exact-HasLength [] (suc n) = tt
read_bootstrap_exact-HasLength (t ∷ turns) (suc n) =
    turn_outcome-HasLength t.poll t.read t.wait (suc n) (read_bootstrap_exact turns (suc n)) _
      (read_bootstrap_exact-HasLength turns (suc n))
      (λ bytes.
        filled-HasLength (suc n) bytes (read_bootstrap_exact turns (suc n - length bytes))
          (read_bootstrap_exact-HasLength turns (suc n - length bytes)))
