-- ===== src/Exec/Wait.antt =====
-- src/sandboxed_exec.rs: waiting for the child in the parent (`wait_for_child`,
-- `kill_process_group_or_child`, `parent_process`). The outside world is a list of rounds, one for
-- each turn of the loop: the outcome of serving the proxy supervisor, the answer of `waitpid`, and
-- whether the deadline has passed by then. The result of the blocking `waitpid` after a kill is not
-- looked at by the code; whether it reaped the child is a part of the world, too.
pub mod Explained
pub mod Laws
mod Tests
use nono_py.Common.{
  ℕ, zero, suc, Bool, true, false, ◌&&◌, ◌||◌, List, [], ◌∷◌, Option, none, some, Result, ok, err,
  ◌>>=◌, if◌then◌else◌,
}

-- `negsuc n` is -(n + 1).
pub data ℤ : Type 0 where
  pos : ℕ → ℤ
  negsuc : ℕ → ℤ

abbrev pub neg : ℕ → ℤ
neg zero = pos 0
neg (suc n) = negsuc n

-- What the status macros say of a child that was reaped.
pub data Status : Type 0 where
  exited signaled : ℕ → Status
  other : Status

pub data WaitReply : Type 0 where
  interrupted failed running : WaitReply
  reaped : Status → WaitReply

pub record Round : Type 0 where
  pub serviced : Bool
  pub reply : WaitReply
  pub expired : Bool
  -- the outcome of the last service, after a kill at the deadline
  pub last_service : Bool
  -- after such a kill, whether the blocking `waitpid` reaped the child
  pub last_wait : Bool

pub data WaitError : Type 0 where
  service_failed waitpid_failed unexpected_status nonblocking_failed : WaitError

-- What the parent has done about its child.
pub record Handling : Type 0 where
  pub readers_cancelled : Bool
  pub group_killed : Bool
  pub child_killed : Bool
  -- a blocking `waitpid` was called after the kill
  pub waited_for : Bool
  pub reaped : Bool
  pub readers_joined : Bool

-- `group_ok`: `kill` of the process group succeeds.
unfoldable pub kill_process_group_or_child : Bool → Handling → Handling
kill_process_group_or_child group_ok s =
    if group_ok
    then record s { group_killed = true }
    else record s { group_killed = true; child_killed = true }

abbrev pub exit_code : Status → Result WaitError ℤ
exit_code (exited n) = ok (pos n)
exit_code (signaled n) = ok (neg n)
exit_code other = err unexpected_status

-- `waitpid` without `WNOHANG`, its result dropped
abbrev pub blocking_wait : Bool → Handling → Handling
blocking_wait reaps s = record s { waited_for = true; reaped = s.reaped || reaps }

unfoldable pub at_deadline : Bool → Round → Handling → Result WaitError ℤ × Handling
at_deadline group_ok r s =
    let killed = kill_process_group_or_child group_ok (record s { readers_cancelled = true }) in
    (if r.last_service then ok (pos 124) else err service_failed, blocking_wait r.last_wait killed)

abbrev pub untouched : Handling
untouched = record {
  readers_cancelled = false;
  group_killed = false;
  child_killed = false;
  waited_for = false;
  reaped = false;
  readers_joined = false;
}

module _ (has_deadline group_ok : Bool) where
  -- `none` is a loop that is still waiting when the rounds end.
  unfoldable pub wait_for_child : List Round → Handling → Option (Result WaitError ℤ × Handling)
  wait_for_child [] s = none
  wait_for_child (r ∷ rounds) s =
      let again = wait_for_child rounds s in
      if r.serviced
      then elim r.reply [
        | interrupted ↦ again
        | failed ↦ some (err waitpid_failed, s)
        | running ↦ if has_deadline && r.expired then some (at_deadline group_ok r s) else again
        | reaped status ↦ some (exit_code status, record s { reaped = true })
      ]
      else some (err service_failed, s)

  -- `final_wait`: whether the blocking `waitpid` here reaped the child
  unfoldable pub finish_parent :
      Bool → Result WaitError ℤ × Handling → Result WaitError ℤ × Handling
  finish_parent final_wait (ok code, s) = (ok code, record s { readers_joined = true })
  finish_parent final_wait (err e, s) =
      let killed = kill_process_group_or_child group_ok (record s { readers_cancelled = true }) in
      (err e, record (blocking_wait final_wait killed) { readers_joined = true })

  -- `nonblocking`: both read ends of the pipes could be made non-blocking.
  unfoldable pub parent_process : Bool → Bool → List Round → Option (Result WaitError ℤ × Handling)
  parent_process nonblocking final_wait rounds =
      if nonblocking
      then elim (wait_for_child rounds untouched) [
        | none ↦ none
        | some waited ↦ some (finish_parent final_wait waited)
      ]
      else some (err nonblocking_failed, untouched)
