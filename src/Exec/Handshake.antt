-- ===== src/Exec/Handshake.antt =====
-- src/sandboxed_exec.rs: `read_bootstrap_exact`, by which the parent reads what the child of the clone
-- path sends before it lets go of the shared descriptors. The kernel's answers are a list, one entry
-- for each turn of the loop, and the loop has no result while it still waits at the end of the list.
pub mod Laws
mod Tests
use nono_py.Common.{
  ℕ, zero, suc, ◌-◌, Bytes, Bool, true, false, length, take, List, [], ◌∷◌, ◌++◌, Option, none,
  some, Result, ok, err, if◌then◌else◌,
}
use nono_py.Exec.Io.{ReadReply, got, read_interrupted, read_failed}

-- `poll`: whether there is input, and whether the socket hung up or failed; neither on a timeout.
pub data PollReply : Type 0 where
  poll_interrupted poll_failed : PollReply
  polled : (readable : Bool) (broken : Bool) → PollReply

-- `waitpid` without waiting.
pub data WaitReply : Type 0 where
  child_exited still_running wait_interrupted wait_failed : WaitReply

pub record Turn : Type 0 where
  pub poll : PollReply
  pub read : ReadReply
  pub wait : WaitReply

pub data HandshakeError : Type 0 where
  poll_error read_error exited_early wait_error socket_failed : HandshakeError

abbrev pub Outcome : Type 0
Outcome = Option (Result HandshakeError Bytes)

abbrev pub filled : Bytes → Outcome → Outcome
filled bytes none = none
filled bytes (some (err e)) = some (err e)
filled bytes (some (ok rest)) = some (ok (bytes ++ rest))

-- The end of a turn that read nothing.
abbrev pub check_child : WaitReply → Bool → Outcome → Outcome
check_child child_exited broken again = some (err exited_early)
check_child wait_failed broken again = some (err wait_error)
check_child still_running broken again = if broken then some (err socket_failed) else again
check_child wait_interrupted broken again = if broken then some (err socket_failed) else again

-- A turn: `again` is the rest of the loop, `more` the rest after these bytes.
abbrev pub turn_outcome : PollReply → ReadReply → WaitReply → Outcome → (Bytes → Outcome) → Outcome
turn_outcome poll_interrupted r w again more = again
turn_outcome poll_failed r w again more = some (err poll_error)
turn_outcome (polled false broken) r w again more = check_child w broken again
turn_outcome (polled true broken) read_interrupted w again more = again
turn_outcome (polled true broken) read_failed w again more = some (err read_error)
turn_outcome (polled true broken) (got []) w again more = check_child w broken again
turn_outcome (polled true broken) (got (b ∷ bytes)) w again more = more (b ∷ bytes)

-- The number is that of the bytes still to read.
unfoldable pub read_bootstrap_exact : List Turn → ℕ → Outcome
read_bootstrap_exact turns zero = some (ok [])
read_bootstrap_exact [] (suc n) = none
read_bootstrap_exact (t ∷ turns) (suc n) =
    turn_outcome t.poll t.read t.wait (read_bootstrap_exact turns (suc n))
      (λ bytes. filled (take (suc n) bytes) (read_bootstrap_exact turns (suc n - length bytes)))
