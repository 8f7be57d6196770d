-- ===== src/Exec/Supervisor.antt =====
-- src/sandboxed_exec.rs: the supervisor's answer to a trapped network call
-- (`handle_proxy_notification`, `sockaddr_allowed`) and the loop of `service_proxy_supervisor`.
-- What the nono crate reads out of the child's memory, and its calls on the listener, are
-- parameters: `none` is an `Err`.
pub mod Destinations
pub mod Laws
pub mod Readable
pub mod Verdicts
mod Tests
use nono_py.Common.{
  ℕ, Bool, true, false, ◌&&◌, ◌||◌, List, [], ◌∷◌, Option, none, some, Result, ok, err, ◌>>=◌,
  if◌then◌else◌, ◌==◌, contains,
}
use nono_py.Exec.Bootstrap.{ProxyOnlyPolicy}

pub record SockAddr : Type 0 where
  pub port : ℕ
  pub is_loopback : Bool

-- A pointer to an address in the child, and its length.
abbrev pub Dest : Type 0
Dest = ℕ × ℕ

pub record ChildMemory : Type 0 where
  pub read_notif_sockaddr : ℕ → ℕ → ℕ → Option SockAddr
  pub read_msghdr_dest : ℕ → ℕ → Option (Option Dest)
  pub read_mmsghdr_dests : ℕ → ℕ → ℕ → Option (List (Option Dest))

-- The call numbers of the platform.
pub record Syscalls : Type 0 where
  pub sys_connect : ℕ
  pub sys_bind : ℕ
  pub sys_sendto : ℕ
  pub sys_sendmsg : ℕ
  pub sys_sendmmsg : ℕ

-- A notification; `args` is an array of six, of which these are read.
pub record Notif : Type 0 where
  pub id : ℕ
  pub pid : ℕ
  pub nr : ℕ
  pub arg1 : ℕ
  pub arg2 : ℕ
  pub arg4 : ℕ
  pub arg5 : ℕ

-- What is sent back: nothing for a call that is no longer waiting.
pub data Verdict : Type 0 where
  denied stale continued refused_eacces : Verdict

pub data SupervisorError : Type 0 where
  recv_failed valid_failed continue_failed respond_failed poll_failed : SupervisorError

-- The listener's calls: whether the id is still valid, and whether each reply is accepted.
pub record Listener : Type 0 where
  pub notif_id_valid : ℕ → Option Bool
  pub continue_notif : ℕ → Bool
  pub respond_errno : ℕ → Bool

abbrev pub reply : Listener → Notif → Bool → Result SupervisorError Verdict
reply l n true = if l.continue_notif n.id then ok continued else err continue_failed
reply l n false = if l.respond_errno n.id then ok refused_eacces else err respond_failed

unfoldable pub answer : Listener → Notif → Option Bool → Result SupervisorError Verdict
answer l n none = ok denied
answer l n (some a) = elim (l.notif_id_valid n.id) [
  | none ↦ err valid_failed
  | some valid ↦ if valid then reply l n a else ok stale
]

-- The answers of `poll` on the listener, with what is then received.
pub data Poll : Type 0 where
  interrupted failed not_ready : Poll
  ready : Option Notif → Poll

module _ (m : ChildMemory) (s : Syscalls) (policy : ProxyOnlyPolicy) where
  unfoldable pub sockaddr_allowed : ℕ → ℕ → ℕ → Bool → Option Bool
  sockaddr_allowed pid addr_ptr addrlen for_bind =
      elim (m.read_notif_sockaddr pid addr_ptr addrlen) [
        | none ↦ none
        | some sockaddr ↦ some (
            if for_bind
            then contains sockaddr.port policy.bind_ports
            else sockaddr.is_loopback && sockaddr.port == policy.proxy_port)
      ]

  -- The destination of one message; without one the peer was checked when it was connected to.
  unfoldable pub dest_allowed : ℕ → Option Dest → Option Bool
  dest_allowed pid none = some true
  dest_allowed pid (some (addr_ptr, addrlen)) = sockaddr_allowed pid addr_ptr addrlen false

  -- `try_fold(true, …)`: the fold stops at the first destination that cannot be read.
  unfoldable pub all_dests : ℕ → Bool → List (Option Dest) → Option Bool
  all_dests pid acc [] = some acc
  all_dests pid acc (dest ∷ dests) = elim (dest_allowed pid dest) [
    | none ↦ none
    | some a ↦ all_dests pid (acc && a) dests
  ]

  unfoldable pub allow : Notif → Option Bool
  allow n =
      if n.nr == s.sys_connect
      then sockaddr_allowed n.pid n.arg1 n.arg2 false
      else if n.nr == s.sys_bind
      then sockaddr_allowed n.pid n.arg1 n.arg2 true
      else if n.nr == s.sys_sendto
      then (if n.arg4 == 0 || n.arg5 == 0
          then some true
          else sockaddr_allowed n.pid n.arg4 n.arg5 false)
      else if n.nr == s.sys_sendmsg
      then elim (m.read_msghdr_dest n.pid n.arg1) [
        | none ↦ none
        | some dest ↦ dest_allowed n.pid dest
      ]
      else if n.nr == s.sys_sendmmsg
      then elim (m.read_mmsghdr_dests n.pid n.arg1 n.arg2) [
        | none ↦ none
        | some dests ↦ all_dests n.pid true dests
      ]
      else some false

  -- `recv_notif` is the argument.
  unfoldable pub handle_proxy_notification :
      Listener → Option Notif → Result SupervisorError Verdict
  handle_proxy_notification l none = err recv_failed
  handle_proxy_notification l (some n) = answer l n (allow n)

  -- The loop serves what is ready and stops when nothing is; `none` is a loop that still waits for
  -- an answer of `poll`.
  unfoldable pub service_notifications :
      Listener → List Poll → Option (Result SupervisorError (List Verdict))
  service_notifications l [] = none
  service_notifications l (interrupted ∷ polls) = service_notifications l polls
  service_notifications l (failed ∷ polls) = some (err poll_failed)
  service_notifications l (not_ready ∷ polls) = some (ok [])
  service_notifications l (ready notif ∷ polls) = elim (handle_proxy_notification l notif) [
    | err e ↦ some (err e)
    | ok v ↦ elim (service_notifications l polls) [
      | none ↦ none
      | some (err e) ↦ some (err e)
      | some (ok vs) ↦ some (ok (v ∷ vs))
    ]
  ]
