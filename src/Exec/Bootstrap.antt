-- ===== src/Exec/Bootstrap.antt =====
-- src/sandboxed_exec.rs: how the proxy-only supervisor is set up before the fork
-- (`proxy_only_policy`, `prepare_linux_proxy_bootstrap`, `create_proxy_supervisor_pair`, the thread
-- guard of `sandboxed_exec`), in a debug build, where the injected fault is read. Environment
-- variables, the kernel's Landlock ABI and the preparations of the nono crate are parameters.
pub mod Laws
mod Tests
use nono_py.Common.{
  ℕ, Bytes, codes, bytes_eq, is_empty, not, ltb, Bool, true, false, ◌&&◌, ◌||◌, List, Option, none,
  some, Result, ok, err, ◌>>=◌, if◌then◌else◌, is_some,
}
use nono_py.Exec.Request.{NetworkMode, proxy_only}

pub record ProxyOnlyPolicy : Type 0 where
  pub proxy_port : ℕ
  pub bind_ports : List ℕ

pub data ProxyHandoff : Type 0 where
  clone_files pidfd : ProxyHandoff

pub data CloneFilesTestFault : Type 0 where
  no_fault before_listener after_listener after_fd_report after_unshare after_detached :
      CloneFilesTestFault
  after_ack : CloneFilesTestFault

-- What `std::env::var` returns.
pub data EnvVar : Type 0 where
  present : Bytes → EnvVar
  not_present not_unicode : EnvVar

pub data BootstrapError : Type 0 where
  bad_handoff bad_fault : Bytes → BootstrapError
  handoff_not_utf8 fault_not_utf8 abi_failed prepare_failed pair_failed cloexec_failed :
      BootstrapError
  threads_unknown : BootstrapError
  too_many_threads : ℕ → BootstrapError

unfoldable pub proxy_only_policy : NetworkMode → Option ProxyOnlyPolicy
proxy_only_policy (proxy_only port bind_ports) =
    some (record { proxy_port = port; bind_ports = bind_ports })
proxy_only_policy _ = none

unfoldable pub read_handoff : EnvVar → Result BootstrapError ProxyHandoff
read_handoff (present value) =
    if bytes_eq value (codes "pidfd")
    then ok pidfd
    else if bytes_eq value (codes "clone_files")
    then ok clone_files
    else err (bad_handoff value)
read_handoff not_present = ok clone_files
read_handoff not_unicode = err handoff_not_utf8

unfoldable pub read_fault : EnvVar → Result BootstrapError CloneFilesTestFault
read_fault not_present = ok no_fault
read_fault (present value) =
    if bytes_eq value (codes "before_listener")
    then ok before_listener
    else if bytes_eq value (codes "after_listener")
    then ok after_listener
    else if bytes_eq value (codes "after_fd_report")
    then ok after_fd_report
    else if bytes_eq value (codes "after_unshare")
    then ok after_unshare
    else if bytes_eq value (codes "after_detached")
    then ok after_detached
    else if bytes_eq value (codes "after_ack")
    then ok after_ack
    else err (bad_fault value)
read_fault not_unicode = err fault_not_utf8

-- The fields of `ForkContext` that the preparation sets; a prepared filter is the flag it was
-- prepared with (bind ports to mediate), a prepared Landlock policy of the type `P`.
pub record Prepared {ℓ} (P : Type ℓ) : Type ℓ where
  pub proxy_handoff : ProxyHandoff
  pub prepared_landlock : Option P
  pub prepared_proxy_filter : Option Bool
  pub clone_files_test_fault : CloneFilesTestFault

pub record Host {ℓ} (P : Type ℓ) : Type ℓ where
  pub handoff_var : EnvVar
  pub fault_var : EnvVar
  pub detect_abi : Option Bool
  pub prepare_seccomp : Option P
  pub thread_count : Option ℕ
  pub socket_pair : Option Bool

abbrev pub or_error {ℓ} : {A : Type ℓ} → Option A → BootstrapError → Result BootstrapError A
or_error none e = err e
or_error (some a) e = ok a

abbrev pub is_pidfd : ProxyHandoff → Bool
is_pidfd pidfd = true
is_pidfd clone_files = false

module _ {ℓ} {P : Type ℓ} (h : Host P) where
  abbrev pub unprepared : ProxyHandoff → Prepared P
  unprepared handoff = record {
    proxy_handoff = handoff;
    prepared_landlock = none;
    prepared_proxy_filter = none;
    clone_files_test_fault = no_fault;
  }

  -- What follows the reading of the handoff, for a proxy-only policy.
  unfoldable pub prepare_for : ProxyHandoff → ProxyOnlyPolicy → Result BootstrapError (Prepared P)
  prepare_for handoff policy = do
    has_network ← or_error h.detect_abi abi_failed
    let prepare = do
      fault ← read_fault h.fault_var
      landlock ← or_error h.prepare_seccomp prepare_failed
      ok (record {
        proxy_handoff = handoff;
        prepared_landlock = some landlock;
        prepared_proxy_filter = some (not (is_empty policy.bind_ports));
        clone_files_test_fault = fault;
      })
    if has_network || is_pidfd handoff then ok (unprepared handoff) else prepare

  unfoldable pub prepare_linux_proxy_bootstrap : NetworkMode → Result BootstrapError (Prepared P)
  prepare_linux_proxy_bootstrap mode = do
    handoff ← read_handoff h.handoff_var
    elim (proxy_only_policy mode) [
      | none ↦ ok (unprepared handoff)
      | some policy ↦ prepare_for handoff policy
    ]

  -- The guard on the number of threads of the paths that call `fork`.
  unfoldable pub thread_guard : Prepared P → Result BootstrapError (Unit {0})
  thread_guard ctx = if is_some ctx.prepared_proxy_filter then ok tt else do
    thread_count ← or_error h.thread_count threads_unknown
    if ltb 32 thread_count then err (too_many_threads thread_count) else ok tt

  -- `true` if a pair is made; `socket_pair` is the outcome of the calls that make and protect it.
  unfoldable pub create_proxy_supervisor_pair :
      NetworkMode → Prepared P → Result BootstrapError Bool
  create_proxy_supervisor_pair mode ctx =
      if not (is_some (proxy_only_policy mode))
        || (not (is_some ctx.prepared_proxy_filter) && not (is_pidfd ctx.proxy_handoff))
      then ok false
      else do
        protected ← or_error h.socket_pair pair_failed
        if protected then ok true else err cloexec_failed
