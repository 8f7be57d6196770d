-- ===== src/Exec/Request.antt =====
-- src/sandboxed_exec.rs: the checks that `sandboxed_exec` makes on its arguments, on Linux, before
-- anything is prepared, and `parse_enforcement_mode`. The error constructors stand for the messages,
-- all of them `ValueError`s. An `f64` is a type with the two tests that the code makes of it.
pub mod Laws
mod Tests
use nono_py.Common.{
  ℕ, Bytes, codes, bytes_eq, is_empty, Bool, true, false, ◌&&◌, ◌||◌, List, Option, none, some,
  Result, ok, err, ◌>>=◌, if◌then◌else◌,
}
use nono_py.Exec.Identity.{IdError, ResolvedIds, is_value, resolve_ids}
use nono_py.Exec.Limits.{LimitRequest}

pub data EnforcementMode : Type 0 where
  auto landlock seccomp : EnforcementMode

-- `nono::NetworkMode`, as far as the code looks at it: the port of the proxy and the bind ports.
pub data NetworkMode : Type 0 where
  blocked allow_all : NetworkMode
  proxy_only : (port : ℕ) (bind_ports : List ℕ) → NetworkMode

pub data RequestError : Type 0 where
  empty_command bad_timeout zero_max_processes zero_max_cpu_seconds : RequestError
  zero_max_open_files landlock_proxy_only : RequestError
  bad_id : IdError → RequestError
  bad_mode : Bytes → RequestError

unfoldable pub parse_enforcement_mode : Bytes → Result RequestError EnforcementMode
parse_enforcement_mode mode =
    if bytes_eq mode (codes "auto")
    then ok auto
    else if bytes_eq mode (codes "landlock")
    then ok landlock
    else if bytes_eq mode (codes "seccomp")
    then ok seccomp
    else err (bad_mode mode)

abbrev pub is_landlock : EnforcementMode → Bool
is_landlock landlock = true
is_landlock _ = false

abbrev pub is_proxy_only : NetworkMode → Bool
is_proxy_only (proxy_only port bind_ports) = true
is_proxy_only _ = false

pub record Float {ℓ} (F : Type ℓ) : Type ℓ where
  pub is_negative : F → Bool
  pub is_nan : F → Bool

pub record Request {ℓ} (F : Type ℓ) : Type ℓ where
  pub command : List Bytes
  pub timeout_secs : Option F
  pub limits : LimitRequest
  pub uid : Option ℕ
  pub gid : Option ℕ
  pub enforcement_mode : Bytes
  pub network_mode : NetworkMode

pub record Checked : Type 0 where
  pub ids : ResolvedIds
  pub mode : EnforcementMode

abbrev pub guard : Bool → RequestError → Result RequestError (Unit {0})
guard true e = err e
guard false e = ok tt

abbrev pub ids_checked : Result IdError ResolvedIds → Result RequestError ResolvedIds
ids_checked (ok r) = ok r
ids_checked (err e) = err (bad_id e)

module _ {ℓ} {F : Type ℓ} (f : Float F) where
  -- `t < 0.0 || t.is_nan()`
  abbrev pub is_bad_timeout : Option F → Bool
  is_bad_timeout none = false
  is_bad_timeout (some t) = f.is_negative t || f.is_nan t

  unfoldable pub check_request : Request F → Result RequestError Checked
  check_request q = do
    _ ← guard (is_empty q.command) empty_command
    _ ← guard (is_bad_timeout q.timeout_secs) bad_timeout
    _ ← guard (is_value q.limits.max_processes 0) zero_max_processes
    _ ← guard (is_value q.limits.max_cpu_seconds 0) zero_max_cpu_seconds
    _ ← guard (is_value q.limits.max_open_files 0) zero_max_open_files
    ids ← ids_checked (resolve_ids q.uid q.gid)
    mode ← parse_enforcement_mode q.enforcement_mode
    _ ← guard (is_landlock mode && is_proxy_only q.network_mode) landlock_proxy_only
    ok (record { ids = ids; mode = mode })
