-- ===== src/Exec/Fds.antt =====
-- src/sandboxed_exec.rs: the inherited descriptors that the child closes (`close_untrusted_fds`,
-- `close_fds_by_rlimit`, `open_fd_limit`). The open descriptors are the list of their numbers; the
-- kernel's answers are a parameter.
pub mod Laws
mod Tests
use nono_py.Common.{
  ℕ, zero, suc, ◌-◌, Bool, ◌&&◌, not, ltb, leb, ◌==◌, contains, is_empty, List, [], ◌∷◌, Option,
  none, some, if◌then◌else◌,
}

-- The soft limit of `getrlimit`.
pub data SoftLimit : Type 0 where
  unreadable infinite : SoftLimit
  limited : ℕ → SoftLimit

pub record FdHost : Type 0 where
  -- whether the `close_range` call succeeds
  pub close_range : Bool
  pub nofile : SoftLimit
  -- `sysconf`, `none` for -1
  pub open_max : Option ℕ

abbrev pub i32_max : ℕ
i32_max = 2147483647

abbrev pub min : ℕ → ℕ → ℕ
min a b = if leb a b then a else b

-- Descriptors for which the test holds.
unfoldable pub keep_if : (ℕ → Bool) → List ℕ → List ℕ
keep_if p [] = []
keep_if p (fd ∷ fds) = let rest = keep_if p fds in if p fd then fd ∷ rest else rest

-- The kernel's `close`; a descriptor that is not open stays so.
abbrev pub close : ℕ → List ℕ → List ℕ
close fd fds = keep_if (λ x. not (x == fd)) fds

-- The kernel's `close_range` up to the largest descriptor.
abbrev pub close_range_from : ℕ → List ℕ → List ℕ
close_range_from first_fd fds = keep_if (λ x. ltb x first_fd) fds

abbrev pub open_max_limit : Option ℕ → ℕ
open_max_limit none = 1024
open_max_limit (some open_max) = if ltb 0 open_max then min open_max i32_max else 1024

abbrev pub open_fd_limit : FdHost → ℕ
open_fd_limit host = elim host.nofile [
  | unreadable ↦ open_max_limit host.open_max
  | infinite ↦ open_max_limit host.open_max
  | limited rlim_cur ↦ min rlim_cur i32_max
]

-- The loop over `count` descriptors from `fd`.
unfoldable pub close_each : ℕ → ℕ → List ℕ → List ℕ → List ℕ
close_each zero fd keep_fds fds = fds
close_each (suc count) fd keep_fds fds =
    close_each count (suc fd) keep_fds (if contains fd keep_fds then fds else close fd fds)

abbrev pub close_fds_by_rlimit : FdHost → ℕ → List ℕ → List ℕ → List ℕ
close_fds_by_rlimit host first_fd keep_fds fds =
    close_each (open_fd_limit host - first_fd) first_fd keep_fds fds

unfoldable pub close_untrusted_fds : FdHost → List ℕ → List ℕ → List ℕ
close_untrusted_fds host keep_fds fds =
    if is_empty keep_fds && host.close_range
    then close_range_from 3 fds
    else close_fds_by_rlimit host 3 keep_fds fds
