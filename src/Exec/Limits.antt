-- ===== src/Exec/Limits.antt =====
-- src/sandboxed_exec.rs: the resource limits (`apply_resource_limits` of the fork path,
-- `apply_resource_limits_raw` of the clone path). `set` is the kernel's `setrlimit` or `prlimit64`
-- with the soft and the hard limit equal; `none` is a failed call. On a 64-bit platform
-- `clamp_rlim` is the identity.
pub mod Laws
mod Tests
use nono_py.Common.{ℕ, Option, none, some, Result, ok, err, ◌>>=◌}

pub data Resource : Type 0 where
  cpu fsize nproc nofile : Resource

-- The four fields of `ForkContext`.
pub record LimitRequest : Type 0 where
  pub max_cpu_seconds : Option ℕ
  pub max_file_size_bytes : Option ℕ
  pub max_processes : Option ℕ
  pub max_open_files : Option ℕ

pub data LimitError : Type 0 where
  limit_failed : Resource → LimitError

unfoldable pub clamp_rlim : ℕ → ℕ
clamp_rlim value = value

module _ {ℓ} {L : Type ℓ} (set : Resource → ℕ → L → Option L) where
  unfoldable pub set_rlimit : Resource → ℕ → L → Result LimitError L
  set_rlimit r value l = elim (set r (clamp_rlim value) l) [
    | none ↦ err (limit_failed r)
    | some l' ↦ ok l'
  ]

  unfoldable pub set_limit : Resource → Option ℕ → L → Result LimitError L
  set_limit r none l = ok l
  set_limit r (some v) l = set_rlimit r v l

  unfoldable pub apply_resource_limits : LimitRequest → L → Result LimitError L
  apply_resource_limits ctx l = do
    l1 ← set_limit cpu ctx.max_cpu_seconds l
    l2 ← set_limit fsize ctx.max_file_size_bytes l1
    l3 ← set_limit nproc ctx.max_processes l2
    set_limit nofile ctx.max_open_files l3

  -- `is_none_or(|value| raw_set_rlimit(r, value))`; `false` is `none`.
  unfoldable pub raw_set_rlimit : Resource → Option ℕ → L → Option L
  raw_set_rlimit r none l = some l
  raw_set_rlimit r (some v) l = set r (clamp_rlim v) l

  infixl 5 ◌&&then◌
  abbrev ◌&&then◌ : Option L → (L → Option L) → Option L
  none &&then f = none
  some l &&then f = f l

  unfoldable pub apply_resource_limits_raw : LimitRequest → L → Option L
  apply_resource_limits_raw ctx l =
      raw_set_rlimit cpu ctx.max_cpu_seconds l
      &&then raw_set_rlimit fsize ctx.max_file_size_bytes
      &&then raw_set_rlimit nproc ctx.max_processes
      &&then raw_set_rlimit nofile ctx.max_open_files
