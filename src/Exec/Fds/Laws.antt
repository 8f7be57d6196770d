-- ===== src/Exec/Fds/Laws.antt =====
-- Which descriptors are open after the child has closed the inherited ones.
use nono_py.Common.{
  ℕ, ◌+◌, Bool, ◌&&◌, ◌||◌, not, ltb, leb, ◌==◌, contains, is_empty, List, if◌then◌else◌,
}
use nono_py.Exec.Fds.{FdHost, open_fd_limit}

-- The descriptor is spared by the loop over `count` descriptors from `fd`.
abbrev pub is_spared : ℕ → ℕ → List ℕ → ℕ → Bool
is_spared count fd keep_fds x = ltb x fd || leb (fd + count) x || contains x keep_fds

abbrev spared_by_one : ℕ → List ℕ → ℕ → Bool
spared_by_one fd keep_fds x = contains fd keep_fds || not (x == fd)

-- What outlives the closing: the three standard descriptors; and where descriptors are to be kept
-- or the `close_range` call fails, also these and whatever is numbered from the limit on.
abbrev pub outlives : FdHost → List ℕ → ℕ → Bool
outlives host keep_fds x =
    if is_empty keep_fds && host.close_range
    then ltb x 3
    else ltb x 3 || leb (open_fd_limit host) x || contains x keep_fds
