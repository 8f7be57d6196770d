-- ===== src/Exec/Listener.antt =====
-- src/sandboxed_exec.rs: the seccomp listener that the child of the clone path puts into the shared
-- table of descriptors: `seccomp_notify_fds`, `validate_seccomp_notify_fd` and
-- `cleanup_failed_shared_bootstrap`. Sets of descriptors are lists, in increasing order.
pub mod Laws
mod Tests
use nono_py.Common.{
  ℕ, Bytes, codes, bytes_eq, contains, Bool, true, false, ◌&&◌, ◌||◌, not, List, [], ◌∷◌, ◌++◌,
  Option, none, some, Result, ok, err, if◌then◌else◌, ltb, ◌==◌,
}

unfoldable pub is_seccomp_notify_target : Bytes → Bool
is_seccomp_notify_target target =
    bytes_eq target (codes "anon_inode:seccomp notify")
    || bytes_eq target (codes "anon_inode:[seccomp notify]")

-- `BTreeSet::insert`
unfoldable pub insert_fd : ℕ → List ℕ → List ℕ
insert_fd fd [] = fd ∷ []
insert_fd fd (x ∷ fds) =
    let rest = insert_fd fd fds in
    if fd == x then x ∷ fds else if ltb fd x then fd ∷ x ∷ fds else x ∷ rest

-- An entry of /proc/self/fd: its number, if the name is one, and what its link leads to, if that can be
-- read.
abbrev pub Entry : Type 0
Entry = Option ℕ × Option Bytes

abbrev pub with_entry : Entry → List ℕ → List ℕ
with_entry (some fd, some target) fds =
    if is_seccomp_notify_target target then insert_fd fd fds else fds
with_entry _ fds = fds

-- The loop over the entries.
unfoldable pub listeners_from : List ℕ → List Entry → List ℕ
listeners_from fds [] = fds
listeners_from fds (e ∷ es) = listeners_from (with_entry e fds) es

-- `none` if the folder or an entry of it cannot be read.
unfoldable pub seccomp_notify_fds : Option (List Entry) → Option (List ℕ)
seccomp_notify_fds none = none
seccomp_notify_fds (some es) = some (listeners_from [] es)

pub data ListenerError : Type 0 where
  pre_existing uninspected not_listener not_close_on_exec : ListenerError

-- The link of the slot and whether it is closed on exec, as the kernel has them, `none` for an error.
unfoldable pub validate_seccomp_notify_fd :
    (ℕ → Option Bytes) → (ℕ → Option Bool) → ℕ → List ℕ → Result ListenerError (Unit {0})
validate_seccomp_notify_fd read_link close_on_exec fd listener_snapshot =
    if contains fd listener_snapshot then err pre_existing else elim (read_link fd) [
      | none ↦ err uninspected
      | some target ↦
          if is_seccomp_notify_target target
          then elim (close_on_exec fd) [
            | none ↦ err not_close_on_exec
            | some set ↦ if set then ok tt else err not_close_on_exec
          ]
          else err not_listener
    ]

-- What the cleanup does, in order; `reap_child` waits until the child is gone.
pub data Action : Type 0 where
  kill_child reap_child close_pipes : Action
  close_fd : ℕ → Action

abbrev pub unwrap_or_default : Option (List ℕ) → List ℕ
unwrap_or_default none = []
unwrap_or_default (some fds) = fds

unfoldable pub difference : List ℕ → List ℕ → List ℕ
difference [] snapshot = []
difference (x ∷ fds) snapshot =
    let rest = difference fds snapshot in if contains x snapshot then rest else x ∷ rest

abbrev pub with_known : Option ℕ → List ℕ → List ℕ → List ℕ
with_known none snapshot fds = fds
with_known (some fd) snapshot fds = if contains fd snapshot then fds else insert_fd fd fds

-- The descriptors to close, by the entries that are read once the child is gone.
unfoldable pub to_close : Option ℕ → List ℕ → Option (List Entry) → List ℕ
to_close known_listener snapshot es =
    with_known known_listener snapshot
      (difference (unwrap_or_default (seccomp_notify_fds es)) snapshot)

abbrev pub close_all : List ℕ → List Action
close_all [] = close_pipes ∷ []
close_all (fd ∷ fds) = close_fd fd ∷ close_all fds

unfoldable pub cleanup_failed_shared_bootstrap :
    Option ℕ → List ℕ → Option (List Entry) → List Action
cleanup_failed_shared_bootstrap known_listener snapshot es =
    kill_child ∷ reap_child ∷ close_all (to_close known_listener snapshot es)
