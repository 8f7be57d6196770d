-- ===== src/Exec/Listener/Tests.antt =====
-- A listener from before, a new one, and another descriptor.
use nono_py.Common.{Bytes, codes, bytes_eq, true, List, [], ◌∷◌, none, some, ok, err, ◌≡◌, refl}
use nono_py.Exec.Listener.{
  is_seccomp_notify_target, insert_fd, Entry, listeners_from, seccomp_notify_fds,
  validate_seccomp_notify_fd, pre_existing, difference, to_close, kill_child, reap_child, close_fd,
  close_pipes, cleanup_failed_shared_bootstrap,
}

abbrev notify : Bytes
notify = codes "anon_inode:seccomp notify"

abbrev listing : List Entry
listing =
    (some 9, some notify)
    ∷ (some 3, some notify)
    ∷ (some 4, some (codes "socket:[1]"))
    ∷ (none, none)
    ∷ []

listener_functions : Unit {0}
unfolding is_seccomp_notify_target insert_fd listeners_from seccomp_notify_fds
    validate_seccomp_notify_fd difference to_close cleanup_failed_shared_bootstrap bytes_eq
listener_functions = tt

cleaned :
    cleanup_failed_shared_bootstrap (some 7) (3 ∷ []) (some listing)
    ≡ kill_child ∷ reap_child ∷ close_fd 7 ∷ close_fd 9 ∷ close_pipes ∷ []
unfolding listener_functions
cleaned = refl

accepted : validate_seccomp_notify_fd (λ fd. some notify) (λ fd. some true) 9 (3 ∷ []) ≡ ok tt
unfolding listener_functions
accepted = refl

from_before :
    validate_seccomp_notify_fd (λ fd. some notify) (λ fd. some true) 3 (3 ∷ []) ≡ err pre_existing
unfolding listener_functions
from_before = refl
