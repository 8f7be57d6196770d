-- ===== src/Exec/Listener/Laws.antt =====
-- Which descriptors a failed bootstrap closes.
use nono_py.Common.{ℕ, Bool, false, ◌&&◌, ◌||◌, List, [], ◌∷◌, Option, none, some, ◌==◌}
use nono_py.Exec.Listener.{is_seccomp_notify_target, Entry, Action, close_fd}

-- An entry of the listing is the seccomp listener `x`.
abbrev pub is_listener : ℕ → List Entry → Bool
is_listener x [] = false
is_listener x ((some fd, some target) ∷ es) =
    (fd == x && is_seccomp_notify_target target) || is_listener x es
is_listener x (_ ∷ es) = is_listener x es

-- The known listener is `x`.
abbrev pub is_known : ℕ → Option ℕ → Bool
is_known x none = false
is_known x (some fd) = fd == x

-- The closing of descriptor `x` is among the actions.
abbrev pub closes : ℕ → List Action → Bool
closes x [] = false
closes x (close_fd fd ∷ as') = fd == x || closes x as'
closes x (_ ∷ as') = closes x as'
