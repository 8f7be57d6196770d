-- ===== src/Exec/Fds/Tests.antt =====
-- A process with a limit of 8 and a descriptor opened before the limit was set.
use nono_py.Common.{true, false, List, [], ◌∷◌, none, ◌≡◌, refl, ℕ}
use nono_py.Exec.Fds.{FdHost, limited, keep_if, close_each, close_untrusted_fds}

abbrev host : FdHost
host = record { close_range = true; nofile = limited 8; open_max = none }

abbrev opened : List ℕ
opened = 0 ∷ 1 ∷ 2 ∷ 5 ∷ 6 ∷ 20 ∷ []

closed :
    (close_untrusted_fds host [] opened ≡ 0 ∷ 1 ∷ 2 ∷ [])
    × (close_untrusted_fds host (5 ∷ []) opened ≡ 0 ∷ 1 ∷ 2 ∷ 5 ∷ 20 ∷ [])
    × (close_untrusted_fds (record host { close_range = false }) [] opened ≡ 0 ∷ 1 ∷ 2 ∷ 20 ∷ [])
unfolding close_untrusted_fds close_each keep_if
closed = (refl, refl, refl)
