-- ===== src/Exec/Handshake/Tests.antt =====
-- A frame that comes in two pieces, and a child that exits before it has sent its own.
use nono_py.Common.{Bytes, codes, true, false, [], ◌∷◌, ◌++◌, some, ok, err, is_some, ◌≡◌, refl}
use nono_py.Exec.Io.{got, read_interrupted}
use nono_py.Exec.Handshake.{
  Turn, polled, child_exited, still_running, exited_early, read_bootstrap_exact,
}
use nono_py.Exec.Handshake.Laws.{read_bootstrap_exact-ends}

abbrev piece : Bytes → Turn
piece bytes = record { poll = polled true false; read = got bytes; wait = still_running }

abbrev waiting : Turn
waiting = record { poll = polled false false; read = read_interrupted; wait = still_running }

abbrev gone : Turn
gone = record { poll = polled false false; read = read_interrupted; wait = child_exited }

in_pieces :
    read_bootstrap_exact (waiting ∷ piece (codes "ab") ∷ waiting ∷ piece (codes "c") ∷ []) 3
    ≡ some (ok (codes "abc"))
unfolding read_bootstrap_exact
in_pieces = refl

too_early : read_bootstrap_exact (piece (codes "ab") ∷ gone ∷ []) 3 ≡ some (err exited_early)
unfolding read_bootstrap_exact
too_early = refl

read_bootstrap_exact-ends_example :
    is_some (read_bootstrap_exact ((piece (codes "ab") ∷ waiting ∷ []) ++ gone ∷ []) 3) ≡ true
read_bootstrap_exact-ends_example =
    read_bootstrap_exact-ends (piece (codes "ab") ∷ waiting ∷ []) gone [] 3 (false, refl, refl)
