-- ===== src/Exec/Io/Tests.antt =====
-- A message that goes out in two pieces and arrives in two others.
use native.Mathlib.Omega.{arith}
use nono_py.Common.{codes, true, false, is_some, List, [], ◌∷◌, some, none, ◌≡◌, refl}
use nono_py.Exec.Io.{
  WriteReply, wrote, write_interrupted, write_failed, ReadReply, got, read_interrupted,
  raw_write_all, write_all_raw, read_exact_raw,
}
use nono_py.Exec.Io.Laws.{
  Sent, raw_write_all-Sent, raw_write_all-ends, read_exact_raw-raw_write_all,
}

abbrev writes : List WriteReply
writes = wrote 2 ∷ write_interrupted ∷ wrote 9 ∷ []

abbrev zero_write : List WriteReply
zero_write = wrote 1 ∷ wrote 0 ∷ wrote 3 ∷ []

abbrev reads : List ReadReply
reads = got (codes "A") ∷ read_interrupted ∷ got (codes "CK!") ∷ []

sent : raw_write_all writes (codes "ACK!") ≡ some (true, codes "ACK!")
unfolding raw_write_all
sent = refl

retried : write_all_raw zero_write (codes "ACK!") ≡ some (true, codes "ACK!")
unfolding write_all_raw
retried = refl

stopped :
    (raw_write_all zero_write (codes "ACK!") ≡ some (false, codes "A"))
    × (write_all_raw (wrote 1 ∷ write_failed ∷ []) (codes "ACK!") ≡ some (false, codes "A"))
    × (raw_write_all [] (codes "ACK!") ≡ none)
    × (read_exact_raw (got (codes "A") ∷ got [] ∷ []) 4 ≡ some (false, codes "A"))
unfolding raw_write_all write_all_raw read_exact_raw
stopped = (refl, refl, refl, refl)

raw_write_all-Sent_example : Sent (codes "ACK!") (true, codes "ACK!")
raw_write_all-Sent_example = raw_write_all-Sent writes (codes "ACK!") (true, codes "ACK!") sent

raw_write_all-ends_example : is_some (raw_write_all writes (codes "OK")) ≡ true
raw_write_all-ends_example = raw_write_all-ends writes (codes "OK") (omega arith)

read_exact_raw-raw_write_all_example : read_exact_raw reads 4 ≡ some (true, codes "ACK!")
read_exact_raw-raw_write_all_example =
    read_exact_raw-raw_write_all writes reads (codes "ACK!") (codes "ACK!") sent tt refl
