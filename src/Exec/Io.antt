-- ===== src/Exec/Io.antt =====
-- src/sandboxed_exec.rs: writing and reading a whole buffer (`raw_write_all`, `write_all_raw`,
-- `raw_read_exact`, `read_exact_raw`). The kernel's answers to the calls are a list; a loop that
-- still waits at the end of the list has no result. With the result come the bytes that went
-- through.
pub mod Laws
mod Tests
use nono_py.Common.{
  ℕ, zero, suc, ◌-◌, Bytes, Bool, true, false, length, take, drop, List, [], ◌∷◌, ◌++◌, Option,
  none, some,
}

-- `wrote n` took n bytes, at most as many as were offered.
pub data WriteReply : Type 0 where
  wrote : ℕ → WriteReply
  write_interrupted write_failed : WriteReply

-- `got bytes` filled in these bytes, at most as many as were asked for; none at the end of file.
pub data ReadReply : Type 0 where
  got : Bytes → ReadReply
  read_interrupted read_failed : ReadReply

abbrev pub after : Bytes → Option (Bool × Bytes) → Option (Bool × Bytes)
after sent none = none
after sent (some (done, out)) = some (done, sent ++ out)

unfoldable pub raw_write_all : List WriteReply → Bytes → Option (Bool × Bytes)
raw_write_all rs [] = some (true, [])
raw_write_all [] (b ∷ buf) = none
raw_write_all (wrote zero ∷ rs) (b ∷ buf) = some (false, [])
raw_write_all (wrote (suc n) ∷ rs) (b ∷ buf) =
    after (b ∷ take n buf) (raw_write_all rs (drop n buf))
raw_write_all (write_interrupted ∷ rs) (b ∷ buf) = raw_write_all rs (b ∷ buf)
raw_write_all (write_failed ∷ rs) (b ∷ buf) = some (false, [])

-- A write of no bytes is tried again here.
unfoldable pub write_all_raw : List WriteReply → Bytes → Option (Bool × Bytes)
write_all_raw rs [] = some (true, [])
write_all_raw [] (b ∷ buf) = none
write_all_raw (wrote zero ∷ rs) (b ∷ buf) = write_all_raw rs (b ∷ buf)
write_all_raw (wrote (suc n) ∷ rs) (b ∷ buf) =
    after (b ∷ take n buf) (write_all_raw rs (drop n buf))
write_all_raw (write_interrupted ∷ rs) (b ∷ buf) = write_all_raw rs (b ∷ buf)
write_all_raw (write_failed ∷ rs) (b ∷ buf) = some (false, [])

-- The number is the length of the part of the buffer still to fill. `raw_read_exact` is the same loop, with one outcome for both errors.
unfoldable pub read_exact_raw : List ReadReply → ℕ → Option (Bool × Bytes)
read_exact_raw rs zero = some (true, [])
read_exact_raw [] (suc n) = none
read_exact_raw (got [] ∷ rs) (suc n) = some (false, [])
read_exact_raw (got (b ∷ bytes) ∷ rs) (suc n) =
    after (b ∷ take n bytes) (read_exact_raw rs (n - length bytes))
read_exact_raw (read_interrupted ∷ rs) (suc n) = read_exact_raw rs (suc n)
read_exact_raw (read_failed ∷ rs) (suc n) = some (false, [])
