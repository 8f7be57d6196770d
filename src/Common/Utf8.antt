-- ===== src/Common/Utf8.antt =====
-- The well-formed byte sequences of UTF-8 (what `str::from_utf8` accepts), as an automaton: the
-- state holds the continuation bytes still due and the range of the next one.
use Prim.Native.Nat.{ℕ, ◌-◌}
use mathlib.Core.Bool.{Bool, false, ◌&&◌}
use mathlib.Core.Option.{Option, none, some}
use mathlib.Core.List.{[], ◌∷◌}
use nono_py.Common.Tests.{leb, ◌==◌, if◌then◌else◌}
use nono_py.Common.Text.{Bytes}

record Due : Type 0 where
  count : ℕ
  low : ℕ
  high : ℕ

abbrev due : ℕ → ℕ → ℕ → Option Due
due n lo hi = some (record { count = n; low = lo; high = hi })

abbrev start_byte : ℕ → Option Due
start_byte b =
    if leb b 0x7F
    then due 0 0x80 0xBF
    else if leb 0xC2 b && leb b 0xDF
    then due 1 0x80 0xBF
    else if b == 0xE0
    then due 2 0xA0 0xBF
    else if b == 0xED
    then due 2 0x80 0x9F
    else if leb 0xE1 b && leb b 0xEF
    then due 2 0x80 0xBF
    else if b == 0xF0
    then due 3 0x90 0xBF
    else if b == 0xF4
    then due 3 0x80 0x8F
    else if leb 0xF1 b && leb b 0xF3
    then due 3 0x80 0xBF
    else none

abbrev next_byte : Due → ℕ → Option Due
next_byte d b =
    if d.count == 0
    then start_byte b
    else if leb d.low b && leb b d.high
    then due (d.count - 1) 0x80 0xBF
    else none

utf8_from : Option Due → Bytes → Bool
utf8_from none bs = false
utf8_from (some d) [] = d.count == 0
utf8_from (some d) (b ∷ bs) = utf8_from (next_byte d b) bs

unfoldable pub is_utf8 : Bytes → Bool
unfolding utf8_from
is_utf8 bs = utf8_from (due 0 0x80 0xBF) bs
