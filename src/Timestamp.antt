-- ===== src/Timestamp.antt =====
-- src/undo.rs: `chrono_now_iso8601`, from the seconds since 1970.
pub mod Laws
mod Calendar
mod Tests
use nono_py.Common.{
  ℕ, zero, suc, ◌+◌, ◌-◌, ◌*◌, ◌/◌, ◌%◌, Bytes, Bool, true, false, ◌&&◌, ◌||◌, not, List, [], ◌∷◌,
  ◌++◌, Option, none, some, if◌then◌else◌, ltb, ◌==◌,
}

unfoldable pub is_leap_year : ℕ → Bool
is_leap_year y = (y % 4 == 0 && not (y % 100 == 0)) || y % 400 == 0

abbrev pub days_in_year : ℕ → ℕ
days_in_year y = if is_leap_year y then 366 else 365

abbrev pub month_days : Bool → List ℕ
month_days true = 31 ∷ 29 ∷ 31 ∷ 30 ∷ 31 ∷ 30 ∷ 31 ∷ 31 ∷ 30 ∷ 31 ∷ 30 ∷ 31 ∷ []
month_days false = 31 ∷ 28 ∷ 31 ∷ 30 ∷ 31 ∷ 30 ∷ 31 ∷ 31 ∷ 30 ∷ 31 ∷ 30 ∷ 31 ∷ []

-- The loop over the years, on fuel, with the year and the days that remain; `none` without fuel.
unfoldable pub year_of : ℕ → ℕ → ℕ → Option (ℕ × ℕ)
year_of zero y remaining = none
year_of (suc fuel) y remaining =
    let later = year_of fuel (suc y) (remaining - days_in_year y) in
    if ltb remaining (days_in_year y) then some (y, remaining) else later

-- The loop over the months from the `i`-th on; it leaves 0 if no month has the day.
unfoldable pub month_of : ℕ → List ℕ → ℕ → ℕ × ℕ
month_of i [] remaining = (0, remaining)
month_of i (d ∷ ds) remaining =
    let later = month_of (suc i) ds (remaining - d) in
    if ltb remaining d then (i, remaining) else later

-- The numbers of the time stamp, month and day from 1 on.
pub record Civil : Type 0 where
  pub year : ℕ
  pub month : ℕ
  pub day : ℕ
  pub hours : ℕ
  pub minutes : ℕ
  pub seconds : ℕ

abbrev pub in_year : ℕ → ℕ × ℕ → Civil
in_year time_of_day (y, remaining) =
    let (m, d) = month_of 0 (month_days (is_leap_year y)) remaining in
    record {
      year = y;
      month = m + 1;
      day = d + 1;
      hours = time_of_day / 3600;
      minutes = time_of_day % 3600 / 60;
      seconds = time_of_day % 60;
    }

-- A year has a day at least, so that the loop ends within as many turns as there are days.
unfoldable pub civil_of : ℕ → Option Civil
civil_of secs = elim (year_of (suc (secs / 86400)) 1970 (secs / 86400)) [
  | none ↦ none
  | some found ↦ some (in_year (secs % 86400) found)
]

abbrev pub digit : ℕ → ℕ
digit n = b'0' + n % 10

abbrev pub two_digits : ℕ → Bytes
two_digits n = digit (n / 10) ∷ digit n ∷ []

-- The decimal digits, on fuel, in front of `rest`.
unfoldable pub digits : ℕ → ℕ → Bytes → Bytes
digits zero n rest = rest
digits (suc fuel) n rest =
    let longer = digits fuel (n / 10) (digit n ∷ rest) in
    if ltb n 10 then digit n ∷ rest else longer

-- `{:04}`; the fuel of a number as large as its digits' count is enough.
abbrev pub four_digits : ℕ → Bytes
four_digits n = if ltb n 10000 then two_digits (n / 100) ++ two_digits (n % 100) else digits n n []

unfoldable pub chrono_now_iso8601 : ℕ → Option Bytes
chrono_now_iso8601 secs = elim (civil_of secs) [
  | none ↦ none
  | some t ↦ some (
      four_digits t.year
      ++ (b'-' ∷ two_digits t.month
          ++ (b'-' ∷ two_digits t.day
              ++ (b'T' ∷ two_digits t.hours
                  ++ (b':' ∷ two_digits t.minutes ++ (b':' ∷ two_digits t.seconds ++ b'Z' ∷ []))))))
]
