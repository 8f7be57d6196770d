-- ===== src/Timestamp/Laws.antt =====
-- The civil time of a number of seconds, and back.
use nono_py.Common.{
  ℕ, zero, suc, ◌+◌, ◌-◌, ◌*◌, ◌/◌, ◌%◌, ◌≤◌, ◌<◌, List, [], ◌∷◌, Option, some, ltb, ltb→lt, ◌≡◌,
  refl, ap, subst, sym, ◌∙◌, Bool-cases, inl, inr, arith, length,
}
use nono_py.Timestamp.Calendar.{month_lengths, days_of_years, days_of_years-suc, month_lengths_lem}
use nono_py.Timestamp.{
  is_leap_year, days_in_year, month_days, year_of, month_of, Civil, in_year, civil_of,
}

-- The days of the first `n` months, and those of the month after them.
abbrev pub days_of_months : ℕ → List ℕ → ℕ
days_of_months zero ds = 0
days_of_months (suc n) [] = 0
days_of_months (suc n) (d ∷ ds) = d + days_of_months n ds

abbrev pub month_length : ℕ → List ℕ → ℕ
month_length n [] = 0
month_length zero (d ∷ ds) = d
month_length (suc n) (d ∷ ds) = month_length n ds

-- The seconds since 1970 of a civil time, by the calendar's count of leap years.
abbrev pub seconds_of : Civil → ℕ
seconds_of t =
    (((days_of_years (t.year - 1970)
                + days_of_months (t.month - 1) (month_lengths t.year)
                + (t.day - 1))
              * 24
            + t.hours)
          * 60
        + t.minutes)
      * 60
    + t.seconds

-- Every number is in its range.
pub record IsCivil (t : Civil) : Type 0 where
  pub from_1970 : 1970 ≤ t.year
  pub month_from : 1 ≤ t.month
  pub month_to : t.month ≤ 12
  pub day_from : 1 ≤ t.day
  pub day_to : t.day ≤ month_length (t.month - 1) (month_lengths t.year)
  pub hours_to : t.hours ≤ 23
  pub minutes_to : t.minutes ≤ 59
  pub seconds_to : t.seconds ≤ 59

days_in_year-positive : (y : ℕ) → 1 ≤ days_in_year y
days_in_year-positive y = elim (Bool-cases (is_leap_year y)) [
  | inl e ↦ rw e (omega arith)
  | inr e ↦ rw e (omega arith)
]

-- The year that the loop finds, its number from 1970 on, and its days that remain.
record IsYear (days : ℕ) (o : Option (ℕ × ℕ)) : Type 0 where
  number : ℕ
  year : ℕ
  remaining : ℕ
  found : o ≡ some (year, remaining)
  numbered : year ≡ 1970 + number
  within : remaining < days_in_year year
  counted : days ≡ days_of_years number + remaining

year_of-IsYear :
    (fuel n y remaining : ℕ)
    → y ≡ 1970 + n
    → remaining < fuel
    → IsYear (days_of_years n + remaining) (year_of fuel y remaining)
unfolding year_of
year_of-IsYear zero n y remaining ey h = absurd (omega arith)
year_of-IsYear (suc fuel) n y remaining ey h = elim (Bool-cases (ltb remaining (days_in_year y))) [
  | inl e ↦ rw e record {
    number = n;
    year = y;
    remaining = remaining;
    found = refl;
    numbered = ey;
    within = ltb→lt remaining (days_in_year y) e;
    counted = refl;
  }
  | inr e ↦
      let some_day = days_in_year-positive y in
      let long : days_in_year y ≤ remaining = ground arith in
      let same : days_in_year y ≡ days_in_year (1970 + n) = ap days_in_year ey in
      let more_years = days_of_years-suc n in
      let counted : days_of_years (suc n) + (remaining - days_in_year y)
          ≡ days_of_years n + remaining =
        omega arith in
      rw e (
        subst (λ d. IsYear d (year_of fuel (suc y) (remaining - days_in_year y))) counted
          (year_of-IsYear fuel (suc n) (suc y) (remaining - days_in_year y) (omega arith)
            (omega arith)))
]

-- The days of all the months.
abbrev total : List ℕ → ℕ
total [] = 0
total (d ∷ ds) = d + total ds

-- The month that the loop finds, `n` places on.
record IsMonth (i : ℕ) (ds : List ℕ) (days : ℕ) (found : ℕ × ℕ) : Type 0 where
  n : ℕ
  place : found.0 ≡ i + n
  within : found.1 < month_length n ds
  counted : days ≡ days_of_months n ds + found.1

month_of-IsMonth :
    (i : ℕ) (ds : List ℕ) (remaining : ℕ)
    → remaining < total ds
    → IsMonth i ds remaining (month_of i ds remaining)
unfolding month_of
month_of-IsMonth i [] remaining h = absurd (omega arith)
month_of-IsMonth i (d ∷ ds) remaining h = elim (Bool-cases (ltb remaining d)) [
  | inl e ↦
      rw e
        record { n = 0; place = omega arith; within = ltb→lt remaining d e; counted = omega arith }
  | inr e ↦
      let long : d ≤ remaining = ground arith in
      let later = month_of-IsMonth (suc i) ds (remaining - d) (omega arith) in
      let place = later.place in
      let counted = later.counted in
      rw e record {
        n = suc later.n;
        place = omega arith;
        within = later.within;
        counted = omega arith;
      }
]

total-month_days : (y : ℕ) → days_in_year y ≡ total (month_days (is_leap_year y))
total-month_days y = elim (Bool-cases (is_leap_year y)) [ inl e ↦ rw e refl | inr e ↦ rw e refl ]

lengths_lem : (y : ℕ) → 1970 ≤ y → month_lengths y ≡ month_days (is_leap_year y)
lengths_lem zero h = absurd (omega arith)
lengths_lem (suc y) h = month_lengths_lem y

month_length-positive : (n k : ℕ) (ds : List ℕ) → k < month_length n ds → n < length ds
month_length-positive n k [] h = absurd (omega arith)
month_length-positive zero k (d ∷ ds) h = omega arith
month_length-positive (suc n) k (d ∷ ds) h =
    let rest = month_length-positive n k ds h in omega arith

-- A time of day by its parts.
time_of_day_lem : (t : ℕ) → (t / 3600 * 60 + t % 3600 / 60) * 60 + t % 60 ≡ t
time_of_day_lem t = omega arith

hours_lem : (t : ℕ) → t < 86400 → t / 3600 ≤ 23
hours_lem t h = omega arith

minutes_lem : (t : ℕ) → t % 3600 / 60 ≤ 59
minutes_lem t = omega arith

seconds_lem : (t : ℕ) → t % 60 ≤ 59
seconds_lem t = omega arith

-- The parts of a time whose month is the `n`-th after January, and whose day the `k`-th after the first.
module _ (y number n k t : ℕ) (ey : y ≡ 1970 + number) (ht : t < 86400)
    (hk : k < month_length n (month_lengths y)) where
  abbrev built : Civil
  built = record {
    year = y;
    month = n + 1;
    day = k + 1;
    hours = t / 3600;
    minutes = t % 3600 / 60;
    seconds = t % 60;
  }

  built-IsCivil : IsCivil built
  built-IsCivil =
      let few = month_length-positive n k (month_lengths y) hk in
      let same : n + 1 - 1 ≡ n = omega arith in
      record {
        from_1970 = omega arith;
        month_from = omega arith;
        month_to = omega arith;
        day_from = omega arith;
        day_to = rw same (omega arith);
        hours_to = hours_lem t ht;
        minutes_to = minutes_lem t;
        seconds_to = seconds_lem t;
      }

  seconds_of-built :
      seconds_of built
      ≡ (days_of_years number + (days_of_months n (month_lengths y) + k)) * 86400 + t
  seconds_of-built =
      let month : n + 1 - 1 ≡ n = omega arith in
      let year : y - 1970 ≡ number = omega arith in
      let time = time_of_day_lem t in rw (month, year) (omega arith)

civil_of_found :
    (secs : ℕ) (p : ℕ × ℕ)
    → year_of (suc (secs / 86400)) 1970 (secs / 86400) ≡ some p
    → civil_of secs ≡ some (in_year (secs % 86400) p)
unfolding civil_of
civil_of_found secs p e = rw (civil_of, e) refl

-- A number of seconds has a civil time, whose numbers are in their ranges in the Gregorian calendar,
-- which counts the leap years by division, and which is that many seconds after the start of 1970.
pub civil_of-seconds_of :
    (secs : ℕ) → (t : Civil) × (civil_of secs ≡ some t) × IsCivil t × (seconds_of t ≡ secs)
unfolding civil_of
civil_of-seconds_of secs =
    let days : ℕ = secs / 86400 in
    let time : ℕ = secs % 86400 in
    let found = year_of-IsYear (suc days) 0 1970 days (omega arith) (omega arith) in
    let within = found.within in
    let whole = total-month_days found.year in
    let months =
      month_of-IsMonth 0 (month_days (is_leap_year found.year)) found.remaining (omega arith) in
    let short : time < 86400 = omega arith in
    let y : ℕ = found.year in
    let lengths : List ℕ = month_days (is_leap_year y) in
    let numbered = found.numbered in
    let same : month_lengths y ≡ lengths = lengths_lem y (omega arith) in
    let m : ℕ = (month_of 0 lengths found.remaining).0 in
    let k : ℕ = (month_of 0 lengths found.remaining).1 in
    let place : m ≡ months.n = omega arith in
    let day : k < month_length m lengths =
      subst (λ i. k < month_length i lengths) (sym place) months.within in
    let counted : found.remaining ≡ days_of_months m lengths + k =
      subst (λ i. found.remaining ≡ days_of_months i lengths + k) (sym place) months.counted in
    let all_days = found.counted in
    let day' : k < month_length m (month_lengths y) =
      subst (λ l. k < month_length m l) (sym same) day in
    let counted' : found.remaining ≡ days_of_months m (month_lengths y) + k =
      subst (λ l. found.remaining ≡ days_of_months m l + k) (sym same) counted in
    let total_seconds = seconds_of-built y found.number m k time numbered short day' in
    (
      built y found.number m k time numbered short day',
      civil_of_found secs (y, found.remaining) found.found,
      built-IsCivil y found.number m k time numbered short day',
      total_seconds ∙ omega arith,
    )
