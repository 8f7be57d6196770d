-- ===== src/Timestamp/Calendar.antt =====
-- The Gregorian calendar, apart from the code: the leap years are counted, not tested for.
use nono_py.Common.{
  ℕ, suc, ◌+◌, ◌-◌, ◌*◌, ◌/◌, ◌≤◌, List, [], ◌∷◌, ◌≡◌, refl, subst, Bool-cases, inl, inr, arith,
  if◌then◌else◌,
}
use nono_py.Timestamp.{is_leap_year, days_in_year, month_days}

-- The leap years from year 1 to year `y`: the multiples of 4, without those of 100, and those of 400.
abbrev pub leap_years_to : ℕ → ℕ
leap_years_to y = y / 4 - y / 100 + y / 400

-- February has one day more in a year that adds to the count.
abbrev pub february : ℕ → ℕ
february y = 28 + (leap_years_to y - leap_years_to (y - 1))

abbrev pub month_lengths : ℕ → List ℕ
month_lengths y = 31 ∷ february y ∷ 31 ∷ 30 ∷ 31 ∷ 30 ∷ 31 ∷ 31 ∷ 30 ∷ 31 ∷ 30 ∷ 31 ∷ []

-- The days of the first `n` years from 1970 on.
abbrev pub days_of_years : ℕ → ℕ
days_of_years n = n * 365 + (leap_years_to (1969 + n) - leap_years_to 1969)

leap_lem :
    (y : ℕ) → leap_years_to (suc y) ≡ leap_years_to y + (if is_leap_year (suc y) then 1 else 0)
unfolding is_leap_year
leap_lem y = ground arith

leap_years_mono : (y : ℕ) → leap_years_to y ≤ leap_years_to (suc y)
leap_years_mono y = omega arith

leap_years_from : (n : ℕ) → leap_years_to 1969 ≤ leap_years_to (1969 + n)
leap_years_from n = omega arith

pub month_lengths_lem : (y : ℕ) → month_lengths (suc y) ≡ month_days (is_leap_year (suc y))
month_lengths_lem y =
    let before : suc y - 1 ≡ y = omega arith in
    let count = leap_lem y in
    elim (Bool-cases (is_leap_year (suc y))) [
      | inl e ↦
          let more : leap_years_to (suc y) ≡ leap_years_to y + 1 = rw e at count in
          let days : february (suc y) ≡ 29 = rw (before, more) (omega arith) in rw (e, days) refl
      | inr e ↦
          let same : leap_years_to (suc y) ≡ leap_years_to y + 0 = rw e at count in
          let days : february (suc y) ≡ 28 = rw (before, same) (omega arith) in rw (e, days) refl
    ]

pub days_of_years-suc : (n : ℕ) → days_of_years (suc n) ≡ days_of_years n + days_in_year (1970 + n)
days_of_years-suc n =
    let step : suc (1969 + n) ≡ 1970 + n = omega arith in
    let count =
      subst (λ y. leap_years_to y ≡ leap_years_to (1969 + n) + (if is_leap_year y then 1 else 0))
        step (leap_lem (1969 + n)) in
    let next : 1969 + suc n ≡ 1970 + n = omega arith in
    let first = leap_years_from n in
    elim (Bool-cases (is_leap_year (1970 + n))) [
      | inl e ↦
          let more : leap_years_to (1970 + n) ≡ leap_years_to (1969 + n) + 1 = rw e at count in
          rw (e, next, more) (omega arith)
      | inr e ↦
          let same : leap_years_to (1970 + n) ≡ leap_years_to (1969 + n) + 0 = rw e at count in
          rw (e, next, same) (omega arith)
    ]
