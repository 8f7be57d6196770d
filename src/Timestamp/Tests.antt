-- ===== src/Timestamp/Tests.antt =====
-- The last second of February 2000, a leap year, and the example of a witness.
use nono_py.Common.{codes, some, ◌≡◌, refl}
use nono_py.Timestamp.{Civil, is_leap_year, year_of, month_of, civil_of, chrono_now_iso8601}
use nono_py.Timestamp.Laws.{IsCivil, seconds_of, civil_of-seconds_of}

epoch : chrono_now_iso8601 0 ≡ some (codes "1970-01-01T00:00:00Z")
unfolding chrono_now_iso8601 civil_of year_of month_of is_leap_year
epoch = refl

leap_day : chrono_now_iso8601 951868799 ≡ some (codes "2000-02-29T23:59:59Z")
unfolding chrono_now_iso8601 civil_of year_of month_of is_leap_year
leap_day = refl

civil_of-seconds_of_example :
    (t : Civil) × (civil_of 951868799 ≡ some t) × IsCivil t × (seconds_of t ≡ 951868799)
civil_of-seconds_of_example = civil_of-seconds_of 951868799
