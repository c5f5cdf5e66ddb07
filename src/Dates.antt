-- ===== src/Dates.antt =====
-- What the program uses of `datetime.date`: a date is the number of days since 0001-01-01, and its
-- month and day are those of the Gregorian calendar, with the years counted from March on.
pub mod Months
mod Tests
use bifrost_platform_plugin.Prelude.{ℕ, ◌+◌, ◌-◌, ◌*◌, ◌/◌, ◌%◌, ltb, if◌then◌else◌}

-- Days since 0000-03-01 and in its 400 years, and the year, the day and the month from March on.
abbrev pub cycle_day : ℕ → ℕ
cycle_day day = (day + 306) % 146097

abbrev pub cycle_year : ℕ → ℕ
cycle_year day = let c = cycle_day day in (c - c / 1460 + c / 36524 - c / 146096) / 365

abbrev pub year_day : ℕ → ℕ
year_day day = let y = cycle_year day in cycle_day day - (365 * y + y / 4 - y / 100)

abbrev pub march_month : ℕ → ℕ
march_month day = (5 * year_day day + 2) / 153

abbrev pub march_year : ℕ → ℕ
march_year day = 400 * ((day + 306) / 146097) + cycle_year day

-- `date.year`, `date.month`, `date.day`, `date.weekday()`
unfoldable pub year_of : ℕ → ℕ
year_of day = if ltb (march_month day) 10 then march_year day else march_year day + 1

unfoldable pub month_of : ℕ → ℕ
month_of day = let m = march_month day in if ltb m 10 then m + 3 else m - 9

unfoldable pub day_of_month : ℕ → ℕ
day_of_month day = year_day day - (153 * march_month day + 2) / 5 + 1

unfoldable pub weekday : ℕ → ℕ
weekday day = day % 7

-- `day.replace(day=1)`
unfoldable pub month_first : ℕ → ℕ
unfolding day_of_month
month_first day = day - (day_of_month day - 1)

-- `(day.replace(day=1) + timedelta(days=32)).replace(day=1)`
unfoldable pub next_month : ℕ → ℕ
unfolding month_first
next_month day = month_first (month_first day + 32)
