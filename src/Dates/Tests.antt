-- ===== src/Dates/Tests.antt =====
-- Dates around the ends of months.
use bifrost_platform_plugin.Prelude.{◌≡◌, refl}
use bifrost_platform_plugin.Dates.{year_of, month_of, day_of_month, weekday, month_first}

-- 2026-03-01, a Sunday.
first_of_march :
    (year_of 739675 ≡ 2026)
    × (month_of 739675 ≡ 3)
    × (day_of_month 739675 ≡ 1)
    × (weekday 739675 ≡ 6)
unfolding year_of month_of day_of_month weekday
first_of_march = (refl, refl, refl, refl)

-- The day before it, and the first of its month.
last_of_february :
    (month_of 739674 ≡ 2) × (day_of_month 739674 ≡ 28) × (month_first 739674 ≡ 739647)
unfolding month_of day_of_month month_first
last_of_february = (refl, refl, refl)
