-- ===== src/Session/Tests.antt =====
-- Sessions around a holiday, with New York five hours behind UTC.
use bifrost_platform_plugin.Prelude.{
  ℕ, ◌+◌, ◌-◌, ◌*◌, ◌%◌, ◌&&◌, ◌≡◌, refl, some, none, List, [], ◌∷◌, true, false, leb, arith,
}
use bifrost_platform_plugin.Calendar.{Date, Holiday, is_trading_day}
use bifrost_platform_plugin.Session.{
  eod_expected_by, ordinal_of, trades_today, resolve_session, is_late,
}
use bifrost_platform_plugin.Session.Current.{Latest, bound_of, resolve_session-Latest}

abbrev new_york : ℕ → ℕ
new_york t = t - 18000

abbrev to_utc : ℕ → ℕ
to_utc t = t + 18000

-- The Thursday is a holiday.
abbrev thanksgiving : List Holiday
thanksgiving = record { exchange = "NYSE"; holiday_date = 739946; status = "closed" } ∷ []

-- An instant of a day by the clock of New York.
abbrev at_clock : Date → ℕ → ℕ → ℕ
at_clock d hour minute = (d - 1) * 86400 + hour * 3600 + minute * 60 + 18000

-- On the Wednesday at noon the session is Tuesday's, at 19:30 Wednesday's; on the holiday it still is.
at_noon :
    resolve_session new_york (some thanksgiving) (some thanksgiving) 739945 (at_clock 739945 12 0)
    ≡ (739944, false)
unfolding resolve_session
at_noon = refl

in_the_evening :
    resolve_session new_york (some thanksgiving) (some thanksgiving) 739946 (at_clock 739945 19 30)
    ≡ (739945, true)
unfolding resolve_session
in_the_evening = refl

on_the_holiday :
    resolve_session new_york (some thanksgiving) (some thanksgiving) 739947 (at_clock 739946 20 0)
    ≡ (739945, false)
unfolding resolve_session
on_the_holiday = refl

-- At 19:10 the day is over in UTC, and Wednesday is the session half an hour too soon.
too_soon :
    resolve_session new_york (some thanksgiving) (some thanksgiving) 739946 (at_clock 739945 19 10)
    ≡ (739945, false)
unfolding resolve_session
too_soon = refl

-- A run before the close leaves the session late once its deadline is over.
late_run :
    (is_late to_utc (some (at_clock 739945 15 0)) 739945 3600 (at_clock 739945 17 0) ≡ true)
    × (is_late to_utc (some (at_clock 739945 16 0)) 739945 3600 (at_clock 739945 17 0) ≡ false)
    × (is_late to_utc none 739945 3600 (at_clock 739945 16 59) ≡ false)
unfolding is_late
late_run = (refl, refl, refl)

abbrev evening : ℕ
evening = at_clock 739945 19 10

resolve_session-Latest_example :
    let today = ordinal_of (new_york evening) in
    let reached = leb eod_expected_by (new_york evening % 86400) in
    let (s, counts) =
      resolve_session new_york
        (some thanksgiving)
        (some thanksgiving)
        (ordinal_of evening)
        evening in
    Latest thanksgiving (bound_of reached (ordinal_of evening) today) s
    × (counts ≡ (trades_today (some thanksgiving) today && reached))
unfolding is_trading_day
resolve_session-Latest_example =
    resolve_session-Latest new_york thanksgiving (ordinal_of evening) evening 739944 refl
      (omega arith) (omega arith)
