-- ===== src/Calendar.antt =====
-- trading_calendar.py: which days the market trades. A date is its ordinal (`date.toordinal`), so
-- that subtracting a day is subtracting one; the first representable date is never reached by the
-- bounded walks from a date of this century.
pub mod Walk
pub mod Sessions
mod Tests
use bifrost_platform_plugin.Prelude.{
  ℕ, zero, suc, ◌+◌, ◌-◌, ◌*◌, ◌%◌, String, Option, none, some, List, [], ◌∷◌, ◌++◌, Bool, true,
  false, not, ◌&&◌, has, keep, length, map, str_eq, ltb, leb, ◌==◌, if◌then◌else◌, max,
}
use bifrost_platform_plugin.Prelude.Sorting.{sort_by}

abbrev pub Date : Type 0
Date = ℕ

-- `date.weekday`: Monday is 0, and day 1 was a Monday.
abbrev pub weekday : Date → ℕ
weekday d = (d + 6) % 7

-- A row of raw_market.us_market_holiday.
pub record Holiday : Type 0 where
  pub exchange : String
  pub holiday_date : Date
  pub status : String

abbrev pub closes : Holiday → Bool
closes h = str_eq h.exchange "NYSE" && str_eq h.status "closed"

-- What a query finds: the table's rows, or none where the driver raised.
abbrev pub Read : Type 0
Read = Option (List Holiday)

abbrev pub from_bound : Option Date → Holiday → Bool
from_bound none h = true
from_bound (some start) h = leb start h.holiday_date

abbrev pub to_bound : Option Date → Holiday → Bool
to_bound none h = true
to_bound (some end) h = leb h.holiday_date end

unfoldable pub fetch_closed_holiday_dates : Read → Option Date → Option Date → List Date
fetch_closed_holiday_dates none start end = []
fetch_closed_holiday_dates (some rows) start end =
    map (λ h. h.holiday_date) (keep (λ h. closes h && from_bound start h && to_bound end h) rows)

-- None where the query raised.
unfoldable pub is_trading_day : Read → Date → Option Bool
is_trading_day read d = if leb 5 (weekday d) then some false else elim read [
  | none ↦ none
  | some rows ↦ some (not (has (λ h. closes h && h.holiday_date == d) rows))
]

-- cur_d.weekday() < 5 and cur_d not in closed_set
unfoldable pub is_open : List Date → Date → Bool
is_open closed d = ltb (weekday d) 5 && not (has (λ c. c == d) closed)

-- The `while` of `iter_weekdays_excluding`: `steps` is what is left of `max_steps - guard`.
unfoldable pub walk_back : ℕ → ℕ → List Date → Date → List Date → List Date
unfolding is_open
walk_back zero n closed cur_d out = out
walk_back (suc steps) n closed cur_d out =
    let rest =
      walk_back steps n closed (cur_d - 1)
        (if is_open closed cur_d then out ++ cur_d ∷ [] else out) in
    if ltb (length out) n then rest else out

abbrev pub max_steps : ℕ → ℕ
max_steps n = max (n * 4) (n + 60)

unfoldable pub iter_weekdays_excluding : Date → ℕ → List Date → List Date
unfolding walk_back
iter_weekdays_excluding end n closed = sort_by leb (walk_back (max_steps n) n closed end [])

unfoldable pub fetch_recent_trading_days : Read → ℕ → Date → List Date
unfolding iter_weekdays_excluding fetch_closed_holiday_dates
fetch_recent_trading_days read n as_of =
    let lookback_start = as_of - max_steps n in
    iter_weekdays_excluding as_of n
      (fetch_closed_holiday_dates read (some lookback_start) (some as_of))

-- The `while d <= end_d` of `expected_trading_days`, over the days that are left.
unfoldable pub walk_on : ℕ → List Date → Date → List Date
unfolding is_open
walk_on zero closed d = []
walk_on (suc left) closed d =
    let rest = walk_on left closed (d + 1) in if is_open closed d then d ∷ rest else rest

unfoldable pub expected_trading_days : Read → Date → Date → List Date
unfolding walk_on fetch_closed_holiday_dates
expected_trading_days read start end =
    if ltb end start
    then []
    else walk_on (end + 1 - start) (fetch_closed_holiday_dates read (some start) (some end)) start

abbrev pub last_or : Date → List Date → Date
last_or d [] = d
last_or d (x ∷ xs) = last_or x xs

-- The New York date and whether its clock has reached 09:30 come from the caller's instant. None
-- where the query of `is_trading_day` raised, which nothing catches.
unfoldable pub chain_session : Read → Date → Bool → Option Date
unfolding is_trading_day fetch_recent_trading_days
chain_session read today reached_open =
    let days = fetch_recent_trading_days read 2 today in
    let prior = keep (λ d. ltb d today) days in
    let earlier : Option Date = elim prior [
      | [] ↦ some (last_or today days)
      | p ∷ ps ↦ some (last_or p ps)
    ] in
    if reached_open
    then elim (is_trading_day read today) [
      | none ↦ none
      | some b ↦ if b then some today else earlier
    ]
    else earlier
