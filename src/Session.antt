-- ===== src/Session.antt =====
-- session.py, and fetch_completed_trading_days of quality.py: the session that the tables should hold
-- by now. An instant is the seconds since 0001-01-01 in UTC; a date is its ordinal, as in Calendar.
-- What a zone makes of an instant and of a wall time is an argument.
pub mod Current
mod Tests
use bifrost_platform_plugin.Prelude.{
  ℕ, ◌+◌, ◌-◌, ◌*◌, ◌/◌, ◌%◌, Option, none, some, List, [], ◌∷◌, Bool, true, false, not, ◌&&◌, ◌||◌,
  keep, drop, length, ltb, leb, ◌==◌, if◌then◌else◌,
}
use bifrost_platform_plugin.Calendar.{
  Date, Read, weekday, is_trading_day, fetch_recent_trading_days, last_or,
}

-- The seconds of a day up to 19:30 and to 16:00.
abbrev pub eod_expected_by : ℕ
eod_expected_by = 70200

abbrev pub market_close : ℕ
market_close = 57600

abbrev pub ordinal_of : ℕ → Date
ordinal_of t = t / 86400 + 1

-- `days[:-1]` and `days[-n:]`
abbrev pub but_last : List Date → List Date
but_last [] = []
but_last (d ∷ []) = []
but_last (d ∷ e ∷ ds) = d ∷ but_last (e ∷ ds)

abbrev pub last_n : ℕ → List Date → List Date
last_n n ds = drop (length ds - n) ds

abbrev pub ends_in : Date → List Date → Bool
ends_in end [] = false
ends_in end (d ∷ ds) = last_or d ds == end

abbrev pub without_open : Bool → Date → List Date → List Date
without_open live_probe end days = if live_probe && ends_in end days then but_last days else days

abbrev pub at_most : ℕ → List Date → List Date
at_most n days = if ltb n (length days) then last_n n days else days

-- `today` is the date of UTC.
unfoldable pub fetch_completed_trading_days : Read → ℕ → Date → Date → List Date
unfolding fetch_recent_trading_days
fetch_completed_trading_days read n today as_of =
    let live_probe = leb today as_of in
    at_most n (
      without_open live_probe as_of
        (fetch_recent_trading_days read (n + (if live_probe then 1 else 0)) as_of))

-- The two queries may raise, and each by itself: `probe` is what the first of them finds.
unfoldable pub trades_today : Read → Date → Bool
unfolding is_trading_day
trades_today probe today = elim (is_trading_day probe today) [
  | none ↦ ltb (weekday today) 5
  | some b ↦ b
]

abbrev pub last_completed : Date → Bool → List Date → Date × Bool
last_completed today trading [] = (today, trading)
last_completed today trading (d ∷ ds) = (last_or d ds, false)

abbrev pub current_session : Bool → Bool → Date → List Date → Date × Bool
current_session trading reached today completed =
    if trading && reached then (today, true) else last_completed today trading completed

-- `utc_today` is what the clock says when fetch_completed_trading_days reads it.
unfoldable pub resolve_session : (ℕ → ℕ) → Read → Read → Date → ℕ → Date × Bool
unfolding trades_today fetch_completed_trading_days
resolve_session new_york probe read utc_today now =
    let now_ny = new_york now in
    let today_ny = ordinal_of now_ny in
    current_session (trades_today probe today_ny) (leb eod_expected_by (now_ny % 86400)) today_ny
      (fetch_completed_trading_days read 1 utc_today today_ny)

-- `to_utc` gives the instant of a wall time in New York.
unfoldable pub session_close : (ℕ → ℕ) → Date → ℕ
session_close to_utc session = to_utc ((session - 1) * 86400 + market_close)

unfoldable pub deadline : (ℕ → ℕ) → Date → ℕ → ℕ
unfolding session_close
deadline to_utc session seconds = session_close to_utc session + seconds

unfoldable pub is_late : (ℕ → ℕ) → Option ℕ → Date → ℕ → ℕ → Bool
unfolding deadline
is_late to_utc last_run_at session seconds now =
    if ltb now (deadline to_utc session seconds)
    then false
    else elim last_run_at [ none ↦ true | some at ↦ ltb at (session_close to_utc session) ]
