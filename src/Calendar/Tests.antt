-- ===== src/Calendar/Tests.antt =====
-- The week of Thanksgiving 2026: Thursday 26 November (ordinal 739946) is closed.
use bifrost_platform_plugin.Prelude.{
  ◌≤◌, ◌≡◌, refl, some, List, [], ◌∷◌, true, In, here, there, ◌↔◌,
}
use bifrost_platform_plugin.Calendar.{
  Date, weekday, Holiday, is_trading_day, fetch_recent_trading_days, expected_trading_days,
  chain_session,
}
use bifrost_platform_plugin.Calendar.Sessions.{
  fetch_recent_trading_days_trade, expected_trading_days_exact,
}

abbrev thanksgiving : Date
thanksgiving = 739946

abbrev holidays : List Holiday
holidays =
    record { exchange = "NYSE"; holiday_date = thanksgiving; status = "closed" }
    ∷ record { exchange = "NYSE"; holiday_date = 739947; status = "early-close" }
    ∷ []

thursday : weekday thanksgiving ≡ 3
thursday = refl

recent : fetch_recent_trading_days (some holidays) 3 739949 ≡ 739944 ∷ 739945 ∷ 739947 ∷ []
unfolding fetch_recent_trading_days
recent = refl

-- On the holiday itself the chain still shows Wednesday.
wednesday : chain_session (some holidays) thanksgiving true ≡ some 739945
unfolding chain_session
wednesday = refl

fetch_recent_trading_days_trade_example :
    (is_trading_day (some holidays) 739947 ≡ some true) × (739947 ≤ 739949)
unfolding fetch_recent_trading_days
fetch_recent_trading_days_trade_example =
    fetch_recent_trading_days_trade holidays 3 739949 739947 (there (there (here refl)))

expected_trading_days_exact_example :
    In 739945 (expected_trading_days (some holidays) 739940 739949)
    ↔ ((739940 ≤ 739945) × (739945 ≤ 739949) × (is_trading_day (some holidays) 739945 ≡ some true))
expected_trading_days_exact_example = expected_trading_days_exact holidays 739940 739949 739945
