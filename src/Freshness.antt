-- ===== src/Freshness.antt =====
-- freshness.py: which dimension and which policed slot a job is evidence for, and what its result
-- says was written. PostgreSQL's `->>` and Python's `int` of a text are arguments where they are
-- not written out.
pub mod Shape
pub mod Counts
mod Tests
use bifrost_platform_plugin.Prelude.{
  ℕ, zero, suc, String, Option, none, some, List, [], ◌∷◌, Bool, true, false, not, ◌&&◌, ◌||◌,
  str_eq, if◌then◌else◌,
}
use bifrost_platform_plugin.Prelude.Int.{ℤ, pos, negsuc}
use bifrost_platform_plugin.Prelude.Text.{strip}
use bifrost_platform_plugin.Json.{
  Json, null, bool, num, str, arr, obj, Fields, end, field, get, truthy,
}

-- _DIMENSION_ALIASES
abbrev pub dimension_aliases : List (String × String)
dimension_aliases =
    ("stock_daily_grouped", "stock_daily")
    ∷ ("splits_market", "splits")
    ∷ ("dividends_market", "dividends")
    ∷ ("ratios_market", "ratios")
    ∷ ("short_volume_market", "short_volume")
    ∷ ("short_interest_market", "short_interest")
    ∷ ("sec_filings_market", "sec_filings")
    ∷ ("sec_filings_symbol", "sec_filings")
    ∷ ("option_backfill_plan", "option_daily")
    ∷ []

abbrev pub alias_of : String → List (String × String) → String
alias_of key [] = key
alias_of key (a ∷ rest) = if str_eq a.0 key then a.1 else alias_of key rest

unfoldable pub dimension_for_kind : String → String
unfolding strip
dimension_for_kind kind = alias_of (strip kind) dimension_aliases

abbrev pub is_text : String → Json → Bool
is_text t (str s) = str_eq s t
is_text t _ = false

-- `v is not False`
abbrev pub not_false : Json → Bool
not_false (bool b) = b
not_false _ = true

unfoldable pub policed_slot_of_option_contract : Fields → Option String
unfolding get
policed_slot_of_option_contract payload =
    if not_false (get "expired" payload)
    then none
    else if truthy (get "expiration_date" payload)
        || truthy (get "expiration_date_gte" payload)
        || truthy (get "expiration_date_lte" payload)
    then none
    else some "option-refresh"

unfoldable pub policed_slot_for_job : String → Fields → Option String
unfolding strip get policed_slot_of_option_contract
policed_slot_for_job kind payload =
    let k = strip kind in
    if str_eq k "calendar"
    then some "calendar"
    else if str_eq k "ticker_sync"
    then (if is_text "universe" (get "mode" payload)
        then some "reference"
        else if is_text "detail" (get "mode" payload)
        then some "ticker-details"
        else none)
    else if str_eq k "option_contract"
    then policed_slot_of_option_contract payload
    else if str_eq k "dividends_market" || str_eq k "splits_market"
    then some "corporate"
    else if str_eq k "financials"
    then some "fundamentals-rotate"
    else none

-- `payload->>'key'`: NULL for a missing key and for null. `print` is the text of a number, an array
-- or an object.
module _ (print : Json → String) where
  abbrev pub column : Json → Option String
  column null = none
  column (bool true) = some "true"
  column (bool false) = some "false"
  column (num n) = some (print (num n))
  column (str s) = some s
  column (arr xs) = some (print (arr xs))
  column (obj fs) = some (print (obj fs))

  abbrev pub is_given : Json → Bool
  is_given v = elim (column v) [ none ↦ false | some t ↦ true ]

  -- The row of JOB_SHAPE_COLUMNS_SQL: mode, expired and dated.
  abbrev pub shape_of : Fields → Option String × Option String × Bool
  unfolding get
  shape_of p = (
    column (get "mode" p),
    column (get "expired" p),
    is_given (get "expiration_date" p)
        || is_given (get "expiration_date_gte" p)
        || is_given (get "expiration_date_lte" p),
  )

abbrev pub mode_fields : Option String → Fields → Fields
mode_fields none rest = rest
mode_fields (some m) rest = field "mode" (str m) rest

-- {"true": True, "false": False}.get(str(expired), expired)
abbrev pub flag_of : String → Json
flag_of t = if str_eq t "true" then bool true else if str_eq t "false" then bool false else str t

abbrev pub expired_fields : Option String → Fields → Fields
expired_fields none rest = rest
expired_fields (some t) rest = field "expired" (flag_of t) rest

unfoldable pub payload_from_shape : Option String → Option String → Bool → Fields
payload_from_shape mode expired dated =
    mode_fields mode (
      expired_fields expired (if dated then field "expiration_date_gte" (str "dated") end else end))

abbrev pub nonnegative : ℤ → ℕ
nonnegative (pos n) = n
nonnegative (negsuc n) = 0

-- max(0, int(raw)), and 0 where `int` raises. `int_of_text` is `int` of a text.
module _ (int_of_text : String → Option ℤ) where
  abbrev pub count_of : Json → ℕ
  count_of null = 0
  count_of (bool true) = 1
  count_of (bool false) = 0
  count_of (num n) = nonnegative n
  count_of (str s) = elim (int_of_text s) [ none ↦ 0 | some n ↦ nonnegative n ]
  count_of (arr xs) = 0
  count_of (obj fs) = 0

  unfoldable pub rows_written_from_result : Option Fields → ℕ
  unfolding get
  rows_written_from_result none = 0
  rows_written_from_result (some result) = count_of (get "rows_written" result)

  -- A dict of counts: an entry that is written again keeps its place.
  abbrev pub set_count : String → ℕ → List (String × ℕ) → List (String × ℕ)
  set_count key n [] = (key, n) ∷ []
  set_count key n (e ∷ rest) =
      let later = set_count key n rest in if str_eq e.0 key then (e.0, n) ∷ rest else e ∷ later

  unfoldable pub extra_counts : Fields → List (String × ℕ) → List (String × ℕ)
  unfolding strip
  extra_counts end out = out
  extra_counts (field dim rows rest) out =
      let key = strip dim in
      extra_counts rest (if str_eq key "" then out else set_count key (count_of rows) out)

  unfoldable pub extra_freshness_from_result : Option Fields → List (String × ℕ)
  unfolding get extra_counts
  extra_freshness_from_result none = []
  extra_freshness_from_result (some result) = elim (get "freshness_extra" result) [
    | obj fs ↦ extra_counts fs []
    | _ ↦ []
  ]
