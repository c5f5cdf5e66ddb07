-- ===== src/Cron.antt =====
-- scheduler/cronutil.py: five-field cron expressions, read in a zone, and the UTC instants at which
-- they fire. A date is the number of days since 0001-01-01, a wall time and an instant the seconds
-- since then. none stands for a ValueError or an OverflowError.
pub mod Text
pub mod Parse
pub mod Bounds
pub mod Walk
pub mod Instants
pub mod Fires
pub mod Around
mod Tests
use bifrost_platform_plugin.Prelude.{
  ℕ, zero, suc, ◌+◌, ◌-◌, ◌*◌, ◌/◌, ◌%◌, max, String, Option, none, some, List, [], ◌∷◌, ◌++◌, Bool,
  true, false, not, ◌&&◌, ◌||◌, keep, has, take, ltb, leb, ◌==◌, if◌then◌else◌, str_eq,
}
use bifrost_platform_plugin.Prelude.Sorting.{sort_by}
use bifrost_platform_plugin.Dates.{month_of, day_of_month, weekday}
use bifrost_platform_plugin.Cron.Text.{range}
use bifrost_platform_plugin.Cron.Parse.{Fields, parse_exprs}

-- `values is None or v in values`
abbrev pub allowed : Option (List ℕ) → ℕ → Bool
allowed none v = true
allowed (some values) v = has (λ w. v == w) values

abbrev pub is_given : Option (List ℕ) → Bool
is_given none = false
is_given (some values) = true

unfoldable pub day_matches : ℕ → Fields → Bool
unfolding month_of day_of_month weekday
day_matches day f =
    let dom_ok = allowed f.doms (day_of_month day) in
    let dow_ok = allowed f.dows ((weekday day + 1) % 7) in
    if not (allowed f.months (month_of day))
    then false
    else if is_given f.doms && is_given f.dows
    then dom_ok || dow_ok
    else dom_ok && dow_ok

abbrev pub date_of : ℕ → ℕ
date_of wall = wall / 86400

abbrev pub hour_of : ℕ → ℕ
hour_of wall = wall / 3600 % 24

abbrev pub minute_of : ℕ → ℕ
minute_of wall = wall / 60 % 60

unfoldable pub matches : ℕ → Fields → Bool
unfolding day_matches
matches wall f =
    if not (allowed f.minutes (minute_of wall))
    then false
    else if not (allowed f.hours (hour_of wall))
    then false
    else day_matches (date_of wall) f

-- A zone is UTC, or what a tzinfo answers: the wall time at an instant, and the instant of a wall
-- time with a fold.
pub data Zone : Type 0 where
  utc : Zone
  named : (local : ℕ → ℕ) (instant : Bool → ℕ → ℕ) → Zone

-- `instant.astimezone(zone)`
abbrev pub local_of : Zone → ℕ → ℕ
local_of utc t = t
local_of (named local instant) t = local t

pub data Tz : Type 0 where
  absent : Tz
  key : String → Tz
  info : Zone → Tz

-- The loop body of `_instants`, for one fold.
abbrev pub add_instant : (ℕ → ℕ) → (Bool → ℕ → ℕ) → ℕ → Bool → List ℕ → List ℕ
add_instant local instant wall fold out =
    let t = instant fold wall in
    if local t == wall && t % 60 == 0 && not (has (λ u. t == u) out) then out ++ (t ∷ []) else out

unfoldable pub instants : ℕ → Zone → List ℕ
instants wall utc = wall ∷ []
instants wall (named local instant) =
    add_instant local instant wall true (add_instant local instant wall false [])

-- A `for` loop that changes a state.
abbrev pub each {ℓ κ} : {A : Type ℓ} {S : Type κ} → (A → S → S) → List A → S → S
each f [] s = s
each f (x ∷ xs) s = each f xs (f x s)

-- `fires.add`, within the window.
abbrev pub add_fire : ℕ → ℕ → ℕ → List ℕ → List ℕ
add_fire start end t fires =
    if leb start t && ltb t end && not (has (λ u. t == u) fires) then t ∷ fires else fires

abbrev pub values_or : Option (List ℕ) → ℕ → List ℕ
values_or none n = range 0 n
values_or (some values) n = sort_by leb values

abbrev pub wall_at : ℕ → ℕ → ℕ → ℕ
wall_at day hour minute = day * 86400 + hour * 3600 + minute * 60

module _ (zone : Zone) (start end : ℕ) where
  unfoldable pub add_minute : ℕ → ℕ → ℕ → List ℕ → List ℕ
  unfolding instants
  add_minute day hour minute fires =
      each (add_fire start end) (instants (wall_at day hour minute) zone) fires

  unfoldable pub add_fields : ℕ → Fields → List ℕ → List ℕ
  unfolding add_minute day_matches
  add_fields day f fires =
      if not (day_matches day f)
      then fires
      else each (λ hour. each (add_minute day hour) (values_or f.minutes 60)) (values_or f.hours 24)
          fires

  unfoldable pub add_day : List Fields → ℕ → List ℕ → List ℕ
  unfolding add_fields
  add_day parsed day fires = each (add_fields day) parsed fires

  -- `first_day` to `last_day`, both included.
  abbrev pub days : List ℕ
  days =
      let first_day = date_of (local_of zone start) in
      let last_day = date_of (local_of zone end) in range first_day (last_day + 1 - first_day)

  unfoldable pub walk_days : List Fields → List ℕ
  unfolding add_day
  walk_days parsed = sort_by leb (each (add_day parsed) days [])

-- `_zone`; `load` is ZoneInfo.
unfoldable pub zone_of : (String → Zone) → Tz → Zone
zone_of load absent = utc
zone_of load (key name) = if str_eq name "" || str_eq name "UTC" then utc else load name
zone_of load (info zone) = zone

abbrev option_map {ℓ κ} : {A : Type ℓ} {B : Type κ} → (A → B) → Option A → Option B
option_map f none = none
option_map f (some a) = some (f a)

unfoldable pub iter_cron_fires : Zone → List String → ℕ → ℕ → Option (List ℕ)
unfolding walk_days parse_exprs
iter_cron_fires zone exprs start end =
    if leb end start then some [] else option_map (walk_days zone start end) (parse_exprs exprs)

-- Whether some expression restricts the day of the month or the month.
abbrev pub restricts_day : List Fields → Bool
restricts_day parsed = has (λ f. is_given f.doms || is_given f.months) parsed

abbrev pub horizon : ℕ → ℕ → List Fields → ℕ
horizon least days parsed = if restricts_day parsed then max days least else days

abbrev pub next_within : Zone → List String → ℕ → ℕ → ℕ → Option (List Fields) → Option (List ℕ)
next_within zone exprs after count horizon_days none = none
next_within zone exprs after count horizon_days (some parsed) =
    option_map (take count)
      (iter_cron_fires zone exprs (after + 60) (after + 86400 * horizon 62 horizon_days parsed))

unfoldable pub next_fires : Zone → List String → ℕ → ℕ → ℕ → Option (List ℕ)
unfolding iter_cron_fires
next_fires zone exprs after count horizon_days =
    next_within zone exprs after count horizon_days (parse_exprs exprs)

-- `fires[-1] if fires else None`
abbrev pub last_of {ℓ} : {A : Type ℓ} → List A → Option A
last_of [] = none
last_of (x ∷ []) = some x
last_of (x ∷ y ∷ ys) = last_of (y ∷ ys)

abbrev pub previous_within : Zone → List String → ℕ → ℕ → Option (List Fields) → Option (Option ℕ)
previous_within zone exprs before lookback_days none = none
previous_within zone exprs before lookback_days (some parsed) =
    let seconds = 86400 * horizon 32 lookback_days parsed in
    if ltb before seconds
    then none
    else option_map last_of (iter_cron_fires zone exprs (before - seconds) before)

unfoldable pub previous_fire : Zone → List String → ℕ → ℕ → Option (Option ℕ)
unfolding iter_cron_fires
previous_fire zone exprs before lookback_days =
    previous_within zone exprs before lookback_days (parse_exprs exprs)
