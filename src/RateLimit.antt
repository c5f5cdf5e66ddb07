-- ===== src/RateLimit.antt =====
-- polygon/rate_limit.py: the tiers and the token bucket. The floats are scaled: an instant is a
-- whole microsecond of `time.monotonic`, and a token is 60,000,000 units, so that the tiers' rates
-- of 5/60, 8 and 100 tokens a second are 5, 480 and 6,000 units a microsecond.
pub mod Bound
pub mod Rate
mod Tests
use bifrost_platform_plugin.Prelude.{
  ℕ, zero, suc, ◌+◌, ◌-◌, ◌*◌, String, Option, none, some, List, [], ◌∷◌, Bool, true, false, str_eq,
  ltb, leb, ◌==◌, if◌then◌else◌, min, max,
}
use bifrost_platform_plugin.Prelude.Int.{ℤ, pos, negsuc}
use bifrost_platform_plugin.Prelude.Text.{strip}

abbrev pub token : ℕ
token = 60000000

-- `capacity` counts tokens, `rate` units a microsecond. Both may be read from the configuration
-- and may be negative there.
pub record TierProfile : Type 0 where
  pub name : String
  pub rate : ℤ
  pub capacity : ℤ

abbrev pub tier_basic : TierProfile
tier_basic = record { name = "basic"; rate = pos 5; capacity = pos 5 }

abbrev pub tier_starter : TierProfile
tier_starter = record { name = "starter"; rate = pos 480; capacity = pos 16 }

abbrev pub tier_developer : TierProfile
tier_developer = record { name = "developer"; rate = pos 6000; capacity = pos 100 }

-- `lower` is `str.lower`. A missing or empty tier is the starter's.
unfoldable pub get_tier_profile : (String → String) → Option String → TierProfile
unfolding strip
get_tier_profile lower none = tier_starter
get_tier_profile lower (some tier) =
    let key = lower (strip tier) in
    if str_eq tier ""
    then tier_starter
    else if str_eq key "basic"
    then tier_basic
    else if str_eq key "starter"
    then tier_starter
    else if str_eq key "developer"
    then tier_developer
    else tier_starter

pub data BadValue : Type 0 where
  rate_not_positive capacity_below_one : BadValue

pub record TokenBucket : Type 0 where
  pub rate : ℕ
  pub capacity : ℕ
  pub tokens : ℕ
  pub updated_at : ℕ

pub data Made : Type 0 where
  made : TokenBucket → Made
  value_error : BadValue → Made

-- `TokenBucket.__init__` at the instant `now`.
unfoldable pub new_bucket : ℕ → ℤ → ℤ → Made
new_bucket now (negsuc r) c = value_error rate_not_positive
new_bucket now (pos zero) c = value_error rate_not_positive
new_bucket now (pos (suc r)) (negsuc c) = value_error capacity_below_one
new_bucket now (pos (suc r)) (pos zero) = value_error capacity_below_one
new_bucket now (pos (suc r)) (pos (suc c)) =
    made
      (record { rate = suc r; capacity = suc c * token; tokens = suc c * token; updated_at = now })

-- A setting of the `polygon` block: missing, not a number, or a number.
pub data Setting : Type 0 where
  missing unreadable : Setting
  value : ℤ → Setting

abbrev pub setting_or : ℤ → Setting → ℤ
setting_or d missing = d
setting_or d unreadable = d
setting_or d (value v) = v

abbrev pub positive_or : ℤ → ℤ → ℤ
positive_or d (negsuc n) = d
positive_or d (pos zero) = d
positive_or d (pos (suc n)) = pos (suc n)

abbrev pub at_least_one : ℤ → ℤ
at_least_one (negsuc n) = pos 1
at_least_one (pos zero) = pos 1
at_least_one (pos (suc n)) = pos (suc n)

unfoldable pub bucket_from_config : (String → String) → ℕ → Option String → Setting → Setting → Made
unfolding get_tier_profile new_bucket
bucket_from_config lower now tier rate_per_sec burst =
    let profile = get_tier_profile lower tier in
    let rate = setting_or profile.rate rate_per_sec in
    let capacity = setting_or profile.capacity burst in
    new_bucket now (positive_or profile.rate rate)
      (positive_or (at_least_one profile.capacity) capacity)

unfoldable pub refill : ℕ → TokenBucket → TokenBucket
refill now b = record b {
  tokens = min b.capacity (b.tokens + (now - b.updated_at) * b.rate);
  updated_at = now;
}

-- What another caller does under the lock at an instant: it takes its tokens if they are there.
pub record Ask : Type 0 where
  pub now : ℕ
  pub cost : ℕ

unfoldable pub attempt : Ask → TokenBucket → TokenBucket
unfolding refill
attempt a b =
    let b' = refill a.now b in
    if leb a.cost b'.tokens then record b' { tokens = b'.tokens - a.cost } else b'

unfoldable pub meanwhile : List Ask → TokenBucket → TokenBucket
unfolding attempt
meanwhile [] b = b
meanwhile (a ∷ asks) b = meanwhile asks (attempt a b)

-- A round of `acquire`: what others did since the lock was last its own, and its reading of the
-- clock.
pub record Turn : Type 0 where
  pub others : List Ask
  pub now : ℕ

-- What `acquire` has done when the rounds that it was given are used up.
pub data Acquired : Type 0 where
  granted : (waited : ℕ) → TokenBucket → (rest : List Turn) → Acquired
  waiting : (waited : ℕ) → TokenBucket → Acquired

-- The `while True` of `acquire`. The lock is given back for the sleep. `waited` counts units: a
-- sleep of `deficit / rate` seconds adds the deficit.
unfoldable pub acquire_loop : ℕ → ℕ → List Turn → TokenBucket → Acquired
unfolding refill meanwhile
acquire_loop cost waited [] b = waiting waited b
acquire_loop cost waited (turn ∷ turns) b =
    let b' = refill turn.now (meanwhile turn.others b) in
    let rest = acquire_loop cost (waited + (cost - b'.tokens)) turns b' in
    if leb cost b'.tokens
    then granted waited (record b' { tokens = b'.tokens - cost }) turns
    else rest

unfoldable pub acquire : ℤ → List Turn → TokenBucket → Acquired
unfolding acquire_loop
acquire (negsuc n) turns b = granted 0 b turns
acquire (pos zero) turns b = granted 0 b turns
acquire (pos (suc n)) turns b = acquire_loop (suc n) 0 turns b
