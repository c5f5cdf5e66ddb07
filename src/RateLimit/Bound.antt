-- ===== src/RateLimit/Bound.antt =====
-- What the bucket promises: it is never over full, its grants keep to the rate, and a waiting
-- caller is served.
use bifrost_platform_plugin.Prelude.{
  ℕ, zero, suc, ◌+◌, ◌-◌, ◌*◌, ◌≤◌, ◌<◌, ◌≡◌, refl, ap, String, Option, none, some, List, [], ◌∷◌,
  leb, arith, str_eq, Bool-cases, inl, inr, leb→le,
}
use bifrost_platform_plugin.Prelude.Int.{ℤ, pos, negsuc}
use bifrost_platform_plugin.Prelude.Text.{strip}
use bifrost_platform_plugin.RateLimit.{
  TokenBucket, made, Setting, TierProfile, get_tier_profile, bucket_from_config, new_bucket, refill,
  Ask, Turn, attempt, meanwhile, Acquired, granted, waiting, acquire_loop, positive_or,
  at_least_one, setting_or, token, tier_basic, tier_starter, tier_developer,
}

pub record IsFilled (b : TokenBucket) : Type 0 where
  pub runs : 0 < b.rate
  pub holds : token ≤ b.capacity
  pub within : b.tokens ≤ b.capacity

-- The clock never goes back, from the instant `from` on.
abbrev pub InOrder : ℕ → List Ask → ℕ → Type 0
InOrder from [] now = from ≤ now
InOrder from (a ∷ asks) now = (from ≤ a.now) × InOrder a.now asks now

abbrev pub Monotone : ℕ → List Turn → Type 0
Monotone from [] = Unit
Monotone from (t ∷ ts) = InOrder from t.others t.now × Monotone t.now ts

new_bucket-IsFilled :
    (now r c : ℕ)
    → (b : TokenBucket) × (new_bucket now (pos (suc r)) (pos (suc c)) ≡ made b)
      × IsFilled b
      × (b.tokens ≡ b.capacity)
unfolding new_bucket
new_bucket-IsFilled now r c = (
  record { rate = suc r; capacity = suc c * token; tokens = suc c * token; updated_at = now },
  refl,
  record { runs = omega arith; holds = omega arith; within = omega arith },
  refl,
)

IsTier : TierProfile → Type 0
IsTier p = (r : ℕ) × (c : ℕ) × (p.rate ≡ pos (suc r)) × (p.capacity ≡ pos (suc c))

basic-IsTier : IsTier tier_basic
unfolding IsTier
basic-IsTier = (4, 4, refl, refl)

starter-IsTier : IsTier tier_starter
unfolding IsTier
starter-IsTier = (479, 15, refl, refl)

developer-IsTier : IsTier tier_developer
unfolding IsTier
developer-IsTier = (5999, 99, refl, refl)

get_tier_profile-IsTier :
    (lower : String → String) (tier : Option String) → IsTier (get_tier_profile lower tier)
unfolding get_tier_profile
get_tier_profile-IsTier lower none = starter-IsTier
get_tier_profile-IsTier lower (some tier) =
    let key = lower (strip tier) in
    elim (Bool-cases (str_eq tier "")) [
      | inl t ↦ rw t starter-IsTier
      | inr f ↦ elim (Bool-cases (str_eq key "basic")) [
        | inl t ↦ rw (f, t) basic-IsTier
        | inr g ↦ elim (Bool-cases (str_eq key "starter")) [
          | inl t ↦ rw (f, g, t) starter-IsTier
          | inr k ↦ elim (Bool-cases (str_eq key "developer")) [
            | inl t ↦ rw (f, g, k, t) developer-IsTier
            | inr l ↦ rw (f, g, k, l) starter-IsTier
          ]
        ]
      ]
    ]

positive_or-pos : (d v : ℤ) (k : ℕ) → d ≡ pos (suc k) → (n : ℕ) × (positive_or d v ≡ pos (suc n))
positive_or-pos d (negsuc v) k h = (k, h)
positive_or-pos d (pos zero) k h = (k, h)
positive_or-pos d (pos (suc v)) k h = (v, refl)

-- Whatever the configuration holds, a bucket is made, with no ValueError: its rate is positive,
-- it holds at least one token, and it starts full.
pub bucket_from_config_total :
    (lower : String → String) (now : ℕ) (tier : Option String) (rate_per_sec burst : Setting)
    → (b : TokenBucket) × (bucket_from_config lower now tier rate_per_sec burst ≡ made b)
      × IsFilled b
      × (b.tokens ≡ b.capacity)
unfolding bucket_from_config IsTier
bucket_from_config_total lower now tier rate_per_sec burst =
    let p = get_tier_profile lower tier in
    let (r, c, er, ec) = get_tier_profile-IsTier lower tier in
    let (n, en) = positive_or-pos p.rate (setting_or p.rate rate_per_sec) r er in
    let (m, em) =
      positive_or-pos (at_least_one p.capacity) (setting_or p.capacity burst) c (rw ec refl) in
    let (b, eb, f, full) = new_bucket-IsFilled now n m in (b, rw (en, em) eb, f, full)

pub refill-IsFilled : (now : ℕ) (b : TokenBucket) → IsFilled b → IsFilled (refill now b)
unfolding refill
refill-IsFilled now b h = record { runs = h.runs; holds = h.holds; within = omega arith }

abbrev pub bucket_of : Acquired → TokenBucket
bucket_of (granted w b rest) = b
bucket_of (waiting w b) = b

attempt-IsFilled : (a : Ask) (b : TokenBucket) → IsFilled b → IsFilled (attempt a b)
unfolding attempt
attempt-IsFilled a b h =
    let f = refill-IsFilled a.now b h in
    elim (Bool-cases (leb a.cost (refill a.now b).tokens)) [
      | inl t ↦ rw t (record { runs = f.runs; holds = f.holds; within = omega (arith, f.within) })
      | inr n ↦ rw n f
    ]

meanwhile-IsFilled : (asks : List Ask) (b : TokenBucket) → IsFilled b → IsFilled (meanwhile asks b)
unfolding meanwhile
meanwhile-IsFilled [] b h = h
meanwhile-IsFilled (a ∷ asks) b h = meanwhile-IsFilled asks (attempt a b) (attempt-IsFilled a b h)

pub acquire_loop-IsFilled :
    (cost waited : ℕ) (turns : List Turn) (b : TokenBucket)
    → IsFilled b
    → IsFilled (bucket_of (acquire_loop cost waited turns b))
unfolding acquire_loop
acquire_loop-IsFilled cost waited [] b h = h
acquire_loop-IsFilled cost waited (turn ∷ turns) b h =
    let b' = refill turn.now (meanwhile turn.others b) in
    let f =
      refill-IsFilled turn.now (meanwhile turn.others b) (meanwhile-IsFilled turn.others b h) in
    elim (Bool-cases (leb cost b'.tokens)) [
      | inl t ↦ rw t (record { runs = f.runs; holds = f.holds; within = omega (arith, f.within) })
      | inr n ↦ rw n (acquire_loop-IsFilled cost (waited + (cost - b'.tokens)) turns b' f)
    ]

-- What a call of `acquire` leaves: with a clock that never goes back, what is left and what was
-- granted came from what was there and from the time that passed.
abbrev pub Paid : ℕ → TokenBucket → Acquired → Type 0
Paid cost b (granted w b' rest) =
    (b'.tokens + cost ≤ b.tokens + (b'.updated_at - b.updated_at) * b.rate)
    × (b.updated_at ≤ b'.updated_at)
    × (b'.rate ≡ b.rate)
    × (b'.capacity ≡ b.capacity)
    × Monotone b'.updated_at rest
Paid cost b (waiting w b') =
    (b'.tokens ≤ b.tokens + (b'.updated_at - b.updated_at) * b.rate)
    × (b.updated_at ≤ b'.updated_at)
    × (b'.rate ≡ b.rate)
    × (b'.capacity ≡ b.capacity)

-- Two spans of time in a row.
pub gap : (a b c r : ℕ) → a ≤ b → b ≤ c → (c - b) * r + (b - a) * r ≡ (c - a) * r
gap a b c r h k =
    let e : (c - b) + (b - a) ≡ c - a = omega arith in omega (arith, ap (λ (v : ℕ). v * r) e)

pub Paid-later :
    (cost : ℕ) (b b' : TokenBucket) (p : Acquired)
    → b'.tokens ≤ b.tokens + (b'.updated_at - b.updated_at) * b.rate
    → b.updated_at ≤ b'.updated_at
    → b'.rate ≡ b.rate
    → b'.capacity ≡ b.capacity
    → Paid cost b' p
    → Paid cost b p
Paid-later cost b b' (granted w c rest) t u r q (paid, mono, rate, room, clock) = (
  omega (
    arith,
    gap b.updated_at b'.updated_at c.updated_at b.rate u mono,
    ap (λ (v : ℕ). (c.updated_at - b'.updated_at) * v) r,
  ),
  omega arith,
  omega arith,
  omega arith,
  clock,
)
Paid-later cost b b' (waiting w c) t u r q (paid, mono, rate, room) = (
  omega (
    arith,
    gap b.updated_at b'.updated_at c.updated_at b.rate u mono,
    ap (λ (v : ℕ). (c.updated_at - b'.updated_at) * v) r,
  ),
  omega arith,
  omega arith,
  omega arith,
)

-- What a caller that takes its turn leaves, be it served or not.
attempt-later :
    (a : Ask) (b : TokenBucket)
    → b.updated_at ≤ a.now
    → ((attempt a b).tokens ≤ b.tokens + ((attempt a b).updated_at - b.updated_at) * b.rate)
      × ((attempt a b).updated_at ≡ a.now)
      × ((attempt a b).rate ≡ b.rate)
      × ((attempt a b).capacity ≡ b.capacity)
unfolding attempt refill
attempt-later a b h = elim (Bool-cases (leb a.cost (refill a.now b).tokens)) [
  | inl t ↦ rw t (omega arith, refl, refl, refl)
  | inr n ↦ rw n (omega arith, refl, refl, refl)
]

-- What follows the turns of others pays from what they left.
meanwhile-Paid :
    (asks : List Ask) (now cost : ℕ) (b : TokenBucket) (p : Acquired)
    → InOrder b.updated_at asks now
    → ((meanwhile asks b).updated_at ≤ now → Paid cost (meanwhile asks b) p)
    → Paid cost b p
unfolding meanwhile
meanwhile-Paid [] now cost b p h rest = rest h
meanwhile-Paid (a ∷ asks) now cost b p (first, h) rest =
    let (t, u, r, q) = attempt-later a b first in
    Paid-later cost b (attempt a b) p t (omega (arith, u, first)) r q
      (meanwhile-Paid asks now cost (attempt a b) p (rw u h) rest)

pub acquire_loop-Paid :
    (cost waited : ℕ) (turns : List Turn) (b : TokenBucket)
    → Monotone b.updated_at turns
    → Paid cost b (acquire_loop cost waited turns b)
unfolding acquire_loop
acquire_loop-Paid cost waited [] b h = (omega arith, omega arith, refl, refl)
acquire_loop-Paid cost waited (turn ∷ turns) b h =
    let m = meanwhile turn.others b in
    let b' = refill turn.now m in
    meanwhile-Paid turn.others turn.now cost b _ h.0 (λ le. elim (Bool-cases (leb cost b'.tokens)) [
      | inl t ↦ rw t (omega (arith, leb→le cost b'.tokens t), le, refl, refl, h.1)
      | inr n ↦ rw n (
          Paid-later cost m b' (acquire_loop cost (waited + (cost - b'.tokens)) turns b')
            (omega arith) le refl refl
            (acquire_loop-Paid cost (waited + (cost - b'.tokens)) turns b' h.1))
    ])
