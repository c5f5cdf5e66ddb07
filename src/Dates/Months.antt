-- ===== src/Dates/Months.antt =====
-- The months of the calendar: where they begin, and that 32 days after a first is the next month.
use bifrost_platform_plugin.Prelude.{
  ℕ, ◌+◌, ◌-◌, ◌*◌, ◌/◌, ◌≤◌, ◌<◌, ◌≡◌, refl, sym, ap, ◌∙◌, ltb, if◌then◌else◌, arith, ◌⊎◌, inl,
  inr, Bool-cases,
}
use bifrost_platform_plugin.Dates.{
  cycle_day, year_day, march_month, march_year, month_first, next_month, day_of_month,
}

-- Days before a year, and before a month of it, both counted from March.
abbrev pub before_year : ℕ → ℕ
before_year y = 365 * y + y / 4 - y / 100 + y / 400

abbrev pub before_month : ℕ → ℕ
before_month m = (153 * m + 2) / 5

cycle_year_bounds :
    (c : ℕ)
    → c < 146097
    → let y = (c - c / 1460 + c / 36524 - c / 146096) / 365 in
      (365 * y + y / 4 - y / 100 ≤ c)
      × (c < 365 * (y + 1) + (y + 1) / 4 - (y + 1) / 100 + (y + 1) / 400)
      × (y < 400)
cycle_year_bounds c h = (omega (arith, h), omega (arith, h), omega (arith, h))

before_year_mono : (y z : ℕ) → y ≤ z → before_year y ≤ before_year z
before_year_mono y z h = omega (arith, h)

-- A day lies in its year.
march_year_bounds :
    (day : ℕ)
    → (before_year (march_year day) ≤ day + 306) × (day + 306 < before_year (march_year day + 1))
march_year_bounds day =
    let (low, high, small) = cycle_year_bounds (cycle_day day) (omega arith) in
    (omega (arith, low, small), omega (arith, high, small))

march_year_unique :
    (day y : ℕ) → before_year y ≤ day + 306 → day + 306 < before_year (y + 1) → march_year day ≡ y
march_year_unique day y low high =
    let (l, h) = march_year_bounds day in
    elim (apart (march_year day) y) [
      | inl e ↦ e
      | inr (inl lt) ↦ absurd (omega (arith, h, low, before_year_mono (march_year day + 1) y lt))
      | inr (inr gt) ↦ absurd (omega (arith, l, high, before_year_mono (y + 1) (march_year day) gt))
    ]
  where
    apart : (a b : ℕ) → (a ≡ b) ⊎ ((a + 1 ≤ b) ⊎ (b + 1 ≤ a))
    apart a b = omega arith

year_day-before_year : (day : ℕ) → year_day day + before_year (march_year day) ≡ day + 306
year_day-before_year day =
    let (low, high, small) = cycle_year_bounds (cycle_day day) (omega arith) in
    omega (arith, low, small)

year_day_bound : (day : ℕ) → year_day day < 366
year_day_bound day =
    let (l, h) = march_year_bounds day in omega (arith, year_day-before_year day, h)

-- A day lies in its month.
pub march_month_bounds :
    (day : ℕ)
    → (before_month (march_month day) ≤ year_day day)
      × (year_day day < before_month (march_month day + 1))
      × (march_month day ≤ 11)
march_month_bounds day =
    let b = year_day_bound day in (omega (arith, b), omega (arith, b), omega (arith, b))

pub march_at :
    (day y m : ℕ)
    → before_year y + before_month m ≤ day + 306
    → day + 306 < before_year y + before_month (m + 1)
    → day + 306 < before_year (y + 1)
    → (march_year day ≡ y) × (march_month day ≡ m)
march_at day y m low high inside =
    let e = march_year_unique day y (omega (arith, low)) inside in
    let s = year_day-before_year day in
    let s' : year_day day + before_year y ≡ day + 306 =
      ap (λ z. year_day day + before_year z) (sym e) ∙ s in
    (e, omega (arith, s', low, high))

month_start_at :
    (day n y : ℕ)
    → n + before_year y ≡ day + 306
    → n < 366
    → day - (n - before_month ((5 * n + 2) / 153) + 1 - 1) + 306
      ≡ before_year y + before_month ((5 * n + 2) / 153)
month_start_at day n y e h = omega (arith, e, h)

-- The first of a month is the day it begins.
pub month_first_start :
    (day : ℕ)
    → month_first day + 306 ≡ before_year (march_year day) + before_month (march_month day)
unfolding month_first day_of_month
month_first_start day =
    month_start_at day (year_day day) (march_year day) (year_day-before_year day)
      (year_day_bound day)

-- Where the next month begins.
abbrev next_start : ℕ → ℕ → ℕ
next_start y m = if ltb m 11 then before_year y + before_month (m + 1) else before_year (y + 1)

start_eq :
    {y z m n : ℕ} → y ≡ z → m ≡ n → before_year y + before_month m ≡ before_year z + before_month n
start_eq e f = rw (e, f) refl

after_32_days :
    (f y m : ℕ)
    → f + 306 ≡ before_year y + before_month m
    → m ≤ 11
    → month_first (f + 32) + 306 ≡ next_start y m
after_32_days f y m e h = elim (Bool-cases (ltb m 11)) [
  | inl inner ↦
      let m_small : m < 11 = ground (arith, inner) in
      let (a, b) =
        march_at (f + 32) y (m + 1) (omega (arith, e, m_small)) (omega (arith, e, m_small))
          (omega (arith, e, m_small)) in
      rw inner (month_first_start (f + 32) ∙ start_eq a b)
  | inr final ↦
      let m_last : m ≡ 11 = ground (arith, final, h) in
      let (a, b) =
        march_at (f + 32) (y + 1) 0 (omega (arith, e, m_last)) (omega (arith, e, m_last))
          (omega (arith, e, m_last)) in
      rw final (month_first_start (f + 32) ∙ start_eq a b ∙ omega arith)
]

next_month_start : (day : ℕ) → next_month day + 306 ≡ next_start (march_year day) (march_month day)
unfolding next_month
next_month_start day =
    after_32_days (month_first day) (march_year day) (march_month day) (month_first_start day)
      (march_month_bounds day).2

-- The days from one of them up to where its next month begins, for a month of 11 or fewer before it.
within_month :
    (day d next y m : ℕ)
    → next + 306 ≡ next_start y m
    → m ≤ 11
    → before_year y + before_month m ≤ day + 306
    → day ≤ d
    → d < next
    → (before_year y + before_month m ≤ d + 306)
      × (d + 306 < before_year y + before_month (m + 1))
      × (d + 306 < before_year (y + 1))
within_month day d next y m e h low le lt = elim (Bool-cases (ltb m 11)) [
  | inl inner ↦
      let m_small : m < 11 = ground (arith, inner) in
      let e' : next + 306 ≡ before_year y + before_month (m + 1) = rw inner at e in
      (omega (arith, low, le), omega (arith, e', lt), omega (arith, e', lt, m_small))
  | inr final ↦
      let m_last : m ≡ 11 = ground (arith, final, h) in
      let e' : next + 306 ≡ before_year (y + 1) = rw final at e in
      (omega (arith, low, le), omega (arith, e', lt, m_last), omega (arith, e', lt))
]

month_low : (day : ℕ) → before_year (march_year day) + before_month (march_month day) ≤ day + 306
month_low day =
    let s = year_day-before_year day in
    let low = (march_month_bounds day).0 in
    below (year_day day) (march_year day) (march_month day) s low
  where
    below :
        (n y m : ℕ)
        → n + before_year y ≡ day + 306
        → before_month m ≤ n
        → before_year y + before_month m ≤ day + 306
    below n y m s low = omega (arith, s, low)

-- Every day up to where the next month begins is in the same month.
pub next_month_same :
    (day d : ℕ)
    → day ≤ d
    → d < next_month day
    → (march_year d ≡ march_year day) × (march_month d ≡ march_month day)
next_month_same day d le lt =
    let (a, b, c) =
      within_month day d (next_month day) (march_year day) (march_month day) (next_month_start day)
        (march_month_bounds day).2 (month_low day) le lt in
    march_at d (march_year day) (march_month day) a b c

-- The next month begins later.
pub next_month_later : (day : ℕ) → day < next_month day
next_month_later day =
    later (year_day day) (march_year day) (march_month day) (next_month day) (next_month_start day)
      (year_day-before_year day) (march_month_bounds day).1 (march_year_bounds day).1
  where
    later :
        (n y m next : ℕ)
        → next + 306 ≡ next_start y m
        → n + before_year y ≡ day + 306
        → n < before_month (m + 1)
        → day + 306 < before_year (y + 1)
        → day < next
    later n y m next e s high h = elim (Bool-cases (ltb m 11)) [
      | inl inner ↦
          (let e' : next + 306 ≡ before_year y + before_month (m + 1) = rw inner at e in
            omega (arith, e', s, high))
      | inr final ↦
          (let e' : next + 306 ≡ before_year (y + 1) = rw final at e in omega (arith, e', h))
    ]
