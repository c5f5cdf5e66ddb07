-- ===== src/Calendar/Sessions.antt =====
-- The readers of the calendar agree: a day that a list of sessions holds is a day for which the
-- point query says that the market trades.
use bifrost_platform_plugin.Prelude.{
  ℕ, zero, suc, ◌+◌, ◌-◌, ◌≤◌, ◌<◌, ◌≡◌, refl, sym, ◌∙◌, ap, Option, some, List, [], ◌∷◌, true,
  ◌&&◌, has, keep, map, ltb, ◌==◌, arith, Bool-cases, inl, inr, In, here, there, In-cons, ◌↔◌,
  ==_iff,
}
use bifrost_platform_plugin.Prelude.Sorting.{Ordered}
use bifrost_platform_plugin.Calendar.{
  Date, Holiday, closes, from_bound, to_bound, is_open, is_trading_day, walk_on, max_steps,
  fetch_closed_holiday_dates, fetch_recent_trading_days, expected_trading_days,
}
use bifrost_platform_plugin.Calendar.Walk.{In-iter}

abbrev pub closed_between : Date → Date → List Holiday → List Date
closed_between start end rows =
    map (λ h. h.holiday_date)
      (keep (λ h. closes h && from_bound (some start) h && to_bound (some end) h) rows)

-- Inside the window the narrowed read answers like the point query.
has-closed :
    (start end d : Date) (rows : List Holiday)
    → start ≤ d
    → d ≤ end
    → has (λ c. c == d) (closed_between start end rows)
      ≡ has (λ h. closes h && h.holiday_date == d) rows
has-closed start end d [] h k = refl
has-closed start end d (x ∷ rows) h k = elim (Bool-cases (closes x)) [
  | inl c ↦ rw c (ground (arith, has-closed start end d rows h k))
  | inr c ↦ rw c (has-closed start end d rows h k)
]

-- A day inside the window is open for the walk exactly if the market trades on it.
pub is_open-is_trading_day :
    (start end d : Date) (rows : List Holiday)
    → start ≤ d
    → d ≤ end
    → some (is_open (closed_between start end rows) d) ≡ is_trading_day (some rows) d
unfolding is_open is_trading_day
is_open-is_trading_day start end d rows h k = rw (has-closed start end d rows h k) (ground arith)

trades :
    (start end d : Date) (rows : List Holiday)
    → start ≤ d
    → d ≤ end
    → is_open (closed_between start end rows) d ≡ true
    → is_trading_day (some rows) d ≡ some true
trades start end d rows h k o = sym (is_open-is_trading_day start end d rows h k) ∙ ap some o

-- Where the holidays can be read: every day that `fetch_recent_trading_days` returns is a trading
-- day for `is_trading_day`, and is not after the day asked for.
pub fetch_recent_trading_days_trade :
    (rows : List Holiday) (n : ℕ) (as_of : Date) (d : Date)
    → In d (fetch_recent_trading_days (some rows) n as_of)
    → (is_trading_day (some rows) d ≡ some true) × (d ≤ as_of)
unfolding fetch_recent_trading_days fetch_closed_holiday_dates
fetch_recent_trading_days_trade rows n as_of d m =
    let start = as_of - max_steps n in
    let (o, le, lt) = In-iter as_of n (closed_between start as_of rows) m in
    (trades start as_of d rows (omega (arith, lt)) le o, le)

In-walk_on :
    (left : ℕ) (closed : List Date) (s : Date) {d : Date}
    → In d (walk_on left closed s)
    → (is_open closed d ≡ true) × (s ≤ d) × (d < s + left)
unfolding walk_on
In-walk_on zero closed s m = elim m [ ]
In-walk_on (suc left) closed s {d} m = elim (Bool-cases (is_open closed s)) [
  | inl o ↦ elim (In-cons (rw o at m)) [
    | inl e ↦ (ap (is_open closed) e ∙ o, omega (arith, e), omega (arith, e))
    | inr k ↦ let r = In-walk_on left closed (s + 1) k in (r.0, omega arith, omega arith)
  ]
  | inr f ↦ let r = In-walk_on left closed (s + 1) (rw f at m) in (r.0, omega arith, omega arith)
]

walk_on-In :
    (left : ℕ) (closed : List Date) (s : Date) (d : Date)
    → is_open closed d ≡ true
    → s ≤ d
    → d < s + left
    → In d (walk_on left closed s)
unfolding walk_on
walk_on-In zero closed s d o h k = absurd (omega arith)
walk_on-In (suc left) closed s d o h k = elim (Bool-cases (s == d)) [
  | inl e ↦
      let same : d ≡ s = sym ((==_iff s d).0 e) in
      rw (ap (is_open closed) (sym same) ∙ o) (here same)
  | inr n ↦
      let rest = walk_on-In left closed (s + 1) d o (ground (arith, n)) (omega arith) in
      elim (Bool-cases (is_open closed s)) [ inl t ↦ rw t (there rest) | inr f ↦ rw f rest ]
]

-- Where the holidays can be read: `expected_trading_days` returns exactly the days from `start` to
-- `end`, both included, for which `is_trading_day` says that the market trades.
pub expected_trading_days_exact :
    (rows : List Holiday) (start end d : Date)
    → In d (expected_trading_days (some rows) start end)
      ↔ ((start ≤ d) × (d ≤ end) × (is_trading_day (some rows) d ≡ some true))
unfolding expected_trading_days fetch_closed_holiday_dates
expected_trading_days_exact rows start end d = elim (Bool-cases (ltb end start)) [
  | inl empty ↦ rw empty (λ m. elim m [ ], λ h. absurd (ground (arith, empty)))
  | inr full ↦
      let closed = closed_between start end rows in
      rw full (
        λ m.
            let (o, s, e) = In-walk_on (end + 1 - start) closed start m in
            (s, ground (arith, full), trades start end d rows s (ground (arith, full)) o),
        λ (s, e, t).
            let same = is_open-is_trading_day start end d rows s e in
            walk_on-In (end + 1 - start) closed start d (ground (arith, same, t)) s (omega arith),
      )
]

walk_on-Ordered : (left : ℕ) (closed : List Date) (s : Date) → Ordered ltb (walk_on left closed s)
unfolding walk_on
walk_on-Ordered zero closed s = tt
walk_on-Ordered (suc left) closed s = elim (Bool-cases (is_open closed s)) [
  | inl o ↦ rw o (
    λ d m. let r = In-walk_on left closed (s + 1) m in ground (arith, r.1),
    walk_on-Ordered left closed (s + 1),
  )
  | inr f ↦ rw f (walk_on-Ordered left closed (s + 1))
]

-- `expected_trading_days` returns each day once, in ascending order, also where the read failed.
pub expected_trading_days-Ordered :
    (read : Option (List Holiday)) (start end : Date)
    → Ordered ltb (expected_trading_days read start end)
unfolding expected_trading_days
expected_trading_days-Ordered read start end = elim (Bool-cases (ltb end start)) [
  | inl empty ↦ rw empty tt
  | inr full ↦ rw full (
      walk_on-Ordered (end + 1 - start) (fetch_closed_holiday_dates read (some start) (some end))
        start)
]
