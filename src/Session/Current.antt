-- ===== src/Session/Current.antt =====
-- Which session resolve_session gives.
use bifrost_platform_plugin.Prelude.{
  ℕ, zero, suc, ◌+◌, ◌-◌, ◌%◌, ◌≤◌, ◌<◌, ◌≡◌, refl, sym, ap, ◌∙◌, inl, inr, some, List, [], ◌∷◌,
  Bool, true, false, not, ◌&&◌, has, keep, take, ltb, leb, ◌==◌, if◌then◌else◌, arith, le→leb,
  leb→le, ltb→lt, lt→not_leb, Bool-cases, ==_iff, In, here, there, In-keep, keep-In,
}
use bifrost_platform_plugin.Prelude.Sorting.{sort_by}
use bifrost_platform_plugin.Calendar.{
  Date, Holiday, closes, weekday, is_open, is_trading_day, fetch_closed_holiday_dates,
  fetch_recent_trading_days, iter_weekdays_excluding,
}
use bifrost_platform_plugin.Calendar.Walk.{days_down, In-days_down, iter_weekdays_excluding_lem}
use bifrost_platform_plugin.Calendar.Sessions.{closed_between, is_open-is_trading_day}
use bifrost_platform_plugin.Session.{
  eod_expected_by, ordinal_of, at_most, without_open, fetch_completed_trading_days, trades_today,
  current_session, resolve_session,
}

-- The latest trading day before `bound`.
pub record Latest (rows : List Holiday) (bound s : Date) : Type 0 where
  pub before : s < bound
  pub trades : is_trading_day (some rows) s ≡ some true
  pub none_between : (d : Date) → s < d → d < bound → is_trading_day (some rows) d ≡ some false

cons_eq : {d x : Date} {ds xs : List Date} → d ∷ ds ≡ x ∷ xs → (d ≡ x) × (ds ≡ xs)
cons_eq e = (cc e, cc e)

closed_up_to :
    (closed : List Date) (d x : Date)
    → is_open closed d ≡ false
    → ((z : Date) → x < z → z ≤ d - 1 → is_open closed z ≡ false)
    → (y : Date) → x < y
    → y ≤ d
    → is_open closed y ≡ false
closed_up_to closed d x shut between y more up = elim (Bool-cases (y == d)) [
  | inl e ↦ ap (is_open closed) ((==_iff y d).0 e) ∙ shut
  | inr ne ↦ between y more (ground (arith, ne, up))
]

-- The open days counted down from a day: the first is the latest.
first_open :
    (closed : List Date) (k d x : Date) (xs : List Date)
    → keep (is_open closed) (days_down k d) ≡ x ∷ xs
    → (is_open closed x ≡ true)
      × (x ≤ d)
      × (d < x + k)
      × ((y : Date) → x < y → y ≤ d → is_open closed y ≡ false)
      × ((y : Date) → In y xs → y ≤ x)
unfolding days_down
first_open closed zero d x xs e = ground (arith, e)
first_open closed (suc k) d x xs e = elim (Bool-cases (is_open closed d)) [
  | inl open_day ↦
      let e' : d ∷ keep (is_open closed) (days_down k (d - 1)) ≡ x ∷ xs = rw open_day at e in
      let (same, rest) = cons_eq e' in
      (
        ap (is_open closed) (sym same) ∙ open_day,
        omega (arith, same),
        omega (arith, same),
        λ y lt le. absurd (omega (arith, same, lt, le)),
        λ y m.
            (let low =
                (In-days_down k (d - 1)
                  (In-keep (is_open closed) (days_down k (d - 1)) (rw (sym rest) at m)).0).0 in
              omega (arith, same, low)),
      )
  | inr shut ↦
      let e' : keep (is_open closed) (days_down k (d - 1)) ≡ x ∷ xs = rw shut at e in
      let (o, le, lt, between, below) = first_open closed k (d - 1) x xs e' in
      (
        o,
        omega (arith, le),
        omega (arith, le, lt),
        λ y more up. closed_up_to closed d x shut between y more up,
        below,
      )
]

down-In : (k d p : Date) → p ≤ d → d < p + k → In p (days_down k d)
unfolding days_down
down-In zero d p le lt = absurd (omega (arith, le, lt))
down-In (suc k) d p le lt = elim (Bool-cases (ltb p d)) [
  | inl less ↦ there (down-In k (d - 1) p (ground (arith, less)) (ground (arith, less, lt)))
  | inr eq ↦ here (ground (arith, eq, le))
]

-- The latest open day before `bound`.
record LatestOpen (closed : List Date) (bound s : Date) : Type 0 where
  before : s < bound
  open_day : is_open closed s ≡ true
  none_between : (d : Date) → s < d → d < bound → is_open closed d ≡ false

open_down :
    (closed : List Date) (k bound p : Date)
    → is_open closed p ≡ true
    → p < bound
    → bound < p + 1 + k
    → (s : Date) × (xs : List Date) × (keep (is_open closed) (days_down k (bound - 1)) ≡ s ∷ xs)
      × LatestOpen closed bound s
      × (bound ≤ s + k)
      × ((y : Date) → In y xs → y ≤ s)
open_down closed k bound p o lt le = go (keep (is_open closed) (days_down k (bound - 1))) refl (
    keep-In (is_open closed) (days_down k (bound - 1))
      (down-In k (bound - 1) p (omega (arith, lt)) (omega (arith, lt, le))) o)
  where
    go :
        (l : List Date)
        → keep (is_open closed) (days_down k (bound - 1)) ≡ l
        → In p l
        → (s : Date) × (xs : List Date) × (keep (is_open closed) (days_down k (bound - 1)) ≡ s ∷ xs)
          × LatestOpen closed bound s
          × (bound ≤ s + k)
          × ((y : Date) → In y xs → y ≤ s)
    go [] e m = elim m [ ]
    go (s ∷ xs) e m =
        let (op, up, low, between, below) = first_open closed k (bound - 1) s xs e in
        (
          s,
          xs,
          e,
          record {
            before = omega (arith, up, lt);
            open_day = op;
            none_between = λ d more less. between d more (omega (arith, less));
          },
          omega (arith, up, low, lt),
          below,
        )

-- The last session of the two that a live probe reads, without the day itself.
completed_pair :
    (today s y : Date)
    → s < today
    → y ≤ s
    → at_most 1 (without_open true today (if leb s y then s ∷ y ∷ [] else y ∷ s ∷ [])) ≡ s ∷ []
completed_pair today s y lt le = elim (Bool-cases (leb s y)) [
  | inl same ↦
      let e : y ≡ s = ground (arith, same, le) in
      let f : (y == today) ≡ false = ground (arith, e, lt) in rw (same, f) (ap (λ z. z ∷ []) e)
  | inr more ↦ (let f : (s == today) ≡ false = ground (arith, lt) in rw (more, f) refl)
]

completed_live :
    (today s : Date) (xs : List Date) (b : Bool)
    → s < today
    → ((y : Date) → In y xs → y ≤ s)
    → at_most 1
        (without_open true today (sort_by leb (take 2 (if b then today ∷ s ∷ xs else s ∷ xs))))
      ≡ s ∷ []
completed_live today s xs true lt below =
    let f : leb today s ≡ false = ground (arith, lt) in rw f (rw ((==_iff today today).1 refl) refl)
completed_live today s [] false lt below =
    (let f : (s == today) ≡ false = ground (arith, lt) in rw f refl)
completed_live today s (y ∷ xs) false lt below = completed_pair today s y lt (below y (here refl))

keep_first :
    (closed : List Date) (k d : ℕ) (l : List Date)
    → keep (is_open closed) (days_down k (d - 1)) ≡ l
    → keep (is_open closed) (days_down (suc k) d) ≡ (if is_open closed d then d ∷ l else l)
unfolding days_down
keep_first closed k d l e = rw e refl

iter_two :
    (closed : List Date) (today s : Date) (xs : List Date)
    → keep (is_open closed) (days_down 61 (today - 1)) ≡ s ∷ xs
    → iter_weekdays_excluding today 2 closed
      ≡ sort_by leb (take 2 (if is_open closed today then today ∷ s ∷ xs else s ∷ xs))
iter_two closed today s xs e =
    iter_weekdays_excluding_lem today 2 closed
    ∙ ap (λ l. sort_by leb (take 2 l)) (keep_first closed 61 today (s ∷ xs) e)

iter_one :
    (closed : List Date) (today s : Date) (xs : List Date)
    → keep (is_open closed) (days_down 61 (today + 1 - 1)) ≡ s ∷ xs
    → iter_weekdays_excluding today 1 closed ≡ s ∷ []
iter_one closed today s xs e =
    let same : today ≡ today + 1 - 1 = omega arith in
    iter_weekdays_excluding_lem today 1 closed
    ∙ ap (λ d. sort_by leb (take 1 (keep (is_open closed) (days_down 61 d)))) same
    ∙ ap (λ l. sort_by leb (take 1 l)) e

-- The trading days of the table are the open days of the walk.
LatestOpen-Latest :
    (rows : List Holiday) (start today bound s : Date)
    → bound ≤ today + 1
    → start ≤ s
    → LatestOpen (closed_between start today rows) bound s
    → Latest rows bound s
LatestOpen-Latest rows start today bound s le low h = record {
  before = h.before;
  trades =
      sym (is_open-is_trading_day start today s rows low (omega (arith, h.before, le)))
      ∙ ap some h.open_day;
  none_between = λ d more less.
      sym (
        is_open-is_trading_day start today d rows (omega (arith, low, more))
          (omega (arith, less, le)))
      ∙ ap some (h.none_between d more less);
}

-- Before the day is over in UTC: the last session before today.
completed_before :
    (rows : List Holiday) (utc today p : Date)
    → utc ≤ today
    → is_trading_day (some rows) p ≡ some true
    → p < today
    → today < p + 62
    → (s : Date) × (fetch_completed_trading_days (some rows) 1 utc today ≡ s ∷ [])
      × Latest rows today s
unfolding fetch_completed_trading_days fetch_recent_trading_days fetch_closed_holiday_dates
completed_before rows utc today p le t lt near =
    let closed = closed_between (today - 62) today rows in
    let o =
      is_open-is_trading_day (today - 62) today p rows (omega (arith, near)) (omega (arith, lt)) in
    let (s, xs, e, h, low, below) =
      open_down closed 61 today p (ground (arith, o, t)) lt (omega (arith, near)) in
    (
      s,
      rw (le→leb utc today le) (
          ap (λ l. at_most 1 (without_open true today l)) (iter_two closed today s xs e)
          ∙ completed_live today s xs (is_open closed today) h.before below),
      LatestOpen-Latest rows (today - 62) today today s (omega arith) (omega (arith, low)) h,
    )

-- After it: the last session up to today.
completed_with :
    (rows : List Holiday) (utc today p : Date)
    → today < utc
    → is_trading_day (some rows) p ≡ some true
    → p ≤ today
    → today < p + 61
    → (s : Date) × (fetch_completed_trading_days (some rows) 1 utc today ≡ s ∷ [])
      × Latest rows (today + 1) s
unfolding fetch_completed_trading_days fetch_recent_trading_days fetch_closed_holiday_dates
completed_with rows utc today p lt t le near =
    let closed = closed_between (today - 61) today rows in
    let o = is_open-is_trading_day (today - 61) today p rows (omega (arith, near)) le in
    let (s, xs, e, h, low, below) =
      open_down closed 61 (today + 1) p (ground (arith, o, t)) (omega (arith, le))
        (omega (arith, near)) in
    (
      s,
      rw (lt→not_leb today utc lt)
          (ap (λ l. at_most 1 (without_open false today l)) (iter_one closed today s xs e)),
      LatestOpen-Latest rows (today - 61) today (today + 1) s (omega arith) (omega (arith, low)) h,
    )

-- The bound of the session that is current: past today where the day's batch is due or the day is
-- over in UTC.
abbrev pub bound_of : Bool → Date → Date → Date
bound_of reached utc today =
    if reached then today + 1 else if leb utc today then today else today + 1

reads_some : (rows : List Holiday) (d : Date) → (b : Bool) × (is_trading_day (some rows) d ≡ some b)
unfolding is_trading_day
reads_some rows d = elim (Bool-cases (leb 5 (weekday d))) [
  | inl e ↦ (false, rw e refl)
  | inr e ↦ (not (has (λ h. closes h && h.holiday_date == d) rows), rw e refl)
]

trades_today-is_trading_day :
    (rows : List Holiday) (d : Date) (b : Bool)
    → is_trading_day (some rows) d ≡ some b
    → trades_today (some rows) d ≡ b
unfolding trades_today
trades_today-is_trading_day rows d b e = rw (trades_today, e) refl

trading_or_not :
    (rows : List Holiday) (d : Date)
    → is_trading_day (some rows) d ≡ some (trades_today (some rows) d)
trading_or_not rows d =
    let (b, e) = reads_some rows d in e ∙ ap some (sym (trades_today-is_trading_day rows d b e))

Latest-day :
    (rows : List Holiday) (today : Date)
    → is_trading_day (some rows) today ≡ some true
    → Latest rows (today + 1) today
Latest-day rows today t = record {
  before = omega arith;
  trades = t;
  none_between = λ d more less. absurd (omega (arith, more, less));
}

Latest-past :
    (rows : List Holiday) (today s : Date)
    → is_trading_day (some rows) today ≡ some false
    → Latest rows today s
    → Latest rows (today + 1) s
Latest-past rows today s t h = record {
  before = (let b = h.before in omega (arith, b));
  trades = h.trades;
  none_between = λ d more less. elim (Bool-cases (d == today)) [
    | inl e ↦ ap (is_trading_day (some rows)) ((==_iff d today).0 e) ∙ t
    | inr ne ↦ h.none_between d more (ground (arith, ne, less))
  ];
}

abbrev IsCurrent : List Holiday → Bool → Bool → Date → Date → Date × Bool → Type 0
IsCurrent rows trading reached utc today (s, counts) =
    Latest rows (bound_of reached utc today) s × (counts ≡ (trading && reached))

IsCurrent-of_one :
    (rows : List Holiday) (trading reached : Bool) (utc today s : Date) (days : List Date)
    → (trading && reached) ≡ false
    → days ≡ s ∷ []
    → Latest rows (bound_of reached utc today) s
    → IsCurrent rows trading reached utc today (current_session trading reached today days)
IsCurrent-of_one rows trading reached utc today s days no_day e h = rw (no_day, e) (h, refl)

current_session-IsCurrent :
    (rows : List Holiday) (trading reached : Bool) (utc today p : Date)
    → is_trading_day (some rows) today ≡ some trading
    → is_trading_day (some rows) p ≡ some true
    → p < today
    → today < p + 61
    → IsCurrent rows trading reached utc today (
        current_session trading reached today
          (fetch_completed_trading_days (some rows) 1 utc today))
current_session-IsCurrent rows true true utc today p now t lt near =
    (Latest-day rows today now, refl)
current_session-IsCurrent rows false true utc today p now t lt near =
    elim (Bool-cases (leb utc today)) [
      | inl same ↦
          let (s, e, h) =
            completed_before rows utc today p (leb→le utc today same) t lt (omega (arith, near)) in
          IsCurrent-of_one rows false true utc today s _ refl e (Latest-past rows today s now h)
      | inr over ↦
          let (s, e, h) =
            completed_with rows utc today p (ground (arith, over)) t (omega (arith, lt)) near in
          IsCurrent-of_one rows false true utc today s _ refl e h
    ]
current_session-IsCurrent rows trading false utc today p now t lt near =
    elim (Bool-cases (leb utc today)) [
      | inl same ↦
          let (s, e, h) =
            completed_before rows utc today p (leb→le utc today same) t lt (omega (arith, near)) in
          IsCurrent-of_one rows trading false utc today s _ (ground arith) e (rw same h)
      | inr over ↦
          let (s, e, h) =
            completed_with rows utc today p (ground (arith, over)) t (omega (arith, lt)) near in
          IsCurrent-of_one rows trading false utc today s _ (ground arith) e (rw over h)
    ]

-- Where both queries can be read and the market traded on some day in the 60 before today: the
-- session that `resolve_session` gives is the latest trading day before a bound, which is tomorrow
-- if it is 19:30 in New York or the day is over in UTC, and today otherwise. It says that today
-- counts exactly if today is a trading day and it is 19:30.
pub resolve_session-Latest :
    (new_york : ℕ → ℕ) (rows : List Holiday) (utc now p : ℕ)
    → is_trading_day (some rows) p ≡ some true
    → p < ordinal_of (new_york now)
    → ordinal_of (new_york now) < p + 61
    → let today = ordinal_of (new_york now) in
      let reached = leb eod_expected_by (new_york now % 86400) in
      let (s, counts) = resolve_session new_york (some rows) (some rows) utc now in
      Latest rows (bound_of reached utc today) s
      × (counts ≡ (trades_today (some rows) today && reached))
unfolding resolve_session
resolve_session-Latest new_york rows utc now p t lt near =
    let today = ordinal_of (new_york now) in
    current_session-IsCurrent rows (trades_today (some rows) today)
      (leb eod_expected_by (new_york now % 86400)) utc today p (trading_or_not rows today) t lt near

pair_eq : {a : Date} {b : Bool} (r : Date × Bool) → r.0 ≡ a → r.1 ≡ b → r ≡ (a, b)
pair_eq (s, c) e f = rw (e, f) refl

Latest-today :
    (rows : List Holiday) (today s : Date)
    → is_trading_day (some rows) today ≡ some true
    → Latest rows (today + 1) s
    → s ≡ today
Latest-today rows today s t h = elim (Bool-cases (ltb s today)) [
  | inl less ↦
      let n = h.none_between today (ltb→lt s today less) (omega arith) in
      absurd (ground (arith, n, t))
  | inr ge ↦ (let b = h.before in ground (arith, ge, b))
]

bound_of_early :
    {rows : List Holiday} {s : Date} (reached : Bool) (utc today : Date)
    → reached ≡ false
    → leb utc today ≡ false
    → Latest rows (bound_of reached utc today) s
    → Latest rows (today + 1) s
bound_of_early reached utc today e f h = rw (e, f) at h

no_reach : {reached : Bool} (trading : Bool) → reached ≡ false → (trading && reached) ≡ false
no_reach trading e = ground (arith, e)

-- Where both queries can be read and the market traded on some day in the 60 before today: on a
-- trading day, before 19:30 in New York but when the day is over in UTC, `resolve_session` gives
-- today, and says that today does not count.
pub resolve_session_early :
    (new_york : ℕ → ℕ) (rows : List Holiday) (utc now p : ℕ)
    → is_trading_day (some rows) p ≡ some true
    → p < ordinal_of (new_york now)
    → ordinal_of (new_york now) < p + 61
    → is_trading_day (some rows) (ordinal_of (new_york now)) ≡ some true
    → new_york now % 86400 < eod_expected_by
    → ordinal_of (new_york now) < utc
    → resolve_session new_york (some rows) (some rows) utc now ≡ (ordinal_of (new_york now), false)
resolve_session_early new_york rows utc now p t lt near trading early over =
    let today = ordinal_of (new_york now) in
    let not_reached : leb eod_expected_by (new_york now % 86400) ≡ false = lt→not_leb _ _ early in
    let past : leb utc today ≡ false = lt→not_leb today utc over in
    let (h, c) = resolve_session-Latest new_york rows utc now p t lt near in
    pair_eq (resolve_session new_york (some rows) (some rows) utc now)
      (Latest-today rows today _ trading (bound_of_early _ utc today not_reached past h))
      (c ∙ no_reach (trades_today (some rows) today) not_reached)
