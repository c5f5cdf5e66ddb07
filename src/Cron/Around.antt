-- ===== src/Cron/Around.antt =====
-- The fires around an instant: `next_fires` and `previous_fire`.
use bifrost_platform_plugin.Prelude.{
  ℕ, ◌+◌, ◌-◌, ◌*◌, ◌≤◌, ◌≡◌, refl, ap, String, none, some, List, [], ◌∷◌, false, take, length,
  length-take, ltb, leb, arith, In, here, there, In-cons, In-take, ◌⊎◌, inl, inr,
}
use bifrost_platform_plugin.Prelude.Sorting.{Ordered, take_top}
use bifrost_platform_plugin.Cron.{Zone, horizon, last_of, next_fires, previous_fire}
use bifrost_platform_plugin.Cron.Parse.{Fields, parse_exprs}
use bifrost_platform_plugin.Cron.Instants.{IsZone}
use bifrost_platform_plugin.Cron.Fires.{IsFire, iter_cron_fires_exact, leb-IsPreorder}

last_of_cases :
    (xs : List ℕ)
    → Ordered leb xs
    → ((last_of xs ≡ none) × ((x : ℕ) → In x xs → ⊥))
      ⊎ ((y : ℕ) × (last_of xs ≡ some y) × In y xs × ((x : ℕ) → In x xs → x ≤ y))
last_of_cases [] o = inl (refl, λ x m. elim m [ ])
last_of_cases (x ∷ []) o =
    inr (
      x,
      refl,
      here refl,
      λ u m. elim (In-cons m) [ inl e ↦ omega (arith, e) | inr n ↦ elim n [ ] ],
    )
last_of_cases (x ∷ y ∷ ys) o = elim (last_of_cases (y ∷ ys) o.1) [
  | inl p ↦ absurd (p.1 y (here refl))
  | inr p ↦ inr (
    p.0,
    p.1,
    there p.2,
    λ u m. elim (In-cons m) [
      | inl e ↦
          let le = p.3 y (here refl) in let xy = o.0 y (here refl) in ground (arith, e, le, xy)
      | inr k ↦ p.3 u k
    ],
  )
]

module _ (zone : Zone) (z : IsZone zone) (exprs : List String) (parsed : List Fields)
    (parses : parse_exprs exprs ≡ some parsed) where
  -- In such a zone, and where the window does not begin before the first date that there is:
  -- `previous_fire` returns the latest fire before the instant, or None where the window has none.
  -- The window is the days asked for, and at least 32 where a day of the month or a month is given.
  pub previous_fire_latest :
      (before lookback_days : ℕ)
      → 86400 * horizon 32 lookback_days parsed ≤ before
      → let start = before - 86400 * horizon 32 lookback_days parsed in
        ((previous_fire zone exprs before lookback_days ≡ some none)
          × ((t : ℕ) → IsFire zone start before parsed t → ⊥))
        ⊎ ((t : ℕ) × (previous_fire zone exprs before lookback_days ≡ some (some t))
            × IsFire zone start before parsed t
            × ((u : ℕ) → IsFire zone start before parsed u → u ≤ t))
  unfolding previous_fire
  previous_fire_latest before lookback_days room =
      let start = before - 86400 * horizon 32 lookback_days parsed in
      let (fires, run, order, exact) =
        iter_cron_fires_exact zone z start before exprs parsed parses in
      let enough : ltb before (86400 * horizon 32 lookback_days parsed) ≡ false =
        ground (arith, room) in
      elim (last_of_cases fires order) [
        | inl p ↦ inl (rw (parses, enough, run) (ap some p.0), λ t f. p.1 t ((exact t).1 f))
        | inr p ↦ inr (
          p.0,
          rw (parses, enough, run) (ap some p.1),
          (exact p.0).0 p.2,
          λ u f. p.3 u ((exact u).1 f),
        )
      ]

  -- In such a zone: `next_fires` returns at most as many instants as were asked for, each of them a
  -- fire of the window, and a fire that it leaves out is not before any that it returns, which are
  -- then as many as asked. The window begins a whole minute after the instant.
  pub next_fires_earliest :
      (after count horizon_days : ℕ)
      → let end = after + 86400 * horizon 62 horizon_days parsed in
        (fires : List ℕ) × (next_fires zone exprs after count horizon_days ≡ some fires)
        × (length fires ≤ count)
        × ((t : ℕ) → In t fires → IsFire zone (after + 60) end parsed t)
        × ((t : ℕ)
            → IsFire zone (after + 60) end parsed t
            → In t fires ⊎ ((length fires ≡ count) × ((u : ℕ) → In u fires → u ≤ t)))
  unfolding next_fires
  next_fires_earliest after count horizon_days =
      let end = after + 86400 * horizon 62 horizon_days parsed in
      let (fires, run, order, exact) =
        iter_cron_fires_exact zone z (after + 60) end exprs parsed parses in
      (
        take count fires,
        rw (parses, run) refl,
        omega (arith, length-take count fires),
        λ t m. (exact t).0 (In-take count fires m),
        λ t f. elim (take_top leb leb-IsPreorder count fires order ((exact t).1 f)) [
          | inl m ↦ inl m
          | inr p ↦ inr (p.0, λ u m. let le = p.1 u m in ground (arith, le))
        ],
      )
