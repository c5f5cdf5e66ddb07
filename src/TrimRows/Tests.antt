-- ===== src/TrimRows/Tests.antt =====
-- The trims of market tables on small tables: a row is its key and its day or second.
use bifrost_platform_plugin.Prelude.{
  ℕ, ◌+◌, ◌-◌, ◌≡◌, refl, ap, List, [], ◌∷◌, Bool, true, false, not, ◌==◌, if◌then◌else◌, keep,
  length, ◌<◌, arith, In, here, there,
}
use bifrost_platform_plugin.Db.{return, raise, calm, db_error, value_error}
use bifrost_platform_plugin.Trim.{Reading}
use bifrost_platform_plugin.TrimRows.{past_month, trim_rows_past_window, trim_option_snapshots}
use bifrost_platform_plugin.TrimRows.Batches.{Keyed}
use bifrost_platform_plugin.TrimRows.Exact.{trim_rows_past_window-exact}
use bifrost_platform_plugin.TrimRows.Spared.{Protected, trim_option_snapshots-Protected}

abbrev itself : ℕ → ℕ
itself r = r

abbrev even_second : ℕ → Bool
even_second r = r == 44

-- Row 41 is pinned until day 130.
abbrev pin_dates : ℕ → ℕ → List ℕ
pin_dates now r = if r == 41 then 130 ∷ [] else []

abbrev ago : ℕ → ℕ → ℕ
ago now n = now - n

abbrev some_rows : List ℕ
some_rows = 40 ∷ 95 ∷ 41 ∷ 44 ∷ 89 ∷ []

abbrev on_day : Reading
on_day = record { elapsed = 0; now = 130 }

-- The pin lapses from the first batch to the second.
lapsed_trim :
    (trim_option_snapshots itself itself even_second pin_dates itself ago true true 30 1 9
      (on_day ∷ record on_day { now = 131 } ∷ [])
      (calm (41 ∷ 40 ∷ []))).1.committed
    ≡ []
unfolding trim_option_snapshots
lapsed_trim = refl

itself-Keyed : Keyed itself some_rows
itself-Keyed r s m n e = e

-- The first of the month of day 100 is day 90.
dated_trim :
    trim_rows_past_window true itself itself 30 2 9 (on_day ∷ on_day ∷ on_day ∷ []) (calm some_rows)
    ≡ (return 4, calm (95 ∷ []))
unfolding trim_rows_past_window
dated_trim = refl

no_keys :
    (trim_rows_past_window false itself itself 30 2 9 (on_day ∷ []) (calm some_rows)).0
    ≡ raise value_error
unfolding trim_rows_past_window
no_keys = refl

-- The second batch fails: the first stays committed, the anchor and the pinned row are spared.
snapshot_trim :
    let r =
      trim_option_snapshots itself itself even_second pin_dates itself ago true true 30 1 9
        (on_day ∷ on_day ∷ on_day ∷ [])
        (record {
          committed = some_rows;
          working = some_rows;
          faults = false ∷ false ∷ false ∷ false ∷ true ∷ [];
          late = [];
        }) in
    (r.0 ≡ raise db_error) × (r.1.committed ≡ 95 ∷ 41 ∷ 44 ∷ 89 ∷ [])
unfolding trim_option_snapshots
snapshot_trim = (refl, refl)

on_day_in_time :
    (d : Reading) → In d (on_day ∷ on_day ∷ on_day ∷ []) → (d.elapsed < 9) × (d.now ≡ 130)
on_day_in_time d (here e) = (rw e (omega arith), ap (λ (x : Reading). x.now) e)
on_day_in_time d (there (here e)) = (rw e (omega arith), ap (λ (x : Reading). x.now) e)
on_day_in_time d (there (there (here e))) = (rw e (omega arith), ap (λ (x : Reading). x.now) e)
on_day_in_time d (there (there (there m))) = elim m [ ]

trim_rows_past_window-exact_example :
    let kept = keep (λ r. not (past_month itself 30 130 r)) some_rows in
    (n : ℕ) × (trim_rows_past_window true itself itself 30 2 9
        (on_day ∷ on_day ∷ on_day ∷ [])
        (calm some_rows)
      ≡ (return n, calm kept))
    × (n + length kept ≡ length some_rows)
trim_rows_past_window-exact_example =
    trim_rows_past_window-exact itself itself 30 2 9 130 (on_day ∷ on_day ∷ on_day ∷ []) some_rows
      itself-Keyed on_day_in_time (omega arith)

trim_option_snapshots-Protected_example :
    let c =
      (trim_option_snapshots itself itself even_second pin_dates itself ago true true 30 1 9
        (on_day ∷ on_day ∷ [])
        (record {
          committed = some_rows;
          working = some_rows;
          faults = false ∷ false ∷ true ∷ [];
          late = [];
        })).1 in
    ((r : ℕ) → In r c.committed → In r some_rows)
    × ((r : ℕ)
        → In r some_rows
        → Protected itself itself even_second pin_dates itself ago true true 30
            (on_day ∷ on_day ∷ [])
            r
        → In r c.committed)
trim_option_snapshots-Protected_example =
    trim_option_snapshots-Protected itself itself even_second pin_dates itself ago true true 30 1 9
      (on_day ∷ on_day ∷ []) some_rows (false ∷ false ∷ true ∷ []) [] itself-Keyed
