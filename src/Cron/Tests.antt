-- ===== src/Cron/Tests.antt =====
-- Expressions and the instants at which they fire.
use bifrost_platform_plugin.Prelude.{ℕ, ◌+◌, ◌-◌, ◌*◌, ◌≡◌, refl, none, some, List, [], ◌∷◌}
use bifrost_platform_plugin.Cron.Parse.{Fields, parse_field, parse_exprs}
use bifrost_platform_plugin.Prelude.{◌≤◌, ◌↔◌, ◌⊎◌, inl, arith, leb, length, In, String}
use bifrost_platform_plugin.Prelude.Sorting.{Ordered}
use bifrost_platform_plugin.Cron.Instants.{IsZone}
use bifrost_platform_plugin.Cron.Fires.{IsFire, iter_cron_fires_exact}
use bifrost_platform_plugin.Cron.Around.{previous_fire_latest, next_fires_earliest}
use bifrost_platform_plugin.Cron.Text.{range}
use bifrost_platform_plugin.Cron.{Zone, named, iter_cron_fires, next_fires, previous_fire}

parsed : parse_field 0 59 "*/20, 5-7" ≡ some (some (0 ∷ 20 ∷ 40 ∷ 5 ∷ 6 ∷ 7 ∷ []))
unfolding parse_field range
parsed = refl

refused : parse_field 1 31 "0" ≡ none
unfolding parse_field range
refused = refl

-- A zone three hours ahead of UTC, and midnight of 2026-03-02.
abbrev ahead : Zone
ahead = named (λ t. t + 10800) (λ fold w. w - 10800)

abbrev midnight : ℕ
midnight = 739676 * 86400

fires :
    iter_cron_fires ahead ("30 4 * * 1-5" ∷ []) midnight (midnight + 172800)
    ≡ some ((midnight + 5400) ∷ (midnight + 91800) ∷ [])
unfolding iter_cron_fires range
fires = refl

-- After 01:29:30 the first fire that is returned is that of the next day: 01:30:00 is skipped.
next_skips :
    next_fires ahead ("30 4 * * 1-5" ∷ []) (midnight + 5370) 1 3 ≡ some ((midnight + 91800) ∷ [])
unfolding next_fires range
next_skips = refl

ahead-IsZone : IsZone ahead
ahead-IsZone = record { back = λ t h. inl (omega arith); forward = λ s t h. omega (arith, h) }

abbrev weekday_mornings : List String
weekday_mornings = "30 4 * * 1-5" ∷ []

abbrev mornings : List Fields
mornings =
    record {
      minutes = some (30 ∷ []);
      hours = some (4 ∷ []);
      doms = none;
      months = none;
      dows = some (1 ∷ 2 ∷ 3 ∷ 4 ∷ 5 ∷ []);
    }
    ∷ []

weekday_mornings_parse : parse_exprs weekday_mornings ≡ some mornings
unfolding parse_exprs range
weekday_mornings_parse = refl

iter_cron_fires_exact_example :
    (fires : List ℕ) × (iter_cron_fires ahead weekday_mornings midnight (midnight + 172800)
      ≡ some fires)
    × Ordered leb fires
    × ((t : ℕ) → In t fires ↔ IsFire ahead midnight (midnight + 172800) mornings t)
iter_cron_fires_exact_example =
    iter_cron_fires_exact ahead ahead-IsZone midnight (midnight + 172800) weekday_mornings mornings
      weekday_mornings_parse

previous_fire_latest_example :
    ((previous_fire ahead weekday_mornings midnight 14 ≡ some none)
      × ((t : ℕ) → IsFire ahead (midnight - 1209600) midnight mornings t → ⊥))
    ⊎ ((t : ℕ) × (previous_fire ahead weekday_mornings midnight 14 ≡ some (some t))
        × IsFire ahead (midnight - 1209600) midnight mornings t
        × ((u : ℕ) → IsFire ahead (midnight - 1209600) midnight mornings u → u ≤ t))
previous_fire_latest_example =
    previous_fire_latest ahead ahead-IsZone weekday_mornings mornings weekday_mornings_parse
      midnight 14 (omega arith)

next_fires_earliest_example :
    (fires : List ℕ) × (next_fires ahead weekday_mornings midnight 3 14 ≡ some fires)
    × (length fires ≤ 3)
    × ((t : ℕ) → In t fires → IsFire ahead (midnight + 60) (midnight + 1209600) mornings t)
    × ((t : ℕ)
        → IsFire ahead (midnight + 60) (midnight + 1209600) mornings t
        → In t fires ⊎ ((length fires ≡ 3) × ((u : ℕ) → In u fires → u ≤ t)))
next_fires_earliest_example =
    next_fires_earliest ahead ahead-IsZone weekday_mornings mornings weekday_mornings_parse midnight
      3 14
