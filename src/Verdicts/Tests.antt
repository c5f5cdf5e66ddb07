-- ===== src/Verdicts/Tests.antt =====
-- A payload of two datasets, judged and compared.
use bifrost_platform_plugin.Prelude.{
  ◌≡◌, ◌≢◌, ◌↔◌, refl, none, some, List, [], ◌∷◌, true, false, String, In, here, arith,
}
use bifrost_platform_plugin.Verdicts.{
  partial, thin, Axis, depth, freshness, DatasetRow, Entry, verdicts_for, verdict_map, find, diff,
  direction, regressed, Change, change, depth_verdict, freshness_verdict, continuity_verdict,
}
use bifrost_platform_plugin.Verdicts.Judged.{
  is_regressed, with_at_target, with_days_behind, with_days_thin, verdicts_improve,
}
use bifrost_platform_plugin.Verdicts.Changes.{diff_exact, mirror, diff-mirror}

abbrev daily_bars : DatasetRow
daily_bars = record {
  dataset = some "stock_daily";
  error = none;
  breadth = record { judged = none; pct = some 987 };
  depth = record {
    target_kind = some "years";
    measured = true;
    judged = some true;
    at_target = some 60;
    of = some 100;
  };
  freshness = record {
    measured = true;
    newest = some "2026-09-08";
    judged = none;
    cadence = some "session";
    overdue = none;
    days_behind = some 4;
    deadline_hours = some 30;
  };
  continuity = record {
    measured = true;
    why = none;
    days_present = some 250;
    days_absent = some 1;
    days_thin = some 30;
  };
  verdicts = none;
}

abbrev unread_bars : DatasetRow
unread_bars = record daily_bars { error = some "timeout" }

judged : verdicts_for daily_bars freshness ≡ partial
unfolding verdicts_for
judged = refl

abbrev earlier : List Entry
unfolding verdict_map
earlier = verdict_map (daily_bars ∷ [])

abbrev later : List Entry
unfolding verdict_map
later = verdict_map (with_at_target 10 daily_bars ∷ [])

abbrev dropped : Change
dropped = record {
  dataset = "stock_daily";
  axis = depth;
  was = some partial;
  now = some thin;
  direction = regressed;
}

one_change : diff earlier later ≡ dropped ∷ []
unfolding diff earlier later change
one_change = refl

verdicts_improve_example :
    (is_regressed (
        direction
          (some (depth_verdict daily_bars))
          (some (depth_verdict (with_at_target 96 daily_bars))))
      ≡ false)
    × (is_regressed (
          direction
            (some (freshness_verdict (with_days_behind 9 daily_bars)))
            (some (freshness_verdict (with_days_behind 2 daily_bars))))
        ≡ false)
    × (is_regressed (
          direction
            (some (continuity_verdict daily_bars))
            (some (continuity_verdict (with_days_thin 3 daily_bars))))
        ≡ false)
verdicts_improve_example =
    verdicts_improve daily_bars 96 9 2 3 (omega arith) (omega arith) (omega arith)

diff_exact_example : In dropped (diff earlier later) ↔ (
    (name : String) × (axis : Axis) × (dropped
      ≡ change name (find name earlier) (find name later) axis)
    × (find name earlier axis ≢ find name later axis))
diff_exact_example = diff_exact earlier later dropped

diff-mirror_example : In (mirror dropped) (diff later earlier)
unfolding diff earlier later change
diff-mirror_example = diff-mirror earlier later dropped (here refl)
