-- ===== src/Verdicts/Judged.antt =====
-- The four verdicts of verdicts.py follow what they measure.
use bifrost_platform_plugin.Prelude.{
  ℕ, ◌+◌, ◌≤◌, ◌≡◌, refl, Option, none, some, Bool, true, false, not, str_eq, arith, Bool-cases,
  inl, inr,
}
use bifrost_platform_plugin.Verdicts.{
  Verdict, ok, partial, thin, boundary, unknown, DatasetRow, rank, direction, changed, regressed,
  recovered, breadth, depth, freshness, continuity, breadth_verdict, share_verdict,
  lateness_verdict, holes_verdict, depth_verdict, freshness_verdict, continuity_verdict,
  verdicts_for, Axis, filled, or_zero, is_false, allowed_days, Direction,
}

abbrev pub is_regressed : Direction → Bool
is_regressed regressed = true
is_regressed recovered = false
is_regressed changed = false

direction-same : (v : Verdict) → is_regressed (direction (some v) (some v)) ≡ false
unfolding direction rank
direction-same ok = refl
direction-same partial = refl
direction-same thin = refl
direction-same boundary = refl
direction-same unknown = refl

share_verdict-more :
    (at more of : ℕ)
    → at ≤ more
    → is_regressed (direction (some (share_verdict at of)) (some (share_verdict more of))) ≡ false
unfolding share_verdict direction rank
share_verdict-more at more of h = ground arith

lateness_verdict-less :
    (allowed behind less : ℕ)
    → less ≤ behind
    → is_regressed
        (direction (some (lateness_verdict allowed behind)) (some (lateness_verdict allowed less)))
      ≡ false
unfolding lateness_verdict direction rank
lateness_verdict-less allowed behind less h = ground arith

holes_verdict-less :
    (sessions holes less : ℕ)
    → less ≤ holes
    → is_regressed
        (direction (some (holes_verdict sessions holes)) (some (holes_verdict sessions less)))
      ≡ false
unfolding holes_verdict direction rank
holes_verdict-less sessions holes less h = ground arith

abbrev pub with_at_target : ℕ → DatasetRow → DatasetRow
with_at_target n row = record row { depth = record row.depth { at_target = some n } }

-- More symbols at the target never make the depth of a dataset regress, whatever else its row says.
depth_verdict-more :
    (row : DatasetRow) (more : ℕ)
    → or_zero row.depth.at_target ≤ more
    → is_regressed
        (direction (some (depth_verdict row)) (some (depth_verdict (with_at_target more row))))
      ≡ false
unfolding depth_verdict
depth_verdict-more row more h = elim (Bool-cases (filled row.error)) [
  | inl e ↦ rw e (direction-same unknown)
  | inr e ↦ elim (Bool-cases row.depth.measured) [
    | inr m ↦ rw e (rw m (direction-same _))
    | inl m ↦ elim (Bool-cases (is_false row.depth.judged)) [
      | inl j ↦ rw e (rw m (rw j (direction-same boundary)))
      | inr j ↦ rw e (
          rw m
            (rw j (share_verdict-more (or_zero row.depth.at_target) more (or_zero row.depth.of) h)))
    ]
  ]
]

abbrev pub with_days_behind : ℕ → DatasetRow → DatasetRow
with_days_behind n row = record row { freshness = record row.freshness { days_behind = some n } }

-- Where the days behind were measured: fewer of them never make the freshness of a dataset regress.
freshness_verdict-less :
    (row : DatasetRow) (behind less : ℕ)
    → less ≤ behind
    → is_regressed (
        direction
          (some (freshness_verdict (with_days_behind behind row)))
          (some (freshness_verdict (with_days_behind less row))))
      ≡ false
unfolding freshness_verdict
freshness_verdict-less row behind less h =
    let f = row.freshness in
    let weekly : Bool = elim f.cadence [ none ↦ false | some c ↦ not (str_eq c "session") ] in
    elim (Bool-cases (filled row.error)) [
      | inl e ↦ rw e (direction-same unknown)
      | inr e ↦ elim (Bool-cases f.measured) [
        | inr m ↦ rw e (rw m (direction-same boundary))
        | inl m ↦ elim (Bool-cases (filled f.newest)) [
          | inr w ↦ rw e (rw m (rw w (direction-same unknown)))
          | inl w ↦ elim (Bool-cases (is_false f.judged)) [
            | inl j ↦ rw e (rw m (rw w (rw j (direction-same boundary))))
            | inr j ↦ elim (Bool-cases weekly) [
              | inl c ↦ rw e (rw m (rw w (rw j (rw c (direction-same _)))))
              | inr c ↦ rw e (
                  rw m (
                    rw w (
                      rw j (
                        rw c (
                          lateness_verdict-less (allowed_days (or_zero f.deadline_hours)) behind
                            less h)))))
            ]
          ]
        ]
      ]
    ]

abbrev pub with_days_thin : ℕ → DatasetRow → DatasetRow
with_days_thin n row = record row { continuity = record row.continuity { days_thin = some n } }

-- Fewer thin days never make the continuity of a dataset regress, whatever else its row says.
continuity_verdict-less :
    (row : DatasetRow) (less : ℕ)
    → less ≤ or_zero row.continuity.days_thin
    → is_regressed (
        direction
          (some (continuity_verdict row))
          (some (continuity_verdict (with_days_thin less row))))
      ≡ false
unfolding continuity_verdict
continuity_verdict-less row less h =
    let c = row.continuity in
    elim (Bool-cases (filled row.error)) [
      | inl e ↦ rw e (direction-same unknown)
      | inr e ↦ elim (Bool-cases c.measured) [
        | inr m ↦ rw e (rw m (direction-same _))
        | inl m ↦ rw e (
            rw m (
              holes_verdict-less (or_zero c.days_present + or_zero c.days_absent)
                (or_zero c.days_absent + or_zero c.days_thin) (or_zero c.days_absent + less)
                (omega (arith, h))))
      ]
    ]

-- A better measurement never makes a dataset regress, whatever else its row says: not in depth with
-- more symbols at the target, not in freshness with fewer days behind, and not in continuity with
-- fewer thin days.
pub verdicts_improve :
    (row : DatasetRow) (more behind less few : ℕ)
    → or_zero row.depth.at_target ≤ more
    → less ≤ behind
    → few ≤ or_zero row.continuity.days_thin
    → (is_regressed
          (direction (some (depth_verdict row)) (some (depth_verdict (with_at_target more row))))
        ≡ false)
      × (is_regressed (
            direction
              (some (freshness_verdict (with_days_behind behind row)))
              (some (freshness_verdict (with_days_behind less row))))
          ≡ false)
      × (is_regressed (
            direction
              (some (continuity_verdict row))
              (some (continuity_verdict (with_days_thin few row))))
          ≡ false)
verdicts_improve row more behind less few h k l = (
  depth_verdict-more row more h,
  freshness_verdict-less row behind less k,
  continuity_verdict-less row few l,
)

-- A dataset whose read failed is on no scale: each of its verdicts is `unknown`, and no move from
-- or to one of them is a regression or a recovery.
pub verdicts_for-unread :
    (row : DatasetRow) (axis : Axis) (w : Option Verdict)
    → filled row.error ≡ true
    → (verdicts_for row axis ≡ unknown)
      × (direction (some (verdicts_for row axis)) w ≡ changed)
      × (direction w (some (verdicts_for row axis)) ≡ changed)
unfolding verdicts_for breadth_verdict depth_verdict freshness_verdict continuity_verdict direction
    rank
verdicts_for-unread row breadth w e = rw e (refl, refl, ground (arith, w))
verdicts_for-unread row depth w e = rw e (refl, refl, ground (arith, w))
verdicts_for-unread row freshness w e = rw e (refl, refl, ground (arith, w))
verdicts_for-unread row continuity w e = rw e (refl, refl, ground (arith, w))
