-- ===== src/Trim/Tests.antt =====
-- A table with a finished job, what a trim does to it, and the theorems at this input.
use bifrost_platform_plugin.Prelude.{
  here, there, ℕ, ◌≤◌, ◌<◌, ◌≡◌, refl, Option, none, some, List, [], ◌∷◌, true, false, keep, length,
  arith, inl, inr, In, In-cons,
}
use bifrost_platform_plugin.Prelude.Int.{pos}
use bifrost_platform_plugin.Json.{end, obj}
use bifrost_platform_plugin.Db.{Conn, calm}
use bifrost_platform_plugin.Queue.{Row, Table, Status, pending, done, is_active, same_key}
use bifrost_platform_plugin.Queue.Invariant.{IsWell, IsRowWell}
use bifrost_platform_plugin.Trim.{Reading, is_finished, past_window, trim_old_jobs}
use bifrost_platform_plugin.Trim.Retention.{trim_old_jobs-Trimmed}
use bifrost_platform_plugin.Trim.Progress.{trim_old_jobs-clears}

abbrev job : ℕ → Status → Option ℕ → Row
job i status finished_at = record {
  id = i;
  kind = "stock_daily";
  payload = obj end;
  payload_hash = none;
  priority = pos 0;
  status = status;
  result = none;
  attempts = 1;
  max_attempts = 3;
  created_at = 1;
  updated_at = 1;
  started_at = some 1;
  finished_at = finished_at;
}

abbrev three_jobs : Table
three_jobs = record {
  rows = job 1 done (some 5) ∷ job 2 pending none ∷ job 3 done (some 90) ∷ [];
  next_id = 4;
}

three-In :
    (P : Row → Type 0) {r : Row}
    → P (job 1 done (some 5))
    → P (job 2 pending none)
    → P (job 3 done (some 90))
    → In r three_jobs.rows
    → P r
three-In P a b c m = elim (In-cons m) [
  | inl e ↦ rw e a
  | inr m2 ↦ elim (In-cons m2) [
    | inl e ↦ rw e b
    | inr m3 ↦ elim (In-cons m3) [ inl e ↦ rw e c | inr n ↦ elim n [ ] ]
  ]
]

three_jobs-IsWell : IsWell three_jobs
three_jobs-IsWell = record {
  ids = λ i. ground arith;
  below = λ r m. three-In (λ r. r.id < 4) (omega arith) (omega arith) (omega arith) m;
  dedup = λ r s m n.
      three-In (λ r. same_key r s ≡ true → r.id ≡ s.id) (unfold same_key in λ h. ground (arith, h))
        (unfold same_key in λ h. ground (arith, h)) (unfold same_key in λ h. ground (arith, h)) m;
  rows_well = λ r m.
      three-In IsRowWell (record { finished = refl; started = refl; counted = refl })
        (record { finished = refl; started = refl; counted = refl })
        (record { finished = refl; started = refl; counted = refl }) m;
}

abbrev reading : ℕ → ℕ → Reading
reading elapsed now = record { elapsed = elapsed; now = now }

abbrev readings : List Reading
readings = reading 0 100 ∷ reading 1 101 ∷ reading 2 102 ∷ reading 3 103 ∷ []

-- The old job goes, one row to the batch.
trimmed :
    (trim_old_jobs 50 1000 1 10 readings (calm three_jobs)).1.committed.rows
    ≡ job 2 pending none ∷ job 3 done (some 90) ∷ []
unfolding trim_old_jobs
trimmed = refl

-- The cutoff is the finish of the first job past the backstop, and only what is older goes: one
-- finished job more than `keep_max` stays.
capped :
    (trim_old_jobs 500 0 2 10 readings (calm three_jobs)).1.committed.rows
    ≡ job 2 pending none ∷ job 3 done (some 90) ∷ []
unfolding trim_old_jobs
capped = refl

-- The fifth call of the driver, the second DELETE, raises.
abbrev broken : Conn Table
broken = record {
  committed = three_jobs;
  working = three_jobs;
  faults = false ∷ false ∷ false ∷ false ∷ true ∷ [];
  late = [];
}

trim_old_jobs-Trimmed_example :
    let t = (trim_old_jobs 50 1000 1 10 readings broken).1.committed in
    IsWell t
    × ((r : Row) → In r t.rows → In r three_jobs.rows)
    × ((r : Row) → In r three_jobs.rows → is_active r.status ≡ true → In r t.rows)
    × (length (keep is_finished three_jobs.rows) ≤ 1000
        → (r : Row) → In r three_jobs.rows
        → ((d : Reading) → In d readings → past_window 50 d.now r ≡ false)
        → In r t.rows)
trim_old_jobs-Trimmed_example =
    trim_old_jobs-Trimmed 50 1000 1 10 readings broken refl three_jobs-IsWell

readings_early : (d : Reading) → In d readings → (d.elapsed < 10) × (100 ≤ d.now)
readings_early d m = elim (In-cons m) [
  | inl e ↦ rw e (omega arith, omega arith)
  | inr m2 ↦ elim (In-cons m2) [
    | inl e ↦ rw e (omega arith, omega arith)
    | inr m3 ↦ elim (In-cons m3) [
      | inl e ↦ rw e (omega arith, omega arith)
      | inr m4 ↦ elim (In-cons m4) [ inl e ↦ rw e (omega arith, omega arith) | inr n ↦ elim n [ ] ]
    ]
  ]
]

trim_old_jobs-clears_example : past_window 50 100 (job 3 done (some 90)) ≡ false
trim_old_jobs-clears_example =
    trim_old_jobs-clears 50 1 10 100 1000 readings three_jobs three_jobs-IsWell readings_early
      (omega arith) (job 3 done (some 90)) (rw trimmed (there (here refl)))
