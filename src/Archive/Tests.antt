-- ===== src/Archive/Tests.antt =====
-- Runs of the archive on small tables of days, and the theorems at them.
use bifrost_platform_plugin.Prelude.{
  ℕ, ◌+◌, ◌<◌, ◌≤◌, max, ◌≡◌, refl, arith, none, some, List, [], ◌∷◌, ◌++◌, Bool, true, false, not,
  keep, In, here, there,
}
use bifrost_platform_plugin.Dates.{year_of, month_of}
use bifrost_platform_plugin.Archive.{
  Signal, fine, fails_late, dies_late, returned, raised, died, World, Name, Root, archive_range,
  chunk_end, in_range,
}
use bifrost_platform_plugin.Archive.Steps.{Ends}
use bifrost_platform_plugin.Archive.Files.{Stopped, Moved}
use bifrost_platform_plugin.Archive.Chunks.{chunk_end-bounds}
use bifrost_platform_plugin.Archive.Loops.{archive_chunks-fuel}
use bifrost_platform_plugin.Archive.Ranges.{archive_range-Moved}
use bifrost_platform_plugin.Archive.Kept.{Kept}
use bifrost_platform_plugin.Archive.Passes.{
  ArchiveRun, new_run, Night, cutoff_day, archive_chunks, archive_past_window,
}
use bifrost_platform_plugin.Archive.NoLoss.{
  archive_past_window-Kept, archive_past_window-done, archive_past_window-quiet,
}

abbrev same_day : ℕ → ℕ
same_day d = d

abbrev every_day : ℕ → Bool
every_day d = true

abbrev as_written : List ℕ → List ℕ
as_written xs = xs

-- Days 40 and 41 are in February of the year 1, 90 in April.
abbrev days_table : List ℕ
days_table = 40 ∷ 41 ∷ 90 ∷ 150 ∷ []

abbrev old_file : Name × List ℕ
old_file = (record { first = 7; last = 8; stamp = 5 }, 7 ∷ [])

abbrev world_with : List Signal → List Signal → World ℕ
world_with ss cs = record {
  table = days_table;
  view = [];
  files = old_file ∷ [];
  partial = none;
  signals = ss;
  commits = cs;
}

abbrev some_night : Night ℕ
some_night = record { elapsed = λ i. 0; stamp = λ i. 1000 + i; late = λ i. 45 ∷ [] }

abbrev mounted : Root
mounted = record { is_dir = true; is_mount = true; is_writable = true }

abbrev february : Name
february = record { first = 40; last = 58; stamp = 1000 }

-- The last day kept.
cutoff_month : cutoff_day false true 30 130 ≡ 90
unfolding cutoff_day
cutoff_month = refl

-- A range that goes well, one whose process dies as the commit takes effect, and one whose commit
-- takes effect and then raises: its file goes, and the rows are lost.
range_ok :
    let r = archive_range same_day every_day as_written february [] 40 59 (world_with [] []) in
    (r.0 ≡ returned 2)
    × (r.1.table ≡ 90 ∷ 150 ∷ [])
    × (r.1.files ≡ old_file ∷ (february, 40 ∷ 41 ∷ []) ∷ [])
unfolding archive_range
range_ok = (refl, refl, refl)

range_died :
    let r =
      archive_range same_day every_day as_written february [] 40 59
        (world_with [] (dies_late ∷ [])) in
    (r.0 ≡ died)
    × (r.1.table ≡ 90 ∷ 150 ∷ [])
    × (r.1.files ≡ old_file ∷ (february, 40 ∷ 41 ∷ []) ∷ [])
unfolding archive_range
range_died = (refl, refl, refl)

range_lost :
    let r =
      archive_range same_day every_day as_written february [] 40 59
        (world_with [] (fails_late ∷ [])) in
    (r.0 ≡ raised) × (r.1.table ≡ 90 ∷ 150 ∷ []) × (r.1.files ≡ old_file ∷ [])
unfolding archive_range
range_lost = (refl, refl, refl)

chunk_end-bounds_example :
    (40 < chunk_end 40 100 31)
    × (chunk_end 40 100 31 ≤ 100)
    × (chunk_end 40 100 31 ≤ 40 + max 1 31)
    × (year_of 58 ≡ year_of 40)
    × (month_of 58 ≡ month_of 40)
unfolding chunk_end
chunk_end-bounds_example = chunk_end-bounds 40 100 31 58 (omega arith) (omega arith) (omega arith)

archive_chunks-fuel_example :
    archive_chunks same_day every_day as_written some_night 60 0 100 31 9 40 new_run
      (world_with [] [])
    ≡ archive_chunks same_day every_day as_written some_night 70 0 100 31 9 40 new_run
        (world_with [] [])
archive_chunks-fuel_example =
    archive_chunks-fuel same_day every_day as_written some_night 60 70 0 100 31 9 40 new_run
      (world_with [] []) (omega arith) (omega arith)

abbrev range_world : World ℕ
range_world = world_with (fine ∷ fine ∷ fails_late ∷ []) (dies_late ∷ [])

abbrev february_rows : ℕ → Bool
february_rows r = in_range same_day every_day as_written 40 59 r

archive_range-Moved_example :
    Ends
      (Stopped
        (((fine ∷ fine ∷ fails_late ∷ []) ≡ [])
          × ((dies_late ∷ []) ≡ [])
          × ((xs : List ℕ) → as_written xs ≡ xs))
        (days_table ++ (45 ∷ []))
        (keep (λ r. not (february_rows r)) days_table ++ (45 ∷ []))
        (keep february_rows days_table)
        (old_file ∷ [])
        february)
      (Moved
        (((fine ∷ fine ∷ fails_late ∷ []) ≡ [])
          × ((dies_late ∷ []) ≡ [])
          × ((xs : List ℕ) → as_written xs ≡ xs))
        (keep (λ r. not (february_rows r)) days_table ++ (45 ∷ []))
        (keep february_rows days_table)
        (old_file ∷ [])
        february)
      (archive_range same_day every_day as_written february (45 ∷ []) 40 59 range_world)
archive_range-Moved_example =
    archive_range-Moved same_day every_day as_written february (45 ∷ []) 40 59 range_world
      (λ xs e. refl) (refl, tt) ((λ e. ground (arith, e)), tt)

archive_past_window-Kept_example :
    Kept range_world
      (archive_past_window same_day every_day as_written some_night mounted true 100 31 9
        range_world).1
archive_past_window-Kept_example =
    archive_past_window-Kept same_day every_day as_written some_night mounted true 100 31 9 1000
      range_world (λ xs e. refl) (λ i. omega arith) (omega arith, tt) ((λ e. ground (arith, e)), tt)

archive_past_window-quiet_example :
    (run : ArchiveRun) × (v : World ℕ) × (archive_past_window same_day every_day as_written
        some_night mounted true 100 31 9
        (world_with [] [])
      ≡ (returned run, v))
    × (run.error ≡ false)
    × (run.budget_exhausted ≡ false)
unfolding archive_past_window
archive_past_window-quiet_example =
    archive_past_window-quiet same_day every_day as_written some_night mounted true 100 31 9 1000
      (world_with [] [])
      (record {
        no_signal = refl;
        no_commit_signal = refl;
        intact = λ xs. refl;
        in_time = λ i. omega arith;
        available = refl;
      })
      (λ i. omega arith) (omega arith, tt)

-- In each range a row of day 45 is inserted by others.
abbrev april : Name
april = record { first = 90; last = 99; stamp = 1002 }

abbrev new_world : World ℕ
new_world = record {
  table = 150 ∷ 45 ∷ 45 ∷ 45 ∷ [];
  view = 150 ∷ 45 ∷ 45 ∷ [];
  files = old_file ∷ (february, 40 ∷ 41 ∷ []) ∷ (april, 90 ∷ []) ∷ [];
  partial = none;
  signals = [];
  commits = [];
}

abbrev the_run : ArchiveRun
the_run = record {
  days = 29;
  rows = 3;
  files = february ∷ april ∷ [];
  cutoff = some 100;
  error = false;
  budget_exhausted = false;
}

pass_ok :
    archive_past_window same_day every_day as_written some_night mounted true 100 31 9
      (world_with [] [])
    ≡ (returned the_run, new_world)
unfolding archive_past_window
pass_ok = refl

not_mounted :
    (archive_past_window same_day every_day as_written some_night
      (record mounted { is_mount = false })
      true
      100
      31
      9
      (world_with [] [])).0
    ≡ returned (record new_run { error = true })
unfolding archive_past_window
not_mounted = refl

archive_past_window-done_example : (i : ℕ) × In 45 (some_night.late i)
archive_past_window-done_example =
    archive_past_window-done same_day every_day as_written some_night mounted true 100 31 9 1000
      (world_with [] []) new_world the_run 45 (λ xs e. refl) (λ i. omega arith) (omega arith, tt) tt
      pass_ok refl refl (there (here refl)) refl (omega arith)
