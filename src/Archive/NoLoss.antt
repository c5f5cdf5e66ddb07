-- ===== src/Archive/NoLoss.antt =====
-- What a pass of archive_past_window promises of the rows.
use bifrost_platform_plugin.Prelude.{
  ℕ, ◌≤◌, ◌<◌, ◌≡◌, refl, ◌≢◌, inl, inr, List, [], Bool, true, false, length, arith, In, All,
}
use bifrost_platform_plugin.Archive.{
  fails_late, Result, returned, raised, died, World, Root, is_available, Name,
}
use bifrost_platform_plugin.Archive.Steps.{Ends}
use bifrost_platform_plugin.Archive.Passes.{ArchiveRun, Night, archive_past_window}
use bifrost_platform_plugin.Archive.Kept.{Kept}
use bifrost_platform_plugin.Archive.Rounds.{AtEnd, GivenUp}
use bifrost_platform_plugin.Archive.Window.{archive_past_window-AtEnd}

module _ {A : Type 0} where
  module _ (day_of : A → ℕ) (extra : A → Bool) (stored : List A → List A) (night : Night A)
      (root : Root) (require_mount : Bool) (cutoff span budget began : ℕ) (w : World A) where
    -- A night in which no call fails, each file holds what was written to it, the budget lasts and
    -- the archive is there.
    pub record Quiet : Type 0 where
      pub no_signal : w.signals ≡ []
      pub no_commit_signal : w.commits ≡ []
      pub intact : (xs : List A) → stored xs ≡ xs
      pub in_time : (i : ℕ) → night.elapsed i < budget
      pub available : is_available require_mount root ≡ true

    window-AtEnd :
        ((xs : List A) → length (stored xs) ≡ length xs → stored xs ≡ xs)
        → ((i : ℕ) → began ≤ night.stamp i)
        → All (λ (f : Name × List A). f.0.stamp < began) w.files
        → All (λ s. s ≢ fails_late) w.commits
        → Ends
            (GivenUp day_of extra stored night Quiet cutoff span budget began w)
            (AtEnd day_of extra stored night Quiet cutoff span budget began w)
            (archive_past_window day_of extra stored night root require_mount cutoff span budget w)
    window-AtEnd whole clock older certain =
        archive_past_window-AtEnd day_of extra stored night Quiet cutoff span budget began w whole
          (λ q. q.intact) (λ q. q.in_time) clock older root require_mount (λ q. q.available)
          (record {
            same_table = refl;
            same_files = refl;
            certain = certain;
            calm = λ q. (q.no_signal, q.no_commit_signal);
          })

  ending-Kept :
      {w : World A} {E : World A → Type 0} {Q : ArchiveRun → World A → Type 0}
      (r : Result ArchiveRun × World A)
      → Ends E Q r
      → ((v : World A) → E v → Kept w v)
      → ((run : ArchiveRun) (v : World A) → Q run v → Kept w v)
      → Kept w r.1
  ending-Kept (returned run, v) h e q = q run v h.ending
  ending-Kept (raised, v) h e q = e v h.ending
  ending-Kept (died, v) h e q = e v h.ending

  ended_well :
      {E : World A → Type 0} {Q : ArchiveRun → World A → Type 0} (r : Result ArchiveRun × World A)
      → Ends E Q r
      → ((v : World A) → E v → ⊥)
      → (run : ArchiveRun) × (v : World A) × (r ≡ (returned run, v)) × Q run v
  ended_well (returned run, v) h no_end = (run, v, refl, h.ending)
  ended_well (raised, v) h no_end = absurd (no_end v h.ending)
  ended_well (died, v) h no_end = absurd (no_end v h.ending)

  -- Whatever calls raise or end the process, before or after their effect, the commits apart that
  -- take effect and then raise: every row of the table is afterwards in the table or in a file, and
  -- every file is still there with its rows. The files of before bear an earlier second, and a file
  -- with as many rows as were written to it holds those rows.
  pub archive_past_window-Kept :
      (day_of : A → ℕ) (extra : A → Bool) (stored : List A → List A) (night : Night A) (root : Root)
      (require_mount : Bool) (cutoff span budget began : ℕ) (w : World A)
      → ((xs : List A) → length (stored xs) ≡ length xs → stored xs ≡ xs)
      → ((i : ℕ) → began ≤ night.stamp i)
      → All (λ (f : Name × List A). f.0.stamp < began) w.files
      → All (λ s. s ≢ fails_late) w.commits
      → Kept w
          (archive_past_window day_of extra stored night root require_mount cutoff span budget w).1
  archive_past_window-Kept day_of extra stored night root require_mount cutoff span budget began w
        whole clock older certain =
      ending-Kept _
        (window-AtEnd day_of extra stored night root require_mount cutoff span budget began w whole
          clock older certain)
        (λ v h. h.kept) (λ run v h. h.kept)

  -- Where the pass returns without an error and within its budget, every row that is left of those
  -- that the pass is about and that are before the cutoff was committed by others meanwhile. It is
  -- taken that no commit raises after it took effect, that the files of before bear an earlier
  -- second, and that a file with as many rows as were written to it holds those rows.
  pub archive_past_window-done :
      (day_of : A → ℕ) (extra : A → Bool) (stored : List A → List A) (night : Night A) (root : Root)
      (require_mount : Bool) (cutoff span budget began : ℕ) (w v : World A) (run : ArchiveRun)
      (r : A)
      → ((xs : List A) → length (stored xs) ≡ length xs → stored xs ≡ xs)
      → ((i : ℕ) → began ≤ night.stamp i)
      → All (λ (f : Name × List A). f.0.stamp < began) w.files
      → All (λ s. s ≢ fails_late) w.commits
      → archive_past_window day_of extra stored night root require_mount cutoff span budget w
        ≡ (returned run, v)
      → run.error ≡ false
      → run.budget_exhausted ≡ false
      → In r v.table
      → extra r ≡ true
      → day_of r < cutoff
      → (i : ℕ) × In r (night.late i)
  archive_past_window-done day_of extra stored night root require_mount cutoff span budget began w v
        run r whole clock older certain e no_error in_budget m x lt =
      let h = rw e at (
        window-AtEnd day_of extra stored night root require_mount cutoff span budget began w whole
          clock older certain) in
      elim (h.ending.done no_error in_budget r m x lt) [
        | inl le ↦ absurd (omega (arith, le, lt))
        | inr new ↦ new
      ]

  -- In a night in which no call fails, each file holds what was written to it, the budget lasts and
  -- the archive is there, and where the files of before bear an earlier second: the pass returns
  -- without an error and within its budget.
  pub archive_past_window-quiet :
      (day_of : A → ℕ) (extra : A → Bool) (stored : List A → List A) (night : Night A) (root : Root)
      (require_mount : Bool) (cutoff span budget began : ℕ) (w : World A)
      → Quiet day_of extra stored night root require_mount cutoff span budget began w
      → ((i : ℕ) → began ≤ night.stamp i)
      → All (λ (f : Name × List A). f.0.stamp < began) w.files
      → (run : ArchiveRun) × (v : World A) × (archive_past_window day_of extra stored night root
            require_mount cutoff span budget w
          ≡ (returned run, v))
        × (run.error ≡ false)
        × (run.budget_exhausted ≡ false)
  archive_past_window-quiet day_of extra stored night root require_mount cutoff span budget began w
        q clock older =
      let (run, v, e, h) =
        ended_well _
          (window-AtEnd day_of extra stored night root require_mount cutoff span budget began w
            (λ xs _. q.intact xs) clock older (rw q.no_commit_signal tt))
          (λ v h. h.not_quiet q) in
      (run, v, e, (h.calm q).0, (h.calm q).1)
