-- ===== src/Archive/Passes.antt =====
-- archive_past_window: one table's rows past the window, range by range from the oldest day on.
use bifrost_platform_plugin.Prelude.{
  ℕ, zero, suc, ◌+◌, ◌-◌, min, Option, none, some, List, [], ◌∷◌, ◌++◌, Bool, true, false, ◌&&◌,
  keep, map, ltb, leb, if◌then◌else◌,
}
use bifrost_platform_plugin.Dates.{month_first}
use bifrost_platform_plugin.Archive.{
  Result, returned, raised, died, World, Act, Name, Root, is_available, or_handle, call, done_with,
  nothing, ◌>>◌, archive_range, chunk_end,
}

-- `ArchiveRun`; of the error, that there is one.
pub record ArchiveRun : Type 0 where
  pub days : ℕ
  pub rows : ℕ
  pub files : List Name
  pub cutoff : Option ℕ
  pub error : Bool
  pub budget_exhausted : Bool

abbrev pub new_run : ArchiveRun
new_run = record {
  days = 0;
  rows = 0;
  files = [];
  cutoff = none;
  error = false;
  budget_exhausted = false;
}

-- `_cutoff_day`, from the current day of the server.
unfoldable pub cutoff_day : Bool → Bool → ℕ → ℕ → ℕ
unfolding month_first
cutoff_day timestamp month_floor keep_days today =
    let day = today - keep_days in
    if timestamp then day else if month_floor then month_first day else day

-- What the outside gives for each range: how long the pass has run, the second on the clock, and
-- the rows that others commit while the range is archived and until the next is begun.
pub record Night (A : Type 0) : Type 0 where
  pub elapsed : ℕ → ℕ
  pub stamp : ℕ → ℕ
  pub late : ℕ → List A

abbrev pub least : List ℕ → Option ℕ
least [] = none
least (n ∷ ns) = elim (least ns) [ none ↦ some n | some m ↦ some (min n m) ]

-- A range of `rows` rows was archived.
abbrev pub note_range : ℕ → ℕ → Name → ArchiveRun → ℕ → ArchiveRun
note_range start end name run zero = run
note_range start end name run (suc n) = record run {
  days = run.days + (end - start);
  rows = run.rows + suc n;
  files = run.files ++ (name ∷ []);
}

module _ {A : Type 0} where
  abbrev pub and_then_or :
      {B C : Type 0} → Act A C → (B → Act A C) → Result B × World A → Result C × World A
  and_then_or k more (returned b, w) = more b w
  and_then_or k more (raised, w) = k w
  and_then_or k more (died, w) = (died, w)

  -- The `except` of the pass.
  unfoldable pub stop_run : ArchiveRun → Act A ArchiveRun
  unfolding call
  stop_run run = or_handle (call nothing) (done_with tt) >> done_with (record run { error = true })

  module _ (day_of : A → ℕ) (extra : A → Bool) (stored : List A → List A) (night : Night A) where
    -- `_oldest_day`
    abbrev pub oldest_day : ℕ → List A → Option ℕ
    oldest_day cutoff rows = least (map day_of (keep (λ r. ltb (day_of r) cutoff && extra r) rows))

    abbrev pub name_of : ℕ → ℕ → ℕ → Name
    name_of i start end = record { first = start; last = end - 1; stamp = night.stamp i }

    -- One round of the loop, and what it adds to the run.
    abbrev pub archive_chunk : ℕ → ℕ → ℕ → ℕ → Act A ℕ
    archive_chunk i cutoff span day =
        let end = chunk_end day cutoff span in
        archive_range day_of extra stored (name_of i day end) (night.late i) day end

    abbrev pub note_chunk : ℕ → ℕ → ℕ → ℕ → ArchiveRun → ℕ → ArchiveRun
    note_chunk i cutoff span day run n =
        let end = chunk_end day cutoff span in note_range day end (name_of i day end) run n

    -- The `while` of `archive_past_window`; `left` bounds its rounds.
    unfoldable pub archive_chunks : ℕ → ℕ → ℕ → ℕ → ℕ → ℕ → ArchiveRun → Act A ArchiveRun
    unfolding chunk_end archive_range stop_run
    archive_chunks zero i cutoff span budget day run w = (returned run, w)
    archive_chunks (suc left) i cutoff span budget day run w =
        let more = λ (n : ℕ).
          archive_chunks left (i + 1) cutoff span budget (chunk_end day cutoff span)
            (note_chunk i cutoff span day run n) in
        if ltb day cutoff
        then if leb budget (night.elapsed i)
          then (returned (record run { budget_exhausted = true }), w)
          else and_then_or (stop_run run) more (archive_chunk i cutoff span day w)
        else (returned run, w)

    abbrev pub from_oldest : ℕ → ℕ → ℕ → ArchiveRun → Option ℕ → Act A ArchiveRun
    from_oldest cutoff span budget run none w = (returned run, w)
    from_oldest cutoff span budget run (some day) w =
        and_then_or (stop_run run) (λ _. archive_chunks (cutoff - day) 0 cutoff span budget day run)
          ((call nothing >> call nothing) w)

    -- The calls before the loop: the cutoff, the oldest day and the columns, each with its commit.
    unfoldable pub archive_past_window : Root → Bool → ℕ → ℕ → ℕ → Act A ArchiveRun
    unfolding is_available archive_chunks stop_run call
    archive_past_window root require_mount cutoff span budget w =
        let run = record new_run { cutoff = some cutoff } in
        if is_available require_mount root
        then and_then_or (stop_run new_run)
            (λ _ v.
              and_then_or (stop_run run)
                (λ _ u. from_oldest cutoff span budget run (oldest_day cutoff u.table) u)
                ((call nothing >> call nothing >> call nothing) v))
            ((call nothing >> call nothing) w)
        else (returned (record new_run { error = true }), w)
