-- ===== src/Archive.antt =====
-- retention_archive.py: rows past the window go to a file, and only then leave the table. A call of
-- the driver or of the file system may raise, before or after it has had its effect, and the
-- process may die at any of them: which of these happens is an argument, one signal to a call.
pub mod Steps
pub mod Chunks
pub mod Files
pub mod Batches
pub mod Commits
pub mod Ranges
pub mod Passes
pub mod Loops
pub mod Kept
pub mod Rounds
pub mod Window
pub mod NoLoss
mod Tests
use bifrost_platform_plugin.Prelude.{
  ℕ, zero, suc, ◌+◌, ◌-◌, ◌*◌, ◌/◌, min, max, Option, none, some, List, [], ◌∷◌, ◌++◌, Bool, true,
  false, not, ◌&&◌, keep, take, drop, length, ltb, leb, ◌==◌, if◌then◌else◌,
}
use bifrost_platform_plugin.Dates.{next_month, month_first}

pub data Signal : Type 0 where
  fine fails fails_late dies dies_late : Signal

pub data Result {ℓ} (B : Type ℓ) : Type ℓ where
  returned : B → Result B
  raised died : Result B

-- `FETCH_ROWS`
abbrev pub fetch_rows : ℕ
fetch_rows = 50000

-- `_chunk_end`
unfoldable pub chunk_end : ℕ → ℕ → ℕ → ℕ
unfolding next_month
chunk_end start cutoff span_days = min (min cutoff (next_month start)) (start + max 1 span_days)

-- `RetentionArchive.unavailable_reason`: what the file system says of the root.
pub record Root : Type 0 where
  pub is_dir : Bool
  pub is_mount : Bool
  pub is_writable : Bool

unfoldable pub is_available : Bool → Root → Bool
is_available require_mount root =
    if not root.is_dir
    then false
    else if require_mount && not root.is_mount
    then false
    else root.is_writable

-- The name of a file: the days and the second it was begun in.
pub record Name : Type 0 where
  pub first : ℕ
  pub last : ℕ
  pub stamp : ℕ

abbrev pub same_name : Name → Name → Bool
same_name m n = m.first == n.first && m.last == n.last && m.stamp == n.stamp

-- The table as the server has it, the rows that this transaction sees, the files under their names,
-- the file that is being written, and the signals of the calls to come, of the commits apart.
pub record World (A : Type 0) : Type 0 where
  pub table : List A
  pub view : List A
  pub files : List (Name × List A)
  pub partial : Option (List A)
  pub signals : List Signal
  pub commits : List Signal

abbrev pub Act : Type 0 → Type 0 → Type 0
Act A B = World A → Result B × World A

abbrev pub later : List Signal → List Signal
later [] = []
later (s ∷ ss) = ss

abbrev pub next : List Signal → Signal
next [] = fine
next (s ∷ ss) = s

module _ {A : Type 0} where
  abbrev pub done_with : {B : Type 0} → B → Act A B
  done_with b w = (returned b, w)

  abbrev pub fail : {B : Type 0} → Act A B
  fail w = (raised, w)

  abbrev pub and_then : {B C : Type 0} → (B → Act A C) → Result B × World A → Result C × World A
  and_then k (returned b, w) = k b w
  and_then k (raised, w) = (raised, w)
  and_then k (died, w) = (died, w)

  infixl 5 ◌>>=◌ ◌>>◌
  abbrev pub ◌>>=◌ : {B C : Type 0} → Act A B → (B → Act A C) → Act A C
  ◌>>=◌ m k w = and_then k (m w)

  abbrev pub ◌>>◌ : {B C : Type 0} → Act A B → Act A C → Act A C
  m >> n = m >>= λ _. n

  -- A call whose effect is `f`.
  abbrev pub called : (World A → World A) → World A → Signal → Result (Unit {0}) × World A
  called f w fine = (returned tt, f w)
  called f w fails = (raised, w)
  called f w fails_late = (raised, f w)
  called f w dies = (died, w)
  called f w dies_late = (died, f w)

  unfoldable pub call : (World A → World A) → Act A (Unit {0})
  call f w = called f (record w { signals = later w.signals }) (next w.signals)

  unfoldable pub commit : (World A → World A) → Act A (Unit {0})
  commit f w = called f (record w { commits = later w.commits }) (next w.commits)

  abbrev pub nothing : World A → World A
  nothing w = w

  -- `except Exception`; a process that died runs no handler.
  abbrev pub caught : {B : Type 0} → Act A B → Result B × World A → Result B × World A
  caught k (returned b, w) = (returned b, w)
  caught k (raised, w) = k w
  caught k (died, w) = (died, w)

  abbrev pub or_handle : {B : Type 0} → Act A B → Act A B → Act A B
  or_handle m k w = caught k (m w)

  abbrev pub when : Bool → Act A (Unit {0}) → Act A (Unit {0})
  when true m = m
  when false m = done_with tt

  -- `os.replace`: a file of that name is overwritten.
  abbrev pub put_file : Name → List A → List (Name × List A) → List (Name × List A)
  put_file name rows [] = (name, rows) ∷ []
  put_file name rows (f ∷ fs) =
      let rest = put_file name rows fs in if same_name f.0 name then (name, rows) ∷ fs else f ∷ rest

  abbrev pub drop_file : Name → List (Name × List A) → List (Name × List A)
  drop_file name fs = keep (λ f. not (same_name f.0 name)) fs

  abbrev pub rows_of : Option (List A) → List A
  rows_of none = []
  rows_of (some rows) = rows

  -- The SELECT of the server-side cursor, which takes the snapshot.
  abbrev pub take_view : List A → World A → World A
  take_view seen w = record w { view = seen }

  abbrev pub append_partial : List A → World A → World A
  append_partial rows w = record w { partial = some (rows_of w.partial ++ rows) }

  -- The `while True` with its first batch, which opens the writer: `left` bounds the batches.
  unfoldable pub write_batches : ℕ → List A → ℕ → Act A ℕ
  unfolding call
  write_batches left [] rows = call nothing >> done_with rows
  write_batches zero (r ∷ rs) rows = done_with rows
  write_batches (suc left) (r ∷ rs) rows =
      call nothing
      >> when (rows == 0) (call nothing >> call (append_partial []))
      >> call (append_partial (take fetch_rows (r ∷ rs)))
      >> write_batches left (drop fetch_rows (r ∷ rs)) (rows + length (take fetch_rows (r ∷ rs)))

  -- The commit: rows that others inserted meanwhile stay.
  abbrev pub commit_view : List A → World A → World A
  commit_view late w = record w { table = w.view ++ late }

  unfoldable pub commit_or_unlink : Name → List A → Act A (Unit {0})
  unfolding call commit
  commit_or_unlink name late =
      or_handle (commit (commit_view late))
        (call (λ w. record w { files = drop_file name w.files }) >> fail)

  -- Its `except`: the partial file goes, and an error of the rollback is swallowed.
  unfoldable pub abandon : Act A ℕ
  unfolding call
  abandon =
      call (λ w. record w { partial = none }) >> or_handle (call nothing) (done_with tt) >> fail

  -- The manifest and the line of the ledger.
  unfoldable pub write_manifest : ℕ → Act A ℕ
  unfolding call
  write_manifest zero = done_with 0
  write_manifest (suc n) = call nothing >> call nothing >> done_with (suc n)

  -- What `_range_predicate` selects; `extra` is the clause that the caller adds, and `stored` what a
  -- file holds of the rows that were written to it.
  module _ (day_of : A → ℕ) (extra : A → Bool) (stored : List A → List A) where
    abbrev pub in_range : ℕ → ℕ → A → Bool
    in_range start end r = leb start (day_of r) && ltb (day_of r) end && extra r

    -- Reading the file back.
    unfoldable pub check_written : ℕ → Act A (Unit {0})
    unfolding call
    check_written rows = call nothing >> λ w.
        if length (stored (rows_of w.partial)) == rows then (returned tt, w) else (raised, w)

    -- The DELETE, under the snapshot, and its rowcount.
    unfoldable pub delete_range : ℕ → ℕ → ℕ → Act A (Unit {0})
    unfolding call
    delete_range start end rows w =
        let hits = length (keep (in_range start end) w.view) in
        and_then (λ _ d. if hits == rows then (returned tt, d) else (raised, d))
          (call (λ d. record d { view = keep (λ r. not (in_range start end r)) d.view }) w)

    abbrev pub replace_file : Name → World A → World A
    replace_file name w = record w {
      files = put_file name (stored (rows_of w.partial)) w.files;
      partial = none;
    }

    unfoldable pub finish_range : Name → List A → ℕ → ℕ → ℕ → Act A ℕ
    unfolding call check_written delete_range commit_or_unlink
    finish_range name late start end zero = call nothing >> done_with 0
    finish_range name late start end (suc n) =
        call nothing
        >> call nothing
        >> check_written (suc n)
        >> delete_range start end (suc n)
        >> call (replace_file name)
        >> commit_or_unlink name late
        >> done_with (suc n)

    -- The `try` of `archive_range`.
    unfoldable pub export_range : Name → List A → List A → ℕ → ℕ → Act A ℕ
    unfolding call write_batches finish_range
    export_range name seen late start end =
        call nothing
        >> call nothing
        >> call (take_view seen)
        >> (λ w.
            let hits = keep (in_range start end) w.view in write_batches (length hits) hits 0 w)
        >>= finish_range name late start end

    -- `late` is what others commit while the range is archived.
    unfoldable pub archive_range : Name → List A → ℕ → ℕ → Act A ℕ
    unfolding export_range abandon write_manifest
    archive_range name late start end w =
        (or_handle (export_range name w.table late start end) abandon >>= write_manifest)
          (record w { table = w.table ++ late; partial = none })
