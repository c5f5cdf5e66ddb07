-- ===== src/TrimRows.antt =====
-- trim_rows_past_window and trim_option_snapshots of scheduler/enqueue.py: rows of a market table
-- past their window leave in batches, each selected by its keys and committed. A key is a number; a
-- reading is that of Trim, the server's clock showing the day for the dated tables.
pub mod Batches
pub mod Spared
pub mod Exact
mod Tests
use bifrost_platform_plugin.Prelude.{
  ℕ, ◌+◌, Option, none, some, List, [], ◌∷◌, Bool, true, false, not, ◌&&◌, ◌||◌, has, keep, take,
  length, map, ltb, leb, ◌==◌, if◌then◌else◌,
}
use bifrost_platform_plugin.Db.{
  Db, Fault, value_error, pure, throw, execute, commit, or_rollback, ◌>>=◌, ◌>>◌,
}
use bifrost_platform_plugin.Archive.Passes.{cutoff_day}
use bifrost_platform_plugin.Trim.{Reading}

module _ {A : Type 0} where
  -- The keys that the SELECT with its LIMIT gives.
  abbrev pub chosen : (A → ℕ) → (A → Bool) → ℕ → List A → List ℕ
  chosen key_of due n rows = map key_of (take n (keep due rows))

  abbrev pub is_chosen : (A → ℕ) → List ℕ → A → Bool
  is_chosen key_of keys r = has (λ k. k == key_of r) keys

  -- DELETE … WHERE (keys) IN (SELECT keys … LIMIT n), and its rowcount.
  unfoldable pub delete_keyed : (A → ℕ) → (A → Bool) → ℕ → List A → ℕ × List A
  delete_keyed key_of due n rows =
      let keys = chosen key_of due n rows in
      (length (keep (is_chosen key_of keys) rows), keep (λ r. not (is_chosen key_of keys r)) rows)

  abbrev pub choose_one : {B : Type 0} → Bool → Db (List A) B → Db (List A) B → Db (List A) B
  choose_one true m k = m
  choose_one false m k = k

  unfoldable pub delete_keyed_batch : (A → ℕ) → (A → Bool) → ℕ → Db (List A) ℕ
  unfolding delete_keyed
  delete_keyed_batch key_of due batch_size = do
    execute (λ t. (tt {0}, t))
    n ← execute (delete_keyed key_of due batch_size)
    commit
    pure n

  -- The `while` of both trims.
  unfoldable pub keyed_loop : (A → ℕ) → (ℕ → A → Bool) → ℕ → ℕ → List Reading → ℕ → Db (List A) ℕ
  unfolding delete_keyed_batch
  keyed_loop key_of due batch_size budget [] deleted = pure deleted
  keyed_loop key_of due batch_size budget (d ∷ ds) deleted =
      choose_one (ltb d.elapsed budget)
        (delete_keyed_batch key_of (due d.now) batch_size >>= λ n.
          choose_one (ltb n batch_size) (pure (deleted + n))
            (keyed_loop key_of due batch_size budget ds (deleted + n)))
        (pure deleted)

  -- `_DATED_DELETE`
  unfoldable pub past_month : (A → ℕ) → ℕ → ℕ → A → Bool
  unfolding cutoff_day
  past_month day_of keep_days today r = ltb (day_of r) (cutoff_day false true keep_days today)

  -- `keys` says that the caller names some key column.
  unfoldable pub trim_rows_past_window :
      Bool → (A → ℕ) → (A → ℕ) → ℕ → ℕ → ℕ → List Reading → Db (List A) ℕ
  unfolding keyed_loop past_month
  trim_rows_past_window keys key_of day_of keep_days batch_size budget readings =
      choose_one keys
        (or_rollback (keyed_loop key_of (past_month day_of keep_days) batch_size budget readings 0))
        (throw value_error)

  -- `_SNAPSHOT_DELETE_ALL`, `_SNAPSHOT_DELETE_INTRADAY` and `_SPARE_PINNED`; `days_before` is what
  -- the server makes of `now() - make_interval(days => …)`, `current_date` its day at an instant,
  -- and `pin_dates` the pin_until of the contract's pins at an instant.
  abbrev pub is_pinned : (ℕ → A → List ℕ) → (ℕ → ℕ) → ℕ → A → Bool
  is_pinned pin_dates current_date now r = has (λ d. leb (current_date now) d) (pin_dates now r)

  unfoldable pub snapshot_due :
      (A → ℕ)
      → (A → Bool)
      → (ℕ → A → List ℕ)
      → (ℕ → ℕ)
      → (ℕ → ℕ → ℕ)
      → Bool
      → Bool
      → ℕ
      → ℕ
      → A
      → Bool
  snapshot_due time_of is_anchor pin_dates current_date days_before intraday_only pins keep_days now
        r =
      ltb (time_of r) (days_before now keep_days)
      && not (intraday_only && is_anchor r)
      && not (pins && is_pinned pin_dates current_date now r)

  -- `pins`: `_pin_table_exists`, a query before the `try`.
  unfoldable pub trim_option_snapshots :
      (A → ℕ)
      → (A → ℕ)
      → (A → Bool)
      → (ℕ → A → List ℕ)
      → (ℕ → ℕ)
      → (ℕ → ℕ → ℕ)
      → Bool
      → Bool
      → ℕ
      → ℕ
      → ℕ
      → List Reading
      → Db (List A) ℕ
  unfolding keyed_loop snapshot_due
  trim_option_snapshots key_of time_of is_anchor pin_dates current_date days_before pin_table
        intraday_only keep_days batch_size budget readings =
      execute (λ t. (pin_table, t)) >>= λ pins. or_rollback (
        keyed_loop key_of
          (snapshot_due time_of is_anchor pin_dates current_date days_before intraday_only pins
            keep_days)
          batch_size budget readings 0)
