-- ===== src/Trim.antt =====
-- `trim_old_jobs` of scheduler/enqueue.py: finished jobs leave in bounded, committed batches. A
-- reading is what the two clocks show when the loop's test is reached: the seconds since the start,
-- and the server's now(). A loop that has used up its readings is out of time.
pub mod Batches
pub mod Retention
pub mod Progress
mod Tests
use bifrost_platform_plugin.Prelude.{
  ℕ, zero, suc, ◌+◌, ◌-◌, Option, none, some, List, [], ◌∷◌, Bool, true, false, not, ◌&&◌, keep,
  take, drop, length, ltb, leb, if◌then◌else◌,
}
use bifrost_platform_plugin.Prelude.Sorting.{sort_by}
use bifrost_platform_plugin.Db.{Db, pure, execute, commit, or_rollback, ◌>>=◌, ◌>>◌}
use bifrost_platform_plugin.Queue.{Row, Table, is_active}

pub record Reading : Type 0 where
  pub elapsed : ℕ
  pub now : ℕ

-- status IN ('done', 'failed')
abbrev pub is_finished : Row → Bool
is_finished r = not (is_active r.status)

abbrev pub finished_before : ℕ → Row → Bool
finished_before cutoff r =
    is_finished r && elim r.finished_at [ none ↦ false | some f ↦ ltb f cutoff ]

-- finished_at < now() - make_interval(secs => %s)
abbrev pub past_window : ℕ → ℕ → Row → Bool
past_window keep_secs now r =
    is_finished r && elim r.finished_at [ none ↦ false | some f ↦ ltb (f + keep_secs) now ]

-- DELETE … WHERE ctid IN (SELECT ctid … LIMIT n): the first n that the scan meets.
unfoldable pub delete_matching : (Row → Bool) → ℕ → List Row → ℕ × List Row
delete_matching p n [] = (0, [])
delete_matching p n (r ∷ rows) =
    let hit = p r && ltb 0 n in
    let rest = delete_matching p (if hit then n - 1 else n) rows in
    if hit then (suc rest.0, rest.1) else (rest.0, r ∷ rest.1)

unfoldable pub delete_rows : (Row → Bool) → ℕ → Table → ℕ × Table
unfolding delete_matching
delete_rows p n t = let d = delete_matching p n t.rows in (d.0, record t { rows = d.1 })

-- SET LOCAL statement_timeout
abbrev pub set_timeout : Db Table (Unit {0})
set_timeout = execute (λ t. (tt, t))

-- `_delete`
unfoldable pub delete_batch : (Row → Bool) → ℕ → Db Table ℕ
unfolding delete_rows
delete_batch p batch_size = do set_timeout; n ← execute (delete_rows p batch_size); commit; pure n

abbrev pub choose : {A : Type 0} → Bool → Db Table A → Db Table A → Db Table A
choose true m k = m
choose false m k = k

-- A `while` that deletes; it returns the count and the readings that are left.
unfoldable pub delete_loop :
    (ℕ → Row → Bool) → ℕ → ℕ → List Reading → ℕ → Db Table (ℕ × List Reading)
unfolding delete_batch
delete_loop p batch_size budget [] deleted = pure (deleted, [])
delete_loop p batch_size budget (r ∷ rs) deleted =
    choose (ltb r.elapsed budget)
      (delete_batch (p r.now) batch_size >>= λ n.
        choose (ltb n batch_size) (pure (deleted + n, rs))
          (delete_loop p batch_size budget rs (deleted + n)))
      (pure (deleted, rs))

unfoldable pub over_cap : ℕ → Db Table Bool
over_cap keep_max = do
  set_timeout
  n ← execute (λ t. (length (take (keep_max + 1) (keep is_finished t.rows)), t))
  commit
  pure (ltb keep_max n)

-- ORDER BY finished_at DESC, with the NULLs first.
abbrev pub finished_later : Row → Row → Bool
finished_later r s = elim r.finished_at [
  | none ↦ true
  | some f ↦ elim s.finished_at [ none ↦ false | some g ↦ leb g f ]
]

abbrev pub first_finished_at : List Row → Option ℕ
first_finished_at [] = none
first_finished_at (r ∷ rows) = r.finished_at

unfoldable pub finished_cutoff : ℕ → Db Table (Option ℕ)
finished_cutoff keep_max = do
  set_timeout
  cutoff ← execute (λ t.
      (first_finished_at (drop keep_max (sort_by finished_later (keep is_finished t.rows))), t))
  commit
  pure cutoff

unfoldable pub cutoff_loop : ℕ → ℕ → List Reading → ℕ → Option ℕ → Db Table ℕ
unfolding delete_loop
cutoff_loop batch_size budget rs deleted none = pure deleted
cutoff_loop batch_size budget rs deleted (some cutoff) =
    delete_loop (λ _. finished_before cutoff) batch_size budget rs deleted >>= λ d. pure d.0

unfoldable pub cutoff_if : ℕ → Bool → Db Table (Option ℕ)
unfolding finished_cutoff
cutoff_if keep_max over = elim over [ true ↦ finished_cutoff keep_max | false ↦ pure none ]

unfoldable pub after_window : ℕ → ℕ → ℕ → ℕ × List Reading → Db Table ℕ
unfolding over_cap cutoff_if cutoff_loop
after_window keep_max batch_size budget first = do
  over ← over_cap keep_max
  cutoff ← cutoff_if keep_max over
  cutoff_loop batch_size budget first.1 first.0 cutoff

unfoldable pub trim_old_jobs : ℕ → ℕ → ℕ → ℕ → List Reading → Db Table ℕ
unfolding delete_loop after_window
trim_old_jobs keep_secs keep_max batch_size budget readings = or_rollback (do
  first ← delete_loop (past_window keep_secs) batch_size budget readings 0
  after_window keep_max batch_size budget first)
