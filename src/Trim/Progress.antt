-- ===== src/Trim/Progress.antt =====
-- Where it has the time, `trim_old_jobs` clears all that is past the window.
use bifrost_platform_plugin.Prelude.{
  ℕ, ◌+◌, ◌*◌, ◌≤◌, ◌<◌, ◌≡◌, refl, List, [], ◌∷◌, Bool, true, false, length, ltb, arith,
  Bool-cases, inl, inr, In, here, there,
}
use bifrost_platform_plugin.Db.{Conn, Outcome, return, calm}
use bifrost_platform_plugin.Db.Ensures.{Ensures, or_rollback-Ensures}
use bifrost_platform_plugin.Queue.{Row, Table, is_active}
use bifrost_platform_plugin.Queue.Invariant.{IsWell}
use bifrost_platform_plugin.Trim.{
  Reading, past_window, delete_rows, delete_batch, delete_loop, after_window, trim_old_jobs,
}
use bifrost_platform_plugin.Trim.Batches.{
  delete_matching-done, delete_matching_count, delete_rows-IsWell,
}
use bifrost_platform_plugin.Trim.Retention.{Trimmed, Keeps, after_window-Keeps}

past_window-later :
    (keep_secs now later : ℕ) (r : Row)
    → now ≤ later
    → past_window keep_secs later r ≡ false
    → past_window keep_secs now r ≡ false
past_window-later keep_secs now later r le h = ground (arith, le, h)

delete_batch-calm :
    (p : Row → Bool) (n : ℕ) (t : Table)
    → delete_batch p n (calm t) ≡ (return (delete_rows p n t).0, calm (delete_rows p n t).1)
unfolding delete_batch
delete_batch-calm p n t = refl

module _ (keep_secs batch_size budget now : ℕ) where
  -- What the first loop comes to.
  abbrev Cleared : Table → ℕ → Outcome (ℕ × List Reading) × Conn Table → Type 0
  Cleared t deleted p =
      (first : ℕ × List Reading) × (t' : Table) × (p ≡ (return first, calm t'))
      × IsWell t'
      × ((r : Row) → In r t'.rows → past_window keep_secs now r ≡ false)
      × (first.0 + length t'.rows ≡ deleted + length t.rows)

  delete_loop-Cleared :
      (rs : List Reading) (deleted : ℕ) (t : Table)
      → IsWell t
      → ((d : Reading) → In d rs → (d.elapsed < budget) × (now ≤ d.now))
      → length t.rows < length rs * batch_size
      → Cleared t deleted
          (delete_loop (past_window keep_secs) batch_size budget rs deleted (calm t))
  unfolding delete_loop delete_rows delete_batch
  delete_loop-Cleared [] deleted t w in_time room = absurd (omega (arith, room))
  delete_loop-Cleared (d ∷ rs) deleted t w in_time room =
      let (early, late) = in_time d (here refl) in
      let p = past_window keep_secs d.now in
      let k = (delete_rows p batch_size t).0 in
      let t1 = (delete_rows p batch_size t).1 in
      let counted = delete_matching_count p batch_size t.rows in
      let open_time : ltb d.elapsed budget ≡ true = ground (arith, early) in
      elim (Bool-cases (ltb k batch_size)) [
        | inl short ↦ (
          (deleted + k, rs),
          t1,
          rw open_time (rw short refl),
          delete_rows-IsWell p batch_size w,
          λ r m.
              past_window-later keep_secs now d.now r late
                (delete_matching-done p batch_size t.rows (ground (arith, short)) m),
          omega (arith, counted),
        )
        | inr full ↦
            let less : length t1.rows < length rs * batch_size =
              ground (arith, full, counted, room) in
            let (first, t2, run, well, clear, sum) =
              delete_loop-Cleared rs (deleted + k) t1 (delete_rows-IsWell p batch_size w)
                (λ e m. in_time e (there m)) less in
            (first, t2, rw open_time (rw full run), well, clear, omega (arith, sum, counted))
      ]

  -- Where no call raises and each reading of the clock is within the budget, with batches enough for
  -- all the rows: afterwards no job is left that was past the window at the instant `now`, which is
  -- not after any of the readings.
  pub trim_old_jobs-clears :
      (keep_max : ℕ) (readings : List Reading) (t : Table)
      → IsWell t
      → ((d : Reading) → In d readings → (d.elapsed < budget) × (now ≤ d.now))
      → length t.rows < length readings * batch_size
      → (r : Row)
      → In r (trim_old_jobs keep_secs keep_max batch_size budget readings (calm t)).1.committed.rows
      → past_window keep_secs now r ≡ false
  unfolding trim_old_jobs Keeps Ensures
  trim_old_jobs-clears keep_max readings t w in_time room r m =
      let (first, t1, run, well, clear, sum) = delete_loop-Cleared readings 0 t w in_time room in
      let start : Trimmed t1 (λ r. is_active r.status ≡ true) t1 = record {
        well = well;
        none_new = λ r m. m;
        kept = λ r m s. m;
        fewer = omega arith;
      } in
      let rest =
        or_rollback-Ensures (Trimmed t1 (λ r. is_active r.status ≡ true)) (λ _. Unit {0})
          (after_window keep_max batch_size budget first)
          (after_window-Keeps t1 (λ r. is_active r.status ≡ true) keep_max batch_size budget first
            (inr (λ cutoff r s. ground (arith, s))))
          (calm t1) (start, start) in
      clear r (rest.0.1.none_new r (rw run at m))
