-- ===== src/TrimRows/Exact.antt =====
-- Where no call raises and there is time, the batches of a trim come to one unbounded DELETE.
use bifrost_platform_plugin.Prelude.{
  ℕ, ◌+◌, ◌*◌, ◌<◌, ◌≡◌, refl, sym, ap, ◌∙◌, List, [], ◌∷◌, Bool, true, not, keep, length, ltb,
  arith, Bool-cases, inl, inr, In, here, there,
}
use bifrost_platform_plugin.Db.{Outcome, return, Conn, calm}
use bifrost_platform_plugin.Trim.{Reading}
use bifrost_platform_plugin.TrimRows.{
  delete_keyed, delete_keyed_batch, keyed_loop, past_month, trim_rows_past_window,
}
use bifrost_platform_plugin.TrimRows.Batches.{
  Keyed, Keyed-keep, keep_all, delete_keyed-count, delete_keyed-rest, delete_keyed-done,
}

module _ {A : Type 0} where
  delete_keyed_batch-calm :
      (key_of : A → ℕ) (due : A → Bool) (n : ℕ) (t : List A)
      → delete_keyed_batch key_of due n (calm t)
        ≡ (return (delete_keyed key_of due n t).0, calm (delete_keyed key_of due n t).1)
  unfolding delete_keyed_batch
  delete_keyed_batch-calm key_of due n t = refl

  Keyed-delete_keyed :
      (key_of : A → ℕ) (due : A → Bool) (n : ℕ) (rows : List A)
      → Keyed key_of rows
      → Keyed key_of (delete_keyed key_of due n rows).1
  unfolding delete_keyed
  Keyed-delete_keyed key_of due n rows u = Keyed-keep key_of _ rows u

  module _ (key_of : A → ℕ) (due : ℕ → A → Bool) (batch_size budget now : ℕ) where
    -- The rows that are due have left, and are counted.
    abbrev Emptied : List A → ℕ → Outcome ℕ × Conn (List A) → Type 0
    Emptied t deleted p =
        (n : ℕ) × (p ≡ (return n, calm (keep (λ r. not (due now r)) t)))
        × (n + length (keep (λ r. not (due now r)) t) ≡ deleted + length t)

    keyed_loop-Emptied :
        (ds : List Reading) (deleted : ℕ) (t : List A)
        → Keyed key_of t
        → ((d : Reading) → In d ds → (d.elapsed < budget) × (d.now ≡ now))
        → length t < length ds * batch_size
        → Emptied t deleted (keyed_loop key_of due batch_size budget ds deleted (calm t))
    unfolding keyed_loop delete_keyed_batch
    keyed_loop-Emptied [] deleted t u in_time room = absurd (omega (arith, room))
    keyed_loop-Emptied (d ∷ ds) deleted t u in_time room =
        let (early, same) = in_time d (here refl) in
        let p = due d.now in
        let k = (delete_keyed key_of p batch_size t).0 in
        let t1 = (delete_keyed key_of p batch_size t).1 in
        let counted = delete_keyed-count key_of p batch_size t in
        let rest : keep (λ r. not (due now r)) t1 ≡ keep (λ r. not (due now r)) t =
          ap (λ m. keep (λ r. not (due now r)) (delete_keyed key_of (due m) batch_size t).1) same
          ∙ delete_keyed-rest key_of (due now) batch_size t u in
        let open_time : ltb d.elapsed budget ≡ true = ground (arith, early) in
        elim (Bool-cases (ltb k batch_size)) [
          | inl short ↦
              let clear = λ (r : A) (m : In r t1).
                ap (λ z. not (due z r)) (sym same)
                ∙ ap not (delete_keyed-done key_of p batch_size t (ground (arith, short)) r m) in
              let final : t1 ≡ keep (λ r. not (due now r)) t =
                sym (keep_all (λ r. not (due now r)) t1 clear) ∙ rest in
              (
                deleted + k,
                rw open_time (rw short (ap (λ l. (return (deleted + k), calm l)) final)),
                omega (arith, counted, ap length final),
              )
          | inr full ↦
              let (n, run, sum) =
                keyed_loop-Emptied ds (deleted + k) t1 (Keyed-delete_keyed key_of p batch_size t u)
                  (λ e m. in_time e (there m)) (ground (arith, full, counted, room)) in
              (
                n,
                rw open_time (rw full (run ∙ ap (λ l. (return n, calm l)) rest)),
                omega (arith, sum, counted, ap length rest),
              )
        ]

  -- Where a key names one row, some key column is named, no call raises, each reading of the clock is
  -- within the budget and of one day, and there are batches enough for all the rows:
  -- `trim_rows_past_window` leaves exactly the rows that are not before the first of the month of
  -- the day `keep_days` ago, in their order, commits them, and returns how many rows it deleted.
  pub trim_rows_past_window-exact :
      (key_of : A → ℕ) (day_of : A → ℕ) (keep_days batch_size budget today : ℕ)
      (readings : List Reading) (rows : List A)
      → Keyed key_of rows
      → ((d : Reading) → In d readings → (d.elapsed < budget) × (d.now ≡ today))
      → length rows < length readings * batch_size
      → let kept = keep (λ r. not (past_month day_of keep_days today r)) rows in
        (n : ℕ) × (trim_rows_past_window true key_of day_of keep_days batch_size budget readings
            (calm rows)
          ≡ (return n, calm kept))
        × (n + length kept ≡ length rows)
  unfolding trim_rows_past_window
  trim_rows_past_window-exact key_of day_of keep_days batch_size budget today readings rows u
        in_time room =
      let (n, run, sum) =
        keyed_loop-Emptied key_of (past_month day_of keep_days) batch_size budget today readings 0
          rows u in_time room in
      (n, rw run refl, omega (arith, sum))
