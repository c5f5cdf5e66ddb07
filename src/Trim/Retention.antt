-- ===== src/Trim/Retention.antt =====
-- What `trim_old_jobs` keeps, whichever calls raise, and what it clears where it has the time.
use bifrost_platform_plugin.Prelude.{
  ℕ, ◌+◌, ◌≤◌, ◌≡◌, refl, Option, none, some, List, [], ◌∷◌, Bool, true, false, keep, take, length,
  length-take, ltb, arith, ◌⊎◌, inl, inr, In, here, there,
}
use bifrost_platform_plugin.Db.{Db, Conn, execute, commit}
use bifrost_platform_plugin.Db.Ensures.{
  Both, Ensures, pure-Ensures, execute-Ensures, commit-Ensures, bind-Ensures, or_rollback-Ensures,
}
use bifrost_platform_plugin.Queue.{Row, Table, is_active}
use bifrost_platform_plugin.Queue.Invariant.{IsWell}
use bifrost_platform_plugin.Trim.{
  Reading, is_finished, finished_before, past_window, delete_rows, set_timeout, delete_batch,
  choose, delete_loop, over_cap, finished_cutoff, cutoff_loop, cutoff_if, after_window,
  trim_old_jobs,
}
use bifrost_platform_plugin.Trim.Batches.{
  In-delete_matching, delete_matching-In, length-keep-delete_matching, delete_rows-IsWell,
}

-- How a table stands to the table `old` that a trim began with.
pub record Trimmed (old : Table) (safe : Row → Type 0) (t : Table) : Type 0 where
  pub well : IsWell t
  pub none_new : (r : Row) → In r t.rows → In r old.rows
  pub kept : (r : Row) → In r old.rows → safe r → In r t.rows
  pub fewer : length (keep is_finished t.rows) ≤ length (keep is_finished old.rows)

module _ (old : Table) (safe : Row → Type 0) where
  unfoldable pub Keeps : {A : Type 0} → (A → Type 0) → Db Table A → Type 0
  Keeps Q m = Ensures (Trimmed old safe) Q m

  abbrev pub Any : {A : Type 0} → A → Type 0
  Any a = Unit

  set_timeout-Keeps : Keeps Any set_timeout
  unfolding Keeps
  set_timeout-Keeps = execute-Ensures (Trimmed old safe) Any (λ t. (tt, t)) (λ t h. (h, tt))

  delete_rows-Trimmed :
      (p : Row → Bool) (n : ℕ)
      → ((r : Row) → safe r → p r ≡ false)
      → (t : Table) → Trimmed old safe t
      → Trimmed old safe (delete_rows p n t).1
  unfolding delete_rows
  delete_rows-Trimmed p n spared t h = record {
    well = delete_rows-IsWell p n h.well;
    none_new = λ r m. h.none_new r (In-delete_matching p n t.rows m);
    kept = λ r m s. delete_matching-In p n t.rows (spared r s) (h.kept r m s);
    fewer = omega (arith, h.fewer, length-keep-delete_matching p is_finished n t.rows);
  }

  delete_batch-Keeps :
      (p : Row → Bool) (n : ℕ) → ((r : Row) → safe r → p r ≡ false) → Keeps Any (delete_batch p n)
  unfolding Keeps delete_batch
  delete_batch-Keeps p n spared =
      bind-Ensures (Trimmed old safe) Any Any set_timeout _ set_timeout-Keeps (λ _ _.
        bind-Ensures (Trimmed old safe) Any Any (execute (delete_rows p n)) _
          (execute-Ensures (Trimmed old safe) Any (delete_rows p n)
            (λ t h. (delete_rows-Trimmed p n spared t h, tt)))
          (λ k _.
            bind-Ensures (Trimmed old safe) Any Any commit _ (commit-Ensures (Trimmed old safe))
              (λ _ _. pure-Ensures (Trimmed old safe) Any k tt)))

  choose-Keeps :
      {A : Type 0} (Q : A → Type 0) (b : Bool) (m n : Db Table A)
      → Keeps Q m
      → Keeps Q n
      → Keeps Q (choose b m n)
  choose-Keeps Q true m n h k = h
  choose-Keeps Q false m n h k = k

  pub delete_loop-Keeps :
      (p : ℕ → Row → Bool) (batch_size budget : ℕ) (rs : List Reading) (deleted : ℕ)
      → ((d : Reading) → In d rs → (r : Row) → safe r → p d.now r ≡ false)
      → Keeps Any (delete_loop p batch_size budget rs deleted)
  unfolding Keeps delete_loop
  delete_loop-Keeps p batch_size budget [] deleted spared =
      pure-Ensures (Trimmed old safe) Any (deleted, []) tt
  delete_loop-Keeps p batch_size budget (d ∷ rs) deleted spared =
      choose-Keeps Any (ltb d.elapsed budget) _ _
        (bind-Ensures (Trimmed old safe) Any Any (delete_batch (p d.now) batch_size) _
          (delete_batch-Keeps (p d.now) batch_size (spared d (here refl)))
          (λ k _.
            choose-Keeps Any (ltb k batch_size) _ _
              (pure-Ensures (Trimmed old safe) Any (deleted + k, rs) tt)
              (delete_loop-Keeps p batch_size budget rs (deleted + k) (λ e m. spared e (there m)))))
        (pure-Ensures (Trimmed old safe) Any (deleted, rs) tt)

  -- The backstop is not engaged where no more jobs are finished than it allows.
  over_cap-Keeps :
      (keep_max : ℕ)
      → Keeps (λ b. length (keep is_finished old.rows) ≤ keep_max → b ≡ false) (over_cap keep_max)
  unfolding Keeps over_cap
  over_cap-Keeps keep_max =
      bind-Ensures (Trimmed old safe) Any _ set_timeout _ set_timeout-Keeps (λ _ _.
        bind-Ensures (Trimmed old safe) (λ n. n ≤ length (keep is_finished old.rows)) _
          (execute counted) _
          (execute-Ensures (Trimmed old safe) _ counted (λ t h.
            (h, omega (arith, h.fewer, length-take (keep_max + 1) (keep is_finished t.rows)))))
          (λ n few.
            bind-Ensures (Trimmed old safe) Any _ commit _ (commit-Ensures (Trimmed old safe))
              (λ _ _.
                pure-Ensures (Trimmed old safe) _ (ltb keep_max n)
                  (λ le. ground (arith, few, le)))))
    where
      counted : Table → ℕ × Table
      counted t = (length (take (keep_max + 1) (keep is_finished t.rows)), t)

  finished_cutoff-Keeps :
      (Q : Option ℕ → Type 0) (keep_max : ℕ)
      → ((cutoff : Option ℕ) → Q cutoff)
      → Keeps Q (finished_cutoff keep_max)
  unfolding Keeps finished_cutoff
  finished_cutoff-Keeps Q keep_max q =
      bind-Ensures (Trimmed old safe) Any Q set_timeout _ set_timeout-Keeps (λ _ _.
        bind-Ensures (Trimmed old safe) Any Q (execute _) _
          (execute-Ensures (Trimmed old safe) Any _ (λ t h. (h, tt)))
          (λ c _.
            bind-Ensures (Trimmed old safe) Any Q commit _ (commit-Ensures (Trimmed old safe))
              (λ _ _. pure-Ensures (Trimmed old safe) Q c (q c))))

  -- A cutoff that spares the safe jobs.
  abbrev Harmless : Option ℕ → Type 0
  Harmless none = Unit
  Harmless (some cutoff) = (r : Row) → safe r → finished_before cutoff r ≡ false

  cutoff_if-Keeps :
      (keep_max : ℕ) (b : Bool)
      → (length (keep is_finished old.rows) ≤ keep_max → b ≡ false)
      → (length (keep is_finished old.rows) ≤ keep_max)
        ⊎ ((cutoff : ℕ) (r : Row) → safe r → finished_before cutoff r ≡ false)
      → Keeps Harmless (cutoff_if keep_max b)
  unfolding Keeps cutoff_if
  cutoff_if-Keeps keep_max false few limit = pure-Ensures (Trimmed old safe) Harmless none tt
  cutoff_if-Keeps keep_max true few (inl le) = ground (arith, few le)
  cutoff_if-Keeps keep_max true few (inr spared) = finished_cutoff-Keeps Harmless keep_max harmless
    where
      harmless : (o : Option ℕ) → Harmless o
      harmless none = tt
      harmless (some cutoff) = spared cutoff

  cutoff_loop-Keeps :
      (batch_size budget : ℕ) (rs : List Reading) (deleted : ℕ) (cutoff : Option ℕ)
      → Harmless cutoff
      → Keeps Any (cutoff_loop batch_size budget rs deleted cutoff)
  unfolding Keeps cutoff_loop
  cutoff_loop-Keeps batch_size budget rs deleted none h =
      pure-Ensures (Trimmed old safe) Any deleted tt
  cutoff_loop-Keeps batch_size budget rs deleted (some cutoff) h =
      bind-Ensures (Trimmed old safe) Any Any
        (delete_loop (λ _. finished_before cutoff) batch_size budget rs deleted) _
        (delete_loop-Keeps (λ _. finished_before cutoff) batch_size budget rs deleted
          (λ d m r s. h r s))
        (λ d _. pure-Ensures (Trimmed old safe) Any d.0 tt)

  -- The part of the trim after the window: the backstop.
  pub after_window-Keeps :
      (keep_max batch_size budget : ℕ) (first : ℕ × List Reading)
      → (length (keep is_finished old.rows) ≤ keep_max)
        ⊎ ((cutoff : ℕ) (r : Row) → safe r → finished_before cutoff r ≡ false)
      → Keeps Any (after_window keep_max batch_size budget first)
  unfolding Keeps after_window
  after_window-Keeps keep_max batch_size budget first limit =
      bind-Ensures (Trimmed old safe) _ Any (over_cap keep_max) _ (over_cap-Keeps keep_max)
        (λ over few.
          bind-Ensures (Trimmed old safe) Harmless Any (cutoff_if keep_max over) _
            (cutoff_if-Keeps keep_max over few limit)
            (λ cutoff h. cutoff_loop-Keeps batch_size budget first.1 first.0 cutoff h))

  trim_old_jobs-Keeps :
      (keep_secs keep_max batch_size budget : ℕ) (readings : List Reading)
      → ((d : Reading) → In d readings → (r : Row) → safe r → past_window keep_secs d.now r ≡ false)
      → (length (keep is_finished old.rows) ≤ keep_max)
        ⊎ ((cutoff : ℕ) (r : Row) → safe r → finished_before cutoff r ≡ false)
      → Keeps Any (trim_old_jobs keep_secs keep_max batch_size budget readings)
  unfolding Keeps trim_old_jobs
  trim_old_jobs-Keeps keep_secs keep_max batch_size budget readings window limit =
      or_rollback-Ensures (Trimmed old safe) Any _ (
        bind-Ensures (Trimmed old safe) Any Any
          (delete_loop (past_window keep_secs) batch_size budget readings 0) _
          (delete_loop-Keeps (past_window keep_secs) batch_size budget readings 0 window)
          (λ first _. after_window-Keeps keep_max batch_size budget first limit))

-- Whichever calls raise, and however often the time runs out: `trim_old_jobs` leaves a well-formed
-- table of jobs that were there before, with every pending and running job among them. Where no
-- more jobs were finished than the backstop allows, every job is left that was, at each reading of
-- the clock, finished no longer ago than the window.
pub trim_old_jobs-Trimmed :
    (keep_secs keep_max batch_size budget : ℕ) (readings : List Reading) (c : Conn Table)
    → c.working ≡ c.committed
    → IsWell c.committed
    → let t = (trim_old_jobs keep_secs keep_max batch_size budget readings c).1.committed in
      IsWell t
      × ((r : Row) → In r t.rows → In r c.committed.rows)
      × ((r : Row) → In r c.committed.rows → is_active r.status ≡ true → In r t.rows)
      × (length (keep is_finished c.committed.rows) ≤ keep_max
          → (r : Row) → In r c.committed.rows
          → ((d : Reading) → In d readings → past_window keep_secs d.now r ≡ false)
          → In r t.rows)
unfolding Keeps Ensures
trim_old_jobs-Trimmed keep_secs keep_max batch_size budget readings c closed w =
    (all_active.well, all_active.none_new, all_active.kept, λ le. (recent le).kept)
  where
    all : (safe : Row → Type 0) → Trimmed c.committed safe c.committed
    all safe = record { well = w; none_new = λ r m. m; kept = λ r m s. m; fewer = omega arith }

    both : (safe : Row → Type 0) → Both (Trimmed c.committed safe) c
    both safe = (rw closed (all safe), all safe)

    all_active :
        Trimmed c.committed
          (λ r. is_active r.status ≡ true)
          (trim_old_jobs keep_secs keep_max batch_size budget readings c).1.committed
    all_active =
        (trim_old_jobs-Keeps c.committed (λ r. is_active r.status ≡ true) keep_secs keep_max
          batch_size budget readings (λ d m r s. ground (arith, s))
          (inr (λ cutoff r s. ground (arith, s))) c (both _)).0.1

    recent :
        length (keep is_finished c.committed.rows) ≤ keep_max
        → Trimmed c.committed
            (λ r. (d : Reading) → In d readings → past_window keep_secs d.now r ≡ false)
            (trim_old_jobs keep_secs keep_max batch_size budget readings c).1.committed
    recent le =
        (trim_old_jobs-Keeps c.committed
          (λ r. (d : Reading) → In d readings → past_window keep_secs d.now r ≡ false) keep_secs
          keep_max batch_size budget readings (λ d m r s. s d m) (inl le) c (both _)).0.1
