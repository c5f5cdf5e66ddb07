-- ===== src/TrimRows/Spared.antt =====
-- What the trims spare, whichever calls raise.
use bifrost_platform_plugin.Prelude.{
  ℕ, ◌≡◌, refl, ◌&&◌, ◌⊎◌, inl, inr, List, [], ◌∷◌, Bool, true, false, not, ltb, ap, arith, In,
  here, there, In-keep, keep-In,
}
use bifrost_platform_plugin.Db.{Db, execute, commit, or_rollback}
use bifrost_platform_plugin.Db.Ensures.{
  Ensures, pure-Ensures, execute-Ensures, commit-Ensures, bind-Ensures, or_rollback-Ensures,
}
use bifrost_platform_plugin.Trim.{Reading}
use bifrost_platform_plugin.TrimRows.{
  choose_one, delete_keyed, delete_keyed_batch, keyed_loop, snapshot_due, is_pinned,
  trim_option_snapshots,
}
use bifrost_platform_plugin.TrimRows.Batches.{Keyed, Keyed-keep, spared_row}

module _ {A : Type 0} (key_of : A → ℕ) (old : List A) (safe : A → Type 0) where
  pub record Sparing (t : List A) : Type 0 where
    pub keyed : Keyed key_of t
    pub none_new : (r : A) → In r t → In r old
    pub kept : (r : A) → In r old → safe r → In r t

  abbrev Any : {B : Type 0} → B → Type 0
  Any b = Unit

  delete_keyed-Sparing :
      (due : A → Bool) (n : ℕ) (t : List A)
      → ((r : A) → safe r → due r ≡ false)
      → Sparing t
      → Sparing (delete_keyed key_of due n t).1
  unfolding delete_keyed
  delete_keyed-Sparing due n t spared h = record {
    keyed = Keyed-keep key_of _ t h.keyed;
    none_new = λ r m. h.none_new r (In-keep _ t m).0;
    kept = λ r m s.
        (let i = h.kept r m s in
          keep-In _ t i (ap not (spared_row key_of due n t h.keyed r i (spared r s))));
  }

  delete_keyed_batch-Ensures :
      (due : A → Bool) (n : ℕ)
      → ((r : A) → safe r → due r ≡ false)
      → Ensures Sparing Any (delete_keyed_batch key_of due n)
  unfolding delete_keyed_batch
  delete_keyed_batch-Ensures due n spared =
      bind-Ensures Sparing Any Any (execute (λ t. (tt, t))) _
        (execute-Ensures Sparing Any (λ t. (tt, t)) (λ t h. (h, tt)))
        (λ _ _.
          bind-Ensures Sparing Any Any (execute (delete_keyed key_of due n)) _
            (execute-Ensures Sparing Any (delete_keyed key_of due n)
              (λ t h. (delete_keyed-Sparing due n t spared h, tt)))
            (λ k _.
              bind-Ensures Sparing Any Any commit _ (commit-Ensures Sparing)
                (λ _ _. pure-Ensures Sparing Any k tt)))

  choose_one-Ensures :
      {B : Type 0} (b : Bool) (m n : Db (List A) B)
      → Ensures Sparing Any m
      → Ensures Sparing Any n
      → Ensures Sparing Any (choose_one b m n)
  choose_one-Ensures true m n h k = h
  choose_one-Ensures false m n h k = k

  pub keyed_loop-Ensures :
      (due : ℕ → A → Bool) (batch_size budget : ℕ) (ds : List Reading) (deleted : ℕ)
      → ((d : Reading) → In d ds → (r : A) → safe r → due d.now r ≡ false)
      → Ensures Sparing Any (keyed_loop key_of due batch_size budget ds deleted)
  unfolding keyed_loop
  keyed_loop-Ensures due batch_size budget [] deleted spared = pure-Ensures Sparing Any deleted tt
  keyed_loop-Ensures due batch_size budget (d ∷ ds) deleted spared =
      choose_one-Ensures (ltb d.elapsed budget) _ _
        (bind-Ensures Sparing Any Any _ _
          (delete_keyed_batch-Ensures (due d.now) batch_size (spared d (here refl)))
          (λ n _.
            choose_one-Ensures (ltb n batch_size) _ _ (pure-Ensures Sparing Any _ tt)
              (keyed_loop-Ensures due batch_size budget ds _ (λ e m. spared e (there m)))))
        (pure-Ensures Sparing Any deleted tt)

module _ {A : Type 0} (key_of : A → ℕ) (time_of : A → ℕ) (is_anchor : A → Bool)
    (pin_dates : ℕ → A → List ℕ) (current_date : ℕ → ℕ) (days_before : ℕ → ℕ → ℕ)
    (pin_table intraday_only : Bool) (keep_days : ℕ) where
  -- At each reading: within the window, or the anchor of a day that this trim is not for, or pinned.
  abbrev pub Protected : List Reading → A → Type 0
  Protected readings r =
      (d : Reading)
      → In d readings
      → (ltb (time_of r) (days_before d.now keep_days) ≡ false)
        ⊎ (((intraday_only && is_anchor r) ≡ true)
            ⊎ ((pin_table && is_pinned pin_dates current_date d.now r) ≡ true))

  Protected-row :
      (readings : List Reading) (d : Reading) (r : A)
      → In d readings
      → Protected readings r
      → snapshot_due time_of is_anchor pin_dates current_date days_before intraday_only pin_table
          keep_days d.now r
        ≡ false
  unfolding snapshot_due
  Protected-row readings d r m h = elim (h d m) [
    | inl e ↦ rw e refl
    | inr (inl e) ↦ ground (arith, e)
    | inr (inr e) ↦ ground (arith, e)
  ]

  snapshot_loop-Ensures :
      (batch_size budget : ℕ) (readings : List Reading) (rows : List A) (pins : Bool)
      → pins ≡ pin_table
      → Ensures
          (Sparing key_of rows (Protected readings))
          {A = ℕ}
          (λ _. Unit {0})
          (or_rollback (
            keyed_loop key_of
              (snapshot_due time_of is_anchor pin_dates current_date days_before intraday_only pins
                keep_days)
              batch_size
              budget
              readings
              0))
  snapshot_loop-Ensures batch_size budget readings rows pins e =
      or_rollback-Ensures (Sparing key_of rows (Protected readings)) (λ _. Unit {0})
        (keyed_loop key_of
          (snapshot_due time_of is_anchor pin_dates current_date days_before intraday_only pins
            keep_days)
          batch_size budget readings 0)
        (keyed_loop-Ensures key_of rows (Protected readings)
          (snapshot_due time_of is_anchor pin_dates current_date days_before intraday_only pins
            keep_days)
          batch_size budget readings 0 (λ d m r s. rw e (Protected-row readings d r m s)))

  -- Where a key names one row, whichever calls raise and however often the time runs out: after
  -- `trim_option_snapshots` the committed rows were all there before, and among them is every row
  -- that at each reading of the clock was within the window, or stands at 16:00 New York where only
  -- intraday rows are trimmed, or is of a contract with a pin that on that day still lasted, where
  -- the table of pins exists.
  pub trim_option_snapshots-Protected :
      (batch_size budget : ℕ) (readings : List Reading) (rows : List A) (faults late : List Bool)
      → Keyed key_of rows
      → let c =
          (trim_option_snapshots key_of time_of is_anchor pin_dates current_date days_before
            pin_table intraday_only keep_days batch_size budget readings
            (record { committed = rows; working = rows; faults = faults; late = late })).1 in
        ((r : A) → In r c.committed → In r rows)
        × ((r : A) → In r rows → Protected readings r → In r c.committed)
  unfolding trim_option_snapshots Ensures
  trim_option_snapshots-Protected batch_size budget readings rows faults late u =
      let safe = Protected readings in
      let start : Sparing key_of rows safe rows = record {
        keyed = u;
        none_new = λ r m. m;
        kept = λ r m s. m;
      } in
      let all_calls =
        bind-Ensures (Sparing key_of rows safe) (λ b. b ≡ pin_table) (λ _. Unit {0})
          (execute (λ t. (pin_table, t)))
          (λ pins. or_rollback (
            keyed_loop key_of
              (snapshot_due time_of is_anchor pin_dates current_date days_before intraday_only pins
                keep_days)
              batch_size budget readings 0))
          (execute-Ensures (Sparing key_of rows safe) (λ b. b ≡ pin_table) (λ t. (pin_table, t))
            (λ t h. (h, refl)))
          (λ pins e. snapshot_loop-Ensures batch_size budget readings rows pins e) in
      let ended =
        all_calls (record { committed = rows; working = rows; faults = faults; late = late })
          (start, start) in
      (ended.0.1.none_new, ended.0.1.kept)
