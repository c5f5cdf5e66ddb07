-- ===== src/Trim/Batches.antt =====
-- One batch of a trim: which rows a DELETE with a LIMIT takes from the job table.
use bifrost_platform_plugin.Prelude.{
  ℕ, suc, ◌+◌, ◌-◌, ◌≤◌, ◌<◌, ◌≡◌, ap, ◌∙◌, List, [], ◌∷◌, Bool, false, ◌&&◌, keep, length, ltb,
  arith, Bool-cases, inl, inr, In, here, there, In-cons,
}
use bifrost_platform_plugin.Queue.{Row, Table}
use bifrost_platform_plugin.Queue.Ids.{count_id}
use bifrost_platform_plugin.Queue.Invariant.{IsWell}
use bifrost_platform_plugin.Trim.{delete_matching, delete_rows}

module _ (p : Row → Bool) where
  pub In-delete_matching :
      (n : ℕ) (rows : List Row) {r : Row} → In r (delete_matching p n rows).1 → In r rows
  unfolding delete_matching
  In-delete_matching n [] m = m
  In-delete_matching n (x ∷ rows) m = elim (Bool-cases (p x && ltb 0 n)) [
    | inl t ↦ there (In-delete_matching (n - 1) rows (rw t at m))
    | inr f ↦ elim (In-cons (rw f at m)) [
      | inl e ↦ here e
      | inr k ↦ there (In-delete_matching n rows k)
    ]
  ]

  -- A row that does not match stays.
  pub delete_matching-In :
      (n : ℕ) (rows : List Row) {r : Row}
      → p r ≡ false
      → In r rows
      → In r (delete_matching p n rows).1
  unfolding delete_matching
  delete_matching-In n [] safe m = m
  delete_matching-In n (x ∷ rows) {r} safe m = elim (Bool-cases (p x && ltb 0 n)) [
    | inl t ↦ elim (In-cons m) [
      | inl e ↦ ground (arith, ap p e, safe, t)
      | inr k ↦ rw t (delete_matching-In (n - 1) rows safe k)
    ]
    | inr f ↦
        rw f
          (elim (In-cons m) [ inl e ↦ here e | inr k ↦ there (delete_matching-In n rows safe k) ])
  ]

  -- What is returned counts the rows that left.
  pub delete_matching_count :
      (n : ℕ) (rows : List Row)
      → (delete_matching p n rows).0 + length (delete_matching p n rows).1 ≡ length rows
  unfolding delete_matching
  delete_matching_count n [] = omega arith
  delete_matching_count n (x ∷ rows) = elim (Bool-cases (p x && ltb 0 n)) [
    | inl t ↦ rw t (omega (arith, delete_matching_count (n - 1) rows))
    | inr f ↦ rw f (omega (arith, delete_matching_count n rows))
  ]

  -- A batch that is not full has taken every row that matches.
  pub delete_matching-done :
      (n : ℕ) (rows : List Row) {r : Row}
      → (delete_matching p n rows).0 < n
      → In r (delete_matching p n rows).1
      → p r ≡ false
  unfolding delete_matching
  delete_matching-done n [] h m = elim m [ ]
  delete_matching-done n (x ∷ rows) h m = elim (Bool-cases (p x && ltb 0 n)) [
    | inl t ↦
        let less : suc (delete_matching p (n - 1) rows).0 < n = rw t at h in
        delete_matching-done (n - 1) rows (omega (arith, less)) (rw t at m)
    | inr f ↦
        let less : (delete_matching p n rows).0 < n = rw f at h in
        elim (In-cons (rw f at m)) [
          | inl e ↦ ap p e ∙ ground (arith, f, less)
          | inr k ↦ delete_matching-done n rows less k
        ]
  ]

  pub length-keep-delete_matching :
      (q : Row → Bool) (n : ℕ) (rows : List Row)
      → length (keep q (delete_matching p n rows).1) ≤ length (keep q rows)
  unfolding delete_matching
  length-keep-delete_matching q n [] = omega arith
  length-keep-delete_matching q n (x ∷ rows) = elim (Bool-cases (p x && ltb 0 n)) [
    | inl t ↦ rw t (ground (arith, length-keep-delete_matching q (n - 1) rows))
    | inr f ↦ rw f (ground (arith, length-keep-delete_matching q n rows))
  ]

  count_id-delete_matching :
      (i n : ℕ) (rows : List Row) → count_id i (delete_matching p n rows).1 ≤ count_id i rows
  unfolding delete_matching
  count_id-delete_matching i n [] = omega arith
  count_id-delete_matching i n (x ∷ rows) = elim (Bool-cases (p x && ltb 0 n)) [
    | inl t ↦ rw t (ground (arith, count_id-delete_matching i (n - 1) rows))
    | inr f ↦ rw f (ground (arith, count_id-delete_matching i n rows))
  ]

  -- A DELETE keeps the table well formed.
  pub delete_rows-IsWell : (n : ℕ) {t : Table} → IsWell t → IsWell (delete_rows p n t).1
  unfolding delete_rows
  delete_rows-IsWell n {t} w = record {
    ids = λ i. omega (arith, w.ids i, count_id-delete_matching i n t.rows);
    below = λ r m. w.below r (In-delete_matching n t.rows m);
    dedup = λ r s m k. w.dedup r s (In-delete_matching n t.rows m) (In-delete_matching n t.rows k);
    rows_well = λ r m. w.rows_well r (In-delete_matching n t.rows m);
  }
