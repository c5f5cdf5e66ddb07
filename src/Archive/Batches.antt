-- ===== src/Archive/Batches.antt =====
-- The batches of archive_range, whatever stands for what is left where a call fails.
use bifrost_platform_plugin.Prelude.{
  ℕ, zero, suc, ◌+◌, ◌≤◌, List, [], ◌∷◌, ◌++◌, Bool, true, false, take, drop, length, ◌==◌, arith,
  length-take, take-drop, length-append, ◌≡◌, sym, ap, ◌∙◌, ◌≢◌,
}
use mathlib.Core.List.{append_assoc, append-nil}
use bifrost_platform_plugin.Archive.{
  ◌>>◌, fine, World, Name, later, next, call, done_with, nothing, when, rows_of, append_partial,
  write_batches, fetch_rows,
}
use bifrost_platform_plugin.Archive.Steps.{Ends, after_call, Ends-call, Ends-then, Ends-returned}
use bifrost_platform_plugin.Archive.Files.{Going}

module _ {A : Type 0} (Quiet : Type 0) where
  -- In quiet no call fails.
  pub calm_call :
      (w : World A)
      → (Quiet → (w.signals ≡ []) × (w.commits ≡ []))
      → next w.signals ≢ fine
      → Quiet
      → ⊥
  calm_call w calm ne q = ne (ap next (calm q).0)

  pub calm_after :
      (w : World A)
      → (Quiet → (w.signals ≡ []) × (w.commits ≡ []))
      → Quiet
      → (later w.signals ≡ []) × (w.commits ≡ [])
  calm_after w calm q = (ap later (calm q).0, (calm q).1)

  module _ (table : List A) (files : List (Name × List A)) (Bad : World A → Type 0)
      (stopped : (w : World A) → w.table ≡ table → w.files ≡ files → (Quiet → ⊥) → Bad w) where
    abbrev On : List A → List A → World A → Type 0
    On view written w = Going Quiet table files view written w

    -- A call that leaves the table, the files and the commits alone.
    pub On-call :
        (f : World A → World A) (v ys v' ys' : List A) (w : World A)
        → On v ys w
        → (On v ys (after_call w) → On v' ys' (f (after_call w)))
        → Ends Bad (λ _ w'. On v' ys' w') (call f w)
    On-call f v ys v' ys' w g step =
        let g' : On v ys (after_call w) = record {
          same_table = g.same_table;
          same_files = g.same_files;
          seen = g.seen;
          begun = g.begun;
          certain = g.certain;
          calm = calm_after w g.calm;
        } in
        Ends-call f w
          (λ ne. stopped (after_call w) g.same_table g.same_files (calm_call w g.calm ne))
          (λ ne.
            stopped (f (after_call w)) (step g').same_table (step g').same_files
              (calm_call w g.calm ne))
          (step g')

    -- A chain whose steps all keep to `On`.
    open_writer-Going :
        (b : Bool) (v ys : List A) (w : World A)
        → On v ys w
        → Ends Bad (λ _ w'. On v ys w') (when b (call nothing >> call (append_partial [])) w)
    open_writer-Going false v ys w g = Ends-returned tt w g
    open_writer-Going true v ys w g =
        Ends-then (λ _. call (append_partial [])) (call nothing w)
          (On-call nothing v ys v ys w g (λ h. h))
          (λ _ w' h. On-call (append_partial []) v ys v ys w' h (λ h'. record {
            same_table = h'.same_table;
            same_files = h'.same_files;
            seen = h'.seen;
            begun = append-nil (rows_of w'.partial) ∙ h'.begun;
            certain = h'.certain;
            calm = h'.calm;
          }))

    -- The batches: all the rows that the SELECT found are written.
    pub write_batches-Going :
        (left : ℕ) (xs written all : List A) (rows : ℕ) (v : List A) (w : World A)
        → length xs ≤ left
        → rows ≡ length written
        → written ++ xs ≡ all
        → On v written w
        → Ends Bad (λ n w'. (n ≡ length all) × On v all w') (write_batches left xs rows w)
    unfolding write_batches
    write_batches-Going left [] written all rows v w le e whole_list g =
        let same : written ≡ all = sym (append-nil written) ∙ whole_list in
        Ends-then (λ _. done_with rows) (call nothing w)
          (On-call nothing v written v all w g (λ h. rw (sym same) h))
          (λ _ w' h. Ends-returned rows w' (e ∙ ap length same, h))
    write_batches-Going zero (x ∷ xs) written all rows v w le e whole_list g =
        absurd (omega (arith, le))
    write_batches-Going (suc left) (x ∷ xs) written all rows v w le e whole_list g =
        let chunk = take fetch_rows (x ∷ xs) in
        Ends-then (λ _. write_batches left (drop fetch_rows (x ∷ xs)) (rows + length chunk))
          ((call nothing
              >> when (rows == 0) (call nothing >> call (append_partial []))
              >> call (append_partial chunk))
            w)
          (Ends-then (λ _. call (append_partial chunk))
            ((call nothing >> when (rows == 0) (call nothing >> call (append_partial []))) w)
            (Ends-then (λ _. when (rows == 0) (call nothing >> call (append_partial [])))
              (call nothing w) (On-call nothing v written v written w g (λ h. h))
              (λ _ w' h. open_writer-Going (rows == 0) v written w' h))
            (λ _ w' h. On-call (append_partial chunk) v written v (written ++ chunk) w' h (λ h'.
              record {
                same_table = h'.same_table;
                same_files = h'.same_files;
                seen = h'.seen;
                begun = ap (λ ys. ys ++ chunk) h'.begun;
                certain = h'.certain;
                calm = h'.calm;
              })))
          (λ _ w' h.
            write_batches-Going left (drop fetch_rows (x ∷ xs)) (written ++ chunk) all
              (rows + length chunk) v w'
              (omega (
                arith,
                le,
                ap length (take-drop fetch_rows (x ∷ xs)),
                length-append chunk (drop fetch_rows (x ∷ xs)),
                length-take fetch_rows (x ∷ xs),
              ))
              (omega (arith, e, length-append written chunk))
              (append_assoc written chunk (drop fetch_rows (x ∷ xs))
                ∙ ap (λ ys. written ++ ys) (take-drop fetch_rows (x ∷ xs))
                ∙ whole_list)
              h)
