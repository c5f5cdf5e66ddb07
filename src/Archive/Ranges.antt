-- ===== src/Archive/Ranges.antt =====
-- archive_range, call by call: what the table and the files are wherever it stops.
use bifrost_platform_plugin.Prelude.{
  ℕ, zero, suc, none, List, [], ◌∷◌, ◌++◌, Bool, not, keep, length, ◌==◌, if◌then◌else◌, arith, All,
  ◌≡◌, refl, sym, ap, ◌∙◌, ◌≢◌, ==_iff, Bool-cases, inl, inr,
}
use bifrost_platform_plugin.Archive.{
  fails_late, returned, raised, World, Act, Name, or_handle, call, done_with, fail, nothing,
  put_file, rows_of, in_range, take_view, write_batches, check_written, delete_range, replace_file,
  commit_or_unlink, finish_range, export_range, abandon, write_manifest, archive_range,
}
use bifrost_platform_plugin.Archive.Steps.{
  Ends, Ends-call, Ends-then, Ends-caught, Ends-returned, Ends-raised, Ends-paired,
}
use bifrost_platform_plugin.Archive.Files.{
  Fresh, put_file-Fresh, keep_rest, untouched, copied, Moved, Moved-Fate, Going, Stopped,
}
use bifrost_platform_plugin.Archive.Batches.{calm_call, calm_after, On-call, write_batches-Going}
use bifrost_platform_plugin.Archive.Commits.{Sent, commit_or_unlink-Moved}

module _ {A : Type 0} where
  module _ (Quiet : Type 0) (day_of : A → ℕ) (extra : A → Bool) (stored : List A → List A)
      (whole : (xs : List A) → length (stored xs) ≡ length xs → stored xs ≡ xs)
      (intact : Quiet → (xs : List A) → stored xs ≡ xs) (seen late : List A)
      (files : List (Name × List A)) (name : Name) (start end : ℕ) where
    abbrev here : A → Bool
    here r = in_range day_of extra stored start end r

    abbrev hits : List A
    hits = keep here seen

    abbrev rest : List A
    rest = keep (λ r. not (here r)) seen

    abbrev Bad : World A → Type 0
    Bad w = Stopped Quiet (seen ++ late) (rest ++ late) hits files name w

    abbrev On : List A → List A → World A → Type 0
    On view written w = Going Quiet (seen ++ late) files view written w

    On-Bad : (view written : List A) (w : World A) → On view written w → (Quiet → ⊥) → Bad w
    On-Bad view written w g no_quiet = record {
      fate = untouched g.same_table g.same_files;
      not_quiet = no_quiet;
    }

    stopped : (w : World A) → w.table ≡ seen ++ late → w.files ≡ files → (Quiet → ⊥) → Bad w
    stopped w e f no_quiet = record { fate = untouched e f; not_quiet = no_quiet }

    check_written-Going :
        (n : ℕ) (w : World A)
        → n ≡ length hits
        → On seen hits w
        → Ends Bad
            (λ _ w'. (stored hits ≡ hits) × On seen hits w')
            (check_written day_of extra stored n w)
    unfolding check_written
    check_written-Going n w e g =
        Ends-then
          (λ _ v.
            if length (stored (rows_of v.partial)) == n then (returned tt, v) else (raised, v))
          (call nothing w)
          (On-call Quiet (seen ++ late) files Bad stopped nothing seen hits seen hits w g (λ h. h))
          (λ _ w' h. elim (Bool-cases (length (stored (rows_of w'.partial)) == n)) [
            | inl same ↦
                let e' : length (stored hits) ≡ length hits =
                  ap (λ ys. length (stored ys)) (sym h.begun) ∙ (==_iff _ _).0 same ∙ e in
                rw same (Ends-returned tt w' (whole hits e', h))
            | inr other ↦ rw other (
                Ends-raised w' (
                  On-Bad seen hits w' h (λ q.
                    let e' : length (stored (rows_of w'.partial)) ≡ n =
                      ap length (intact q (rows_of w'.partial) ∙ h.begun) ∙ sym e in
                    ground (arith, other, e'))))
          ])

    delete_range-Going :
        (n : ℕ) (w : World A)
        → n ≡ length hits
        → On seen hits w
        → Ends Bad (λ _ w'. On rest hits w') (delete_range day_of extra stored start end n w)
    unfolding delete_range
    delete_range-Going n w e g =
        Ends-then _ (call (λ d. record d { view = keep (λ r. not (here r)) d.view }) w)
          (On-call Quiet (seen ++ late) files Bad stopped
            (λ d. record d { view = keep (λ r. not (here r)) d.view }) seen hits rest hits w g
            (λ h. record {
              same_table = h.same_table;
              same_files = h.same_files;
              seen = ap (keep (λ r. not (here r))) h.seen;
              begun = h.begun;
              certain = h.certain;
              calm = h.calm;
            }))
          (λ _ w' h. elim (Bool-cases (length (keep here w.view) == n)) [
            | inl same ↦ rw same (Ends-returned tt w' h)
            | inr other ↦
                (let e' : length (keep here w.view) ≡ n =
                    ap (λ ys. length (keep here ys)) g.seen ∙ sym e in
                  absurd (ground (arith, other, e')))
          ])

    replace_file-Sent :
        (w : World A)
        → Fresh name files
        → stored hits ≡ hits
        → On rest hits w
        → Ends Bad
            (λ _ w'. Sent Quiet seen late rest hits files name w')
            (call (replace_file day_of extra stored name) w)
    replace_file-Sent w fresh same g =
        let e : put_file name (stored (rows_of w.partial)) w.files ≡ files ++ ((name, hits) ∷ []) =
          ap (λ ys. put_file name (stored ys) w.files) g.begun
          ∙ ap (λ ys. put_file name ys w.files) same
          ∙ ap (put_file name hits) g.same_files
          ∙ put_file-Fresh name hits files fresh in
        Ends-call (replace_file day_of extra stored name) w
          (λ ne. record {
            fate = untouched g.same_table g.same_files;
            not_quiet = calm_call Quiet w g.calm ne;
          })
          (λ ne. record { fate = copied g.same_table e; not_quiet = calm_call Quiet w g.calm ne })
          (record {
            same_table = g.same_table;
            sent = e;
            seen_rest = g.seen;
            certain = g.certain;
            calm = calm_after Quiet w g.calm;
          })

    finish_range-Moved :
        (n : ℕ) (w : World A)
        → Fresh name files
        → n ≡ length hits
        → On seen hits w
        → Ends Bad
            (λ m w'. Moved Quiet (rest ++ late) hits files name m w')
            (finish_range day_of extra stored name late start end n w)
    unfolding finish_range
    finish_range-Moved zero w fresh e g =
        Ends-then (λ _. done_with 0) (call nothing w)
          (On-call Quiet (seen ++ late) files Bad stopped nothing seen hits seen hits w g (λ h. h))
          (λ _ w' h. Ends-returned 0 w' (record {
            count = e;
            left_over = h.same_table ∙ ap (λ ys. ys ++ late) (sym (keep_rest here seen (sym e)));
            saved = h.same_files;
            certain = h.certain;
            calm = h.calm;
          }))
    finish_range-Moved (suc n) w fresh e g =
        Ends-then (λ _. done_with (suc n)) _
          (Ends-then (λ _. commit_or_unlink name late) _
            (Ends-then (λ _. call (replace_file day_of extra stored name)) _
              (Ends-then (λ _. delete_range day_of extra stored start end (suc n)) _
                (Ends-then (λ _. check_written day_of extra stored (suc n)) _
                  (Ends-then (λ _. call nothing) (call nothing w)
                    (On-call Quiet (seen ++ late) files Bad stopped nothing seen hits seen hits w g
                      (λ h. h))
                    (λ _ w' h.
                      On-call Quiet (seen ++ late) files Bad stopped nothing seen hits seen hits w'
                        h (λ h'. h')))
                  (λ _ w' h. check_written-Going (suc n) w' e h))
                (λ _ w' h.
                  Ends-paired (delete_range day_of extra stored start end (suc n) w') h.0
                    (delete_range-Going (suc n) w' e h.1)))
              (λ _ w' h. replace_file-Sent w' fresh h.0 h.1))
            (λ _ w' h. commit_or_unlink-Moved Quiet seen late rest hits files name n w' fresh e h))
          (λ _ w' h. Ends-returned (suc n) w' h)

    select_batches : Act A ℕ
    select_batches w =
        let found = keep (in_range day_of extra stored start end) w.view in
        write_batches (length found) found 0 w

    export_range-Moved :
        (view : List A) (w : World A)
        → Fresh name files
        → On view [] w
        → Ends Bad
            (λ m w'. Moved Quiet (rest ++ late) hits files name m w')
            (export_range day_of extra stored name seen late start end w)
    unfolding export_range select_batches
    export_range-Moved view w fresh g =
        Ends-then (finish_range day_of extra stored name late start end) _
          (Ends-then (λ _. select_batches) _
            (Ends-then (λ _. call (take_view seen)) _
              (Ends-then (λ _. call nothing) (call nothing w)
                (On-call Quiet (seen ++ late) files Bad stopped nothing view [] view [] w g
                  (λ h. h))
                (λ _ w' h.
                  On-call Quiet (seen ++ late) files Bad stopped nothing view [] view [] w' h
                    (λ h'. h')))
              (λ _ w' h.
                On-call Quiet (seen ++ late) files Bad stopped (take_view seen) view [] seen [] w' h
                  (λ h'. record {
                    same_table = h'.same_table;
                    same_files = h'.same_files;
                    seen = refl;
                    begun = h'.begun;
                    certain = h'.certain;
                    calm = h'.calm;
                  })))
            (λ _ w' h.
              let found : keep here w'.view ≡ hits = ap (keep here) h.seen in
              write_batches-Going Quiet (seen ++ late) files Bad stopped
                (length (keep here w'.view)) (keep here w'.view) [] hits 0 seen w' (omega arith)
                refl found h))
          (λ m w' h. finish_range-Moved m w' fresh h.0 h.1)

    abandon-Bad : {Q : ℕ → World A → Type 0} (w : World A) → Bad w → Ends Bad Q (abandon w)
    unfolding abandon
    abandon-Bad w g =
        Ends-then (λ _. fail) _
          (Ends-then (λ _. or_handle (call nothing) (done_with tt)) _
            (Ends-call {Q = λ _ w'. Bad w'} (λ v. record v { partial = none }) w
              (λ _. record { fate = g.fate; not_quiet = g.not_quiet })
              (λ _. record { fate = g.fate; not_quiet = g.not_quiet })
              (record { fate = g.fate; not_quiet = g.not_quiet }))
            (λ _ w' h.
              Ends-caught (done_with tt) (call nothing w')
                (Ends-call nothing w' (λ _. record { fate = h.fate; not_quiet = h.not_quiet })
                  (λ _. record { fate = h.fate; not_quiet = h.not_quiet })
                  (record { fate = h.fate; not_quiet = h.not_quiet }))
                (λ v b. Ends-returned {Q = λ _ w''. Bad w''} tt v b) (λ v b. b)))
          (λ _ w' h. Ends-raised w' h)

    write_manifest-Moved :
        (n : ℕ) (w : World A)
        → Moved Quiet (rest ++ late) hits files name n w
        → Ends Bad (λ m w'. Moved Quiet (rest ++ late) hits files name m w') (write_manifest n w)
    unfolding write_manifest
    write_manifest-Moved zero w m = Ends-returned 0 w m
    write_manifest-Moved (suc n) w m =
        Ends-then (λ _. done_with (suc n)) _
          (Ends-then (λ _. call nothing) _ (again w m) (λ _ w' h. again w' h))
          (λ _ w' h. Ends-returned (suc n) w' h)
      where
        again :
            (w : World A)
            → Moved Quiet (rest ++ late) hits files name (suc n) w
            → Ends Bad
                (λ _ w'. Moved Quiet (rest ++ late) hits files name (suc n) w')
                (call nothing w)
        again w m =
            Ends-call nothing w
              (λ ne. record {
                fate = Moved-Fate Quiet here seen late files name (suc n) w m;
                not_quiet = calm_call Quiet w m.calm ne;
              })
              (λ ne. record {
                fate = Moved-Fate Quiet here seen late files name (suc n) w m;
                not_quiet = calm_call Quiet w m.calm ne;
              })
              (record {
                count = m.count;
                left_over = m.left_over;
                saved = m.saved;
                certain = m.certain;
                calm = calm_after Quiet w m.calm;
              })

  -- Whatever calls raise or end the process, the commits apart that take effect and then raise: where
  -- archive_range returns n, n is the number of rows in the range, the other rows and those that
  -- others committed are the table, and for n above 0 a new file holds the rows of the range. Where
  -- it raises or the process dies, the table has all its rows, with or without a copy of the range
  -- in the new file, or the rows of the range are in the new file and no longer in the table; and
  -- this does not happen where no call fails and each file holds what is written to it. The name of
  -- the file is new, and a file with as many rows as were written to it holds those rows.
  pub archive_range-Moved :
      (day_of : A → ℕ) (extra : A → Bool) (stored : List A → List A) (name : Name) (late : List A)
      (start end : ℕ) (w : World A)
      → ((xs : List A) → length (stored xs) ≡ length xs → stored xs ≡ xs)
      → Fresh name w.files
      → All (λ s. s ≢ fails_late) w.commits
      → let hits = keep (in_range day_of extra stored start end) w.table in
        let rest = keep (λ r. not (in_range day_of extra stored start end r)) w.table in
        let quiet = (w.signals ≡ []) × (w.commits ≡ []) × ((xs : List A) → stored xs ≡ xs) in
        Ends
          (Stopped quiet (w.table ++ late) (rest ++ late) hits w.files name)
          (Moved quiet (rest ++ late) hits w.files name)
          (archive_range day_of extra stored name late start end w)
  unfolding archive_range
  archive_range-Moved day_of extra stored name late start end w whole fresh certain =
      let quiet = (w.signals ≡ []) × (w.commits ≡ []) × ((xs : List A) → stored xs ≡ xs) in
      let intact : quiet → (xs : List A) → stored xs ≡ xs = λ q. q.2 in
      let w0 = record w { table = w.table ++ late; partial = none } in
      Ends-then write_manifest _
        (Ends-caught abandon _
          (export_range-Moved quiet day_of extra stored whole intact w.table late w.files name start
            end w.view w0 fresh
            (record {
              same_table = refl;
              same_files = refl;
              seen = refl;
              begun = refl;
              certain = certain;
              calm = λ q. (q.0, q.1);
            }))
          (λ v b.
            abandon-Bad quiet day_of extra stored whole intact w.table late w.files name start end v
              b)
          (λ v b. b))
        (write_manifest-Moved quiet day_of extra stored whole intact w.table late w.files name start
          end)
