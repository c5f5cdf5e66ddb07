-- ===== src/Archive/Commits.antt =====
-- The commit of archive_range and its `except`.
use bifrost_platform_plugin.Prelude.{
  ℕ, suc, List, [], ◌∷◌, ◌++◌, length, arith, All, ◌≡◌, refl, ap, ◌∙◌, ◌≢◌,
}
use bifrost_platform_plugin.Archive.{
  ◌>>◌, Signal, fine, fails, fails_late, dies, dies_late, World, Name, caught, later, next, called,
  call, fail, drop_file, commit_view, commit_or_unlink,
}
use bifrost_platform_plugin.Archive.Steps.{
  Ends, Ends-call, Ends-then, Ends-returned, Ends-raised, Ends-died,
}
use bifrost_platform_plugin.Archive.Files.{
  certain_next, certain_later, Fresh, drop_file-Fresh, untouched, copied, moved, Moved, Stopped,
}

module _ {A : Type 0} (Quiet : Type 0) (seen late rest hits : List A) (files : List (Name × List A))
    (name : Name) where
  abbrev Bad : World A → Type 0
  Bad w = Stopped Quiet (seen ++ late) (rest ++ late) hits files name w

  -- The file has its name and the transaction is open.
  pub record Sent (w : World A) : Type 0 where
    pub same_table : w.table ≡ seen ++ late
    pub sent : w.files ≡ files ++ ((name, hits) ∷ [])
    pub seen_rest : w.view ≡ rest
    pub certain : All (λ s. s ≢ fails_late) w.commits
    pub calm : Quiet → (w.signals ≡ []) × (w.commits ≡ [])

  unlinked-Bad :
      {B : Type 0} {Q : B → World A → Type 0} (w : World A)
      → Fresh name files
      → (Quiet → ⊥)
      → Sent w
      → Ends Bad Q ((call (λ v. record v { files = drop_file name v.files }) >> fail) w)
  unlinked-Bad w fresh no_quiet g =
      Ends-then (λ _. fail) (call (λ v. record v { files = drop_file name v.files }) w)
        (Ends-call {Q = λ _ w'. Bad w'} (λ v. record v { files = drop_file name v.files }) w
          (λ _. record { fate = copied g.same_table g.sent; not_quiet = no_quiet })
          (λ _. record { fate = untouched g.same_table gone; not_quiet = no_quiet })
          (record { fate = untouched g.same_table gone; not_quiet = no_quiet }))
        (λ _ w' h. Ends-raised w' h)
    where
      gone : drop_file name w.files ≡ files
      gone = ap (drop_file name) g.sent ∙ drop_file-Fresh name hits files fresh

  -- The commit: as long as it does not raise after it has taken effect.
  commit_called-Moved :
      (n : ℕ) (w : World A) (s : Signal)
      → Fresh name files
      → suc n ≡ length hits
      → s ≢ fails_late
      → (s ≢ fine → Quiet → ⊥)
      → Sent w
      → Ends Bad
          (λ _ w'. Moved Quiet (rest ++ late) hits files name (suc n) w')
          (caught
            (call (λ v. record v { files = drop_file name v.files }) >> fail)
            (called (commit_view late) w s))
  commit_called-Moved n w fine fresh e ne cause g = Ends-returned tt (commit_view late w) (record {
    count = e;
    left_over = ap (λ ys. ys ++ late) g.seen_rest;
    saved = g.sent;
    certain = g.certain;
    calm = g.calm;
  })
  commit_called-Moved n w fails fresh e ne cause g =
      unlinked-Bad w fresh (cause (λ eq. ground (arith, eq))) g
  commit_called-Moved n w fails_late fresh e ne cause g = absurd (ne refl)
  commit_called-Moved n w dies fresh e ne cause g =
      Ends-died w
        (record { fate = copied g.same_table g.sent; not_quiet = cause (λ eq. ground (arith, eq)) })
  commit_called-Moved n w dies_late fresh e ne cause g = Ends-died (commit_view late w) (record {
    fate = moved (ap (λ ys. ys ++ late) g.seen_rest) g.sent;
    not_quiet = cause (λ eq. ground (arith, eq));
  })

  pub commit_or_unlink-Moved :
      (n : ℕ) (w : World A)
      → Fresh name files
      → suc n ≡ length hits
      → Sent w
      → Ends Bad
          (λ _ w'. Moved Quiet (rest ++ late) hits files name (suc n) w')
          (commit_or_unlink name late w)
  unfolding commit_or_unlink
  commit_or_unlink-Moved n w fresh e g =
      commit_called-Moved n (record w { commits = later w.commits }) (next w.commits) fresh e
        (certain_next w.commits g.certain) (λ ne q. ne (ap next (g.calm q).1))
        (record {
          same_table = g.same_table;
          sent = g.sent;
          seen_rest = g.seen_rest;
          certain = certain_later w.commits g.certain;
          calm = λ q. ((g.calm q).0, ap later (g.calm q).1);
        })
