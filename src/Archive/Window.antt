-- ===== src/Archive/Window.antt =====
-- archive_past_window from its first call to its result.
use bifrost_platform_plugin.Prelude.{
  ℕ, ◌-◌, ◌≤◌, ◌<◌, min, ◌≡◌, refl, sym, ap, ◌∙◌, ◌≢◌, inl, inr, List, [], ◌∷◌, map, Bool, true,
  false, ◌&&◌, keep, length, ltb, arith, Bool-cases, Option-cases, In, All, In-cons, keep-In,
  map-In, Option, none, some,
}
use bifrost_platform_plugin.Archive.{
  fails_late, World, Root, is_available, Name, call, nothing, ◌>>◌, later, next, fine,
}
use bifrost_platform_plugin.Archive.Steps.{Ends, Ends-call, Ends-then, Ends-returned, after_call}
use bifrost_platform_plugin.Archive.Passes.{
  ArchiveRun, new_run, Night, stop_run, archive_past_window, oldest_day, least, from_oldest,
}
use bifrost_platform_plugin.Archive.Kept.{Kept-same}
use bifrost_platform_plugin.Archive.Rounds.{
  Ends-or, Older, Clear, AtDay, AtEnd, GivenUp, stop_run-AtEnd, archive_chunks-AtEnd,
}

least_of_none : (ns : List ℕ) (n : ℕ) → least ns ≡ none → In n ns → ⊥
least_of_none [] n e m = elim m [ ]
least_of_none (x ∷ ns) n e m = elim (Option-cases (least ns)) [
  | inl empty ↦ (let f : some x ≡ none = rw empty at e in ground (arith, f))
  | inr (y, found) ↦ (let f : some (min x y) ≡ none = rw found at e in ground (arith, f))
]

least_of_some : (ns : List ℕ) (k n : ℕ) → least ns ≡ some k → In n ns → k ≤ n
least_of_some [] k n e m = elim m [ ]
least_of_some (x ∷ ns) k n e m = elim (Option-cases (least ns)) [
  | inl empty ↦
      let f : some x ≡ some k = rw empty at e in
      elim (In-cons m) [
        | inl same ↦ ground (arith, f, same)
        | inr further ↦ absurd (least_of_none ns n empty further)
      ]
  | inr (y, found) ↦
      let f : some (min x y) ≡ some k = rw found at e in
      elim (In-cons m) [
        | inl same ↦ ground (arith, f, same)
        | inr further ↦ (let le = least_of_some ns y n found further in ground (arith, f, le))
      ]
]

module _ {A : Type 0} where
  module _ (day_of : A → ℕ) (extra : A → Bool) (stored : List A → List A) (night : Night A)
      (Quiet : Type 0) (cutoff span budget began : ℕ) (w : World A) where
    -- Nothing has happened yet.
    pub record Idle (u : World A) : Type 0 where
      pub same_table : u.table ≡ w.table
      pub same_files : u.files ≡ w.files
      pub certain : All (λ s. s ≢ fails_late) u.commits
      pub calm : Quiet → (u.signals ≡ []) × (u.commits ≡ [])

    abbrev Bad : World A → Type 0
    Bad = GivenUp day_of extra stored night Quiet cutoff span budget began w

    abbrev End : ArchiveRun → World A → Type 0
    End = AtEnd day_of extra stored night Quiet cutoff span budget began w

    abbrev ClearFrom : ℕ → List A → Type 0
    ClearFrom = Clear day_of extra stored night Quiet cutoff span budget began w

    found_day :
        (r : A) (rows : List A)
        → In r rows
        → extra r ≡ true
        → day_of r < cutoff
        → In (day_of r) (map day_of (keep (λ x. ltb (day_of x) cutoff && extra x) rows))
    found_day r rows m x lt =
        map-In day_of _
          (keep-In (λ x. ltb (day_of x) cutoff && extra x) rows m (ground (arith, x, lt))) refl

    clear_of_none :
        (rows : List A)
        → oldest_day day_of extra stored night cutoff rows ≡ none
        → ClearFrom cutoff rows
    clear_of_none rows e r m x lt = absurd (least_of_none _ (day_of r) e (found_day r rows m x lt))

    clear_of_some :
        (rows : List A) (day : ℕ)
        → oldest_day day_of extra stored night cutoff rows ≡ some day
        → ClearFrom day rows
    clear_of_some rows day e r m x lt =
        inl (least_of_some _ day (day_of r) e (found_day r rows m x lt))

    Idle-call : (u : World A) → Idle u → Ends Bad (λ _ v. Idle v) (call nothing u)
    Idle-call u g = Ends-call nothing u bad bad (record {
      same_table = g.same_table;
      same_files = g.same_files;
      certain = g.certain;
      calm = λ q. (ap later (g.calm q).0, (g.calm q).1);
    })
      where
        bad : next u.signals ≢ fine → Bad (after_call u)
        bad ne = record {
          kept = Kept-same w (after_call u) g.same_table g.same_files;
          not_quiet = λ q. ne (ap next (g.calm q).0);
        }

    Idle-calls :
        (u : World A) → Idle u → Ends Bad (λ _ v. Idle v) ((call nothing >> call nothing) u)
    Idle-calls u g = Ends-then (λ _. call nothing) _ (Idle-call u g) (λ _ v h. Idle-call v h)

    module _ (whole : (xs : List A) → length (stored xs) ≡ length xs → stored xs ≡ xs)
        (intact : Quiet → (xs : List A) → stored xs ≡ xs)
        (in_time : Quiet → (i : ℕ) → night.elapsed i < budget)
        (clock : (i : ℕ) → began ≤ night.stamp i)
        (older : All (λ (f : Name × List A). f.0.stamp < began) w.files) where
      earlier :
          (day : ℕ) (fs : List (Name × List A))
          → All (λ (f : Name × List A). f.0.stamp < began) fs
          → All (Older day began) fs
      earlier day [] h = tt
      earlier day (f ∷ fs) (h, hs) = (inr h, earlier day fs hs)

      -- The head of the loop.
      start :
          (day : ℕ) (run : ArchiveRun) (u : World A)
          → run.error ≡ false
          → run.budget_exhausted ≡ false
          → ClearFrom day u.table
          → Idle u
          → AtDay day_of extra stored night Quiet cutoff span budget began w day run u
      start day run u e b c g = record {
        kept = Kept-same w u g.same_table g.same_files;
        older = rw g.same_files (earlier day w.files older);
        certain = g.certain;
        done = c;
        calm = λ q. ((g.calm q).0, (g.calm q).1, e, b);
      }

      stop : (run : ArchiveRun) (u : World A) → Bad u → Ends Bad End (stop_run run u)
      stop = stop_run-AtEnd day_of extra stored night Quiet cutoff span budget began w

      from_oldest-AtEnd :
          (run : ArchiveRun) (u : World A) (o : Option ℕ)
          → run.error ≡ false
          → run.budget_exhausted ≡ false
          → oldest_day day_of extra stored night cutoff u.table ≡ o
          → Idle u
          → Ends Bad End (from_oldest day_of extra stored night cutoff span budget run o u)
      from_oldest-AtEnd run u none e b eq g = Ends-returned run u (record {
        kept = Kept-same w u g.same_table g.same_files;
        done = λ _ _. clear_of_none u.table eq;
        calm = λ _. (e, b);
      })
      from_oldest-AtEnd run u (some day) e b eq g =
          Ends-or (stop_run run) _ _ (Idle-calls u g)
            (λ _ v h.
              archive_chunks-AtEnd day_of extra stored night Quiet cutoff span budget began w whole
                intact in_time clock (cutoff - day) 0 day run v (omega arith)
                (start day run v e b
                  (rw (h.same_table ∙ sym g.same_table) (clear_of_some u.table day eq)) h))
            (stop run) (λ v h. h)

      pub archive_past_window-AtEnd :
          (root : Root) (require_mount : Bool)
          → (Quiet → is_available require_mount root ≡ true)
          → Idle w
          → Ends Bad End (
              archive_past_window day_of extra stored night root require_mount cutoff span budget w)
      unfolding archive_past_window
      archive_past_window-AtEnd root require_mount there_is g =
          elim (Bool-cases (is_available require_mount root)) [
            | inr missing ↦ rw missing (
                Ends-returned _ w (record {
                  kept = Kept-same w w refl refl;
                  done = λ e. ground (arith, e);
                  calm = λ q. (let t = there_is q in ground (arith, t, missing));
                }))
            | inl present ↦ rw present (
                Ends-or (stop_run new_run) _ _ (Idle-calls w g)
                  (λ _ v h.
                    Ends-or (stop_run (record new_run { cutoff = some cutoff })) _ _
                      (Ends-then (λ _. call nothing) _ (Idle-calls v h) (λ _ u k. Idle-call u k))
                      (λ _ u k.
                        from_oldest-AtEnd (record new_run { cutoff = some cutoff }) u _ refl refl
                          refl k)
                      (stop (record new_run { cutoff = some cutoff })) (λ u k. k))
                  (stop new_run) (λ v h. h))
          ]
