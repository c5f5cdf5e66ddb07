-- ===== src/Archive/Rounds.antt =====
-- archive_past_window, round by round: where the rows are, and which days are done.
use bifrost_platform_plugin.Prelude.{
  ℕ, zero, suc, ◌+◌, ◌≤◌, ◌<◌, ◌≡◌, refl, ◌≢◌, ◌⊎◌, inl, inr, List, [], ◌∷◌, ◌++◌, Bool, true,
  false, not, ◌&&◌, keep, length, ltb, leb, arith, ltb→lt, Bool-cases, In, All, In-append, In-keep,
}
use bifrost_platform_plugin.Archive.{
  fails_late, Result, returned, raised, died, World, Act, Name, call, done_with, nothing, in_range,
  chunk_end,
}
use bifrost_platform_plugin.Archive.Steps.{
  Ends, Ends-call, Ends-then, Ends-caught, Ends-returned, Ends-weaker, after_call,
}
use bifrost_platform_plugin.Archive.Files.{Moved-Fate, Fresh, with_file}
use bifrost_platform_plugin.Archive.Ranges.{archive_range-Moved}
use bifrost_platform_plugin.Archive.Passes.{
  ArchiveRun, Night, and_then_or, stop_run, archive_chunks, archive_chunk, note_chunk, name_of,
}
use bifrost_platform_plugin.Archive.Chunks.{chunk_end-later}
use bifrost_platform_plugin.Archive.Kept.{Kept, Kept-trans, Kept-same, Fate-Kept}

module _ {A : Type 0} where
  pub Ends-or :
      {B C : Type 0} {F E : World A → Type 0} {P : B → World A → Type 0} {Q : C → World A → Type 0}
      → (k : Act A C) (more : B → Act A C) (r : Result B × World A) → Ends F P r
      → ((b : B) (w : World A) → P b w → Ends E Q (more b w))
      → ((w : World A) → F w → Ends E Q (k w))
      → ((w : World A) → F w → E w)
      → Ends E Q (and_then_or k more r)
  Ends-or k more (returned b, w) h go stop weaker = go b w h.ending
  Ends-or k more (raised, w) h go stop weaker = stop w h.ending
  Ends-or k more (died, w) h go stop weaker = record { ending = weaker w h.ending }

  -- A file of an earlier pass, or of a day that is done.
  abbrev pub Older : ℕ → ℕ → Name × List A → Type 0
  Older day began f = (f.0.first < day) ⊎ (f.0.stamp < began)

  Older-Fresh :
      (day began : ℕ) (name : Name) (fs : List (Name × List A))
      → name.first ≡ day
      → began ≤ name.stamp
      → All (Older day began) fs
      → Fresh name fs
  Older-Fresh day began name [] e le h = tt
  Older-Fresh day began name (f ∷ fs) e le (inl lt, hs) =
      (ground (arith, e, lt), Older-Fresh day began name fs e le hs)
  Older-Fresh day began name (f ∷ fs) e le (inr lt, hs) =
      (ground (arith, le, lt), Older-Fresh day began name fs e le hs)

  Older-with_file :
      (day end began n : ℕ) (f : Name × List A) (fs : List (Name × List A))
      → day < end
      → f.0.first ≡ day
      → All (Older day began) fs
      → All (Older end began) (with_file n f fs)
  Older-with_file day end began zero f fs lt e h = later_days fs h
    where
      later_days : (fs : List (Name × List A)) → All (Older day began) fs → All (Older end began) fs
      later_days [] h = tt
      later_days (g ∷ gs) (inl b, hs) = (inl (omega (arith, b, lt)), later_days gs hs)
      later_days (g ∷ gs) (inr b, hs) = (inr b, later_days gs hs)
  Older-with_file day end began (suc n) f [] lt e h = (inl (omega (arith, e, lt)), tt)
  Older-with_file day end began (suc n) f (g ∷ gs) lt e (inl b, hs) =
      (inl (omega (arith, b, lt)), Older-with_file day end began (suc n) f gs lt e hs)
  Older-with_file day end began (suc n) f (g ∷ gs) lt e (inr b, hs) =
      (inr b, Older-with_file day end began (suc n) f gs lt e hs)

  module _ (day_of : A → ℕ) (extra : A → Bool) (stored : List A → List A) (night : Night A)
      (Quiet : Type 0) (cutoff span budget began : ℕ) (base : World A) where
    -- The days before `day` are done, but for what others inserted meanwhile.
    abbrev pub Clear : ℕ → List A → Type 0
    Clear day rows =
        (r : A)
        → In r rows
        → extra r ≡ true
        → day_of r < cutoff
        → (day ≤ day_of r) ⊎ ((i : ℕ) × In r (night.late i))

    -- At the head of a round.
    pub record AtDay (day : ℕ) (run : ArchiveRun) (w : World A) : Type 0 where
      pub kept : Kept base w
      pub older : All (Older day began) w.files
      pub certain : All (λ s. s ≢ fails_late) w.commits
      pub done : Clear day w.table
      pub calm :
          Quiet
          → (w.signals ≡ [])
            × (w.commits ≡ [])
            × (run.error ≡ false)
            × (run.budget_exhausted ≡ false)

    -- At the end of the pass.
    pub record AtEnd (run : ArchiveRun) (w : World A) : Type 0 where
      pub kept : Kept base w
      pub done : run.error ≡ false → run.budget_exhausted ≡ false → Clear cutoff w.table
      pub calm : Quiet → (run.error ≡ false) × (run.budget_exhausted ≡ false)

    pub record GivenUp (w : World A) : Type 0 where
      pub kept : Kept base w
      pub not_quiet : Quiet → ⊥

    pub stop_run-AtEnd :
        (run : ArchiveRun) (w : World A) → GivenUp w → Ends GivenUp AtEnd (stop_run run w)
    unfolding stop_run
    stop_run-AtEnd run w g =
        Ends-then (λ _. done_with (record run { error = true })) _
          (Ends-caught (done_with tt) (call nothing w)
            (Ends-call {Q = λ _ v. GivenUp v} nothing w (λ _. same g) (λ _. same g) (same g))
            (λ v h. Ends-returned {Q = λ _ v. GivenUp v} tt v h) (λ v h. h))
          (λ _ v h. Ends-returned _ v (record {
            kept = h.kept;
            done = λ e. ground (arith, e);
            calm = λ q. absurd (h.not_quiet q);
          }))
      where
        same : GivenUp w → GivenUp (after_call w)
        same g = record {
          kept = Kept-trans base w (after_call w) g.kept (Kept-same w (after_call w) refl refl);
          not_quiet = g.not_quiet;
        }

    Clear-chunk :
        (i day end : ℕ) (rows : List A)
        → Clear day rows
        → Clear end (keep (λ r. not (in_range day_of extra stored day end r)) rows ++ night.late i)
    Clear-chunk i day end rows h r m x lt =
        elim (In-append (keep (λ r. not (in_range day_of extra stored day end r)) rows)
          (night.late i) m) [
            | inr new ↦ inr (i, new)
            | inl old ↦
                let (was, out) =
                  In-keep (λ r. not (in_range day_of extra stored day end r)) rows old in
                elim (h r was x lt) [
                  | inr new ↦ inr new
                  | inl le ↦ inl (past (day_of r) (extra r) x le out)
                ]
          ]
      where
        past :
            (d : ℕ) (b : Bool)
            → b ≡ true
            → day ≤ d
            → not (leb day d && ltb d end && b) ≡ true
            → end ≤ d
        past d b e le out = ground (arith, e, le, out)

    note_chunk-calm :
        (i day n : ℕ) (run : ArchiveRun)
        → (run.error ≡ false) × (run.budget_exhausted ≡ false)
        → let after = note_chunk day_of extra stored night i cutoff span day run n in
          (after.error ≡ false) × (after.budget_exhausted ≡ false)
    note_chunk-calm i day zero run h = h
    note_chunk-calm i day (suc n) run h = h

    finished :
        (day : ℕ) (run : ArchiveRun) (w : World A) → cutoff ≤ day → AtDay day run w → AtEnd run w
    finished day run w le g = record {
      kept = g.kept;
      done = λ _ _ r m x lt. elim (g.done r m x lt) [
        | inl e ↦ inl (omega (arith, e, le))
        | inr n ↦ inr n
      ];
      calm = λ q. let (a, b, c, d) = g.calm q in (c, d);
    }

    module _ (whole : (xs : List A) → length (stored xs) ≡ length xs → stored xs ≡ xs)
        (intact : Quiet → (xs : List A) → stored xs ≡ xs)
        (in_time : Quiet → (i : ℕ) → night.elapsed i < budget)
        (clock : (i : ℕ) → began ≤ night.stamp i) where
      archive_chunk-AtDay :
          (i day : ℕ) (run : ArchiveRun) (w : World A)
          → day < cutoff
          → AtDay day run w
          → Ends GivenUp
              (λ n v.
                AtDay
                  (chunk_end day cutoff span)
                  (note_chunk day_of extra stored night i cutoff span day run n)
                  v)
              (archive_chunk day_of extra stored night i cutoff span day w)
      archive_chunk-AtDay i day run w lt g =
          let end = chunk_end day cutoff span in
          let name = name_of day_of extra stored night i day end in
          let p : A → Bool = in_range day_of extra stored day end in
          Ends-weaker _
            (λ v h. record {
              kept = Kept-trans base w v g.kept (Fate-Kept p (night.late i) name w v h.fate);
              not_quiet = λ q. h.not_quiet ((g.calm q).0, (g.calm q).1, intact q);
            })
            (λ n v h. record {
              kept = Kept-trans base w v g.kept (
                  Fate-Kept p (night.late i) name w v
                    (Moved-Fate _ p w.table (night.late i) w.files name n v h));
              older = rw h.saved (
                  Older-with_file day end began n (name, keep p w.table) w.files
                    (chunk_end-later day cutoff span lt) refl g.older);
              certain = h.certain;
              done = rw h.left_over (Clear-chunk i day end w.table g.done);
              calm = λ q.
                  let (a, b, c, d) = g.calm q in
                  let (s, t) = h.calm (a, b, intact q) in
                  let (u, z) = note_chunk-calm i day n run (c, d) in (s, t, u, z);
            })
            (archive_range-Moved day_of extra stored name (night.late i) day end w whole
              (Older-Fresh day began name w.files refl (clock i) g.older) g.certain)

      pub archive_chunks-AtEnd :
          (left i day : ℕ) (run : ArchiveRun) (w : World A)
          → cutoff ≤ day + left
          → AtDay day run w
          → Ends GivenUp AtEnd
              (archive_chunks day_of extra stored night left i cutoff span budget day run w)
      unfolding archive_chunks
      archive_chunks-AtEnd zero i day run w h g =
          Ends-returned run w (finished day run w (omega (arith, h)) g)
      archive_chunks-AtEnd (suc left) i day run w h g = elim (Bool-cases (ltb day cutoff)) [
        | inr over ↦ rw over (Ends-returned run w (finished day run w (ground (arith, over)) g))
        | inl before ↦ elim (Bool-cases (leb budget (night.elapsed i))) [
          | inl spent ↦
              rw (before, spent)
                (Ends-returned (record run { budget_exhausted = true }) w
                  (record {
                    kept = g.kept;
                    done = λ _ e. ground (arith, e);
                    calm = λ q. (let t = in_time q i in ground (arith, spent, t));
                  }))
          | inr time ↦
              rw (before, time)
                (Ends-or (stop_run run) _
                  (archive_chunk day_of extra stored night i cutoff span day w)
                  (archive_chunk-AtDay i day run w (ltb→lt day cutoff before) g)
                  (λ n v k.
                    archive_chunks-AtEnd left (i + 1) (chunk_end day cutoff span)
                      (note_chunk day_of extra stored night i cutoff span day run n) v
                      (omega (arith, h, chunk_end-later day cutoff span (ltb→lt day cutoff before)))
                      k)
                  (λ v k. stop_run-AtEnd run v k) (λ v k. k))
        ]
      ]
