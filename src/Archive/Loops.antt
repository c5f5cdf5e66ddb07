-- ===== src/Archive/Loops.antt =====
-- The loop of archive_past_window: its rounds are bounded.
use bifrost_platform_plugin.Prelude.{
  ℕ, zero, suc, ◌+◌, ◌≤◌, ◌≡◌, refl, List, Bool, false, ltb, leb, arith, ltb→lt, Bool-cases, inl,
  inr,
}
use bifrost_platform_plugin.Archive.{Result, returned, raised, died, World, Act, chunk_end}
use bifrost_platform_plugin.Archive.Passes.{
  ArchiveRun, Night, and_then_or, stop_run, archive_chunks, archive_chunk, note_chunk,
}
use bifrost_platform_plugin.Archive.Chunks.{chunk_end-later}

module _ {A : Type 0} where
  and_then_or_eq :
      {B C : Type 0}
      → (k : Act A C) (f g : B → Act A C) (r : Result B × World A)
      → ((b : B) (w : World A) → f b w ≡ g b w)
      → and_then_or k f r ≡ and_then_or k g r
  and_then_or_eq k f g (returned b, w) e = e b w
  and_then_or_eq k f g (raised, w) e = refl
  and_then_or_eq k f g (died, w) e = refl

  -- The loop goes as many rounds as there are days before the cutoff at most: any two bounds of
  -- that many rounds give the same run and the same world, whatever raises or dies on the way.
  pub archive_chunks-fuel :
      (day_of : A → ℕ) (extra : A → Bool) (stored : List A → List A) (night : Night A)
      (m n i cutoff span budget day : ℕ) (run : ArchiveRun) (w : World A)
      → cutoff ≤ day + m
      → cutoff ≤ day + n
      → archive_chunks day_of extra stored night m i cutoff span budget day run w
        ≡ archive_chunks day_of extra stored night n i cutoff span budget day run w
  unfolding archive_chunks
  archive_chunks-fuel day_of extra stored night zero zero i cutoff span budget day run w h h' = refl
  archive_chunks-fuel day_of extra stored night zero (suc n) i cutoff span budget day run w h h' =
      let over : ltb day cutoff ≡ false = ground (arith, h) in rw over refl
  archive_chunks-fuel day_of extra stored night (suc m) zero i cutoff span budget day run w h h' =
      let over : ltb day cutoff ≡ false = ground (arith, h') in rw over refl
  archive_chunks-fuel day_of extra stored night (suc m) (suc n) i cutoff span budget day run w h
        h' =
      elim (Bool-cases (ltb day cutoff)) [
        | inr over ↦ rw over refl
        | inl before ↦ elim (Bool-cases (leb budget (night.elapsed i))) [
          | inl spent ↦ rw (before, spent) refl
          | inr time ↦
              rw (before, time)
                (and_then_or_eq (stop_run run) _ _
                  (archive_chunk day_of extra stored night i cutoff span day w)
                  (λ r v.
                    archive_chunks-fuel day_of extra stored night m n (i + 1) cutoff span budget
                      (chunk_end day cutoff span)
                      (note_chunk day_of extra stored night i cutoff span day run r) v
                      (omega (arith, h, chunk_end-later day cutoff span (ltb→lt day cutoff before)))
                      (omega
                        (arith, h', chunk_end-later day cutoff span (ltb→lt day cutoff before)))))
        ]
      ]
