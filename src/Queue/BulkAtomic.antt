-- ===== src/Queue/BulkAtomic.antt =====
-- Faults in `insert_jobs_bulk`: its chunks are one transaction.
use bifrost_platform_plugin.Prelude.{
  ℕ, zero, suc, String, ◌≡◌, refl, Option, none, some, List, [], ◌∷◌, ◌++◌, map, take, drop, length,
}
use bifrost_platform_plugin.Json.{Json}
use bifrost_platform_plugin.Db.{
  Db, Conn, Outcome, return, raise, next_fault, and_then, pure, ◌>>=◌, executed,
}
use bifrost_platform_plugin.Queue.{Row, Table}
use bifrost_platform_plugin.Queue.Enqueue.{Spec, insert_job}
use bifrost_platform_plugin.Queue.Bulk.{
  Draft, Batch, gather, insert_chunk, insert_chunks, insert_chunk_rows, id_at, insert_batch,
  insert_gathered, insert_jobs_bulk,
}
use bifrost_platform_plugin.Queue.Atomic.{
  Settled, CommitsLast, undo-Settled, executed-CommitsLast, committing-pure, insert_job-Settled,
}

and_then_assoc :
    {S A B C : Type 0} (f : A → Db S B) (k : B → Db S C) (p : Outcome A × Conn S)
    → and_then k (and_then f p) ≡ and_then (λ a c. and_then k (f a c)) p
and_then_assoc f k (return a, c) = refl
and_then_assoc f k (raise e, c) = refl

-- However many chunks there are: what follows them decides.
insert_chunks-CommitsLast :
    {A : Type 0} (left now : ℕ) (ds : List Draft) (s : Table) (k : List Row → Db Table A)
    → ((rows : List Row) (d : Conn Table) → d.committed ≡ s → CommitsLast s (k rows d))
    → (c : Conn Table) → c.committed ≡ s
    → CommitsLast s (and_then k (insert_chunks left now ds c))
unfolding insert_chunks
insert_chunks-CommitsLast left now [] s k rest c e = rest [] c e
insert_chunks-CommitsLast zero now (d ∷ ds) s k rest c e = rest [] c e
insert_chunks-CommitsLast (suc left) now (d ∷ ds) s k rest c e =
    let later = drop insert_chunk_rows (d ∷ ds) in
    let here = insert_chunk now (take insert_chunk_rows (d ∷ ds)) in
    rw
      (and_then_assoc (λ rows. insert_chunks left now later >>= λ more. pure (rows ++ more)) k
        (executed here c (next_fault c.faults)))
      (executed-CommitsLast s
        (λ rows c'.
          and_then k (and_then (λ more. pure (rows ++ more)) (insert_chunks left now later c')))
        (λ rows c' e'.
          rw (and_then_assoc (λ more. pure (rows ++ more)) k (insert_chunks left now later c')) (
            insert_chunks-CommitsLast left now later s (λ more. k (rows ++ more))
              (λ more d' e''. rest (rows ++ more) d' e'') c' e'))
        here c (next_fault c.faults) e)

-- Whichever calls raise: after `insert_job`, and after `insert_jobs_bulk` of however many chunks,
-- no transaction is open, and one that raised, the ValueError for a missing kind included, has
-- committed nothing, unless the error is that of a commit which took effect before it raised.
pub enqueue-Settled :
    (now : ℕ) (c : Conn Table)
    → c.working ≡ c.committed
    → (digest : Json → String) (s : Spec) (specs : List Spec)
    → Settled c.committed (insert_job digest now s c)
      × Settled c.committed (insert_jobs_bulk digest now specs c)
unfolding insert_jobs_bulk insert_batch
enqueue-Settled now c closed digest s specs = (insert_job-Settled now c closed digest s, bulk specs)
  where
    gathered : (o : Option Batch) → Settled c.committed (insert_gathered now o c)
    gathered none = (closed, refl)
    gathered (some b) = undo-Settled c.committed _ (
        executed-CommitsLast c.committed _
          (λ u d q.
            insert_chunks-CommitsLast (length b.drafts) now b.drafts c.committed _
              (λ rows d' q'.
                committing-pure (map (id_at rows) b.positions) c.committed d' (next_fault d'.faults)
                  q')
              d q)
          (λ t. (tt, t)) c (next_fault c.faults) refl)

    bulk : (specs : List Spec) → Settled c.committed (insert_jobs_bulk digest now specs c)
    bulk [] = (closed, tt)
    bulk (x ∷ xs) = gathered (gather digest [] (x ∷ xs))
