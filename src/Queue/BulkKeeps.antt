-- ===== src/Queue/BulkKeeps.antt =====
-- The bulk enqueue keeps the queue's invariant, whichever calls raise.
use bifrost_platform_plugin.Prelude.{
  ℕ, zero, suc, String, refl, List, [], ◌∷◌, ◌++◌, Option, none, some, map, take, drop, length, In,
  here, there, In-cons, In-take, inl, inr, Bool-cases, str_eq, has,
}
use bifrost_platform_plugin.Json.{Json}
use bifrost_platform_plugin.Db.{value_error, execute, commit}
use bifrost_platform_plugin.Db.Ensures.{
  Ensures, pure-Ensures, throw-Ensures, execute-Ensures, commit-Ensures, bind-Ensures,
  or_rollback-Ensures,
}
use bifrost_platform_plugin.Queue.{Table}
use bifrost_platform_plugin.Queue.Enqueue.{Spec, insert_row, new_row}
use bifrost_platform_plugin.Queue.Invariant.{IsWell}
use bifrost_platform_plugin.Queue.Keeps.{new_row-IsRowWell}
use bifrost_platform_plugin.Queue.Grows.{insert_row-IsWell}
use bifrost_platform_plugin.Queue.Bulk.{
  Draft, Batch, Key, key_eq, draft_key, draft_of, drafted, repeated, option_map, row_of,
  insert_chunk, insert_chunk_rows, insert_chunks, gather, id_at, insert_batch, insert_gathered,
  insert_jobs_bulk,
}

In-drop : {A : Type 0} (n : ℕ) (xs : List A) {x : A} → In x (drop n xs) → In x xs
In-drop zero xs m = m
In-drop (suc n) [] m = elim m [ ]
In-drop (suc n) (y ∷ xs) m = there (In-drop n xs m)

abbrev Any : {A : Type 0} → A → Type 0
Any a = Unit

module _ (P : Table → Type 0) (Good : Draft → Type 0) (now : ℕ)
    (step : (d : Draft) → Good d → (t : Table) → P t → P (insert_row (row_of now d) t).1) where
  abbrev AllGood : List Draft → Type 0
  AllGood ds = (d : Draft) → In d ds → Good d

  insert_chunk-Holds :
      (ds : List Draft) → AllGood ds → (t : Table) → P t → P (insert_chunk now ds t).1
  unfolding insert_chunk
  insert_chunk-Holds [] good t w = w
  insert_chunk-Holds (d ∷ ds) good t w =
      insert_chunk-Holds ds (λ e m. good e (there m)) (insert_row (row_of now d) t).1
        (step d (good d (here refl)) t w)

  insert_chunks-Holds :
      (left : ℕ) (ds : List Draft) → AllGood ds → Ensures P Any (insert_chunks left now ds)
  unfolding insert_chunks
  insert_chunks-Holds left [] good = pure-Ensures P Any [] tt
  insert_chunks-Holds zero (d ∷ ds) good = pure-Ensures P Any [] tt
  insert_chunks-Holds (suc left) (d ∷ ds) good =
      let front = λ (e : Draft) (m : In e (take insert_chunk_rows (d ∷ ds))).
        good e (In-take insert_chunk_rows (d ∷ ds) m) in
      let back = λ (e : Draft) (m : In e (drop insert_chunk_rows (d ∷ ds))).
        good e (In-drop insert_chunk_rows (d ∷ ds) m) in
      bind-Ensures P Any Any (execute (insert_chunk now (take insert_chunk_rows (d ∷ ds)))) _
        (execute-Ensures P Any (insert_chunk now (take insert_chunk_rows (d ∷ ds)))
          (λ t w. (insert_chunk-Holds (take insert_chunk_rows (d ∷ ds)) front t w, tt)))
        (λ rows _.
          bind-Ensures P Any Any (insert_chunks left now (drop insert_chunk_rows (d ∷ ds))) _
            (insert_chunks-Holds left (drop insert_chunk_rows (d ∷ ds)) back)
            (λ rest _. pure-Ensures P Any (rows ++ rest) tt))

  abbrev GoodBatch : Option Batch → Type 0
  GoodBatch none = Unit
  GoodBatch (some b) = AllGood b.drafts

  insert_gathered-Holds : (o : Option Batch) → GoodBatch o → Ensures P Any (insert_gathered now o)
  unfolding insert_batch
  insert_gathered-Holds none good = throw-Ensures P Any value_error
  insert_gathered-Holds (some b) good = or_rollback-Ensures P Any _ (
      bind-Ensures P Any Any (execute (λ t. (tt, t))) _
        (execute-Ensures P Any (λ t. (tt, t)) (λ t w. (w, tt)))
        (λ _ _.
          bind-Ensures P Any Any (insert_chunks (length b.drafts) now b.drafts) _
            (insert_chunks-Holds (length b.drafts) b.drafts good)
            (λ rows _.
              bind-Ensures P Any Any commit _ (commit-Ensures P)
                (λ _ _. pure-Ensures P Any (map (id_at rows) b.positions) tt))))

  drafted-GoodBatch :
      (d : Draft) (o : Option Batch) → Good d → GoodBatch o → GoodBatch (option_map (drafted d) o)
  drafted-GoodBatch d none g h = tt
  drafted-GoodBatch d (some b) g h = λ e m. elim (In-cons m) [ inl q ↦ rw q g | inr k ↦ h e k ]

  repeated-GoodBatch : (o : Option Batch) → GoodBatch o → GoodBatch (option_map repeated o)
  repeated-GoodBatch none h = tt
  repeated-GoodBatch (some b) h = h

  module _ (digest : Json → String) where
    gather-GoodBatch :
        (seen : List Key) (specs : List Spec)
        → ((s : Spec) → In s specs → Good (draft_of digest s))
        → GoodBatch (gather digest seen specs)
    unfolding gather
    gather-GoodBatch seen [] good = λ d m. elim m [ ]
    gather-GoodBatch seen (s ∷ specs) good =
        let d = draft_of digest s in
        let rest = λ (seen' : List Key). gather-GoodBatch seen' specs (λ v m. good v (there m)) in
        elim (Bool-cases (str_eq d.kind "")) [
          | inl t ↦ rw t tt
          | inr f ↦ elim (Bool-cases (has (key_eq (draft_key d)) seen)) [
            | inl t ↦ rw (f, t) (repeated-GoodBatch (gather digest seen specs) (rest seen))
            | inr n ↦
                rw (f, n)
                  (drafted-GoodBatch d (gather digest (draft_key d ∷ seen) specs)
                    (good s (here refl)) (rest (draft_key d ∷ seen)))
          ]
        ]

    pub insert_jobs_bulk-Holds :
        (specs : List Spec)
        → ((s : Spec) → In s specs → Good (draft_of digest s))
        → Ensures P (λ ids. Unit {0}) (insert_jobs_bulk digest now specs)
    unfolding insert_jobs_bulk
    insert_jobs_bulk-Holds [] good = pure-Ensures P Any [] tt
    insert_jobs_bulk-Holds (s ∷ specs) good =
        insert_gathered-Holds (gather digest [] (s ∷ specs)) (gather-GoodBatch [] (s ∷ specs) good)

pub insert_jobs_bulk-IsWell :
    (digest : Json → String) (now : ℕ) (specs : List Spec)
    → Ensures IsWell (λ ids. Unit {0}) (insert_jobs_bulk digest now specs)
insert_jobs_bulk-IsWell digest now specs =
    insert_jobs_bulk-Holds IsWell (λ d. Unit {0}) now
      (λ d g t w.
        unfold row_of in
        unfold new_row in
        insert_row-IsWell (row_of now d) t (λ i. refl)
          (λ i. new_row-IsRowWell now i d.kind d.body d.hash d.priority d.max_attempts) w)
      digest specs (λ s m. tt)
