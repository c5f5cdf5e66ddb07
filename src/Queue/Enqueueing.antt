-- ===== src/Queue/Enqueueing.antt =====
-- The contract of scheduler/enqueue.py, over the keys of the pending and running jobs alone:
-- `insert_job` and `insert_jobs_bulk` implement it, whatever ids the sequence hands out.
use bifrost_platform_plugin.Prelude.{
  ◌⊎◌, ℕ, ◌≡◌, refl, sym, ap, ◌∙◌, String, Option, none, some, List, [], ◌∷◌, Bool, true, false,
  not, ◌&&◌, ◌||◌, has, map, length, str_eq, if◌then◌else◌, arith, Bool-cases, ◌⊎◌, inl, inr,
}
use bifrost_platform_plugin.Prelude.Text.{strip}
use bifrost_platform_plugin.Json.{Json}
use bifrost_platform_plugin.Db.{
  return, raise, value_error, calm, undo, and_then, commit, pure, ◌>>◌,
}
use bifrost_platform_plugin.Queue.{Row, Table}
use bifrost_platform_plugin.Queue.Enqueue.{Spec}
use bifrost_platform_plugin.Queue.Invariant.{is_some}
use bifrost_platform_plugin.Queue.Bulk.{
  Key, key_eq, Draft, draft_key, Batch, repeated, drafted, option_map, draft_of, gather,
  insert_chunk, id_of_key, id_at, insert_batch, insert_gathered, insert_jobs_bulk,
}
use bifrost_platform_plugin.Queue.BulkLaws.{
  active, key_eq-eq, key_eq_refl, present, insert_chunks-calm, active-insert_chunk,
  id_of_key-insert_chunk,
}

-- The keys of the active jobs.
abbrev pub Keys : Type 0
Keys = Key → Bool

abbrev pub adding : Key → Keys → Keys
adding k keys j = keys j || key_eq j k

-- Each wish is granted exactly if its key is free, and takes the key.
abbrev pub enqueue_all : Keys → List Key → List Bool × Keys
enqueue_all keys [] = ([], keys)
enqueue_all keys (k ∷ ks) =
    let rest = enqueue_all (adding k keys) ks in (not (keys k) ∷ rest.0, rest.1)

option_map-cases :
    {A B : Type 0} (f : A → B) (o : Option A) (b : B)
    → option_map f o ≡ some b
    → (a : A) × (o ≡ some a) × (f a ≡ b)
option_map-cases f none b h = ground (arith, h)
option_map-cases f (some a) b h = (a, refl, ap (λ o. elim o [ none ↦ b | some x ↦ x ]) h)

module _ (digest : Json → String) where
  abbrev pub keys_of : List Spec → List Key
  unfolding draft_of
  keys_of specs = map (λ s. draft_key (draft_of digest s)) specs

  -- What `gather` makes of a list that starts with a spec.
  gather-cons :
      (seen : List Key) (s : Spec) (specs : List Spec) (b : Batch)
      → gather digest seen (s ∷ specs) ≡ some b
      → let d = draft_of digest s in
        ((rest : Batch) × (has (key_eq (draft_key d)) seen ≡ true)
          × (gather digest seen specs ≡ some rest)
          × (repeated rest ≡ b))
        ⊎ ((rest : Batch) × (has (key_eq (draft_key d)) seen ≡ false)
            × (gather digest (draft_key d ∷ seen) specs ≡ some rest)
            × (drafted d rest ≡ b))
  unfolding gather
  gather-cons seen s specs b h =
      let d = draft_of digest s in
      elim (Bool-cases (str_eq d.kind "")) [
        | inl blank ↦ ground (arith, rw blank at h)
        | inr named ↦ elim (Bool-cases (has (key_eq (draft_key d)) seen)) [
          | inl k ↦
              let (rest, e, r) =
                option_map-cases repeated (gather digest seen specs) b (rw k at (rw named at h)) in
              inl (rest, k, e, r)
          | inr k ↦
              let (rest, e, r) =
                option_map-cases (drafted d) (gather digest (draft_key d ∷ seen) specs) b
                  (rw k at (rw named at h)) in
              inr (rest, k, e, r)
        ]
      ]

  gather-nil :
      (seen : List Key) (b : Batch)
      → gather digest seen [] ≡ some b
      → record { drafts = []; positions = [] } ≡ b
  unfolding gather
  gather-nil seen b h = ap (λ o. elim o [ none ↦ b | some x ↦ x ]) h

  abbrev position : (Key → Bool) → Option Key → Bool
  position got none = false
  position got (some k) = got k

  known-adding :
      (seen : List Key) (keys base : Keys) (d : Key)
      → ((k : Key) → keys k ≡ (base k || has (key_eq k) seen))
      → has (key_eq d) seen ≡ true
      → (k : Key) → adding d keys k ≡ (base k || has (key_eq k) seen)
  known-adding seen keys base d agree known k = elim (Bool-cases (key_eq k d)) [
    | inl e ↦
        let same : has (key_eq k) seen ≡ true =
          ap (λ j. has (key_eq j) seen) (key_eq-eq k d e) ∙ known in
        ground (arith, agree k, e, same)
    | inr n ↦ ground (arith, agree k, n)
  ]

  new-adding :
      (seen : List Key) (keys base : Keys) (d : Key)
      → ((k : Key) → keys k ≡ (base k || has (key_eq k) seen))
      → (k : Key) → adding d keys k ≡ (base k || has (key_eq k) (d ∷ seen))
  new-adding seen keys base d agree k = ground (arith, agree k)

  -- Which wishes the ids that came back grant.
  granted :
      (specs : List Spec) (seen : List Key) (b : Batch) (keys base : Keys) (whole : List Draft)
      (got : Key → Bool)
      → gather digest seen specs ≡ some b
      → ((k : Key) → present k b.drafts ≡ true → present k whole ≡ true)
      → ((k : Key) → keys k ≡ (base k || has (key_eq k) seen))
      → ((k : Key) → got k ≡ (present k whole && not (base k)))
      → map (position got) b.positions ≡ (enqueue_all keys (keys_of specs)).0
  unfolding present draft_of
  granted [] seen b keys base whole got h sub agree ids = rw (sym (gather-nil seen b h)) refl
  granted (s ∷ specs) seen b keys base whole got h sub agree ids =
      let d = draft_key (draft_of digest s) in
      elim (gather-cons seen s specs b h) [
        | inl (rest, known, e, r) ↦
            let within : (k : Key) → present k rest.drafts ≡ true → present k whole ≡ true =
              λ k p. sub k (ap (λ x. present k x.drafts) (sym r) ∙ p) in
            let taken : not (keys d) ≡ false = ground (arith, agree d, known) in
            let ih =
              granted specs seen rest (adding d keys) base whole got e within
                (known-adding seen keys base d agree known) ids in
            rw (sym r) (rw taken (ap (λ xs. false ∷ xs) ih))
        | inr (rest, fresh, e, r) ↦
            let drafts : (k : Key)
                → present k b.drafts ≡ (if key_eq k d then true else present k rest.drafts) =
              λ k. ap (λ x. present k x.drafts) (sym r) in
            let own : present d whole ≡ true = sub d (ground (arith, drafts d, key_eq_refl d)) in
            let within : (k : Key) → present k rest.drafts ≡ true → present k whole ≡ true =
              λ k p. sub k (ground (arith, drafts k, p)) in
            let id_of_own : got d ≡ not (keys d) = ground (arith, ids d, own, agree d, fresh) in
            let ih =
              granted specs (d ∷ seen) rest (adding d keys) base whole got e within
                (new-adding seen keys base d agree) ids in
            rw (sym r) (rw id_of_own (ap (λ xs. not (keys d) ∷ xs) ih))
      ]

  keys-gather :
      (specs : List Spec) (seen : List Key) (b : Batch) (keys base : Keys)
      → gather digest seen specs ≡ some b
      → ((k : Key) → keys k ≡ (base k || has (key_eq k) seen))
      → (k : Key) → (enqueue_all keys (keys_of specs)).1 k ≡ (keys k || present k b.drafts)
  unfolding present draft_of
  keys-gather [] seen b keys base h agree k = rw (sym (gather-nil seen b h)) (ground arith)
  keys-gather (s ∷ specs) seen b keys base h agree k =
      let d = draft_key (draft_of digest s) in
      elim (gather-cons seen s specs b h) [
        | inl (rest, known, e, r) ↦
            let more = known-adding seen keys base d agree known in
            let drafts : present k b.drafts ≡ present k rest.drafts =
              ap (λ x. present k x.drafts) (sym r) in
            let ih = keys-gather specs seen rest (adding d keys) base e more k in
            ih ∙ ground (arith, more k, agree k, drafts)
        | inr (rest, fresh, e, r) ↦
            let drafts : present k b.drafts ≡ (if key_eq k d then true else present k rest.drafts) =
              ap (λ x. present k x.drafts) (sym r) in
            let ih =
              keys-gather specs (d ∷ seen) rest (adding d keys) base e
                (new-adding seen keys base d agree) k in
            ih ∙ ground (arith, drafts)
      ]

  abbrev pub unnamed : Spec → Bool
  unfolding strip
  unnamed s = str_eq (strip s.kind) ""

  gather-total :
      (seen : List Key) (specs : List Spec)
      → has unnamed specs ≡ false
      → (b : Batch) × (gather digest seen specs ≡ some b)
  unfolding gather draft_of
  gather-total seen [] h = (_, refl)
  gather-total seen (s ∷ specs) h =
      let d = draft_of digest s in
      let here : str_eq d.kind "" ≡ false = ground (arith, h) in
      let later : has unnamed specs ≡ false = ground (arith, h) in
      elim (Bool-cases (has (key_eq (draft_key d)) seen)) [
        | inl k ↦
            let (b, e) = gather-total seen specs later in
            (repeated b, rw here (rw k (ap (option_map repeated) e)))
        | inr k ↦
            let (b, e) = gather-total (draft_key d ∷ seen) specs later in
            (drafted d b, rw here (rw k (ap (option_map (drafted d)) e)))
      ]

  gather-unnamed :
      (seen : List Key) (specs : List Spec)
      → has unnamed specs ≡ true
      → gather digest seen specs ≡ none
  unfolding gather draft_of
  gather-unnamed seen [] h = ground (arith, h)
  gather-unnamed seen (s ∷ specs) h =
      let d = draft_of digest s in
      elim (Bool-cases (str_eq d.kind "")) [
        | inl blank ↦ rw blank refl
        | inr named ↦
            let later : has unnamed specs ≡ true = ground (arith, h, named) in
            elim (Bool-cases (has (key_eq (draft_key d)) seen)) [
              | inl k ↦ rw named (rw k (ap (option_map repeated) (gather-unnamed seen specs later)))
              | inr k ↦ rw named (
                  rw k
                    (ap (option_map (drafted d)) (gather-unnamed (draft_key d ∷ seen) specs later)))
            ]
      ]

  ids-position :
      (rows : List Row) (ps : List (Option Key))
      → map is_some (map (id_at rows) ps) ≡ map (position (λ k. is_some (id_of_key k rows))) ps
  unfolding id_at
  ids-position rows [] = refl
  ids-position rows (none ∷ ps) = ap (λ xs. false ∷ xs) (ids-position rows ps)
  ids-position rows (some k ∷ ps) =
      ap (λ xs. is_some (id_of_key k rows) ∷ xs) (ids-position rows ps)

  insert_batch-calm :
      (now : ℕ) (b : Batch) (t : Table)
      → insert_batch now b (calm t) ≡ (
        return (map (id_at (insert_chunk now b.drafts t).0) b.positions),
        calm (insert_chunk now b.drafts t).1,
      )
  unfolding insert_batch
  insert_batch-calm now b t =
      ap (λ p. undo (and_then (λ rows. commit >> pure (map (id_at rows) b.positions)) p))
        (insert_chunks-calm (length b.drafts) now b.drafts t t (omega arith))

  -- Where no call raises, `insert_jobs_bulk` implements the contract. Either some kind is blank, and
  -- it raises ValueError and leaves the table alone, or it returns an id exactly for the wishes that
  -- are granted one after the other, and afterwards just the keys of the contract are active.
  pub insert_jobs_bulk-enqueue_all :
      (now : ℕ) (specs : List Spec) (t : Table)
      → ((has unnamed specs ≡ true)
          × (insert_jobs_bulk digest now specs (calm t) ≡ (raise value_error, calm t)))
        ⊎ ((has unnamed specs ≡ false)
            × (ids : List (Option ℕ)) × (t' : Table) × (insert_jobs_bulk digest now specs (calm t)
                ≡ (return ids, calm t'))
            × (map is_some ids ≡ (enqueue_all (λ k. active k t.rows) (keys_of specs)).0)
            × ((k : Key)
                → active k t'.rows ≡ (enqueue_all (λ k. active k t.rows) (keys_of specs)).1 k))
  unfolding insert_jobs_bulk draft_of
  insert_jobs_bulk-enqueue_all now [] t = inr (refl, [], t, refl, refl, λ k. refl)
  insert_jobs_bulk-enqueue_all now (s ∷ specs) t = elim (Bool-cases (has unnamed (s ∷ specs))) [
    | inl h ↦ inl (h, ap (λ o. insert_gathered now o (calm t)) (gather-unnamed [] (s ∷ specs) h))
    | inr h ↦
        let (b, e) = gather-total [] (s ∷ specs) h in
        let base : Keys = λ k. active k t.rows in
        let rows = (insert_chunk now b.drafts t).0 in
        let agree : (k : Key) → base k ≡ (base k || has (key_eq k) []) = λ k. ground arith in
        inr (
          h,
          map (id_at rows) b.positions,
          (insert_chunk now b.drafts t).1,
          ap (λ o. insert_gathered now o (calm t)) e ∙ insert_batch-calm now b t,
          ids-position rows b.positions
              ∙ granted (s ∷ specs) [] b base base b.drafts (λ k. is_some (id_of_key k rows)) e
                  (λ k p. p) agree (id_of_key-insert_chunk now b.drafts t),
          λ k.
              active-insert_chunk now b.drafts t k
              ∙ sym (keys-gather (s ∷ specs) [] b base base e agree k),
        )
  ]
