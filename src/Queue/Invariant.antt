-- ===== src/Queue/Invariant.antt =====
-- What holds of the job table between two statements: primary keys, the unique index of active
-- jobs, and the agreement of status and time stamps; and the statements that keep it.
use bifrost_platform_plugin.Prelude.{
  ℕ, ◌<◌, ◌≡◌, refl, List, [], ◌∷◌, Bool, true, false, not, ◌&&◌, ◌==◌, arith, Option, none, some,
  In, here, there, map,
}
use bifrost_platform_plugin.Queue.{Row, Table, is_active, is_running, same_key}
use bifrost_platform_plugin.Queue.Ids.{count_id, DistinctIds}

abbrev pub is_some : {A : Type 0} → Option A → Bool
is_some none = false
is_some (some a) = true

-- A job is finished exactly when it has `finished_at`; a running one has been started and counted.
pub record IsRowWell (r : Row) : Type 0 where
  pub finished : is_some r.finished_at ≡ not (is_active r.status)
  pub started : (is_running r.status && not (is_some r.started_at)) ≡ false
  pub counted : (is_running r.status && r.attempts == 0) ≡ false

pub record IsWell (t : Table) : Type 0 where
  pub ids : DistinctIds t.rows
  pub below : (r : Row) → In r t.rows → r.id < t.next_id
  -- The index `job_ingest_dedup`.
  pub dedup : (r s : Row) → In r t.rows → In s t.rows → same_key r s ≡ true → r.id ≡ s.id
  pub rows_well : (r : Row) → In r t.rows → IsRowWell r

abbrev pub empty_table : Table
empty_table = record { rows = []; next_id = 1 }

pub empty_table-IsWell : IsWell empty_table
empty_table-IsWell = record {
  ids = λ i. omega arith;
  below = λ r m. elim m [ ];
  dedup = λ r s m. elim m [ ];
  rows_well = λ r m. elim m [ ];
}

In-map :
    (g : Row → Row) (rows : List Row) {r : Row}
    → In r (map g rows)
    → (s : Row) × In s rows × (r ≡ g s)
In-map g [] m = elim m [ ]
In-map g (x ∷ rows) (here e) = (x, here refl, e)
In-map g (x ∷ rows) (there m) = let (s, n, e) = In-map g rows m in (s, there n, e)

count_id-map :
    (i : ℕ) (g : Row → Row) (rows : List Row)
    → ((r : Row) → (g r).id ≡ r.id)
    → count_id i (map g rows) ≡ count_id i rows
count_id-map i g [] h = refl
count_id-map i g (x ∷ rows) h = ground (arith, h x, count_id-map i g rows h)

-- An UPDATE that keeps ids, whose rows agree, and that makes no two rows share a key.
pub map-IsWell :
    (g : Row → Row) {t : Table}
    → IsWell t
    → ((r : Row) → (g r).id ≡ r.id)
    → ((r : Row) → In r t.rows → IsRowWell (g r))
    → ((r s : Row) → In r t.rows → In s t.rows → same_key (g r) (g s) ≡ true → r.id ≡ s.id)
    → IsWell (record t { rows = map g t.rows })
map-IsWell g {t} w id_kept well apart = record {
  ids = λ i. rw (count_id-map i g t.rows id_kept) (w.ids i);
  below = λ r m. let (s, n, e) = In-map g t.rows m in rw (e, id_kept) (w.below s n);
  dedup = λ r s m n h.
      let (a, ma, ea) = In-map g t.rows m in
      let (b, mb, eb) = In-map g t.rows n in
      let key : same_key (g a) (g b) ≡ true = rw (← ea, ← eb) h in
      rw (ea, eb, id_kept a, id_kept b) (apart a b ma mb key);
  rows_well = λ r m. let (s, n, e) = In-map g t.rows m in rw e (well s n);
}
