-- ===== src/Queue/Bulk.antt =====
-- `insert_jobs_bulk` of scheduler/enqueue.py: many pending jobs in one transaction.
use bifrost_platform_plugin.Prelude.{
  ℕ, zero, suc, String, Option, none, some, List, [], ◌∷◌, ◌++◌, Bool, false, ◌&&◌, has, map, take,
  drop, length, str_eq, if◌then◌else◌,
}
use bifrost_platform_plugin.Prelude.Int.{ℤ}
use bifrost_platform_plugin.Prelude.Text.{strip}
use bifrost_platform_plugin.Json.{Json}
use bifrost_platform_plugin.Db.{
  Db, pure, throw, value_error, execute, commit, or_rollback, ◌>>=◌, ◌>>◌,
}
use bifrost_platform_plugin.Queue.{Row, Table}
use bifrost_platform_plugin.Queue.Enqueue.{Spec, new_row, insert_row}
use bifrost_platform_plugin.Queue.Settle.{body_of}

-- (kind_s, ph)
abbrev pub Key : Type 0
Key = String × String

abbrev pub key_eq : Key → Key → Bool
key_eq a b = str_eq a.0 b.0 && str_eq a.1 b.1

-- One entry of the five parallel lists.
pub record Draft : Type 0 where
  pub kind : String
  pub body : Json
  pub hash : String
  pub priority : ℤ
  pub max_attempts : ℕ

abbrev pub draft_key : Draft → Key
draft_key d = (d.kind, d.hash)

-- What the first loop makes of the specs.
pub record Batch : Type 0 where
  pub drafts : List Draft
  pub positions : List (Option Key)

abbrev pub insert_chunk_rows : ℕ
insert_chunk_rows = 2000

abbrev pub repeated : Batch → Batch
repeated b = record b { positions = none ∷ b.positions }

abbrev pub drafted : Draft → Batch → Batch
drafted d b = record { drafts = d ∷ b.drafts; positions = some (draft_key d) ∷ b.positions }

abbrev pub option_map : {A B : Type 0} → (A → B) → Option A → Option B
option_map f none = none
option_map f (some a) = some (f a)

-- The first loop; none where it raises ValueError. `seen` holds the keys of `key_index`.
module _ (digest : Json → String) where
  unfoldable pub draft_of : Spec → Draft
  unfolding strip
  draft_of s = record {
    kind = strip s.kind;
    body = body_of s.payload;
    hash = digest (body_of s.payload);
    priority = s.priority;
    max_attempts = s.max_attempts;
  }

  unfoldable pub gather : List Key → List Spec → Option Batch
  unfolding draft_of
  gather seen [] = some (record { drafts = []; positions = [] })
  gather seen (s ∷ specs) =
      let d = draft_of s in
      let known = has (key_eq (draft_key d)) seen in
      let rest = gather (if known then seen else draft_key d ∷ seen) specs in
      if str_eq d.kind ""
      then none
      else if known
      then option_map repeated rest
      else option_map (drafted d) rest

unfoldable pub row_of : ℕ → Draft → ℕ → Row
unfolding new_row
row_of now d i = new_row now i d.kind d.body d.hash d.priority d.max_attempts

abbrev pub returned : Option Row → List Row
returned none = []
returned (some r) = r ∷ []

-- One INSERT … SELECT … FROM unnest(…) ON CONFLICT DO NOTHING RETURNING, row by row.
unfoldable pub insert_chunk : ℕ → List Draft → Table → List Row × Table
unfolding insert_row row_of
insert_chunk now [] t = ([], t)
insert_chunk now (d ∷ ds) t =
    let one = insert_row (row_of now d) t in
    let rest = insert_chunk now ds one.1 in (returned one.0 ++ rest.0, rest.1)

-- The loop over the chunks: `left` bounds their number, and a chunk holds at least one row.
unfoldable pub insert_chunks : ℕ → ℕ → List Draft → Db Table (List Row)
unfolding insert_chunk
insert_chunks left now [] = pure []
insert_chunks zero now (d ∷ ds) = pure []
insert_chunks (suc left) now (d ∷ ds) = do
  rows ← execute (insert_chunk now (take insert_chunk_rows (d ∷ ds)))
  rest ← insert_chunks left now (drop insert_chunk_rows (d ∷ ds))
  pure (rows ++ rest)

abbrev pub has_key : Key → Row → Bool
has_key key r =
    str_eq key.0 r.kind && elim r.payload_hash [ none ↦ false | some h ↦ str_eq key.1 h ]

-- `id_by_key.get(key)`: the last row that was returned for a key.
unfoldable pub id_of_key : Key → List Row → Option ℕ
id_of_key key [] = none
id_of_key key (r ∷ rows) = elim (id_of_key key rows) [
  | some i ↦ some i
  | none ↦ if has_key key r then some r.id else none
]

unfoldable pub id_at : List Row → Option Key → Option ℕ
unfolding id_of_key
id_at rows none = none
id_at rows (some key) = id_of_key key rows

unfoldable pub insert_batch : ℕ → Batch → Db Table (List (Option ℕ))
unfolding insert_chunks id_at
insert_batch now b = or_rollback (do
  execute (λ t. (tt, t))
  rows ← insert_chunks (length b.drafts) now b.drafts
  commit
  pure (map (id_at rows) b.positions))

abbrev pub insert_gathered : ℕ → Option Batch → Db Table (List (Option ℕ))
insert_gathered now none = throw value_error
insert_gathered now (some b) = insert_batch now b

unfoldable pub insert_jobs_bulk : (Json → String) → ℕ → List Spec → Db Table (List (Option ℕ))
unfolding gather
insert_jobs_bulk digest now [] = pure []
insert_jobs_bulk digest now (s ∷ specs) = insert_gathered now (gather digest [] (s ∷ specs))
