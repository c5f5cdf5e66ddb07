-- ===== src/Queue.antt =====
-- The table ops_jobs.job_ingest (schema/ddl.py, `_create_data_ops_tables`) and the row that a
-- worker holds after a claim (worker/claim.py). Instants are whole seconds.
pub mod Claim
pub mod Settle
pub mod Enqueue
pub mod Bulk
pub mod BulkLaws
pub mod BulkAtomic
pub mod BulkKeeps
pub mod Enqueueing
pub mod Ids
pub mod Ranking
pub mod Best
pub mod ClaimLaws
pub mod Atomic
pub mod Invariant
pub mod Keeps
pub mod Grows
pub mod Runs
pub mod Retry
pub mod Limits
pub mod Attempts
mod Tests
use bifrost_platform_plugin.Prelude.{
  ℕ, zero, suc, String, Option, none, some, List, Bool, true, false, ◌&&◌, ◌||◌, not, has, str_eq,
  ◌==◌, if◌then◌else◌,
}
use bifrost_platform_plugin.Prelude.Int.{ℤ}
use bifrost_platform_plugin.Json.{Json}

pub data Status : Type 0 where
  pending running done failed : Status

-- `attempts`, `max_attempts` and `priority` are smallint columns. An INSERT of a value that does not
-- fit raises, which is one of the faults that a connection is given; a row that is there has values
-- that fit, and a claim asks for attempts below max_attempts, so that one more fits too. No
-- attempts are left for a negative max_attempts as for 0, which stands for it.
pub record Row : Type 0 where
  pub id : ℕ
  pub kind : String
  pub payload : Json
  pub payload_hash : Option String
  pub priority : ℤ
  pub status : Status
  pub result : Option Json
  pub attempts : ℕ
  pub max_attempts : ℕ
  pub created_at : ℕ
  pub updated_at : ℕ
  pub started_at : Option ℕ
  pub finished_at : Option ℕ

-- The rows, and the value that the sequence of `id` hands out next.
pub record Table : Type 0 where
  pub rows : List Row
  pub next_id : ℕ

abbrev pub is_pending : Status → Bool
is_pending pending = true
is_pending _ = false

abbrev pub is_running : Status → Bool
is_running running = true
is_running _ = false

-- The predicate of the partial unique index: status IN ('pending', 'running').
abbrev pub is_active : Status → Bool
is_active pending = true
is_active running = true
is_active done = false
is_active failed = false

-- Equality of hashes in SQL: NULL is equal to nothing.
abbrev pub same_hash : Option String → Option String → Bool
same_hash (some h) (some k) = str_eq h k
same_hash (some h) none = false
same_hash none _ = false

-- Both rows stand in the index `job_ingest_dedup` under one key.
unfoldable pub same_key : Row → Row → Bool
same_key r s =
    is_active r.status
    && is_active s.status
    && str_eq r.kind s.kind
    && same_hash r.payload_hash s.payload_hash

-- The index refuses row `r` beside the others.
unfoldable pub conflicts : Row → List Row → Bool
unfolding same_key
conflicts r rows = has (λ s. not (r.id == s.id) && same_key r s) rows

-- UPDATE … WHERE id = %s: `f` is the SET list.
unfoldable pub update_id : ℕ → (Row → Row) → List Row → List Row
update_id i f List.[] = List.[]
update_id i f (List.◌∷◌ r rows) =
    let rest = update_id i f rows in if r.id == i then List.◌∷◌ (f r) rest else List.◌∷◌ r rest

-- `JobRow`: what `job_row_from_record` makes of a row, `or 3` included.
pub record JobRow : Type 0 where
  pub id : ℕ
  pub kind : String
  pub payload : Json
  pub payload_hash : Option String
  pub priority : ℤ
  pub status : Status
  pub result : Option Json
  pub attempts : ℕ
  pub max_attempts : ℕ
  pub created_at : ℕ
  pub updated_at : ℕ
  pub started_at : Option ℕ
  pub finished_at : Option ℕ

unfoldable pub job_row_from_record : Row → JobRow
job_row_from_record r = record {
  id = r.id;
  kind = r.kind;
  payload = r.payload;
  payload_hash = r.payload_hash;
  priority = r.priority;
  status = r.status;
  result = r.result;
  attempts = r.attempts;
  max_attempts = if r.max_attempts == 0 then 3 else r.max_attempts;
  created_at = r.created_at;
  updated_at = r.updated_at;
  started_at = r.started_at;
  finished_at = r.finished_at;
}
