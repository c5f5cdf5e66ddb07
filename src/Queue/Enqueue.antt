-- ===== src/Queue/Enqueue.antt =====
-- `insert_job` and `insert_jobs_bulk` of scheduler/enqueue.py. `digest` is `payload_hash`: SHA-256
-- (hashlib) over the canonical JSON, of which the code uses only that it is a function.
use bifrost_platform_plugin.Prelude.{
  ℕ, ◌+◌, String, Option, none, some, [], ◌∷◌, ◌++◌, has, str_eq, if◌then◌else◌,
}
use bifrost_platform_plugin.Prelude.Int.{ℤ}
use bifrost_platform_plugin.Prelude.Text.{strip}
use bifrost_platform_plugin.Json.{Json, Fields}
use bifrost_platform_plugin.Db.{
  Db, pure, throw, value_error, execute, commit, or_rollback, ◌>>=◌, ◌>>◌,
}
use bifrost_platform_plugin.Queue.{Row, Table, pending, same_key}
use bifrost_platform_plugin.Queue.Settle.{body_of}

-- VALUES (kind, payload, payload_hash, priority, 'pending', max_attempts), defaults filled in.
unfoldable pub new_row : ℕ → ℕ → String → Json → String → ℤ → ℕ → Row
new_row now i kind body hash priority max_attempts = record {
  id = i;
  kind = kind;
  payload = body;
  payload_hash = some hash;
  priority = priority;
  status = pending;
  result = none;
  attempts = 0;
  max_attempts = max_attempts;
  created_at = now;
  updated_at = now;
  started_at = none;
  finished_at = none;
}

-- INSERT … ON CONFLICT … DO NOTHING RETURNING id. The sequence moves on a conflict too.
unfoldable pub insert_row : (ℕ → Row) → Table → Option Row × Table
unfolding same_key
insert_row make t =
    let r = make t.next_id in
    if has (same_key r) t.rows
    then (none, record t { next_id = t.next_id + 1 })
    else (some r, record { rows = t.rows ++ r ∷ []; next_id = t.next_id + 1 })

abbrev pub id_of : Option Row → Option ℕ
id_of none = none
id_of (some r) = some r.id

pub record Spec : Type 0 where
  pub kind : String
  pub payload : Option Fields
  pub priority : ℤ
  pub max_attempts : ℕ

module _ (digest : Json → String) (now : ℕ) where
  unfoldable pub insert_job : Spec → Db Table (Option ℕ)
  unfolding insert_row new_row strip
  insert_job s =
      let kind = strip s.kind in
      let body = body_of s.payload in
      if str_eq kind ""
      then throw value_error
      else or_rollback (do
        row ←
            execute
              (insert_row (λ i. new_row now i kind body (digest body) s.priority s.max_attempts))
        commit
        pure (id_of row))
