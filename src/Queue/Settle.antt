-- ===== src/Queue/Settle.antt =====
-- The ends of a job in worker/claim.py: `mark_done`, `mark_failed` and `reclaim_stale_running`.
use bifrost_platform_plugin.Prelude.{
  ℕ, ◌+◌, String, Option, none, some, List, [], ◌∷◌, Bool, true, false, ◌&&◌, not, has, keep, first,
  str_eq, ltb, leb, ◌==◌, if◌then◌else◌, max, map, length,
}
use bifrost_platform_plugin.Prelude.Int.{pos}
use bifrost_platform_plugin.Prelude.Text.{is_blank}
use bifrost_platform_plugin.Json.{Json, Fields, bool, num, str, obj, end, field}
use bifrost_platform_plugin.Db.{
  Db, Outcome, return, raise, unique_violation, pure, execute, try_execute, commit, or_rollback,
  ◌>>=◌, ◌>>◌,
}
use bifrost_platform_plugin.Queue.{
  Row, Table, Status, pending, done, failed, is_running, conflicts, update_id,
}

-- An UPDATE of one row, checked against the unique index of active jobs.
unfoldable pub update_checked : ℕ → (Row → Row) → Table → Outcome (Unit {0} × Table)
unfolding conflicts update_id
update_checked i f t = elim (first (λ r. r.id == i) t.rows) [
  | none ↦ return (tt, t)
  | some r ↦
      if conflicts (f r) t.rows
      then raise unique_violation
      else return (tt, record t { rows = update_id i f t.rows })
]

-- `dict(result) if result is not None else {}`
abbrev pub body_of : Option Fields → Json
body_of none = obj end
body_of (some fs) = obj fs

unfoldable pub finish_row : ℕ → Option Fields → Row → Row
finish_row now result r = record r {
  status = done;
  result = some (body_of result);
  updated_at = now;
  finished_at = some now;
}

unfoldable pub mark_done : ℕ → ℕ → Option Fields → Db Table (Unit {0})
mark_done now job_id result =
    or_rollback (do try_execute (update_checked job_id (finish_row now result)); commit)

abbrev pub error_body : String → ℕ → Json
error_body msg attempts = obj (field "error" (str msg) (field "attempts" (num (pos attempts)) end))

unfoldable pub new_status : ℕ → ℕ → Status
new_status attempts max_attempts = if leb max_attempts attempts then failed else pending

unfoldable pub fail_row : ℕ → String → ℕ → ℕ → Row → Row
unfolding new_status
fail_row now msg attempts max_attempts r = record r {
  status = new_status attempts max_attempts;
  result = some (error_body msg attempts);
  updated_at = now;
  finished_at = if leb max_attempts attempts then some now else none;
}

unfoldable pub mark_failed : ℕ → ℕ → String → ℕ → ℕ → Db Table Status
mark_failed now job_id msg attempts max_attempts = or_rollback (do
  try_execute (update_checked job_id (fail_row now msg attempts max_attempts))
  commit
  pure (new_status attempts max_attempts))

-- WHERE status = 'running' AND started_at < now() - interval [AND kind = ANY(%s)]
unfoldable pub is_stale : ℕ → ℕ → List String → Row → Bool
is_stale now stale_after ks r =
    is_running r.status
    && elim r.started_at [ none ↦ false | some s ↦ ltb (s + stale_after) now ]
    && elim ks [ [] ↦ true | k ∷ rest ↦ has (λ j. str_eq j r.kind) (k ∷ rest) ]

abbrev pub reclaim_body : ℕ → Json
reclaim_body attempts = obj (
    field "error" (str "stale_running: abandoned after started_at")
      (field "attempts" (num (pos attempts)) (field "reclaimed" (bool true) end)))

-- The SET list with its three CASEs.
unfoldable pub reclaim_row : ℕ → Row → Row
reclaim_row now r =
    let spent = leb r.max_attempts r.attempts in
    record r {
      status = if spent then failed else pending;
      result = some (reclaim_body r.attempts);
      updated_at = now;
      started_at = if spent then r.started_at else none;
      finished_at = if spent then some now else none;
    }

unfoldable pub reclaim_rows : ℕ → ℕ → List String → List Row → List Row
unfolding is_stale reclaim_row
reclaim_rows now after ks rows =
    map (λ r. if is_stale now after ks r then reclaim_row now r else r) rows

pub record Reclaimed : Type 0 where
  pub reclaimed : ℕ
  pub pending : ℕ
  pub failed : ℕ

abbrev pub is_failed : Status → Bool
is_failed failed = true
is_failed _ = false

-- The counts that the loop over RETURNING id, status makes.
unfoldable pub tally : List Row → Reclaimed
tally rows =
    let f = length (keep (λ r. is_failed r.status) rows) in
    let p = length (keep (λ r. not (is_failed r.status)) rows) in
    record { reclaimed = p + f; pending = p; failed = f }

unfoldable pub reclaim_stale_running : ℕ → ℕ → List String → Db Table Reclaimed
reclaim_stale_running now stale_after_sec kinds =
    let after = max 30 stale_after_sec in
    let ks = keep (λ k. not (is_blank k)) kinds in
    or_rollback (do
      back ← execute (λ t. (
        map (reclaim_row now) (keep (is_stale now after ks) t.rows),
        record t { rows = reclaim_rows now after ks t.rows },
      ))
      commit
      pure (tally back))
