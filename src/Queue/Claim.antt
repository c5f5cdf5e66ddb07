-- ===== src/Queue/Claim.antt =====
-- `claim_job` of worker/claim.py: one pending job, by SELECT … FOR UPDATE SKIP LOCKED.
-- `locked` holds the ids of the rows that other transactions have locked.
use bifrost_platform_plugin.Prelude.{
  ℕ, ◌+◌, String, Option, none, some, List, [], ◌∷◌, ◌++◌, Bool, true, ◌&&◌, not, has, keep, take,
  first, str_eq, leb, ◌==◌, if◌then◌else◌, max,
}
use bifrost_platform_plugin.Prelude.Int.{leb_ℤ, ltb_ℤ}
use bifrost_platform_plugin.Prelude.Sorting.{sort_by}
use bifrost_platform_plugin.Prelude.Text.{is_blank}
use bifrost_platform_plugin.Db.{Db, pure, execute, commit, or_rollback, ◌>>=◌, ◌>>◌}
use bifrost_platform_plugin.Queue.{
  Row, Table, running, is_pending, update_id, JobRow, job_row_from_record,
}

-- ORDER BY priority DESC, created_at ASC
unfoldable pub before : Row → Row → Bool
before r s =
    if ltb_ℤ s.priority r.priority
    then true
    else leb_ℤ s.priority r.priority && leb r.created_at s.created_at

-- WHERE status = 'pending' AND kind = k.kind
unfoldable pub waiting : String → Row → Bool
waiting k r = is_pending r.status && str_eq r.kind k

-- The lateral scan for one kind.
unfoldable pub lateral : ℕ → List Row → String → List Row
lateral fan rows k = take fan (sort_by before (keep (waiting k) rows))

-- CROSS JOIN LATERAL over the kinds.
unfoldable pub lateral_all : ℕ → List Row → List String → List Row
lateral_all fan rows [] = []
lateral_all fan rows (k ∷ ks) = lateral fan rows k ++ lateral_all fan rows ks

unfoldable pub candidate : ℕ → List Row → List String → List Row
candidate fan rows ks = take fan (sort_by before (lateral_all fan rows ks))

-- WHERE id IN (SELECT id FROM candidate) AND status = 'pending'
unfoldable pub is_candidate : List Row → Row → Bool
is_candidate cs r = has (λ c. c.id == r.id) cs && is_pending r.status

unfoldable pub is_locked : List ℕ → Row → Bool
is_locked locked r = has (λ i. i == r.id) locked

-- The whole SELECT: the first row in order that nobody else has locked.
unfoldable pub select_job : ℕ → List ℕ → List String → List Row → Option Row
select_job fan locked ks rows =
    first (λ r. not (is_locked locked r))
      (sort_by before (keep (is_candidate (candidate fan rows ks)) rows))

-- The SET list of the claim.
unfoldable pub start : ℕ → Row → Row
start now r = record r {
  status = running;
  attempts = r.attempts + 1;
  started_at = some now;
  updated_at = now;
  finished_at = none;
}

-- UPDATE … WHERE id = %s RETURNING …
unfoldable pub update_returning : ℕ → (Row → Row) → Table → Option Row × Table
update_returning i f t =
    let rows = update_id i f t.rows in (first (λ r. r.id == i) rows, record t { rows = rows })

unfoldable pub named_kinds : List String → List String
unfolding is_blank
named_kinds ks = keep (λ k. not (is_blank k)) ks

unfoldable pub claim_found : ℕ → Option Row → Db Table (Option JobRow)
claim_found now none = do commit; pure none
claim_found now (some r) = do
  updated ← execute (update_returning r.id (start now))
  commit
  pure (elim updated [ none ↦ none | some u ↦ some (job_row_from_record u) ])

unfoldable pub claim_kinds : ℕ → ℕ → List ℕ → List String → Db Table (Option JobRow)
claim_kinds now fan locked [] = pure none
claim_kinds now fan locked (k ∷ ks) = or_rollback (do
  row ← execute (λ t. (select_job (max 1 fan) locked (k ∷ ks) t.rows, t))
  claim_found now row)

unfoldable pub claim_job : ℕ → ℕ → List ℕ → List String → Db Table (Option JobRow)
claim_job now fan locked pool_kinds = claim_kinds now fan locked (named_kinds pool_kinds)
