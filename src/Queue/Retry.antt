-- ===== src/Queue/Retry.antt =====
-- The retry rule of worker/claim.py: who goes back to pending, and how often a job is claimed.
use bifrost_platform_plugin.Prelude.{
  ℕ, String, ◌≡◌, refl, ◌∙◌, ap, List, [], ◌∷◌, true, false, first, ◌==◌, leb, if◌then◌else◌, arith,
  Bool-cases, inl, inr, some, In, here, there, first_cases, ==_iff,
}
use bifrost_platform_plugin.Db.{return, calm}
use bifrost_platform_plugin.Queue.{
  Row, Table, pending, running, failed, same_key, conflicts, update_id,
}
use bifrost_platform_plugin.Queue.Settle.{update_checked, fail_row, new_status, mark_failed}
use bifrost_platform_plugin.Queue.Ids.{DistinctIds, DistinctIds-eq}
use bifrost_platform_plugin.Queue.Invariant.{IsWell}
use bifrost_platform_plugin.Queue.Keeps.{same_key_back}

pub first-id :
    (rows : List Row) (r : Row)
    → DistinctIds rows
    → In r rows
    → first (λ v. v.id == r.id) rows ≡ some r
first-id rows r d m = elim (first_cases (λ (v : Row). v.id == r.id) rows) [
  | inl (v, e, n, q) ↦ e ∙ ap some (DistinctIds-eq rows d n m ((==_iff v.id r.id).0 q))
  | inr (e, all) ↦ cc (all r m, (==_iff r.id r.id).1 refl)
]

pub not_conflicts :
    (r : Row) (rows : List Row)
    → ((s : Row) → In s rows → same_key r s ≡ true → r.id ≡ s.id)
    → conflicts r rows ≡ false
unfolding conflicts
not_conflicts r [] h = refl
not_conflicts r (x ∷ rows) h =
    let ih = not_conflicts r rows (λ s m. h s (there m)) in
    elim (Bool-cases (same_key r x)) [
      | inl k ↦ rw (k, (==_iff r.id x.id).1 (h x (here refl) k)) ih
      | inr k ↦ rw k (ground (arith, ih))
    ]

module _ (now attempts max_attempts : ℕ) (msg : String) (t : Table) (r : Row) (w : IsWell t)
    (stored : In r t.rows) (runs : r.status ≡ running) where
  abbrev failed_row : Row
  failed_row = fail_row now msg attempts max_attempts r

  no_conflict : conflicts failed_row t.rows ≡ false
  unfolding fail_row
  no_conflict =
      not_conflicts failed_row t.rows
        (λ s m k. w.dedup r s stored m (same_key_back failed_row r s refl refl (rw runs refl) k))

  -- On a well-formed table and a connection where no call raises, `mark_failed` of a running job
  -- is never refused by the unique index, whatever attempts the worker reports: it returns
  -- `failed` exactly if the reported attempts have reached the reported limit and `pending`
  -- otherwise, and writes that status, and nothing to any other row.
  pub mark_failed_running : mark_failed now r.id msg attempts max_attempts (calm t) ≡ (
    return (if leb max_attempts attempts then failed else pending),
    calm (record t { rows = update_id r.id (fail_row now msg attempts max_attempts) t.rows }),
  )
  unfolding mark_failed update_checked new_status
  mark_failed_running = rw (first-id t.rows r w.ids stored, no_conflict) refl
