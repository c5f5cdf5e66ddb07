-- ===== src/Worker/Pass.antt =====
-- One pass of a worker: what `claim_and_run` comes to where there is something to claim.
use bifrost_platform_plugin.Prelude.{
  String, ℕ, ◌<◌, ◌≡◌, refl, sym, ap, ◌∙◌, Option, none, some, List, true, max, length, In,
  first_cases, inl, inr, ◌==◌,
}
use bifrost_platform_plugin.Prelude.Int.{ℤ}
use bifrost_platform_plugin.Db.{Conn, return, calm, pure, and_then}
use bifrost_platform_plugin.Queue.{Row, JobRow, running, job_row_from_record, update_id}
use bifrost_platform_plugin.Queue.Claim.{named_kinds, before, start}
use bifrost_platform_plugin.Queue.Ids.{DistinctIds}
use bifrost_platform_plugin.Queue.Ranking.{Distinct}
use bifrost_platform_plugin.Queue.Best.{IsClaimable}
use bifrost_platform_plugin.Queue.ClaimLaws.{claimed, claim_job_best, first-update_id}
use bifrost_platform_plugin.Queue.Invariant.{IsWell}
use bifrost_platform_plugin.Queue.Keeps.{claim-IsWell}
use bifrost_platform_plugin.Worker.{
  Store, HealthState, Handled, Texts, with_jobs, caught, record_claim, run_claimed, claim_and_run,
}
use bifrost_platform_plugin.Worker.Outcomes.{set_jobs}
use bifrost_platform_plugin.Worker.Calm.{reply, counted, ended_row, process_one_job_ended}

In-claimed :
    (now : ℕ) (rows : List Row) (r : Row)
    → DistinctIds rows
    → In r rows
    → In (start now r) (update_id r.id (start now) rows)
In-claimed now rows r d m =
    elim (first_cases (λ (v : Row). v.id == r.id) (update_id r.id (start now) rows)) [
      | inl (v, e, n, q) ↦ rw (some_eq (sym e ∙ first-update_id now rows r d m)) at n
      | inr (e, all) ↦ absurd (none_some (sym e ∙ first-update_id now rows r d m))
    ]
  where
    some_eq : {a b : Row} → some a ≡ some b → a ≡ b
    some_eq e = cc e

    none_some : {a : Row} → none ≡ some a → ⊥
    none_some e = cc e

-- What other connections commit while a handler runs leaves the table well formed and every running
-- job as it is.
unfoldable pub LeavesRunning : (Store → Store) → Type 0
LeavesRunning others =
    (u : Store)
    → IsWell u.jobs
    → IsWell (others u).jobs
      × ((r : Row) → In r u.jobs.rows → r.status ≡ running → In r (others u).jobs.rows)

module _ (int_of_text : String → Option ℤ) (now : ℕ) (texts : Texts) (started : ℕ)
    (others : Store → Store) (leaves : LeavesRunning others)
    (handlers : String → Option (JobRow → Handled)) (health : HealthState) (s : Store)
    (w : IsWell s.jobs) (fan : ℕ) (locked : List ℕ) (kinds : List String)
    (distinct : Distinct (named_kinds kinds)) (room : length locked < max 1 fan) where
  -- On a connection where no call raises, for a well-formed table, distinct kinds and fewer locked
  -- rows than the fan, and where what other connections commit while the handler runs leaves the
  -- table well formed and the running jobs as they are: if some row may be claimed, a pass of the
  -- worker claims one that stands before every claimable row, and it ends that job as its handler's
  -- answer says.
  pub claim_and_run_ends :
      (best : Row)
      → IsClaimable locked (named_kinds kinds) s.jobs.rows best
      → (r : Row) × IsClaimable locked (named_kinds kinds) s.jobs.rows r
        × (before r best ≡ true)
        × (h : Option HealthState) × (d : Conn Store) × (claim_and_run int_of_text now texts started
              others handlers health fan locked kinds
              (calm s)
            ≡ (return (true, h), d))
        × (let job = job_row_from_record (start started r) in
            let o = reply job (handlers r.kind) in
            let left = (others (set_jobs (claimed started r s.jobs) s)).jobs in
            (h ≡ some (counted o (record_claim started health)))
            × (d.committed.jobs
                ≡ record left { rows = update_id r.id (ended_row now texts job o) left.rows }))
  unfolding claim_and_run run_claimed start job_row_from_record LeavesRunning
  claim_and_run_ends best can =
      let (r, run, ok, first) =
        claim_job_best started fan locked kinds s.jobs w.ids distinct room best can in
      let taken = set_jobs (claimed started r s.jobs) s in
      let (well, kept) = leaves taken (claim-IsWell started r w ok.stored ok.waits) in
      let (h, d, e, count, is) =
        process_one_job_ended int_of_text now texts (others taken) (start started r) well
          (kept (start started r) (In-claimed started s.jobs.rows r w.ids ok.stored) refl) refl
          (job_row_from_record (start started r)) refl (some (record_claim started health))
          handlers in
      (
        r,
        ok,
        first,
        h,
        d,
        ap
              (λ q.
                and_then (run_claimed int_of_text now texts started others handlers health)
                  (q.0, with_jobs (calm s) q.1))
              run
            ∙ ap
                (λ p.
                  and_then (λ h. pure (true, h))
                    (caught (λ e. pure (some (record_claim started health))) p))
                e,
        (count, is),
      )
