-- ===== src/Queue/Runs.antt =====
-- Any sequence of operations on the queue, each with its own clock and its own faults, leaves a
-- table that is well formed.
use mathlib.Core.Option
use bifrost_platform_plugin.Prelude.{
  ℕ, String, ◌≡◌, refl, List, [], ◌∷◌, Bool, true, false, Option, none, some, max, str_eq,
  Bool-cases, inl, inr, keep, map, not,
}
use bifrost_platform_plugin.Prelude.Text.{strip, is_blank}
use bifrost_platform_plugin.Json.{Json, Fields}
use bifrost_platform_plugin.Db.{Conn, Outcome, next_fault, executed, and_then, pure, commit, ◌>>◌}
use bifrost_platform_plugin.Queue.{Table, Row, Status, JobRow, job_row_from_record}
use bifrost_platform_plugin.Queue.Claim.{
  select_job, start, update_returning, claim_found, claim_kinds, claim_job, named_kinds,
}
use bifrost_platform_plugin.Queue.Settle.{
  Reclaimed, mark_done, mark_failed, reclaim_stale_running, update_checked, finish_row, fail_row,
  new_status, is_stale, reclaim_row, reclaim_rows, tally, body_of,
}
use bifrost_platform_plugin.Queue.Enqueue.{Spec, insert_job, insert_row, new_row, id_of}
use bifrost_platform_plugin.Db.Ensures.{Ensures}
use bifrost_platform_plugin.Db.Holds.{
  HoldsBoth, undo-HoldsBoth, committing-HoldsBoth, committing-pure-HoldsBoth, executed-HoldsBoth,
  tried-HoldsBoth,
}
use bifrost_platform_plugin.Queue.Bulk.{insert_jobs_bulk}
use bifrost_platform_plugin.Queue.BulkKeeps.{insert_jobs_bulk-IsWell}
use bifrost_platform_plugin.Trim.{Reading, trim_old_jobs}
use bifrost_platform_plugin.Trim.Retention.{trim_old_jobs-Trimmed}
use bifrost_platform_plugin.Queue.Best.{select_job_sound}
use bifrost_platform_plugin.Queue.Invariant.{IsWell}
use bifrost_platform_plugin.Queue.Keeps.{
  claim-IsWell, finish-IsWell, fail-IsWell, reclaim-IsWell, new_row-IsRowWell,
}
use bifrost_platform_plugin.Queue.Grows.{insert_row-IsWell}

abbrev WellBoth : {A : Type 0} → Outcome A × Conn Table → Type 0
WellBoth p = HoldsBoth IsWell p

module _ (now : ℕ) (c : Conn Table) (w : IsWell c.working) (v : IsWell c.committed) where
  mark_done-WellBoth : (id : ℕ) (result : Option Fields) → WellBoth (mark_done now id result c)
  unfolding mark_done
  mark_done-WellBoth id result = undo-HoldsBoth IsWell {A = Unit {0}} _ (
      tried-HoldsBoth IsWell (λ _. commit)
        (λ u d p q. committing-HoldsBoth IsWell d (next_fault d.faults) p q)
        (update_checked id (finish_row now result)) c (next_fault c.faults) w v
        (λ u t e. finish-IsWell now id result w e))

  mark_failed-WellBoth :
      (id attempts max_attempts : ℕ) (msg : String)
      → WellBoth (mark_failed now id msg attempts max_attempts c)
  unfolding mark_failed
  mark_failed-WellBoth id attempts max_attempts msg =
      let st = new_status attempts max_attempts in
      undo-HoldsBoth IsWell {A = Status} _ (
        tried-HoldsBoth IsWell (λ _. commit >> pure st)
          (λ u d p q. committing-pure-HoldsBoth IsWell st d (next_fault d.faults) p q)
          (update_checked id (fail_row now msg attempts max_attempts)) c (next_fault c.faults) w v
          (λ u t e. fail-IsWell now id msg attempts max_attempts w e))

  reclaim-WellBoth :
      (stale_after_sec : ℕ) (kinds : List String)
      → WellBoth (reclaim_stale_running now stale_after_sec kinds c)
  unfolding reclaim_stale_running
  reclaim-WellBoth stale_after_sec kinds =
      let after = max 30 stale_after_sec in
      let ks = keep (λ k. not (is_blank k)) kinds in
      undo-HoldsBoth IsWell {A = Reclaimed} _ (
        executed-HoldsBoth IsWell (λ back. commit >> pure (tally back))
          (λ u d p q. committing-pure-HoldsBoth IsWell (tally u) d (next_fault d.faults) p q)
          (λ t. (
            map (reclaim_row now) (keep (is_stale now after ks) t.rows),
            record t { rows = reclaim_rows now after ks t.rows },
          ))
          c (next_fault c.faults) w v (reclaim-IsWell now after ks w))

  insert_job-WellBoth : (digest : Json → String) (s : Spec) → WellBoth (insert_job digest now s c)
  unfolding insert_job
  insert_job-WellBoth digest s =
      let kind = strip s.kind in
      let body = body_of s.payload in
      let make = λ (i : ℕ). new_row now i kind body (digest body) s.priority s.max_attempts in
      elim (Bool-cases (str_eq kind "")) [
        | inl t ↦ rw t (w, v)
        | inr f ↦ rw f (
            undo-HoldsBoth IsWell {A = Option ℕ} _ (
              executed-HoldsBoth IsWell (λ row. commit >> pure (id_of row))
                (λ u d p q. committing-pure-HoldsBoth IsWell (id_of u) d (next_fault d.faults) p q)
                (insert_row make) c (next_fault c.faults) w v
                (insert_row-IsWell make c.working (unfold new_row in λ i. refl)
                  (λ i. new_row-IsRowWell now i kind body (digest body) s.priority s.max_attempts)
                  w)))
      ]

module _ (now fan : ℕ) (locked : List ℕ) where
  claim_found-WellBoth :
      (ks : List String) (o : Option Row) (c : Conn Table)
      → IsWell c.working
      → IsWell c.committed
      → select_job fan locked ks c.working.rows ≡ o
      → WellBoth (claim_found now o c)
  unfolding claim_found update_returning
  claim_found-WellBoth ks none c w v e =
      committing-pure-HoldsBoth IsWell none c (next_fault c.faults) w v
  claim_found-WellBoth ks (some r) c w v e =
      let h = select_job_sound fan locked ks c.working.rows w.ids e in
      executed-HoldsBoth IsWell _
        (λ o d p q.
          committing-pure-HoldsBoth IsWell (Option.map job_row_from_record o) d
            (next_fault d.faults) p q)
        (update_returning r.id (start now)) c (next_fault c.faults) w v
        (claim-IsWell now r w h.stored h.waits)

selected-WellBoth :
    (now fan : ℕ) (locked : List ℕ) (ks : List String) (c : Conn Table) (b : Bool)
    → IsWell c.working
    → IsWell c.committed
    → WellBoth
        (and_then (claim_found now) (executed (λ t. (select_job fan locked ks t.rows, t)) c b))
selected-WellBoth now fan locked ks c true w v = (w, v)
selected-WellBoth now fan locked ks c false w v =
    claim_found-WellBoth now fan locked ks (select_job fan locked ks c.working.rows) _ w v refl

claim_kinds-WellBoth :
    (now fan : ℕ) (locked : List ℕ) (ks : List String) (c : Conn Table)
    → IsWell c.working
    → IsWell c.committed
    → WellBoth (claim_kinds now fan locked ks c)
unfolding claim_kinds
claim_kinds-WellBoth now fan locked [] c w v = (w, v)
claim_kinds-WellBoth now fan locked (k ∷ ks) c w v =
    undo-HoldsBoth IsWell {A = Option JobRow} _
      (selected-WellBoth now (max 1 fan) locked (k ∷ ks) c (next_fault c.faults) w v)

-- One call of the queue's interface.
pub data Call : Type 0 where
  insert : Spec → Call
  claim : (fan : ℕ) (locked : List ℕ) (pool_kinds : List String) → Call
  finish : (id : ℕ) (result : Option Fields) → Call
  fail : (id : ℕ) (msg : String) (attempts max_attempts : ℕ) → Call
  reclaim : (stale_after_sec : ℕ) (kinds : List String) → Call
  insert_bulk : (specs : List Spec) → Call
  trim : (keep_secs keep_max batch_size budget : ℕ) (readings : List Reading) → Call

-- A call at an instant, on a connection of its own, with the driver's faults.
pub record Event : Type 0 where
  pub now : ℕ
  pub faults : List Bool
  pub late : List Bool
  pub call : Call

module _ (digest : Json → String) where
  unfoldable pub after_call : ℕ → Call → Conn Table → Conn Table
  after_call now (insert s) c = (insert_job digest now s c).1
  after_call now (claim fan locked pool_kinds) c = (claim_job now fan locked pool_kinds c).1
  after_call now (finish id result) c = (mark_done now id result c).1
  after_call now (fail id msg attempts max_attempts) c =
      (mark_failed now id msg attempts max_attempts c).1
  after_call now (reclaim stale_after_sec kinds) c =
      (reclaim_stale_running now stale_after_sec kinds c).1
  after_call now (insert_bulk specs) c = (insert_jobs_bulk digest now specs c).1
  after_call now (trim keep_secs keep_max batch_size budget readings) c =
      (trim_old_jobs keep_secs keep_max batch_size budget readings c).1

  unfoldable pub run_event : Table → Event → Table
  unfolding after_call
  run_event t e =
      (after_call e.now e.call
        (record { committed = t; working = t; faults = e.faults; late = e.late })).committed

  unfoldable pub run_events : Table → List Event → Table
  unfolding run_event
  run_events t [] = t
  run_events t (e ∷ es) = run_events (run_event t e) es

  after_call-IsWell :
      (now : ℕ) (k : Call) (c : Conn Table)
      → c.working ≡ c.committed
      → IsWell c.working
      → IsWell c.committed
      → IsWell (after_call now k c).committed
  unfolding after_call claim_job Ensures
  after_call-IsWell now (insert s) c closed w v = (insert_job-WellBoth now c w v digest s).1
  after_call-IsWell now (claim fan locked pool_kinds) c closed w v =
      (claim_kinds-WellBoth now fan locked (named_kinds pool_kinds) c w v).1
  after_call-IsWell now (finish id result) c closed w v = (mark_done-WellBoth now c w v id result).1
  after_call-IsWell now (fail id msg attempts max_attempts) c closed w v =
      (mark_failed-WellBoth now c w v id attempts max_attempts msg).1
  after_call-IsWell now (reclaim stale_after_sec kinds) c closed w v =
      (reclaim-WellBoth now c w v stale_after_sec kinds).1
  after_call-IsWell now (insert_bulk specs) c closed w v =
      (insert_jobs_bulk-IsWell digest now specs c (w, v)).0.1
  after_call-IsWell now (trim keep_secs keep_max batch_size budget readings) c closed w v =
      (trim_old_jobs-Trimmed keep_secs keep_max batch_size budget readings c closed v).0

  pub run_event-IsWell : (t : Table) (e : Event) → IsWell t → IsWell (run_event t e)
  unfolding run_event
  run_event-IsWell t e w =
      after_call-IsWell e.now e.call
        (record { committed = t; working = t; faults = e.faults; late = e.late }) refl w w

  -- From a well-formed table, any sequence of inserts, bulk inserts, claims, completions, failures,
  -- reclaims and trims, at any instants, by workers that may hold outdated ids, and with any of the
  -- driver's calls raising, leads to a well-formed table: ids are unique and below the sequence, no
  -- two pending or running jobs share a kind and payload hash, exactly the done and failed jobs
  -- have a finished_at, and a running job has a started_at and at least one attempt.
  pub run_events-IsWell : (t : Table) (es : List Event) → IsWell t → IsWell (run_events t es)
  unfolding run_events
  run_events-IsWell t [] w = w
  run_events-IsWell t (e ∷ es) w = run_events-IsWell (run_event t e) es (run_event-IsWell t e w)
