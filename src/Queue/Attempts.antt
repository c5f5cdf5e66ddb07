-- ===== src/Queue/Attempts.antt =====
-- How often a job is claimed: over every history in which failures are reported with the attempts
-- that their job still has, a job's attempts stay within its limit.
use mathlib.Core.Option
use bifrost_platform_plugin.Prelude.{
  ℕ, ◌≤◌, ◌<◌, String, ◌≡◌, refl, ap, ◌∙◌, List, [], ◌∷◌, Bool, true, false, if◌then◌else◌,
  Bool-cases, inl, inr, map, Option, none, some, In, max, keep, not, str_eq,
}
use bifrost_platform_plugin.Prelude.Text.{strip, is_blank}
use bifrost_platform_plugin.Json.{Json, Fields}
use bifrost_platform_plugin.Db.{Conn, next_fault, executed, and_then, commit, pure, ◌>>◌}
use bifrost_platform_plugin.Db.Ensures.{Ensures}
use bifrost_platform_plugin.Db.Holds.{
  HoldsBoth, undo-HoldsBoth, committing-HoldsBoth, committing-pure-HoldsBoth, executed-HoldsBoth,
  tried-HoldsBoth,
}
use bifrost_platform_plugin.Queue.{Row, Table, Status, JobRow, job_row_from_record}
use bifrost_platform_plugin.Queue.Claim.{
  start, select_job, update_returning, claim_found, claim_kinds, claim_job, named_kinds,
}
use bifrost_platform_plugin.Queue.Settle.{
  Reclaimed, update_checked, new_status, fail_row, finish_row, mark_done, mark_failed, reclaim_row,
  reclaim_rows, reclaim_stale_running, is_stale, tally, body_of,
}
use bifrost_platform_plugin.Queue.Enqueue.{Spec, insert_job, insert_row, new_row, id_of}
use bifrost_platform_plugin.Queue.Bulk.{row_of, draft_of}
use bifrost_platform_plugin.Queue.BulkKeeps.{insert_jobs_bulk-Holds}
use bifrost_platform_plugin.Queue.Ids.{DistinctIds, DistinctIds-eq}
use bifrost_platform_plugin.Queue.Best.{select_job_sound}
use bifrost_platform_plugin.Queue.Invariant.{IsWell}
use bifrost_platform_plugin.Queue.Runs.{
  Call, insert, claim, finish, fail, reclaim, insert_bulk, trim, Event, after_call, run_event,
  run_events, run_event-IsWell,
}
use bifrost_platform_plugin.Trim.Retention.{trim_old_jobs-Trimmed}
use bifrost_platform_plugin.Queue.Limits.{
  smallint_max, AllWithin, update-AllWithin, update_checked-AllWithin, start-within, finish-within,
  fail-within, reclaim-within, map-AllWithin, insert-AllWithin,
}

-- A job that may be started, and whose limit fits its column.
abbrev pub IsStartable : ℕ → Type 0
IsStartable max_attempts = (0 < max_attempts) × (max_attempts ≤ smallint_max)

-- What a call of the inserts or of `mark_failed` must keep to: an inserted job may be started, and a
-- failure is reported with the attempts and the limit that the job's row has then, as the latest
-- claim of it returned them.
abbrev pub IsCurrent : Table → Call → Type 0
IsCurrent t (insert s) = IsStartable s.max_attempts
IsCurrent t (claim fan locked pool_kinds) = Unit
IsCurrent t (finish id result) = Unit
IsCurrent t (fail id msg attempts max_attempts) =
    (r : Row) → In r t.rows → r.id ≡ id → (attempts ≡ r.attempts) × (max_attempts ≡ r.max_attempts)
IsCurrent t (reclaim stale_after_sec kinds) = Unit
IsCurrent t (insert_bulk specs) = (s : Spec) → In s specs → IsStartable s.max_attempts
IsCurrent t (trim keep_secs keep_max batch_size budget readings) = Unit

Limited : Table → Type 0
Limited t = AllWithin t.rows

module _ (now : ℕ) (c : Conn Table) (w : AllWithin c.working.rows)
    (v : AllWithin c.committed.rows) where
  mark_done-AllWithin :
      (id : ℕ) (result : Option Fields) → HoldsBoth Limited (mark_done now id result c)
  unfolding mark_done Limited
  mark_done-AllWithin id result = undo-HoldsBoth Limited {A = Unit {0}} _ (
      tried-HoldsBoth Limited (λ _. commit)
        (λ u d p q. committing-HoldsBoth Limited d (next_fault d.faults) p q)
        (update_checked id (finish_row now result)) c (next_fault c.faults) w v
        (λ u t e.
          update_checked-AllWithin id (finish_row now result) c.working w
            (λ r m _. finish-within now result r (w r m)) e))

  mark_failed-AllWithin :
      (id attempts max_attempts : ℕ) (msg : String)
      → IsCurrent c.working (fail id msg attempts max_attempts)
      → HoldsBoth Limited (mark_failed now id msg attempts max_attempts c)
  unfolding mark_failed Limited
  mark_failed-AllWithin id attempts max_attempts msg current =
      let st = new_status attempts max_attempts in
      undo-HoldsBoth Limited {A = Status} _ (
        tried-HoldsBoth Limited (λ _. commit >> pure st)
          (λ u d p q. committing-pure-HoldsBoth Limited st d (next_fault d.faults) p q)
          (update_checked id (fail_row now msg attempts max_attempts)) c (next_fault c.faults) w v
          (λ u t e.
            update_checked-AllWithin id (fail_row now msg attempts max_attempts) c.working w
              (λ r m k.
                fail-within now msg attempts max_attempts r (w r m) (current r m k).0
                  (current r m k).1)
              e))

  reclaim-AllWithin :
      (stale_after_sec : ℕ) (kinds : List String)
      → HoldsBoth Limited (reclaim_stale_running now stale_after_sec kinds c)
  unfolding reclaim_stale_running Limited reclaim_rows
  reclaim-AllWithin stale_after_sec kinds =
      let after = max 30 stale_after_sec in
      let ks = keep (λ k. not (is_blank k)) kinds in
      undo-HoldsBoth Limited {A = Reclaimed} _ (
        executed-HoldsBoth Limited (λ back. commit >> pure (tally back))
          (λ u d p q. committing-pure-HoldsBoth Limited (tally u) d (next_fault d.faults) p q)
          (λ t. (
            map (reclaim_row now) (keep (is_stale now after ks) t.rows),
            record t { rows = reclaim_rows now after ks t.rows },
          ))
          c (next_fault c.faults) w v
          (map-AllWithin (λ r. if is_stale now after ks r then reclaim_row now r else r)
            c.working.rows (reclaim-within now after ks) w))

  insert_job-AllWithin :
      (digest : Json → String) (s : Spec)
      → IsStartable s.max_attempts
      → HoldsBoth Limited (insert_job digest now s c)
  unfolding insert_job Limited
  insert_job-AllWithin digest s startable =
      let kind = strip s.kind in
      let body = body_of s.payload in
      let make = λ (i : ℕ). new_row now i kind body (digest body) s.priority s.max_attempts in
      elim (Bool-cases (str_eq kind "")) [
        | inl t ↦ rw t (w, v)
        | inr f ↦ rw f (
            undo-HoldsBoth Limited {A = Option ℕ} _ (
              executed-HoldsBoth Limited (λ row. commit >> pure (id_of row))
                (λ u d p q. committing-pure-HoldsBoth Limited (id_of u) d (next_fault d.faults) p q)
                (insert_row make) c (next_fault c.faults) w v
                (insert-AllWithin make c.working (unfold new_row in refl)
                  (unfold new_row in startable.0) (unfold new_row in startable.1) w)))
      ]

module _ (now fan : ℕ) (locked : List ℕ) where
  claim_found-AllWithin :
      (ks : List String) (o : Option Row) (c : Conn Table)
      → DistinctIds c.working.rows
      → AllWithin c.working.rows
      → AllWithin c.committed.rows
      → select_job fan locked ks c.working.rows ≡ o
      → HoldsBoth Limited (claim_found now o c)
  unfolding claim_found update_returning Limited
  claim_found-AllWithin ks none c ids w v e =
      committing-pure-HoldsBoth Limited none c (next_fault c.faults) w v
  claim_found-AllWithin ks (some r) c ids w v e =
      let h = select_job_sound fan locked ks c.working.rows ids e in
      executed-HoldsBoth Limited _
        (λ o d p q.
          committing-pure-HoldsBoth Limited (Option.map job_row_from_record o) d
            (next_fault d.faults) p q)
        (update_returning r.id (start now)) c (next_fault c.faults) w v
        (update-AllWithin r.id (start now) c.working.rows w (λ u m k.
          let same = DistinctIds-eq c.working.rows ids m h.stored k in
          start-within now u (ap (λ x. x.status) same ∙ h.waits) (w u m)))

selected-AllWithin :
    (now fan : ℕ) (locked : List ℕ) (ks : List String) (c : Conn Table) (b : Bool)
    → DistinctIds c.working.rows
    → AllWithin c.working.rows
    → AllWithin c.committed.rows
    → HoldsBoth Limited
        (and_then (claim_found now) (executed (λ t. (select_job fan locked ks t.rows, t)) c b))
unfolding Limited
selected-AllWithin now fan locked ks c true ids w v = (w, v)
selected-AllWithin now fan locked ks c false ids w v =
    claim_found-AllWithin now fan locked ks (select_job fan locked ks c.working.rows) _ ids w v refl

claim_kinds-AllWithin :
    (now fan : ℕ) (locked : List ℕ) (ks : List String) (c : Conn Table)
    → DistinctIds c.working.rows
    → AllWithin c.working.rows
    → AllWithin c.committed.rows
    → HoldsBoth Limited (claim_kinds now fan locked ks c)
unfolding claim_kinds Limited
claim_kinds-AllWithin now fan locked [] c ids w v = (w, v)
claim_kinds-AllWithin now fan locked (k ∷ ks) c ids w v =
    undo-HoldsBoth Limited {A = Option JobRow} _
      (selected-AllWithin now (max 1 fan) locked (k ∷ ks) c (next_fault c.faults) ids w v)

module _ (digest : Json → String) where
  after_call-AllWithin :
      (now : ℕ) (k : Call) (c : Conn Table)
      → c.working ≡ c.committed
      → IsWell c.working
      → IsWell c.committed
      → AllWithin c.working.rows
      → AllWithin c.committed.rows
      → IsCurrent c.working k
      → AllWithin (after_call digest now k c).committed.rows
  unfolding after_call claim_job Limited Ensures
  after_call-AllWithin now (insert s) c closed ww wv w v ok =
      (insert_job-AllWithin now c w v digest s ok).1
  after_call-AllWithin now (claim fan locked pool_kinds) c closed ww wv w v ok =
      (claim_kinds-AllWithin now fan locked (named_kinds pool_kinds) c ww.ids w v).1
  after_call-AllWithin now (finish id result) c closed ww wv w v ok =
      (mark_done-AllWithin now c w v id result).1
  after_call-AllWithin now (fail id msg attempts max_attempts) c closed ww wv w v ok =
      (mark_failed-AllWithin now c w v id attempts max_attempts msg ok).1
  after_call-AllWithin now (reclaim stale_after_sec kinds) c closed ww wv w v ok =
      (reclaim-AllWithin now c w v stale_after_sec kinds).1
  after_call-AllWithin now (insert_bulk specs) c closed ww wv w v ok =
      (insert_jobs_bulk-Holds Limited (λ d. IsStartable d.max_attempts) now
        (λ d g t h.
          unfold row_of in
          insert-AllWithin (row_of now d) t (unfold new_row in refl) (unfold new_row in g.0)
            (unfold new_row in g.1) h)
        digest specs (unfold draft_of in ok) c (w, v)).0.1
  after_call-AllWithin now (trim keep_secs keep_max batch_size budget readings) c closed ww wv w v
        ok =
      let kept = trim_old_jobs-Trimmed keep_secs keep_max batch_size budget readings c closed wv in
      λ r m. v r (kept.1 r m)

  -- Each call of a history keeps to `IsCurrent` at the table that it finds.
  unfoldable pub AllCurrent : Table → List Event → Type 0
  AllCurrent t [] = Unit
  AllCurrent t (e ∷ es) = IsCurrent t e.call × AllCurrent (run_event digest t e) es

  -- From a well-formed table in which every job is within its limit (pending with an attempt left,
  -- otherwise with no more attempts than its limit, which is from 1 to 32767), any sequence of inserts, bulk
  -- inserts, claims, completions, failures, reclaims and trims, at any instants and with any of the
  -- driver's calls raising, leads to a table in which every job is within its limit, as long as
  -- every job is inserted with a limit from 1 to 32767, and every call of mark_failed reports the attempts
  -- and the limit that the row of its job has at that time.
  pub run_events-AllWithin :
      (t : Table) (es : List Event)
      → IsWell t
      → AllWithin t.rows
      → AllCurrent t es
      → AllWithin (run_events digest t es).rows
  unfolding run_events AllCurrent
  run_events-AllWithin t [] w h ok = h
  run_events-AllWithin t (e ∷ es) w h (ok, rest) =
      run_events-AllWithin (run_event digest t e) es (run_event-IsWell digest t e w)
        (unfold run_event in after_call-AllWithin e.now e.call _ refl w w h h ok) rest
