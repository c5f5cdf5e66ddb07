-- ===== src/Worker/Outcomes.antt =====
-- What `process_one_job` leaves behind, whatever the handler does and whichever calls raise.
use bifrost_platform_plugin.Prelude.{
  ℕ, String, ◌≡◌, refl, ap, Option, none, some, List, [], ◌∷◌, In, ◌⊎◌, inl, inr, Bool-cases,
  str_eq, ltb,
}
use bifrost_platform_plugin.Prelude.Int.{ℤ}
use bifrost_platform_plugin.Prelude.Text.{strip}
use bifrost_platform_plugin.Json.{Fields}
use bifrost_platform_plugin.Db.{
  Db, Conn, Outcome, Fault, return, raise, value_error, pure, and_then, execute, commit, ◌>>◌,
}
use bifrost_platform_plugin.Db.Ensures.{
  Ensures, Both, pure-Ensures, throw-Ensures, execute-Ensures, commit-Ensures, bind-Ensures,
}
use bifrost_platform_plugin.Queue.{Row, Table, JobRow, Status, running, update_id}
use bifrost_platform_plugin.Queue.Settle.{finish_row, fail_row, mark_done, mark_failed}
use bifrost_platform_plugin.Queue.Invariant.{IsWell}
use bifrost_platform_plugin.Freshness.{
  dimension_for_kind, policed_slot_for_job, rows_written_from_result, extra_freshness_from_result,
}
use bifrost_platform_plugin.Worker.{
  Store, HealthState, Handled, completed, timed_out, raised, Texts, jobs_of, with_jobs, upsert_mark,
  update_freshness, update_slot, update_extra, record_freshness, slot_freshness_key, fields_of,
  caught, or_else, if_given, record_done, record_failed, fail_job, finish_job, after_handler,
  dispatch, process_one_job,
}
use bifrost_platform_plugin.Worker.Ends.{EndsOr, mark_done-EndsOr, mark_failed-EndsOr}

abbrev Any : {A : Type 0} → A → Type 0
Any a = Unit

module _ (int_of_text : String → Option ℤ) (now : ℕ) (j : Table) where
  abbrev SameJobs : Store → Type 0
  SameJobs s = s.jobs ≡ j

  update_freshness-SameJobs :
      (dimension : String) (rows : ℕ) (status : String)
      → Ensures SameJobs Any (update_freshness now dimension rows status)
  unfolding update_freshness
  update_freshness-SameJobs dimension rows status =
      elim (Bool-cases (str_eq (strip dimension) "")) [
        | inl t ↦ rw t (throw-Ensures SameJobs Any value_error)
        | inr f ↦ rw f (
            bind-Ensures SameJobs Any Any
              (execute (λ s. (tt, record s { freshness = upsert_mark _ s.freshness })))
              (λ _. commit) (execute-Ensures SameJobs Any _ (λ s e. (e, tt)))
              (λ _ _. commit-Ensures SameJobs))
      ]

  update_slot-SameJobs :
      (slot : Option String) (rows : ℕ)
      → Ensures SameJobs Any (update_slot int_of_text now slot rows)
  unfolding update_slot
  update_slot-SameJobs none rows = pure-Ensures SameJobs Any tt tt
  update_slot-SameJobs (some slot) rows = elim (Bool-cases (ltb 0 rows)) [
    | inl t ↦ rw t (update_freshness-SameJobs (slot_freshness_key slot) rows "ok")
    | inr f ↦ rw f (pure-Ensures SameJobs Any tt tt)
  ]

  update_extra-SameJobs :
      (es : List (String × ℕ)) → Ensures SameJobs Any (update_extra int_of_text now es)
  unfolding update_extra
  update_extra-SameJobs [] = pure-Ensures SameJobs Any tt tt
  update_extra-SameJobs (e ∷ es) =
      bind-Ensures SameJobs Any Any (update_freshness now e.0 e.1 "ok")
        (λ _. update_extra int_of_text now es) (update_freshness-SameJobs e.0 e.1 "ok")
        (λ _ _. update_extra-SameJobs es)

  pub record_freshness-SameJobs :
      (job : JobRow) (result : Option Fields)
      → Ensures SameJobs Any (record_freshness int_of_text now job result)
  unfolding record_freshness
  record_freshness-SameJobs job result =
      let rows = rows_written_from_result int_of_text result in
      let slot = policed_slot_for_job job.kind (fields_of job.payload) in
      bind-Ensures SameJobs Any Any
        (update_freshness now (dimension_for_kind job.kind) rows "ok"
          >> update_slot int_of_text now slot rows)
        (λ _. update_extra int_of_text now (extra_freshness_from_result int_of_text result))
        (bind-Ensures SameJobs Any Any
          (update_freshness now (dimension_for_kind job.kind) rows "ok")
          (λ _. update_slot int_of_text now slot rows)
          (update_freshness-SameJobs (dimension_for_kind job.kind) rows "ok")
          (λ _ _. update_slot-SameJobs slot rows))
        (λ _ _. update_extra-SameJobs (extra_freshness_from_result int_of_text result))

abbrev pub set_jobs : Table → Store → Store
set_jobs x a = record a { jobs = x }

module _ (int_of_text : String → Option ℤ) (now : ℕ) (texts : Texts) (s : Store) (r : Row)
    (w : IsWell s.jobs) (stored : In r s.jobs.rows) (runs : r.status ≡ running) (job : JobRow)
    (same : job.id ≡ r.id) (health : Option HealthState) where
  abbrev pub with_row : (Row → Row) → Table
  with_row f = record s.jobs { rows = update_id r.id f s.jobs.rows }

  abbrev pub Done : Option Fields → Option HealthState → Conn Store → Type 0
  Done result h d =
      (d.committed.jobs ≡ with_row (finish_row now result)) × (h ≡ if_given record_done health)

  abbrev pub Failed : String → Option HealthState → Conn Store → Type 0
  Failed err h d =
      (d.committed ≡ record s { jobs = with_row (fail_row now err job.attempts job.max_attempts) })
      × (h ≡ if_given record_failed health)

  abbrev FailsWith : String → Outcome (Option HealthState) × Conn Store → Type 0
  FailsWith err (return h, d) = Failed err h d
  FailsWith err (raise e, d) = d.committed ≡ s

  -- How an attempt to finish the job ends: done, failed, or raised with nothing changed.
  abbrev Outcomes : Option Fields → Outcome (Option HealthState) × Conn Store → Type 0
  Outcomes result (return h, d) = Done result h d ⊎ ((err : String) × Failed err h d)
  Outcomes result (raise e, d) = d.committed ≡ s

  failing :
      (result : Option Fields) (err : String) (p : Outcome (Option HealthState) × Conn Store)
      → FailsWith err p
      → Outcomes result p
  failing result err (return h, d) k = inr (err, k)
  failing result err (raise e, d) k = k

  placed : (a : Store) {x y : Table} → a ≡ s → x ≡ y → set_jobs x a ≡ set_jobs y s
  placed a e f = rw (e, f) refl

  fail_job-FailsWith :
      (err : String) (c : Conn Store)
      → c.working.jobs ≡ s.jobs
      → c.committed ≡ s
      → c.late ≡ []
      → FailsWith err (fail_job int_of_text now job err health c)
  unfolding fail_job
  fail_job-FailsWith err c u v sure =
      of (mark_failed now job.id err job.attempts job.max_attempts (jobs_of c)) (
        rw same (
          mark_failed-EndsOr now s.jobs r w stored runs (jobs_of c) u (ap (λ x. x.jobs) v) sure err
            job.attempts job.max_attempts))
    where
      of :
          (q : Outcome Status × Conn Table)
          → EndsOr s.jobs (with_row (fail_row now err job.attempts job.max_attempts)) q
          → FailsWith err
              (and_then (λ _. pure (if_given record_failed health)) (q.0, with_jobs c q.1))
      of (return st, d) h = (placed c.committed v h.1, refl)
      of (raise e, d) h = placed c.committed v h.1

  finish_job-caught :
      (result : Option Fields) (c : Conn Store)
      → c.working ≡ s
      → c.committed ≡ s
      → c.late ≡ []
      → Outcomes result (
          or_else
            (finish_job int_of_text now job result health)
            (λ e. fail_job int_of_text now job (texts.of_fault e) health)
            c)
  unfolding finish_job Ensures
  finish_job-caught result c u v sure = of (mark_done now job.id result (jobs_of c)) (
      rw same (
        mark_done-EndsOr now s.jobs r w stored runs (jobs_of c) (ap (λ x. x.jobs) u)
          (ap (λ x. x.jobs) v) sure result))
    where
      again : Fault → Db Store (Option HealthState)
      again e = fail_job int_of_text now job (texts.of_fault e) health

      recorded :
          (d : Conn Store)
          → d.working.jobs ≡ with_row (finish_row now result)
          → d.committed.jobs ≡ with_row (finish_row now result)
          → (p : Outcome (Unit {0}) × Conn Store)
          → Both (λ x. x.jobs ≡ with_row (finish_row now result)) p.1
          → Outcomes result (
              caught again
                (and_then (λ _. pure (if_given record_done health)) (caught (λ e. pure tt) p)))
      recorded d a b (return x, d') both = inl (both.1, refl)
      recorded d a b (raise e, d') both = inl (both.1, refl)

      of :
          (q : Outcome (Unit {0}) × Conn Table)
          → EndsOr s.jobs (with_row (finish_row now result)) q
          → Outcomes result (
              caught again (
                and_then
                  (λ _. pure (if_given record_done health))
                  (and_then
                    (λ _. or_else (record_freshness int_of_text now job result) (λ e. pure tt))
                    (q.0, with_jobs c q.1))))
      of (return x, d) h =
          recorded (with_jobs c d) h.0 h.1
            (record_freshness int_of_text now job result (with_jobs c d))
            (record_freshness-SameJobs int_of_text now (with_row (finish_row now result)) job result
              (with_jobs c d) h).0
      of (raise e, d) h =
          failing result (texts.of_fault e) _ (
            fail_job-FailsWith (texts.of_fault e) (with_jobs c d) h.0 (placed c.committed v h.1)
              h.2)

  -- How the job was left: done with a result that its handler gave, sent back or failed, or, where
  -- the call raised, as it was.
  abbrev pub IsLeft : Option Handled → Outcome (Option HealthState) × Conn Store → Type 0
  IsLeft answer (return h, d) =
      ((result : Option Fields) × (answer ≡ some (completed result)) × Done result h d)
      ⊎ ((err : String) × Failed err h d)
  IsLeft answer (raise e, d) = d.committed ≡ s

  failed-IsLeft :
      (answer : Option Handled) (err : String) (p : Outcome (Option HealthState) × Conn Store)
      → FailsWith err p
      → IsLeft answer p
  failed-IsLeft answer err (return h, d) k = inr (err, k)
  failed-IsLeft answer err (raise e, d) k = k

  finished-IsLeft :
      (result : Option Fields) (p : Outcome (Option HealthState) × Conn Store)
      → Outcomes result p
      → IsLeft (some (completed result)) p
  finished-IsLeft result (return h, d) (inl k) = inl (result, refl, k)
  finished-IsLeft result (return h, d) (inr k) = inr k
  finished-IsLeft result (raise e, d) k = k

  abbrev pub answer : Option (JobRow → Handled) → Option Handled
  answer none = none
  answer (some handler) = some (handler job)

  -- For a running job of a well-formed table, whichever calls of the driver raise, as long as no
  -- commit takes effect and then raises: if
  -- `process_one_job` returns, either its handler gave a result, the job is done with it and one
  -- more is counted as done, or `mark_failed` has taken the job, nothing else has changed, the
  -- freshness included, and one more is counted as failed. If it raises, nothing has changed, so
  -- that the job is still running.
  pub process_one_job-IsLeft :
      (handlers : String → Option (JobRow → Handled)) (c : Conn Store)
      → c.working ≡ s
      → c.committed ≡ s
      → c.late ≡ []
      → IsLeft
          (answer (handlers job.kind))
          (process_one_job int_of_text now texts handlers job health c)
  unfolding process_one_job after_handler
  process_one_job-IsLeft handlers c u v sure = of (handlers job.kind)
    where
      jobs_same : c.working.jobs ≡ s.jobs
      jobs_same = ap (λ x. x.jobs) u

      handled : (a : Handled) → IsLeft (some a) (after_handler int_of_text now texts job health a c)
      handled (completed result) = finished-IsLeft result _ (finish_job-caught result c u v sure)
      handled timed_out =
          failed-IsLeft (some timed_out) texts.job_timeout _
            (fail_job-FailsWith texts.job_timeout c jobs_same v sure)
      handled (raised msg) =
          failed-IsLeft (some (raised msg)) msg _ (fail_job-FailsWith msg c jobs_same v sure)

      of :
          (o : Option (JobRow → Handled))
          → IsLeft (answer o) (dispatch int_of_text now texts job health o c)
      of none =
          failed-IsLeft none (texts.no_handler job.kind) _
            (fail_job-FailsWith (texts.no_handler job.kind) c jobs_same v sure)
      of (some handler) = handled (handler job)
