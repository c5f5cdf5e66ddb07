-- ===== src/Worker/Calm.antt =====
-- `process_one_job` where no call of the driver raises.
use bifrost_platform_plugin.Prelude.{
  String, ℕ, leb, if◌then◌else◌, ◌≡◌, refl, ap, ◌∙◌, Option, none, some, In,
}
use bifrost_platform_plugin.Prelude.Int.{ℤ}
use bifrost_platform_plugin.Json.{Fields}
use bifrost_platform_plugin.Db.{Conn, Outcome, return, raise, calm, pure, and_then}
use bifrost_platform_plugin.Db.Ensures.{Ensures, Both}
use bifrost_platform_plugin.Queue.{Row, Table, JobRow, pending, running, failed, update_id}
use bifrost_platform_plugin.Queue.Settle.{finish_row, fail_row, mark_done, mark_failed}
use bifrost_platform_plugin.Queue.Invariant.{IsWell}
use bifrost_platform_plugin.Queue.Retry.{mark_failed_running}
use bifrost_platform_plugin.Worker.{
  Store, HealthState, Handled, completed, timed_out, raised, Texts, with_jobs, record_freshness,
  caught, or_else, if_given, record_done, record_failed, fail_job, finish_job, after_handler,
  dispatch, process_one_job,
}
use bifrost_platform_plugin.Worker.Ends.{mark_done_running}
use bifrost_platform_plugin.Worker.Outcomes.{Done, Failed, answer, record_freshness-SameJobs}

-- The row and the counters of a job that its handler's answer ends.
abbrev pub ended_row : ℕ → Texts → JobRow → Option Handled → Row → Row
ended_row now texts job none r =
    fail_row now (texts.no_handler job.kind) job.attempts job.max_attempts r
ended_row now texts job (some (completed result)) r = finish_row now result r
ended_row now texts job (some timed_out) r =
    fail_row now texts.job_timeout job.attempts job.max_attempts r
ended_row now texts job (some (raised msg)) r = fail_row now msg job.attempts job.max_attempts r

abbrev pub counted : Option Handled → HealthState → HealthState
counted none h = record_failed h
counted (some (completed result)) h = record_done h
counted (some timed_out) h = record_failed h
counted (some (raised msg)) h = record_failed h

abbrev pub reply : JobRow → Option (JobRow → Handled) → Option Handled
reply job none = none
reply job (some handler) = some (handler job)

module _ (int_of_text : String → Option ℤ) (now : ℕ) (texts : Texts) (s : Store) (r : Row)
    (w : IsWell s.jobs) (stored : In r s.jobs.rows) (runs : r.status ≡ running) (job : JobRow)
    (same : job.id ≡ r.id) (health : Option HealthState) where
  abbrev IsDone : Option Fields → Option HealthState → Conn Store → Type 0
  IsDone result h d = Done int_of_text now texts s r w stored runs job same health result h d

  abbrev IsFailed : String → Option HealthState → Conn Store → Type 0
  IsFailed err h d = Failed int_of_text now texts s r w stored runs job same health err h d

  abbrev pub Expected : Option Handled → Option HealthState → Conn Store → Type 0
  Expected none h d = IsFailed (texts.no_handler job.kind) h d
  Expected (some (completed result)) h d = IsDone result h d
  Expected (some timed_out) h d = IsFailed texts.job_timeout h d
  Expected (some (raised msg)) h d = IsFailed msg h d

  abbrev pub Returns :
      (Option HealthState → Conn Store → Type 0)
      → Outcome (Option HealthState) × Conn Store
      → Type 0
  Returns P p = (h : Option HealthState) × (d : Conn Store) × (p ≡ (return h, d)) × P h d

  abbrev placed : Table → Conn Store
  placed t = with_jobs (calm s) (calm t)

  failed_table : String → Table
  failed_table err = record s.jobs {
    rows = update_id r.id (fail_row now err job.attempts job.max_attempts) s.jobs.rows;
  }

  fail_job-calm :
      (err : String) → Returns (IsFailed err) (fail_job int_of_text now job err health (calm s))
  unfolding fail_job failed_table
  fail_job-calm err =
      let run : mark_failed now job.id err job.attempts job.max_attempts (calm s.jobs) ≡ (
        return (if leb job.max_attempts job.attempts then failed else pending),
        calm (failed_table err),
      ) =
        rw same
          (mark_failed_running now job.attempts job.max_attempts err s.jobs r w stored runs) in
      (
        if_given record_failed health,
        placed (failed_table err),
        ap (λ q. and_then (λ _. pure (if_given record_failed health)) (q.0, with_jobs (calm s) q.1))
            run,
        (refl, refl),
      )

  done_table : Option Fields → Table
  done_table result = record s.jobs { rows = update_id r.id (finish_row now result) s.jobs.rows }

  finish_job-calm :
      (result : Option Fields)
      → Returns (IsDone result) (finish_job int_of_text now job result health (calm s))
  unfolding finish_job done_table Ensures
  finish_job-calm result =
      let run : mark_done now job.id result (calm s.jobs) ≡ (return tt, calm (done_table result)) =
        rw same (mark_done_running now s.jobs r w stored runs result) in
      let (h, d, e, is) =
        recorded (record_freshness int_of_text now job result (placed (done_table result)))
          (record_freshness-SameJobs int_of_text now (done_table result) job result
            (placed (done_table result)) (refl, refl)).0 in
      (
        h,
        d,
        ap
              (λ q.
                and_then (λ _. pure (if_given record_done health))
                  (and_then
                    (λ _. or_else (record_freshness int_of_text now job result) (λ e. pure tt))
                    (q.0, with_jobs (calm s) q.1)))
              run
            ∙ e,
        is,
      )
    where
      recorded :
          (p : Outcome (Unit {0}) × Conn Store)
          → Both (λ x. x.jobs ≡ done_table result) p.1
          → Returns
              (IsDone result)
              (and_then (λ _. pure (if_given record_done health)) (caught (λ e. pure tt) p))
      recorded (return x, d) both = (if_given record_done health, d, refl, (both.1, refl))
      recorded (raise e, d) both = (if_given record_done health, d, refl, (both.1, refl))

  -- For a running job of a well-formed table, on a connection where no call raises, whatever the
  -- handler does: `process_one_job` returns. A job whose handler gave a result is done with it and
  -- counted as done, also where its freshness cannot be recorded. A job with no handler, or whose
  -- handler raised or ran out of time, is ended by `mark_failed` with the text for that, and counted
  -- as failed, and nothing else is changed.
  pub process_one_job-Expected :
      (handlers : String → Option (JobRow → Handled))
      → Returns
          (Expected
            (answer int_of_text now texts s r w stored runs job same health (handlers job.kind)))
          (process_one_job int_of_text now texts handlers job health (calm s))
  unfolding process_one_job after_handler
  process_one_job-Expected handlers = of (handlers job.kind)
    where
      handled :
          (a : Handled)
          → Returns (Expected (some a)) (after_handler int_of_text now texts job health a (calm s))
      handled (completed result) =
          let (h, d, e, is) = finish_job-calm result in
          (h, d, ap (caught (λ e. fail_job int_of_text now job (texts.of_fault e) health)) e, is)
      handled timed_out = fail_job-calm texts.job_timeout
      handled (raised msg) = fail_job-calm msg

      of :
          (o : Option (JobRow → Handled))
          → Returns
              (Expected (answer int_of_text now texts s r w stored runs job same health o))
              (dispatch int_of_text now texts job health o (calm s))
      of none = fail_job-calm (texts.no_handler job.kind)
      of (some handler) = handled (handler job)

  -- The part of it that is about the jobs and the counters.
  pub process_one_job_ended :
      (handlers : String → Option (JobRow → Handled))
      → (h : Option HealthState) × (d : Conn Store) × (process_one_job int_of_text now texts
            handlers job health
            (calm s)
          ≡ (return h, d))
        × (h ≡ if_given (counted (reply job (handlers job.kind))) health)
        × (d.committed.jobs ≡ record s.jobs {
          rows =
              update_id r.id (ended_row now texts job (reply job (handlers job.kind))) s.jobs.rows;
        })
  process_one_job_ended handlers =
      let (h, d, e, is) = process_one_job-Expected handlers in
      let (count, rows) = of (handlers job.kind) h d is in (h, d, e, count, rows)
    where
      by_answer :
          (a : Handled) (h : Option HealthState) (d : Conn Store)
          → Expected (some a) h d
          → (h ≡ if_given (counted (some a)) health)
            × (d.committed.jobs ≡ record s.jobs {
              rows = update_id r.id (ended_row now texts job (some a)) s.jobs.rows;
            })
      by_answer (completed result) h d is = (is.1, is.0)
      by_answer timed_out h d is = (is.1, ap (λ x. x.jobs) is.0)
      by_answer (raised msg) h d is = (is.1, ap (λ x. x.jobs) is.0)

      of :
          (o : Option (JobRow → Handled)) (h : Option HealthState) (d : Conn Store)
          → Expected (answer int_of_text now texts s r w stored runs job same health o) h d
          → (h ≡ if_given (counted (reply job o)) health)
            × (d.committed.jobs ≡ record s.jobs {
              rows = update_id r.id (ended_row now texts job (reply job o)) s.jobs.rows;
            })
      of none h d is = (is.1, ap (λ x. x.jobs) is.0)
      of (some handler) h d is = by_answer (handler job) h d is
