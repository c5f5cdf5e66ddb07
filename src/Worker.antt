-- ===== src/Worker.antt =====
-- `process_one_job` of worker/loop.py with `update_freshness` of freshness.py and the counters of
-- worker/health.py: a claimed job is dispatched to its handler, ended in the queue, and its
-- freshness is recorded.
pub mod Ends
pub mod Outcomes
pub mod Calm
pub mod Pass
mod Tests
use bifrost_platform_plugin.Prelude.{
  ℕ, ◌+◌, String, Option, none, some, List, [], ◌∷◌, ◌++◌, Bool, true, false, has, ltb, str_eq,
  if◌then◌else◌,
}
use bifrost_platform_plugin.Prelude.Int.{ℤ}
use bifrost_platform_plugin.Prelude.Text.{strip}
use bifrost_platform_plugin.Json.{Json, Fields, obj, end}
use bifrost_platform_plugin.Db.{
  Db, Conn, Outcome, Fault, return, raise, value_error, pure, throw, execute, commit, ◌>>=◌, ◌>>◌,
}
use bifrost_platform_plugin.Queue.{Table, JobRow}
use bifrost_platform_plugin.Queue.Claim.{claim_job}
use bifrost_platform_plugin.Queue.Settle.{mark_done, mark_failed}
use bifrost_platform_plugin.Freshness.{
  dimension_for_kind, policed_slot_for_job, rows_written_from_result, extra_freshness_from_result,
}

-- A row of ops_jobs.ingest_freshness, whose primary key is the dimension.
pub record Mark : Type 0 where
  pub dimension : String
  pub last_run_at : ℕ
  pub rows_written : ℕ
  pub status : String
  pub updated_at : ℕ

-- The two tables that the worker writes.
pub record Store : Type 0 where
  pub jobs : Table
  pub freshness : List Mark

-- A call of the queue's interface. Where the worker makes one, no change of the other table waits
-- for a commit.
abbrev pub with_jobs : Conn Store → Conn Table → Conn Store
with_jobs c d = record {
  committed = record c.committed { jobs = d.committed };
  working = record c.working { jobs = d.working };
  faults = d.faults;
  late = d.late;
}

abbrev pub jobs_of : Conn Store → Conn Table
jobs_of c = record {
  committed = c.committed.jobs;
  working = c.working.jobs;
  faults = c.faults;
  late = c.late;
}

abbrev pub on_jobs : {A : Type 0} → Db Table A → Db Store A
on_jobs m c = let r = m (jobs_of c) in (r.0, with_jobs c r.1)

-- Changes by other connections, where this one has no change that waits for a commit.
abbrev pub meanwhile : (Store → Store) → Db Store (Unit {0})
meanwhile others c =
    (return tt, record c { committed = others c.committed; working = others c.working })

abbrev pub text_or_ok : String → String
text_or_ok s = if str_eq s "" then "ok" else s

unfoldable pub upsert_mark : Mark → List Mark → List Mark
upsert_mark m [] = m ∷ []
upsert_mark m (n ∷ ns) =
    let rest = upsert_mark m ns in if str_eq n.dimension m.dimension then m ∷ ns else n ∷ rest

unfoldable pub update_freshness : ℕ → String → ℕ → String → Db Store (Unit {0})
unfolding upsert_mark
update_freshness now dimension rows_written status =
    let dim = strip dimension in
    let mark : Mark = record {
      dimension = dim;
      last_run_at = now;
      rows_written = rows_written;
      status = text_or_ok (strip (text_or_ok status));
      updated_at = now;
    } in
    if str_eq dim ""
    then throw value_error
    else execute (λ s. (tt, record s { freshness = upsert_mark mark s.freshness })) >> commit

abbrev pub slot_freshness_key : String → String
slot_freshness_key slot = join "slot:" slot
  where
    join : String → String → String
    join String.[] t = t
    join (String.◌∷◌ c s) t = String.◌∷◌ c (join s t)

pub record HealthState : Type 0 where
  pub pool : String
  pub started_at : ℕ
  pub last_claim_at : Option ℕ
  pub jobs_done : ℕ
  pub jobs_failed : ℕ
  pub status : String
  pub last_tick : ℕ

abbrev pub record_claim : ℕ → HealthState → HealthState
record_claim now h = record h { last_claim_at = some now }

abbrev pub record_done : HealthState → HealthState
record_done h = record h { jobs_done = h.jobs_done + 1 }

abbrev pub record_failed : HealthState → HealthState
record_failed h = record h { jobs_failed = h.jobs_failed + 1 }

-- `if health is not None`
abbrev pub if_given : (HealthState → HealthState) → Option HealthState → Option HealthState
if_given f none = none
if_given f (some h) = some (f h)

-- How a handler ends, within the time that `asyncio.wait_for` gives it.
pub data Handled : Type 0 where
  completed : Option Fields → Handled
  timed_out : Handled
  raised : String → Handled

-- `except Exception` around a call that changes the database.
abbrev pub caught :
    {A : Type 0} → (Fault → Db Store A) → Outcome A × Conn Store → Outcome A × Conn Store
caught k (return a, c) = (return a, c)
caught k (raise e, c) = k e c

abbrev pub or_else : {A : Type 0} → Db Store A → (Fault → Db Store A) → Db Store A
or_else m k c = caught k (m c)

abbrev pub fields_of : Json → Fields
fields_of (obj fs) = fs
fields_of _ = end

-- The texts that the worker writes: of an exception, of a missing handler and of a timeout.
pub record Texts : Type 0 where
  pub of_fault : Fault → String
  pub no_handler : String → String
  pub job_timeout : String

module _ (int_of_text : String → Option ℤ) (now : ℕ) where
  unfoldable pub update_slot : Option String → ℕ → Db Store (Unit {0})
  unfolding update_freshness
  update_slot none rows = pure tt
  update_slot (some slot) rows =
      if ltb 0 rows then update_freshness now (slot_freshness_key slot) rows "ok" else pure tt

  unfoldable pub update_extra : List (String × ℕ) → Db Store (Unit {0})
  unfolding update_freshness
  update_extra [] = pure tt
  update_extra (e ∷ es) = update_freshness now e.0 e.1 "ok" >> update_extra es

  unfoldable pub record_freshness : JobRow → Option Fields → Db Store (Unit {0})
  unfolding update_slot update_extra update_freshness
  record_freshness job result =
      let rows = rows_written_from_result int_of_text result in
      update_freshness now (dimension_for_kind job.kind) rows "ok"
      >> update_slot (policed_slot_for_job job.kind (fields_of job.payload)) rows
      >> update_extra (extra_freshness_from_result int_of_text result)

  -- `mark_failed` and the counter.
  unfoldable pub fail_job : JobRow → String → Option HealthState → Db Store (Option HealthState)
  unfolding mark_failed
  fail_job job err health =
      on_jobs (mark_failed now job.id err job.attempts job.max_attempts)
      >> pure (if_given record_failed health)

  unfoldable pub finish_job :
      JobRow → Option Fields → Option HealthState → Db Store (Option HealthState)
  unfolding record_freshness mark_done
  finish_job job result health =
      on_jobs (mark_done now job.id result)
      >> or_else (record_freshness job result) (λ e. pure tt)
      >> pure (if_given record_done health)

  module _ (texts : Texts) where
    unfoldable pub after_handler :
        JobRow → Option HealthState → Handled → Db Store (Option HealthState)
    unfolding finish_job fail_job
    after_handler job health (completed result) =
        or_else (finish_job job result health) (λ e. fail_job job (texts.of_fault e) health)
    after_handler job health timed_out = fail_job job texts.job_timeout health
    after_handler job health (raised msg) = fail_job job msg health

    abbrev pub dispatch :
        JobRow → Option HealthState → Option (JobRow → Handled) → Db Store (Option HealthState)
    dispatch job health none = fail_job job (texts.no_handler job.kind) health
    dispatch job health (some handler) = after_handler job health (handler job)

    unfoldable pub process_one_job :
        (String → Option (JobRow → Handled))
        → JobRow
        → Option HealthState
        → Db Store (Option HealthState)
    unfolding after_handler
    process_one_job handlers job health = dispatch job health (handlers job.kind)

    -- The claim of `claim_and_run` at the instant `started` and the task that it starts, run to its
    -- end at `now` on its connection. `others` is what other connections commit while the handler
    -- runs. An exception of the task stays in the task.
    module _ (started : ℕ) (others : Store → Store) (handlers : String → Option (JobRow → Handled))
        (health : HealthState) where
      unfoldable pub run_claimed : Option JobRow → Db Store (Bool × Option HealthState)
      unfolding process_one_job
      run_claimed none = pure (false, some health)
      run_claimed (some job) =
          meanwhile others
          >> or_else (process_one_job handlers job (some (record_claim started health)))
              (λ e. pure (some (record_claim started health)))
          >>= λ h. pure (true, h)

      unfoldable pub claim_and_run : ℕ → List ℕ → List String → Db Store (Bool × Option HealthState)
      unfolding run_claimed
      claim_and_run fan locked kinds = on_jobs (claim_job started fan locked kinds) >>= run_claimed
