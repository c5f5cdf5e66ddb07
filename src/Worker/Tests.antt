-- ===== src/Worker/Tests.antt =====
-- A running job, its handlers, and the theorems at this input.
use bifrost_platform_plugin.Prelude.{
  String, ◌≡◌, refl, sym, ap, ◌∙◌, Option, none, some, List, [], ◌∷◌, true, arith, here, In-cons,
  inl, inr, str_eq, if◌then◌else◌,
}
use bifrost_platform_plugin.Prelude.Int.{ℤ, pos}
use bifrost_platform_plugin.Json.{Fields, num, obj, end, field}
use bifrost_platform_plugin.Db.{Conn, return, calm}
use bifrost_platform_plugin.Queue.{Row, JobRow, pending, running, job_row_from_record, update_id}
use bifrost_platform_plugin.Queue.Invariant.{IsWell}
use bifrost_platform_plugin.Queue.Settle.{update_checked, finish_row}
use bifrost_platform_plugin.Freshness.{
  dimension_for_kind, policed_slot_for_job, rows_written_from_result, extra_freshness_from_result,
}
use bifrost_platform_plugin.Worker.{Store, HealthState, Handled, completed, Texts, process_one_job}
use bifrost_platform_plugin.Worker.Outcomes.{IsLeft, answer, set_jobs, process_one_job-IsLeft}
use bifrost_platform_plugin.Queue.Claim.{named_kinds, before, start, is_locked}
use bifrost_platform_plugin.Queue.Ranking.{Distinct}
use bifrost_platform_plugin.Queue.Best.{IsClaimable}
use bifrost_platform_plugin.Worker.{record_claim, claim_and_run}
use bifrost_platform_plugin.Queue.ClaimLaws.{claimed}
use bifrost_platform_plugin.Worker.Pass.{LeavesRunning, claim_and_run_ends}
use bifrost_platform_plugin.Worker.Calm.{reply, counted, ended_row}

abbrev no_int : String → Option ℤ
no_int s = none

abbrev texts : Texts
texts = record {
  of_fault = λ e. "database error";
  no_handler = λ kind. "no handler registered";
  job_timeout = "job_timeout after 900s";
}

abbrev minute_bars : Row
minute_bars = record {
  id = 7;
  kind = "stock_minute";
  payload = obj end;
  payload_hash = some "AAPL";
  priority = pos 0;
  status = running;
  result = none;
  attempts = 1;
  max_attempts = 3;
  created_at = 1;
  updated_at = 5;
  started_at = some 5;
  finished_at = none;
}

abbrev store : Store
store = record { jobs = record { rows = minute_bars ∷ []; next_id = 8 }; freshness = [] }

store-IsWell : IsWell store.jobs
store-IsWell = record {
  ids = λ i. ground arith;
  below = λ r m. elim (In-cons m) [ inl e ↦ rw e (omega arith) | inr n ↦ elim n [ ] ];
  dedup = λ r s m n h. elim (In-cons m) [
    | inl e ↦ elim (In-cons n) [ inl f ↦ ap (λ v. v.id) (e ∙ sym f) | inr k ↦ elim k [ ] ]
    | inr k ↦ elim k [ ]
  ];
  rows_well = λ r m. elim (In-cons m) [
    | inl e ↦ rw e (record { finished = refl; started = refl; counted = refl })
    | inr n ↦ elim n [ ]
  ];
}

abbrev job : JobRow
job = job_row_from_record minute_bars

job_id : job.id ≡ 7
unfolding job_row_from_record
job_id = refl

abbrev bars_written : Option Fields
bars_written = some (field "rows_written" (num (pos 390)) end)

abbrev handlers : String → Option (JobRow → Handled)
handlers kind = if str_eq kind "stock_minute" then some (λ j. completed bars_written) else none

abbrev health : Option HealthState
health = some (record {
  pool = "stocks";
  started_at = 0;
  last_claim_at = some 5;
  jobs_done = 0;
  jobs_failed = 0;
  status = "ok";
  last_tick = 5;
})

-- The job is done, and its dimension is fresh.
recorded : (process_one_job no_int 9 texts handlers job health (calm store)).1.committed ≡ record {
  jobs = record { rows = finish_row 9 bars_written minute_bars ∷ []; next_id = 8 };
  freshness =
      record {
        dimension = "stock_minute";
        last_run_at = 9;
        rows_written = 390;
        status = "ok";
        updated_at = 9;
      }
      ∷ [];
}
unfolding process_one_job job_row_from_record update_checked finish_row dimension_for_kind
    policed_slot_for_job rows_written_from_result extra_freshness_from_result update_id
recorded = refl

-- The first call of the driver raises, so that the job is sent back; where the next one raises
-- too, it is left running.
abbrev broken : Conn Store
broken = record { committed = store; working = store; faults = true ∷ true ∷ []; late = [] }

process_one_job-IsLeft_example :
    IsLeft no_int 9 texts store minute_bars store-IsWell
      (here refl)
      refl
      job
      job_id
      health
      (answer no_int 9 texts store minute_bars store-IsWell
        (here refl)
        refl
        job
        job_id
        health
        (handlers job.kind))
      (process_one_job no_int 9 texts handlers job health broken)
process_one_job-IsLeft_example =
    process_one_job-IsLeft no_int 9 texts store minute_bars store-IsWell (here refl) refl job job_id
      health handlers broken refl refl refl

-- The same job before its claim.
abbrev waiting_bars : Row
waiting_bars = record minute_bars {
  status = pending;
  attempts = 0;
  updated_at = 1;
  started_at = none;
}

abbrev queued : Store
queued = record { jobs = record { rows = waiting_bars ∷ []; next_id = 8 }; freshness = [] }

queued-IsWell : IsWell queued.jobs
queued-IsWell = record {
  ids = λ i. ground arith;
  below = λ r m. elim (In-cons m) [ inl e ↦ rw e (omega arith) | inr n ↦ elim n [ ] ];
  dedup = λ r s m n h. elim (In-cons m) [
    | inl e ↦ elim (In-cons n) [ inl f ↦ ap (λ v. v.id) (e ∙ sym f) | inr k ↦ elim k [ ] ]
    | inr k ↦ elim k [ ]
  ];
  rows_well = λ r m. elim (In-cons m) [
    | inl e ↦ rw e (record { finished = refl; started = refl; counted = refl })
    | inr n ↦ elim n [ ]
  ];
}

abbrev kinds : List String
kinds = "stock_minute" ∷ []

kinds_named : named_kinds kinds ≡ kinds
unfolding named_kinds
kinds_named = refl

kinds-Distinct : Distinct (named_kinds kinds)
kinds-Distinct = rw kinds_named (λ j m. elim m [ ], tt)

waiting_bars-IsClaimable : IsClaimable [] (named_kinds kinds) queued.jobs.rows waiting_bars
unfolding is_locked named_kinds
waiting_bars-IsClaimable = record {
  stored = here refl;
  wanted = here refl;
  waits = refl;
  free = refl;
}

abbrev loop_health : HealthState
loop_health = record {
  pool = "stocks";
  started_at = 0;
  last_claim_at = none;
  jobs_done = 0;
  jobs_failed = 0;
  status = "ok";
  last_tick = 5;
}

-- While the handler runs, the freshness rows are deleted.
abbrev marked : Store → Store
marked u = record u { freshness = [] }

claim_and_run_ends_example :
    (r : Row) × IsClaimable [] (named_kinds kinds) queued.jobs.rows r
    × (before r waiting_bars ≡ true)
    × (h : Option HealthState) × (d : Conn Store) × (claim_and_run no_int 95 texts 9 marked handlers
          loop_health 8 [] kinds
          (calm queued)
        ≡ (return (true, h), d))
    × (let j = job_row_from_record (start 9 r) in
        let o = reply j (handlers r.kind) in
        let left = (marked (set_jobs (claimed 9 r queued.jobs) queued)).jobs in
        (h ≡ some (counted o (record_claim 9 loop_health)))
        × (d.committed.jobs
            ≡ record left { rows = update_id r.id (ended_row 95 texts j o) left.rows }))
claim_and_run_ends_example =
    claim_and_run_ends no_int 95 texts 9 marked (unfold LeavesRunning in λ u v. (v, λ r m e. m))
      handlers loop_health queued queued-IsWell 8 [] kinds kinds-Distinct (omega arith) waiting_bars
      waiting_bars-IsClaimable
