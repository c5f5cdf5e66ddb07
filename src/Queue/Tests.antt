-- ===== src/Queue/Tests.antt =====
-- Small queues, what the operations do on them, and the theorems at these inputs.
use bifrost_platform_plugin.Prelude.{
  ℕ, String, Option, has, map, ◌≡◌, refl, sym, ◌∙◌, ap, List, [], ◌∷◌, true, false, none, some,
  here, there, In-cons, ◌⊎◌, inl, inr, arith, eq_iff,
}
use bifrost_platform_plugin.Prelude.Int.{pos}
use bifrost_platform_plugin.Json.{Json, str, end, field}
use bifrost_platform_plugin.Db.{Conn, return, raise, value_error, calm}
use bifrost_platform_plugin.Queue.{
  Row, Table, Status, pending, running, failed, job_row_from_record, update_id,
}
use bifrost_platform_plugin.Queue.Claim.{
  before, claim_job, claim_kinds, claim_found, select_job, candidate, lateral_all, lateral, waiting,
  is_candidate, is_locked, update_returning, start, named_kinds,
}
use bifrost_platform_plugin.Queue.Settle.{
  mark_failed, mark_done, reclaim_stale_running, fail_row, update_checked, finish_row,
}
use bifrost_platform_plugin.Queue.Enqueue.{Spec, insert_job}
use bifrost_platform_plugin.Queue.Ranking.{Distinct}
use bifrost_platform_plugin.Queue.Best.{IsClaimable}
use bifrost_platform_plugin.Queue.ClaimLaws.{claimed, claim_job_best, claim_job_sound}
use bifrost_platform_plugin.Queue.Atomic.{Settled}
use bifrost_platform_plugin.Queue.Invariant.{IsWell, is_some, empty_table, empty_table-IsWell}
use bifrost_platform_plugin.Queue.Runs.{
  Call, Event, insert, claim, finish, fail, reclaim, insert_bulk, trim, after_call, run_event,
  run_events, run_events-IsWell,
}
use bifrost_platform_plugin.Queue.Bulk.{Key, insert_batch, insert_jobs_bulk}
use bifrost_platform_plugin.Queue.BulkLaws.{active}
use bifrost_platform_plugin.Queue.BulkAtomic.{enqueue-Settled}
use bifrost_platform_plugin.Queue.Enqueueing.{
  unnamed, keys_of, enqueue_all, insert_jobs_bulk-enqueue_all,
}
use bifrost_platform_plugin.Trim.{trim_old_jobs}
use bifrost_platform_plugin.Queue.Retry.{mark_failed_running}
use bifrost_platform_plugin.Prelude.{In}
use bifrost_platform_plugin.Queue.Settle.{reclaim_rows, update_checked}
use bifrost_platform_plugin.Queue.Limits.{AllWithin}
use bifrost_platform_plugin.Queue.Attempts.{
  IsCurrent, IsStartable, AllCurrent, run_events-AllWithin,
}

-- A stand-in for `payload_hash`, by the first field.
abbrev digest : Json → String
digest (Json.obj (field k (str s) rest)) = s
digest _ = "other"

abbrev daily : String → ℕ → Spec
daily symbol p = record {
  kind = " stock_daily ";
  payload = some (field "symbol" (str symbol) end);
  priority = pos p;
  max_attempts = 2;
}

abbrev at : ℕ → Call → Event
at now call = record { now = now; faults = []; late = []; call = call }

abbrev script : List Event
script =
    at 10 (insert (daily "AAPL" 0))
    ∷ at 11 (insert (daily "MSFT" 5))
    ∷ at 12 (insert (daily "AAPL" 9))
    ∷ []

abbrev job : ℕ → ℕ → String → ℕ → Row
job now i symbol p = record {
  id = i;
  kind = "stock_daily";
  payload = Json.obj (field "symbol" (str symbol) end);
  payload_hash = some symbol;
  priority = pos p;
  status = pending;
  result = none;
  attempts = 0;
  max_attempts = 2;
  created_at = now;
  updated_at = now;
  started_at = none;
  finished_at = none;
}

abbrev two_jobs : Table
two_jobs = record { rows = job 10 1 "AAPL" 0 ∷ job 11 2 "MSFT" 5 ∷ []; next_id = 4 }

-- The duplicate is dropped, and still uses up an id.
two_inserted : run_events digest empty_table script ≡ two_jobs
unfolding run_events insert_job
two_inserted = refl

two_jobs-IsWell : IsWell two_jobs
two_jobs-IsWell =
    rw two_inserted at (run_events-IsWell digest empty_table script empty_table-IsWell)

abbrev long_script : List Event
long_script =
    at 10 (insert_bulk (daily "AAPL" 0 ∷ daily "MSFT" 5 ∷ daily "AAPL" 9 ∷ []))
    ∷ at 20 (claim 8 [] ("stock_daily" ∷ []))
    ∷ at 30 (finish 2 none)
    ∷ at 40 (insert (daily "MSFT" 1))
    ∷ at 100 (trim 50 1000 100 10 (record { elapsed = 0; now = 100 } ∷ []))
    ∷ []

-- The finished job of MSFT is trimmed, and the newer one stays.
long_script_leaves :
    (run_events digest empty_table long_script).rows ≡ job 10 1 "AAPL" 0 ∷ job 40 3 "MSFT" 1 ∷ []
unfolding run_events insert_jobs_bulk insert_batch insert_job claim_job claim_kinds claim_found
    select_job candidate lateral_all lateral waiting before is_candidate is_locked update_returning
    start job_row_from_record named_kinds update_id mark_done trim_old_jobs update_checked
    finish_row
long_script_leaves = refl

run_events-IsWell_example : IsWell (run_events digest empty_table long_script)
run_events-IsWell_example = run_events-IsWell digest empty_table long_script empty_table-IsWell

abbrev kinds : List String
kinds = "stock_minute" ∷ "stock_daily" ∷ []

kinds_named : named_kinds kinds ≡ kinds
unfolding named_kinds
kinds_named = refl

kinds-Distinct : Distinct (named_kinds kinds)
kinds-Distinct = rw kinds_named (
  λ j m. elim (In-cons m) [
    | inl e ↦ rw e (ground (arith, eq_iff "stock_minute" "stock_daily"))
    | inr n ↦ elim n [ ]
  ],
  (λ j m. elim m [ ], tt),
)

abbrev msft : Row
msft = job 11 2 "MSFT" 5

msft-IsClaimable : IsClaimable (1 ∷ []) (named_kinds kinds) two_jobs.rows msft
unfolding is_locked named_kinds
msft-IsClaimable = record {
  stored = there (here refl);
  wanted = there (here refl);
  waits = refl;
  free = refl;
}

claim_job_best_example :
    (r : Row) × (claim_job 20 8 (1 ∷ []) kinds (calm two_jobs)
      ≡ (return (some (job_row_from_record (start 20 r))), calm (claimed 20 r two_jobs)))
    × IsClaimable (1 ∷ []) (named_kinds kinds) two_jobs.rows r
    × (before r msft ≡ true)
claim_job_best_example =
    claim_job_best 20 8 (1 ∷ []) kinds two_jobs two_jobs-IsWell.ids kinds-Distinct (omega arith)
      msft msft-IsClaimable

claim_job_sound_example :
    (claim_job 20 8 (1 ∷ []) kinds (calm two_jobs) ≡ (return none, calm two_jobs))
    ⊎ ((r : Row) × IsClaimable (1 ∷ []) (named_kinds kinds) two_jobs.rows r
        × (claim_job 20 8 (1 ∷ []) kinds (calm two_jobs)
            ≡ (return (some (job_row_from_record (start 20 r))), calm (claimed 20 r two_jobs))))
claim_job_sound_example = claim_job_sound 20 8 (1 ∷ []) kinds two_jobs two_jobs-IsWell.ids

-- The better job is locked by another worker, so the other one is taken.
claim_skips_locked :
    (claim_job 20 8 (2 ∷ []) kinds (calm two_jobs)).0
    ≡ return (some (job_row_from_record (start 20 (job 10 1 "AAPL" 0))))
unfolding claim_job claim_kinds claim_found select_job candidate lateral_all lateral waiting before
    is_candidate is_locked update_returning start job_row_from_record named_kinds update_id
claim_skips_locked = refl

-- The third call of the driver, the commit, raises.
abbrev broken : Conn Table
broken = record {
  committed = two_jobs;
  working = two_jobs;
  faults = false ∷ false ∷ true ∷ [];
  late = [];
}

enqueue-Settled_example :
    Settled two_jobs (insert_job digest 20 (daily "AAPL" 0) broken)
    × Settled two_jobs (insert_jobs_bulk digest 20 (daily "IBM" 0 ∷ daily "AAPL" 0 ∷ []) broken)
enqueue-Settled_example =
    enqueue-Settled 20 broken refl digest (daily "AAPL" 0) (daily "IBM" 0 ∷ daily "AAPL" 0 ∷ [])

-- One wish is new, one is active, and one repeats another.
abbrev wishes : List Spec
wishes = daily "IBM" 0 ∷ daily "AAPL" 0 ∷ daily "IBM" 7 ∷ []

insert_jobs_bulk_ids :
    (insert_jobs_bulk digest 20 wishes (calm two_jobs)).0 ≡ return (some 4 ∷ none ∷ none ∷ [])
unfolding insert_jobs_bulk insert_batch
insert_jobs_bulk_ids = refl

insert_jobs_bulk-enqueue_all_example :
    ((has (unnamed digest) wishes ≡ true)
      × (insert_jobs_bulk digest 20 wishes (calm two_jobs) ≡ (raise value_error, calm two_jobs)))
    ⊎ ((has (unnamed digest) wishes ≡ false)
        × (ids : List (Option ℕ)) × (t' : Table) × (insert_jobs_bulk digest 20 wishes
              (calm two_jobs)
            ≡ (return ids, calm t'))
        × (map is_some ids ≡ (enqueue_all (λ k. active k two_jobs.rows) (keys_of digest wishes)).0)
        × ((k : Key)
            → active k t'.rows
              ≡ (enqueue_all (λ k. active k two_jobs.rows) (keys_of digest wishes)).1 k))
insert_jobs_bulk-enqueue_all_example = insert_jobs_bulk-enqueue_all digest 20 wishes two_jobs

-- The job of MSFT, claimed twice.
abbrev worn : Row
worn = record msft { status = running; attempts = 2; started_at = some 30; updated_at = 30 }

abbrev worn_jobs : Table
worn_jobs = record { rows = worn ∷ []; next_id = 3 }

worn_jobs-IsWell : IsWell worn_jobs
worn_jobs-IsWell = record {
  ids = λ i. ground arith;
  below = λ r m. elim (In-cons m) [ inl e ↦ rw e (omega arith) | inr n ↦ elim n [ ] ];
  dedup = λ r s m n h. elim (In-cons m) [
    | inl e ↦ elim (In-cons n) [ inl f ↦ ap (λ v. v.id) (e ∙ sym f) | inr k ↦ elim k [ ] ]
    | inr k ↦ elim k [ ]
  ];
  rows_well = λ r m. elim (In-cons m) [
    | inl e ↦ rw e (record { finished = refl; started = refl; counted = refl })
    | inr n ↦ elim n [ ]
  ];
}

mark_failed_running_example : mark_failed 40 2 "boom" 2 2 (calm worn_jobs) ≡ (
  return failed,
  calm (record worn_jobs { rows = update_id 2 (fail_row 40 "boom" 2 2) worn_jobs.rows }),
)
mark_failed_running_example =
    mark_failed_running 40 2 2 "boom" worn_jobs worn worn_jobs-IsWell (here refl) refl

worn_jobs-AllWithin : AllWithin worn_jobs.rows
worn_jobs-AllWithin r m = elim (In-cons m) [ inl e ↦ rw e refl | inr n ↦ elim n [ ] ]

-- The last attempt of a job fails, and others are enqueued and claimed. One of the commits raises
-- after it took effect.
abbrev later_script : List Event
later_script =
    at 40 (fail 2 "boom" 2 2)
    ∷ at 41 (insert_bulk wishes)
    ∷ record {
      now = 42;
      faults = false ∷ false ∷ true ∷ [];
      late = true ∷ [];
      call = claim 8 [] kinds;
    }
    ∷ at 43 (insert (daily "MSFT" 1))
    ∷ at 2000 (reclaim 1200 kinds)
    ∷ []

wishes-IsStartable : (s : Spec) → In s wishes → IsStartable s.max_attempts
wishes-IsStartable s m = elim (In-cons m) [
  | inl e ↦ rw e (omega arith, omega arith)
  | inr n ↦ elim (In-cons n) [
    | inl e ↦ rw e (omega arith, omega arith)
    | inr k ↦ elim (In-cons k) [ inl e ↦ rw e (omega arith, omega arith) | inr l ↦ elim l [ ] ]
  ]
]

last_attempt-IsCurrent : IsCurrent worn_jobs (fail 2 "boom" 2 2)
last_attempt-IsCurrent r m i = elim (In-cons m) [ inl e ↦ rw e (refl, refl) | inr n ↦ elim n [ ] ]

run_events-AllWithin_example : AllWithin (run_events digest worn_jobs later_script).rows
run_events-AllWithin_example =
    run_events-AllWithin digest worn_jobs later_script worn_jobs-IsWell worn_jobs-AllWithin (
      unfold AllCurrent in
      (last_attempt-IsCurrent, (wishes-IsStartable, (tt, ((omega arith, omega arith), (tt, tt))))))

-- A worker whose job was reclaimed and claimed again reports the attempts of its own claim: the job
-- is pending again, with all its attempts used up.
abbrev overrun : List Event
overrun =
    at 10 (insert (daily "AAPL" 0))
    ∷ at 20 (claim 8 [] kinds)
    ∷ at 2000 (reclaim 1200 kinds)
    ∷ at 2001 (claim 8 [] kinds)
    ∷ at 2002 (fail 1 "timeout" 1 2)
    ∷ []

overrun_leaves :
    map {B = Status × ℕ × ℕ}
      (λ r. (r.status, r.attempts, r.max_attempts))
      (run_events digest empty_table overrun).rows
    ≡ (pending, 2, 2) ∷ []
unfolding run_events run_event after_call insert_job mark_failed reclaim_stale_running claim_job
    claim_kinds claim_found select_job candidate lateral_all lateral waiting before is_candidate
    is_locked update_returning start named_kinds update_id fail_row update_checked reclaim_rows
overrun_leaves = refl
