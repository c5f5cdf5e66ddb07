-- ===== src/Lib.antt =====
-- Bifrost Market Data plugin (src/bifrost_market_data): it ingests market data of a vendor (Polygon) into
-- PostgreSQL. A scheduler and the API put jobs into the table ops_jobs.job_ingest; asynchronous workers
-- claim them, fetch what they name through a rate-limited REST client on pooled connections, and end them
-- as done or failed; the coverage pages judge what has been ingested against contracts.
--
-- The parts and their files (paths below src/bifrost_market_data):
--   Queue       worker/claim.py, insert_job of scheduler/enqueue.py, and the table and unique index of
--               schema/ddl.py. Queue.antt has the rows; Claim, Settle and Enqueue the operations, each
--               with its whole transaction: claim_job, mark_done, mark_failed, reclaim_stale_running,
--               insert_job. The SQL is translated clause by clause: the lateral scans with their ORDER BY
--               and LIMIT, FOR UPDATE SKIP LOCKED as the ids that others have locked, the CASEs of the
--               updates. Ids, Ranking, Best, ClaimLaws: what a claim takes. Invariant, Keeps, Grows,
--               Runs: the well-formed table over every history. Retry, Limits, Attempts: ends and limits.
--               Atomic: what is left behind where a call raises.
--               Bulk has insert_jobs_bulk of scheduler/enqueue.py with its two loops and its chunks;
--               BulkLaws, Enqueueing its contract, BulkAtomic and BulkKeeps its faults.
--   Trim        trim_old_jobs of scheduler/enqueue.py with its batches and commits (Batches), what it
--               keeps (Retention) and what it clears (Progress).
--   TrimRows    trim_rows_past_window and trim_option_snapshots of scheduler/enqueue.py: one batch (Batches),
--               what is spared (Spared) and what all batches come to (Exact).
--   Worker      process_one_job and claim_and_run of worker/loop.py, update_freshness of freshness.py and
--               the counters of worker/health.py: a job from its claim through its handler to its end,
--               where calls raise (Ends, Outcomes) and where none does (Calm, Pass).
--   RateLimit   polygon/rate_limit.py: the tiers, the configuration and the token bucket, whose lock is free
--               while a caller sleeps: others take their turns then.
--   Client      polygon/client.py: the rounds of _request (Retries) and _paginate (Resume).
--   Pool        worker/pool.py: the connections of a worker, as steps of its threads (Owners) and as
--               whole calls (Acquire).
--   Calendar    trading_calendar.py: the walks over the days (Walk) and the readers (Sessions).
--   Verdicts    verdicts.py: the four verdicts (Judged), the recorded map (Maps), diff (Changes).
--   Freshness   freshness.py: the slots of jobs (Shape) and the counts of results (Counts).
--   Coverage    coverage_history.py: record and trim_samples (Effects, Runs, Trim).
--   Cron        scheduler/cronutil.py: the texts (Text), the parser (Parse, Bounds), the fires in a window
--               against the walk over every minute (Walk, Instants, Fires), next_fires and
--               previous_fire (Around). An instant is the seconds since 0001-01-01.
--   Archive     retention_archive.py: the calls and their faults (Steps), a range (Files,
--               Batches, Commits, Ranges), the loop over the ranges (Passes, Chunks, Loops, Kept, Rounds)
--               and the whole pass (Window, NoLoss).
--   Session     session.py and fetch_completed_trading_days of quality.py (Current).
--   Dates       what the program uses of datetime.date, and the months of the calendar (Months).
--   TrimFlight  scheduler/trim_flight.py and _start_trim of api/ingest.py: the advisory lock, the row of the
--               trim and its background task (Released).
--   Db, Json    what the parts share: a psycopg connection with a transaction, the rules for what its
--               calls keep (Db.Ensures, Db.Holds), and JSON values. Any call may raise (`faults`), and a
--               commit may take effect and raise all the same (`late`).
--   Prelude     Boolean tests, lists, sorting, signed integers and texts.
-- A function has the name it has in the source; a keyword argument is a plain one, and the clock, today's
-- date, the faults of the driver and the vendor's answers are arguments too. The database, the driver, the
-- HTTP client and the URL parser are not part of the repository.
--
-- Bounds and fuel: no loop needs fuel of its own. The retries count down max_retries, the pages
-- max_pages, the walks of the calendar the steps that the source allows, acquire of the pool the
-- connections that are idle, and the chunks of the bulk insert its rows. The trim goes round once for each
-- reading of the clocks that it is given, and so do the trims of
-- the market tables and acquire of the token bucket. The loop of the archive has as many rounds as there
-- are days from the oldest one to the cutoff, which is enough (Archive.Loops). Numbers are unbounded, as
-- Python's are, but for the dates before year 1 and the smallint columns of a job: a statement that would
-- overflow one of them is a call that raises; fractions are scaled to whole units (tokens,
-- microseconds, milliseconds, tenths of a percent), so that the rounding of floats is not modelled.
--
-- Not modelled: the slots of the daily scheduler, the ingest handlers, the doctor, the API but for the start
-- of a trim, the migrations, the asyncio loop of the worker with its semaphore and waits, and renames of
-- symbols. Of the REST client the rewriting of URLs and the fetch_* wrappers are left out; of the cron
-- parser the digits of other scripts, which int accepts too; of the archive its configuration, the types
-- of its columns and the contents of its manifest.
pub mod Prelude
pub mod Json
pub mod Db
pub mod Queue
pub mod RateLimit
pub mod Calendar
pub mod Verdicts
pub mod Pool
pub mod Client
pub mod Freshness
pub mod Coverage
pub mod Trim
pub mod Cron
pub mod Worker
pub mod TrimFlight
pub mod Dates
pub mod Archive
pub mod Session
pub mod TrimRows
