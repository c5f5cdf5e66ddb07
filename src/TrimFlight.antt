-- ===== src/TrimFlight.antt =====
-- The single flight of trims: scheduler/trim_flight.py and `_start_trim` of api/ingest.py. The lock is
-- an advisory lock of the session: the server drops it when the connection is closed.
pub mod Released
mod Tests
use bifrost_platform_plugin.Prelude.{
  ℕ, ◌+◌, ◌==◌, String, Option, none, some, List, [], ◌∷◌, ◌++◌, Bool, true, false, not, ◌&&◌, has,
  map, str_eq, if◌then◌else◌,
}
use bifrost_platform_plugin.Prelude.Int.{pos}
use bifrost_platform_plugin.Json.{Json, Fields, str, bool, obj, end, field}
use bifrost_platform_plugin.Db.{
  Db, Conn, Outcome, Fault, return, raise, unique_violation, db_error, execute, try_execute, commit,
  pure, ◌>>=◌, ◌>>◌,
}
use bifrost_platform_plugin.Queue.{
  Row, Table, Status, running, failed, done, is_running, same_key, update_id,
}

-- TRIM_JOB_KIND
abbrev pub trim_job_kind : String
trim_job_kind = "slot-trim"

abbrev pub is_trim_running : Row → Bool
is_trim_running r = str_eq r.kind trim_job_kind && is_running r.status

-- SET status = 'failed', … WHERE kind = %s AND status = 'running'
unfoldable pub retire_row : ℕ → Row → Row
retire_row now r =
    if is_trim_running r
    then record r {
      status = failed;
      result = some (obj (field "error" (str "previous trim holder exited without finishing") end));
      finished_at = some now;
      updated_at = now;
    }
    else r

unfoldable pub trim_row : ℕ → Json → String → ℕ → Row
trim_row now body hash i = record {
  id = i;
  kind = trim_job_kind;
  payload = body;
  payload_hash = some hash;
  priority = pos 0;
  status = running;
  result = none;
  attempts = 1;
  max_attempts = 1;
  created_at = now;
  updated_at = now;
  started_at = some now;
  finished_at = none;
}

-- The INSERT, which the unique index may refuse.
unfoldable pub insert_trim : ℕ → Json → String → Table → Outcome (ℕ × Table)
unfolding trim_row same_key
insert_trim now body hash t =
    let row = trim_row now body hash t.next_id in
    if has (same_key row) t.rows
    then raise unique_violation
    else return (t.next_id, record { rows = t.rows ++ (row ∷ []); next_id = t.next_id + 1 })

unfoldable pub retire_stale_and_insert : ℕ → Json → String → Db Table ℕ
unfolding insert_trim retire_row
retire_stale_and_insert now body hash = do
  execute (λ t. (tt, record t { rows = map (retire_row now) t.rows }))
  id ← try_execute (insert_trim now body hash)
  commit
  pure id

unfoldable pub result_row : ℕ → Status → Fields → Row → Row
result_row now status result r = record r {
  status = status;
  result = some (obj result);
  finished_at = some now;
  updated_at = now;
}

unfoldable pub write_result : ℕ → ℕ → Status → Fields → Db Table (Unit {0})
unfolding update_id result_row
write_result now job_id status result = do
  execute (λ t. (tt, record t { rows = update_id job_id (result_row now status result) t.rows }))
  commit

-- The connection that holds the lock: `flag` is its attribute _bifrost_trim_lock, `held` what the
-- server knows of its session.
pub record Session : Type 0 where
  pub conn : Conn Table
  pub flag : Bool
  pub held : Bool
  pub closed : Bool

abbrev pub Act : Type 0 → Type 0
Act A = Session → Outcome A × Session

abbrev pub on_conn : {A : Type 0} → Db Table A → Act A
on_conn m s = let r = m s.conn in (r.0, record s { conn = r.1 })

abbrev pub done_with : {A : Type 0} → A → Act A
done_with a s = (return a, s)

abbrev pub go_on : {A B : Type 0} → (A → Act B) → Outcome A × Session → Outcome B × Session
go_on k (return a, s) = k a s
go_on k (raise e, s) = (raise e, s)

abbrev pub next_act : {A B : Type 0} → Act A → (A → Act B) → Act B
next_act m k s = go_on k (m s)

-- try … finally, with an ending that does not raise
abbrev pub finally : {A : Type 0} → Act A → (Session → Session) → Act A
finally m f s = let r = m s in (r.0, f r.1)

abbrev pub handled : {A : Type 0} → (Fault → Act A) → Outcome A × Session → Outcome A × Session
handled k (return a, s) = (return a, s)
handled k (raise e, s) = k e s

abbrev pub no_statement : Db Table (Unit {0})
no_statement = execute (λ t. (tt, t))

abbrev pub set_flag : Bool → Session → Session
set_flag b s = record s { flag = b }

-- `pg_try_advisory_lock`, which is granted where no other session holds the lock.
abbrev pub take_lock : Bool → Act Bool
take_lock true s = (return true, record s { flag = true; held = true })
take_lock false s = (return false, s)

unfoldable pub try_acquire : Bool → Act Bool
try_acquire free s =
    if s.flag then (return true, s) else next_act (on_conn (execute (λ t. (free, t)))) take_lock s

abbrev pub drop_lock : Act (Unit {0})
drop_lock s = (return tt, record s { held = false })

-- `release`, whose commit follows the unlock.
unfoldable pub release_lock : Act (Unit {0})
release_lock s =
    if s.flag
    then finally (next_act (on_conn no_statement) (λ _. next_act drop_lock (λ _. on_conn commit)))
        (set_flag false) s
    else (return tt, s)

-- `conn.close()`
abbrev pub close : Session → Session
close s = record s {
  conn = record s.conn { working = s.conn.committed };
  held = false;
  closed = true;
}

-- `_unlock`
unfoldable pub unlock : Act (Unit {0})
unfolding release_lock
unlock = finally release_lock close

pub data Started : Type 0 where
  already_running : (job_id : Option ℕ) → Started
  accepted : (job_id : ℕ) → Started

-- The callbacks that the caller gives: what the trim does, and what tells who is running.
module _ (now : ℕ) (free : Bool) (body : Json) (hash : String) (run : Db Table Fields)
    (running_job : Db Table (Option ℕ)) (error_of : Fault → Fields) where
  -- `_bg`
  unfoldable pub background : ℕ → Act (Unit {0})
  unfolding write_result unlock
  background job_id =
      finally
        (λ s.
          handled (λ e. on_conn (write_result now job_id failed (error_of e)))
            (next_act (on_conn run) (λ result. on_conn (write_result now job_id done result)) s))
        (λ s. (unlock s).1)

  -- `spawn`, which may raise; the task itself runs after the caller has returned.
  abbrev pub spawned : Bool → ℕ → Act Started
  spawned true job_id s = (return (accepted job_id), s)
  spawned false job_id s = (raise db_error, (unlock s).1)

  abbrev pub with_lock : Bool → Bool → Act Started
  with_lock spawns false = next_act (on_conn running_job) (λ id. done_with (already_running id))
  with_lock spawns true =
      next_act (on_conn (retire_stale_and_insert now body hash)) (spawned spawns)

  unfoldable pub start_single_flight : Bool → Act Started
  unfolding try_acquire retire_stale_and_insert unlock
  start_single_flight spawns = next_act (try_acquire free) (with_lock spawns)

  -- What `_start_trim` does with the answer.
  abbrev pub answered : Outcome Started × Session → Outcome Started × Session
  answered (return (already_running id), s) = (return (already_running id), close s)
  answered (return (accepted job_id), s) = (return (accepted job_id), s)
  answered (raise e, s) = (raise e, close s)

  unfoldable pub start_trim : Bool → Act Started
  unfolding start_single_flight
  start_trim spawns s = answered (start_single_flight spawns s)

  abbrev pub then_background : Outcome Started × Session → Session
  then_background (return (already_running id), s) = s
  then_background (return (accepted job_id), s) = (background job_id s).1
  then_background (raise e, s) = s

  -- The request and the task that it starts.
  unfoldable pub flight : Bool → Session → Session
  unfolding start_trim background
  flight spawns s = then_background (start_trim spawns s)
