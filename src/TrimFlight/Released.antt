-- ===== src/TrimFlight/Released.antt =====
-- The lock of the trims is given back on every path, and a running row belongs to its holder.
use bifrost_platform_plugin.Prelude.{
  ℕ, String, ◌≡◌, refl, ap, ◌∙◌, Option, List, [], ◌∷◌, Bool, true, false, has, map, arith, In,
  here, In-cons, In-append, In-append_right, In-map, inl, inr, Bool-cases,
}
use bifrost_platform_plugin.Json.{Json, Fields}
use bifrost_platform_plugin.Db.{
  Db, Conn, Outcome, Fault, return, raise, next_fault, later_faults, executed, tried, accepted,
  committing, failed_commit, and_then, commit, pure, try_execute, ◌>>=◌, ◌>>◌,
}
use bifrost_platform_plugin.Queue.Atomic.{UnlessLate, anyway-UnlessLate}
use bifrost_platform_plugin.Queue.{Row, Table, same_key}
use bifrost_platform_plugin.TrimFlight.{
  is_trim_running, retire_row, trim_row, insert_trim, retire_stale_and_insert, Session, close,
  Started, already_running, with_lock, take_lock, try_acquire, go_on, next_act, on_conn, done_with,
  answered, then_background, background, unlock, start_single_flight, start_trim, flight,
}
use bifrost_platform_plugin.TrimFlight

abbrev pub opened : Conn Table → Session
opened c = record { conn = c; flag = false; held = false; closed = false }

abbrev pub IsReleased : Session → Type 0
IsReleased s = (s.closed ≡ true) × (s.held ≡ false)

module _ (now : ℕ) (body : Json) (hash : String) (running_job : Db Table (Option ℕ))
    (error_of : Fault → Fields) where
  -- Whether the lock is free or not, whichever calls of the driver raise, whatever the trim does and
  -- whether its thread starts: when the request and its task are over, the connection is closed and
  -- its session does not hold the lock.
  pub flight-IsReleased :
      (free spawns : Bool) (run : Db Table Fields) (s : Session)
      → IsReleased (flight now free body hash run running_job error_of spawns s)
  unfolding flight start_trim background unlock
  flight-IsReleased free spawns run s =
      of (start_single_flight now free body hash run running_job error_of spawns s)
    where
      of :
          (p : Outcome Started × Session)
          → IsReleased (
              then_background now free body hash run running_job error_of
                (answered now free body hash run running_job error_of p))
      of (return (already_running id), d) = (refl, refl)
      of (return (TrimFlight.Started.accepted id), d) = (refl, refl)
      of (raise e, d) = (refl, refl)

  -- A request on a new connection that finds the lock taken by another session does the same
  -- whatever the trim would do: it does not run it.
  pub flight_idle :
      (spawns : Bool) (run other : Db Table Fields) (c : Conn Table)
      → flight now false body hash run running_job error_of spawns (opened c)
        ≡ flight now false body hash other running_job error_of spawns (opened c)
  unfolding flight start_trim start_single_flight try_acquire
  flight_idle spawns run other c = of (next_fault c.faults)
    where
      told :
          (p : Outcome (Option ℕ) × Session)
          → then_background now false body hash run running_job error_of (
              answered now false body hash run running_job error_of
                (go_on (λ id. done_with (already_running id)) p))
            ≡ then_background now false body hash other running_job error_of (
                answered now false body hash other running_job error_of
                  (go_on (λ id. done_with (already_running id)) p))
      told (return id, d) = refl
      told (raise e, d) = refl

      asked : Bool → Outcome Bool × Session
      asked b =
          let r = executed (λ (t : Table). (false, t)) c b in go_on take_lock (r.0, opened r.1)

      of :
          (b : Bool)
          → then_background now false body hash run running_job error_of (
              answered now false body hash run running_job error_of
                (go_on (with_lock now false body hash run running_job error_of spawns) (asked b)))
            ≡ then_background now false body hash other running_job error_of (
                answered now false body hash other running_job error_of (
                  go_on
                    (with_lock now false body hash other running_job error_of spawns)
                    (asked b)))
      of true = refl
      of false = told (on_conn running_job (opened (record c { faults = later_faults c.faults })))

-- Of the rows that run the trim, just the one with this id is left, and it is there.
abbrev pub IsAlone : ℕ → Table → Type 0
IsAlone id t =
    ((r : Row) → In r t.rows → is_trim_running r ≡ true → r.id ≡ id)
    × ((r : Row) × In r t.rows × (r.id ≡ id) × (is_trim_running r ≡ true))

abbrev pub Began : Table → Outcome ℕ × Conn Table → Type 0
Began old (return id, d) = IsAlone id d.committed
Began old (raise e, d) = UnlessLate e (d.committed ≡ old)

retire_row_over : (now : ℕ) (r : Row) → is_trim_running (retire_row now r) ≡ false
unfolding retire_row
retire_row_over now r = elim (Bool-cases (is_trim_running r)) [
  | inl t ↦ rw t (ground arith)
  | inr f ↦ rw f f
]

retired-over :
    (now : ℕ) (rows : List Row) {r : Row}
    → In r (map (retire_row now) rows)
    → is_trim_running r ≡ false
retired-over now rows m =
    let (a, k, e) = In-map (retire_row now) rows m in ap is_trim_running e ∙ retire_row_over now a

module _ (now : ℕ) (body : Json) (hash : String) where
  abbrev Inserted : Outcome (ℕ × Table) → Type 0
  Inserted (return p) = IsAlone p.0 p.1
  Inserted (raise e) = Unit

  insert_trim-Inserted :
      (t : Table)
      → ((r : Row) → In r t.rows → is_trim_running r ≡ false)
      → Inserted (insert_trim now body hash t)
  unfolding insert_trim trim_row
  insert_trim-Inserted t over =
      elim (Bool-cases (has (same_key (trim_row now body hash t.next_id)) t.rows)) [
        | inl c ↦ rw c tt
        | inr c ↦ rw c (
          λ r m e. elim (In-append t.rows (trim_row now body hash t.next_id ∷ []) m) [
            | inl k ↦ ground (arith, over r k, e)
            | inr k ↦ elim (In-cons k) [ inl q ↦ ap (λ v. v.id) q | inr n ↦ elim n [ ] ]
          ],
          (
            trim_row now body hash t.next_id,
            In-append_right t.rows (trim_row now body hash t.next_id ∷ []) (here refl),
            refl,
            refl,
          ),
        )
      ]

  -- Whichever calls raise, and whatever rows a dead holder left: if `retire_stale_and_insert` returns
  -- an id, then a row with that id runs the trim, and no row with another id does. If it raises, as
  -- where a job with the same key waits, it has committed nothing, unless the error is that of a
  -- commit which took effect before it raised.
  pub retire_stale_and_insert-Began :
      (c : Conn Table) → Began c.committed (retire_stale_and_insert now body hash c)
  unfolding retire_stale_and_insert
  retire_stale_and_insert-Began c = retired (next_fault c.faults)
    where
      rows : Table
      rows = record c.working { rows = map (retire_row now) c.working.rows }

      ended :
          (id : ℕ) (d : Conn Table) (b : Bool)
          → d.committed ≡ c.committed
          → IsAlone id d.working
          → Began c.committed (and_then (λ _. pure id) (committing d b))
      ended id d true e a = failed (next_fault d.late)
        where
          failed :
              (late : Bool)
              → Began c.committed (
                  and_then
                    (λ _. pure id)
                    (failed_commit (record d { faults = later_faults d.faults }) late))
          failed true = tt
          failed false = e
      ended id d false e a = a

      taken :
          (d : Conn Table) (o : Outcome (ℕ × Table))
          → d.committed ≡ c.committed
          → Inserted o
          → Began c.committed (and_then (λ id. commit >> pure id) (accepted d o))
      taken d (return p) e i =
          ended p.0 (record d { working = p.1; faults = later_faults d.faults })
            (next_fault (later_faults d.faults)) e i
      taken d (raise x) e i = anyway-UnlessLate x e

      inserted :
          (d : Conn Table) (b : Bool)
          → d.committed ≡ c.committed
          → Inserted (insert_trim now body hash d.working)
          → Began c.committed
              (and_then (λ id. commit >> pure id) (tried (insert_trim now body hash) d b))
      inserted d true e i = e
      inserted d false e i = taken d (insert_trim now body hash d.working) e i

      retired :
          (b : Bool)
          → Began c.committed (
              and_then
                (λ _. try_execute (insert_trim now body hash) >>= λ id. commit >> pure id)
                (executed (λ t. (tt, record t { rows = map (retire_row now) t.rows })) c b))
      retired true = refl
      retired false =
          inserted (record c { working = rows; faults = later_faults c.faults })
            (next_fault (later_faults c.faults)) refl
            (insert_trim-Inserted rows (λ r m. retired-over now c.working.rows m))
