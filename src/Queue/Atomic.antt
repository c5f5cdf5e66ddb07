-- ===== src/Queue/Atomic.antt =====
-- Faults: whichever call of the driver raises, an operation on the queue leaves no transaction
-- open, and one that raises leaves the committed table as it was, unless it is a commit that raised
-- after it took effect.
use mathlib.Core.Option
use bifrost_platform_plugin.Prelude.{
  ℕ, String, ◌≡◌, refl, Bool, true, false, Option, str_eq, Bool-cases, inl, inr,
}
use bifrost_platform_plugin.Prelude.Text.{strip}
use bifrost_platform_plugin.Json.{Json}
use bifrost_platform_plugin.Db.{
  Fault, db_error, late_error, unique_violation, value_error, failed_commit, later_faults, Db, Conn,
  Outcome, return, raise, next_fault, executed, committing, and_then, undo, pure, commit, ◌>>◌,
}
use bifrost_platform_plugin.Queue.{Table}
use bifrost_platform_plugin.Queue.Settle.{body_of}
use bifrost_platform_plugin.Queue.Enqueue.{Spec, insert_job, insert_row, new_row, id_of}

-- Of an error that is not of a commit that took effect before it raised.
abbrev pub UnlessLate : Fault → Type 0 → Type 0
UnlessLate db_error P = P
UnlessLate late_error P = Unit
UnlessLate unique_violation P = P
UnlessLate value_error P = P

pub anyway-UnlessLate : (e : Fault) {P : Type 0} → P → UnlessLate e P
anyway-UnlessLate db_error h = h
anyway-UnlessLate late_error h = tt
anyway-UnlessLate unique_violation h = h
anyway-UnlessLate value_error h = h

abbrev Unchanged : {S A : Type 0} → S → Outcome A → S → Type 0
Unchanged s (return a) s' = Unit
Unchanged s (raise e) s' = UnlessLate e (s' ≡ s)

-- No transaction is open after the call, and a call that raised has committed nothing, but where
-- the error is that of a commit which took effect.
abbrev pub Settled : {S A : Type 0} → S → Outcome A × Conn S → Type 0
Settled s p = (p.1.working ≡ p.1.committed) × Unchanged s p.0 p.1.committed

-- What the body of such a `try` does: it ends committed, or raises with nothing committed but by
-- a commit that took effect and then raised.
abbrev pub CommitsLast : {S A : Type 0} → S → Outcome A × Conn S → Type 0
CommitsLast s (return a, c) = c.working ≡ c.committed
CommitsLast s (raise e, c) = UnlessLate e (c.committed ≡ s)

pub undo-Settled :
    {S A : Type 0} (s : S) (p : Outcome A × Conn S) → CommitsLast s p → Settled s (undo p)
undo-Settled s (return a, d) h = (h, tt)
undo-Settled s (raise e, d) h = (refl, h)

module _ {S A B : Type 0} (s : S) (k : A → Db S B)
    (rest : (a : A) (d : Conn S) → d.committed ≡ s → CommitsLast s (k a d)) where
  pub executed-CommitsLast :
      (f : S → A × S) (c : Conn S) (b : Bool)
      → c.committed ≡ s
      → CommitsLast s (and_then k (executed f c b))
  executed-CommitsLast f c true e = e
  executed-CommitsLast f c false e = rest _ _ e

failed-pure :
    {S A : Type 0} (a : A) (s : S) (c : Conn S) (late : Bool)
    → c.committed ≡ s
    → CommitsLast s (and_then (λ _. pure a) (failed_commit c late))
failed-pure a s c true e = tt
failed-pure a s c false e = e

pub committing-pure :
    {S A : Type 0} (a : A) (s : S) (c : Conn S) (b : Bool)
    → c.committed ≡ s
    → CommitsLast s (and_then (λ _. pure a) (committing c b))
committing-pure a s c true e =
    failed-pure a s (record c { faults = later_faults c.faults }) (next_fault c.late) e
committing-pure a s c false e = refl

module _ (now : ℕ) (c : Conn Table) (closed : c.working ≡ c.committed) where
  -- Whichever calls raise: after `insert_job` no transaction is open, and one that raised, the
  -- ValueError for a missing kind included, has committed nothing, unless the error is that of a
  -- commit which took effect before it raised.
  pub insert_job-Settled :
      (digest : Json → String) (s : Spec) → Settled c.committed (insert_job digest now s c)
  unfolding insert_job
  insert_job-Settled digest s = elim (Bool-cases (str_eq (strip s.kind) "")) [
    | inl t ↦ rw t (closed, refl)
    | inr f ↦ rw f (
        undo-Settled {A = Option ℕ} c.committed _ (
          executed-CommitsLast c.committed (λ row. commit >> pure (id_of row))
            (λ u d q. committing-pure (id_of u) c.committed d (next_fault d.faults) q)
            (insert_row (λ i.
              new_row now i (strip s.kind) (body_of s.payload) (digest (body_of s.payload))
                s.priority s.max_attempts))
            c (next_fault c.faults) refl))
  ]
