-- ===== src/Db/Ensures.antt =====
-- Rules for invariants of database code, one for each way to build it: what holds of the committed
-- and of the working state before a call holds after it, whichever calls of the driver raise, and a
-- value that is returned has its property.
use bifrost_platform_plugin.Prelude.{Bool, true, false}
use bifrost_platform_plugin.Db.{
  Db, Conn, Outcome, return, raise, Fault, pure, throw, execute, executed, next_fault, commit,
  committing, failed_commit, later_faults, or_rollback, undo, and_then, ◌>>=◌,
}

module _ {S : Type 0} (P : S → Type 0) where
  abbrev pub Both : Conn S → Type 0
  Both c = P c.working × P c.committed

  abbrev pub Returns : {A : Type 0} → (A → Type 0) → Outcome A → Type 0
  Returns Q (return a) = Q a
  Returns Q (raise e) = Unit

  unfoldable pub Ensures : {A : Type 0} → (A → Type 0) → Db S A → Type 0
  Ensures Q m = (c : Conn S) → Both c → Both (m c).1 × Returns Q (m c).0

  pub pure-Ensures : {A : Type 0} (Q : A → Type 0) (a : A) → Q a → Ensures Q (pure a)
  unfolding Ensures
  pure-Ensures Q a q c b = (b, q)

  pub throw-Ensures : {A : Type 0} (Q : A → Type 0) (e : Fault) → Ensures Q (throw e)
  unfolding Ensures
  throw-Ensures Q e c b = (b, tt)

  pub execute-Ensures :
      {A : Type 0} (Q : A → Type 0) (f : S → A × S)
      → ((s : S) → P s → P (f s).1 × Q (f s).0)
      → Ensures Q (execute f)
  unfolding Ensures
  execute-Ensures Q f h c b = of (next_fault c.faults)
    where
      of : (x : Bool) → Both (executed f c x).1 × Returns Q (executed f c x).0
      of true = (b, tt)
      of false = let r = h c.working b.0 in ((r.0, b.1), r.1)

  pub commit-Ensures : Ensures (λ _. Unit {0}) commit
  unfolding Ensures
  commit-Ensures c b = of (next_fault c.faults)
    where
      d : Conn S
      d = record c { faults = later_faults c.faults }

      failed :
          (x : Bool) → Both (failed_commit d x).1 × Returns (λ _. Unit {0}) (failed_commit d x).0
      failed true = ((b.0, b.0), tt)
      failed false = (b, tt)

      of : (x : Bool) → Both (committing c x).1 × Returns (λ _. Unit {0}) (committing c x).0
      of true = failed (next_fault c.late)
      of false = ((b.0, b.0), tt)

  pub bind-Ensures :
      {A B : Type 0} (Q : A → Type 0) (R : B → Type 0) (m : Db S A) (k : A → Db S B)
      → Ensures Q m
      → ((a : A) → Q a → Ensures R (k a))
      → Ensures R (m >>= k)
  unfolding Ensures
  bind-Ensures {A} {B} Q R m k h rest c b = of (m c) (h c b)
    where
      of :
          (p : Outcome A × Conn S)
          → Both p.1 × Returns Q p.0
          → Both (and_then k p).1 × Returns R (and_then k p).0
      of (return a, d) (both, q) = rest a q d both
      of (raise e, d) (both, q) = (both, tt)

  pub or_rollback-Ensures :
      {A : Type 0} (Q : A → Type 0) (m : Db S A) → Ensures Q m → Ensures Q (or_rollback m)
  unfolding Ensures
  or_rollback-Ensures {A} Q m h c b = of (m c) (h c b)
    where
      of :
          (p : Outcome A × Conn S)
          → Both p.1 × Returns Q p.0
          → Both (undo p).1 × Returns Q (undo p).0
      of (return a, d) r = r
      of (raise e, d) (both, q) = ((both.1, both.1), tt)
