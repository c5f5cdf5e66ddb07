-- ===== src/Db.antt =====
-- A psycopg connection as the modules of the program use it: one transaction at a time over a
-- state `S`, statements that may raise, commit and rollback. The driver and the server are not
-- part of the repository: which call raises is an argument (`faults`), read one entry to a call.
-- A statement that raises changes nothing. A commit that raises may have taken effect before, as where
-- the connection is lost with the answer: `late` says it, one entry to a commit that raises. Its error
-- has a name of its own in the model; the program treats it as any other.
pub mod Ensures
pub mod Holds
use bifrost_platform_plugin.Prelude.{List, [], ◌∷◌, Bool, true, false}

pub data Fault : Type 0 where
  db_error late_error unique_violation value_error : Fault

pub data Outcome {ℓ} (A : Type ℓ) : Type ℓ where
  return : A → Outcome A
  raise : Fault → Outcome A

pub record Conn (S : Type 0) : Type 0 where
  pub committed : S
  pub working : S
  pub faults : List Bool
  pub late : List Bool

abbrev pub Db : Type 0 → Type 0 → Type 0
Db S A = Conn S → Outcome A × Conn S

-- A connection with no transaction open, on which no call raises.
abbrev pub calm : {S : Type 0} → S → Conn S
calm s = record { committed = s; working = s; faults = []; late = [] }

abbrev pub next_fault : List Bool → Bool
next_fault [] = false
next_fault (b ∷ bs) = b

abbrev pub later_faults : List Bool → List Bool
later_faults [] = []
later_faults (b ∷ bs) = bs

module _ {S A : Type 0} where
  abbrev pub pure : A → Db S A
  pure a c = (return a, c)

  abbrev pub throw : Fault → Db S A
  throw e c = (raise e, c)

  abbrev pub executed : (S → A × S) → Conn S → Bool → Outcome A × Conn S
  executed f c true = (raise db_error, record c { faults = later_faults c.faults })
  executed f c false = (
    return (f c.working).0,
    record c { working = (f c.working).1; faults = later_faults c.faults },
  )

  -- `cur.execute` of a statement that cannot fail by itself
  abbrev pub execute : (S → A × S) → Db S A
  execute f c = executed f c (next_fault c.faults)

  abbrev pub accepted : Conn S → Outcome (A × S) → Outcome A × Conn S
  accepted c (return p) = (return p.0, record c { working = p.1; faults = later_faults c.faults })
  accepted c (raise e) = (raise e, record c { faults = later_faults c.faults })

  abbrev pub tried : (S → Outcome (A × S)) → Conn S → Bool → Outcome A × Conn S
  tried f c true = (raise db_error, record c { faults = later_faults c.faults })
  tried f c false = accepted c (f c.working)

  -- `cur.execute` of a statement that the server may refuse by itself
  abbrev pub try_execute : (S → Outcome (A × S)) → Db S A
  try_execute f c = tried f c (next_fault c.faults)

  abbrev pub undo : Outcome A × Conn S → Outcome A × Conn S
  undo (return a, c) = (return a, c)
  undo (raise e, c) = (raise e, record c { working = c.committed })

  -- `except Exception: conn.rollback(); raise`
  abbrev pub or_rollback : Db S A → Db S A
  or_rollback m c = undo (m c)

abbrev pub failed_commit : {S : Type 0} → Conn S → Bool → Outcome (Unit {0}) × Conn S
failed_commit c true =
    (raise late_error, record c { committed = c.working; late = later_faults c.late })
failed_commit c false = (raise db_error, record c { late = later_faults c.late })

abbrev pub committing : {S : Type 0} → Conn S → Bool → Outcome (Unit {0}) × Conn S
committing c true = failed_commit (record c { faults = later_faults c.faults }) (next_fault c.late)
committing c false = (return tt, record c { committed = c.working; faults = later_faults c.faults })

abbrev pub commit : {S : Type 0} → Db S (Unit {0})
commit c = committing c (next_fault c.faults)

module _ {S A B : Type 0} where
  abbrev pub and_then : (A → Db S B) → Outcome A × Conn S → Outcome B × Conn S
  and_then f (return a, c) = f a c
  and_then f (raise e, c) = (raise e, c)

  infixl 5 ◌>>=◌ ◌>>◌
  abbrev pub ◌>>=◌ : Db S A → (A → Db S B) → Db S B
  ◌>>=◌ m f c = and_then f (m c)

  abbrev pub ◌>>◌ : Db S A → Db S B → Db S B
  m >> n = m >>= λ _. n
