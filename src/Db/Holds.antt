-- ===== src/Db/Holds.antt =====
-- What holds of the working and of the committed state, along a body of database code: each rule
-- asks for it of the states that the step may leave.
use bifrost_platform_plugin.Prelude.{Bool, true, false, ◌≡◌, refl}
use bifrost_platform_plugin.Db.{
  Db, Conn, Outcome, return, raise, next_fault, later_faults, failed_commit, executed, accepted,
  tried, committing, and_then, undo, pure,
}

module _ {S : Type 0} (P : S → Type 0) where
  abbrev pub HoldsBoth : {A : Type 0} → Outcome A × Conn S → Type 0
  HoldsBoth p = P p.1.working × P p.1.committed

  pub undo-HoldsBoth : {A : Type 0} (p : Outcome A × Conn S) → HoldsBoth p → HoldsBoth (undo p)
  undo-HoldsBoth (return a, c) w = w
  undo-HoldsBoth (raise e, c) w = (w.1, w.1)

  failed-HoldsBoth :
      (c : Conn S) (late : Bool) → P c.working → P c.committed → HoldsBoth (failed_commit c late)
  failed-HoldsBoth c true w v = (w, w)
  failed-HoldsBoth c false w v = (w, v)

  failed-pure-HoldsBoth :
      {A : Type 0} (a : A) (c : Conn S) (late : Bool)
      → P c.working
      → P c.committed
      → HoldsBoth (and_then (λ _. pure a) (failed_commit c late))
  failed-pure-HoldsBoth a c true w v = (w, w)
  failed-pure-HoldsBoth a c false w v = (w, v)

  pub committing-HoldsBoth :
      (c : Conn S) (b : Bool) → P c.working → P c.committed → HoldsBoth (committing c b)
  committing-HoldsBoth c true w v =
      failed-HoldsBoth (record c { faults = later_faults c.faults }) (next_fault c.late) w v
  committing-HoldsBoth c false w v = (w, w)

  pub committing-pure-HoldsBoth :
      {A : Type 0} (a : A) (c : Conn S) (b : Bool)
      → P c.working
      → P c.committed
      → HoldsBoth (and_then (λ _. pure a) (committing c b))
  committing-pure-HoldsBoth a c true w v =
      failed-pure-HoldsBoth a (record c { faults = later_faults c.faults }) (next_fault c.late) w v
  committing-pure-HoldsBoth a c false w v = (w, w)

  module _ {A B : Type 0} (k : A → Db S B)
      (rest : (a : A) (d : Conn S) → P d.working → P d.committed → HoldsBoth (k a d)) where
    pub executed-HoldsBoth :
        (f : S → A × S) (c : Conn S) (b : Bool)
        → P c.working
        → P c.committed
        → P (f c.working).1
        → HoldsBoth (and_then k (executed f c b))
    executed-HoldsBoth f c true w v u = (w, v)
    executed-HoldsBoth f c false w v u = rest _ _ u v

    accepted-HoldsBoth :
        (c : Conn S) (o : Outcome (A × S))
        → P c.working
        → P c.committed
        → ((a : A) (t : S) → o ≡ return (a, t) → P t)
        → HoldsBoth (and_then k (accepted c o))
    accepted-HoldsBoth c (return p) w v u = rest _ _ (u p.0 p.1 refl) v
    accepted-HoldsBoth c (raise e) w v u = (w, v)

    pub tried-HoldsBoth :
        (f : S → Outcome (A × S)) (c : Conn S) (b : Bool)
        → P c.working
        → P c.committed
        → ((a : A) (t : S) → f c.working ≡ return (a, t) → P t)
        → HoldsBoth (and_then k (tried f c b))
    tried-HoldsBoth f c true w v u = (w, v)
    tried-HoldsBoth f c false w v u = accepted-HoldsBoth c (f c.working) w v u
