-- ===== src/Archive/Steps.antt =====
-- What holds after a chain of calls: `Q` where it returns, `E` where it raises or the process dies.
use bifrost_platform_plugin.Prelude.{arith, ◌≢◌}
use bifrost_platform_plugin.Archive.{
  Signal, fine, fails, fails_late, dies, dies_late, Result, returned, raised, died, World, Act,
  and_then, caught, later, next, called, call,
}

module _ {A : Type 0} where
  abbrev pub Ending :
      {B : Type 0} → (World A → Type 0) → (B → World A → Type 0) → Result B × World A → Type 0
  Ending E Q (returned b, w) = Q b w
  Ending E Q (raised, w) = E w
  Ending E Q (died, w) = E w

  pub record Ends {B : Type 0} (E : World A → Type 0) (Q : B → World A → Type 0)
      (r : Result B × World A) : Type 0 where
    pub ending : Ending E Q r

  pub Ends-called :
      {E : World A → Type 0} {Q : Unit {0} → World A → Type 0}
      → (f : World A → World A) → (w : World A) → (s : Signal) → (s ≢ fine → E w)
      → (s ≢ fine → E (f w))
      → Q tt (f w)
      → Ends E Q (called f w s)
  Ends-called f w fine e e' q = record { ending = q }
  Ends-called f w fails e e' q = record { ending = e (λ eq. ground (arith, eq)) }
  Ends-called f w fails_late e e' q = record { ending = e' (λ eq. ground (arith, eq)) }
  Ends-called f w dies e e' q = record { ending = e (λ eq. ground (arith, eq)) }
  Ends-called f w dies_late e e' q = record { ending = e' (λ eq. ground (arith, eq)) }

  -- The world as a call finds it.
  abbrev pub after_call : World A → World A
  after_call w = record w { signals = later w.signals }

  pub Ends-call :
      {E : World A → Type 0} {Q : Unit {0} → World A → Type 0}
      → (f : World A → World A) → (w : World A) → (next w.signals ≢ fine → E (after_call w))
      → (next w.signals ≢ fine → E (f (after_call w)))
      → Q tt (f (after_call w))
      → Ends E Q (call f w)
  unfolding call
  Ends-call f w e e' q = Ends-called f (after_call w) (next w.signals) e e' q

  pub Ends-then :
      {B C : Type 0} {E : World A → Type 0} {Q : B → World A → Type 0} {R : C → World A → Type 0}
      → (k : B → Act A C) → (r : Result B × World A) → Ends E Q r
      → ((b : B) (w : World A) → Q b w → Ends E R (k b w))
      → Ends E R (and_then k r)
  Ends-then k (returned b, w) q go = go b w q.ending
  Ends-then k (raised, w) e go = record { ending = e.ending }
  Ends-then k (died, w) e go = record { ending = e.ending }

  pub Ends-caught :
      {B : Type 0} {E F : World A → Type 0} {Q : B → World A → Type 0}
      → (k : Act A B) → (r : Result B × World A) → Ends F Q r
      → ((w : World A) → F w → Ends E Q (k w))
      → ((w : World A) → F w → E w)
      → Ends E Q (caught k r)
  Ends-caught k (returned b, w) q handler weaker = record { ending = q.ending }
  Ends-caught k (raised, w) e handler weaker = handler w e.ending
  Ends-caught k (died, w) e handler weaker = record { ending = weaker w e.ending }

  pub Ends-returned :
      {B : Type 0} {E : World A → Type 0} {Q : B → World A → Type 0}
      → (b : B) → (w : World A) → Q b w
      → Ends E Q (returned b, w)
  Ends-returned b w q = record { ending = q }

  pub Ends-raised :
      {B : Type 0} {E : World A → Type 0} {Q : B → World A → Type 0}
      → (w : World A) → E w
      → Ends E Q (raised, w)
  Ends-raised w e = record { ending = e }

  pub Ends-died :
      {B : Type 0} {E : World A → Type 0} {Q : B → World A → Type 0}
      → (w : World A) → E w
      → Ends E Q (died, w)
  Ends-died w e = record { ending = e }

  -- A fact that no step touches.
  pub Ends-paired :
      {B : Type 0} {P : Type 0} {E : World A → Type 0} {Q : B → World A → Type 0}
      → (r : Result B × World A) → P
      → Ends E Q r
      → Ends E (λ b w. P × Q b w) r
  Ends-paired (returned b, w) p h = record { ending = (p, h.ending) }
  Ends-paired (raised, w) p h = record { ending = h.ending }
  Ends-paired (died, w) p h = record { ending = h.ending }

  pub Ends-weaker :
      {B : Type 0} {E F : World A → Type 0} {P Q : B → World A → Type 0}
      → (r : Result B × World A) → ((w : World A) → F w → E w)
      → ((b : B) (w : World A) → P b w → Q b w)
      → Ends F P r
      → Ends E Q r
  Ends-weaker (returned b, w) e q h = record { ending = q b w h.ending }
  Ends-weaker (raised, w) e q h = record { ending = e w h.ending }
  Ends-weaker (died, w) e q h = record { ending = e w h.ending }
