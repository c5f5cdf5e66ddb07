-- ===== src/RateLimit/Rate.antt =====
-- The rate that the bucket enforces over a run of calls, and when a caller is served.
use bifrost_platform_plugin.Prelude.{
  ℕ, zero, suc, ◌+◌, ◌-◌, ◌*◌, ◌≤◌, ◌<◌, ◌≡◌, refl, ap, List, [], ◌∷◌, true, false, leb, arith,
  Bool-cases, inl, inr, le→leb, lt→not_leb,
}
use bifrost_platform_plugin.Prelude.Int.{pos}
use bifrost_platform_plugin.RateLimit.{
  TokenBucket, Ask, Turn, attempt, meanwhile, refill, Acquired, granted, waiting, acquire_loop,
  acquire, token,
}
use bifrost_platform_plugin.RateLimit.Bound.{IsFilled, Monotone, Paid, acquire_loop-Paid, gap}

-- One caller after another, each asking for one token, as the client does: the number that were
-- served, and the bucket that is left when the turns are used up. Callers beside them may take
-- tokens within the turns.
unfoldable pub serve : ℕ → List Turn → TokenBucket → ℕ × TokenBucket
serve zero turns b = (0, b)
serve (suc n) turns b = elim (acquire (pos token) turns b) [
  | granted w b' rest ↦ let r = serve n rest b' in (suc r.0, r.1)
  | waiting w b' ↦ (0, b')
]

acquire-Paid :
    (turns : List Turn) (b : TokenBucket)
    → Monotone b.updated_at turns
    → Paid token b (acquire (pos token) turns b)
unfolding acquire
acquire-Paid turns b h = acquire_loop-Paid token 0 turns b h

-- One call in a run of `n + 1`, and the calls after it.
after_first : ℕ → Acquired → ℕ × TokenBucket
after_first n (granted w b' rest) = (suc (serve n rest b').0, (serve n rest b').1)
after_first n (waiting w b') = (0, b')

serve-suc :
    (n : ℕ) (turns : List Turn) (b : TokenBucket)
    → serve (suc n) turns b ≡ after_first n (acquire (pos token) turns b)
unfolding serve
serve-suc n turns b = go (acquire (pos token) turns b) refl
  where
    go : (p : Acquired) → acquire (pos token) turns b ≡ p → serve (suc n) turns b ≡ after_first n p
    go (granted w b' rest) e = rw (e, serve) (unfold after_first in refl)
    go (waiting w b') e = rw (e, serve) (unfold after_first in refl)

abbrev Conserved : TokenBucket → ℕ × TokenBucket → Type 0
Conserved b r =
    (r.0 * token + r.1.tokens ≤ b.tokens + (r.1.updated_at - b.updated_at) * b.rate)
    × (b.updated_at ≤ r.1.updated_at)

after_first-Conserved :
    (n : ℕ) (b : TokenBucket) (p : Acquired)
    → ((turns : List Turn) (c : TokenBucket)
        → Monotone c.updated_at turns
        → Conserved c (serve n turns c))
    → Paid token b p
    → Conserved b (after_first n p)
unfolding after_first
after_first-Conserved n b (granted w c rest) ih (paid, mono, rate, room, clock) =
    let (kept, later) = ih rest c clock in
    let end = (serve n rest c).1.updated_at in
    (
      omega (
        arith,
        gap b.updated_at c.updated_at end b.rate mono later,
        ap (λ (v : ℕ). (end - c.updated_at) * v) rate,
      ),
      omega arith,
    )
after_first-Conserved n b (waiting w c) ih (paid, mono, rate, room) = (omega arith, mono)

serve-Conserved :
    (n : ℕ) (turns : List Turn) (b : TokenBucket)
    → Monotone b.updated_at turns
    → Conserved b (serve n turns b)
serve-Conserved zero turns b h = unfold serve in (omega arith, omega arith)
serve-Conserved (suc n) turns b h = rw serve-suc (
    after_first-Conserved n b (acquire (pos token) turns b) (serve-Conserved n)
      (acquire-Paid turns b h))

-- With a clock that never goes back, and from a bucket that is not over full: the tokens that any
-- number of callers is granted are at most the capacity and what the rate gives in the time from
-- the bucket's last update to the last call, whatever other callers take in between.
pub serve_rate :
    (n : ℕ) (turns : List Turn) (b : TokenBucket)
    → IsFilled b
    → Monotone b.updated_at turns
    → (serve n turns b).0 * token
      ≤ b.capacity + ((serve n turns b).1.updated_at - b.updated_at) * b.rate
serve_rate n turns b f h = omega (arith, serve-Conserved n turns b h, f.within)

attempt-capacity :
    (a : Ask) (b : TokenBucket)
    → ((attempt a b).capacity ≡ b.capacity) × ((attempt a b).rate ≡ b.rate)
unfolding attempt refill
attempt-capacity a b = elim (Bool-cases (leb a.cost (refill a.now b).tokens)) [
  | inl t ↦ rw t (refl, refl)
  | inr n ↦ rw n (refl, refl)
]

meanwhile-capacity :
    (asks : List Ask) (b : TokenBucket)
    → ((meanwhile asks b).capacity ≡ b.capacity) × ((meanwhile asks b).rate ≡ b.rate)
unfolding meanwhile
meanwhile-capacity [] b = (refl, refl)
meanwhile-capacity (a ∷ asks) b =
    let (c, r) = meanwhile-capacity asks (attempt a b) in
    let (c', r') = attempt-capacity a b in (omega arith, omega arith)

-- A caller that asks for no more than the capacity is served at its first reading of the clock,
-- whatever others took before it, or at the second, where no other caller takes a turn during the
-- sleep between the two and that sleep lasts as long as was asked.
pub acquire_served :
    (cost later : ℕ) (turn : Turn) (rest : List Turn) (b : TokenBucket)
    → 0 < cost
    → cost ≤ b.capacity
    → cost - (refill turn.now (meanwhile turn.others b)).tokens ≤ (later - turn.now) * b.rate
    → (waited : ℕ) × (b' : TokenBucket) × (left : List Turn) × (acquire
          (pos cost)
          (turn ∷ record { others = []; now = later } ∷ rest)
          b
        ≡ granted waited b' left)
unfolding acquire acquire_loop meanwhile
acquire_served zero later turn rest b p room slept = absurd (omega arith)
acquire_served (suc n) later turn rest b p room slept =
    let cost = suc n in
    let m = meanwhile turn.others b in
    let (keeps, rate) = meanwhile-capacity turn.others b in
    let c = refill turn.now m in
    let second : Turn = record { others = []; now = later } in
    elim (Bool-cases (leb cost c.tokens)) [
      | inl t ↦ (0, record c { tokens = c.tokens - cost }, second ∷ rest, rw t refl)
      | inr f ↦
          let times = ap (λ (v : ℕ). (later - turn.now) * v) rate in
          let enough : leb cost (refill later c).tokens ≡ true =
            le→leb cost (refill later c).tokens (unfold refill in omega arith) in
          let d = refill later c in
          (0 + (cost - c.tokens), record d { tokens = d.tokens - cost }, rest, rw (f, enough) refl)
    ]

starves :
    (cost : ℕ) (turns : List Turn) (w : ℕ) (b : TokenBucket)
    → b.capacity < cost
    → (waited : ℕ) × (b' : TokenBucket) × (acquire_loop cost w turns b ≡ waiting waited b')
unfolding acquire_loop
starves cost [] w b h = (w, b, refl)
starves cost (turn ∷ turns) w b h =
    let m = meanwhile turn.others b in
    let (keeps, rate) = meanwhile-capacity turn.others b in
    let c = refill turn.now m in
    let short : leb cost c.tokens ≡ false =
      lt→not_leb c.tokens cost (unfold refill in omega arith) in
    let (waited, left, e) =
      starves cost turns (w + (cost - c.tokens)) c (unfold refill in omega arith) in
    (waited, left, rw short e)

-- A caller that asks for more than the capacity waits for ever.
pub acquire_starves :
    (cost : ℕ) (turns : List Turn) (b : TokenBucket)
    → b.capacity < cost
    → (waited : ℕ) × (b' : TokenBucket) × (acquire (pos cost) turns b ≡ waiting waited b')
unfolding acquire
acquire_starves zero turns b h = absurd (omega arith)
acquire_starves (suc n) turns b h = starves (suc n) turns 0 b h
