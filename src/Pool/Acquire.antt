-- ===== src/Pool/Acquire.antt =====
-- What `acquire` and `release` of worker/pool.py do as a whole.
use bifrost_platform_plugin.Prelude.{
  ℕ, ◌≤◌, ◌≡◌, refl, sym, ap, ◌∙◌, Option, none, some, List, [], ◌∷◌, Bool, true, false, not, ◌||◌,
  first, length, leb, if◌then◌else◌, arith, Bool-cases, inl, inr,
}
use bifrost_platform_plugin.Pool.{
  ConnectionPool, popleft, close_quietly, connect_new, put_back, acquire_loop, acquire, release,
}
use bifrost_platform_plugin.Pool.Owners.{
  count, Sound, pops, closes, connects, puts_back, Reach, stay, next, Reach-Sound,
  count-without_own,
}

popleft-idle :
    (p : ConnectionPool) (c : ℕ) (cs : List ℕ)
    → p.idle ≡ c ∷ cs
    → popleft p ≡ record p { idle = cs; held = c ∷ p.held }
unfolding popleft
popleft-idle p c cs e = rw e refl

Reach-then : {p q r : ConnectionPool} → Reach p q → Reach q r → Reach p r
Reach-then h stay = h
Reach-then h (next k s) = next (Reach-then h k) s

acquire_loop-Reach :
    (broken : ℕ → Bool) (up : Bool) (cs : List ℕ) (p : ConnectionPool)
    → Reach p (acquire_loop broken up cs p).1
unfolding acquire_loop
acquire_loop-Reach broken up [] p = next stay (connects up)
acquire_loop-Reach broken up (c ∷ cs) p = elim (Bool-cases (broken c)) [
  | inl t ↦ rw t (
      Reach-then (next (next stay pops) (closes c))
        (acquire_loop-Reach broken up cs (close_quietly c (popleft p))))
  | inr f ↦ rw f (next stay pops)
]

-- What `acquire` hands out, by the connections that were idle when it looked.
unfoldable pub handed : (ℕ → Bool) → Bool → List ℕ → ℕ → Option ℕ
handed broken up cs fresh = elim (first (λ c. not (broken c)) cs) [
  | some c ↦ some c
  | none ↦ if up then some fresh else none
]

-- `handed` with what was read of the first connection.
abbrev handed_if : (ℕ → Bool) → Bool → ℕ → List ℕ → ℕ → Bool → Option ℕ
handed_if broken up c cs fresh b = elim (if not b then some c else first (λ c. not (broken c)) cs) [
  | some c ↦ some c
  | none ↦ if up then some fresh else none
]

handed-broken :
    (broken : ℕ → Bool) (up : Bool) (c : ℕ) (cs : List ℕ) (fresh : ℕ)
    → broken c ≡ true
    → handed broken up (c ∷ cs) fresh ≡ handed broken up cs fresh
unfolding handed
handed-broken broken up c cs fresh t = ap (handed_if broken up c cs fresh) t

handed-open :
    (broken : ℕ → Bool) (up : Bool) (c : ℕ) (cs : List ℕ) (fresh : ℕ)
    → broken c ≡ false
    → handed broken up (c ∷ cs) fresh ≡ some c
unfolding handed
handed-open broken up c cs fresh f = ap (handed_if broken up c cs fresh) f

acquire_loop-handed :
    (broken : ℕ → Bool) (up : Bool) (cs : List ℕ) (p : ConnectionPool)
    → p.idle ≡ cs
    → (acquire_loop broken up cs p).0 ≡ handed broken up cs p.opened
unfolding acquire_loop close_quietly connect_new handed
acquire_loop-handed broken true [] p e = refl
acquire_loop-handed broken false [] p e = refl
acquire_loop-handed broken up (c ∷ cs) p e = elim (Bool-cases (broken c)) [
  | inl t ↦
      let popped = popleft-idle p c cs e in
      let same_idle : (close_quietly c (popleft p)).idle ≡ cs = ap (λ q. q.idle) popped in
      let same_opened : (close_quietly c (popleft p)).opened ≡ p.opened =
        ap (λ q. q.opened) popped in
      rw t (
        acquire_loop-handed broken up cs (close_quietly c (popleft p)) same_idle
        ∙ ap (handed broken up cs) same_opened
        ∙ sym (handed-broken broken up c cs p.opened t))
  | inr f ↦ rw f (sym (handed-open broken up c cs p.opened f))
]

-- `acquire` hands out the first idle connection that is not broken, and opens one only where there
-- is none; it raises exactly if it had to open one and could not. All it does to the pool are steps
-- that `Reach` allows.
pub acquire-handed :
    (broken : ℕ → Bool) (up : Bool) (p : ConnectionPool)
    → ((acquire broken up p).0 ≡ handed broken up p.idle p.opened) × Reach p (acquire broken up p).1
unfolding acquire
acquire-handed broken up p =
    (acquire_loop-handed broken up p.idle p refl, acquire_loop-Reach broken up p.idle p)

first_cons :
    (broken : ℕ → Bool) (up : Bool) (cs : List ℕ) (p : ConnectionPool) (c : ℕ)
    → p.idle ≡ cs
    → (acquire_loop broken up cs p).0 ≡ some c
    → 1 ≤ count c (acquire_loop broken up cs p).1.held
unfolding acquire_loop connect_new count close_quietly
first_cons broken false [] p c e h = ground (arith, h)
first_cons broken true [] p c e h = ground (arith, h)
first_cons broken up (d ∷ cs) p c e h = elim (Bool-cases (broken d)) [
  | inl t ↦
      let same_idle : (close_quietly d (popleft p)).idle ≡ cs =
        ap (λ q. q.idle) (popleft-idle p d cs e) in
      rw t (first_cons broken up cs (close_quietly d (popleft p)) c same_idle (rw t at h))
  | inr f ↦
      let own : (popleft p).held ≡ d ∷ p.held = ap (λ q. q.held) (popleft-idle p d cs e) in
      rw f (rw own (ground (arith, rw f at h)))
]

-- The connection that `acquire` hands out of a sound pool is the caller's alone: exactly one thread
-- owns it, and it is not idle.
pub acquire_exclusive :
    (broken : ℕ → Bool) (up : Bool) (p : ConnectionPool) (c : ℕ)
    → Sound p
    → (acquire broken up p).0 ≡ some c
    → (count c (acquire broken up p).1.held ≡ 1) × (count c (acquire broken up p).1.idle ≡ 0)
unfolding acquire
acquire_exclusive broken up p c s h =
    let q = (acquire broken up p).1 in
    let one = (Reach-Sound p q (acquire_loop-Reach broken up p.idle p) s).exclusive c in
    let own = first_cons broken up p.idle p c refl h in
    (omega (arith, one, own), omega (arith, one, own))

-- `release` by the owner gives the connection up in every case: afterwards no thread owns it, it is
-- idle only if it is to be reused, is not broken and was reset, and all that was done to the pool
-- are steps that `Reach` allows.
pub release_gives_up :
    (broken : ℕ → Bool) (resets reuse : Bool) (p : ConnectionPool) (c : ℕ)
    → Sound p
    → 1 ≤ count c p.held
    → (count c (release broken resets reuse (some c) p).held ≡ 0)
      × (1 ≤ count c (release broken resets reuse (some c) p).idle
          → (reuse ≡ true) × (broken c ≡ false) × (resets ≡ true))
      × Reach p (release broken resets reuse (some c) p)
unfolding release close_quietly put_back
release_gives_up broken resets reuse p c s h =
    let none_idle : count c p.idle ≡ 0 = omega (arith, s.exclusive c, h) in
    let gone = count-without_own c p.held in
    elim (Bool-cases (not reuse || broken c || not resets)) [
      | inl t ↦ rw t (gone, λ k. absurd (omega (arith, k, none_idle)), next stay (closes c))
      | inr f ↦
          let good : (reuse ≡ true) × (broken c ≡ false) × (resets ≡ true) = ground (arith, f) in
          let step : Reach p (put_back c p).1 = next stay (puts_back c h) in
          elim (Bool-cases (leb p.size (length p.idle))) [
            | inl full ↦ rw f (rw full (gone, λ k. good, next stay (closes c)))
            | inr room ↦ rw f (rw room (gone, λ k. good, rw room at step))
          ]
    ]
