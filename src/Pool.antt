-- ===== src/Pool.antt =====
-- worker/pool.py: the connections of a worker that are reused across its jobs. A connection is
-- named by the number of its opening. `held` holds the connections that a thread owns, between
-- `acquire` and `release` and inside them. The lock protects `popleft`, `put_back` and `close_idle`:
-- each of these is one step, and the steps of the threads may come in any order.
pub mod Owners
pub mod Acquire
mod Tests
use bifrost_platform_plugin.Prelude.{
  ℕ, zero, suc, Option, none, some, List, [], ◌∷◌, ◌++◌, Bool, true, false, not, ◌||◌, keep, length,
  leb, ◌==◌, if◌then◌else◌, max,
}
use bifrost_platform_plugin.Prelude.Int.{ℤ, pos, negsuc}

pub record ConnectionPool : Type 0 where
  pub size : ℕ
  pub idle : List ℕ
  pub opened : ℕ
  pub held : List ℕ

-- max(1, int(size))
unfoldable pub new_pool : ℤ → ConnectionPool
new_pool (pos n) = record { size = max 1 n; idle = []; opened = 0; held = [] }
new_pool (negsuc n) = record { size = 1; idle = []; opened = 0; held = [] }

abbrev pub without : ℕ → List ℕ → List ℕ
without c xs = keep (λ x. not (x == c)) xs

-- The first idle connection becomes the caller's.
unfoldable pub popleft : ConnectionPool → ConnectionPool
popleft p = elim p.idle [ [] ↦ p | c ∷ cs ↦ record p { idle = cs; held = c ∷ p.held } ]

-- `_close_quietly` of a connection that the caller owns.
unfoldable pub close_quietly : ℕ → ConnectionPool → ConnectionPool
close_quietly c p = record p { held = without c p.held }

-- `self._opened += 1; return self._connect()`. None where `connect` raised.
unfoldable pub connect_new : Bool → ConnectionPool → Option ℕ × ConnectionPool
connect_new true p = (some p.opened, record p { opened = suc p.opened; held = p.opened ∷ p.held })
connect_new false p = (none, record p { opened = suc p.opened })

-- The locked part of `release`: true where the connection is a spare.
unfoldable pub put_back : ℕ → ConnectionPool → Bool × ConnectionPool
put_back c p =
    if leb p.size (length p.idle)
    then (true, p)
    else (false, record p { idle = p.idle ++ c ∷ []; held = without c p.held })

unfoldable pub close_idle : ConnectionPool → ConnectionPool
close_idle p = record p { idle = [] }

-- The `while True` of `acquire`, over the connections that are idle. `broken` is what
-- `_is_broken` reads of each.
unfoldable pub acquire_loop :
    (ℕ → Bool) → Bool → List ℕ → ConnectionPool → Option ℕ × ConnectionPool
unfolding popleft close_quietly connect_new
acquire_loop broken connects [] p = connect_new connects p
acquire_loop broken connects (c ∷ cs) p =
    let rest = acquire_loop broken connects cs (close_quietly c (popleft p)) in
    if broken c then rest else (some c, popleft p)

unfoldable pub acquire : (ℕ → Bool) → Bool → ConnectionPool → Option ℕ × ConnectionPool
unfolding acquire_loop
acquire broken connects p = acquire_loop broken connects p.idle p

-- `resets` is what `_reset` returns.
unfoldable pub release : (ℕ → Bool) → Bool → Bool → Option ℕ → ConnectionPool → ConnectionPool
unfolding put_back close_quietly
release broken resets reuse none p = p
release broken resets reuse (some c) p =
    let (spare, q) = put_back c p in
    if not reuse || broken c || not resets
    then close_quietly c p
    else if spare
    then close_quietly c q
    else q
