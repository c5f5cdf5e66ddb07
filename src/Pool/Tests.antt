-- ===== src/Pool/Tests.antt =====
-- A pool of two connections of which the server has ended one.
use bifrost_platform_plugin.Prelude.{
  ℕ, ◌+◌, ◌≤◌, ◌≡◌, refl, some, [], ◌∷◌, Bool, true, length, ◌==◌, arith,
}
use bifrost_platform_plugin.Prelude.Int.{pos}
use bifrost_platform_plugin.Pool.{ConnectionPool, new_pool, acquire, connect_new, put_back}
use bifrost_platform_plugin.Pool.Owners.{
  count, Sound, stay, next, connects, puts_back, new_pool-Reach,
}
use bifrost_platform_plugin.Pool.Acquire.{acquire_exclusive}

abbrev ended : ℕ → Bool
ended c = c == 0

abbrev two_idle : ConnectionPool
two_idle = record { size = 2; idle = 0 ∷ 1 ∷ []; opened = 3; held = 2 ∷ [] }

two_idle-Sound : Sound two_idle
unfolding count
two_idle-Sound = record {
  exclusive = λ c. ground arith;
  numbered = λ c h. ground arith;
  bounded = omega arith;
}

skips_ended : (acquire ended true two_idle).0 ≡ some 1
unfolding acquire
skips_ended = refl

abbrev one_put_back : ConnectionPool
one_put_back = (put_back 0 (connect_new true (new_pool (pos 2))).1).1

new_pool-Reach_example :
    ((c : ℕ) → count c one_put_back.idle + count c one_put_back.held ≤ 1)
    × (length one_put_back.idle ≤ one_put_back.size)
unfolding count new_pool connect_new
new_pool-Reach_example =
    new_pool-Reach (pos 2) one_put_back
      (next (next stay (connects true)) (puts_back 0 (omega arith)))

acquire_exclusive_example :
    (count 1 (acquire ended true two_idle).1.held ≡ 1)
    × (count 1 (acquire ended true two_idle).1.idle ≡ 0)
acquire_exclusive_example = acquire_exclusive ended true two_idle 1 two_idle-Sound skips_ended
