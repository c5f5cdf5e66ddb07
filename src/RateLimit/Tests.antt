-- ===== src/RateLimit/Tests.antt =====
-- A bucket of the basic tier, and the theorems at it.
use bifrost_platform_plugin.Prelude.{ℕ, ◌+◌, ◌*◌, ◌-◌, ◌≤◌, ◌≡◌, refl, List, [], ◌∷◌, arith}
use bifrost_platform_plugin.Prelude.Int.{pos}
use bifrost_platform_plugin.RateLimit.{
  TokenBucket, Turn, meanwhile, granted, acquire, token, refill,
}
use bifrost_platform_plugin.RateLimit.Bound.{IsFilled}
use bifrost_platform_plugin.RateLimit.Rate.{serve, serve_rate, acquire_served}

abbrev basic : TokenBucket
basic = record { rate = 5; capacity = 5 * token; tokens = 5 * token; updated_at = 0 }

basic-IsFilled : IsFilled basic
basic-IsFilled = record { runs = omega arith; holds = omega arith; within = omega arith }

abbrev alone : ℕ → Turn
alone now = record { others = []; now = now }

-- Seven requests at once, the third after a request of another caller: four are granted, and the
-- fifth waits for twelve seconds.
abbrev turns : List Turn
turns =
    alone 0
    ∷ alone 0
    ∷ record { others = record { now = 1; cost = token } ∷ []; now = 1 }
    ∷ alone 1
    ∷ alone 3
    ∷ alone 12000003
    ∷ alone 12000004
    ∷ []

serve_seven : (serve 7 turns basic).0 ≡ 5
unfolding serve acquire
serve_seven = refl

serve_rate_example :
    (serve 7 turns basic).0 * token ≤ 5 * token + ((serve 7 turns basic).1.updated_at - 0) * 5
serve_rate_example = serve_rate 7 turns basic basic-IsFilled (omega arith)

abbrev drained : TokenBucket
drained = record basic { tokens = token }

-- Another caller takes the last token first.
abbrev beaten : Turn
beaten = record { others = record { now = 0; cost = token } ∷ []; now = 0 }

acquire_served_example :
    (waited : ℕ) × (b' : TokenBucket) × (left : List Turn) × (acquire
        (pos token)
        (beaten ∷ alone 12000000 ∷ [])
        drained
      ≡ granted waited b' left)
acquire_served_example =
    acquire_served token 12000000 beaten [] drained (omega arith) (omega arith)
      (unfold refill in unfold meanwhile in omega arith)
