-- ===== src/RateLimit/Tests.antt =====
-- A limiter of 100 iterations in a second.
use bachelor_fair_mq.Base.{ℕ, ◌≡◌, refl, [], ◌∷◌, some, negsuc, arith}
use bachelor_fair_mq.RateLimit.{RateLimiter, start, maybe_sleep, maybe_sleeps}
use bachelor_fair_mq.RateLimit.Bounds.{IsLimited, start-IsLimited}

-- Two iterations of a microsecond each.
start-IsLimited_example :
    (s : RateLimiter) × (maybe_sleeps (1000 ∷ 1000 ∷ []) (start 10000000) ≡ some s) × IsLimited s
start-IsLimited_example = start-IsLimited 10000000 (1000 ∷ 1000 ∷ []) (omega arith) (omega arith)

-- At one iteration in two seconds, a slow one leaves the count at 0, which the next call passes by.
abbrev two_seconds : ℕ
two_seconds = 2000000000

below_one :
    maybe_sleeps (3000000000 ∷ 3000000000 ∷ []) (start two_seconds)
    ≡ some (record {
      tw = 3000000000;
      ts = 0;
      tw_req = two_seconds;
      count = negsuc 0;
      skip_check_count = 0;
    })
unfolding maybe_sleeps maybe_sleep start
below_one = refl
