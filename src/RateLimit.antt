-- ===== src/RateLimit.antt =====
-- The rate limiter of loops (fairmq/tools/RateLimit.h). Durations are numbers of nanoseconds, which
-- the code keeps from being negative and which are taken not to overflow their 64 bits; the time that
-- has passed at each check is given. The counts are of type int.
mod Bounds
mod Tests
use bachelor_fair_mq.Base.{
  ℕ, zero, suc, List, [], ◌∷◌, ◌+◌, ◌*◌, ◌-◌, ◌/◌, ◌^◌, min, max, ltb, ◌==◌, ℤ, pos, negsuc, Bool,
  true, false, if◌then◌else◌, Option, none, some,
}

pub record RateLimiter : Type 0 where
  pub tw : ℕ
  pub ts : ℕ
  pub tw_req : ℕ
  pub count : ℤ
  pub skip_check_count : ℕ

abbrev pub second : ℕ
second = 1000000000

-- Five milliseconds of iterations, and at least one.
abbrev pub min_skip_count : ℕ → ℕ
min_skip_count tw_req = max 1 (5000000 / tw_req)

-- The constructor, with the requested duration.
unfoldable pub start : ℕ → RateLimiter
start tw_req = record {
  tw = 0;
  ts = 0;
  tw_req = tw_req;
  count = pos (min_skip_count tw_req);
  skip_check_count = min_skip_count tw_req;
}

abbrev pub next_tw : ℕ → ℕ → ℕ → ℕ
next_tw tw passed skip = if tw == 0 then passed / skip else (1 * tw + 3 * passed / skip) / 4

abbrev pub restart : RateLimiter → RateLimiter
restart r = record r { count = pos (r.skip_check_count) }

-- What is computed by way of an int: none where that overflows, which C++ leaves undefined.
abbrev pub by_int : ℕ → RateLimiter → Option RateLimiter
by_int n r = if ltb n (2 ^ 31) then some r else none

-- Too slow: sleep less, or check less often; max(0, …) is the subtraction that stops at 0.
abbrev pub speed_up : RateLimiter → Option RateLimiter
speed_up r =
    if ltb 0 r.ts
    then some (record r { ts = r.ts - (r.tw - r.tw_req) * r.skip_check_count * 1 / 2 })
    else by_int (r.skip_check_count * 5 + 3)
        (record r { skip_check_count = min (second / r.tw_req) ((r.skip_check_count * 5 + 3) / 4) })

-- Too fast: check more often, or sleep more; none also where the assertion fails.
abbrev pub slow_down : RateLimiter → Option RateLimiter
slow_down r =
    let least = min_skip_count (r.tw_req) in
    if ltb least r.skip_check_count
    then if r.ts == 0
      then by_int (r.skip_check_count * 3)
          (record r { skip_check_count = max least (r.skip_check_count * 3 / 4) })
      else none
    else by_int (r.skip_check_count * 7)
        (record r { ts = r.ts + (r.tw_req - r.tw) * (r.skip_check_count * 7) / 8 })

abbrev pub adjust : RateLimiter → Option RateLimiter
adjust r =
    if ltb (r.tw_req * 65 / 64) r.tw
    then speed_up r
    else if ltb r.tw (r.tw_req * 63 / 64)
    then slow_down r
    else some r

abbrev pub restarted : Option RateLimiter → Option RateLimiter
restarted none = none
restarted (some r) = some (restart r)

abbrev pub check_rate : ℕ → RateLimiter → Option RateLimiter
check_rate passed r =
    restarted (adjust (record r { tw = next_tw (r.tw) passed (r.skip_check_count) }))

-- maybe_sleep: the check is made where the count comes down to 0.
unfoldable pub maybe_sleep : ℕ → RateLimiter → Option RateLimiter
maybe_sleep passed r = elim (r.count) [
  | pos n ↦ elim n [
    | zero ↦ some (record r { count = negsuc 0 })
    | suc m ↦ elim m [
      | zero ↦ check_rate passed r
      | suc k ↦ some (record r { count = pos (suc k) })
    ]
  ]
  | negsuc n ↦ some (record r { count = negsuc (suc n) })
]

-- A sequence of calls.
unfoldable pub maybe_sleeps : List ℕ → RateLimiter → Option RateLimiter
maybe_sleeps [] r = some r
maybe_sleeps (d ∷ ds) r = elim (maybe_sleep d r) [ none ↦ none | some s ↦ maybe_sleeps ds s ]
