-- ===== src/RateLimit/Bounds.antt =====
-- The counters of the rate limiter (fairmq/tools/RateLimit.h).
use native.Mathlib.Nat.{le-div_iff_mul-le, div-mul-le_self}
use bachelor_fair_mq.Base.{
  ℕ, zero, suc, List, [], ◌∷◌, ◌*◌, ◌-◌, ◌/◌, ◌≤◌, ◌<◌, ltb, min, max, ◌+◌, ◌==◌, pos, true, some,
  ◌≡◌, refl, ap, sym, subst, ◌∙◌, ◌⊎◌, inl, inr, arith, Bool-cases,
}
use bachelor_fair_mq.RateLimit.{
  RateLimiter, second, min_skip_count, start, next_tw, restart, by_int, speed_up, slow_down, adjust,
  check_rate, maybe_sleep, maybe_sleeps,
}

-- A check is due in at least one iteration and at most a second of them, and not more often than
-- every five milliseconds; and only where it is due as often as that does the limiter sleep.
pub record IsLimited (r : RateLimiter) : Type 0 where
  pub remaining : ℕ
  pub count_down : r.count ≡ pos (suc remaining)
  pub due : remaining < r.skip_check_count
  pub at_least : min_skip_count (r.tw_req) ≤ r.skip_check_count
  pub at_most : r.skip_check_count ≤ second / r.tw_req
  pub sleeps : (r.ts ≡ 0) ⊎ (r.skip_check_count ≡ min_skip_count (r.tw_req))

min_skip_count-second : (t : ℕ) → 1 ≤ t → t ≤ second → min_skip_count t ≤ second / t
min_skip_count-second t p h =
    let one : 1 ≤ second / t = (le-div_iff_mul-le p).1 (omega (arith, h)) in
    let five : 5000000 / t ≤ second / t =
      (le-div_iff_mul-le p).1 (omega (arith, div-mul-le_self 5000000 t)) in
    omega (arith, one, five)

-- At three nanoseconds or more, the calls of a second are few enough for the computations with int.
Fits : RateLimiter → Type 0
Fits r = (min_skip_count (r.tw_req) ≤ second / r.tw_req) × (second / r.tw_req ≤ 333333333)

quotient-three : (q t : ℕ) → 3 ≤ t → q * t ≤ second → q ≤ 333333333
quotient-three q t h e = let more : q * 3 ≤ q * t = mul_le_mul q 3 t h in omega (arith, more, e)
  where
    mul_le_mul : (q a b : ℕ) → a ≤ b → q * a ≤ q * b
    mul_le_mul zero a b h = omega arith
    mul_le_mul (suc q) a b h = omega (arith, h, mul_le_mul q a b h)

second-three : (t : ℕ) → 3 ≤ t → second / t ≤ 333333333
second-three t h = quotient-three (second / t) t h (div-mul-le_self second t)

-- What a check leaves the counters at.
IsAdjusted : RateLimiter → RateLimiter → Type 0
IsAdjusted r s =
    (s.tw_req ≡ r.tw_req)
    × (min_skip_count (r.tw_req) ≤ s.skip_check_count)
    × (s.skip_check_count ≤ second / r.tw_req)
    × ((s.ts ≡ 0) ⊎ (s.skip_check_count ≡ min_skip_count (r.tw_req)))

by_int_small : (n : ℕ) (r : RateLimiter) → n < 2147483648 → by_int n r ≡ some r
by_int_small n r h = ground (arith, h)

speed_up-IsAdjusted :
    (r : RateLimiter)
    → Fits r
    → IsAdjusted r r
    → (s : RateLimiter) × (speed_up r ≡ some s) × IsAdjusted r s
unfolding IsAdjusted Fits
speed_up-IsAdjusted r (fits, small) (e, l, u, s) = elim (Bool-cases (ltb 0 r.ts)) [
  | inl b ↦ elim s [
    | inl z ↦ absurd (ground (arith, z, b))
    | inr q ↦ rw (speed_up, b) (_, refl, (refl, l, u, inr q))
  ]
  | inr b ↦
      let ok =
        by_int_small (r.skip_check_count * 5 + 3)
          (record r {
            skip_check_count = min (second / r.tw_req) ((r.skip_check_count * 5 + 3) / 4);
          })
          (omega (arith, u, small)) in
      rw (speed_up, b) (_, ok, (refl, omega (arith, l, fits), omega arith, inl (ground (arith, b))))
]

slow_down-IsAdjusted :
    (r : RateLimiter)
    → Fits r
    → IsAdjusted r r
    → (s : RateLimiter) × (slow_down r ≡ some s) × IsAdjusted r s
unfolding IsAdjusted Fits
slow_down-IsAdjusted r (fits, small) (e, l, u, s) =
    let least : ℕ = min_skip_count (r.tw_req) in
    elim (Bool-cases (ltb (min_skip_count (r.tw_req)) r.skip_check_count)) [
      | inr b ↦
          let q : r.skip_check_count ≡ min_skip_count (r.tw_req) = ground (arith, b, l) in
          let ok =
            by_int_small (r.skip_check_count * 7)
              (record r { ts = r.ts + (r.tw_req - r.tw) * (r.skip_check_count * 7) / 8 })
              (omega (arith, q)) in
          rw (slow_down, b) (_, ok, (refl, l, u, inr q))
      | inl b ↦ elim s [
        | inl z ↦
            let t : (r.ts == 0) ≡ true = ground (arith, z) in
            let ok =
              by_int_small (r.skip_check_count * 3)
                (record r { skip_check_count = max least (r.skip_check_count * 3 / 4) })
                (omega (arith, u, small)) in
            rw (slow_down, b, t) (_, ok, (refl, omega arith, omega (arith, u, fits), inl z))
        | inr q ↦ absurd (ground (arith, q, b))
      ]
    ]

adjust-IsAdjusted :
    (r : RateLimiter)
    → Fits r
    → IsAdjusted r r
    → (s : RateLimiter) × (adjust r ≡ some s) × IsAdjusted r s
adjust-IsAdjusted r fits a = elim (Bool-cases (ltb (r.tw_req * 65 / 64) r.tw)) [
  | inl b ↦ rw (adjust, b) (speed_up-IsAdjusted r fits a)
  | inr b ↦ elim (Bool-cases (ltb r.tw (r.tw_req * 63 / 64))) [
    | inl c ↦ rw (adjust, b, c) (slow_down-IsAdjusted r fits a)
    | inr c ↦ (r, rw (adjust, b, c) refl, a)
  ]
]

check_rate-IsLimited :
    (passed : ℕ) (r : RateLimiter)
    → 3 ≤ r.tw_req
    → r.tw_req ≤ second
    → IsLimited r
    → (s : RateLimiter) × (check_rate passed r ≡ some s) × (s.tw_req ≡ r.tw_req) × IsLimited s
unfolding IsAdjusted Fits
check_rate-IsLimited passed r p h i =
    let fits : Fits r =
      (min_skip_count-second (r.tw_req) (omega (arith, p)) h, second-three (r.tw_req) p) in
    let r1 : RateLimiter = record r { tw = next_tw (r.tw) passed (r.skip_check_count) } in
    let (s, e, adjusted) = adjust-IsAdjusted r1 fits (refl, i.at_least, i.at_most, i.sleeps) in
    let (q, l, u, z) = adjusted in
    (
      restart s,
      rw (check_rate, e) refl,
      q,
      record {
        remaining = s.skip_check_count - 1;
        count_down = ap pos (omega (arith, l));
        due = omega (arith, l);
        at_least = subst (λ t. min_skip_count t ≤ s.skip_check_count) (sym q) l;
        at_most = subst (λ t. s.skip_check_count ≤ second / t) (sym q) u;
        sleeps = subst (λ t. (s.ts ≡ 0) ⊎ (s.skip_check_count ≡ min_skip_count t)) (sym q) z;
      },
    )

maybe_sleep-IsLimited :
    (passed n : ℕ) (r : RateLimiter)
    → r.count ≡ pos (suc n)
    → 3 ≤ r.tw_req
    → r.tw_req ≤ second
    → IsLimited r
    → (s : RateLimiter) × (maybe_sleep passed r ≡ some s) × (s.tw_req ≡ r.tw_req) × IsLimited s
unfolding maybe_sleep
maybe_sleep-IsLimited passed zero r c p h i =
    rw (maybe_sleep, c) (check_rate-IsLimited passed r p h i)
maybe_sleep-IsLimited passed (suc k) r c p h i =
    let same : suc (suc k) ≡ suc (i.remaining) = pos-injective (sym c ∙ i.count_down) in
    rw (maybe_sleep, c)
      (
        record r { count = pos (suc k) },
        refl,
        refl,
        record {
          remaining = k;
          count_down = refl;
          due = omega (arith, i.due, same);
          at_least = i.at_least;
          at_most = i.at_most;
          sleeps = i.sleeps;
        },
      )
  where
    pos-injective : {a b : ℕ} → pos a ≡ pos b → a ≡ b
    pos-injective e = cc

maybe_sleeps-IsLimited :
    (ds : List ℕ) (r : RateLimiter)
    → 3 ≤ r.tw_req
    → r.tw_req ≤ second
    → IsLimited r
    → (s : RateLimiter) × (maybe_sleeps ds r ≡ some s) × IsLimited s
unfolding maybe_sleeps
maybe_sleeps-IsLimited [] r p h i = (r, refl, i)
maybe_sleeps-IsLimited (d ∷ ds) r p h i =
    let (s, e, q, j) = maybe_sleep-IsLimited d (i.remaining) r (i.count_down) p h i in
    rw (maybe_sleeps, e) (maybe_sleeps-IsLimited ds s (omega (arith, q, p)) (omega (arith, q, h)) j)

-- With a requested duration of at least three nanoseconds and at most a second, no assertion of
-- maybe_sleep fails and no int overflows in any sequence of calls, and behind it a check of the rate is still to come: within as many calls as is due, which are at
-- most those of a second, and at least those of five milliseconds or one; and only where they are
-- those the limiter sleeps.
pub start-IsLimited :
    (tw_req : ℕ) (ds : List ℕ)
    → 3 ≤ tw_req
    → tw_req ≤ second
    → (s : RateLimiter) × (maybe_sleeps ds (start tw_req) ≡ some s) × IsLimited s
unfolding start
start-IsLimited tw_req ds p h = maybe_sleeps-IsLimited ds (start tw_req) p h (record {
  remaining = min_skip_count tw_req - 1;
  count_down = ap pos (omega arith);
  due = omega arith;
  at_least = omega arith;
  at_most = min_skip_count-second tw_req (omega (arith, p)) h;
  sleeps = inl refl;
})
