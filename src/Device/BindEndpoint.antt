-- ===== src/Device/BindEndpoint.antt =====
-- FairMQDevice::BindEndpoint (fairmq/FairMQDevice.cxx). The socket's Bind, by the number of the call
-- and the endpoint, and the random ports, by the number of the attempt, are parameters.
use mathlib.Core.List.{append_assoc}
use native.Mathlib.Numerals.{add-one}
use bachelor_fair_mq.Base.{
  ℕ, zero, suc, ◌+◌, ◌≤◌, Bool, true, false, ltb, [], ◌∷◌, ◌++◌, Option, none, some, Text, take,
  length, rfind, rfind_last, contains, decimal, contains-decimal, if◌then◌else◌, ◌≡◌, refl, ap, ◌⊎◌,
  inl, inr, arith, Bool-cases, subst,
}

-- `rfind(":") + 1`, which is 0 where there is none.
abbrev pub port_position : Option ℕ → ℕ
port_position none = 0
port_position (some i) = i + 1

unfoldable pub replace_port : Text → ℕ → Text
replace_port endpoint port = take (port_position (rfind b':' endpoint)) endpoint ++ decimal port

-- The endpoint behind so many failures.
abbrev pub candidate : (ℕ → ℕ) → Text → ℕ → Text
candidate random_port endpoint zero = endpoint
candidate random_port endpoint (suc n) =
    replace_port (candidate random_port endpoint n) (random_port (suc n))

-- `bind`, `random_port`, and maxAttempts.
module _ (bind : ℕ → Text → Bool) (random_port : ℕ → ℕ) (max_attempts : ℕ) where
  -- The loop; none where the fuel does not suffice.
  unfoldable pub bind_attempts : ℕ → ℕ → Text → Option (Bool × Text)
  bind_attempts zero attempts endpoint = none
  bind_attempts (suc fuel) attempts endpoint =
      let rest =
        bind_attempts fuel (suc attempts) (replace_port endpoint (random_port (suc attempts))) in
      if bind attempts endpoint
      then some (true, endpoint)
      else if ltb max_attempts (suc attempts)
      then some (false, endpoint)
      else rest

  -- Each of the first so many candidates was refused.
  abbrev pub AllRefused : Text → ℕ → Type 0
  AllRefused endpoint zero = Unit {0}
  AllRefused endpoint (suc n) =
      AllRefused endpoint n × (bind n (candidate random_port endpoint n) ≡ false)

  -- What BindEndpoint returns.
  abbrev pub Bound : Text → Option (Bool × Text) → Type 0
  Bound endpoint o =
      ((n : ℕ) × (n ≤ max_attempts)
        × AllRefused endpoint n
        × (bind n (candidate random_port endpoint n) ≡ true)
        × (o ≡ some (true, candidate random_port endpoint n)))
      ⊎ (AllRefused endpoint (suc max_attempts)
          × (o ≡ some (false, candidate random_port endpoint max_attempts)))

  bind_attempts-Bound :
      (endpoint : Text) (fuel n : ℕ)
      → n + fuel ≡ max_attempts + 1
      → 1 ≤ fuel
      → AllRefused endpoint n
      → Bound endpoint (bind_attempts fuel n (candidate random_port endpoint n))
  unfolding bind_attempts
  bind_attempts-Bound endpoint zero n e f rs = absurd (omega (arith, f))
  bind_attempts-Bound endpoint (suc fuel) n e f rs =
      elim (Bool-cases (bind n (candidate random_port endpoint n))) [
        | inl b ↦ rw b (inl (n, omega arith, rs, b, refl))
        | inr b ↦ elim (Bool-cases (ltb max_attempts (suc n))) [
          | inl l ↦
              rw (b, l) (inr (last_refused (ground arith) b rs, last_candidate (ground arith)))
          | inr l ↦
              rw (b, l)
                (bind_attempts-Bound endpoint fuel (suc n) (omega arith) (ground arith) (rs, b))
        ]
      ]
    where
      last_refused :
          n ≡ max_attempts
          → bind n (candidate random_port endpoint n) ≡ false
          → AllRefused endpoint n
          → AllRefused endpoint (suc max_attempts)
      last_refused q b rs =
          let both : AllRefused endpoint (suc n) = (rs, b) in
          subst (λ k. AllRefused endpoint (suc k)) q both

      failed_with : ℕ → Option (Bool × Text)
      failed_with k = some (false, candidate random_port endpoint k)

      last_candidate : n ≡ max_attempts → failed_with n ≡ failed_with max_attempts
      last_candidate q = ap failed_with q

-- The loop is entered with no attempt made, and has at most 1001 rounds.
unfoldable pub bind_endpoint : (ℕ → Text → Bool) → (ℕ → ℕ) → Text → Option (Bool × Text)
bind_endpoint bind random_port endpoint = bind_attempts bind random_port 1000 1001 0 endpoint

-- BindEndpoint returns, after at most 1001 calls of Bind: true with the first of the candidates that
-- is bound, the configured endpoint and then those with a random port, or false where the first
-- 1001 candidates are refused.
pub bind_endpoint-Bound :
    (bind : ℕ → Text → Bool) (random_port : ℕ → ℕ) (endpoint : Text)
    → Bound bind random_port 1000 endpoint (bind_endpoint bind random_port endpoint)
unfolding bind_endpoint
bind_endpoint-Bound bind random_port endpoint =
    bind_attempts-Bound bind random_port 1000 endpoint 1001 0 refl (omega arith) tt

take_past :
    (host : Text) (c : ℕ) (port : Text)
    → take (suc (length host)) (host ++ c ∷ port) ≡ host ++ c ∷ []
take_past [] c port = refl
take_past (x ∷ host) c port = ap (◌∷◌ x) (take_past host c port)

replace_port-last :
    (host port : Text) (n : ℕ)
    → contains b':' port ≡ false
    → replace_port (host ++ b':' ∷ port) n ≡ host ++ b':' ∷ decimal n
unfolding replace_port
replace_port-last host port n h =
    rw (rfind_last b':' host port h, add-one, take_past host b':' port)
      (append_assoc host (b':' ∷ []) (decimal n))

-- Every candidate behind the first has the host of the configured endpoint, which is what stands
-- before its last colon, and the random port of its attempt.
pub candidate-host :
    (random_port : ℕ → ℕ) (host port : Text) (n : ℕ)
    → contains b':' port ≡ false
    → candidate random_port (host ++ b':' ∷ port) (suc n)
      ≡ host ++ b':' ∷ decimal (random_port (suc n))
candidate-host random_port host port zero h = replace_port-last host port (random_port 1) h
candidate-host random_port host port (suc n) h = rw (candidate-host random_port host port n h) (
    replace_port-last host (decimal (random_port (suc n))) (random_port (suc (suc n)))
      (contains-decimal b':' (random_port (suc n)) (inr (omega arith))))
