-- ===== src/Devices/Sink.antt =====
-- FairMQSink (fairmq/devices/FairMQSink.h): the loop of Run, which counts the messages it receives.
use bachelor_fair_mq.Base.{
  Bool-cases, inl, inr, ℕ, ◌+◌, ◌-◌, ◌%◌, ◌^◌, ◌≤◌, ◌<◌, min, ℤ, is_negative, ◌&&◌, leb, ltb, List,
  [], ◌∷◌, if◌then◌else◌, ◌≡◌, arith,
}

-- fNumIterations, a uint64_t, and how many messages Receive has given so far.
pub record Sink : Type 0 where
  pub num_iterations : ℕ
  pub received : ℕ

-- Run: the results of Receive for as long as the device is in RUNNING.
unfoldable pub run_sink : ℕ → List ℤ → Sink → Sink
run_sink max_iterations [] s = s
run_sink max_iterations (result ∷ results) s =
    if is_negative result
    then run_sink max_iterations results s
    else if ltb 0 max_iterations && leb max_iterations (s.num_iterations)
    then record s { received = s.received + 1 }
    else run_sink max_iterations results
        (record { num_iterations = (s.num_iterations + 1) % 2 ^ 64; received = s.received + 1 })

-- How many messages there are to receive.
abbrev pub successes : List ℤ → ℕ
successes [] = 0
successes (result ∷ results) =
    if is_negative result then successes results else successes results + 1

counted_message : Sink → Sink
counted_message s = record {
  num_iterations = (s.num_iterations + 1) % 2 ^ 64;
  received = s.received + 1;
}

-- With a limit, and a count that is not above it, the sink takes one message more than the limit
-- leaves, or all that come where those are fewer; it counts them up to the limit.
pub run_sink-counts :
    (max : ℕ) (results : List ℤ) (s : Sink)
    → 0 < max
    → max < 2 ^ 64
    → s.num_iterations ≤ max
    → ((run_sink max results s).received
        ≡ s.received + min (successes results) (max - s.num_iterations + 1))
      × ((run_sink max results s).num_iterations ≡ min max (s.num_iterations + successes results))
unfolding run_sink counted_message
run_sink-counts max [] s l b c = (omega arith, omega arith)
run_sink-counts max (r ∷ rs) s l b c = elim (Bool-cases (is_negative r)) [
  | inl e ↦ rw e (run_sink-counts max rs s l b c)
  | inr e ↦ elim (Bool-cases (leb max (s.num_iterations))) [
    | inl f ↦ (ground arith, ground arith)
    | inr f ↦
        let (x, y) = run_sink-counts max rs (counted_message s) l b (ground arith) in
        (ground arith, ground arith)
  ]
]
