-- ===== src/Devices/Tests.antt =====
-- Devices with a few messages.
use bachelor_fair_mq.Base.{
  ℕ, ◌+◌, ◌-◌, min, ℤ, pos, negsuc, List, [], ◌∷◌, ◌++◌, Option, some, Text, codes, text_eq, ok,
  ◌≡◌, refl, arith, if◌then◌else◌,
}
use bachelor_fair_mq.Devices.Splitter.{split_all}
use bachelor_fair_mq.Devices.Sink.{Sink, run_sink, successes, run_sink-counts}
use bachelor_fair_mq.Devices.Multiplier.{
  original, multiply, copied, outputs, subchannels, multiply-outputs,
}

abbrev payloads : List ℕ
payloads = 10 ∷ 11 ∷ 12 ∷ 13 ∷ []

split_payloads : split_all 3 1 payloads ≡ (1, 10) ∷ (2, 11) ∷ (0, 12) ∷ (1, 13) ∷ []
unfolding split_all
split_payloads = refl

abbrev fresh : Sink
fresh = record { num_iterations = 0; received = 0 }

abbrev results : List ℤ
results = pos 5 ∷ negsuc 1 ∷ pos 5 ∷ pos 5 ∷ pos 5 ∷ []

-- One message more than the limit is taken.
sink_limit : run_sink 2 results fresh ≡ record { num_iterations = 2; received = 3 }
unfolding run_sink
sink_limit = refl

run_sink-counts_example :
    ((run_sink 2 results fresh).received
      ≡ fresh.received + min (successes results) (2 - fresh.num_iterations + 1))
    × ((run_sink 2 results fresh).num_iterations ≡ min 2 (fresh.num_iterations + successes results))
run_sink-counts_example = run_sink-counts 2 results fresh (omega arith) (omega arith) (omega arith)

abbrev sizes : Text → Option ℕ
sizes name = if text_eq name (codes "a") then some 2 else some 3

abbrev counts : Text → ℕ
counts name = if text_eq name (codes "a") then 2 else 3

multiply-outputs_example :
    multiply sizes (codes "a" ∷ codes "b" ∷ [])
    ≡ ok (
        copied (outputs counts (codes "a" ∷ []) ++ subchannels (codes "b") 0 2)
        ++ (codes "b", (2, original)) ∷ [])
multiply-outputs_example =
    multiply-outputs sizes counts (codes "a" ∷ []) (codes "b") 2 (known, tt) known_last
      (omega arith)
  where
    known : sizes (codes "a") ≡ some (counts (codes "a"))
    known = unfold text_eq in refl

    known_last : sizes (codes "b") ≡ some 3
    known_last = unfold text_eq in refl
