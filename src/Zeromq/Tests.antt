-- ===== src/Zeromq/Tests.antt =====
-- A socket that is busy at first.
use bachelor_fair_mq.Base.{
  ℕ, zero, suc, ◌+◌, ℤ, pos, Bool, true, false, List, [], ◌∷◌, some, codes, Text, ◌≡◌, ◌≢◌, refl,
  inr, arith,
}
use bachelor_fair_mq.Zeromq.{Socket, new, eagain, Answer, accepted, refused, Zmq, Progress}
use bachelor_fair_mq.Zeromq.Receive.{Got, message, receive_impl, receive_rounds}
use bachelor_fair_mq.Zeromq.Arrival.{Refused, Brings, waited, receive_impl-Brings}
use bachelor_fair_mq.Zeromq.Send.{send_vector, send_rounds, send_parts}
use bachelor_fair_mq.Zeromq.Delivery.{Reported, send_vector-Reported}
use bachelor_fair_mq.Zeromq.Returns.{limit, send_vector_returns}

-- ZeroMQ refuses the first two calls for a first part.
abbrev busy_answer : ℕ → Bool → Answer
busy_answer zero true = refused eagain false
busy_answer (suc zero) true = refused eagain false
busy_answer _ _ = accepted

busy_again : (i : ℕ) (b : Bool) → busy_answer i false ≢ refused eagain b
busy_again zero b h = cc
busy_again (suc zero) b h = cc
busy_again (suc (suc i)) b h = cc

abbrev busy : Zmq
busy = record { answer = busy_answer; later_again = busy_again }

abbrev parts : List Text
parts = codes "head" ∷ codes "data" ∷ []

abbrev untouched : Progress
untouched = record { calls = 0; frames = [] }

abbrev after_send : ℤ × (Progress × Socket)
after_send = (
  pos 8,
  (
    record { calls = 4; frames = (codes "head", true) ∷ (codes "data", false) ∷ [] },
    record new { bytes_tx = 8; messages_tx = 1 },
  ),
)

-- The third round goes through.
busy_send : send_vector busy false (pos 1000) 5 parts untouched new ≡ some after_send
unfolding send_vector send_rounds send_parts
busy_send = refl

send_vector-Reported_example : Reported parts untouched new after_send
send_vector-Reported_example =
    send_vector-Reported busy false (pos 1000) 5 parts untouched new after_send busy_send

send_vector_returns_example :
    (result : ℤ × (Progress × Socket)) × (send_vector busy false
        (pos 1000)
        (limit (pos 1000) + 1)
        parts
        untouched
        new
      ≡ some result)
send_vector_returns_example =
    send_vector_returns busy false (pos 1000) parts untouched new (inr limited)
      (omega arith, omega arith)
  where
    limited : pos 1000 ≢ pos 0
    limited h = cc

-- Nothing is there at first, and then a message.
abbrev late : ℕ → Got
late zero = Got.refused eagain false
late (suc i) = message (codes "data")

-- The timeout of 150 milliseconds lets the second round pass.
late_receive :
    receive_impl late false (pos 150) 151 [] new
    ≡ some (pos 4, (codes "data", record new { bytes_rx = 4; messages_rx = 1 }))
unfolding receive_impl receive_rounds
late_receive = refl

receive_impl-Brings_example :
    (n : ℕ) × Refused late 0 n
    × Brings false
        (pos 150)
        (waited (pos 150) 100 0 (suc n))
        []
        new
        (late n)
        (receive_impl late false (pos 150) (limit (pos 150) + 1) [] new)
receive_impl-Brings_example =
    receive_impl-Brings late false (pos 150) [] new (inr limited) (omega arith, omega arith)
  where
    limited : pos 150 ≢ pos 0
    limited h = cc
