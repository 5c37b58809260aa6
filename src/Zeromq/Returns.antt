-- ===== src/Zeromq/Returns.antt =====
-- The rounds of a send on the ZeroMQ socket (fairmq/zeromq/FairMQSocketZMQ.cxx).
use bachelor_fair_mq.Base.{
  ℕ, zero, suc, ◌+◌, ◌^◌, ◌≤◌, ◌<◌, ℤ, pos, negsuc, Bool, true, false, List, [], ◌∷◌, Option, none,
  some, Text, ◌≡◌, ◌≢◌, refl, ◌⊎◌, inl, inr, arith,
}
use bachelor_fair_mq.Zeromq.{Socket, eagain, eterm, other, Zmq, Progress}
use bachelor_fair_mq.Zeromq.Send.{
  Round, all_sent, stopped, send_parts, next_elapsed, conclude, send_rounds, send_impl, counted,
  send_vector,
}

-- The socket's own timeout, by which the elapsed time grows, is at least a millisecond, and the
-- elapsed time does not leave the range of int before it has reached the limit.
abbrev pub Ticks : ℤ → ℕ → Type 0
Ticks (pos t) step = (1 ≤ step) × (t + step ≤ 2 ^ 31)
Ticks (negsuc t) step = (1 ≤ step) × (step < 2 ^ 31)

-- The rounds that a time limit leaves from an elapsed time on.
abbrev pub Enough : Bool → ℤ → ℕ → ℕ → Type 0
Enough true timeout elapsed fuel = Unit {0}
Enough false (pos zero) elapsed fuel = ⊥
Enough false (pos (suc t)) elapsed fuel = (suc t ≤ elapsed + fuel) × (elapsed ≤ t)
Enough false (negsuc t) elapsed fuel = elapsed ≡ 0

conclude_returns :
    (dontwait : Bool) (timeout : ℤ) (step elapsed fuel : ℕ) (round : Round × Progress)
    (rest : Option (ℤ × Progress))
    → Ticks timeout step
    → Enough dontwait timeout elapsed (suc fuel)
    → (1 ≤ fuel → Enough dontwait timeout (next_elapsed timeout step elapsed) fuel → rest ≢ none)
    → conclude dontwait timeout (next_elapsed timeout step elapsed) round rest ≢ none
conclude_returns dontwait timeout step elapsed fuel (all_sent n, q) rest s e ih h = cc
conclude_returns dontwait timeout step elapsed fuel (stopped eterm b, q) rest s e ih h = cc
conclude_returns dontwait timeout step elapsed fuel (stopped other b, q) rest s e ih h = cc
conclude_returns true timeout step elapsed fuel (stopped eagain b, q) rest s e ih h = ground arith
conclude_returns false (pos zero) step elapsed fuel (stopped eagain b, q) rest s e ih h = elim e [ ]
conclude_returns false (pos (suc t)) step elapsed fuel (stopped eagain b, q) rest s e ih h =
    ground arith
conclude_returns false (negsuc t) step elapsed fuel (stopped eagain b, q) rest s e ih h =
    ground arith

send_rounds_returns :
    (zmq : Zmq) (dontwait : Bool) (timeout : ℤ) (step fuel : ℕ) (xs : List Text) (p : Progress)
    (elapsed : ℕ)
    → Ticks timeout step
    → 1 ≤ fuel
    → Enough dontwait timeout elapsed fuel
    → send_rounds zmq dontwait timeout step fuel xs p elapsed ≢ none
unfolding send_rounds
send_rounds_returns zmq dontwait timeout step zero xs p elapsed s f e h = omega (arith, f)
send_rounds_returns zmq dontwait timeout step (suc fuel) xs p elapsed s f e h =
    conclude_returns dontwait timeout step elapsed fuel (send_parts zmq true xs p 0) _ s e
      (send_rounds_returns zmq dontwait timeout step fuel xs _ (next_elapsed timeout step elapsed)
        s)
      h

-- How many rounds a call needs at most: one where it is not to wait, or where the limit is
-- negative; else the limit in milliseconds.
abbrev pub limit : ℤ → ℕ
limit (pos t) = t
limit (negsuc t) = 1

pub limit-Enough :
    (dontwait : Bool) (timeout : ℤ)
    → (dontwait ≡ true) ⊎ (timeout ≢ pos 0)
    → Enough dontwait timeout 0 (limit timeout + 1)
limit-Enough true timeout h = tt
limit-Enough false (pos zero) (inl h) = cc
limit-Enough false (pos zero) (inr h) = elim (h refl) [ ]
limit-Enough false (pos (suc t)) h = (omega arith, omega arith)
limit-Enough false (negsuc t) h = refl

counted_returns :
    (s : Socket) (o : Option (ℤ × Progress))
    → o ≢ none
    → (result : ℤ × (Progress × Socket)) × (counted s o ≡ some result)
counted_returns s none h = elim (h refl) [ ]
counted_returns s (some (r, p)) h = (_, refl)

-- Whatever ZeroMQ answers, a send of a vector of messages returns where it is not to wait, or where
-- its timeout is not zero; and then within as many rounds as the timeout has milliseconds, and one.
-- The conditions: the socket's own send timeout is at least a millisecond, and it and the timeout
-- together are at most 2^31 (with a negative timeout: it is less than 2^31), so that the elapsed time,
-- an int, does not overflow.
pub send_vector_returns :
    (zmq : Zmq) (dontwait : Bool) (timeout : ℤ) (xs : List Text) (p : Progress) (s : Socket)
    → (dontwait ≡ true) ⊎ (timeout ≢ pos 0)
    → Ticks timeout (s.snd_timeout)
    → (result : ℤ × (Progress × Socket)) × (send_vector zmq dontwait timeout
          (limit timeout + 1)
          xs
          p
          s
        ≡ some result)
unfolding send_vector send_impl
send_vector_returns zmq dontwait timeout [] p s w t = (_, refl)
send_vector_returns zmq dontwait timeout (x ∷ []) p s w t = counted_returns s _ (
    send_rounds_returns zmq dontwait timeout (s.snd_timeout) (limit timeout + 1) (x ∷ []) p 0 t
      (omega arith) (limit-Enough dontwait timeout w))
send_vector_returns zmq dontwait timeout (x ∷ y ∷ xs) p s w t = counted_returns s _ (
    send_rounds_returns zmq dontwait timeout (s.snd_timeout) (limit timeout + 1) (x ∷ y ∷ xs) p 0 t
      (omega arith) (limit-Enough dontwait timeout w))
