-- ===== src/Zeromq/Arrival.antt =====
-- What a receive on the ZeroMQ socket brings (fairmq/zeromq/FairMQSocketZMQ.cxx).
use bachelor_fair_mq.Base.{
  ℕ, zero, suc, ◌+◌, ◌%◌, ◌^◌, ◌≤◌, ℤ, pos, negsuc, Bool, true, false, Option, some, Text, length,
  ◌≡◌, ◌≢◌, ◌⊎◌, inl, inr, refl, arith, Bool-cases, subst,
}
use bachelor_fair_mq.Zeromq.{Socket, Errno, eagain, eterm, other}
use bachelor_fair_mq.Zeromq.Send.{next_elapsed, gives_up}
use bachelor_fair_mq.Zeromq.Returns.{Ticks, Enough, limit, limit-Enough}
use bachelor_fair_mq.Zeromq.Receive.{
  Got, message, refused, Ended, arrived, gave_up, failed, judge, receive_rounds, Received,
  count_received, receive_impl,
}

module _ (got : ℕ → Got) (dontwait : Bool) (timeout : ℤ) (step : ℕ) where
  -- How the loop may end from its i-th call on, with an elapsed time: with a message that ZeroMQ
  -- gives, with -2 where it gives up behind EAGAIN, with -1 behind another failure, or as it ends
  -- behind one more EAGAIN.
  pub data Loop : ℕ → ℕ → Option Ended → Type 0 where
    gives : {i t : ℕ} (x : Text) → got i ≡ message x → Loop i t (some (arrived x))
    stops :
        {i t : ℕ} (b : Bool)
        → got i ≡ refused eagain b
        → gives_up dontwait b timeout (next_elapsed timeout step t) ≡ true
        → Loop i t (some gave_up)
    fails :
        {i t : ℕ} (e : Errno) (b : Bool) → e ≢ eagain → got i ≡ refused e b → Loop i t (some failed)
    again :
        {i t : ℕ} (b : Bool) (o : Option Ended)
        → got i ≡ refused eagain b
        → Loop (suc i) (next_elapsed timeout step t) o
        → Loop i t o

-- A loop that goes on has rounds left.
pub goes_on :
    (dontwait b : Bool) (timeout : ℤ) (step elapsed fuel : ℕ)
    → gives_up dontwait b timeout (next_elapsed timeout step elapsed) ≡ false
    → Ticks timeout step
    → Enough dontwait timeout elapsed (suc fuel)
    → (1 ≤ fuel) × Enough dontwait timeout (next_elapsed timeout step elapsed) fuel
goes_on true b timeout step elapsed fuel q s e = ground arith
goes_on false b (pos zero) step elapsed fuel q s e = elim e [ ]
goes_on false b (pos (suc t)) step elapsed fuel q s e = (ground arith, ground arith)
goes_on false b (negsuc t) step elapsed fuel q s e = ground arith

judge-Loop :
    (got : ℕ → Got) (i : ℕ) (dontwait : Bool) (timeout : ℤ) (step elapsed fuel : ℕ) (g : Got)
    (rest : Option Ended)
    → got i ≡ g
    → Ticks timeout step
    → Enough dontwait timeout elapsed (suc fuel)
    → (1 ≤ fuel
        → Enough dontwait timeout (next_elapsed timeout step elapsed) fuel
        → Loop got dontwait timeout step (suc i) (next_elapsed timeout step elapsed) rest)
    → Loop got dontwait timeout step i elapsed
        (judge dontwait timeout (next_elapsed timeout step elapsed) g rest)
judge-Loop got i dontwait timeout step elapsed fuel (message x) rest h s e ih = gives x h
judge-Loop got i dontwait timeout step elapsed fuel (refused eterm b) rest h s e ih =
    fails eterm b (λ q. cc) h
judge-Loop got i dontwait timeout step elapsed fuel (refused other b) rest h s e ih =
    fails other b (λ q. cc) h
judge-Loop got i dontwait timeout step elapsed fuel (refused eagain b) rest h s e ih =
    elim (Bool-cases (gives_up dontwait b timeout (next_elapsed timeout step elapsed))) [
      | inl q ↦ rw q (stops b h q)
      | inr q ↦ rw q (
          let (f, m) = goes_on dontwait b timeout step elapsed fuel q s e in
          again b rest h (ih f m))
    ]

receive_rounds-Loop :
    (got : ℕ → Got) (dontwait : Bool) (timeout : ℤ) (step fuel i elapsed : ℕ)
    → Ticks timeout step
    → 1 ≤ fuel
    → Enough dontwait timeout elapsed fuel
    → Loop got dontwait timeout step i elapsed
        (receive_rounds got dontwait timeout step fuel i elapsed)
unfolding receive_rounds
receive_rounds-Loop got dontwait timeout step zero i elapsed s f e = absurd (omega (arith, f))
receive_rounds-Loop got dontwait timeout step (suc fuel) i elapsed s f e =
    judge-Loop got i dontwait timeout step elapsed fuel (got i) _ refl s e (
      receive_rounds-Loop got dontwait timeout step fuel (suc i) (next_elapsed timeout step elapsed)
        s)

-- So many calls from the i-th on were refused with EAGAIN.
abbrev pub Refused : (ℕ → Got) → ℕ → ℕ → Type 0
Refused got i zero = Unit {0}
Refused got i (suc n) = ((b : Bool) × (got i ≡ refused eagain b)) × Refused got (suc i) n

-- The elapsed time behind so many refusals.
abbrev pub waited : ℤ → ℕ → ℕ → ℕ → ℕ
waited timeout step elapsed zero = elapsed
waited timeout step elapsed (suc n) = waited timeout step (next_elapsed timeout step elapsed) n

-- What the answer to the last call makes of a receive: a message is handed on and counted with its
-- bytes; EAGAIN gives -2, only where the loop has a reason to give up; another failure gives -1.
-- Behind a failure the message and the socket are as before.
abbrev pub Brings : Bool → ℤ → ℕ → Text → Socket → Got → Option Received → Type 0
Brings dontwait timeout elapsed msg s (message x) o =
    o
    ≡ some (
      pos (length x),
      (
        x,
        record s {
          bytes_rx = (s.bytes_rx + length x) % 2 ^ 64;
          messages_rx = (s.messages_rx + 1) % 2 ^ 64;
        },
      ),
    )
Brings dontwait timeout elapsed msg s (refused eagain b) o =
    (gives_up dontwait b timeout elapsed ≡ true) × (o ≡ some (negsuc 1, (msg, s)))
Brings dontwait timeout elapsed msg s (refused _ b) o = o ≡ some (negsuc 0, (msg, s))

failed-Brings :
    (dontwait : Bool) (timeout : ℤ) (elapsed : ℕ) (msg : Text) (s : Socket) (e : Errno) (b : Bool)
    → e ≢ eagain
    → Brings dontwait timeout elapsed msg s (refused e b) (some (negsuc 0, (msg, s)))
failed-Brings dontwait timeout elapsed msg s eagain b n = absurd (n refl)
failed-Brings dontwait timeout elapsed msg s eterm b n = refl
failed-Brings dontwait timeout elapsed msg s other b n = refl

from_zero : (i : ℕ) → 0 + i ≡ i
from_zero i = omega arith

Loop-Brings :
    (got : ℕ → Got) (dontwait : Bool) (timeout : ℤ) (step : ℕ) (msg : Text) (s : Socket)
    (i elapsed : ℕ) (o : Option Ended)
    → Loop got dontwait timeout step i elapsed o
    → (n : ℕ) × Refused got i n
      × Brings dontwait timeout
          (waited timeout step elapsed (suc n))
          msg
          s
          (got (n + i))
          (count_received msg s o)
Loop-Brings got dw l step msg s i t _ (gives x h) = (0, tt, rw (from_zero i, h) refl)
Loop-Brings got dw l step msg s i t _ (stops b h q) = (0, tt, rw (from_zero i, h) (q, refl))
Loop-Brings got dw l step msg s i t _ (fails e b n h) =
    (0, tt, rw (from_zero i, h) (failed-Brings dw l (next_elapsed l step t) msg s e b n))
Loop-Brings got dw l step msg s i t _ (again b o h r) =
    let (n, rs, br) = Loop-Brings got dw l step msg s (suc i) (next_elapsed l step t) o r in
    (
      suc n,
      ((b, h), rs),
      subst
          (λ k. Brings dw l (waited l step t (suc (suc n))) msg s (got k) (count_received msg s o))
          (omega arith) br,
    )

-- A receive that is not to wait, or has a timeout that is not zero, returns within as many rounds as
-- the timeout has milliseconds, and one. The conditions: the socket's own receive timeout is at least
-- a millisecond, and it and the timeout together are at most 2^31 (with a negative timeout: it is less
-- than 2^31), so that the elapsed time, an int, does not overflow. The receive passes over some answers EAGAIN, and its result is what the answer behind them says:
-- the message, counted once and with its bytes; -2 for EAGAIN, only if interrupted, not to wait, or
-- out of time; else -1. With -2 and -1 the message and the socket are as they were.
pub receive_impl-Brings :
    (got : ℕ → Got) (dontwait : Bool) (timeout : ℤ) (msg : Text) (s : Socket)
    → (dontwait ≡ true) ⊎ (timeout ≢ pos 0)
    → Ticks timeout (s.rcv_timeout)
    → (n : ℕ) × Refused got 0 n
      × Brings dontwait timeout
          (waited timeout (s.rcv_timeout) 0 (suc n))
          msg
          s
          (got n)
          (receive_impl got dontwait timeout (limit timeout + 1) msg s)
unfolding receive_impl
receive_impl-Brings got dontwait timeout msg s w t =
    let (n, rs, br) = Loop-Brings got dontwait timeout (s.rcv_timeout) msg s 0 0 _ (
      receive_rounds-Loop got dontwait timeout (s.rcv_timeout) (limit timeout + 1) 0 0 t
        (omega arith) (limit-Enough dontwait timeout w)) in
    (
      n,
      rs,
      subst
          (λ k.
            Brings dontwait timeout (waited timeout (s.rcv_timeout) 0 (suc n)) msg s (got k)
              (receive_impl got dontwait timeout (limit timeout + 1) msg s))
          (omega arith) br,
    )
