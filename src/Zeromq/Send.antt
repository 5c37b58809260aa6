-- ===== src/Zeromq/Send.antt =====
-- FairMQSocketZMQ::SendImpl for a message and for a vector of messages
-- (fairmq/zeromq/FairMQSocketZMQ.cxx). A loop stops with none where its fuel, the number of rounds,
-- does not suffice.
use bachelor_fair_mq.Base.{
  ℕ, zero, suc, ◌+◌, ◌%◌, ◌^◌, ℤ, pos, negsuc, Bool, true, false, ◌||◌, ◌&&◌, not, leb, ltb, List,
  [], ◌∷◌, ◌++◌, Option, none, some, Text, length, if◌then◌else◌,
}
use bachelor_fair_mq.Zeromq.{Socket, Errno, eagain, eterm, other, accepted, refused, Zmq, Progress}

-- One round of the loop: every part was taken, or a part was refused.
pub data Round : Type 0 where
  all_sent : ℕ → Round
  stopped : Errno → Bool → Round

abbrev pub is_empty : List Text → Bool
is_empty [] = true
is_empty (x ∷ xs) = false

-- The parts from a position on; all but the last are sent with ZMQ_SNDMORE.
unfoldable pub send_parts : Zmq → Bool → List Text → Progress → ℕ → Round × Progress
send_parts zmq first [] p total = (all_sent total, p)
send_parts zmq first (x ∷ xs) p total = elim (zmq.answer (p.calls) first) [
  | accepted ↦
      send_parts zmq false xs
        (record { calls = suc (p.calls); frames = p.frames ++ (x, not (is_empty xs)) ∷ [] })
        (total + length x)
  | refused e interrupted ↦ (stopped e interrupted, record p { calls = suc (p.calls) })
]

-- `if (timeout) { elapsed += fSndTimeout; … }`: the elapsed time is an int, here the natural number
-- below 2^32 that has its bits, which is negative from 2^31 on. Where the sum leaves the range of int,
-- which C++ leaves undefined, it wraps around.
abbrev pub next_elapsed : ℤ → ℕ → ℕ → ℕ
next_elapsed (pos zero) step elapsed = elapsed
next_elapsed _ step elapsed = (elapsed + step) % 2 ^ 32

-- `timeout && elapsed >= timeout`, a comparison with sign.
abbrev pub expired : ℤ → ℕ → Bool
expired (pos zero) elapsed = false
expired (pos (suc t)) elapsed = ltb elapsed (2 ^ 31) && leb (suc t) elapsed
expired (negsuc t) elapsed = ltb elapsed (2 ^ 31) || leb (2 ^ 32) (elapsed + suc t)

-- What EAGAIN leads to: -2 if interrupted, not to wait, or out of time; else another round.
abbrev pub gives_up : Bool → Bool → ℤ → ℕ → Bool
gives_up dontwait interrupted timeout elapsed = interrupted || dontwait || expired timeout elapsed

abbrev pub conclude :
    Bool → ℤ → ℕ → Round × Progress → Option (ℤ × Progress) → Option (ℤ × Progress)
conclude dontwait timeout elapsed (all_sent total, p) rest = some (pos total, p)
conclude dontwait timeout elapsed (stopped eagain interrupted, p) rest =
    if gives_up dontwait interrupted timeout elapsed then some (negsuc 1, p) else rest
conclude dontwait timeout elapsed (stopped eterm interrupted, p) rest = some (negsuc 0, p)
conclude dontwait timeout elapsed (stopped other interrupted, p) rest = some (negsuc 0, p)

-- The rounds of the loop `while (true)`.
unfoldable pub send_rounds :
    Zmq → Bool → ℤ → ℕ → ℕ → List Text → Progress → ℕ → Option (ℤ × Progress)
send_rounds zmq dontwait timeout step zero parts p elapsed = none
send_rounds zmq dontwait timeout step (suc fuel) parts p elapsed =
    let round = send_parts zmq true parts p 0 in
    let elapsed' = next_elapsed timeout step elapsed in
    let rest = send_rounds zmq dontwait timeout step fuel parts (round.1) elapsed' in
    conclude dontwait timeout elapsed' round rest

-- A transfer that was not refused is counted, as one message.
abbrev pub count_sent : ℤ → Socket → Socket
count_sent (pos n) s = record s {
  bytes_tx = (s.bytes_tx + n) % 2 ^ 64;
  messages_tx = (s.messages_tx + 1) % 2 ^ 64;
}
count_sent (negsuc n) s = s

abbrev pub Sent : Type 0
Sent = Option (ℤ × (Progress × Socket))

abbrev pub counted : Socket → Option (ℤ × Progress) → Sent
counted s none = none
counted s (some (r, p)) = some (r, (p, count_sent r s))

unfoldable pub send_impl : Zmq → Bool → ℤ → ℕ → Text → Progress → Socket → Sent
send_impl zmq dontwait timeout fuel msg p s =
    counted s (send_rounds zmq dontwait timeout (s.snd_timeout) fuel (msg ∷ []) p 0)

unfoldable pub send_vector : Zmq → Bool → ℤ → ℕ → List Text → Progress → Socket → Sent
send_vector zmq dontwait timeout fuel [] p s = some (negsuc 0, (p, s))
send_vector zmq dontwait timeout fuel (msg ∷ []) p s = send_impl zmq dontwait timeout fuel msg p s
send_vector zmq dontwait timeout fuel (msg ∷ part ∷ parts) p s =
    counted s (send_rounds zmq dontwait timeout (s.snd_timeout) fuel (msg ∷ part ∷ parts) p 0)
