-- ===== src/Zeromq/Receive.antt =====
-- FairMQSocketZMQ::ReceiveImpl for a message (fairmq/zeromq/FairMQSocketZMQ.cxx), with zmq_msg_recv as
-- a parameter: what its i-th call answers. The loop stops with none where its fuel, the number of
-- rounds, does not suffice.
use bachelor_fair_mq.Base.{
  ℕ, zero, suc, ◌+◌, ◌%◌, ◌^◌, ℤ, pos, negsuc, Bool, Option, none, some, Text, length,
  if◌then◌else◌,
}
use bachelor_fair_mq.Zeromq.{Socket, Errno, eagain, eterm, other}
use bachelor_fair_mq.Zeromq.Send.{next_elapsed, gives_up}

-- A message and, for a failure, what the loop reads in fInterrupted behind it.
pub data Got : Type 0 where
  message : Text → Got
  refused : Errno → Bool → Got

-- How the loop ends: with a message, with -2, or with -1.
pub data Ended : Type 0 where
  arrived : Text → Ended
  gave_up failed : Ended

abbrev pub judge : Bool → ℤ → ℕ → Got → Option Ended → Option Ended
judge dontwait timeout elapsed (message x) rest = some (arrived x)
judge dontwait timeout elapsed (refused eagain interrupted) rest =
    if gives_up dontwait interrupted timeout elapsed then some gave_up else rest
judge dontwait timeout elapsed (refused eterm interrupted) rest = some failed
judge dontwait timeout elapsed (refused other interrupted) rest = some failed

unfoldable pub receive_rounds : (ℕ → Got) → Bool → ℤ → ℕ → ℕ → ℕ → ℕ → Option Ended
receive_rounds got dontwait timeout step zero i elapsed = none
receive_rounds got dontwait timeout step (suc fuel) i elapsed =
    let elapsed' = next_elapsed timeout step elapsed in
    let rest = receive_rounds got dontwait timeout step fuel (suc i) elapsed' in
    judge dontwait timeout elapsed' (got i) rest

-- The result, the message behind the call, and the socket. A call that failed leaves the message.
abbrev pub Received : Type 0
Received = ℤ × (Text × Socket)

abbrev pub count_received : Text → Socket → Option Ended → Option Received
count_received msg s none = none
count_received msg s (some (arrived x)) = some (
  pos (length x),
  (
    x,
    record s {
      bytes_rx = (s.bytes_rx + length x) % 2 ^ 64;
      messages_rx = (s.messages_rx + 1) % 2 ^ 64;
    },
  ),
)
count_received msg s (some gave_up) = some (negsuc 1, (msg, s))
count_received msg s (some failed) = some (negsuc 0, (msg, s))

unfoldable pub receive_impl : (ℕ → Got) → Bool → ℤ → ℕ → Text → Socket → Option Received
receive_impl got dontwait timeout fuel msg s =
    count_received msg s (receive_rounds got dontwait timeout (s.rcv_timeout) fuel 0 0)
