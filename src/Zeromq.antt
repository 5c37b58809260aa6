-- ===== src/Zeromq.antt =====
-- The ZeroMQ socket (fairmq/zeromq/FairMQSocketZMQ.h and .cxx): its fields, and zmq_msg_send, which
-- is a parameter.
pub mod Send
pub mod Delivery
pub mod Returns
pub mod Receive
pub mod Arrival
pub mod Poller
pub mod Multipart
pub mod RoundTrip
pub mod Message
mod Tests
use bachelor_fair_mq.Base.{ℕ, ◌≡◌, ◌≢◌, Bool, false, List, Text}

-- The counters are unsigned long, of 64 bits; the timeouts, in milliseconds, are not negative.
pub record Socket : Type 0 where
  pub bytes_tx : ℕ
  pub messages_tx : ℕ
  pub bytes_rx : ℕ
  pub messages_rx : ℕ
  pub snd_timeout : ℕ
  pub rcv_timeout : ℕ

-- The constructor.
abbrev pub new : Socket
new = record {
  bytes_tx = 0;
  messages_tx = 0;
  bytes_rx = 0;
  messages_rx = 0;
  snd_timeout = 100;
  rcv_timeout = 100;
}

-- zmq_errno(): EAGAIN, ETERM, or another.
pub data Errno : Type 0 where
  eagain eterm other : Errno

-- A call that ZeroMQ takes a message in returns its size; one that fails returns -1. With a failure
-- stands what the loop reads in fInterrupted behind it, which other threads set and clear.
pub data Answer : Type 0 where
  accepted : Answer
  refused : Errno → Bool → Answer

-- zmq_msg_send: its answer to the i-th call, for the first part of a message or for a later one.
-- Only the first part is refused with EAGAIN.
pub record Zmq : Type 0 where
  pub answer : ℕ → Bool → Answer
  pub later_again : (i : ℕ) (interrupted : Bool) → answer i false ≢ refused eagain interrupted

-- The calls so far, and the frames that ZeroMQ has taken, in order: the bytes and ZMQ_SNDMORE.
pub record Progress : Type 0 where
  pub calls : ℕ
  pub frames : List (Text × Bool)
