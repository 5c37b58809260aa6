-- ===== src/Zeromq/Multipart.antt =====
-- FairMQSocketZMQ::ReceiveImpl for a vector of messages (fairmq/zeromq/FairMQSocketZMQ.cxx). Both
-- loops stop with none where their fuel, the number of rounds and of parts, does not suffice.
use bachelor_fair_mq.Base.{
  ℕ, zero, suc, ◌+◌, ◌%◌, ◌^◌, ℤ, pos, negsuc, Bool, List, [], ◌∷◌, ◌++◌, Option, none, some, Text,
  length, if◌then◌else◌,
}
use bachelor_fair_mq.Zeromq.{Socket, Errno, eagain}
use bachelor_fair_mq.Zeromq.Send.{next_elapsed, gives_up}

-- The answer to a call of zmq_msg_recv: a part, with ZMQ_RCVMORE behind it; or a failure, with what
-- is read in fInterrupted.
pub data GotPart : Type 0 where
  part : Text → Bool → GotPart
  refused : Errno → Bool → GotPart

-- How the inner loop ends, with the parts so far and the number of calls: all parts have come, with
-- their bytes; or a call failed.
pub data Inner : Type 0 where
  all_come : ℕ → List Text → ℕ → Inner
  broken : Errno → Bool → List Text → ℕ → Inner

unfoldable pub receive_parts : (ℕ → GotPart) → ℕ → ℕ → ℕ → List Text → Option Inner
receive_parts got zero i total parts = none
receive_parts got (suc depth) i total parts = elim (got i) [
  | part x more ↦
      let rest = receive_parts got depth (suc i) (total + length x) (parts ++ x ∷ []) in
      if more then rest else some (all_come (total + length x) (parts ++ x ∷ []) (suc i))
  | refused e interrupted ↦ some (broken e interrupted parts (suc i))
]

-- The result, the vector and the socket. A call that failed leaves the parts that had come.
abbrev pub Vector : Type 0
Vector = ℤ × (List Text × Socket)

abbrev pub all_received : ℕ → List Text → Socket → Vector
all_received total parts s = (
  pos total,
  (
    parts,
    record s {
      bytes_rx = (s.bytes_rx + total) % 2 ^ 64;
      messages_rx = (s.messages_rx + 1) % 2 ^ 64;
    },
  ),
)

unfoldable pub vector_rounds :
    (ℕ → GotPart) → Bool → ℤ → ℕ → ℕ → ℕ → ℕ → List Text → Socket → Option Vector
vector_rounds got dontwait timeout depth zero i elapsed parts s = none
vector_rounds got dontwait timeout depth (suc fuel) i elapsed parts s =
    elim (receive_parts got depth i 0 parts) [
      | none ↦ none
      | some (all_come total ps j) ↦ some (all_received total ps s)
      | some (broken eagain interrupted ps j) ↦
          let elapsed' = next_elapsed timeout (s.rcv_timeout) elapsed in
          let rest = vector_rounds got dontwait timeout depth fuel j elapsed' ps s in
          if gives_up dontwait interrupted timeout elapsed' then some (negsuc 1, (ps, s)) else rest
      | some (broken _ interrupted ps j) ↦ some (negsuc 0, (ps, s))
    ]

unfoldable pub receive_vector :
    (ℕ → GotPart) → Bool → ℤ → ℕ → ℕ → List Text → Socket → Option Vector
receive_vector got dontwait timeout depth fuel parts s =
    vector_rounds got dontwait timeout depth fuel 0 0 parts s
