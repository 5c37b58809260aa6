-- ===== src/Shmem/Socket.antt =====
-- SendImpl and ReceiveImpl of the shared memory transport's socket
-- (fairmq/shmem/FairMQSocketSHM.cxx). On the wire stand the headers that a ZeroMQ message holds.
-- A call's answers and what its loop reads in fInterrupted are parameters; the loop has none where
-- its fuel, the number of rounds, does not suffice.
use bachelor_fair_mq.Base.{
  ℕ, ◌+◌, ◌%◌, ◌^◌, ℤ, pos, negsuc, Bool, true, List, [], ◌∷◌, ◌++◌, map, Option, none, some,
  if◌then◌else◌,
}
use bachelor_fair_mq.Zeromq.{Socket, Errno, eagain, eterm, other}
use bachelor_fair_mq.Transfer.{
  Reply, taken, again, ended, Finish, finished, returned, rounds, ran, count_tx, count_rx,
}
use bachelor_fair_mq.Shmem.{
  MetaHeader, Frame, blank, closed, holding, inlined, Message, empty_message,
}

-- The answer to one call: what it brings; or a failure, with what is read in fInterrupted behind it.
pub data Call {ℓ} (A : Type ℓ) : Type ℓ where
  works : A → Call A
  fails : Errno → Bool → Call A

module _ {ℓ} {A : Type ℓ} where
  -- What a round of the loop `while (true)` makes of the answer.
  abbrev pub reply_of : Call A → Reply A
  reply_of (works a) = taken a
  reply_of (fails eagain interrupted) = again interrupted
  reply_of (fails eterm interrupted) = ended (negsuc 0)
  reply_of (fails other interrupted) = ended (negsuc 0)

  -- And of the loop `while (!fInterrupted)`, with what it reads there.
  abbrev pub checked : (ℕ → Bool) → (ℕ → Call A) → ℕ → Reply A
  checked interrupted calls i = if interrupted i then ended (negsuc 0) else reply_of (calls i)

-- The headers that a message of the size of the frame holds.
abbrev pub headers : Frame → List MetaHeader
headers (holding h) = h ∷ []
headers blank = []
headers closed = []
headers (inlined h) = []

-- zmq_msg_data of a frame, read as a header: what the memory holds where there is none.
abbrev pub read_header : MetaHeader → Frame → MetaHeader
read_header garbage (holding h) = h
read_header garbage (inlined h) = h
read_header garbage blank = garbage
read_header garbage closed = garbage

-- A send's result, its messages and socket, and what ZeroMQ has taken.
pub record Sent {ℓ} (M : Type ℓ) : Type ℓ where
  pub result : ℤ
  pub part : M
  pub socket : Socket
  pub wire : Option (List MetaHeader)

-- A message that was sent is empty behind it.
abbrev pub sent_as : Frame → Message → Socket → Sent Message
sent_as (holding h) m s = record {
  result = pos (m.size);
  part = record m { queued = true; frame = blank };
  socket = count_tx (m.size) s;
  wire = some (h ∷ []);
}
sent_as blank m s = record { result = pos 0; part = m; socket = s; wire = some [] }
sent_as closed m s = record { result = pos 0; part = m; socket = s; wire = some [] }
sent_as (inlined h) m s = record {
  result = pos 0;
  part = record m { frame = blank };
  socket = s;
  wire = some [];
}

abbrev pub after_send : Message → Socket → Sent Message
after_send m s = sent_as (m.frame) m s

abbrev pub sent {ℓ} : {M : Type ℓ} → Sent M → M → Socket → Finish (Unit {0}) → Sent M
sent done m s (finished _) = done
sent done m s (returned r) = record { result = r; part = m; socket = s; wire = none }

unfoldable pub send_impl :
    (ℕ → Bool) → (ℕ → Call (Unit {0})) → Bool → ℤ → ℕ → Message → Socket → Option (Sent Message)
send_impl interrupted calls dontwait timeout fuel m s =
    ran (sent (after_send m s) m s)
      (rounds (checked interrupted calls) dontwait timeout (s.snd_timeout) fuel 0 0)

unfoldable pub total_size : List Message → ℕ
total_size [] = 0
total_size (m ∷ ms) = m.size + total_size ms

abbrev pub queue_part : Message → Message
queue_part m = record m { queued = true }

-- The headers are copied together in front of the loop, each out of its message's memory. The
-- total is an int64_t, and the counter takes it modulo 2 ^ 64.
abbrev pub after_send_vector : MetaHeader → List Message → Socket → Sent (List Message)
after_send_vector garbage [] s = record { result = pos 0; part = []; socket = s; wire = some [] }
after_send_vector garbage (m ∷ ms) s = record {
  result = pos (total_size (m ∷ ms));
  part = map queue_part (m ∷ ms);
  socket = count_tx (total_size (m ∷ ms)) s;
  wire = some (map (λ n. read_header garbage (n.frame)) (m ∷ ms));
}

abbrev pub one_part : Sent Message → Sent (List Message)
one_part r = record { result = r.result; part = r.part ∷ []; socket = r.socket; wire = r.wire }

unfoldable pub send_vector :
    MetaHeader
    → (ℕ → Bool)
    → (ℕ → Call (Unit {0}))
    → Bool
    → ℤ
    → ℕ
    → List Message
    → Socket
    → Option (Sent (List Message))
send_vector garbage interrupted calls dontwait timeout fuel (m ∷ []) s =
    ran one_part (send_impl interrupted calls dontwait timeout fuel m s)
send_vector garbage interrupted calls dontwait timeout fuel ms s =
    ran (sent (after_send_vector garbage ms s) ms s)
      (rounds (checked interrupted calls) dontwait timeout (s.snd_timeout) fuel 0 0)

-- A receive's result, and its messages and socket; or the assertion on the number of headers fails.
pub data Received {ℓ} (M : Type ℓ) : Type ℓ where
  received : ℤ → M → Socket → Received M
  asserts : Received M

-- The members that a header sets.
abbrev pub take_header : MetaHeader → Message → Message
take_header h m = record m {
  handle = h.handle;
  size = h.size;
  region_id = h.region_id;
  hint = h.hint;
}

abbrev pub after_receive : Message → Socket → List MetaHeader → Received Message
after_receive m s [] =
    received (pos 0) (record m { frame = blank })
      (record s { messages_rx = (s.messages_rx + 1) % 2 ^ 64 })
after_receive m s (h ∷ []) =
    received (pos (h.size)) (take_header h (record m { frame = holding h })) (count_rx (h.size) s)
after_receive m s (h ∷ k ∷ hs) = asserts

abbrev pub brought {ℓ ℓ'} :
    {A : Type ℓ} {M : Type ℓ'} → (A → Received M) → M → Socket → Finish A → Received M
brought done m s (finished a) = done a
brought done m s (returned r) = received r m s

unfoldable pub receive_impl :
    (ℕ → Call (List MetaHeader)) → Bool → ℤ → ℕ → Message → Socket → Option (Received Message)
receive_impl calls dontwait timeout fuel m s =
    ran (brought (after_receive m s) m s)
      (rounds (λ i. reply_of (calls i)) dontwait timeout (s.rcv_timeout) fuel 0 0)

-- A part that is made of a header: the header is written into the memory of an empty message.
abbrev pub part_of : MetaHeader → Message
part_of h = take_header h (record empty_message { frame = inlined h })

unfoldable pub total_of : List MetaHeader → ℕ
total_of [] = 0
total_of (h ∷ hs) = h.size + total_of hs

abbrev pub after_receive_vector : List Message → Socket → List MetaHeader → Received (List Message)
after_receive_vector ms s [] = received (pos 0) ms s
after_receive_vector ms s (h ∷ hs) =
    received (pos (total_of (h ∷ hs))) (ms ++ map part_of (h ∷ hs)) (count_rx (total_of (h ∷ hs)) s)

unfoldable pub receive_vector :
    (ℕ → Bool)
    → (ℕ → Call (List MetaHeader))
    → Bool
    → ℤ
    → ℕ
    → List Message
    → Socket
    → Option (Received (List Message))
receive_vector interrupted calls dontwait timeout fuel ms s =
    ran (brought (after_receive_vector ms s) ms s)
      (rounds (checked interrupted calls) dontwait timeout (s.rcv_timeout) fuel 0 0)
