-- ===== src/Nanomsg/Socket.antt =====
-- SendImpl and ReceiveImpl of the nanomsg transport's socket (fairmq/nanomsg/FairMQSocketNN.cxx), for
-- a version of nanomsg above 0.6. Several parts go as one message, packed by msgpack, which is a
-- parameter. A loop has none where its fuel, the number of rounds, does not suffice.
use bachelor_fair_mq.Base.{
  ℕ, zero, suc, ◌+◌, ◌<◌, ◌≤◌, ◌^◌, ℤ, pos, negsuc, Bool, true, false, List, [], ◌∷◌, ◌++◌, map,
  Option, none, some, Text, length, ◌≡◌, if◌then◌else◌,
}
use bachelor_fair_mq.Zeromq.{Socket}
use bachelor_fair_mq.Transfer.{
  Reply, taken, again, ended, Finish, finished, returned, rounds, rounds_made, ran, count_tx,
  count_rx,
}
use bachelor_fair_mq.Nanomsg.{Buffer, given, chunk, Message, unset, set_message, bytes_of}

-- pack_bin with pack_bin_body, and unpack with convert: the first object and what is behind it, or
-- none where it throws. An object of less than 2 ^ 32 bytes is unpacked as it was packed.
pub record Msgpack : Type 0 where
  pub pack : Text → Text
  pub unpack : Text → Option (Text × Text)
  pub unpack-pack : (x rest : Text) → length x < 2 ^ 32 → unpack (pack x ++ rest) ≡ some (x, rest)
  pub length-pack : (x : Text) → 1 ≤ length (pack x)

-- nn_errno().
pub data Errno : Type 0 where
  timed_out eagain eterm other : Errno

-- The answer to one call: what it brings; or a failure, with what is read in fInterrupted behind it.
pub data Call {ℓ} (A : Type ℓ) : Type ℓ where
  works : A → Call A
  fails : Errno → Bool → Call A

abbrev pub reply_of {ℓ} : {A : Type ℓ} → Call A → Reply A
reply_of (works a) = taken a
reply_of (fails timed_out interrupted) = again interrupted
reply_of (fails eagain interrupted) = ended (negsuc 1)
reply_of (fails eterm interrupted) = ended (negsuc 0)
reply_of (fails other interrupted) = ended (negsuc 0)

-- A send's result, its messages and socket, the bytes that nanomsg has taken, and how often a
-- region's callback was called.
pub record Sent {ℓ} (M : Type ℓ) : Type ℓ where
  pub result : ℤ
  pub part : M
  pub socket : Socket
  pub wire : Option Text
  pub callbacks : ℕ

-- nanomsg takes a chunk, and copies the memory of a region.
abbrev pub taken_buffer : Bool → Buffer → Buffer
taken_buffer false b = given
taken_buffer true b = b

abbrev pub after_send : Message → Socket → ℕ → Finish (Unit {0}) → Sent Message
after_send m s callbacks (finished _) = record {
  result = pos (length (bytes_of m));
  part = record m { buffer = taken_buffer (m.region) (m.buffer); receiving = false };
  socket = count_tx (length (bytes_of m)) s;
  wire = some (bytes_of m);
  callbacks = callbacks;
}
after_send m s callbacks (returned r) = record {
  result = r;
  part = m;
  socket = s;
  wire = none;
  callbacks = callbacks;
}

-- The callback of a region is called behind each call of nn_send.
unfoldable pub send_impl :
    (ℕ → Call (Unit {0})) → Bool → ℤ → ℕ → Message → Socket → Option (Sent Message)
send_impl calls dontwait timeout fuel m s =
    let reply : ℕ → Reply (Unit {0}) = λ i. reply_of (calls i) in
    let made = rounds_made reply dontwait timeout (s.snd_timeout) fuel 0 0 in
    ran (after_send m s (if m.region then made else 0))
      (rounds reply dontwait timeout (s.snd_timeout) fuel 0 0)

abbrev pub after_receive : Message → Socket → Finish Text → ℤ × (Message × Socket)
after_receive m s (finished x) =
    (pos (length x), (record (set_message x m) { receiving = true }, count_rx (length x) s))
after_receive m s (returned r) = (r, (m, s))

unfoldable pub receive_impl :
    (ℕ → Call Text) → Bool → ℤ → ℕ → Message → Socket → Option (ℤ × (Message × Socket))
receive_impl calls dontwait timeout fuel m s =
    ran (after_receive m s)
      (rounds (λ i. reply_of (calls i)) dontwait timeout (s.rcv_timeout) fuel 0 0)

-- The parts in one buffer.
unfoldable pub pack_parts : Msgpack → List Message → Text
pack_parts mp [] = []
pack_parts mp (m ∷ ms) = mp.pack (bytes_of m) ++ pack_parts mp ms

unfoldable pub regions : List Message → ℕ
regions [] = 0
regions (m ∷ ms) = (if m.region then 1 else 0) + regions ms

abbrev pub packed_part : Message → Message
packed_part m = record m { receiving = false }

abbrev pub after_send_vector :
    Text → List Message → Socket → ℕ → Finish (Unit {0}) → Sent (List Message)
after_send_vector packed ms s callbacks (finished _) = record {
  result = pos (length packed);
  part = ms;
  socket = count_tx (length packed) s;
  wire = some packed;
  callbacks = callbacks;
}
after_send_vector packed ms s callbacks (returned r) = record {
  result = r;
  part = ms;
  socket = s;
  wire = none;
  callbacks = callbacks;
}

-- The parts are packed, and the callbacks called, in front of the loop.
unfoldable pub send_vector :
    Msgpack
    → (ℕ → Call (Unit {0}))
    → Bool
    → ℤ
    → ℕ
    → List Message
    → Socket
    → Option (Sent (List Message))
send_vector mp calls dontwait timeout fuel ms s =
    ran (after_send_vector (pack_parts mp ms) (map packed_part ms) s (regions ms))
      (rounds (λ i. reply_of (calls i)) dontwait timeout (s.snd_timeout) fuel 0 0)

-- A part is made with the size of its bytes; its memory is taken to be there.
abbrev pub part_of : Text → Message
part_of x = record unset { buffer = chunk x; size = length x; receiving = true }

abbrev pub cons_part : Text → Option (List Message) → Option (List Message)
cons_part x none = none
cons_part x (some ms) = some (part_of x ∷ ms)

-- The loop up to the end of the bytes: none where unpack throws. Its fuel is one for each byte, as
-- unpack moves on.
unfoldable pub unpack_parts : Msgpack → ℕ → Text → Option (List Message)
unpack_parts mp fuel [] = some []
unpack_parts mp zero (b ∷ x) = none
unpack_parts mp (suc fuel) (b ∷ x) = elim (mp.unpack (b ∷ x)) [
  | none ↦ none
  | some (p, rest) ↦ cons_part p (unpack_parts mp fuel rest)
]

-- A receive of parts: its result, and its messages and socket; or unpack threw, with the socket.
pub data Received : Type 0 where
  received : ℤ → List Message → Socket → Received
  throws : Socket → Received

abbrev pub unpacked : ℕ → List Message → Socket → Option (List Message) → Received
unpacked n old s none = throws (count_rx n s)
unpacked n old s (some ms) = received (pos n) (old ++ ms) (count_rx n s)

abbrev pub after_receive_vector : Msgpack → List Message → Socket → Finish Text → Received
after_receive_vector mp old s (finished x) =
    unpacked (length x) old s (unpack_parts mp (length x) x)
after_receive_vector mp old s (returned r) = received r old s

unfoldable pub receive_vector :
    Msgpack → (ℕ → Call Text) → Bool → ℤ → ℕ → List Message → Socket → Option Received
receive_vector mp calls dontwait timeout fuel old s =
    ran (after_receive_vector mp old s)
      (rounds (λ i. reply_of (calls i)) dontwait timeout (s.rcv_timeout) fuel 0 0)
