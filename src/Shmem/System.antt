-- ===== src/Shmem/System.antt =====
-- Processes that share a segment: the store, the messages that live in them, and the headers on the
-- way between their sockets. A step is a call of fairmq/shmem/FairMQMessageSHM.cxx or
-- fairmq/shmem/FairMQSocketSHM.cxx that takes effect.
use bachelor_fair_mq.Base.{
  ℕ, ℤ, pos, Bool, false, List, [], ◌∷◌, ◌++◌, Option, none, some, Text, ◌≡◌, ◌≢◌, All, ◌⊎◌,
}
use bachelor_fair_mq.Zeromq.{Socket}
use bachelor_fair_mq.Shmem.{
  MetaHeader, Frame, blank, closed, holding, inlined, Message, Store, header_of, empty_message,
}
use bachelor_fair_mq.Shmem.Chunk.{
  World, make_sized, make_filled, make_region, rebuild, rebuild_sized, rebuild_filled, copy,
  destroy, set_used_size,
}
use bachelor_fair_mq.Shmem.Socket.{
  Call, Sent, received, send_impl, send_vector, after_receive, after_receive_vector, read_header,
}

abbrev pub System : Type 0
System = Store × (List Message × List (List MetaHeader))

-- A header in the message's frame is that of its members.
abbrev pub Fits : Frame → Message → Type 0
Fits blank m = Unit {0}
Fits closed m = Unit {0}
Fits (holding h) m = h ≡ header_of m
Fits (inlined h) m = h ≡ header_of m

abbrev pub Fit : Message → Type 0
Fit m = Fits (m.frame) m

-- A message that can be a part of several: it was not sent, and there is a header in its frame.
abbrev pub Ready : Message → Type 0
Ready m =
    (m.queued ≡ false) × ((garbage : MetaHeader) → read_header garbage (m.frame) ≡ header_of m)

-- A message that no chunk was made for.
abbrev pub Fresh : Message → Type 0
Fresh m = (m.queued ≡ false) × ((h : ℕ) → m.handle ≢ pos h)

-- A message that has no handle and is of no region, was not sent, and has no header in its frame: such
-- as one that is constructed without arguments.
abbrev pub Headless : Frame → Type 0
Headless blank = Unit {0}
Headless closed = Unit {0}
Headless (holding h) = ⊥
Headless (inlined h) = ⊥

abbrev pub Bare : Message → Type 0
Bare m = (m.region_id ≡ 0) × (Fresh m × Headless (m.frame))

-- A message that Copy leaves alone, since it has a handle, or makes a chunk for.
abbrev pub Target : Message → Type 0
Target m = ((h : ℕ) × (m.handle ≡ pos h)) ⊎ Bare m

abbrev pub push : Option (List MetaHeader) → List (List MetaHeader) → List (List MetaHeader)
push none ws = ws
push (some hs) ws = ws ++ hs ∷ []

-- Messages are not sent twice, and not received into where they have a chunk. Only a message without a
-- handle, a region and a header is rebuilt, or copied to if it has no handle; any message is copied.
-- Any message, and any of the headers on the way, can be next.
pub data Step : System → System → Type 0 where
  begins :
      {s : Store} {ms : List Message} {ws : List (List MetaHeader)}
      → Step (s, (ms, ws)) (s, (empty_message ∷ ms, ws))
  makes :
      {s : Store} {ms : List Message} {ws : List (List MetaHeader)} (w : World) (fuel : ℕ)
      (bytes : Text) (size : ℕ) (b : Bool) (m : Message) (t : Store)
      → make_filled w fuel bytes size s ≡ some (b, (m, t))
      → Step (s, (ms, ws)) (t, (m ∷ ms, ws))
  makes_sized :
      {s : Store} {ms : List Message} {ws : List (List MetaHeader)} (w : World) (fuel size : ℕ)
      (b : Bool) (m : Message) (t : Store)
      → make_sized w fuel size s ≡ some (b, (m, t))
      → Step (s, (ms, ws)) (t, (m ∷ ms, ws))
  rebuilds :
      {s : Store} {ms : List Message} {ws : List (List MetaHeader)} (w : World) (fuel : ℕ)
      (m n : Message) (t : Store)
      → Bare m
      → rebuild w fuel m s ≡ some (n, t)
      → Step (s, (m ∷ ms, ws)) (t, (n ∷ ms, ws))
  rebuilds_sized :
      {s : Store} {ms : List Message} {ws : List (List MetaHeader)} (w : World) (fuel size : ℕ)
      (m : Message) (b : Bool) (n : Message) (t : Store)
      → Bare m
      → rebuild_sized w fuel size m s ≡ some (b, (n, t))
      → Step (s, (m ∷ ms, ws)) (t, (n ∷ ms, ws))
  rebuilds_filled :
      {s : Store} {ms : List Message} {ws : List (List MetaHeader)} (w : World) (fuel : ℕ)
      (bytes : Text) (size : ℕ) (m : Message) (b : Bool) (n : Message) (t : Store)
      → Bare m
      → rebuild_filled w fuel bytes size m s ≡ some (b, (n, t))
      → Step (s, (m ∷ ms, ws)) (t, (n ∷ ms, ws))
  copies :
      {s : Store} {ms : List Message} {ws : List (List MetaHeader)} (w : World) (fuel : ℕ)
      (from m n : Message) (t : Store)
      → Target m
      → copy w fuel from m s ≡ some (n, t)
      → Step (s, (m ∷ ms, ws)) (t, (n ∷ ms, ws))
  makes_region :
      {s : Store} {ms : List Message} {ws : List (List MetaHeader)} (meta_init : Bool)
      (id base region_size data_ size hint : ℕ) (m : Message)
      → id ≢ 0
      → make_region meta_init id base region_size data_ size hint ≡ some m
      → Step (s, (ms, ws)) (s, (m ∷ ms, ws))
  uses :
      {s : Store} {ms : List Message} {ws : List (List MetaHeader)} (shrinks : Bool) (size : ℕ)
      (m : Message)
      → Step (s, (m ∷ ms, ws)) (s, ((set_used_size shrinks size m).1 ∷ ms, ws))
  sends :
      {s : Store} {ms : List Message} {ws : List (List MetaHeader)} (interrupted : ℕ → Bool)
      (calls : ℕ → Call (Unit {0})) (dontwait : Bool) (timeout : ℤ) (fuel : ℕ) (m : Message)
      (socket : Socket) (r : Sent Message)
      → m.queued ≡ false
      → send_impl interrupted calls dontwait timeout fuel m socket ≡ some r
      → Step (s, (m ∷ ms, ws)) (s, (r.part ∷ ms, push (r.wire) ws))
  sends_vector :
      {s : Store} (ms : List Message) {ws : List (List MetaHeader)} (garbage : MetaHeader)
      (interrupted : ℕ → Bool) (calls : ℕ → Call (Unit {0})) (dontwait : Bool) (timeout : ℤ)
      (fuel : ℕ) (parts : List Message) (socket : Socket) (r : Sent (List Message))
      → All Ready parts
      → send_vector garbage interrupted calls dontwait timeout fuel parts socket ≡ some r
      → Step (s, (parts ++ ms, ws)) (s, (r.part ++ ms, push (r.wire) ws))
  receives :
      {s : Store} {ms : List Message} {ws : List (List MetaHeader)} (m n : Message)
      (socket t : Socket) (hs : List MetaHeader) (r : ℤ)
      → Fresh m
      → after_receive m socket hs ≡ received r n t
      → Step (s, (m ∷ ms, hs ∷ ws)) (s, (n ∷ ms, ws))
  receives_vector :
      {s : Store} (ms : List Message) {ws : List (List MetaHeader)} (old parts : List Message)
      (socket t : Socket) (hs : List MetaHeader) (r : ℤ)
      → after_receive_vector old socket hs ≡ received r parts t
      → Step (s, (old ++ ms, hs ∷ ws)) (s, (parts ++ ms, ws))
  destroys :
      {s : Store} {ms : List Message} {ws : List (List MetaHeader)} (w : World) (fuel : ℕ)
      (m : Message) (t : Store)
      → destroy w fuel m s ≡ some t
      → Step (s, (m ∷ ms, ws)) (t, (ms, ws))
  turns :
      {s : Store} {ms : List Message} {ws : List (List MetaHeader)} (m : Message)
      → Step (s, (m ∷ ms, ws)) (s, (ms ++ m ∷ [], ws))
  overtakes :
      {s : Store} {ms : List Message} {ws : List (List MetaHeader)} (hs : List MetaHeader)
      → Step (s, (ms, hs ∷ ws)) (s, (ms, ws ++ hs ∷ []))

-- What the processes come to from a store, without messages.
pub data Reaches (s : Store) : System → Type 0 where
  starts : Reaches s (s, ([], []))
  goes : {x y : System} → Reaches s x → Step x y → Reaches s y
