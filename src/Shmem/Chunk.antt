-- ===== src/Shmem/Chunk.antt =====
-- The operations of a message of the shared memory transport (fairmq/shmem/FairMQMessageSHM.cxx).
-- Loops run on fuel, the number of tries: none where it does not suffice.
use bachelor_fair_mq.Base.{
  ℕ, zero, suc, ℤ, pos, negsuc, ◌+◌, ◌-◌, ◌==◌, leb, Bool, true, false, ◌||◌, ◌&&◌, List, [], ◌∷◌,
  ◌++◌, Option, none, some, Text, if◌then◌else◌,
}
use bachelor_fair_mq.Shmem.{
  Frame, blank, closed, holding, inlined, Message, RegionBlock, Store, header_of, unmade,
  deallocate, write, get_data,
}

-- A try to allocate: a handle; or the segment is full, with what is then read in fInterrupted.
pub data Alloc : Type 0 where
  got : ℕ → Alloc
  full : Bool → Alloc

-- timed_send on the region's queue: sent; or out of time, with fInterrupted.
pub data Ack : Type 0 where
  taken : Ack
  late : Bool → Ack

-- What the libraries answer to the tries of one call: to the allocations, to zmq_msg_init_size, to
-- the opening of a region, and to the sends of an acknowledgement.
pub record World : Type 0 where
  pub allocs : ℕ → Alloc
  pub meta_init : Bool
  pub opens : ℕ → Bool
  pub queue : ℕ → Ack

-- The loop of InitializeChunk: none inside where it was interrupted.
unfoldable pub chunk_rounds : (ℕ → Alloc) → ℕ → ℕ → Option (Option ℕ)
chunk_rounds allocs zero i = none
chunk_rounds allocs (suc fuel) i =
    let rest = chunk_rounds allocs fuel (suc i) in
    elim (allocs i) [
      | got h ↦ some (some h)
      | full interrupted ↦ if interrupted then some none else rest
    ]

-- InitializeChunk behind its loop.
abbrev pub fill_meta : Bool → ℕ → Message → Store → Bool × (Message × Store)
fill_meta true size m s =
    let n : Message = record m { size = size } in
    (true, (record n { frame = holding (header_of n); meta_created = true }, s))
fill_meta false size m s = (false, (record m { size = size }, s))

-- The chunk that the loop made, if it made one.
abbrev pub chunk_made :
    Bool → ℕ → Message → Store → Option (Option ℕ) → Option (Bool × (Message × Store))
chunk_made meta_init size m s none = none
chunk_made meta_init size m s (some none) = some (false, (m, s))
chunk_made meta_init size m s (some (some h)) = some (
    fill_meta meta_init size (record m { handle = pos h })
      (record s { allocated = h ∷ s.allocated }))

abbrev pub initialize_from : World → ℕ → ℕ → ℤ → Message → Store → Option (Bool × (Message × Store))
initialize_from w fuel size (pos h) m s = some (fill_meta (w.meta_init) size m s)
initialize_from w fuel size (negsuc n) m s =
    chunk_made (w.meta_init) size m s (chunk_rounds (w.allocs) fuel 0)

unfoldable pub initialize_chunk :
    World → ℕ → ℕ → Message → Store → Option (Bool × (Message × Store))
initialize_chunk w fuel size m s = initialize_from w fuel size (m.handle) m s

-- `memcpy(fLocalPtr, data, size)` where the chunk was made, with whether the data was given back by
-- ffn or free. The copy goes to the chunk of the handle; behind a Rebuild of a message that had a
-- chunk, the source copies to the address that it had read for that one.
abbrev pub written : ℤ → Text → Message → Store → Option (Bool × (Message × Store))
written (pos h) bytes m s =
    some (true, (m, record s { memory = write (m.region_id) h bytes (s.memory) }))
written (negsuc n) bytes m s = some (true, (m, s))

abbrev pub fill : Text → Option (Bool × (Message × Store)) → Option (Bool × (Message × Store))
fill bytes none = none
fill bytes (some (false, (m, s))) = some (false, (m, s))
fill bytes (some (true, (m, s))) = written (m.handle) bytes m s

-- FairMQMessageSHM(Manager&, size) and FairMQMessageSHM(Manager&, data, size, ffn, hint).
unfoldable pub make_sized : World → ℕ → ℕ → Store → Option (Bool × (Message × Store))
make_sized w fuel size s = initialize_chunk w fuel size unmade s

unfoldable pub make_filled : World → ℕ → Text → ℕ → Store → Option (Bool × (Message × Store))
make_filled w fuel bytes size s = fill bytes (initialize_chunk w fuel size unmade s)

-- FairMQMessageSHM(Manager&, region, data, size, hint), with addresses as numbers: none where it
-- throws. Both comparisons of the source, joined by `||`.
unfoldable pub make_region : Bool → ℕ → ℕ → ℕ → ℕ → ℕ → ℕ → Option Message
make_region meta_init id base region_size data_ size hint =
    let n : Message = record unmade { region_id = id; size = size; hint = hint } in
    let handle : ℤ = if leb base data_ then pos (data_ - base) else negsuc (base - data_ - 1) in
    let made : Message = record n { handle = handle } in
    if leb base data_ || leb data_ (base + region_size)
    then some (
        if meta_init
        then record made { frame = holding (header_of made); meta_created = true }
        else made)
    else none

-- Manager::GetRemoteRegion: whether there is a region, and the store behind.
unfoldable pub has_region : ℕ → List (ℕ × Bool) → Bool
has_region id [] = false
has_region id ((k, r) ∷ rs) = let rest = has_region id rs in if id == k then true else rest

abbrev pub get_remote_region : (ℕ → Bool) → ℕ → Store → Bool × Store
get_remote_region opens id s =
    if has_region id (s.regions)
    then (true, s)
    else (if opens id then (true, record s { regions = (id, true) ∷ s.regions }) else (false, s))

-- `if (!fRegionPtr) { fRegionPtr = GetRemoteRegion(fRegionId); }`.
abbrev pub pointed : Message → Bool × Store → Message × Store
pointed m (there, s) = (record m { region_ptr = there }, s)

abbrev pub find_region : (ℕ → Bool) → Message → Store → Message × Store
find_region opens m s =
    if m.region_ptr then (m, s) else pointed m (get_remote_region opens (m.region_id) s)

-- One round: with a region, what its queue answers; without, the loop is over.
abbrev pub ack_answer :
    Ack → RegionBlock → Message → Store → Option (Message × Store) → Option (Message × Store)
ack_answer taken block m s rest =
    if m.region_ptr
    then some (m, record s { acks = s.acks ++ (m.region_id, block) ∷ [] })
    else some (m, s)
ack_answer (late interrupted) block m s rest =
    if m.region_ptr then (if interrupted then some (m, s) else rest) else some (m, s)

-- The loop that acknowledges a block. An interrupted one leaves it unacknowledged.
unfoldable pub ack_rounds : World → ℕ → ℕ → RegionBlock → Message → Store → Option (Message × Store)
ack_rounds w zero i block m s = none
ack_rounds w (suc fuel) i block m s =
    let (m', s') = find_region (w.opens) m s in
    let rest = ack_rounds w fuel (suc i) block m' s' in ack_answer (w.queue i) block m' s' rest

-- CloseMessage up to the closing of fMessage, for a handle from 0 on.
abbrev pub release : World → ℕ → ℕ → Message → Store → Option (Message × Store)
release w fuel h m s =
    if m.region_id == 0
    then some (record m { handle = pos 0 }, deallocate h s)
    else ack_rounds w fuel 0 (record { block_handle = h; block_size = m.size; block_hint = m.hint })
        m s

abbrev pub close_meta : Message → Message
close_meta m = record m { frame = if m.meta_created then closed else m.frame }

abbrev pub closed_meta : Option (Message × Store) → Option (Message × Store)
closed_meta none = none
closed_meta (some (m, s)) = some (close_meta m, s)

abbrev pub close_from : World → ℕ → Bool → ℤ → Message → Store → Option (Message × Store)
close_from w fuel queued (negsuc n) m s = some (close_meta m, s)
close_from w fuel true (pos h) m s = some (close_meta m, s)
close_from w fuel false (pos h) m s = closed_meta (release w fuel h m s)

unfoldable pub close_message : World → ℕ → Message → Store → Option (Message × Store)
close_message w fuel m s = close_from w fuel (m.queued) (m.handle) m s

-- Rebuild without arguments, with a size, and with data. The fuel serves each of the two loops.
abbrev pub reopened : Option (Message × Store) → Option (Message × Store)
reopened none = none
reopened (some (m, s)) = some (record m { queued = false; frame = blank; meta_created = true }, s)

unfoldable pub rebuild : World → ℕ → Message → Store → Option (Message × Store)
rebuild w fuel m s = reopened (close_message w fuel m s)

abbrev pub refill : World → ℕ → ℕ → Option (Message × Store) → Option (Bool × (Message × Store))
refill w fuel size none = none
refill w fuel size (some (m, s)) = initialize_chunk w fuel size (record m { queued = false }) s

unfoldable pub rebuild_sized : World → ℕ → ℕ → Message → Store → Option (Bool × (Message × Store))
rebuild_sized w fuel size m s = refill w fuel size (close_message w fuel m s)

unfoldable pub rebuild_filled :
    World → ℕ → Text → ℕ → Message → Store → Option (Bool × (Message × Store))
rebuild_filled w fuel bytes size m s = fill bytes (rebuild_sized w fuel size m s)

-- ~FairMQMessageSHM, of which the store is left.
abbrev pub left_of : Option (Message × Store) → Option Store
left_of none = none
left_of (some (m, s)) = some s

unfoldable pub destroy : World → ℕ → Message → Store → Option Store
destroy w fuel m s = left_of (close_message w fuel m s)

-- SetUsedSize, with whether the segment shrinks the chunk in place. The write of the header's size
-- into a frame that holds none is left out: no header is read there.
abbrev pub resize_frame : ℕ → Frame → Frame
resize_frame size (holding h) = holding (record h { size = size })
resize_frame size (inlined h) = inlined (record h { size = size })
resize_frame size blank = blank
resize_frame size closed = closed

unfoldable pub set_used_size : Bool → ℕ → Message → Bool × Message
set_used_size shrinks size m =
    if size == m.size
    then (true, m)
    else (if leb size (m.size) && shrinks
        then (true, record m { size = size; frame = resize_frame size (m.frame) })
        else (false, m))

-- Copy, with the source message: the target is unchanged where it has a chunk, or the source's
-- handle is 0.
abbrev pub copied : Option (Bool × (Message × Store)) → Option (Message × Store)
copied none = none
copied (some (b, r)) = some r

abbrev pub copy_onto : ℤ → ℤ → World → ℕ → Message → Message → Store → Option (Message × Store)
copy_onto (pos h) _ w fuel from m s = some (m, s)
copy_onto (negsuc n) (pos zero) w fuel from m s = some (m, s)
copy_onto (negsuc n) (pos (suc h)) w fuel from m s =
    copied (fill (get_data from s) (initialize_chunk w fuel (from.size) m s))
copy_onto (negsuc n) (negsuc k) w fuel from m s =
    copied (fill (get_data from s) (initialize_chunk w fuel (from.size) m s))

unfoldable pub copy : World → ℕ → Message → Message → Store → Option (Message × Store)
copy w fuel from m s = copy_onto (m.handle) (from.handle) w fuel from m s
