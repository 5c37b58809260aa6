-- ===== src/Shmem.antt =====
-- The shared memory transport: the message's members (fairmq/shmem/FairMQMessageSHM.h), the meta
-- header (fairmq/shmem/Common.h), and the store that the processes share, with what the manager of
-- fairmq/shmem/Manager.cxx keeps of the regions. The segment's allocator, ZeroMQ and the regions'
-- queues are libraries: their answers are parameters.
pub mod Chunk
pub mod Socket
pub mod System
pub mod Count
pub mod Calls
pub mod Makes
pub mod Moves
pub mod Ownership
pub mod Vectors
pub mod Region
pub mod Gaps
pub mod Regions
pub mod Monitor
mod Tests
use bachelor_fair_mq.Base.{
  ℕ, ℤ, pos, negsuc, ◌+◌, ◌==◌, Bool, true, false, List, [], ◌∷◌, ◌++◌, Text, if◌then◌else◌,
}

-- The members of MetaHeader. A region's id of 0 says that the chunk is in the segment.
pub record MetaHeader : Type 0 where
  pub size : ℕ
  pub region_id : ℕ
  pub handle : ℤ
  pub hint : ℕ

-- What fMessage holds: nothing, with size 0; a header, with the header's size; nothing, but a header
-- written into its memory; or it was closed.
pub data Frame : Type 0 where
  blank closed : Frame
  holding inlined : MetaHeader → Frame

-- fRegionPtr is kept as whether it is set.
pub record Message : Type 0 where
  pub queued : Bool
  pub meta_created : Bool
  pub region_id : ℕ
  pub region_ptr : Bool
  pub handle : ℤ
  pub size : ℕ
  pub hint : ℕ
  pub frame : Frame

pub record RegionBlock : Type 0 where
  pub block_handle : ℕ
  pub block_size : ℕ
  pub block_hint : ℕ

-- The handles of the segment's chunks that are allocated, those that were deallocated without being
-- so, the bytes at a handle of a region or (id 0) the segment, fRegions with fRemote, and the blocks
-- that were acknowledged, each with its region.
pub record Store : Type 0 where
  pub allocated : List ℕ
  pub misused : List ℕ
  pub memory : ℕ → ℕ → Text
  pub regions : List (ℕ × Bool)
  pub acks : List (ℕ × RegionBlock)

-- The header that a message's members make.
abbrev pub header_of : Message → MetaHeader
header_of m = record { size = m.size; region_id = m.region_id; handle = m.handle; hint = m.hint }

-- The members that the constructors set first.
abbrev pub unmade : Message
unmade = record {
  queued = false;
  meta_created = false;
  region_id = 0;
  region_ptr = false;
  handle = negsuc 0;
  size = 0;
  hint = 0;
  frame = blank;
}

-- FairMQMessageSHM(Manager&).
abbrev pub empty_message : Message
empty_message = record unmade { meta_created = true; frame = blank }

unfoldable pub member : ℕ → List ℕ → Bool
member h [] = false
member h (k ∷ ks) = let rest = member h ks in if h == k then true else rest

-- Takes out the first one.
unfoldable pub remove : ℕ → List ℕ → List ℕ
remove h [] = []
remove h (k ∷ ks) = let rest = remove h ks in if h == k then ks else k ∷ rest

-- Segment().deallocate: a handle that is not allocated is a misuse of the segment.
unfoldable pub deallocate : ℕ → Store → Store
deallocate h s =
    if member h (s.allocated)
    then record s { allocated = remove h (s.allocated) }
    else record s { misused = h ∷ s.misused }

abbrev pub write : ℕ → ℕ → Text → (ℕ → ℕ → Text) → ℕ → ℕ → Text
write r h data_ memory r' h' =
    if r == r' then (if h == h' then data_ else memory r' h') else memory r' h'

-- The bytes that GetData points to. A handle below 0 points to no chunk.
abbrev pub get_data : Message → Store → Text
get_data m s = elim (m.handle) [ pos h ↦ s.memory (m.region_id) h | negsuc n ↦ [] ]
