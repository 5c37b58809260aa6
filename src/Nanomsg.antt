-- ===== src/Nanomsg.antt =====
-- The messages of the nanomsg transport (fairmq/nanomsg/FairMQMessageNN.h and .cxx). The heap is
-- nanomsg's: whether nn_allocmsg succeeds, and what memory it gives, are parameters.
pub mod Socket
pub mod Parts
pub mod Gaps
mod Tests
use bachelor_fair_mq.Base.{
  ℕ, suc, ◌-◌, ◌+◌, Bool, true, false, leb, List, [], ◌∷◌, take, Text, length, ◌&&◌, if◌then◌else◌,
}

-- What fMessage points to: nothing, a chunk of nanomsg, memory of a region, or a chunk that nanomsg
-- has taken back.
pub data Buffer : Type 0 where
  null given : Buffer
  chunk outside : Text → Buffer

-- fRegionPtr is kept as whether it is set.
pub record Message : Type 0 where
  pub buffer : Buffer
  pub size : ℕ
  pub hint : ℕ
  pub receiving : Bool
  pub region : Bool

-- The chunks that are allocated, and the calls of nn_freemsg on what is none.
pub record Heap : Type 0 where
  pub live : ℕ
  pub misused : ℕ

pub record Nanomsg : Type 0 where
  pub allocates : Bool
  pub fresh : ℕ → Text

-- nn_allocmsg, and the memory filled with bytes.
abbrev pub allocate : Nanomsg → ℕ → Heap → Buffer × Heap
allocate nn size h =
    if nn.allocates then (chunk (nn.fresh size), record h { live = suc (h.live) }) else (null, h)

abbrev pub fill : Text → Buffer → Buffer
fill bytes null = null
fill bytes given = given
fill bytes (chunk x) = chunk bytes
fill bytes (outside x) = outside bytes

abbrev pub is_null : Buffer → Bool
is_null null = true
is_null _ = false

-- nn_freemsg, with whether it succeeds. It fails on null; on what is no chunk it is a misuse.
abbrev pub free_message : Buffer → Heap → Bool × Heap
free_message (chunk x) h = (true, record h { live = h.live - 1 })
free_message null h = (false, h)
free_message given h = (false, record h { misused = suc (h.misused) })
free_message (outside x) h = (false, record h { misused = suc (h.misused) })

abbrev pub unset : Message
unset = record { buffer = null; size = 0; hint = 0; receiving = false; region = false }

-- The four constructors; the third with whether the data was given back by ffn or free.
unfoldable pub make_empty : Nanomsg → Heap → Message × Heap
make_empty nn h = let (b, h') = allocate nn 0 h in (record unset { buffer = b }, h')

unfoldable pub make_sized : Nanomsg → ℕ → Heap → Message × Heap
make_sized nn size h =
    let (b, h') = allocate nn size h in (record unset { buffer = b; size = size }, h')

abbrev pub filled : Text → ℕ → Message → Buffer → Bool × Message
filled bytes size m null = (false, record m { buffer = null })
filled bytes size m b = (true, record m { buffer = fill bytes b; size = size })

unfoldable pub make_filled : Nanomsg → Text → ℕ → Heap → (Bool × Message) × Heap
make_filled nn bytes size h = let (b, h') = allocate nn size h in (filled bytes size unset b, h')

unfoldable pub make_region : Text → ℕ → ℕ → Message
make_region bytes size hint = record unset {
  buffer = outside bytes;
  size = size;
  hint = hint;
  region = true;
}

unfoldable pub close_message : Message → Heap → Message × Heap
close_message m h =
    let (freed, h') = free_message (m.buffer) h in
    (if freed then record m { buffer = null; size = 0 } else m, h')

-- The three Rebuild. The last gives the data back only to ffn, where there is one.
unfoldable pub rebuild : Message → Heap → Message × Heap
rebuild m h = let (n, h') = close_message m h in (record n { receiving = false }, h')

unfoldable pub rebuild_sized : Nanomsg → ℕ → Message → Heap → Message × Heap
rebuild_sized nn size m h =
    let (n, h') = close_message m h in
    let (b, h'') = allocate nn size h' in
    (record n { buffer = b; size = size; receiving = false }, h'')

unfoldable pub rebuild_filled : Nanomsg → Text → ℕ → Bool → Message → Heap → (Bool × Message) × Heap
rebuild_filled nn bytes size ffn m h =
    let (n, h') = close_message m h in
    let (b, h'') = allocate nn size h' in
    let (done, k) = filled bytes size n b in
    ((done && ffn, if done then record k { receiving = false } else k), h'')

-- nn_reallocmsg to a smaller size.
abbrev pub shrink : ℕ → Buffer → Buffer
shrink size null = null
shrink size given = given
shrink size (chunk x) = chunk (take size x)
shrink size (outside x) = outside (take size x)

unfoldable pub set_used_size : ℕ → Message → Bool × Message
set_used_size size m =
    if leb size (m.size)
    then (true, record m { buffer = shrink size (m.buffer); size = size })
    else (false, m)

abbrev pub set_message : Text → Message → Message
set_message bytes m = record m { buffer = chunk bytes; size = length bytes }

abbrev pub contents : Buffer → Text
contents null = []
contents given = []
contents (chunk x) = x
contents (outside x) = x

-- The bytes from GetData on, as many as GetSize.
abbrev pub bytes_of : Message → Text
bytes_of m = take (m.size) (contents (m.buffer))

unfoldable pub copy : Nanomsg → Message → Message → Heap → Message × Heap
copy nn from m h =
    let h' : Heap = if is_null (m.buffer) then h else (free_message (m.buffer) h).1 in
    let (b, h'') = allocate nn (from.size) h' in ((filled (bytes_of from) (from.size) m b).1, h'')

unfoldable pub destroy : Message → Heap → Heap
destroy m h = if m.receiving then (close_message m h).1 else h
