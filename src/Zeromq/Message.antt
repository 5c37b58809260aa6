-- ===== src/Zeromq/Message.antt =====
-- The messages of the ZeroMQ transport (fairmq/zeromq/FairMQMessageZMQ.h and .cxx). A zmq_msg_t counts
-- by its bytes; a call that would follow a null fMsg is none.
pub mod Used
mod Tests
use bachelor_fair_mq.Base.{
  ℕ, Bool, true, false, ◌&&◌, leb, List, [], ◌∷◌, Option, none, some, Text, length, take,
  if◌then◌else◌,
}

pub record ZMessage : Type 0 where
  pub used_size_modified : Bool
  pub used_size : ℕ
  pub msg : Option Text
  pub view_msg : Option Text

-- The constructors without arguments, with a size, with data, and with a region's data, which is
-- copied, and whose callback is called. Memory of ZeroMQ holds what `fresh` says.
abbrev pub make_empty : ZMessage
make_empty = record { used_size_modified = false; used_size = 0; msg = some []; view_msg = none }

abbrev pub make_sized : (ℕ → Text) → ℕ → ZMessage
make_sized fresh size = record make_empty { used_size = size; msg = some (fresh size) }

abbrev pub make_filled : Text → ℕ → ZMessage
make_filled bytes size = record make_empty { msg = some (take size bytes) }

abbrev pub make_region : Text → ℕ → ZMessage
make_region bytes size = record make_empty { msg = some (take size bytes) }

-- CloseMessage: the view is closed where there is one, else fMsg.
abbrev pub closed_as : Option Text → ZMessage → ZMessage
closed_as none m = record m { msg = none; used_size_modified = false; used_size = 0 }
closed_as (some v) m = record m { view_msg = none; used_size_modified = false; used_size = 0 }

unfoldable pub close_message : ZMessage → ZMessage
close_message m = closed_as (m.view_msg) m

-- The three Rebuild.
unfoldable pub rebuild : ZMessage → ZMessage
rebuild m = record (close_message m) { msg = some [] }

unfoldable pub rebuild_sized : (ℕ → Text) → ℕ → ZMessage → ZMessage
rebuild_sized fresh size m = record (close_message m) { msg = some (fresh size) }

unfoldable pub rebuild_filled : Text → ℕ → ZMessage → ZMessage
rebuild_filled bytes size m = record (close_message m) { msg = some (take size bytes) }

-- GetMessage, with GetData: the view, or else fMsg.
abbrev pub first_of : Option Text → Option Text → Option Text
first_of none o = o
first_of (some v) o = some v

abbrev pub get_message : ZMessage → Option Text
get_message m = first_of (m.view_msg) (m.msg)

abbrev pub size_of : Option Text → Option ℕ
size_of none = none
size_of (some x) = some (length x)

abbrev pub get_size : ZMessage → Option ℕ
get_size m = if m.used_size_modified then some (m.used_size) else size_of (m.msg)

-- SetUsedSize, with its result.
abbrev pub set_used_as : Option Text → ℕ → ZMessage → Option (Bool × ZMessage)
set_used_as none size m = none
set_used_as (some x) size m = some (
    if leb size (length x)
    then (true, record m { used_size = size; used_size_modified = true })
    else (false, m))

unfoldable pub set_used_size : ℕ → ZMessage → Option (Bool × ZMessage)
set_used_size size m = set_used_as (m.msg) size m

-- ApplyUsedSize: the view takes over fMsg.
abbrev pub applied : Bool → Option Text → Option Text → ZMessage → Option ZMessage
applied true none (some x) m =
    some (record m { msg = none; view_msg = some (take (m.used_size) x) })
applied true none none m = none
applied true (some v) o m = some m
applied false v o m = some m

unfoldable pub apply_used_size : ZMessage → Option ZMessage
apply_used_size m = applied (m.used_size_modified) (m.view_msg) (m.msg) m

-- Copy: the bytes of the source's message, and its used size if it was modified.
abbrev pub copied : Option Text → Option Text → ZMessage → ZMessage → Option ZMessage
copied (some own) (some x) from m = some (
    if from.used_size_modified
    then record m { msg = some x; used_size_modified = true; used_size = from.used_size }
    else record m { msg = some x })
copied none o from m = none
copied (some own) none from m = none

unfoldable pub copy : ZMessage → ZMessage → Option ZMessage
copy from m = copied (m.msg) (get_message from) from m
