-- ===== src/Zeromq/Poller.antt =====
-- The poller of the ZeroMQ transport (fairmq/zeromq/FairMQPollerZMQ.cxx). A channel counts by its
-- socket, which is a handle, and `socket_type` is its option ZMQ_TYPE.
pub mod Offsets
pub mod Blocks
pub mod Reads
pub mod Checks
mod Tests
use bachelor_fair_mq.Base.{
  ℕ, suc, ◌+◌, List, [], ◌∷◌, map, Text, Option, none, some, Bool, true, false, ◌&&◌, Outcome, ok,
  throws, exits, ◌>>=◌, or_throw, or_exit, lookup, insert, length, replicate, get_elem?, set_elem,
}

-- The socket types of zmq.h.
pub data SocketType : Type 0 where
  zmq_pair zmq_pub zmq_sub zmq_req zmq_rep zmq_dealer zmq_router : SocketType
  zmq_pull zmq_push zmq_xpub zmq_xsub zmq_stream : SocketType

-- The bits ZMQ_POLLIN and ZMQ_POLLOUT.
pub record Events : Type 0 where
  pub poll_in : Bool
  pub poll_out : Bool

-- zmq_pollitem_t.
pub record Item : Type 0 where
  pub socket : ℕ
  pub events : Events
  pub revents : Events

-- SetItemEvents.
abbrev pub set_item_events : SocketType → Outcome Events
set_item_events zmq_req = ok (record { poll_in = true; poll_out = true })
set_item_events zmq_rep = ok (record { poll_in = true; poll_out = true })
set_item_events zmq_pair = ok (record { poll_in = true; poll_out = true })
set_item_events zmq_dealer = ok (record { poll_in = true; poll_out = true })
set_item_events zmq_router = ok (record { poll_in = true; poll_out = true })
set_item_events zmq_push = ok (record { poll_in = false; poll_out = true })
set_item_events zmq_pub = ok (record { poll_in = false; poll_out = true })
set_item_events zmq_xpub = ok (record { poll_in = false; poll_out = true })
set_item_events zmq_pull = ok (record { poll_in = true; poll_out = false })
set_item_events zmq_sub = ok (record { poll_in = true; poll_out = false })
set_item_events zmq_xsub = ok (record { poll_in = true; poll_out = false })
set_item_events zmq_stream = exits

-- fItems, in which an item is none until it is written, fNumItems and fOffsetMap.
pub record Poller : Type 0 where
  pub items : List (Option Item)
  pub num_items : ℕ
  pub offset_map : List (Text × ℕ)

-- What the first loop of the constructor computes.
pub record Layout : Type 0 where
  pub offsets : List (Text × ℕ)
  pub offset : ℕ
  pub count : ℕ

abbrev pub no_events : Events
no_events = record { poll_in = false; poll_out = false }

-- operator[] of fOffsetMap.
abbrev pub offset_of : List (Text × ℕ) → Text → ℕ
offset_of m k = elim (lookup k m) [ none ↦ 0 | some n ↦ n ]

module _ (socket_type : ℕ → SocketType) where
  abbrev pub item : ℕ → Outcome Item
  item s = do
    events ← set_item_events (socket_type s)
    ok (record { socket = s; events = events; revents = no_events })

  -- The items from an index on.
  unfoldable pub fill_channel : ℕ → List ℕ → List (Option Item) → Outcome (List (Option Item))
  fill_channel n [] items = ok items
  fill_channel n (s ∷ ss) items = do
    it ← item s
    fill_channel (suc n) ss (set_elem n (some it) items)

  -- FairMQPollerZMQ(channels), of either kind of vector.
  abbrev pub of_channels : List ℕ → Outcome Poller
  of_channels ss = do
    items ← fill_channel 0 ss (replicate (length ss) none)
    ok (record { items = items; num_items = length ss; offset_map = [] })

  -- FairMQPollerZMQ(cmdSocket, dataSocket).
  abbrev pub of_sockets : ℕ → ℕ → Outcome Poller
  of_sockets cmd data_socket = do
    let incoming : Events = record { poll_in = true; poll_out = false }
    it ← item data_socket
    ok (record {
      items = some (record { socket = cmd; events = incoming; revents = no_events }) ∷ some it ∷ [];
      num_items = 2;
      offset_map = [];
    })

  -- FairMQPollerZMQ(channelsMap, channelList).
  module _ (channels : List (Text × List ℕ)) where
    unfoldable pub lay_out : List Text → Layout → Outcome Layout
    lay_out [] l = ok l
    lay_out (k ∷ ks) l = do
      ss ← or_throw (lookup k channels)
      lay_out ks (record {
        offsets = insert k (l.offset) (l.offsets);
        offset = l.offset + length ss;
        count = l.count + length ss;
      })

    unfoldable pub fill :
        List (Text × ℕ) → List Text → List (Option Item) → Outcome (List (Option Item))
    fill m [] items = ok items
    fill m (k ∷ ks) items = do
      ss ← or_throw (lookup k channels)
      items' ← fill_channel (offset_of m k) ss items
      fill m ks items'

    unfoldable pub of_map : List Text → Outcome Poller
    of_map ks = do
      l ← lay_out ks (record { offsets = []; offset = 0; count = 0 })
      items ← fill (l.offsets) ks (replicate (l.count) none)
      ok (record { items = items; num_items = l.count; offset_map = l.offsets })

-- What zmq_poll does: it answers which sockets are ready for what, or fails.
pub data PollAnswer : Type 0 where
  answered : (ℕ → Events) → PollAnswer
  eterm failed : PollAnswer

-- zmq_poll sets in revents those of the events that the socket is ready for.
abbrev pub polled : (ℕ → Events) → Item → Item
polled ready it =
    let r = ready (it.socket) in
    record it {
      revents = record {
        poll_in = it.events.poll_in && r.poll_in;
        poll_out = it.events.poll_out && r.poll_out;
      };
    }

abbrev pub polled_slot : (ℕ → Events) → Option Item → Option Item
polled_slot ready none = none
polled_slot ready (some it) = some (polled ready it)

-- Poll.
abbrev pub poll : PollAnswer → Poller → Outcome Poller
poll (answered ready) p = ok (record p { items = map (polled_slot ready) (p.items) })
poll eterm p = ok p
poll failed p = throws

-- The item at an index; none where the read has no defined value.
abbrev pub slot : List (Option Item) → ℕ → Option Item
slot items n = elim (get_elem? items n) [ none ↦ none | some s ↦ s ]

abbrev pub bit : (Events → Bool) → Option Item → Option Bool
bit f none = none
bit f (some it) = some (f (it.revents))

-- CheckInput and CheckOutput, by an index, and by a channel's name and an index.
abbrev pub check_input_at : Poller → ℕ → Option Bool
check_input_at p n = bit (λ e. e.poll_in) (slot p.items n)

abbrev pub check_output_at : Poller → ℕ → Option Bool
check_output_at p n = bit (λ e. e.poll_out) (slot p.items n)

abbrev pub check_input : Poller → Text → ℕ → Outcome (Option Bool)
check_input p key n =
    or_exit (do offset ← or_throw (lookup key (p.offset_map)); ok (check_input_at p (offset + n)))

abbrev pub check_output : Poller → Text → ℕ → Outcome (Option Bool)
check_output p key n =
    or_exit (do offset ← or_throw (lookup key (p.offset_map)); ok (check_output_at p (offset + n)))
