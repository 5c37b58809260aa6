-- ===== src/Zeromq/Poller/Checks.antt =====
-- The poller as its users see it: from the names of channels to the readiness of a socket
-- (fairmq/zeromq/FairMQPollerZMQ.cxx).
use bachelor_fair_mq.Base.{
  ℕ, zero, suc, ◌+◌, List, [], ◌∷◌, map, Text, Option, none, some, Bool, true, false, ◌&&◌, ok,
  ◌>>=◌, lookup, replicate, get_elem?, All, All-get_elem?, ◌≡◌, ◌≢◌, refl, subst, sym, ap,
  ok-injective,
}
use bachelor_fair_mq.Zeromq.Poller.{
  SocketType, zmq_pair, zmq_pub, zmq_sub, zmq_req, zmq_rep, zmq_dealer, zmq_router, zmq_pull,
  zmq_push, zmq_xpub, zmq_xsub, zmq_stream, Layout, Item, Poller, Events, answered, item,
  set_item_events, fill_channel, fill, offset_of, of_map, poll, polled, polled_slot, check_input,
  check_output, lay_out, slot, check_input_at, check_output_at,
}
use bachelor_fair_mq.Zeromq.Poller.Offsets.{sockets_of}
use bachelor_fair_mq.Zeromq.Poller.Reads.{of_map-Held}

-- Which sockets receive, and which send.
abbrev pub can_receive : SocketType → Bool
can_receive zmq_push = false
can_receive zmq_pub = false
can_receive zmq_xpub = false
can_receive zmq_stream = false
can_receive _ = true

abbrev pub can_send : SocketType → Bool
can_send zmq_pull = false
can_send zmq_sub = false
can_send zmq_xsub = false
can_send zmq_stream = false
can_send _ = true

set_item_events-can :
    (t : SocketType)
    → t ≢ zmq_stream
    → set_item_events t ≡ ok (record { poll_in = can_receive t; poll_out = can_send t })
set_item_events-can zmq_pair n = refl
set_item_events-can zmq_pub n = refl
set_item_events-can zmq_sub n = refl
set_item_events-can zmq_req n = refl
set_item_events-can zmq_rep n = refl
set_item_events-can zmq_dealer n = refl
set_item_events-can zmq_router n = refl
set_item_events-can zmq_pull n = refl
set_item_events-can zmq_push n = refl
set_item_events-can zmq_xpub n = refl
set_item_events-can zmq_xsub n = refl
set_item_events-can zmq_stream n = absurd (n refl)

get_elem?-map :
    (f : Option Item → Option Item) (items : List (Option Item)) (n : ℕ) (it : Option Item)
    → get_elem? items n ≡ some it
    → get_elem? (map f items) n ≡ some (f it)
get_elem?-map f [] n it h = cc
get_elem?-map f (x ∷ xs) zero it h = ap (λ o. elim o [ none ↦ none | some y ↦ some (f y) ]) h
get_elem?-map f (x ∷ xs) (suc n) it h = get_elem?-map f xs n it h

module _ (socket_type : ℕ → SocketType) where
  abbrev pub IsPolled : ℕ → Type 0
  IsPolled s = socket_type s ≢ zmq_stream

  fill_channel_returns :
      (n : ℕ) (ss : List ℕ) (items : List (Option Item))
      → All IsPolled ss
      → (items' : List (Option Item)) × (fill_channel socket_type n ss items ≡ ok items')
  unfolding fill_channel
  fill_channel_returns n [] items a = (items, refl)
  fill_channel_returns n (s ∷ ss) items (p, a) =
      let e = set_item_events-can (socket_type s) p in rw e (fill_channel_returns (suc n) ss _ a)

  module _ (channels : List (Text × List ℕ)) where
    -- The channel is there, and its sockets are of types that the poller has events for.
    pub record IsPollable (k : Text) : Type 0 where
      pub sockets : List ℕ
      pub there : lookup k channels ≡ some sockets
      pub all_polled : All IsPolled sockets

    lay_out_returns :
        (ks : List Text) (l : Layout)
        → All IsPollable ks
        → (l' : Layout) × (lay_out socket_type channels ks l ≡ ok l')
    unfolding lay_out
    lay_out_returns [] l a = (l, refl)
    lay_out_returns (k ∷ ks) l (p, a) = rw (p.there) (lay_out_returns ks _ a)

    fill_returns :
        (m : List (Text × ℕ)) (ks : List Text) (items : List (Option Item))
        → All IsPollable ks
        → (items' : List (Option Item)) × (fill socket_type channels m ks items ≡ ok items')
    unfolding fill
    fill_returns m [] items a = (items, refl)
    fill_returns m (k ∷ ks) items (p, a) =
        let (items1, e) = fill_channel_returns (offset_of m k) (p.sockets) items (p.all_polled) in
        rw (p.there, e) (fill_returns m ks items1 a)

    of_map_returns :
        (ks : List Text)
        → All IsPollable ks
        → (p : Poller) × (of_map socket_type channels ks ≡ ok p)
    unfolding of_map
    of_map_returns ks a =
        let (l, e) = lay_out_returns ks (record { offsets = []; offset = 0; count = 0 }) a in
        let (items, f) = fill_returns (l.offsets) ks (replicate (l.count) none) a in
        (record { items = items; num_items = l.count; offset_map = l.offsets }, rw (e, f) refl)

    item-polled :
        (s : ℕ) (it : Item) (ready : ℕ → Events)
        → IsPolled s
        → item socket_type s ≡ ok it
        → (polled ready it).revents ≡ record {
          poll_in = can_receive (socket_type s) && (ready s).poll_in;
          poll_out = can_send (socket_type s) && (ready s).poll_out;
        }
    item-polled s it ready p h =
        ap (λ (i : Item). (polled ready i).revents)
          (sym (ok-injective (rw (item, set_item_events-can (socket_type s) p) at h)))

    -- A poller over channels that are there, of sockets that are not ZMQ_STREAM, is made; behind a
    -- zmq_poll that returns, CheckInput and CheckOutput on the name of a channel in its list, which may
    -- name one twice, and the index of one of its sockets tell whether that socket can receive or send
    -- by its type and zmq_poll has found it ready to.
    pub of_map-Checks :
        (ks : List Text) (n : ℕ) (k : Text) (ss : List ℕ) (i s : ℕ) (ready : ℕ → Events)
        → All IsPollable ks
        → get_elem? ks n ≡ some k
        → lookup k channels ≡ some ss
        → get_elem? ss i ≡ some s
        → (of_map socket_type channels ks >>= poll (answered ready) >>= λ p. check_input p k i)
            ≡ ok (some (can_receive (socket_type s) && (ready s).poll_in))
          × (of_map socket_type channels ks >>= poll (answered ready) >>= λ p. check_output p k i)
            ≡ ok (some (can_send (socket_type s) && (ready s).poll_out))
    of_map-Checks ks n k ss i s ready a g there e =
        let (p, made) = of_map_returns ks a in
        let in_sockets : get_elem? (sockets_of socket_type channels k) i ≡ some s =
          rw (sockets_of, there) e in
        let (offset, at_k, held) =
          of_map-Held socket_type channels ks n k i s p made g in_sockets in
        let is_polled : IsPolled s =
          let pollable = All-get_elem? IsPollable ks n k a g in
          All-get_elem? IsPolled (pollable.sockets) i s (pollable.all_polled)
            (subst (λ ts. get_elem? ts i ≡ some s) (cc) e) in
        let seen =
          get_elem?-map (polled_slot ready) (p.items) (offset + i) (some (held.made))
            (held.is_there) in
        let bits = item-polled s (held.made) ready is_polled (held.of_socket) in
        (
          rw (made, at_k, check_input_at, slot, seen)
              (ap (λ (r : Events). ok (some (r.poll_in))) bits),
          rw (made, at_k, check_output_at, slot, seen)
              (ap (λ (r : Events). ok (some (r.poll_out))) bits),
        )
