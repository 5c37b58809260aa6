-- ===== src/Zeromq/Poller/Reads.antt =====
-- What the poller's items hold, and what its checks read (fairmq/zeromq/FairMQPollerZMQ.cxx).
use bachelor_fair_mq.Base.{
  ℕ, zero, suc, ◌+◌, ◌≤◌, ◌<◌, List, [], ◌∷◌, Text, text_eq, eq_of_text_eq, Option, none, some,
  false, ok, or_throw, lookup, length, replicate, get_elem?, get_elem?-length, length-replicate,
  All, All-get_elem?, ◌≡◌, refl, subst, sym, ◌∙◌, bind-returns, ok-injective, Bool-cases, inl, inr,
  ◌⊎◌, arith,
}
use bachelor_fair_mq.Zeromq.Poller.{
  SocketType, Layout, Item, Poller, fill_channel, fill, offset_of, of_map, lay_out,
}
use bachelor_fair_mq.Zeromq.Poller.Offsets.{
  sockets_of, IsLaid, IsLaid-empty, lay_out-IsLaid, lay_out_count, lay_out-AllKnown, Known,
  sockets_of-lookup,
}
use bachelor_fair_mq.Zeromq.Poller.Blocks.{
  Holds, fill_channel-length, fill_channel_outside, fill_channel-Holds,
}

module _ (socket_type : ℕ → SocketType) where
  module _ (channels : List (Text × List ℕ)) where
    -- All of a channel's items hold its sockets.
    AllHeld : List (Text × ℕ) → List (Option Item) → Text → Type 0
    AllHeld m items k =
        (p i s : ℕ)
        → lookup k m ≡ some p
        → get_elem? (sockets_of socket_type channels k) i ≡ some s
        → Holds socket_type items (p + i) s

    offset_of-Known :
        (m : List (Text × ℕ)) (k : Text) (p : ℕ) → lookup k m ≡ some p → offset_of m k ≡ p
    offset_of-Known m k p h = rw (offset_of, h) refl

    -- One round of the second loop: the channel's items are written, and the others' are kept.
    round-AllHeld :
        (m : List (Text × ℕ)) (k : Text) (items items' : List (Option Item))
        → IsLaid socket_type channels m (length items)
        → Known socket_type channels m k
        → fill_channel socket_type (offset_of m k) (sockets_of socket_type channels k) items
          ≡ ok items'
        → AllHeld m items' k
    unfolding AllHeld
    round-AllHeld m k items items' laid (q, known) h p i s e g =
        let at_p = offset_of-Known m k p e in
        subst (λ n. Holds socket_type items' (n + i) s) at_p
          (fill_channel-Holds socket_type (offset_of m k) (sockets_of socket_type channels k) items
            items' i s h (omega (arith, laid.below k p e, at_p)) g)

    round-AllHeld_kept :
        (m : List (Text × ℕ)) (j k : Text) (items items' : List (Option Item))
        → IsLaid socket_type channels m (length items)
        → Known socket_type channels m j
        → text_eq j k ≡ false
        → fill_channel socket_type (offset_of m j) (sockets_of socket_type channels j) items
          ≡ ok items'
        → AllHeld m items k
        → AllHeld m items' k
    unfolding AllHeld
    round-AllHeld_kept m j k items items' laid (q, known) n h held p i s e g =
        let old = held p i s e g in
        let at_q = offset_of-Known m j q known in
        let inside = get_elem?-length (sockets_of socket_type channels k) i s g in
        let outside : (p + i < offset_of m j)
            ⊎ (offset_of m j + length (sockets_of socket_type channels j) ≤ p + i) =
          elim (laid.apart j k q p n known e) [
            | inl l ↦ inr (omega (arith, l, at_q))
            | inr l ↦ inl (omega (arith, l, at_q, inside))
          ] in
        record {
          made = old.made;
          of_socket = old.of_socket;
          is_there =
              fill_channel_outside socket_type (offset_of m j) (sockets_of socket_type channels j)
                items items' (p + i) h outside
              ∙ old.is_there;
        }

    -- The rounds of the second loop, one by one.
    fill_round :
        (m : List (Text × ℕ)) (j : Text) (ks : List Text) (items items' : List (Option Item))
        → IsLaid socket_type channels m (length items)
        → fill socket_type channels m (j ∷ ks) items ≡ ok items'
        → (items1 : List (Option Item)) × (fill_channel socket_type
              (offset_of m j)
              (sockets_of socket_type channels j)
              items
            ≡ ok items1)
          × IsLaid socket_type channels m (length items1)
          × (fill socket_type channels m ks items1 ≡ ok items')
    unfolding fill
    fill_round m j ks items items' laid h =
        let (ss, e, h') = bind-returns _ (or_throw (lookup j channels)) h in
        let (items1, f, h'') =
          bind-returns _ (fill_channel socket_type (offset_of m j) ss items) h' in
        (
          items1,
          subst (λ ss. fill_channel socket_type (offset_of m j) ss items ≡ ok items1)
              (sym (sockets_of-lookup socket_type channels j ss e)) f,
          subst (IsLaid socket_type channels m)
              (sym (fill_channel-length socket_type (offset_of m j) ss items items1 f)) laid,
          h'',
        )

    fill-AllHeld_kept :
        (m : List (Text × ℕ)) (ks : List Text) (k : Text) (items items' : List (Option Item))
        → IsLaid socket_type channels m (length items)
        → All (Known socket_type channels m) ks
        → fill socket_type channels m ks items ≡ ok items'
        → AllHeld m items k
        → AllHeld m items' k
    unfolding fill
    fill-AllHeld_kept m [] k items items' laid known h held =
        subst (λ i. AllHeld m i k) (ok-injective h) held
    fill-AllHeld_kept m (j ∷ ks) k items items' laid (known_j, known) h held =
        let (items1, f, laid', h') = fill_round m j ks items items' laid h in
        fill-AllHeld_kept m ks k items1 items' laid' known h' (elim (Bool-cases (text_eq j k)) [
          | inl b ↦
              subst (AllHeld m items1) (eq_of_text_eq j k b)
                (round-AllHeld m j items items1 laid known_j f)
          | inr b ↦ round-AllHeld_kept m j k items items1 laid known_j b f held
        ])

    fill-AllHeld :
        (m : List (Text × ℕ)) (ks : List Text) (n : ℕ) (k : Text)
        (items items' : List (Option Item))
        → IsLaid socket_type channels m (length items)
        → All (Known socket_type channels m) ks
        → fill socket_type channels m ks items ≡ ok items'
        → get_elem? ks n ≡ some k
        → AllHeld m items' k
    fill-AllHeld m [] n k items items' laid known h g = cc
    fill-AllHeld m (j ∷ ks) zero k items items' laid (known_j, known) h g =
        let (items1, f, laid', h') = fill_round m j ks items items' laid h in
        let here : j ≡ k = cc in
        fill-AllHeld_kept m ks k items1 items' laid' known h'
          (subst (AllHeld m items1) here (round-AllHeld m j items items1 laid known_j f))
    fill-AllHeld m (j ∷ ks) (suc n) k items items' laid (known_j, known) h g =
        let (items1, f, laid', h') = fill_round m j ks items items' laid h in
        fill-AllHeld m ks n k items1 items' laid' known h' g

    -- The name's block in the finished poller.
    pub of_map-Held :
        (ks : List Text) (n : ℕ) (k : Text) (i s : ℕ) (p : Poller)
        → of_map socket_type channels ks ≡ ok p
        → get_elem? ks n ≡ some k
        → get_elem? (sockets_of socket_type channels k) i ≡ some s
        → (offset : ℕ) × (lookup k (p.offset_map) ≡ some offset)
          × Holds socket_type (p.items) (offset + i) s
    unfolding of_map AllHeld
    of_map-Held ks n k i s p h g e =
        let l0 : Layout = record { offsets = []; offset = 0; count = 0 } in
        let (l, a, h') = bind-returns _ (lay_out socket_type channels ks l0) h in
        let items0 : List (Option Item) = replicate (l.count) none in
        let (items, f, h'') = bind-returns _ (fill socket_type channels (l.offsets) ks items0) h' in
        let laid : IsLaid socket_type channels (l.offsets) (length items0) =
          subst (IsLaid socket_type channels (l.offsets))
            (sym
              (length-replicate (l.count) none ∙ lay_out_count socket_type channels ks l0 l refl a))
            (lay_out-IsLaid socket_type channels ks l0 l (IsLaid-empty socket_type channels) a) in
        let known = lay_out-AllKnown socket_type channels ks l0 l a in
        let (offset, at_k) =
          All-get_elem? (Known socket_type channels (l.offsets)) ks n k known g in
        subst
          (λ q.
            (o : ℕ) × (lookup k (q.offset_map) ≡ some o) × Holds socket_type (q.items) (o + i) s)
          (ok-injective h'')
          (
            offset,
            at_k,
            fill-AllHeld (l.offsets) ks n k items0 items laid known f g offset i s at_k e,
          )
