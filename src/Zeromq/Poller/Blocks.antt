-- ===== src/Zeromq/Poller/Blocks.antt =====
-- One channel's block of the poller's items (fairmq/zeromq/FairMQPollerZMQ.cxx).
use bachelor_fair_mq.Base.{
  ℕ, zero, suc, ◌+◌, ◌≤◌, ◌<◌, List, [], ◌∷◌, Option, some, ok, length, get_elem?, set_elem,
  length-set_elem, get_elem?-set_elem, get_elem?-set_elem_other, ◌≡◌, subst, sym, ap, ◌∙◌,
  bind-returns, ok-injective, inl, inr, ◌⊎◌, arith,
}
use bachelor_fair_mq.Zeromq.Poller.{SocketType, Item, item, fill_channel}

module _ (socket_type : ℕ → SocketType) where
  -- An item at an index, made for a socket.
  pub record Holds (items : List (Option Item)) (n s : ℕ) : Type 0 where
    pub made : Item
    pub of_socket : item socket_type s ≡ ok made
    pub is_there : get_elem? items n ≡ some (some made)

  pub fill_channel-length :
      (n : ℕ) (ss : List ℕ) (items items' : List (Option Item))
      → fill_channel socket_type n ss items ≡ ok items'
      → length items' ≡ length items
  unfolding fill_channel
  fill_channel-length n [] items items' h = sym (ap length (ok-injective h))
  fill_channel-length n (s ∷ ss) items items' h =
      let (it, e, h') = bind-returns _ (item socket_type s) h in
      fill_channel-length (suc n) ss (set_elem n (some it) items) items' h'
      ∙ length-set_elem n (some it) items

  -- The items outside the block are left.
  pub fill_channel_outside :
      (n : ℕ) (ss : List ℕ) (items items' : List (Option Item)) (j : ℕ)
      → fill_channel socket_type n ss items ≡ ok items'
      → (j < n) ⊎ (n + length ss ≤ j)
      → get_elem? items' j ≡ get_elem? items j
  unfolding fill_channel
  fill_channel_outside n [] items items' j h o = ap (λ i. get_elem? i j) (sym (ok-injective h))
  fill_channel_outside n (s ∷ ss) items items' j h o =
      let (it, e, h') = bind-returns _ (item socket_type s) h in
      let o' : (j < suc n) ⊎ (suc n + length ss ≤ j) = elim o [
        | inl l ↦ inl (omega (arith, l))
        | inr l ↦ inr (omega (arith, l))
      ] in
      fill_channel_outside (suc n) ss (set_elem n (some it) items) items' j h' o'
      ∙ get_elem?-set_elem_other n j (some it) items
          (elim o [ inl l ↦ λ e. omega (arith, l, e) | inr l ↦ λ e. omega (arith, l, e) ])

  pub fill_channel-Holds :
      (n : ℕ) (ss : List ℕ) (items items' : List (Option Item)) (i s : ℕ)
      → fill_channel socket_type n ss items ≡ ok items'
      → n + length ss ≤ length items
      → get_elem? ss i ≡ some s
      → Holds items' (n + i) s
  unfolding fill_channel
  fill_channel-Holds n [] items items' i s h b g = cc
  fill_channel-Holds n (t ∷ ss) items items' zero s h b g =
      let (it, e, h') = bind-returns _ (item socket_type t) h in
      let here : n ≡ n + 0 = omega arith in
      record {
        made = it;
        of_socket = subst (λ s. item socket_type s ≡ ok it) (cc) e;
        is_there =
            subst (λ k. get_elem? items' k ≡ some (some it)) here
              (fill_channel_outside (suc n) ss (set_elem n (some it) items) items' n h'
                  (inl (omega arith))
                ∙ get_elem?-set_elem n (some it) items (omega arith));
      }
  fill_channel-Holds n (t ∷ ss) items items' (suc i) s h b g =
      let (it, e, h') = bind-returns _ (item socket_type t) h in
      let there : suc n + i ≡ n + suc i = omega arith in
      subst (λ k. Holds items' k s) there
        (fill_channel-Holds (suc n) ss (set_elem n (some it) items) items' i s h'
          (omega (arith, length-set_elem n (some it) items)) g)
