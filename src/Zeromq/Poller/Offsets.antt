-- ===== src/Zeromq/Poller/Offsets.antt =====
-- The offsets that the poller's constructor computes (fairmq/zeromq/FairMQPollerZMQ.cxx).
use bachelor_fair_mq.Base.{
  ℕ, ◌+◌, ◌≤◌, List, [], ◌∷◌, Text, text_eq, text_eq_refl, eq_of_text_eq, none, some, true, false,
  ok, throws, or_throw, lookup, insert, lookup-insert, length, All, ◌≡◌, refl, subst, sym, ap, ◌∙◌,
  bind-returns, ok-injective, Bool-cases, Option-cases, inl, inr, ◌⊎◌, arith,
}
use bachelor_fair_mq.Zeromq.Poller.{SocketType, Layout, lay_out}

module _ (socket_type : ℕ → SocketType) (channels : List (Text × List ℕ)) where
  -- The sockets of a channel.
  abbrev pub sockets_of : Text → List ℕ
  sockets_of k = elim (lookup k channels) [ none ↦ [] | some ss ↦ ss ]

  abbrev pub size : Text → ℕ
  size k = length (sockets_of k)

  -- Each channel's block of items lies below the offset, and the blocks lie apart.
  pub record IsLaid (m : List (Text × ℕ)) (o : ℕ) : Type 0 where
    pub below : (k : Text) (p : ℕ) → lookup k m ≡ some p → p + size k ≤ o
    pub apart :
        (j k : Text) (p q : ℕ)
        → text_eq j k ≡ false
        → lookup j m ≡ some p
        → lookup k m ≡ some q
        → (p + size j ≤ q) ⊎ (q + size k ≤ p)

  pub IsLaid-empty : IsLaid [] 0
  unfolding lookup
  IsLaid-empty = record { below = λ k p h. cc; apart = λ j k p q n h. cc }

  -- What a name is looked up to behind an insertion.
  lookup_cases :
      (k j : Text) (o p : ℕ) (m : List (Text × ℕ))
      → lookup j (insert k o m) ≡ some p
      → ((k ≡ j) × (p ≡ o)) ⊎ ((text_eq k j ≡ false) × (lookup j m ≡ some p))
  lookup_cases k j o p m h = elim (Bool-cases (text_eq k j)) [
    | inl e ↦
        let h' : some o ≡ some p = rw (lookup-insert k j o m, e) at h in
        inl (eq_of_text_eq k j e, cc)
    | inr e ↦ inr (e, rw (lookup-insert k j o m, e) at h)
  ]

  insert-IsLaid :
      (k : Text) (m : List (Text × ℕ)) (o : ℕ) → IsLaid m o → IsLaid (insert k o m) (o + size k)
  insert-IsLaid k m o l = record {
    below = λ j p h. elim (lookup_cases k j o p m h) [
      | inl (e, f) ↦ subst (λ i. p + size i ≤ o + size k) e (omega (arith, f))
      | inr (e, f) ↦ omega (arith, l.below j p f)
    ];
    apart = λ i j p q n h g. elim (lookup_cases k i o p m h) [
      | inl (e, f) ↦ elim (lookup_cases k j o q m g) [
        | inl (e', f') ↦
            let t : true ≡ false =
              sym (text_eq_refl j) ∙ subst (λ i. text_eq i j ≡ false) (sym e ∙ e') n in
            cc
        | inr (e', f') ↦ inr (omega (arith, l.below j q f', f))
      ]
      | inr (e, f) ↦ elim (lookup_cases k j o q m g) [
        | inl (e', f') ↦ inl (omega (arith, l.below i p f, f'))
        | inr (e', f') ↦ l.apart i j p q n f f'
      ]
    ];
  }

  pub sockets_of-lookup :
      (k : Text) (ss : List ℕ) → or_throw (lookup k channels) ≡ ok ss → sockets_of k ≡ ss
  sockets_of-lookup k ss h = elim (Option-cases (lookup k channels)) [
    | inl e ↦ let h' : throws ≡ ok ss = rw e at h in cc
    | inr (ss', e) ↦ rw (sockets_of, e) (ok-injective (rw e at h))
  ]

  pub lay_out-IsLaid :
      (ks : List Text) (l l' : Layout)
      → IsLaid (l.offsets) (l.offset)
      → lay_out socket_type channels ks l ≡ ok l'
      → IsLaid (l'.offsets) (l'.offset)
  unfolding lay_out
  lay_out-IsLaid [] l l' i h = subst (λ l. IsLaid (l.offsets) (l.offset)) (ok-injective h) i
  lay_out-IsLaid (k ∷ ks) l l' i h =
      let (ss, e, h') = bind-returns _ (or_throw (lookup k channels)) h in
      let size_k = ap length (sockets_of-lookup k ss e) in
      lay_out-IsLaid ks _ l'
        (subst (λ n. IsLaid (insert k (l.offset) (l.offsets)) (l.offset + n)) size_k
          (insert-IsLaid k (l.offsets) (l.offset) i))
        h'

  -- The two counters of the loop agree.
  pub lay_out_count :
      (ks : List Text) (l l' : Layout)
      → l.count ≡ l.offset
      → lay_out socket_type channels ks l ≡ ok l'
      → l'.count ≡ l'.offset
  unfolding lay_out
  lay_out_count [] l l' i h = subst (λ l. l.count ≡ l.offset) (ok-injective h) i
  lay_out_count (k ∷ ks) l l' i h =
      let (ss, e, h') = bind-returns _ (or_throw (lookup k channels)) h in
      lay_out_count ks _ l' (ap (λ n. n + length ss) i) h'

  abbrev pub Known : List (Text × ℕ) → Text → Type 0
  Known m k = (p : ℕ) × (lookup k m ≡ some p)

  insert-Known : (k j : Text) (o : ℕ) (m : List (Text × ℕ)) → Known m j → Known (insert k o m) j
  insert-Known k j o m (p, h) = elim (Bool-cases (text_eq k j)) [
    | inl e ↦ (o, lookup-insert k j o m ∙ rw e refl)
    | inr e ↦ (p, lookup-insert k j o m ∙ rw e h)
  ]

  insert-Known_same : (k : Text) (o : ℕ) (m : List (Text × ℕ)) → Known (insert k o m) k
  insert-Known_same k o m = (o, lookup-insert k k o m ∙ rw (text_eq_refl k) refl)

  lay_out-Known :
      (j : Text) (ks : List Text) (l l' : Layout)
      → Known (l.offsets) j
      → lay_out socket_type channels ks l ≡ ok l'
      → Known (l'.offsets) j
  unfolding lay_out
  lay_out-Known j [] l l' i h = subst (λ l. Known (l.offsets) j) (ok-injective h) i
  lay_out-Known j (k ∷ ks) l l' i h =
      let (ss, e, h') = bind-returns _ (or_throw (lookup k channels)) h in
      lay_out-Known j ks _ l' (insert-Known k j (l.offset) (l.offsets) i) h'

  pub lay_out-AllKnown :
      (ks : List Text) (l l' : Layout)
      → lay_out socket_type channels ks l ≡ ok l'
      → All (Known (l'.offsets)) ks
  unfolding lay_out
  lay_out-AllKnown [] l l' h = tt
  lay_out-AllKnown (k ∷ ks) l l' h =
      let (ss, e, h') = bind-returns _ (or_throw (lookup k channels)) h in
      (
        lay_out-Known k ks _ l' (insert-Known_same k (l.offset) (l.offsets)) h',
        lay_out-AllKnown ks _ l' h',
      )
