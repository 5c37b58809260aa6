-- ===== src/Shmem/Region.antt =====
-- Messages of a region, and what closing a message comes to (fairmq/shmem/FairMQMessageSHM.cxx).
use bachelor_fair_mq.Base.{
  ℕ, zero, suc, ◌+◌, ◌<◌, ◌==◌, ℤ, pos, Bool, true, false, [], ◌∷◌, ◌++◌, Option, some, ◌≡◌, ◌≢◌,
  refl, subst, ◌∙◌, if-true, if-false, ap, sym, arith,
}
use bachelor_fair_mq.Shmem.{Message, RegionBlock, Store}
use bachelor_fair_mq.Shmem.Calls.{found_as}
use bachelor_fair_mq.Shmem.Chunk.{
  World, taken, late, find_region, ack_rounds, close_from, closed_meta, left_of, close_message,
  destroy,
}

-- The block that a message of a region acknowledges.
abbrev pub block_of : ℕ → Message → RegionBlock
block_of h m = record { block_handle = h; block_size = m.size; block_hint = m.hint }

find_region-set :
    (opens : ℕ → Bool) (m : Message) (s : Store)
    → m.region_ptr ≡ true
    → find_region opens m s ≡ (m, s)
find_region-set opens m s p = if-true (m.region_ptr) _ _ p

from_zero : (i : ℕ) → 0 + i ≡ i
from_zero i = omega arith

one_more : (n fuel : ℕ) → suc n + fuel ≡ suc (n + fuel)
one_more n fuel = omega arith

other_region : (r : ℕ) → r ≢ 0 → (r == 0) ≡ false
other_region r n = ground arith

acknowledged :
    (w : World) (block : RegionBlock) (n i fuel : ℕ) (m : Message) (s : Store)
    → m.region_ptr ≡ true
    → ((k : ℕ) → k < n → w.queue (k + i) ≡ late false)
    → w.queue (n + i) ≡ taken
    → ack_rounds w (suc n + fuel) i block m s
      ≡ some (m, record s { acks = s.acks ++ (m.region_id, block) ∷ [] })
unfolding ack_rounds
acknowledged w block zero i fuel m s p l t =
    rw
      (
        one_more 0 fuel,
        find_region-set (w.opens) m s p,
        subst (λ j. w.queue j ≡ taken) (from_zero i) t,
      )
      (if-true (m.region_ptr) _ _ p)
acknowledged w block (suc n) i fuel m s p l t =
    rw
      (
        one_more (suc n) fuel,
        find_region-set (w.opens) m s p,
        subst (λ j. w.queue j ≡ late false) (from_zero i) (l 0 (omega arith)),
      )
      (if-true (m.region_ptr) _ _ p
        ∙ acknowledged w block n (suc i) fuel m s p
            (λ k h.
              subst (λ j. w.queue j ≡ late false) (omega arith) (l (suc k) (omega (arith, h))))
            (subst (λ j. w.queue j ≡ taken) (omega arith) t))

-- The first round looks for the region.
ack_rounds-found :
    (w : World) (block : RegionBlock) (k fuel i : ℕ) (m n : Message) (s t : Store)
    → find_region (w.opens) m s ≡ (n, t)
    → n.region_ptr ≡ true
    → ack_rounds w (suc k + fuel) i block m s ≡ ack_rounds w (suc k + fuel) i block n t
unfolding ack_rounds
ack_rounds-found w block k fuel i m n s t e p =
    rw (one_more k fuel, e, find_region-set (w.opens) n t p) refl

close_from-region :
    (w : World) (fuel h : ℕ) (queued : Bool) (handle : ℤ) (m : Message) (s : Store)
    → queued ≡ false
    → handle ≡ pos h
    → m.region_id ≢ 0
    → close_from w fuel queued handle m s ≡ closed_meta (ack_rounds w fuel 0 (block_of h m) m s)
close_from-region w fuel h queued handle m s q e n =
    rw (q, e) (ap closed_meta (if-false _ _ _ (other_region (m.region_id) n)))

abbrev left_closed : Option (Message × Store) → Option Store
left_closed o = left_of (closed_meta o)

-- The destruction of a message of a region (id not 0) that was not sent, where the region is found or
-- can be opened, and its queue is full for some tries, uninterrupted, and then takes the block:
-- with fuel for those tries it ends, has put exactly one block into the region's queue, with the
-- message's handle, size and hint, and has left the segment alone.
pub destroy-acknowledged :
    (w : World) (n fuel h : ℕ) (m : Message) (s : Store)
    → m.queued ≡ false
    → m.handle ≡ pos h
    → m.region_id ≢ 0
    → (find_region (w.opens) m s).0.region_ptr ≡ true
    → ((k : ℕ) → k < n → w.queue k ≡ late false)
    → w.queue n ≡ taken
    → (t : Store) × ((destroy w (suc n + fuel) m s ≡ some t)
        × ((t.acks ≡ s.acks ++ (m.region_id, block_of h m) ∷ [])
            × ((t.allocated ≡ s.allocated) × (t.misused ≡ s.misused))))
unfolding destroy close_message
destroy-acknowledged w n fuel h m s q e z p l t =
    let (b, (rs, f)) = found_as (w.opens) m s in
    let found : b ≡ true = sym (ap (λ x. x.0.region_ptr) f) ∙ p in
    (
      record s { regions = rs; acks = s.acks ++ (m.region_id, block_of h m) ∷ [] },
      (
        ap left_of (close_from-region w (suc n + fuel) h (m.queued) (m.handle) m s q e z)
            ∙ ap left_closed (
                ack_rounds-found w (block_of h m) n fuel 0 m _ s _ f found
                ∙ acknowledged w (block_of h m) n 0 fuel (record m { region_ptr = b })
                    (record s { regions = rs }) found
                    (λ k i. subst (λ j. w.queue j ≡ late false) (omega arith) (l k i))
                    (subst (λ j. w.queue j ≡ taken) (omega arith) t)),
        (refl, (refl, refl)),
      ),
    )
