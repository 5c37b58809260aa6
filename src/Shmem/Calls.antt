-- ===== src/Shmem/Calls.antt =====
-- What the calls on a message of fairmq/shmem/FairMQMessageSHM.cxx do to the chunks of the segment.
use bachelor_fair_mq.Base.{
  ℕ, zero, suc, ◌+◌, ◌==◌, ◌≤◌, ℤ, pos, negsuc, Bool, true, false, List, ◌∷◌, Option, none, some,
  ◌≡◌, refl, arith, if◌then◌else◌, Bool-cases, inl, inr, ap, ◌∙◌, if-true, if-false,
}
use bachelor_fair_mq.Shmem.{Message, RegionBlock, Store, deallocate}
use bachelor_fair_mq.Shmem.Chunk.{
  World, Ack, taken, late, has_region, pointed, find_region, ack_answer, ack_rounds, release,
  closed_meta, close_from, close_message, left_of, destroy,
}
use bachelor_fair_mq.Shmem.Count.{count, count-member, count-remove, chunk, owned, held}

-- A store has as many chunks of each handle as another, but one.
abbrev pub Frees : (ℕ → ℕ) → Store → Store → Type 0
Frees less s t =
    (t.misused ≡ s.misused) × ((h : ℕ) → count h (t.allocated) + less h ≡ count h (s.allocated))

deallocate-Frees :
    (h : ℕ) (s : Store)
    → 1 ≤ count h (s.allocated)
    → Frees (λ j. if j == h then 1 else 0) s (deallocate h s)
unfolding deallocate
deallocate-Frees h s c =
    let e = count-member h (s.allocated) c in rw e (refl, λ j. count-remove j h (s.allocated) e)

abbrev pub FreesAll : (ℕ → ℕ) → Store → Option (Message × Store) → Type 0
FreesAll less s none = Unit {0}
FreesAll less s (some (m, t)) = Frees less s t

-- The segment is the same.
abbrev pub Kept : Store → Store → Type 0
Kept s t = (t.misused ≡ s.misused) × (t.allocated ≡ s.allocated)

abbrev pub KeptBy : Store → Option (Message × Store) → Type 0
KeptBy s none = Unit {0}
KeptBy s (some (m, t)) = Kept s t

-- A search for a region changes nothing but the pointer and the regions.
pub found_as :
    (opens : ℕ → Bool) (m : Message) (s : Store)
    → (b : Bool) × ((rs : List (ℕ × Bool)) × (find_region opens m s
          ≡ (record m { region_ptr = b }, record s { regions = rs })))
found_as opens m s = elim (Bool-cases (m.region_ptr)) [
  | inl p ↦ (m.region_ptr, (s.regions, if-true _ _ _ p))
  | inr p ↦ elim (Bool-cases (has_region (m.region_id) (s.regions))) [
    | inl q ↦ (true, (s.regions, if-false _ _ _ p ∙ ap (pointed m) (if-true _ _ _ q)))
    | inr q ↦ elim (Bool-cases (opens (m.region_id))) [
      | inl o ↦ (
        true,
        (
          (m.region_id, true) ∷ s.regions,
          if-false _ _ _ p ∙ ap (pointed m) (if-false _ _ _ q ∙ if-true _ _ _ o),
        ),
      )
      | inr o ↦ (
        false,
        (s.regions, if-false _ _ _ p ∙ ap (pointed m) (if-false _ _ _ q ∙ if-false _ _ _ o)),
      )
    ]
  ]
]

find_region-Kept : (opens : ℕ → Bool) (m : Message) (s : Store) → Kept s ((find_region opens m s).1)
find_region-Kept opens m s = let (b, (rs, e)) = found_as opens m s in rw e (refl, refl)

ack_answer-KeptBy :
    (a : Ack) (block : RegionBlock) (m : Message) (s t : Store) (rest : Option (Message × Store))
    → Kept s t
    → KeptBy s rest
    → KeptBy s (ack_answer a block m t rest)
ack_answer-KeptBy taken block m s t rest k r = elim (Bool-cases (m.region_ptr)) [
  | inl p ↦ rw p k
  | inr p ↦ rw p k
]
ack_answer-KeptBy (late b) block m s t rest k r = elim (Bool-cases (m.region_ptr)) [
  | inl p ↦ rw p (elim (Bool-cases b) [ inl q ↦ rw q k | inr q ↦ rw q r ])
  | inr p ↦ rw p k
]

KeptBy-after : (s t : Store) (o : Option (Message × Store)) → Kept s t → KeptBy t o → KeptBy s o
KeptBy-after s t none k r = tt
KeptBy-after s t (some (m, u)) (a, b) (c, d) = (cc, cc)

ack_rounds-KeptBy :
    (w : World) (fuel i : ℕ) (block : RegionBlock) (m : Message) (s : Store)
    → KeptBy s (ack_rounds w fuel i block m s)
unfolding ack_rounds
ack_rounds-KeptBy w zero i block m s = tt
ack_rounds-KeptBy w (suc fuel) i block m s =
    let (n, t) = find_region (w.opens) m s in
    let k = find_region-Kept (w.opens) m s in
    ack_answer-KeptBy (w.queue i) block n s t _ k
      (KeptBy-after s t _ k (ack_rounds-KeptBy w fuel (suc i) block n t))

Frees-none : (s : Store) → Frees (λ h. 0) s s
Frees-none s = (refl, λ h. omega arith)

closed_meta-FreesAll :
    (less : ℕ → ℕ) (s : Store) (o : Option (Message × Store))
    → FreesAll less s o
    → FreesAll less s (closed_meta o)
closed_meta-FreesAll less s none f = tt
closed_meta-FreesAll less s (some (m, t)) f = f

KeptBy-FreesAll :
    (less : ℕ → ℕ) (s : Store) (o : Option (Message × Store))
    → ((h : ℕ) → less h ≡ 0)
    → KeptBy s o
    → FreesAll less s o
KeptBy-FreesAll less s none z k = tt
KeptBy-FreesAll less s (some (m, t)) z (a, b) = (a, λ h. rw (b, z h) (omega arith))

release-FreesAll :
    (w : World) (fuel h : ℕ) (m : Message) (s : Store)
    → ((j : ℕ) → chunk j (m.region_id) (pos h) ≤ count j (s.allocated))
    → FreesAll (λ j. chunk j (m.region_id) (pos h)) s (release w fuel h m s)
release-FreesAll w fuel h m s b = elim (Bool-cases (m.region_id == 0)) [
  | inl z ↦ rw z (deallocate-Frees h s (ground (arith, b h, z)))
  | inr z ↦ rw z (KeptBy-FreesAll (λ j. 0) s _ (λ j. refl) (ack_rounds-KeptBy w fuel 0 _ m s))
]

close_from-FreesAll :
    (w : World) (fuel : ℕ) (queued : Bool) (handle : ℤ) (m : Message) (s : Store)
    → ((h : ℕ) → held h queued (m.region_id) handle ≤ count h (s.allocated))
    → FreesAll (λ h. held h queued (m.region_id) handle) s (close_from w fuel queued handle m s)
close_from-FreesAll w fuel true (negsuc n) m s b = Frees-none s
close_from-FreesAll w fuel false (negsuc n) m s b = Frees-none s
close_from-FreesAll w fuel true (pos h) m s b = Frees-none s
close_from-FreesAll w fuel false (pos h) m s b =
    closed_meta-FreesAll _ s _ (release-FreesAll w fuel h m s b)

-- A message that is closed gives back the chunk that it owns, and none else.
pub close_message-FreesAll :
    (w : World) (fuel : ℕ) (m : Message) (s : Store)
    → ((h : ℕ) → owned h m ≤ count h (s.allocated))
    → FreesAll (λ h. owned h m) s (close_message w fuel m s)
unfolding close_message
close_message-FreesAll w fuel m s b = close_from-FreesAll w fuel (m.queued) (m.handle) m s b

abbrev pub FreesTo : (ℕ → ℕ) → Store → Option Store → Type 0
FreesTo less s none = Unit {0}
FreesTo less s (some t) = Frees less s t

left_of-FreesTo :
    (less : ℕ → ℕ) (s : Store) (o : Option (Message × Store))
    → FreesAll less s o
    → FreesTo less s (left_of o)
left_of-FreesTo less s none f = tt
left_of-FreesTo less s (some (m, t)) f = f

pub destroy-FreesTo :
    (w : World) (fuel : ℕ) (m : Message) (s : Store)
    → ((h : ℕ) → owned h m ≤ count h (s.allocated))
    → FreesTo (λ h. owned h m) s (destroy w fuel m s)
unfolding destroy
destroy-FreesTo w fuel m s b =
    left_of-FreesTo _ s (close_message w fuel m s) (close_message-FreesAll w fuel m s b)
