-- ===== src/Shmem/Gaps.antt =====
-- What Rebuild with a size makes of a message that has a chunk
-- (fairmq/shmem/FairMQMessageSHM.cxx).
use bachelor_fair_mq.Base.{
  ℕ, ℤ, pos, ◌==◌, Bool, true, false, Option, some, ◌≡◌, refl, ap, ◌∙◌, if-true, if◌then◌else◌,
}
use bachelor_fair_mq.Shmem.{Message, Store, deallocate}
use bachelor_fair_mq.Shmem.Chunk.{
  World, fill_meta, initialize_from, initialize_chunk, close_meta, closed_meta, close_from,
  close_message, refill, rebuild_sized, left_of, destroy,
}

-- A message of the segment that has a chunk and was not sent is destroyed at once.
segment : (r : ℕ) → r ≡ 0 → (r == 0) ≡ true
segment r z = rw z refl

abbrev left_closed : Option (Message × Store) → Option Store
left_closed o = left_of (closed_meta o)

destroy_segment :
    (w : World) (fuel h : ℕ) (queued : Bool) (handle : ℤ) (m : Message) (s : Store)
    → queued ≡ false
    → handle ≡ pos h
    → m.region_id ≡ 0
    → left_of (close_from w fuel queued handle m s) ≡ some (deallocate h s)
destroy_segment w fuel h queued handle m s q e z =
    rw (q, e) (ap left_closed (if-true _ _ _ (segment (m.region_id) z)))

initialize_set :
    (w : World) (fuel size h : ℕ) (handle : ℤ) (m : Message) (s : Store)
    → handle ≡ pos h
    → initialize_from w fuel size handle m s ≡ some (fill_meta (w.meta_init) size m s)
initialize_set w fuel size h handle m s e = rw e refl

-- A message that is filled where it has a chunk is destroyed with that.
fill_meta-destroy :
    (made : Bool) (size : ℕ) (w : World) (fuel h : ℕ) (m : Message) (s : Store)
    → m.queued ≡ false
    → m.handle ≡ pos h
    → m.region_id ≡ 0
    → (b : Bool) × ((n : Message) × ((fill_meta made size m s ≡ (b, (n, s)))
          × (destroy w fuel n s ≡ some (deallocate h s))))
unfolding destroy close_message
fill_meta-destroy true size w fuel h m s q e z =
    (true, (_, (refl, destroy_segment w fuel h (m.queued) (m.handle) _ s q e z)))
fill_meta-destroy false size w fuel h m s q e z =
    (false, (_, (refl, destroy_segment w fuel h (m.queued) (m.handle) _ s q e z)))

refill-destroy :
    (w : World) (fuel size : ℕ) (w' : World) (fuel' h : ℕ) (m : Message) (s : Store)
    → m.handle ≡ pos h
    → m.region_id ≡ 0
    → (b : Bool) × ((n : Message) × ((refill w fuel size (some (m, s)) ≡ some (b, (n, s)))
          × (destroy w' fuel' n s ≡ some (deallocate h s))))
unfolding initialize_chunk
refill-destroy w fuel size w' fuel' h m s e z =
    let (b, (n, (f, d))) =
      fill_meta-destroy (w.meta_init) size w' fuel' h (record m { queued = false }) s refl e z in
    (b, (n, (initialize_set w fuel size h (m.handle) _ s e ∙ ap some f, d)))

rebuilt-destroy :
    (w : World) (fuel size : ℕ) (w' : World) (fuel' h : ℕ) (queued : Bool) (handle : ℤ)
    (m : Message) (s : Store)
    → m.handle ≡ pos h
    → handle ≡ pos h
    → m.region_id ≡ 0
    → (b : Bool) × ((n : Message) × ((refill w fuel size (close_from w fuel queued handle m s)
            ≡ some (b, (n, if queued then s else deallocate h s)))
          × (destroy w' fuel' n (if queued then s else deallocate h s)
              ≡ some
                  (deallocate (if queued then h else 0) (if queued then s else deallocate h s)))))
rebuilt-destroy w fuel size w' fuel' h true handle m s e f z =
    rw f (refill-destroy w fuel size w' fuel' h (close_meta m) s e z)
rebuilt-destroy w fuel size w' fuel' h false handle m s e f z =
    let (b, (n, (g, d))) =
      refill-destroy w fuel size w' fuel' 0 (close_meta (record m { handle = pos 0 }))
        (deallocate h s) refl z in
    (
      b,
      (
        n,
        (
          rw f (
              ap (λ o. refill w fuel size (closed_meta o)) (if-true _ _ _ (segment (m.region_id) z))
              ∙ g),
          d,
        ),
      ),
    )

-- Behind Rebuild with a size, a message of the segment that has a chunk has made no other: the one
-- that was not sent has lost its chunk and has handle 0, and the one that was sent has the handle
-- that it was sent with. Its destruction then deallocates that: handle 0, or the receiver's chunk.
pub rebuild_sized-destroys :
    (w : World) (fuel size : ℕ) (w' : World) (fuel' h : ℕ) (m : Message) (s : Store)
    → m.handle ≡ pos h
    → m.region_id ≡ 0
    → (b : Bool) × ((n : Message) × ((rebuild_sized w fuel size m s
            ≡ some (b, (n, if m.queued then s else deallocate h s)))
          × (destroy w' fuel' n (if m.queued then s else deallocate h s)
              ≡ some (
                  deallocate
                    (if m.queued then h else 0)
                    (if m.queued then s else deallocate h s)))))
unfolding rebuild_sized close_message
rebuild_sized-destroys w fuel size w' fuel' h m s e z =
    rebuilt-destroy w fuel size w' fuel' h (m.queued) (m.handle) m s e e z
