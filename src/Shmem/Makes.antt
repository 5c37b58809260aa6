-- ===== src/Shmem/Makes.antt =====
-- What the calls that make, fill, rebuild and copy a message without a chunk do to the chunks of the
-- segment (fairmq/shmem/FairMQMessageSHM.cxx).
use bachelor_fair_mq.Base.{
  ℕ, zero, suc, ◌∙◌, ◌+◌, ◌==◌, ℤ, pos, negsuc, Bool, true, false, Option, none, some, Text, ◌≡◌,
  ◌≢◌, refl, sym, arith, inl, inr, if◌then◌else◌,
}
use bachelor_fair_mq.Shmem.{Frame, blank, closed, holding, inlined, Message, Store, unmade}
use bachelor_fair_mq.Shmem.Chunk.{
  World, chunk_made, initialize_from, initialize_chunk, fill, make_sized, make_filled, close_meta,
  close_from, close_message, reopened, rebuild, refill, rebuild_sized, rebuild_filled, copied,
  copy_onto, copy, written,
}
use bachelor_fair_mq.Shmem.System.{Fits, Fit, Headless, Bare, Target}
use bachelor_fair_mq.Shmem.Count.{count, held, owned}
use bachelor_fair_mq.Shmem.Moves.{owned-Fresh}

-- A store has as many chunks of each handle as another and a message's own.
abbrev pub Adds : Message → Store → Store → Type 0
Adds m s t =
    (t.misused ≡ s.misused) × ((h : ℕ) → count h (t.allocated) ≡ owned h m + count h (s.allocated))

abbrev pub Made : Store → Option (Bool × (Message × Store)) → Type 0
Made s none = Unit {0}
Made s (some (b, (m, t))) = Fit m × Adds m s t

Headless-Fits : (f : Frame) (m : Message) → Headless f → Fits f m
Headless-Fits blank m h = tt
Headless-Fits closed m h = tt
Headless-Fits (holding k) m h = elim h [ ]
Headless-Fits (inlined k) m h = elim h [ ]

held-chunk :
    (h k : ℕ) (queued : Bool) (region : ℕ)
    → queued ≡ false
    → region ≡ 0
    → held h queued region (pos k) ≡ (if h == k then 1 else 0)
held-chunk h k queued region q r = rw (q, r) refl

pub owned-Bare : (h : ℕ) (m : Message) → Bare m → owned h m ≡ 0
owned-Bare h m (r, (f, l)) = owned-Fresh h m f

chunk_made-Made :
    (meta_init : Bool) (size : ℕ) (m : Message) (s : Store) (o : Option (Option ℕ))
    → Bare m
    → Made s (chunk_made meta_init size m s o)
unfolding count
chunk_made-Made meta_init size m s none b = tt
chunk_made-Made meta_init size m s (some none) (r, (f, l)) =
    (Headless-Fits (m.frame) m l, (refl, λ h. omega (arith, owned-Fresh h m f)))
chunk_made-Made true size m s (some (some k)) (r, ((q, f), l)) =
    (refl, (refl, λ h. omega (arith, held-chunk h k (m.queued) (m.region_id) q r)))
chunk_made-Made false size m s (some (some k)) (r, ((q, f), l)) = (
  Headless-Fits (m.frame) _ l,
  (refl, λ h. omega (arith, held-chunk h k (m.queued) (m.region_id) q r)),
)

initialize_from-Made :
    (w : World) (fuel size : ℕ) (handle : ℤ) (m : Message) (s : Store)
    → m.handle ≡ handle
    → Bare m
    → Made s (initialize_from w fuel size handle m s)
initialize_from-Made w fuel size (pos k) m s e (r, ((q, f), l)) = absurd (f k e)
initialize_from-Made w fuel size (negsuc n) m s e b = chunk_made-Made (w.meta_init) size m s _ b

initialize_chunk-Made :
    (w : World) (fuel size : ℕ) (m : Message) (s : Store)
    → Bare m
    → Made s (initialize_chunk w fuel size m s)
unfolding initialize_chunk
initialize_chunk-Made w fuel size m s b = initialize_from-Made w fuel size (m.handle) m s refl b

written-Made :
    (handle : ℤ) (bytes : Text) (m : Message) (s t : Store)
    → Fit m × Adds m s t
    → Made s (written handle bytes m t)
written-Made (pos h) bytes m s t a = a
written-Made (negsuc n) bytes m s t a = a

fill-Made :
    (bytes : Text) (s : Store) (o : Option (Bool × (Message × Store)))
    → Made s o
    → Made s (fill bytes o)
fill-Made bytes s none a = tt
fill-Made bytes s (some (false, (m, t))) a = a
fill-Made bytes s (some (true, (m, t))) a = written-Made (m.handle) bytes m s t a

unmade-Bare : Bare unmade
unmade-Bare = (refl, ((refl, λ h e. cc), tt))

pub make_sized-Made : (w : World) (fuel size : ℕ) (s : Store) → Made s (make_sized w fuel size s)
unfolding make_sized
make_sized-Made w fuel size s = initialize_chunk-Made w fuel size unmade s unmade-Bare

pub make_filled-Made :
    (w : World) (fuel : ℕ) (bytes : Text) (size : ℕ) (s : Store)
    → Made s (make_filled w fuel bytes size s)
unfolding make_filled
make_filled-Made w fuel bytes size s =
    fill-Made bytes s _ (initialize_chunk-Made w fuel size unmade s unmade-Bare)

Headless-close : (f : Frame) (b : Bool) → Headless f → Headless (if b then closed else f)
Headless-close f true h = tt
Headless-close f false h = h

close_meta-Bare : (m : Message) → Bare m → Bare (record (close_meta m) { queued = false })
close_meta-Bare m (r, ((q, f), l)) = (r, ((refl, f), Headless-close (m.frame) (m.meta_created) l))

refill-Made :
    (w : World) (fuel size : ℕ) (queued : Bool) (handle : ℤ) (m : Message) (s : Store)
    → m.handle ≡ handle
    → Bare m
    → Made s (refill w fuel size (close_from w fuel queued handle m s))
refill-Made w fuel size queued (pos k) m s e (r, ((q, f), l)) = absurd (f k e)
refill-Made w fuel size true (negsuc n) m s e b =
    initialize_chunk-Made w fuel size _ s (close_meta-Bare m b)
refill-Made w fuel size false (negsuc n) m s e b =
    initialize_chunk-Made w fuel size _ s (close_meta-Bare m b)

pub rebuild_sized-Made :
    (w : World) (fuel size : ℕ) (m : Message) (s : Store)
    → Bare m
    → Made s (rebuild_sized w fuel size m s)
unfolding rebuild_sized close_message
rebuild_sized-Made w fuel size m s b = refill-Made w fuel size (m.queued) (m.handle) m s refl b

pub rebuild_filled-Made :
    (w : World) (fuel : ℕ) (bytes : Text) (size : ℕ) (m : Message) (s : Store)
    → Bare m
    → Made s (rebuild_filled w fuel bytes size m s)
unfolding rebuild_filled
rebuild_filled-Made w fuel bytes size m s b =
    fill-Made bytes s _ (rebuild_sized-Made w fuel size m s b)

-- What a message turns into has the chunks that it had, and those that the segment has gained.
abbrev pub Turned : Message → Store → Option (Message × Store) → Type 0
Turned m s none = Unit {0}
Turned m s (some (n, t)) =
    Fit n
    × ((t.misused ≡ s.misused)
        × ((h : ℕ) → count h (t.allocated) + owned h m ≡ owned h n + count h (s.allocated)))

Turned-same : (m : Message) (s : Store) → Fit m → Turned m s (some (m, s))
Turned-same m s i = (i, (refl, λ h. omega arith))

reopened-Turned :
    (w : World) (fuel : ℕ) (queued : Bool) (handle : ℤ) (m : Message) (s : Store)
    → m.handle ≡ handle
    → Bare m
    → Turned m s (reopened (close_from w fuel queued handle m s))
reopened-Turned w fuel queued (pos k) m s e (r, ((q, f), l)) = absurd (f k e)
reopened-Turned w fuel true (negsuc n) m s e (r, ((q, f), l)) =
    (tt, (refl, λ h. omega (arith, owned-Fresh h m (q, f), owned-Fresh h _ (refl, f))))
reopened-Turned w fuel false (negsuc n) m s e (r, ((q, f), l)) =
    (tt, (refl, λ h. omega (arith, owned-Fresh h m (q, f), owned-Fresh h _ (refl, f))))

pub rebuild-Turned :
    (w : World) (fuel : ℕ) (m : Message) (s : Store) → Bare m → Turned m s (rebuild w fuel m s)
unfolding rebuild close_message
rebuild-Turned w fuel m s b = reopened-Turned w fuel (m.queued) (m.handle) m s refl b

copied-Turned :
    (m : Message) (s : Store) (o : Option (Bool × (Message × Store)))
    → Bare m
    → Made s o
    → Turned m s (copied o)
copied-Turned m s none b a = tt
copied-Turned m s (some (x, (n, t))) b (i, (u, c)) =
    (i, (u, λ h. omega (arith, c h, owned-Bare h m b)))

copy_onto-Turned :
    (to handle : ℤ) (w : World) (fuel : ℕ) (from m : Message) (s : Store)
    → m.handle ≡ to
    → Fit m
    → Target m
    → Turned m s (copy_onto to handle w fuel from m s)
copy_onto-Turned (pos h) handle w fuel from m s e i b = Turned-same m s i
copy_onto-Turned (negsuc n) (pos zero) w fuel from m s e i b = Turned-same m s i
copy_onto-Turned (negsuc n) handle w fuel from m s e i (inl (h, p)) = absurd (signs (sym p ∙ e))
  where
    signs : {a b : ℕ} → pos a ≢ negsuc b
    signs q = cc
copy_onto-Turned (negsuc n) (pos (suc k)) w fuel from m s e i (inr b) =
    copied-Turned m s _ b (fill-Made _ s _ (initialize_chunk-Made w fuel (from.size) m s b))
copy_onto-Turned (negsuc n) (negsuc k) w fuel from m s e i (inr b) =
    copied-Turned m s _ b (fill-Made _ s _ (initialize_chunk-Made w fuel (from.size) m s b))

pub copy-Turned :
    (w : World) (fuel : ℕ) (from m : Message) (s : Store)
    → Fit m
    → Target m
    → Turned m s (copy w fuel from m s)
unfolding copy
copy-Turned w fuel from m s i b = copy_onto-Turned (m.handle) (from.handle) w fuel from m s refl i b
