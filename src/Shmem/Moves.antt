-- ===== src/Shmem/Moves.antt =====
-- What the transfers of fairmq/shmem/FairMQSocketSHM.cxx do to the ownership of chunks.
use bachelor_fair_mq.Base.{
  ℕ, ◌+◌, ℤ, pos, negsuc, Bool, true, false, List, [], ◌∷◌, map, Option, none, some, ◌≡◌, ◌≢◌, refl,
  arith, All, All-append, All-weaken,
}
use bachelor_fair_mq.Zeromq.{Socket}
use bachelor_fair_mq.Transfer.{Finish, finished, returned, ran}
use bachelor_fair_mq.Shmem.{MetaHeader, Frame, blank, closed, holding, inlined, Message, header_of}
use bachelor_fair_mq.Shmem.Socket.{
  Call, Sent, sent, sent_as, after_send, send_impl, send_vector, queue_part, after_send_vector,
  one_part, read_header, Received, received, asserts, after_receive, after_receive_vector, part_of,
}
use bachelor_fair_mq.Shmem.System.{Fits, Fit, Ready, Fresh}
use bachelor_fair_mq.Shmem.Count.{held, owned, owned_by, owned_by-append, carried}

abbrev pub wired : ℕ → Option (List MetaHeader) → ℕ
wired h none = 0
wired h (some hs) = carried h hs

-- What was owned is owned behind the send, or on the way.
abbrev pub Moves : Message → Sent Message → Type 0
Moves m r = Fit (r.part) × ((h : ℕ) → owned h (r.part) + wired h (r.wire) ≡ owned h m)

abbrev pub MovesBy : Message → Option (Sent Message) → Type 0
MovesBy m none = Unit {0}
MovesBy m (some r) = Moves m r

sent_as-Moves :
    (f : Frame) (m : Message) (s : Socket)
    → m.frame ≡ f
    → Fits f m
    → m.queued ≡ false
    → Moves m (sent_as f m s)
unfolding carried
sent_as-Moves blank m s e i q = (rw e tt, λ h. omega arith)
sent_as-Moves closed m s e i q = (rw e tt, λ h. omega arith)
sent_as-Moves (holding k) m s e i q = (tt, λ h. rw (i, q) (omega arith))
sent_as-Moves (inlined k) m s e i q = (tt, λ h. omega arith)

sent-MovesBy :
    (m : Message) (s : Socket) (o : Option (Finish (Unit {0})))
    → Fit m
    → m.queued ≡ false
    → MovesBy m (ran (sent (after_send m s) m s) o)
sent-MovesBy m s none i q = tt
sent-MovesBy m s (some (finished u)) i q = sent_as-Moves (m.frame) m s refl i q
sent-MovesBy m s (some (returned r)) i q = (i, λ h. omega arith)

pub send_impl-MovesBy :
    (interrupted : ℕ → Bool) (calls : ℕ → Call (Unit {0})) (dontwait : Bool) (timeout : ℤ)
    (fuel : ℕ) (m : Message) (s : Socket)
    → Fit m
    → m.queued ≡ false
    → MovesBy m (send_impl interrupted calls dontwait timeout fuel m s)
unfolding send_impl
send_impl-MovesBy interrupted calls dontwait timeout fuel m s i q = sent-MovesBy m s _ i q

abbrev pub AllMove : List Message → Sent (List Message) → Type 0
AllMove ms r = All Fit (r.part) × ((h : ℕ) → owned_by h (r.part) + wired h (r.wire) ≡ owned_by h ms)

abbrev pub AllMoveBy : List Message → Option (Sent (List Message)) → Type 0
AllMoveBy ms none = Unit {0}
AllMoveBy ms (some r) = AllMove ms r

read-Fits :
    (f : Frame) (m : Message) → ((g : MetaHeader) → read_header g f ≡ header_of m) → Fits f m
read-Fits blank m r = tt
read-Fits closed m r = tt
read-Fits (holding h) m r = r h
read-Fits (inlined h) m r = r h

Ready-Fit : (m : Message) → Ready m → Fit m
Ready-Fit m (q, r) = read-Fits (m.frame) m r

queue_part-Fit : (ms : List Message) → All Ready ms → All Fit (map queue_part ms)
queue_part-Fit [] rs = tt
queue_part-Fit (m ∷ ms) ((q, r), rs) = (read-Fits (m.frame) (queue_part m) r, queue_part-Fit ms rs)

queue_part-owned :
    (g : MetaHeader) (ms : List Message) (h : ℕ)
    → All Ready ms
    → owned_by h (map queue_part ms) + carried h (map (λ n. read_header g (n.frame)) ms)
      ≡ owned_by h ms
unfolding owned_by carried
queue_part-owned g [] h rs = refl
queue_part-owned g (m ∷ ms) h ((q, r), rs) = rw (r g, q) (omega (arith, queue_part-owned g ms h rs))

after_send_vector-AllMove :
    (g : MetaHeader) (ms : List Message) (s : Socket)
    → All Ready ms
    → AllMove ms (after_send_vector g ms s)
unfolding owned_by carried
after_send_vector-AllMove g [] s rs = (tt, λ h. refl)
after_send_vector-AllMove g (m ∷ ms) s rs =
    (queue_part-Fit (m ∷ ms) rs, λ h. queue_part-owned g (m ∷ ms) h rs)

sent-AllMoveBy :
    (g : MetaHeader) (ms : List Message) (s : Socket) (o : Option (Finish (Unit {0})))
    → All Ready ms
    → AllMoveBy ms (ran (sent (after_send_vector g ms s) ms s) o)
sent-AllMoveBy g ms s none rs = tt
sent-AllMoveBy g ms s (some (finished u)) rs = after_send_vector-AllMove g ms s rs
sent-AllMoveBy g ms s (some (returned r)) rs =
    (All-weaken Ready Fit ms Ready-Fit rs, λ h. omega arith)

one_part-AllMoveBy :
    (m : Message) (o : Option (Sent Message)) → MovesBy m o → AllMoveBy (m ∷ []) (ran one_part o)
unfolding owned_by
one_part-AllMoveBy m none v = tt
one_part-AllMoveBy m (some r) (i, v) = ((i, tt), λ h. omega (arith, v h))

pub send_vector-AllMoveBy :
    (g : MetaHeader) (interrupted : ℕ → Bool) (calls : ℕ → Call (Unit {0})) (dontwait : Bool)
    (timeout : ℤ) (fuel : ℕ) (ms : List Message) (s : Socket)
    → All Ready ms
    → AllMoveBy ms (send_vector g interrupted calls dontwait timeout fuel ms s)
unfolding send_vector
send_vector-AllMoveBy g interrupted calls dontwait timeout fuel [] s rs = sent-AllMoveBy g [] s _ rs
send_vector-AllMoveBy g interrupted calls dontwait timeout fuel (m ∷ []) s ((q, r), rs) =
    one_part-AllMoveBy m _
      (send_impl-MovesBy interrupted calls dontwait timeout fuel m s (Ready-Fit m (q, r)) q)
send_vector-AllMoveBy g interrupted calls dontwait timeout fuel (m ∷ n ∷ ms) s rs =
    sent-AllMoveBy g (m ∷ n ∷ ms) s _ rs

-- A receive gives the message what was on the way.
abbrev pub Gains : List MetaHeader → Received Message → Type 0
Gains hs (received r n t) = Fit n × ((h : ℕ) → owned h n ≡ carried h hs)
Gains hs asserts = Unit {0}

held-Fresh :
    (h : ℕ) (queued : Bool) (region : ℕ) (handle : ℤ)
    → ((k : ℕ) → handle ≢ pos k)
    → held h queued region handle ≡ 0
held-Fresh h true region handle f = refl
held-Fresh h false region (pos k) f = absurd (f k refl)
held-Fresh h false region (negsuc k) f = refl

pub owned-Fresh : (h : ℕ) (m : Message) → Fresh m → owned h m ≡ 0
owned-Fresh h m (q, f) = held-Fresh h (m.queued) (m.region_id) (m.handle) f

pub after_receive-Gains :
    (m : Message) (s : Socket) (hs : List MetaHeader) → Fresh m → Gains hs (after_receive m s hs)
unfolding carried
after_receive-Gains m s [] f = (tt, λ h. owned-Fresh h m f)
after_receive-Gains m s (k ∷ []) (q, f) = (refl, λ h. rw q (omega arith))
after_receive-Gains m s (k ∷ l ∷ hs) f = tt

abbrev pub AllGain : List Message → List MetaHeader → Received (List Message) → Type 0
AllGain old hs (received r ns t) =
    All Fit ns × ((h : ℕ) → owned_by h ns ≡ owned_by h old + carried h hs)
AllGain old hs asserts = Unit {0}

part_of-Fit : (hs : List MetaHeader) → All Fit (map part_of hs)
part_of-Fit [] = tt
part_of-Fit (h ∷ hs) = (refl, part_of-Fit hs)

part_of-owned : (h : ℕ) (hs : List MetaHeader) → owned_by h (map part_of hs) ≡ carried h hs
unfolding owned_by carried
part_of-owned h [] = refl
part_of-owned h (k ∷ hs) = omega (arith, part_of-owned h hs)

gains_none : (n h : ℕ) → n ≡ n + carried h []
unfolding carried
gains_none n h = omega arith

pub after_receive_vector-AllGain :
    (old : List Message) (s : Socket) (hs : List MetaHeader)
    → All Fit old
    → AllGain old hs (after_receive_vector old s hs)
after_receive_vector-AllGain old s [] i = (i, λ h. gains_none (owned_by h old) h)
after_receive_vector-AllGain old s (k ∷ hs) i = (
  All-append Fit old (map part_of (k ∷ hs)) i (part_of-Fit (k ∷ hs)),
  λ h. omega (arith, owned_by-append h old (map part_of (k ∷ hs)), part_of-owned h (k ∷ hs)),
)
