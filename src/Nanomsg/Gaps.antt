-- ===== src/Nanomsg/Gaps.antt =====
-- A message that nanomsg has taken, rebuilt (fairmq/nanomsg/FairMQMessageNN.cxx).
use bachelor_fair_mq.Base.{ℕ, suc, ℤ, Bool, false, Option, none, some, Text, ◌≡◌, refl, subst}
use bachelor_fair_mq.Zeromq.{Socket}
use bachelor_fair_mq.Transfer.{Finish, finished, returned, ran}
use bachelor_fair_mq.Nanomsg.{Buffer, Message, Heap, free_message, close_message, rebuild}
use bachelor_fair_mq.Nanomsg.Socket.{Call, Sent, taken_buffer, after_send, send_impl}

-- Where nanomsg has taken the message, its rebuilding is a misuse.
abbrev Misuses : Heap → Option (Sent Message) → Type 0
Misuses h none = Unit {0}
Misuses h (some r) =
    (x : Text) → r.wire ≡ some x → (rebuild (r.part) h).1 ≡ record h { misused = suc (h.misused) }

taken_misused :
    (region : Bool) (b : Buffer) (h : Heap)
    → region ≡ false
    → (free_message (taken_buffer region b) h).1 ≡ record h { misused = suc (h.misused) }
taken_misused region b h e = rw e refl

sent-Misuses :
    (m : Message) (s : Socket) (n : ℕ) (h : Heap) (o : Option (Finish (Unit {0})))
    → m.region ≡ false
    → Misuses h (ran (after_send m s n) o)
unfolding rebuild close_message
sent-Misuses m s n h none e = tt
sent-Misuses m s n h (some (finished u)) e = λ x w. taken_misused (m.region) (m.buffer) h e
sent-Misuses m s n h (some (returned r)) e = λ x w. cc

-- Rebuild, called on a message of no region that nanomsg has taken, calls nn_freemsg on the chunk
-- that is nanomsg's.
pub rebuild_sent :
    (calls : ℕ → Call (Unit {0})) (dontwait : Bool) (timeout : ℤ) (fuel : ℕ) (m : Message)
    (s : Socket) (r : Sent Message) (x : Text) (h : Heap)
    → m.region ≡ false
    → send_impl calls dontwait timeout fuel m s ≡ some r
    → r.wire ≡ some x
    → (rebuild (r.part) h).1 ≡ record h { misused = suc (h.misused) }
unfolding send_impl
rebuild_sent calls dontwait timeout fuel m s r x h e f w =
    subst (Misuses h) f (sent-Misuses m s _ h _ e) x w
