-- ===== src/Shmem/Vectors.antt =====
-- Transfers of several parts over shared memory (fairmq/shmem/FairMQSocketSHM.cxx).
use bachelor_fair_mq.Base.{
  ℕ, suc, ◌+◌, ◌≤◌, ℤ, pos, Bool, true, false, List, [], ◌∷◌, ◌++◌, map, Option, none, some, ◌≡◌,
  ◌≢◌, ◌⊎◌, refl, ap, sym, subst, ◌∙◌, length, arith, All,
}
use bachelor_fair_mq.Zeromq.{Socket}
use bachelor_fair_mq.Zeromq.Returns.{Ticks, limit}
use bachelor_fair_mq.Zeromq.Arrival.{waited}
use bachelor_fair_mq.Transfer.{count_rx, Finish, finished, returned, rounds, ran}
use bachelor_fair_mq.Transfer.Settles.{Tried, Leads, limited-Leads}
use bachelor_fair_mq.Shmem.{MetaHeader, Message, header_of}
use bachelor_fair_mq.Shmem.Socket.{
  Call, works, Sent, sent, received, brought, checked, after_send_vector, send_vector,
  after_receive_vector, receive_vector, read_header, part_of, total_size, total_of,
}
use bachelor_fair_mq.Shmem.System.{Ready}

-- The headers on the way, and their sizes, are those of the parts.
read_header-map :
    (g : MetaHeader) (ms : List Message)
    → All Ready ms
    → map (λ n. read_header g (n.frame)) ms ≡ map header_of ms
read_header-map g [] rs = refl
read_header-map g (m ∷ ms) ((q, r), rs) = rw (r g, read_header-map g ms rs) refl

total_of-map : (ms : List Message) → total_of (map header_of ms) ≡ total_size ms
unfolding total_of total_size
total_of-map [] = refl
total_of-map (m ∷ ms) = rw (total_of-map ms) refl

header_of-map : (hs : List MetaHeader) → map header_of (map part_of hs) ≡ hs
header_of-map [] = refl
header_of-map (h ∷ hs) = ap (λ k. h ∷ k) (header_of-map hs)

some-injective : (hs ks : List MetaHeader) → some hs ≡ some ks → hs ≡ ks
some-injective hs ks e = cc

-- What a send of several parts leaves on the way, if it was taken.
abbrev Wires : List Message → Option (Sent (List Message)) → Type 0
Wires ms none = Unit {0}
Wires ms (some r) =
    (hs : List MetaHeader)
    → r.wire ≡ some hs
    → (map header_of ms ≡ hs) × (r.result ≡ pos (total_size ms))

sent-Wires :
    (g : MetaHeader) (m : Message) (ms : List Message) (s : Socket) (o : Option (Finish (Unit {0})))
    → All Ready (m ∷ ms)
    → Wires (m ∷ ms) (ran (sent (after_send_vector g (m ∷ ms) s) (m ∷ ms) s) o)
sent-Wires g m ms s none rs = tt
sent-Wires g m ms s (some (finished u)) rs =
    λ hs w. (sym (read_header-map g (m ∷ ms) rs) ∙ some-injective _ _ w, refl)
sent-Wires g m ms s (some (returned r)) rs = λ hs w. cc

received_vector-first :
    (ms old : List Message) (s : Socket) (hs : List MetaHeader)
    → hs ≡ map header_of ms
    → 1 ≤ length ms
    → after_receive_vector old s hs
      ≡ received (pos (total_size ms)) (old ++ map part_of hs) (count_rx (total_size ms) s)
received_vector-first [] old s hs e l = absurd (omega (arith, l))
received_vector-first (m ∷ ms) old s hs e l = rw (e, total_of-map (m ∷ ms)) refl

-- Two or more parts that can be sent, and were sent together, come out of a receive whose first call
-- brings what was put on the way: appended to the vector in the same order, with the sizes, regions,
-- handles and hints of the parts sent, and with the result of the send.
pub vector_round_trip :
    (g : MetaHeader) (interrupted : ℕ → Bool) (calls : ℕ → Call (Unit {0})) (dontwait : Bool)
    (timeout : ℤ) (fuel : ℕ) (m n : Message) (ms : List Message) (s : Socket)
    (r : Sent (List Message)) (hs : List MetaHeader) (interrupted' : ℕ → Bool)
    (calls' : ℕ → Call (List MetaHeader)) (dontwait' : Bool) (timeout' : ℤ) (fuel' : ℕ)
    (old : List Message) (s' : Socket)
    → All Ready (m ∷ n ∷ ms)
    → send_vector g interrupted calls dontwait timeout fuel (m ∷ n ∷ ms) s ≡ some r
    → r.wire ≡ some hs
    → interrupted' 0 ≡ false
    → calls' 0 ≡ works hs
    → (parts : List Message) × ((receive_vector interrupted' calls' dontwait' timeout'
            (suc fuel')
            old
            s'
          ≡ some (received (r.result) (old ++ parts) (count_rx (total_size (m ∷ n ∷ ms)) s')))
        × (map header_of parts ≡ map header_of (m ∷ n ∷ ms)))
unfolding send_vector receive_vector rounds
vector_round_trip g interrupted calls dontwait timeout fuel m n ms s r hs interrupted' calls'
      dontwait' timeout' fuel' old s' rs e w i c =
    let (a, b) = subst (Wires (m ∷ n ∷ ms)) e (sent-Wires g m (n ∷ ms) s _ rs) hs w in
    (
      map part_of hs,
      (
        rw (i, c, b) (ap some (received_vector-first (m ∷ n ∷ ms) old s' hs (sym a) (omega arith))),
        header_of-map hs ∙ sym a,
      ),
    )

-- A receive of several parts that is not to wait, or has a timeout that is not zero, returns within as
-- many rounds as the timeout has milliseconds, and one. The conditions: the socket's own receive
-- timeout is at least a millisecond, and it and the timeout together are at most 2^31 (with a negative
-- timeout: it is less than 2^31), so that the elapsed time, an int, does not overflow. Behind answers EAGAIN the outcome is what the loop reads next: the parts of
-- the headers that come, appended and counted; -2 for EAGAIN with a reason to give up; else -1.
pub receive_vector-Leads :
    (interrupted : ℕ → Bool) (calls : ℕ → Call (List MetaHeader)) (dontwait : Bool) (timeout : ℤ)
    (old : List Message) (s : Socket)
    → (dontwait ≡ true) ⊎ (timeout ≢ pos 0)
    → Ticks timeout (s.rcv_timeout)
    → (n : ℕ) × Tried (checked interrupted calls) 0 n
      × Leads
          (brought (after_receive_vector old s) old s)
          dontwait
          timeout
          (waited timeout (s.rcv_timeout) 0 (suc n))
          (checked interrupted calls n)
          (receive_vector interrupted calls dontwait timeout (limit timeout + 1) old s)
unfolding receive_vector
receive_vector-Leads interrupted calls dontwait timeout old s w t =
    let (n, a, c, l) =
      limited-Leads (brought (after_receive_vector old s) old s) (checked interrupted calls)
        dontwait timeout (s.rcv_timeout) w t in
    (n, a, l)
