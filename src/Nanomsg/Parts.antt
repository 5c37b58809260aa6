-- ===== src/Nanomsg/Parts.antt =====
-- Transfers over nanomsg (fairmq/nanomsg/FairMQSocketNN.cxx and FairMQMessageNN.cxx).
use bachelor_fair_mq.Base.{
  ℕ, zero, suc, ◌+◌, ◌<◌, ◌≤◌, ◌^◌, ℤ, pos, Bool, true, List, [], ◌∷◌, ◌++◌, map, Option, none,
  some, Text, length, length-append, ◌≡◌, ◌≢◌, ◌⊎◌, refl, sym, ap, ◌∙◌, subst, arith, All,
  if◌then◌else◌,
}
use bachelor_fair_mq.Zeromq.{Socket}
use bachelor_fair_mq.Zeromq.Returns.{Ticks, limit}
use bachelor_fair_mq.Zeromq.Arrival.{waited}
use bachelor_fair_mq.Transfer.{
  Reply, Finish, finished, returned, rounds, rounds_made, ran, count_rx,
}
use bachelor_fair_mq.Transfer.Settles.{Tried, Leads, limited-Leads}
use bachelor_fair_mq.Nanomsg.{Message, bytes_of}
use bachelor_fair_mq.Nanomsg.Socket.{
  Msgpack, Call, works, reply_of, Sent, after_send, send_impl, pack_parts, packed_part, regions,
  after_send_vector, send_vector, part_of, cons_part, unpack_parts, received, after_receive_vector,
  receive_vector,
}

-- What msgpack packs is not too long for it.
abbrev pub IsShort : Message → Type 0
IsShort m = length (bytes_of m) < 2 ^ 32

abbrev pub copied : Message → Message
copied m = part_of (bytes_of m)

unpack_first :
    (mp : Msgpack) (fuel : ℕ) (y p rest : Text)
    → 1 ≤ length y
    → mp.unpack y ≡ some (p, rest)
    → unpack_parts mp (suc fuel) y ≡ cons_part p (unpack_parts mp fuel rest)
unfolding unpack_parts
unpack_first mp fuel [] p rest l e = absurd (omega (arith, l))
unpack_first mp fuel (b ∷ y) p rest l e = rw (e, unpack_parts) refl

unpack_parts-pack :
    (mp : Msgpack) (ms : List Message) (fuel : ℕ)
    → All IsShort ms
    → length (pack_parts mp ms) ≤ fuel
    → unpack_parts mp fuel (pack_parts mp ms) ≡ some (map copied ms)
unfolding pack_parts unpack_parts
unpack_parts-pack mp [] fuel i l = refl
unpack_parts-pack mp (m ∷ ms) zero (j, i) l = absurd (
    omega (
      arith,
      l,
      mp.length-pack (bytes_of m),
      length-append (mp.pack (bytes_of m)) (pack_parts mp ms),
    ))
unpack_parts-pack mp (m ∷ ms) (suc fuel) (j, i) l =
    let e = length-append (mp.pack (bytes_of m)) (pack_parts mp ms) in
    unpack_first mp fuel _ (bytes_of m) (pack_parts mp ms)
      (omega (arith, e, mp.length-pack (bytes_of m)))
      (mp.unpack-pack (bytes_of m) (pack_parts mp ms) j)
    ∙ ap (cons_part (bytes_of m))
        (unpack_parts-pack mp ms fuel i (omega (arith, l, e, mp.length-pack (bytes_of m))))

abbrev counted_length : Text → ℤ
counted_length x = pos (length x)

abbrev Wires : Text → Option (Sent (List Message)) → Type 0
Wires packed none = Unit {0}
Wires packed (some r) = (x : Text) → r.wire ≡ some x → (x ≡ packed) × (r.result ≡ pos (length x))

after_send_vector-Wires :
    (packed : Text) (ms : List Message) (s : Socket) (n : ℕ) (o : Option (Finish (Unit {0})))
    → Wires packed (ran (after_send_vector packed ms s n) o)
after_send_vector-Wires packed ms s n none = tt
after_send_vector-Wires packed ms s n (some (finished u)) =
    λ x w. let e : x ≡ packed = cc in (e, ap counted_length (sym e))
after_send_vector-Wires packed ms s n (some (returned r)) = λ x w. cc

received_parts :
    (mp : Msgpack) (ms old : List Message) (s : Socket) (x : Text)
    → All IsShort ms
    → x ≡ pack_parts mp ms
    → after_receive_vector mp old s (finished x)
      ≡ received (pos (length x)) (old ++ map copied ms) (count_rx (length x) s)
received_parts mp ms old s x i e =
    rw (e, unpack_parts-pack mp ms (length (pack_parts mp ms)) i (omega arith)) refl

-- Messages of less than 2 ^ 32 bytes that nanomsg has taken together come out of a receive whose
-- first call brings what was sent: appended to the vector in the same order, each with the bytes and
-- the size of the one sent, with the result of the send; for any number of them.
pub parts_round_trip :
    (mp : Msgpack) (calls : ℕ → Call (Unit {0})) (dontwait : Bool) (timeout : ℤ) (fuel : ℕ)
    (ms : List Message) (s : Socket) (r : Sent (List Message)) (x : Text) (calls' : ℕ → Call Text)
    (dontwait' : Bool) (timeout' : ℤ) (fuel' : ℕ) (old : List Message) (s' : Socket)
    → All IsShort ms
    → send_vector mp calls dontwait timeout fuel ms s ≡ some r
    → r.wire ≡ some x
    → calls' 0 ≡ works x
    → receive_vector mp calls' dontwait' timeout' (suc fuel') old s'
      ≡ some (received (r.result) (old ++ map copied ms) (count_rx (length x) s'))
unfolding send_vector receive_vector rounds
parts_round_trip mp calls dontwait timeout fuel ms s r x calls' dontwait' timeout' fuel' old s' i e
      w c =
    let (a, b) =
      subst (Wires (pack_parts mp ms)) e
        (after_send_vector-Wires (pack_parts mp ms) (map packed_part ms) s (regions ms) _) x w in
    rw (c, b) (ap some (received_parts mp ms old s' x i a))

-- A send of a message that is not to wait, or has a timeout that is not zero, returns within as many
-- rounds as the timeout has milliseconds, and one. The conditions: the socket's own send timeout is at
-- least a millisecond, and it and the timeout together are at most 2^31 (with a negative timeout: it
-- is less than 2^31), so that the elapsed time, an int, does not overflow. Behind n calls that timed out, its outcome is what the answer to the next
-- says: the bytes, counted once; -2 for a call that timed out, with a reason to give up, or that was
-- refused with EAGAIN; else -1. The callback of a message's region was called n + 1 times.
pub send_impl-Leads :
    (calls : ℕ → Call (Unit {0})) (dontwait : Bool) (timeout : ℤ) (m : Message) (s : Socket)
    → (dontwait ≡ true) ⊎ (timeout ≢ pos 0)
    → Ticks timeout (s.snd_timeout)
    → (n : ℕ) × Tried (λ i. reply_of (calls i)) 0 n
      × Leads
          (after_send m s (if m.region then suc n else 0))
          dontwait
          timeout
          (waited timeout (s.snd_timeout) 0 (suc n))
          (reply_of (calls n))
          (send_impl calls dontwait timeout (limit timeout + 1) m s)
unfolding send_impl
send_impl-Leads calls dontwait timeout m s w t =
    let reply : ℕ → Reply (Unit {0}) = λ i. reply_of (calls i) in
    let made = rounds_made reply dontwait timeout (s.snd_timeout) (limit timeout + 1) 0 0 in
    let (n, a, c, l) =
      limited-Leads (after_send m s (if m.region then made else 0)) reply dontwait timeout
        (s.snd_timeout) w t in
    (
      n,
      a,
      subst
          (λ k.
            Leads (after_send m s (if m.region then k else 0)) dontwait timeout
              (waited timeout (s.snd_timeout) 0 (suc n)) (reply n)
              (send_impl calls dontwait timeout (limit timeout + 1) m s))
          c l,
    )
