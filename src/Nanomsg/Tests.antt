-- ===== src/Nanomsg/Tests.antt =====
-- The nanomsg transport (fairmq/nanomsg) on concrete messages.
use bachelor_fair_mq.Base.{
  ℕ, zero, suc, ◌+◌, ◌≡◌, ◌≢◌, ◌++◌, codes, take, drop, length, pos, true, false, List, [], ◌∷◌,
  Option, none, some, refl, ap, inr, arith, Text, if◌then◌else◌,
}
use bachelor_fair_mq.Zeromq.{new}
use bachelor_fair_mq.Zeromq.Arrival.{waited}
use bachelor_fair_mq.Transfer.{finished, rounds, rounds_made, count_rx}
use bachelor_fair_mq.Transfer.Settles.{Tried, Leads}
use bachelor_fair_mq.Nanomsg.{Message, chunk, unset, make_region, rebuild}
use bachelor_fair_mq.Nanomsg.Socket.{
  Msgpack, Call, works, fails, timed_out, reply_of, Sent, after_send, send_impl, pack_parts,
  regions, send_vector, received, receive_vector, part_of,
}
use bachelor_fair_mq.Nanomsg.Parts.{parts_round_trip, send_impl-Leads}
use bachelor_fair_mq.Nanomsg.Gaps.{rebuild_sent}

take-append : (x y : Text) → take (length x) (x ++ y) ≡ x
take-append [] y = refl
take-append (b ∷ x) y = ap (λ z. b ∷ z) (take-append x y)

drop-append : (x y : Text) → drop (length x) (x ++ y) ≡ y
drop-append [] y = refl
drop-append (b ∷ x) y = drop-append x y

-- A packing with the length in front.
abbrev unpack_counted : Text → Option (Text × Text)
unpack_counted [] = none
unpack_counted (n ∷ x) = some (take n x, drop n x)

abbrev counting : Msgpack
counting = record {
  pack = λ x. length x ∷ x;
  unpack = unpack_counted;
  unpack-pack = λ x y l. rw (take-append x y, drop-append x y) refl;
  length-pack = λ x. omega arith;
}

abbrev letter : Message
letter = record unset { buffer = chunk (codes "ab"); size = 2 }

abbrev blank : Message
blank = record unset { buffer = chunk [] }

abbrev all_parts : List Message
all_parts = letter ∷ blank ∷ make_region (codes "xyz") 2 0 ∷ []

abbrev works_at_once : ℕ → Call (Unit {0})
works_at_once i = works tt

abbrev packed : Text
packed = 2 ∷ codes "ab" ++ 0 ∷ 2 ∷ codes "xy"

abbrev sent_parts : Sent (List Message)
sent_parts = record {
  result = pos 7;
  part = all_parts;
  socket = record new { bytes_tx = 7; messages_tx = 1 };
  wire = some packed;
  callbacks = 1;
}

sent_parts_run : send_vector counting works_at_once true (pos 0) 1 all_parts new ≡ some sent_parts
unfolding send_vector pack_parts regions rounds make_region
sent_parts_run = refl

abbrev brings : ℕ → Call Text
brings i = works packed

-- The three parts arrive behind one that is in the vector.
parts_round_trip_example :
    receive_vector counting brings true (pos 0) 1 (blank ∷ []) new
    ≡ some (
        received
          (pos 7)
          (blank ∷ part_of (codes "ab") ∷ part_of [] ∷ part_of (codes "xy") ∷ [])
          (count_rx 7 new))
unfolding make_region
parts_round_trip_example =
    parts_round_trip counting works_at_once true (pos 0) 1 all_parts new sent_parts packed brings
      true (pos 0) 0 (blank ∷ []) new (omega arith, (omega arith, (omega arith, tt))) sent_parts_run
      refl refl

-- A region's message, sent behind two calls that time out.
abbrev slow : ℕ → Call (Unit {0})
slow zero = fails timed_out false
slow (suc zero) = fails timed_out false
slow (suc (suc i)) = works tt

abbrev of_region : Message
of_region = make_region (codes "xyz") 3 9

slow_run :
    send_impl slow false (pos 1000) 5 of_region new
    ≡ some (record {
      result = pos 3;
      part = of_region;
      socket = record new { bytes_tx = 3; messages_tx = 1 };
      wire = some (codes "xyz");
      callbacks = 3;
    })
unfolding make_region send_impl rounds rounds_made
slow_run = refl

limited : pos 1000 ≢ pos 0
limited e = cc

send_impl-Leads_example :
    (n : ℕ) × Tried (λ i. reply_of (slow i)) 0 n
    × Leads
        (after_send of_region new (if of_region.region then suc n else 0))
        false
        (pos 1000)
        (waited (pos 1000) 100 0 (suc n))
        (reply_of (slow n))
        (send_impl slow false (pos 1000) (1000 + 1) of_region new)
send_impl-Leads_example =
    send_impl-Leads slow false (pos 1000) of_region new (inr limited) (omega arith, omega arith)

abbrev letter_sent : Sent Message
letter_sent = after_send letter new 0 (finished tt)

letter_run : send_impl works_at_once true (pos 0) 1 letter new ≡ some letter_sent
unfolding send_impl rounds
letter_run = refl

rebuild_sent_example :
    (rebuild (letter_sent.part) (record { live = 1; misused = 0 })).1
    ≡ record { live = 1; misused = 1 }
rebuild_sent_example =
    rebuild_sent works_at_once true (pos 0) 1 letter new letter_sent (codes "ab")
      (record { live = 1; misused = 0 }) refl letter_run refl
