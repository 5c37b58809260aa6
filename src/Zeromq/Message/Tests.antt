-- ===== src/Zeromq/Message/Tests.antt =====
-- Messages of the ZeroMQ transport, and a message of several parts (fairmq/zeromq).
use bachelor_fair_mq.Base.{
  ℕ, zero, suc, ◌≡◌, ◌≢◌, codes, length, pos, Bool, true, false, [], ◌∷◌, none, some, refl, arith,
}
use bachelor_fair_mq.Zeromq.{new, eagain, Answer, Zmq, accepted, Progress}
use bachelor_fair_mq.Zeromq.Send.{send_vector, send_rounds, send_parts}
use bachelor_fair_mq.Zeromq.Multipart.{GotPart, part, all_received, receive_vector}
use bachelor_fair_mq.Zeromq.RoundTrip.{zeromq_round_trip}
use bachelor_fair_mq.Zeromq.Message.{
  ZMessage, make_empty, make_filled, copy, set_used_size, apply_used_size, get_size, get_message,
}
use bachelor_fair_mq.Zeromq.Message.Used.{Copies, copy-Copies, set_used_size-sent}

abbrev letters : ZMessage
letters = make_filled (codes "abcde") 5

-- The letters, resized to two, with the view applied.
abbrev resized : ZMessage
resized = record letters {
  used_size = 2;
  used_size_modified = true;
  msg = none;
  view_msg = some (codes "ab");
}

copy-Copies_example : Copies resized (copy resized make_empty)
copy-Copies_example = copy-Copies resized make_empty [] (refl, refl) refl refl refl

set_used_size-sent_example :
    (k : ZMessage) × ((set_used_size 2 letters ≡ some (true, k))
      × ((get_size k ≡ some 2)
          × ((l : ZMessage) × ((apply_used_size k ≡ some l)
                × ((get_message l ≡ some (codes "ab"))
                    × ((length (codes "ab") ≡ 2)
                        × ((get_size l ≡ some 2) × (apply_used_size l ≡ some l))))))))
set_used_size-sent_example = set_used_size-sent 2 letters (codes "abcde") refl refl (omega arith)

accepts : (i : ℕ) (b : Bool) → accepted ≢ Answer.refused eagain b
accepts i b h = cc

abbrev ready : Zmq
ready = record { answer = λ i first. accepted; later_again = accepts }

abbrev handed_over : Progress
handed_over = record { calls = 2; frames = (codes "head", true) ∷ (codes "data", false) ∷ [] }

ready_send :
    send_vector ready true
      (pos 0)
      1
      (codes "head" ∷ codes "data" ∷ [])
      (record { calls = 0; frames = [] })
      new
    ≡ some (pos 8, (handed_over, record new { bytes_tx = 8; messages_tx = 1 }))
unfolding send_vector send_rounds send_parts
ready_send = refl

abbrev served : ℕ → GotPart
served zero = part (codes "head") true
served (suc i) = part (codes "data") false

zeromq_round_trip_example :
    receive_vector served true (pos 0) 2 1 (codes "old" ∷ []) new
    ≡ some (all_received 8 (codes "old" ∷ codes "head" ∷ codes "data" ∷ []) new)
zeromq_round_trip_example =
    zeromq_round_trip ready true (pos 0) 1 (codes "head") (codes "data" ∷ []) new _ 8 handed_over
      served true (pos 0) 2 0 (codes "old" ∷ []) new ready_send (refl, (refl, tt)) (omega arith)
