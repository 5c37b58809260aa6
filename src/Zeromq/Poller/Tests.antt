-- ===== src/Zeromq/Poller/Tests.antt =====
-- A poller over two channels.
use bachelor_fair_mq.Base.{
  ℕ, suc, zero, ◌≡◌, refl, List, [], ◌∷◌, Text, codes, some, true, false, ok, ◌>>=◌, text_eq,
  lookup,
}
use bachelor_fair_mq.Zeromq.Poller.{
  SocketType, zmq_pull, zmq_push, zmq_pair, Events, answered, of_map, poll, check_input,
  check_output,
}
use bachelor_fair_mq.Zeromq.Poller.Checks.{of_map-Checks, IsPollable}

abbrev types : ℕ → SocketType
types zero = zmq_pull
types (suc zero) = zmq_push
types _ = zmq_pair

-- The channel "a" has the sockets 0 and 1, and "b" has 2.
abbrev channels : List (Text × List ℕ)
channels = (codes "a", 0 ∷ 1 ∷ []) ∷ (codes "b", 2 ∷ []) ∷ []

abbrev all_ready : ℕ → Events
all_ready s = record { poll_in = true; poll_out = true }

abbrev keys : List Text
keys = codes "b" ∷ codes "a" ∷ codes "b" ∷ []

a_there : IsPollable types channels (codes "a")
unfolding lookup text_eq
a_there = record { sockets = 0 ∷ 1 ∷ []; there = refl; all_polled = (λ e. cc, (λ e. cc, tt)) }

b_there : IsPollable types channels (codes "b")
unfolding lookup text_eq
b_there = record { sockets = 2 ∷ []; there = refl; all_polled = (λ e. cc, tt) }

-- The push socket is ready to send, and is not asked whether it can receive.
of_map-Checks_example :
    (of_map types channels keys >>= poll (answered all_ready) >>= λ p. check_input p (codes "a") 1)
      ≡ ok (some false)
    × (of_map types channels keys >>= poll (answered all_ready) >>= λ p.
        check_output p (codes "a") 1)
      ≡ ok (some true)
unfolding lookup text_eq
of_map-Checks_example =
    of_map-Checks types channels keys 1 (codes "a") (0 ∷ 1 ∷ []) 1 1 all_ready
      (b_there, (a_there, (b_there, tt))) refl refl refl
