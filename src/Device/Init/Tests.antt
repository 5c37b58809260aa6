-- ===== src/Device/Init/Tests.antt =====
-- A device with a channel to connect and one to bind.
use bachelor_fair_mq.Base.{
  ℕ, ◌≡◌, refl, [], ◌∷◌, Text, codes, text_eq, starts_with, find, contains, true, false, some, ok,
  ◌⊎◌, inl,
}
use bachelor_fair_mq.Base.Algorithm.{plain}
use bachelor_fair_mq.Transports.{zmq}
use bachelor_fair_mq.Channel.{Channel, new, of_address, init_transport, update_address}
use bachelor_fair_mq.Channel.Validate.{validate_channel}
use bachelor_fair_mq.Fsm.{internal_device_ready}
use bachelor_fair_mq.Device.BindEndpoint.{bind_endpoint, bind_attempts}
use bachelor_fair_mq.Device.Attach.{resolve, attach_endpoints, attach_channel}
use bachelor_fair_mq.Device.Init.{
  Meets, try_channel, attach_channels, retry, first_attempts, init_channels, of_side, connecting,
  binding,
}
use bachelor_fair_mq.Device.Init.Attaches.{Done, In}
use bachelor_fair_mq.Device.Init.Ends.{Reports, init_channels-Done}

abbrev resolved : Text → Text
resolved host = codes "1.2.3.4"

-- Nothing can be bound, and sockets are made.
abbrev occupied : ℕ → ℕ → Meets
occupied a n = record {
  bind = λ i k address. false;
  random_port = λ i k. 7;
  create_socket = some 3;
}

abbrev to_connect : Channel
to_connect = record new {
  name = codes "out[0]";
  method = codes "connect";
  address = codes "tcp://1.2.3.4:6";
  is_valid = true;
}

abbrev connected : Channel
connected = record to_connect {
  socket = some 3;
  transport = zmq;
  factory = some zmq;
  modified = false;
}

-- The channel is attached at the first attempt.
run_connects :
    init_channels plain zmq resolved occupied (λ i key. []) 1 0 (to_connect ∷ [])
    ≡ some (ok (connected ∷ [], internal_device_ready ∷ []))
unfolding init_channels first_attempts attach_channels try_channel retry of_side validate_channel
    attach_channel plain init_transport new attach_endpoints resolve starts_with text_eq find
    contains bind_endpoint bind_attempts update_address of_address
run_connects = refl

first_connects : In 0 (of_side connecting 0 (to_connect ∷ []))
unfolding of_side text_eq new of_address
first_connects = inl refl

init_channels-Done_example :
    Done (connected ∷ []) 0
    ⊎ (In 0 (of_side binding 0 (to_connect ∷ [])) × Reports (internal_device_ready ∷ []))
init_channels-Done_example =
    init_channels-Done plain zmq resolved occupied (λ i key. []) 1 0 (to_connect ∷ [])
      (connected ∷ []) (internal_device_ready ∷ []) 0 (inl first_connects) run_connects
