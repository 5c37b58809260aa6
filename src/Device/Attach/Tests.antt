-- ===== src/Device/Attach/Tests.antt =====
-- A channel with two endpoints.
use bachelor_fair_mq.Base.{
  ℕ, ◌≡◌, refl, List, [], ◌∷◌, Text, codes, text_eq, starts_with, find, Bool, true, false, some,
  ◌⊎◌, pos,
}
use bachelor_fair_mq.Base.Algorithm.{plain}
use bachelor_fair_mq.Transports.{zmq}
use bachelor_fair_mq.Channel.{Channel, new, of_address, init_transport, update_address}
use bachelor_fair_mq.Device.BindEndpoint.{bind_endpoint, bind_attempts}
use bachelor_fair_mq.Device.Attach.{
  resolve, SocketCall, set_option, bound, connected, attach_endpoints, attach_channel,
  socket_options,
}
use bachelor_fair_mq.Device.Attach.Meaning.{calls_for, bindings, attach_channel-Attached}

abbrev resolved : Text → Text
resolved host = codes "1.2.3.4"

abbrev free : ℕ → ℕ → Text → Bool
free n k a = true

abbrev port_7 : ℕ → ℕ → ℕ
port_7 n k = 7

abbrev channel : Channel
channel = record new { address = codes "@tcp://*:5,>tcp://h:6" }

abbrev attached : Channel
attached = record channel {
  socket = some 3;
  transport = zmq;
  factory = some zmq;
  address = codes "@tcp://*:5,+tcp://1.2.3.4:6";
}

abbrev calls : List SocketCall
calls =
    set_option (codes "snd-hwm") (pos 1000)
    ∷ set_option (codes "rcv-hwm") (pos 1000)
    ∷ bound (codes "tcp://*:5")
    ∷ set_option (codes "snd-hwm") (pos 1000)
    ∷ set_option (codes "rcv-hwm") (pos 1000)
    ∷ connected (codes "tcp://1.2.3.4:6")
    ∷ []

channel_is_attached :
    attach_channel resolved free port_7 plain zmq (some 3) channel ≡ some (true, attached, calls)
unfolding attach_channel plain init_transport new attach_endpoints resolve starts_with text_eq find
    bind_endpoint bind_attempts update_address of_address
channel_is_attached = refl

attach_channel-Attached_example :
    ((c' : Channel) × (calls : List SocketCall) × (attach_channel resolved free port_7 plain zmq
          (some 3)
          channel
        ≡ some (false, c', calls)))
    ⊎ ((c' : Channel) × (new : List Text) × (attach_channel resolved free port_7 plain zmq
            (some 3)
            channel
          ≡ some (true, c', calls_for (socket_options channel) false new))
        × (c'.address ≡ plain.join b',' new)
        × (bindings false new ≡ true ∷ false ∷ [])
        × (c'.factory ≡ some zmq))
unfolding plain text_eq new
attach_channel-Attached_example =
    attach_channel-Attached resolved free port_7 plain zmq (some 3) channel
