-- ===== src/Device/Attach.antt =====
-- FairMQDevice::AttachChannel (fairmq/FairMQDevice.cxx). The answers of the socket's Bind and the random
-- ports, by the number of the endpoint, and getIpFromHostname are parameters; Connect returns.
pub mod Plain
pub mod Meaning
mod Tests
use bachelor_fair_mq.Base.{
  ℕ, zero, suc, ◌+◌, ℤ, pos, List, [], ◌∷◌, ◌++◌, Text, codes, text_eq, starts_with, find, take,
  drop, Bool, true, false, if◌then◌else◌, ◌==◌, ◌||◌, ◌&&◌, not, Option, none, some,
}
use bachelor_fair_mq.Base.Algorithm.{Algorithm}
use bachelor_fair_mq.Transports.{Transport, default, transport_names}
use bachelor_fair_mq.Channel.{Channel, init_transport, update_address}
use bachelor_fair_mq.Device.BindEndpoint.{bind_endpoint}

-- connectionModifier, bind and address.
pub record Plan : Type 0 where
  pub modified : Bool
  pub binds : Bool
  pub address : Text

-- `endpoint[0]` of an empty text is the byte 0.
abbrev pub plan : Bool → Text → Plan
plan method_binds [] = record { modified = false; binds = method_binds; address = [] }
plan method_binds (c ∷ s) =
    if c == b'+' || c == b'>'
    then record { modified = true; binds = false; address = s }
    else if c == b'@'
    then record { modified = true; binds = true; address = s }
    else record { modified = false; binds = method_binds; address = c ∷ s }

-- `substr(0, pos)` and `substr(pos + 1)`, which are the whole text where there is no colon.
abbrev pub host_part : Text → Text
host_part s = elim (find b':' s) [ none ↦ s | some i ↦ take i s ]

abbrev pub port_part : Text → Text
port_part s = elim (find b':' s) [ none ↦ s | some i ↦ drop (suc i) s ]

abbrev pub with_host : Text → Text → Option Text
with_host [] port = none
with_host (c ∷ host) port = some (codes "tcp://" ++ (c ∷ host) ++ b':' ∷ port)

-- The host of a tcp address is resolved, but for the wildcard of a bind.
unfoldable pub resolve : (Text → Text) → Bool → Text → Option Text
resolve get_ip binds a =
    let s = drop 6 a in
    if starts_with a (codes "tcp://")
    then if binds && text_eq (host_part s) (codes "*")
      then some a
      else with_host (get_ip (host_part s)) (port_part s)
    else some a

-- The endpoint that is written back.
abbrev pub write_back : Plan → Text → Text
write_back p a = if p.modified then (if p.binds then b'@' else b'+') ∷ a else a

-- A call of the socket: an option, or the attachment to an address.
pub data SocketCall : Type 0 where
  set_option : Text → ℤ → SocketCall
  bound connected : Text → SocketCall

abbrev pub linked : Bool → Text → SocketCall
linked true a = bound a
linked false a = connected a

abbrev pub kernel_option : Text → ℤ → List SocketCall
kernel_option name (pos zero) = []
kernel_option name size = set_option name size ∷ []

abbrev pub socket_options : Channel → List SocketCall
socket_options c =
    set_option (codes "snd-hwm") (c.snd_buf_size)
      ∷ set_option (codes "rcv-hwm") (c.rcv_buf_size)
      ∷ kernel_option (codes "snd-size") (c.snd_kernel_size)
    ++ kernel_option (codes "rcv-size") (c.rcv_kernel_size)

-- What the loop has done: whether all endpoints are attached, the endpoints, and the calls.
pub record Attached : Type 0 where
  pub success : Bool
  pub endpoints : List Text
  pub calls : List SocketCall

-- One endpoint more, attached to an address.
abbrev pub joined : Plan → List SocketCall → Text → Attached → Attached
joined p options a r = record {
  success = r.success;
  endpoints = write_back p a ∷ r.endpoints;
  calls = options ++ linked p.binds a ∷ r.calls;
}

-- The transport of the factory that InitTransport is given.
abbrev pub chosen : Transport → Transport → Transport
chosen own default = own
chosen own t = t

abbrev pub store_address : Text → Channel → Channel
store_address a c = if text_eq a c.address then c else update_address c a

-- The channel's socket, or a new one.
abbrev pub with_socket : Option ℕ → Channel → Option ℕ
with_socket create_socket c = elim (c.socket) [ some s ↦ some s | none ↦ create_socket ]

module _ (get_ip : Text → Text) (bind : ℕ → ℕ → Text → Bool) (random_port : ℕ → ℕ → ℕ) where
  -- BindEndpoint or ConnectEndpoint.
  abbrev pub attach_endpoint : ℕ → Bool → Text → Option (Bool × Text)
  attach_endpoint n true a = bind_endpoint (bind n) (random_port n) a
  attach_endpoint n false a = some (true, a)

  -- Behind an endpoint that is attached the loop goes on.
  abbrev pub next_endpoint :
      Plan → List SocketCall → List Text → Option Attached → Option (Bool × Text) → Option Attached
  next_endpoint p options es rest none = none
  next_endpoint p options es rest (some (false, a)) =
      some (record { success = false; endpoints = write_back p a ∷ es; calls = options })
  next_endpoint p options es none (some (true, a)) = none
  next_endpoint p options es (some r) (some (true, a)) = some (joined p options a r)

  unfoldable pub attach_endpoints : List SocketCall → ℕ → Bool → List Text → Option Attached
  attach_endpoints options n method_binds [] =
      some (record { success = true; endpoints = []; calls = [] })
  attach_endpoints options n method_binds (e ∷ es) =
      let p = plan method_binds e in
      let rest = attach_endpoints options (suc n) method_binds es in
      elim (resolve get_ip (p.binds) (p.address)) [
        | none ↦ some (record { success = false; endpoints = e ∷ es; calls = options })
        | some a ↦ next_endpoint p options es rest (attach_endpoint n (p.binds) a)
      ]

  -- CreateSocket gives a handle, or throws SocketError; split gives at least one endpoint, and the
  -- socket is made at the first.
  module _ (alg : Algorithm) (own : Transport) (create_socket : Option ℕ) where
    abbrev pub finish : Channel → Option Attached → Option (Bool × Channel × List SocketCall)
    finish c none = none
    finish c (some r) =
        if r.success
        then some (true, store_address (alg.join b',' r.endpoints) c, r.calls)
        else some (false, c, r.calls)

    unfoldable pub attach_channel : Channel → Option (Bool × Channel × List SocketCall)
    attach_channel c =
        let c1 = init_transport c (chosen own (c.transport)) in
        elim (with_socket create_socket c1) [
          | none ↦ some (false, c1, [])
          | some s ↦
              finish (record c1 { socket = some s })
                (attach_endpoints (socket_options c) 0 (text_eq (c.method) (codes "bind"))
                  (alg.split b',' c.address))
        ]
