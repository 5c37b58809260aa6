-- ===== src/Channel.antt =====
-- FairMQChannel (fairmq/FairMQChannel.cxx): its fields, its constructors, and the setters.
-- The mutex that each method takes is left out: no method keeps it while it calls another.
pub mod Endpoint
pub mod Accepts
pub mod Decides
pub mod Validate
pub mod Name
pub mod Sound
pub mod Gaps
use bachelor_fair_mq.Base.{
  ℕ, List, [], ◌≡◌, refl, Bool, true, false, Option, none, some, Text, codes, ℤ, pos, Outcome, ok,
  throws, exits, ◌>>=◌, or_exit, or_throw,
}
use bachelor_fair_mq.Transports.{Transport, default, transport_types}

-- `socket` is the handle of the socket that the channel owns; `factory` is the transport of the
-- factory that it holds.
pub record Channel : Type 0 where
  pub socket : Option ℕ
  pub kind : Text
  pub method : Text
  pub address : Text
  pub transport : Transport
  pub snd_buf_size : ℤ
  pub rcv_buf_size : ℤ
  pub snd_kernel_size : ℤ
  pub rcv_kernel_size : ℤ
  pub rate_logging : ℤ
  pub name : Text
  pub is_valid : Bool
  pub factory : Option Transport
  pub multipart : Bool
  pub modified : Bool
  pub reset : Bool

abbrev pub unspecified : Text
unspecified = codes "unspecified"

-- FairMQChannel(type, method, address).
unfoldable pub of_address : Text → Text → Text → Channel
of_address kind method address = record {
  socket = none;
  kind = kind;
  method = method;
  address = address;
  transport = default;
  snd_buf_size = pos 1000;
  rcv_buf_size = pos 1000;
  snd_kernel_size = pos 0;
  rcv_kernel_size = pos 0;
  rate_logging = pos 1;
  name = [];
  is_valid = false;
  factory = none;
  multipart = false;
  modified = true;
  reset = false;
}

-- FairMQChannel().
unfoldable pub new : Channel
unfolding of_address
new = of_address unspecified unspecified unspecified

-- FairMQChannel(name, type, factory): the factory's socket and transport.
unfoldable pub of_factory : Text → Text → Transport → ℕ → Channel
unfolding of_address
of_factory name kind factory socket = record (of_address kind unspecified unspecified) {
  socket = some socket;
  transport = factory;
  name = name;
  factory = some factory;
}

-- The copy constructor: the configuration, without the socket, the factory and the verdict.
unfoldable pub copy : Channel → Channel
copy c = record c { socket = none; is_valid = false; factory = none; reset = false }

-- operator=, which keeps nothing of the channel on the left.
unfoldable pub assign : Channel → Channel → Channel
assign c other = record c {
  socket = none;
  kind = other.kind;
  method = other.method;
  address = other.address;
  transport = other.transport;
  snd_buf_size = other.snd_buf_size;
  rcv_buf_size = other.rcv_buf_size;
  snd_kernel_size = other.snd_kernel_size;
  rcv_kernel_size = other.rcv_kernel_size;
  rate_logging = other.rate_logging;
  name = other.name;
  is_valid = false;
  factory = none;
  multipart = other.multipart;
  modified = other.modified;
  reset = false;
}

unfoldable pub update_type : Channel → Text → Channel
update_type c v = record c { is_valid = false; kind = v; modified = true }

unfoldable pub update_method : Channel → Text → Channel
update_method c v = record c { is_valid = false; method = v; modified = true }

unfoldable pub update_address : Channel → Text → Channel
update_address c v = record c { is_valid = false; address = v; modified = true }

-- An unknown name throws out of `TransportTypes.at`, and the handler exits.
unfoldable pub update_transport : Channel → Text → Outcome Channel
update_transport c v = or_exit (do
  t ← or_throw (transport_types v)
  ok (record c { is_valid = false; transport = t; modified = true }))

unfoldable pub update_snd_buf_size : Channel → ℤ → Channel
update_snd_buf_size c v = record c { is_valid = false; snd_buf_size = v; modified = true }

unfoldable pub update_rcv_buf_size : Channel → ℤ → Channel
update_rcv_buf_size c v = record c { is_valid = false; rcv_buf_size = v; modified = true }

unfoldable pub update_snd_kernel_size : Channel → ℤ → Channel
update_snd_kernel_size c v = record c { is_valid = false; snd_kernel_size = v; modified = true }

unfoldable pub update_rcv_kernel_size : Channel → ℤ → Channel
update_rcv_kernel_size c v = record c { is_valid = false; rcv_kernel_size = v; modified = true }

unfoldable pub update_rate_logging : Channel → ℤ → Channel
update_rate_logging c v = record c { is_valid = false; rate_logging = v; modified = true }

unfoldable pub update_channel_name : Channel → Text → Channel
update_channel_name c v = record c { is_valid = false; name = v; modified = true }

unfoldable pub set_modified : Channel → Bool → Channel
set_modified c v = record c { modified = v }

unfoldable pub init_transport : Channel → Transport → Channel
init_transport c factory = record c { factory = some factory; transport = factory }

unfoldable pub reset_channel : Channel → Channel
reset_channel c = record c { is_valid = false }

-- Bind and Connect set the method and the address, and leave the validity flag as it is; what the
-- socket does with the address is not the channel's.
unfoldable pub bind : Channel → Text → Channel
bind c v = record c { method = codes "bind"; address = v }

unfoldable pub connect : Channel → Text → Channel
connect c v = record c { method = codes "connect"; address = v }
