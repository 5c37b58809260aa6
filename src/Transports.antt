-- ===== src/Transports.antt =====
-- fairmq/Transports.h: the transports and their names.
use bachelor_fair_mq.Base.{◌≡◌, refl, Option, none, some, Text, codes, text_eq, if◌then◌else◌}

pub data Transport : Type 0 where
  default zmq nn shm ofi : Transport

pub Transport-discrete : Discrete Transport
Transport-discrete = hlevel

-- TransportTypes: `at` throws on another name.
unfoldable pub transport_types : Text → Option Transport
transport_types t =
    if text_eq t (codes "default")
    then some default
    else if text_eq t (codes "zeromq")
    then some zmq
    else if text_eq t (codes "nanomsg")
    then some nn
    else if text_eq t (codes "shmem")
    then some shm
    else if text_eq t (codes "ofi")
    then some ofi
    else none

-- TransportNames.
unfoldable pub transport_names : Transport → Text
transport_names default = codes "default"
transport_names zmq = codes "zeromq"
transport_names nn = codes "nanomsg"
transport_names shm = codes "shmem"
transport_names ofi = codes "ofi"

-- The two maps are inverse to one another on the names of the transports.
pub transport_types-transport_names : (t : Transport) → transport_types (transport_names t) ≡ some t
unfolding transport_types transport_names text_eq
transport_types-transport_names default = refl
transport_types-transport_names zmq = refl
transport_types-transport_names nn = refl
transport_types-transport_names shm = refl
transport_types-transport_names ofi = refl
