-- ===== src/Options/Parser.antt =====
-- ptreeToMQMap and its helpers (fairmq/options/FairMQParser.cxx).
use bachelor_fair_mq.Base.{
  ℕ, zero, ℤ, pos, negsuc, List, [], ◌∷◌, ◌++◌, Text, codes, none, some, Bool, true, false, text_eq,
  if◌then◌else◌, Outcome, ok, throws, ◌>>=◌, or_throw, lookup, insert_new, replicate,
}
use bachelor_fair_mq.Transports.{transport_names}
use bachelor_fair_mq.Channel.{
  Channel, new, copy, update_type, update_method, update_address, update_transport,
  update_snd_buf_size, update_rcv_buf_size, update_snd_kernel_size, update_rcv_kernel_size,
  update_rate_logging,
}
use bachelor_fair_mq.Options.{PropertyTree}

-- FairMQChannelMap.
abbrev pub ChannelMap : Type 0
ChannelMap = List (Text × List Channel)

-- How many sockets a positive number asks for.
abbrev pub positive : ℤ → ℕ
positive (pos n) = n
positive (negsuc n) = 0

module _ (ptree : PropertyTree) where
  open ptree use {Tree, node, value, children, to_int}

  -- `get<string>(key, otherwise)` and `get<int>(key, otherwise)`.
  abbrev pub get_text : Tree → Text → Text → Text
  get_text t key otherwise = elim (lookup key (children t)) [ none ↦ otherwise | some c ↦ value c ]

  abbrev pub int_or : ℤ → Text → ℤ
  int_or otherwise v = elim (to_int v) [ none ↦ otherwise | some i ↦ i ]

  abbrev pub get_int : Tree → Text → ℤ → ℤ
  get_int t key otherwise = elim (lookup key (children t)) [
    | none ↦ otherwise
    | some c ↦ int_or otherwise (value c)
  ]

  -- `get<string>(key)`, which throws.
  abbrev pub require_text : Tree → Text → Outcome Text
  require_text t key = elim (lookup key (children t)) [ none ↦ throws | some c ↦ ok (value c) ]

  -- The nine settings, of a channel or of a socket; each is kept where the tree has none.
  unfoldable pub set_texts : Tree → Channel → Channel
  set_texts t c0 =
      let c1 = update_type c0 (get_text t (codes "type") (c0.kind)) in
      let c2 = update_method c1 (get_text t (codes "method") (c1.method)) in
      update_address c2 (get_text t (codes "address") (c2.address))

  unfoldable pub set_sizes : Tree → Channel → Channel
  set_sizes t c4 =
      let c5 = update_snd_buf_size c4 (get_int t (codes "sndBufSize") (c4.snd_buf_size)) in
      let c6 = update_rcv_buf_size c5 (get_int t (codes "rcvBufSize") (c5.rcv_buf_size)) in
      let c7 = update_snd_kernel_size c6 (get_int t (codes "sndKernelSize") (c6.snd_kernel_size)) in
      let c8 = update_rcv_kernel_size c7 (get_int t (codes "rcvKernelSize") (c7.rcv_kernel_size)) in
      update_rate_logging c8 (get_int t (codes "rateLogging") (c8.rate_logging))

  unfoldable pub configure : Tree → Channel → Outcome Channel
  configure t c = do
    let c3 = set_texts t c
    c4 ← update_transport c3 (get_text t (codes "transport") (transport_names c3.transport))
    ok (set_sizes t c4)

  -- The sockets of one node, and of all the nodes with the key "sockets".
  unfoldable pub read_sockets : Channel → List (Text × Tree) → Outcome (List Channel)
  read_sockets common [] = ok []
  read_sockets common ((_, q) ∷ qs) = do
    channel ← configure q (copy common)
    rest ← read_sockets common qs
    ok (copy channel ∷ rest)

  unfoldable pub all_sockets : Channel → List (Text × Tree) → Outcome (List Channel)
  all_sockets common [] = ok []
  all_sockets common ((key, p) ∷ ps) =
      let rest = all_sockets common ps in
      if text_eq key (codes "sockets")
      then (do here ← read_sockets common (children p); more ← rest; ok (here ++ more))
      else rest

  -- SocketParser: without a socket, one with the common settings.
  unfoldable pub socket_parser : Channel → Tree → Outcome (List Channel)
  socket_parser common t = do
    channels ← all_sockets common (children t)
    ok (elim channels [ [] ↦ copy common ∷ [] | c ∷ cs ↦ c ∷ cs ])

  -- One channel: its name and its subchannels.
  unfoldable pub read_channel : Tree → Outcome (Text × List Channel)
  read_channel q = do
    name ← require_text q (codes "name")
    common ← configure q new
    channels ← elim (positive (get_int q (codes "numSockets") (pos 0))) [
      | zero ↦ socket_parser common q
      | n ↦ ok (replicate n (copy common))
    ]
    ok (name, channels)

  unfoldable pub read_channels : List (Text × Tree) → ChannelMap → Outcome ChannelMap
  read_channels [] m = ok m
  read_channels ((_, q) ∷ qs) m = do
    (name, channels) ← read_channel q
    read_channels qs (insert_new name channels m)

  -- ChannelParser.
  unfoldable pub channel_parser : List (Text × Tree) → ChannelMap → Outcome ChannelMap
  channel_parser [] m = ok m
  channel_parser ((key, p) ∷ ps) m =
      let rest = channel_parser ps m in
      if text_eq key (codes "channels")
      then (do m' ← read_channels (children p) m; channel_parser ps m')
      else rest

  -- DeviceParser: the key of a device, which is its id without one; the channels of the wanted device;
  -- the devices of one node, and of all the nodes with the key "devices".
  abbrev pub device_key_of : Tree → Outcome Text
  device_key_of q = elim (get_text q (codes "key") []) [
    | [] ↦ require_text q (codes "id")
    | c ∷ cs ↦ ok (c ∷ cs)
  ]

  abbrev pub channels_if : Bool → Tree → ChannelMap → Outcome ChannelMap
  channels_if true q m = channel_parser (children q) m
  channels_if false q m = ok m

  unfoldable pub read_devices : Text → List (Text × Tree) → ChannelMap → Outcome ChannelMap
  read_devices device_id [] m = ok m
  read_devices device_id ((_, q) ∷ qs) m = do
    device_key ← device_key_of q
    m' ← channels_if (text_eq device_id device_key) q m
    read_devices device_id qs m'

  unfoldable pub device_parser : Text → List (Text × Tree) → ChannelMap → Outcome ChannelMap
  device_parser device_id [] m = ok m
  device_parser device_id ((key, p) ∷ ps) m =
      let rest = device_parser device_id ps m in
      if text_eq key (codes "devices")
      then (do m' ← read_devices device_id (children p) m; device_parser device_id ps m')
      else rest

  -- ptreeToMQMap, for a root that is one key.
  unfoldable pub ptree_to_mq_map : Tree → Text → Text → Outcome ChannelMap
  ptree_to_mq_map pt [] root = throws
  ptree_to_mq_map pt (c ∷ cs) root = do
    t ← or_throw (lookup root (children pt))
    device_parser (c ∷ cs) (children t) []
