-- ===== src/Options/SubOptions.antt =====
-- SUBOPT::UserParser (fairmq/options/FairMQSuboptParser.cxx): the option --channel-config, whose
-- arguments are cut by getsubopt, a parameter, into their sub-options.
use bachelor_fair_mq.Base.{List, [], ◌∷◌, ◌++◌, Text, codes, Outcome, ok, throws, ◌>>=◌, insert}
use bachelor_fair_mq.Options.{PropertyTree}
use bachelor_fair_mq.Options.Parser.{ChannelMap, ptree_to_mq_map}

-- channelOptionKeyIds.
pub data SubOption : Type 0 where
  name type method address transport snd_buf_size rcv_buf_size : SubOption
  snd_kernel_size rcv_kernel_size rate_logging num_sockets : SubOption

-- channelOptionKeys.
abbrev pub option_key : SubOption → Text
option_key name = codes "name"
option_key type = codes "type"
option_key method = codes "method"
option_key address = codes "address"
option_key transport = codes "transport"
option_key snd_buf_size = codes "sndBufSize"
option_key rcv_buf_size = codes "rcvBufSize"
option_key snd_kernel_size = codes "sndKernelSize"
option_key rcv_kernel_size = codes "rcvKernelSize"
option_key rate_logging = codes "rateLogging"
option_key num_sockets = codes "numSockets"

-- What a call of getsubopt finds: an option with a value or without, or something else.
pub data Found : Type 0 where
  option : SubOption → Text → Found
  bare : SubOption → Found
  unknown : Found

module _ (ptree : PropertyTree) where
  open ptree use {Tree, node}

  -- channelName, channelProperties and socketsArray.
  pub record Token : Type 0 where
    pub channel_name : Text
    pub properties : List (Text × Tree)
    pub sockets : List (Text × Tree)

  abbrev pub no_options : Token
  no_options = record { channel_name = []; properties = []; sockets = [] }

  abbrev pub leaf : Text → Tree
  leaf v = node v []

  -- A name or an address without a value reads through a null pointer: it stands as an exception.
  unfoldable pub read_option : Found → Token → Outcome Token
  read_option (option name v) t =
      ok (record t { channel_name = v; properties = insert (codes "name") (leaf v) t.properties })
  read_option (option address v) t =
      ok (record t { sockets = t.sockets ++ ([], node [] ((codes "address", leaf v) ∷ [])) ∷ [] })
  read_option (option o v) t =
      ok (record t { properties = insert (option_key o) (leaf v) t.properties })
  read_option (bare name) t = throws
  read_option (bare address) t = throws
  read_option (bare o) t = ok t
  read_option unknown t = ok t

  unfoldable pub read_options : List Found → Token → Outcome Token
  read_options [] t = ok t
  read_options (o ∷ os) t = do t' ← read_option o t; read_options os t'

  -- The properties of a channel; without a name, the sockets are left out.
  abbrev pub with_sockets : Text → Token → List (Text × Tree)
  with_sockets [] t = t.properties
  with_sockets (c ∷ cs) t = t.properties ++ (codes "sockets", node [] (t.sockets)) ∷ []

  abbrev pub channel_properties : Token → List (Text × Tree)
  channel_properties t = with_sockets (t.channel_name) t

  -- The tree of one device with these channels.
  abbrev pub device_tree : Text → List (Text × Tree) → Tree
  device_tree device_id channels =
      let device =
        node [] ((codes "id", leaf device_id) ∷ (codes "channels", node [] channels) ∷ []) in
      let devices = node [] (([], device) ∷ []) in
      node [] ((codes "fairMQOptions", node [] ((codes "devices", devices) ∷ [])) ∷ [])

  module _ (sub_options : Text → List Found) where
    unfoldable pub read_tokens : List Text → Outcome (List (Text × Tree))
    read_tokens [] = ok []
    read_tokens (token ∷ tokens) = do
      t ← read_options (sub_options token) no_options
      rest ← read_tokens tokens
      ok (([], node [] (channel_properties t)) ∷ rest)

    unfoldable pub user_parser : List Text → Text → Text → Outcome ChannelMap
    user_parser tokens device_id root = do
      channels ← read_tokens tokens
      ptree_to_mq_map ptree (device_tree device_id channels) device_id root
