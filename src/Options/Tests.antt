-- ===== src/Options/Tests.antt =====
-- The parsers on trees of values.
use bachelor_fair_mq.Base.{
  ◌≡◌, refl, ap, List, [], ◌∷◌, Text, codes, Option, none, some, true, ok, throws, text_eq,
  if◌then◌else◌, pos, ℤ, lookup, All, ◌-◌, insert, insert_new,
}
use bachelor_fair_mq.Transports.{transport_types, transport_names}
use bachelor_fair_mq.Channel.{
  Channel, update_transport, new, copy, of_address, update_type, update_method, update_address,
  update_snd_buf_size, update_rcv_buf_size, update_snd_kernel_size, update_rcv_kernel_size,
  update_rate_logging,
}
use bachelor_fair_mq.Options.{PropertyTree}
use bachelor_fair_mq.Options.Parser.{
  ChannelMap, ptree_to_mq_map, device_parser, read_devices, channel_parser, read_channels,
  read_channel, configure, set_texts, set_sizes, socket_parser, all_sockets, read_sockets,
}
use bachelor_fair_mq.Options.Fresh.{AllReady}
use bachelor_fair_mq.Options.Maps.{ptree_to_mq_map-AllReady}
use bachelor_fair_mq.Options.SubOptions.{
  Found, option, unknown, name, address, num_sockets, device_tree, user_parser, read_tokens,
  read_options, read_option,
}
use bachelor_fair_mq.Options.Named.{names, user_parser-Named}

mutual
  data Values : Type 0 where
    leaves : Text → Forest → Values

  data Forest : Type 0 where
    bare_root : Forest
    grow : Text → Values → Forest → Forest

abbrev trees : Forest → List (Text × Values)
trees bare_root = []
trees (grow k t f) = (k, t) ∷ trees f

abbrev forest : List (Text × Values) → Forest
forest [] = bare_root
forest ((k, t) ∷ ts) = grow k t (forest ts)

trees-forest : (ts : List (Text × Values)) → trees (forest ts) ≡ ts
trees-forest [] = refl
trees-forest ((k, t) ∷ ts) = ap (λ us. (k, t) ∷ us) (trees-forest ts)

abbrev value_of : Values → Text
value_of (leaves v f) = v

abbrev children_of : Values → List (Text × Values)
children_of (leaves v f) = trees f

-- Numerals of one digit are enough for the runs.
abbrev digit_of : Text → Option ℤ
digit_of [] = none
digit_of (d ∷ []) = some (pos (d - 48))
digit_of (d ∷ e ∷ ds) = none

abbrev values : PropertyTree
values = record {
  Tree = Values;
  node = λ v ts. leaves v (forest ts);
  value = value_of;
  children = children_of;
  value-node = λ v ts. refl;
  children-node = λ v ts. trees-forest ts;
  to_int = digit_of;
}

-- The arguments "a", with two sockets, "b", with one address, and "c", without a name.
abbrev cut : Text → List Found
cut token =
    if text_eq token (codes "a")
    then option name (codes "a") ∷ option num_sockets (codes "2") ∷ []
    else if text_eq token (codes "b")
    then option address (codes "tcp://*:1") ∷ option name (codes "b") ∷ []
    else unknown ∷ []

abbrev tokens : List Text
tokens = codes "a" ∷ codes "b" ∷ []

-- The same options as a tree.
abbrev word : Text → Values
word v = leaves v bare_root

abbrev settings : List (Text × Values)
settings =
    (
      [],
      leaves []
          (forest ((codes "name", word (codes "a")) ∷ (codes "numSockets", word (codes "2")) ∷ [])),
    )
    ∷ (
      [],
      leaves [] (
          forest (
            (codes "name", word (codes "b"))
            ∷ (
              codes "sockets",
              leaves [] (
                  forest (
                    ([], leaves [] (forest ((codes "address", word (codes "tcp://*:1")) ∷ [])))
                    ∷ [])),
            )
            ∷ [])),
    )
    ∷ []

abbrev tree : Values
tree = device_tree values (codes "d") settings

abbrev at_address : Channel
at_address = record new { address = codes "tcp://*:1" }

abbrev channels : ChannelMap
channels = (codes "a", new ∷ new ∷ []) ∷ (codes "b", at_address ∷ []) ∷ []

arguments_are_parsed :
    user_parser values cut tokens (codes "d") (codes "fairMQOptions") ≡ ok channels
unfolding lookup text_eq ptree_to_mq_map device_parser read_devices channel_parser read_channels
    read_channel configure update_transport transport_types transport_names set_texts update_address
    update_method update_type new socket_parser all_sockets read_sockets insert_new copy of_address
    update_rate_logging update_rcv_buf_size update_rcv_kernel_size update_snd_buf_size
    update_snd_kernel_size set_sizes insert user_parser read_tokens read_options read_option
arguments_are_parsed = refl

tree_is_parsed : ptree_to_mq_map values tree (codes "d") (codes "fairMQOptions") ≡ ok channels
unfolding lookup text_eq ptree_to_mq_map device_parser read_devices channel_parser read_channels
    read_channel configure update_transport transport_types transport_names set_texts update_address
    update_method update_type new socket_parser all_sockets read_sockets insert_new copy of_address
    update_rate_logging update_rcv_buf_size update_rcv_kernel_size update_snd_buf_size
    update_snd_kernel_size set_sizes
tree_is_parsed = refl

ptree_to_mq_map-AllReady_example : AllReady channels
ptree_to_mq_map-AllReady_example =
    ptree_to_mq_map-AllReady values tree (codes "d") (codes "fairMQOptions") channels tree_is_parsed

user_parser-Named_example : All (λ token. names (cut token) ≡ true) tokens
user_parser-Named_example =
    user_parser-Named values cut tokens (codes "d") (codes "fairMQOptions") channels
      arguments_are_parsed

-- The third argument has no name, and the parser throws.
nameless_throws :
    user_parser values cut (codes "c" ∷ tokens) (codes "d") (codes "fairMQOptions") ≡ throws
unfolding lookup text_eq user_parser read_tokens read_options read_option ptree_to_mq_map
    device_parser read_devices channel_parser read_channels read_channel
nameless_throws = refl
