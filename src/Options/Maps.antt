-- ===== src/Options/Maps.antt =====
-- The map of channels that the parser fills (fairmq/options/FairMQParser.cxx).
use bachelor_fair_mq.Base.{
  List, [], ◌∷◌, Text, codes, Bool, true, false, text_eq, ok, or_throw, lookup, insert_new,
  All-append, ◌≡◌, subst, bind-returns, ok-injective, Bool-cases, inl, inr, Option-cases,
}
use bachelor_fair_mq.Channel.{Channel}
use bachelor_fair_mq.Options.{PropertyTree}
use bachelor_fair_mq.Options.Parser.{
  ChannelMap, read_channel, read_channels, channel_parser, read_devices, device_parser,
  ptree_to_mq_map, device_key_of, channels_if,
}
use bachelor_fair_mq.Options.Fresh.{IsReady, AllReady, read_channel-IsReady}

Ready : (Text × List Channel) → Type 0
Ready e = IsReady (e.1)

insert_new-AllReady :
    (name : Text) (cs : List Channel) (m : ChannelMap)
    → IsReady cs
    → AllReady m
    → AllReady (insert_new name cs m)
unfolding insert_new
insert_new-AllReady name cs m r rs = elim (Option-cases (lookup name m)) [
  | inl e ↦ rw (insert_new, e) (All-append (λ e. IsReady (e.1)) m ((name, cs) ∷ []) rs (r, tt))
  | inr (old, e) ↦ rw (insert_new, e) rs
]

module _ (ptree : PropertyTree) where
  open ptree use {Tree, children}

  read_channels-AllReady :
      (qs : List (Text × Tree)) (m m' : ChannelMap)
      → AllReady m
      → read_channels ptree qs m ≡ ok m'
      → AllReady m'
  unfolding read_channels
  read_channels-AllReady [] m m' r h = subst AllReady (ok-injective h) r
  read_channels-AllReady ((_, q) ∷ qs) m m' r h =
      let ((name, cs), e, k) = bind-returns _ (read_channel ptree q) h in
      read_channels-AllReady qs (insert_new name cs m) m'
        (insert_new-AllReady name cs m (read_channel-IsReady ptree q name cs e) r) k

  channel_parser-AllReady :
      (ps : List (Text × Tree)) (m m' : ChannelMap)
      → AllReady m
      → channel_parser ptree ps m ≡ ok m'
      → AllReady m'
  unfolding channel_parser
  channel_parser-AllReady [] m m' r h = subst AllReady (ok-injective h) r
  channel_parser-AllReady ((key, p) ∷ ps) m m' r h =
      elim (Bool-cases (text_eq key (codes "channels"))) [
        | inl e ↦
            let (m'', e', k) = bind-returns _ (read_channels ptree (children p) m) (rw e at h) in
            channel_parser-AllReady ps m'' m' (read_channels-AllReady (children p) m m'' r e') k
        | inr e ↦ channel_parser-AllReady ps m m' r (rw e at h)
      ]

  device-AllReady :
      (b : Bool) (q : Tree) (m m' : ChannelMap)
      → AllReady m
      → channels_if ptree b q m ≡ ok m'
      → AllReady m'
  device-AllReady true q m m' r h = channel_parser-AllReady (children q) m m' r h
  device-AllReady false q m m' r h = subst AllReady (ok-injective h) r

  read_devices-AllReady :
      (device_id : Text) (qs : List (Text × Tree)) (m m' : ChannelMap)
      → AllReady m
      → read_devices ptree device_id qs m ≡ ok m'
      → AllReady m'
  unfolding read_devices
  read_devices-AllReady device_id [] m m' r h = subst AllReady (ok-injective h) r
  read_devices-AllReady device_id ((_, q) ∷ qs) m m' r h =
      let (device_key, e, k) = bind-returns _ (device_key_of ptree q) h in
      let (m'', e', k') = bind-returns _ (channels_if ptree (text_eq device_id device_key) q m) k in
      read_devices-AllReady device_id qs m'' m'
        (device-AllReady (text_eq device_id device_key) q m m'' r e') k'

  device_parser-AllReady :
      (device_id : Text) (ps : List (Text × Tree)) (m m' : ChannelMap)
      → AllReady m
      → device_parser ptree device_id ps m ≡ ok m'
      → AllReady m'
  unfolding device_parser
  device_parser-AllReady device_id [] m m' r h = subst AllReady (ok-injective h) r
  device_parser-AllReady device_id ((key, p) ∷ ps) m m' r h =
      elim (Bool-cases (text_eq key (codes "devices"))) [
        | inl e ↦
            let (m'', e', k) =
              bind-returns _ (read_devices ptree device_id (children p) m) (rw e at h) in
            device_parser-AllReady device_id ps m'' m'
              (read_devices-AllReady device_id (children p) m m'' r e') k
        | inr e ↦ device_parser-AllReady device_id ps m m' r (rw e at h)
      ]

  -- Every channel of a map that the parser returns has at least one subchannel, so that the device
  -- may look at its first; and each subchannel has no socket and no factory, is not marked valid, and
  -- is marked modified.
  pub ptree_to_mq_map-AllReady :
      (pt : Tree) (device_id root : Text) (m : ChannelMap)
      → ptree_to_mq_map ptree pt device_id root ≡ ok m
      → AllReady m
  unfolding ptree_to_mq_map
  ptree_to_mq_map-AllReady pt [] root m h = cc
  ptree_to_mq_map-AllReady pt (c ∷ cs) root m h =
      let (t, e, k) = bind-returns _ (or_throw (lookup root (children pt))) h in
      device_parser-AllReady (c ∷ cs) (children t) [] m tt k
