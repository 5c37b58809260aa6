-- ===== src/Device/Init.antt =====
-- FairMQDevice::InitWrapper and AttachChannels (fairmq/FairMQDevice.cxx), from the channels on. A
-- pointer into fChannels is the number of the channel. What a call of AttachChannel meets, the
-- configuration, and the addresses of the network are parameters; the retries run on fuel.
pub mod Attaches
pub mod Ends
mod Tests
use bachelor_fair_mq.Base.{
  ℕ, zero, suc, ◌+◌, ◌*◌, ◌/◌, ◌==◌, ltb, List, [], ◌∷◌, ◌++◌, map, Text, codes, text_eq, contains,
  insert, get_elem?, set_elem, Bool, true, false, ◌||◌, Option, none, some, Outcome, ok, throws,
  exits, ◌>>=◌, or_throw, if◌then◌else◌,
}
use bachelor_fair_mq.Base.Algorithm.{Algorithm}
use bachelor_fair_mq.Transports.{Transport}
use bachelor_fair_mq.Channel.{Channel, unspecified, update_address}
use bachelor_fair_mq.Channel.Name.{channel_name, get_channel_prefix, get_channel_index}
use bachelor_fair_mq.Channel.Validate.{validate_channel}
use bachelor_fair_mq.Device.Attach.{SocketCall, attach_channel}
use bachelor_fair_mq.Fsm.{Event, error_found, internal_device_ready}

-- What one call of AttachChannel meets: the answers of Bind, the random ports, and CreateSocket.
pub record Meets : Type 0 where
  pub bind : ℕ → ℕ → Text → Bool
  pub random_port : ℕ → ℕ → ℕ
  pub create_socket : Option ℕ

-- The configuration's channels are inserted, or replace those of the device.
unfoldable pub take_config :
    List (Text × List Channel) → List (Text × List Channel) → List (Text × List Channel)
take_config [] channels = channels
take_config ((k, cs) ∷ config) channels = take_config config (insert k cs channels)

-- The names of the subchannels of a channel, from an index on.
unfoldable pub with_names : Text → ℕ → List Channel → List Channel
with_names k i [] = []
with_names k i (c ∷ cs) = record c { name = channel_name k i } ∷ with_names k (suc i) cs

unfoldable pub all_named : List (Text × List Channel) → List Channel
all_named [] = []
all_named ((k, cs) ∷ m) = with_names k 0 cs ++ all_named m

-- Which list a channel is put into: to bind, to connect, or neither.
pub data Side : Type 0 where
  binding connecting neither : Side

abbrev pub side_of : Channel → Side
side_of c =
    if text_eq (c.method) (codes "bind")
    then binding
    else if text_eq (c.method) (codes "connect")
    then connecting
    else if contains b'@' (c.address) || (contains b'+' (c.address) || contains b'>' (c.address))
    then connecting
    else neither

-- An address that is not specified for a bind is that of the network interface.
abbrev pub with_address : Text → Channel → Channel
with_address ip c =
    if text_eq (c.method) (codes "bind")
    then if text_eq (c.address) unspecified || text_eq (c.address) []
      then record c { address = codes "tcp://" ++ ip ++ codes ":1" }
      else c
    else c

abbrev pub is_side : Side → Side → Bool
is_side binding binding = true
is_side connecting connecting = true
is_side neither neither = true
is_side _ _ = false

-- The numbers, from one on, of the channels of a side.
unfoldable pub of_side : Side → ℕ → List Channel → List ℕ
of_side side i [] = []
of_side side i (c ∷ cs) =
    let rest = of_side side (suc i) cs in if is_side side (side_of c) then i ∷ rest else rest

-- A channel that fits neither list is reported by ERROR_FOUND.
abbrev pub reported : List ℕ → List Event
reported is = map (λ i. error_found) is

-- One report where channels are left.
abbrev pub left : List ℕ → List Event
left [] = []
left (i ∷ is) = error_found ∷ []

abbrev pub Pending : Type 0
Pending = List ℕ × List Channel

-- What becomes of a channel that AttachChannel was called for. It returns always.
abbrev pub tried : Option (Bool × Channel × List SocketCall) → Channel → Bool × Channel
tried none c = (false, c)
tried (some (true, n, calls)) c = (true, record n { modified = false })
tried (some (false, n, calls)) c = (false, n)

abbrev pub kept : Bool → ℕ → Pending → Pending
kept true i (is, cs) = (is, cs)
kept false i (is, cs) = (i ∷ is, cs)

-- How InitWrapper ends, with the channels and the events asked for: none where the fuel is short.
abbrev pub InitEnd : Type 0
InitEnd = Option (Outcome (List Channel × List Event))

-- What follows an attempt that returns.
abbrev pub attempted {ℓ} : {A : Type ℓ} → Outcome A → (A → InitEnd) → InitEnd
attempted (ok p) rest = rest p
attempted throws rest = some throws
attempted exits rest = some exits

-- The end of InitWrapper, behind Init.
abbrev pub report_ready : InitEnd → InitEnd
report_ready none = none
report_ready (some (ok (cs, events))) = some (ok (cs, events ++ internal_device_ready ∷ []))
report_ready (some throws) = some throws
report_ready (some exits) = some exits

module _ (alg : Algorithm) (own : Transport) (get_ip : Text → Text) (meets : ℕ → ℕ → Meets) where
  -- ValidateChannel, and AttachChannel where the channel is valid.
  unfoldable pub try_channel : ℕ → ℕ → Channel → Outcome (Bool × Channel)
  try_channel a n c = do
    (valid, v) ← validate_channel alg c
    let m : Meets = meets a n
    if valid
        then ok
            (tried (attach_channel get_ip (m.bind) (m.random_port) alg own (m.create_socket) v) v)
        else ok (false, v)

  -- AttachChannels, the a-th call, from its n-th channel on: the numbers that are left, and the
  -- channels.
  unfoldable pub attach_channels : ℕ → ℕ → List ℕ → List Channel → Outcome Pending
  attach_channels a n [] cs = ok ([], cs)
  attach_channels a n (i ∷ is) cs = do
    c ← or_throw (get_elem? cs i)
    (done, d) ← try_channel a n c
    rest ← attach_channels a (suc n) is (set_elem i d cs)
    ok (kept done i rest)

  -- The address that the configuration has for a channel behind an attempt.
  abbrev pub address_key : Text → Text → Text
  address_key prefix index = codes "chans." ++ prefix ++ codes "." ++ index ++ codes ".address"

  abbrev pub new_address : Text → Channel → Channel
  new_address a c = if text_eq a (c.address) then c else update_address c a

  unfoldable pub refresh : (Text → Text) → List ℕ → List Channel → Outcome (List Channel)
  refresh config [] cs = ok cs
  refresh config (i ∷ is) cs = do
    c ← or_throw (get_elem? cs i)
    prefix ← get_channel_prefix (c.name)
    index ← get_channel_index (c.name)
    refresh config is (set_elem i (new_address (config (address_key prefix index)) c) cs)

  -- The retries: each looks into the configuration, and reports behind the last attempt allowed.
  unfoldable pub retry : (ℕ → Text → Text) → ℕ → ℕ → ℕ → Pending → List Event → InitEnd
  retry config max_attempts fuel attempts ([], cs) events = some (ok (cs, events))
  retry config max_attempts zero attempts (i ∷ is, cs) events = none
  retry config max_attempts (suc fuel) attempts (i ∷ is, cs) events =
      attempted
        (refresh (config attempts) (i ∷ is) cs >>= attach_channels (suc attempts) 0 (i ∷ is))
        (λ p.
          retry config max_attempts fuel (suc attempts) p
            (events ++ (if ltb max_attempts attempts then error_found ∷ [] else [])))

  -- The first call of AttachChannels for the binding and for the connecting channels.
  unfoldable pub first_attempts : List Channel → Outcome (List ℕ × Pending)
  first_attempts cs = do
    (unbound, cs1) ← attach_channels 0 0 (of_side binding 0 cs) cs
    (unconnected, cs2) ← attach_channels 1 0 (of_side connecting 0 cs) cs1
    ok (unbound, (unconnected, cs2))

  -- InitWrapper, from the named channels on.
  unfoldable pub init_channels : (ℕ → Text → Text) → ℕ → ℕ → List Channel → InitEnd
  init_channels config timeout fuel cs = attempted (first_attempts cs) (λ (unbound, p).
      report_ready (
        retry config (timeout * 1000 / 50) fuel 1 p
          (reported (of_side neither 0 cs) ++ left unbound)))

  unfoldable pub init_wrapper :
      Text
      → List (Text × List Channel)
      → List (Text × List Channel)
      → (ℕ → Text → Text)
      → ℕ
      → ℕ
      → InitEnd
  init_wrapper ip from_config channels config timeout fuel =
      init_channels config timeout fuel
        (map (with_address ip) (all_named (take_config from_config channels)))
