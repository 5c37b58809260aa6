-- ===== src/Device/Inputs.antt =====
-- The data callbacks of a device: OnData (fairmq/FairMQDevice.h), HandleMultipleChannelInput up to the
-- threads that it starts for several transports, and HandleMsgInput and HandleMultipartInput (fairmq/FairMQDevice.cxx).
pub mod Marks
pub mod Groups
pub mod Rounds
mod Tests
use bachelor_fair_mq.Base.{
  has, ℕ, zero, suc, ℤ, pos, negsuc, List, [], ◌∷◌, ◌++◌, map, Text, text_eq, Bool, true, false,
  if◌then◌else◌, Option, none, some, Outcome, ok, throws, exits, ◌>>=◌, or_throw, lookup, insert,
}
use bachelor_fair_mq.Channel.{Channel}
use bachelor_fair_mq.Transports.{Transport, default, zmq, nn, shm, ofi}

-- The keys of fMsgInputs and of fMultipartInputs, and fInputChannelKeys.
pub record Inputs : Type 0 where
  pub msg : List Text
  pub multipart : List Text
  pub keys : List Text

abbrev pub no_inputs : Inputs
no_inputs = record { msg = []; multipart = []; keys = [] }

unfoldable pub add_key : Text → List Text → List Text
add_key k ks = if has k ks then ks else ks ++ k ∷ []

-- OnData, with a callback for parts or for a message.
unfoldable pub on_data : Bool → Text → Inputs → Inputs
on_data true k i = record i { multipart = add_key k (i.multipart); keys = add_key k (i.keys) }
on_data false k i = record i { msg = add_key k (i.msg); keys = add_key k (i.keys) }

abbrev pub register : List (Bool × Text) → Inputs → Inputs
register [] i = i
register ((parts, k) ∷ rs) i = register rs (on_data parts k i)

-- A call of a handler, of a channel's subchannel.
pub record Call : Type 0 where
  pub parts : Bool
  pub channel : Text
  pub index : ℕ

-- fMultipart of all subchannels of these channels.
abbrev pub flag : Bool → Channel → Channel
flag b c = record c { multipart = b }

unfoldable pub mark :
    Bool → List Text → List (Text × List Channel) → Outcome (List (Text × List Channel))
mark b [] m = ok m
mark b (k ∷ ks) m = do cs ← or_throw (lookup k m); mark b ks (insert k (map (flag b) cs) m)

abbrev pub same_transport : Transport → Transport → Bool
same_transport default default = true
same_transport zmq zmq = true
same_transport nn nn = true
same_transport shm shm = true
same_transport ofi ofi = true
same_transport _ _ = false

-- fMultitransportInputs: the names of the channels of each transport.
unfoldable pub add_input :
    Transport → Text → List (Transport × List Text) → List (Transport × List Text)
add_input t k [] = (t, k ∷ []) ∷ []
add_input t k ((u, ks) ∷ gs) =
    let rest = add_input t k gs in
    if same_transport t u then (u, ks ++ k ∷ []) ∷ gs else (u, ks) ∷ rest

abbrev pub first {ℓ} : {A : Type ℓ} → List A → Option A
first [] = none
first (x ∷ xs) = some x

-- A channel's transport is that of its first subchannel: `at` throws where there is none.
unfoldable pub group_inputs :
    List Text
    → List (Text × List Channel)
    → List (Transport × List Text)
    → Outcome (List (Transport × List Text))
group_inputs [] channels gs = ok gs
group_inputs (k ∷ ks) channels gs = do
  cs ← or_throw (lookup k channels)
  c ← or_throw (first cs)
  group_inputs ks channels (add_input (c.transport) k gs)

-- What HandleMultipleChannelInput does: it polls by itself, and comes to an end with whether to
-- proceed and the calls it has made; or it hands the channels over to a thread of each transport
-- (HandleMultipleTransportInput).
pub data Handled : Type 0 where
  polled : Bool × List Call → Handled
  in_threads : List (Transport × List Text) → List (Text × List Channel) → Handled

-- `receive` is what Receive returns and `callback` what the callback does, by the calls before.
module _ (receive : List Call → Call → ℤ) (callback : List Call → Call → Bool) where
  -- HandleMsgInput and HandleMultipartInput.
  abbrev pub received : ℤ → Bool → Bool
  received (pos n) proceed = proceed
  received (negsuc n) proceed = false

  -- The callback is told the index of the subchannel for a message, and 0 for parts.
  abbrev pub told : Call → Call
  told c = record c { index = if c.parts then 0 else c.index }

  abbrev pub handle_input : List Call → Call → Bool
  handle_input h c = received (receive h c) (callback h (told c))

  -- Whether there is a callback of the kind, which `at` asks for.
  abbrev pub callback_for : Inputs → Call → Bool
  callback_for i c = if c.parts then has (c.channel) (i.multipart) else has (c.channel) (i.msg)

  -- The subchannels of a channel, of which CheckInput tells the ready ones: whether to proceed, and
  -- the calls.
  unfoldable pub serve_channel :
      Inputs → (Text → ℕ → Bool) → Text → List Channel → ℕ → List Call → Outcome (Bool × List Call)
  serve_channel ins check_input k [] i h = ok (true, h)
  serve_channel ins check_input k (c ∷ cs) i h =
      let call : Call = record { parts = c.multipart; channel = k; index = i } in
      let skipped = serve_channel ins check_input k cs (suc i) h in
      let served = serve_channel ins check_input k cs (suc i) (h ++ call ∷ []) in
      if check_input k i
      then if callback_for ins call
        then if handle_input h call then served else ok (false, h ++ call ∷ [])
        else throws
      else skipped

  -- What goes on only if the calls before say so.
  abbrev pub proceeding :
      (List Call → Outcome (Bool × List Call)) → Bool × List Call → Outcome (Bool × List Call)
  proceeding next (true, h) = next h
  proceeding next (false, h) = ok (false, h)

  module _ (ins : Inputs) (channels : List (Text × List Channel)) where
    unfoldable pub serve_channels :
        (Text → ℕ → Bool) → List Text → List Call → Outcome (Bool × List Call)
    serve_channels check_input [] h = ok (true, h)
    serve_channels check_input (k ∷ ks) h = do
      cs ← or_throw (lookup k channels)
      r ← serve_channel ins check_input k cs 0 h
      proceeding (serve_channels check_input ks) r

    -- The loop, by what CheckInput tells behind each Poll while the state is RUNNING.
    unfoldable pub serve_rounds : List (Text → ℕ → Bool) → List Call → Outcome (Bool × List Call)
    serve_rounds [] h = ok (true, h)
    serve_rounds (check_input ∷ rounds) h = do
      r ← serve_channels check_input (ins.keys) h
      proceeding (serve_rounds rounds) r

  -- Polling in the calling thread; the first channel's transport makes the poller.
  abbrev pub poll_inputs :
      Inputs → List (Text × List Channel) → List (Text → ℕ → Bool) → Outcome Handled
  poll_inputs ins channels rounds = do
    k ← or_throw (first (ins.keys))
    cs ← or_throw (lookup k channels)
    c ← or_throw (first cs)
    r ← serve_rounds ins channels rounds []
    ok (polled r)

  abbrev pub dispatch :
      List (Transport × List Text)
      → Inputs
      → List (Text × List Channel)
      → List (Text → ℕ → Bool)
      → Outcome Handled
  dispatch (g ∷ g' ∷ gs) ins channels rounds = ok (in_threads (g ∷ g' ∷ gs) channels)
  dispatch _ ins channels rounds = poll_inputs ins channels rounds

  unfoldable pub handle_multiple_channel_input :
      Inputs → List (Text × List Channel) → List (Text → ℕ → Bool) → Outcome Handled
  handle_multiple_channel_input ins channels rounds = do
    groups ← group_inputs (ins.keys) channels []
    marked ← mark false (ins.msg) channels
    marked' ← mark true (ins.multipart) marked
    dispatch groups ins marked' rounds
