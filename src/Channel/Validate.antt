-- ===== src/Channel/Validate.antt =====
-- FairMQChannel::ValidateChannel (fairmq/FairMQChannel.cxx), over the splitting of
-- boost/algorithm/string.
mod Tests
use bachelor_fair_mq.Base.{
  Bool-cases, inl, inr, sym, ap, ◌∙◌, contains, ℕ, ◌≡◌, ◌≢◌, ◌↔◌, refl, Bool, true, false, List, [],
  ◌∷◌, Text, codes, ℤ, is_negative, Outcome, ok, throws, exits, ◌>>=◌, or_exit, if◌then◌else◌,
  text_eq, text_eq_iff, one_of, Listed, one_of→Listed, Listed→one_of, ◌||◌, not, arith, All,
}
use bachelor_fair_mq.Base.Algorithm.{Algorithm}
use bachelor_fair_mq.Channel.{Channel, unspecified}
use bachelor_fair_mq.Channel.Endpoint.{check_endpoint, check_endpoints}
use bachelor_fair_mq.Channel.Accepts.{GoodEndpoint}
use bachelor_fair_mq.Channel.Decides.{check_endpoints_iff}

abbrev pub socket_types : List Text
socket_types =
    codes "sub"
    ∷ codes "pub"
    ∷ codes "pull"
    ∷ codes "push"
    ∷ codes "req"
    ∷ codes "rep"
    ∷ codes "xsub"
    ∷ codes "xpub"
    ∷ codes "dealer"
    ∷ codes "router"
    ∷ codes "pair"
    ∷ []

-- The checks of the sizes and of the logging interval: a negative one exits.
check_sizes : Channel → Outcome Bool
check_sizes c =
    if is_negative c.snd_buf_size
    then exits
    else if is_negative c.rcv_buf_size
    then exits
    else if is_negative c.snd_kernel_size
    then exits
    else if is_negative c.rcv_kernel_size
    then exits
    else if is_negative c.rate_logging
    then exits
    else ok true

module _ (alg : Algorithm) where
  -- The checks of a channel that is not known to be valid.
  pub check_channel : Channel → Outcome Bool
  unfolding check_sizes
  check_channel c =
      if not (one_of socket_types c.kind)
      then exits
      else if text_eq c.address unspecified || text_eq c.address []
      then ok false
      else (do
        good ← check_endpoints c.method (alg.split b';' c.address)
        if good then check_sizes c else ok false)

  -- The verdict, and the channel with its flag set where the verdict is good.
  unfoldable pub validate_channel : Channel → Outcome (Bool × Channel)
  validate_channel c =
      if c.is_valid
      then ok (true, c)
      else or_exit (do
        good ← check_channel c
        ok (if good then (true, record c { is_valid = true }) else (false, c)))

  -- What a valid configuration is.
  pub record Validates (c : Channel) : Type 0 where
    pub known : Listed socket_types c.kind
    pub specified : c.address ≢ unspecified
    pub nonempty : c.address ≢ []
    pub endpoints : All (GoodEndpoint c.method) (alg.split b';' c.address)
    pub snd_buf : is_negative c.snd_buf_size ≡ false
    pub rcv_buf : is_negative c.rcv_buf_size ≡ false
    pub snd_kernel : is_negative c.snd_kernel_size ≡ false
    pub rcv_kernel : is_negative c.rcv_kernel_size ≡ false
    pub rate : is_negative c.rate_logging ≡ false

  check_channel-Validates : (c : Channel) → check_channel c ≡ ok true → Validates c
  unfolding check_channel
  check_channel-Validates c h = record {
    known = one_of→Listed socket_types c.kind (ground arith);
    specified = λ e. ground (arith, text_eq_iff c.address unspecified);
    nonempty = λ e. ground (arith, text_eq_iff c.address []);
    endpoints = (check_endpoints_iff c.method (alg.split b';' c.address)).0 (ground arith);
    snd_buf = ground arith;
    rcv_buf = ground arith;
    snd_kernel = ground arith;
    rcv_kernel = ground arith;
    rate = ground arith;
  }

  Validates-check_channel : (c : Channel) → Validates c → check_channel c ≡ ok true
  unfolding check_channel
  Validates-check_channel c v = ground (
    arith,
    Listed→one_of socket_types c.kind v.known,
    text_eq_iff c.address unspecified,
    text_eq_iff c.address [],
    v.specified,
    v.nonempty,
    (check_endpoints_iff c.method (alg.split b';' c.address)).1 v.endpoints,
  )

  -- The flag is set only on a valid configuration.
  abbrev pub IsSound : Channel → Type 0
  IsSound c = c.is_valid ≡ true → Validates c

  -- A true verdict comes with the flag set, on a valid configuration.
  pub validate_channel-Validates :
      (c d : Channel)
      → IsSound c
      → validate_channel c ≡ ok (true, d)
      → Validates c × (d ≡ record c { is_valid = true })
  unfolding validate_channel
  validate_channel-Validates c d s h = elim (Bool-cases c.is_valid) [
    | inl v ↦ (s v, ground arith)
    | inr n ↦ (check_channel-Validates c (ground arith), ground arith)
  ]

  -- A valid configuration gets a true verdict.
  pub Validates-validate_channel :
      (c : Channel) → Validates c → validate_channel c ≡ ok (true, record c { is_valid = true })
  unfolding validate_channel
  Validates-validate_channel c v = ground (arith, Validates-check_channel c v)

  -- A false verdict leaves the channel as it is, and no exception escapes.
  pub validate_channel_refused :
      (c d : Channel) → validate_channel c ≡ ok (false, d) → (d ≡ c) × (c.is_valid ≡ false)
  unfolding validate_channel
  validate_channel_refused c d h = ground arith

  pub validate_channel-ne-throws : (c : Channel) → validate_channel c ≢ throws
  unfolding validate_channel
  validate_channel-ne-throws c h = ground arith

  -- The outcome for a check that does not pass.
  abbrev pub refusal : Channel → Outcome Bool → Outcome (Bool × Channel)
  refusal c (ok b) = ok (false, c)
  refusal c throws = exits
  refusal c exits = exits

  -- With one endpoint that is not accepted the outcome is that of the endpoint.
  pub validate_channel_one :
      (c : Channel) (e : Text) (r : Outcome Bool)
      → c.is_valid ≡ false
      → Listed socket_types c.kind
      → c.address ≡ e
      → (text_eq e unspecified || text_eq e []) ≡ false
      → contains b';' e ≡ false
      → check_endpoint c.method e ≡ r
      → r ≢ ok true
      → validate_channel c ≡ refusal c r
  unfolding validate_channel check_channel check_endpoints
  validate_channel_one c e r v k a u n p q = ground (
    arith,
    Listed→one_of socket_types c.kind k,
    ap (alg.split b';') a ∙ alg.split_none b';' e n,
    ap (λ t. text_eq t unspecified) a,
    ap (λ t. text_eq t []) a,
    q,
  )

  -- A channel that is marked valid is not looked at again.
  pub validate_channel_valid : (c : Channel) → c.is_valid ≡ true → validate_channel c ≡ ok (true, c)
  unfolding validate_channel
  validate_channel_valid c v = ground arith
