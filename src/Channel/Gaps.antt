-- ===== src/Channel/Gaps.antt =====
-- ValidateChannel and the code around it (fairmq/FairMQChannel.cxx, FairMQDevice.cxx): short verbs
-- addresses, the separator of the endpoints, and Bind and Connect.
use bachelor_fair_mq.Base.{
  ℕ, ◌≡◌, ◌≢◌, refl, sym, ◌∙◌, true, false, [], ◌∷◌, ◌++◌, Text, codes, is_negative, ok, throws,
  exits, contains, Listed, text_eq, text_eq_iff, ◌||◌, arith,
}
use mathlib.Core.List.{append_assoc}
use bachelor_fair_mq.Base.Algorithm.{Algorithm}
use bachelor_fair_mq.Channel.{Channel, unspecified, bind, connect}
use bachelor_fair_mq.Channel.Endpoint.{check_endpoint, check_endpoints}
use bachelor_fair_mq.Channel.Accepts.{tcp, marked, check_verbs, check_verbs_empty}
use bachelor_fair_mq.Channel.Decides.{check_endpoints_iff}
use bachelor_fair_mq.Channel.Validate.{
  validate_channel, Validates, Validates-validate_channel, validate_channel_one,
  validate_channel_valid, socket_types,
}

abbrev pub verbs_prefix : Text
verbs_prefix = codes "@verbs://"

-- What is asked of the fields besides the address.
pub record Configured (c : Channel) : Type 0 where
  pub known : Listed socket_types c.kind
  pub snd_buf : is_negative c.snd_buf_size ≡ false
  pub rcv_buf : is_negative c.rcv_buf_size ≡ false
  pub snd_kernel : is_negative c.snd_kernel_size ≡ false
  pub rcv_kernel : is_negative c.rcv_kernel_size ≡ false
  pub rate : is_negative c.rate_logging ≡ false

verbs_bytes : (b : ℕ) → b ≢ b';' → contains b';' (verbs_prefix ++ b ∷ []) ≡ false
unfolding contains
verbs_bytes b n = ground arith

verbs_bytes_empty : contains b';' verbs_prefix ≡ false
unfolding contains
verbs_bytes_empty = refl

verbs_given :
    (s : Text) → (text_eq (verbs_prefix ++ s) unspecified || text_eq (verbs_prefix ++ s) []) ≡ false
unfolding text_eq
verbs_given s = refl

verbs_one : (method : Text) (b : ℕ) → check_endpoint method (verbs_prefix ++ b ∷ []) ≡ ok false
unfolding check_endpoint
verbs_one method b = check_verbs b []

verbs_none : (method : Text) → check_endpoint method verbs_prefix ≡ throws
unfolding check_endpoint
verbs_none method = check_verbs_empty

at_given : {s : Text} → (b'@' ∷ s) ≢ unspecified
unfolding text_eq
at_given {s} e = absurd (cc (text_eq_unspecified s, (text_eq_iff (b'@' ∷ s) unspecified).1 e))
  where
    text_eq_unspecified : (s : Text) → text_eq (b'@' ∷ s) unspecified ≡ false
    text_eq_unspecified s = refl

at_nonempty : {s : Text} → (b'@' ∷ s) ≢ []
at_nonempty e = cc

-- The address behind the modifier, with the comma's rest in the port.
tcp_rest :
    (host port rest : Text)
    → (codes "tcp://" ++ host ++ b':' ∷ port) ++ b',' ∷ rest
      ≡ codes "tcp://" ++ host ++ b':' ∷ (port ++ b',' ∷ rest)
tcp_rest host port rest = simp append_assoc

module _ (alg : Algorithm) where
  -- On a channel that is not marked valid, with the one address @verbs:// and a byte other than ;
  -- behind it, and with all other fields acceptable, the verdict is false; with the address @verbs://
  -- alone the program exits instead of giving a verdict.
  pub verbs_short :
      (c : Channel)
      → c.is_valid ≡ false
      → Configured c
      → ((b : ℕ)
          → b ≢ b';'
          → c.address ≡ verbs_prefix ++ b ∷ []
          → validate_channel alg c ≡ ok (false, c))
        × (c.address ≡ verbs_prefix → validate_channel alg c ≡ exits)
  verbs_short c v k = (
    λ b n a.
        validate_channel_one alg c (verbs_prefix ++ b ∷ []) (ok false) v k.known a
          (verbs_given (b ∷ [])) (verbs_bytes b n) (verbs_one c.method b) (λ e. cc),
    λ a.
        validate_channel_one alg c verbs_prefix throws v k.known a (verbs_given [])
          verbs_bytes_empty (verbs_none c.method) (λ e. cc),
  )

  -- An address with a comma is one endpoint for the check, which accepts it whatever stands behind the
  -- comma, while AttachChannel splits it there and takes the rest for endpoints of their own.
  pub comma_unchecked :
      (c : Channel) (host port rest : Text)
      → Configured c
      → c.address ≡ (codes "@tcp://" ++ host ++ b':' ∷ port) ++ b',' ∷ rest
      → contains b';' c.address ≡ false
      → contains b',' (codes "@tcp://" ++ host ++ b':' ∷ port) ≡ false
      → (validate_channel alg c ≡ ok (true, record c { is_valid = true }))
        × (alg.split b',' c.address
            ≡ (codes "@tcp://" ++ host ++ b':' ∷ port) ∷ alg.split b',' rest)
  comma_unchecked c host port rest k a n m = (
    Validates-validate_channel alg c (record {
      known = k.known;
      specified = λ e. at_given (sym a ∙ e);
      nonempty = λ e. at_nonempty (sym a ∙ e);
      endpoints =
          rw (alg.split_none b';' c.address n)
            (marked b'@' _ a refl (tcp host (port ++ b',' ∷ rest) (tcp_rest host port rest)), tt);
      snd_buf = k.snd_buf;
      rcv_buf = k.rcv_buf;
      snd_kernel = k.snd_kernel;
      rcv_kernel = k.rcv_kernel;
      rate = k.rate;
    }),
    rw a (alg.split_first b',' (codes "@tcp://" ++ host ++ b':' ∷ port) rest m),
  )

  -- Bind and Connect take any address into a channel that is marked valid, also one whose endpoints
  -- the check does not accept; the check then passes it without a look, although the configuration is
  -- not valid.
  pub bind_unchecked :
      (c : Channel) (a : Text)
      → c.is_valid ≡ true
      → ((m : Text) → check_endpoints m (alg.split b';' a) ≢ ok true)
      → ((validate_channel alg (bind c a) ≡ ok (true, bind c a)) × (¬ (Validates alg (bind c a))))
        × ((validate_channel alg (connect c a) ≡ ok (true, connect c a))
            × (¬ (Validates alg (connect c a))))
  unfolding bind connect
  bind_unchecked c a v bad = (
    (
      validate_channel_valid alg (bind c a) v,
      λ w. bad (codes "bind") ((check_endpoints_iff _ _).1 w.endpoints),
    ),
    (
      validate_channel_valid alg (connect c a) v,
      λ w. bad (codes "connect") ((check_endpoints_iff _ _).1 w.endpoints),
    ),
  )
