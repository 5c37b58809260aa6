-- ===== src/Channel/Sound.antt =====
-- The life of a channel: its constructors and setters, and ValidateChannel, in any order.
use bachelor_fair_mq.Base.{
  ℕ, ◌≡◌, refl, sym, subst, Bool, true, false, List, [], ◌∷◌, Text, ℤ, Outcome, ok, ◌>>=◌, arith,
  ok-injective, bind-returns, some, Option-cases,
}
use bachelor_fair_mq.Base.Algorithm.{Algorithm}
use bachelor_fair_mq.Transports.{Transport, transport_types}
use bachelor_fair_mq.Channel.{
  Channel, new, of_address, of_factory, copy, assign, update_type, update_method, update_address,
  update_transport, update_snd_buf_size, update_rcv_buf_size, update_snd_kernel_size,
  update_rcv_kernel_size, update_rate_logging, update_channel_name, set_modified, init_transport,
  reset_channel,
}
use bachelor_fair_mq.Channel.Validate.{
  validate_channel, Validates, IsSound, validate_channel-Validates, validate_channel_refused,
  Validates-validate_channel,
}

-- The constructors.
pub data Made : Channel → Type 0 where
  unconfigured : Made new
  configured : (kind method address : Text) → Made (of_address kind method address)
  attached :
      (name kind : Text) (factory : Transport) (socket : ℕ)
      → Made (of_factory name kind factory socket)
  copied : (c : Channel) → Made (copy c)

-- The calls that change a channel.
pub data Call : Type 0 where
  updates_type updates_method updates_address updates_transport updates_name : Text → Call
  updates_snd_buf_size updates_rcv_buf_size updates_snd_kernel_size updates_rcv_kernel_size :
      ℤ → Call
  updates_rate_logging : ℤ → Call
  sets_modified : Bool → Call
  inits_transport : Transport → Call
  assigns : Channel → Call
  resets validates : Call

module _ (alg : Algorithm) where
  -- The channel behind a call, where the call returns.
  unfoldable pub apply : Call → Channel → Outcome Channel
  apply (updates_type v) c = ok (update_type c v)
  apply (updates_method v) c = ok (update_method c v)
  apply (updates_address v) c = ok (update_address c v)
  apply (updates_transport v) c = update_transport c v
  apply (updates_name v) c = ok (update_channel_name c v)
  apply (updates_snd_buf_size v) c = ok (update_snd_buf_size c v)
  apply (updates_rcv_buf_size v) c = ok (update_rcv_buf_size c v)
  apply (updates_snd_kernel_size v) c = ok (update_snd_kernel_size c v)
  apply (updates_rcv_kernel_size v) c = ok (update_rcv_kernel_size c v)
  apply (updates_rate_logging v) c = ok (update_rate_logging c v)
  apply (sets_modified v) c = ok (set_modified c v)
  apply (inits_transport t) c = ok (init_transport c t)
  apply (assigns d) c = ok (assign c d)
  apply resets c = ok (reset_channel c)
  apply validates c = do r ← validate_channel alg c; ok r.1

  unfoldable pub run : List Call → Channel → Outcome Channel
  run [] c = ok c
  run (x ∷ xs) c = do d ← apply x c; run xs d

  Made-IsSound : {c : Channel} → Made c → IsSound alg c
  unfolding new of_address of_factory copy
  Made-IsSound unconfigured v = absurd (cc)
  Made-IsSound (configured k m a) v = absurd (cc)
  Made-IsSound (attached n k f s) v = absurd (cc)
  Made-IsSound (copied c) v = absurd (cc)

  -- The verdict depends on neither the flags nor the transport.
  Validates-flags :
      (c d : Channel)
      → Validates alg c
      → Validates alg (record c {
        socket = d.socket;
        is_valid = d.is_valid;
        modified = d.modified;
        reset = d.reset;
        transport = d.transport;
        factory = d.factory;
      })
  Validates-flags c d v = record {
    known = v.known;
    specified = v.specified;
    nonempty = v.nonempty;
    endpoints = v.endpoints;
    snd_buf = v.snd_buf;
    rcv_buf = v.rcv_buf;
    snd_kernel = v.snd_kernel;
    rcv_kernel = v.rcv_kernel;
    rate = v.rate;
  }

  validate_channel-IsSound :
      (c : Channel) (r : Bool × Channel)
      → IsSound alg c
      → validate_channel alg c ≡ ok r
      → IsSound alg r.1
  validate_channel-IsSound c (true, d) s h v =
      let (g, p) = validate_channel-Validates alg c d s h in
      subst (Validates alg) (sym p) (Validates-flags c (record c { is_valid = true }) g)
  validate_channel-IsSound c (false, d) s h v =
      let (p, n) = validate_channel_refused alg c d h in absurd (cc (p, n, v))

  update_transport-IsSound :
      (c d : Channel) (v : Text) → update_transport c v ≡ ok d → IsSound alg d
  unfolding update_transport
  update_transport-IsSound c d v h k = absurd (ground (arith, Option-cases (transport_types v)))

  apply-IsSound : (x : Call) (c d : Channel) → IsSound alg c → apply x c ≡ ok d → IsSound alg d
  unfolding apply update_type update_method update_address update_channel_name update_snd_buf_size
      update_rcv_buf_size update_snd_kernel_size update_rcv_kernel_size update_rate_logging
      set_modified init_transport assign reset_channel
  apply-IsSound (updates_transport v) c d s h = update_transport-IsSound c d v h
  apply-IsSound (sets_modified v) c d s h =
      subst (IsSound alg) (ok-injective h)
        (λ k. Validates-flags c (record c { modified = v }) (s k))
  apply-IsSound (inits_transport t) c d s h =
      subst (IsSound alg) (ok-injective h)
        (λ k. Validates-flags c (record c { transport = t; factory = some t }) (s k))
  apply-IsSound validates c d s h =
      let (r, e, p) = bind-returns (λ r. ok r.1) (validate_channel alg c) h in
      subst (IsSound alg) (ok-injective p) (validate_channel-IsSound c r s e)
  apply-IsSound _ c d s h = λ k. absurd (ground arith)

  run-IsSound : (xs : List Call) (c d : Channel) → IsSound alg c → run xs c ≡ ok d → IsSound alg d
  unfolding run
  run-IsSound [] c d s h = subst (IsSound alg) (ok-injective h) s
  run-IsSound (x ∷ xs) c d s h =
      let (c', e, k) = bind-returns (run xs) (apply x c) h in
      run-IsSound xs c' d (apply-IsSound x c c' s e) k

  -- After any calls on a channel from any constructor, a set validity flag says that the present
  -- configuration is valid.
  pub run-Validates :
      {c d : Channel} (xs : List Call)
      → Made c
      → run xs c ≡ ok d
      → d.is_valid ≡ true
      → Validates alg d
  run-Validates {c} {d} xs m h = run-IsSound xs c d (Made-IsSound m) h

  -- A copy of a valid channel is not marked valid, and passes the check again.
  pub validate-copy :
      (c : Channel)
      → IsSound alg c
      → c.is_valid ≡ true
      → ((copy c).is_valid ≡ false)
        × (validate_channel alg (copy c) ≡ ok (true, record (copy c) { is_valid = true }))
  unfolding copy
  validate-copy c s v =
      (refl, Validates-validate_channel alg (copy c) (Validates-flags c (copy c) (s v)))
