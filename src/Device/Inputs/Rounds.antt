-- ===== src/Device/Inputs/Rounds.antt =====
-- The order of the handler calls of HandleMultipleChannelInput (fairmq/FairMQDevice.cxx).
use bachelor_fair_mq.Base.{
  has, ℕ, suc, ℤ, List, [], ◌∷◌, ◌++◌, map, Text, Bool, true, false, if◌then◌else◌, none, some,
  Outcome, ok, lookup, All, All-weaken, All-both, ◌≡◌, ◌≢◌, refl, subst, sym, ap, ◌∙◌, inl, inr,
  Bool-cases,
}
use bachelor_fair_mq.Channel.{Channel}
use bachelor_fair_mq.Device.Inputs.{
  Inputs, Call, register, no_inputs, flag, mark, handle_input, serve_channel, proceeding, first,
  group_inputs, polled, poll_inputs, serve_channels, serve_rounds, handle_multiple_channel_input,
}
use bachelor_fair_mq.Transports.{Transport}
use bachelor_fair_mq.Device.Inputs.Groups.{IsOf, group_inputs_one, register_nonempty}
use bachelor_fair_mq.Device.Inputs.Marks.{
  IsChannel, mark_returns, mark-lookup, map-flag, register-AllNames, IsRegistered,
  register-AllRegistered,
}

-- The calls that the ready subchannels of a channel ask for, of the kind that the channel has.
abbrev pub asked : Bool → (Text → ℕ → Bool) → Text → List Channel → ℕ → List Call
asked b check_input k [] i = []
asked b check_input k (c ∷ cs) i =
    let rest = asked b check_input k cs (suc i) in
    if check_input k i then record { parts = b; channel = k; index = i } ∷ rest else rest

abbrev pub sockets : List (Text × List Channel) → Text → List Channel
sockets m k = elim (lookup k m) [ none ↦ [] | some cs ↦ cs ]

-- All the calls asked for in a round, channel by channel, and in all rounds. A channel with a callback
-- for parts gets that, else it gets the one for messages.
abbrev pub asked_in :
    Inputs → List (Text × List Channel) → (Text → ℕ → Bool) → List Text → List Call
asked_in ins m check_input [] = []
asked_in ins m check_input (k ∷ ks) =
    asked (has k (ins.multipart)) check_input k (sockets m k) 0 ++ asked_in ins m check_input ks

abbrev pub asked_by : Inputs → List (Text × List Channel) → List (Text → ℕ → Bool) → List Call
asked_by ins m [] = []
asked_by ins m (r ∷ rs) = asked_in ins m r (ins.keys) ++ asked_by ins m rs

module _ (receive : List Call → Call → ℤ) (callback : List Call → Call → Bool) where
  -- Handling calls one by one, up to the first that ends it.
  abbrev pub until_false : List Call → List Call → Bool × List Call
  until_false [] h = (true, h)
  until_false (c ∷ cs) h =
      let rest = until_false cs (h ++ c ∷ []) in
      if handle_input receive callback h c then rest else (false, h ++ c ∷ [])

  until_false-append :
      (cs ds : List Call) (h : List Call)
      → ok (until_false (cs ++ ds) h)
        ≡ proceeding receive callback (λ h'. ok (until_false ds h')) (until_false cs h)
  until_false-append [] ds h = refl
  until_false-append (c ∷ cs) ds h = elim (Bool-cases (handle_input receive callback h c)) [
    | inl e ↦ rw e (until_false-append cs ds (h ++ c ∷ []))
    | inr e ↦ rw e refl
  ]

  serve_channel-asked :
      (ins : Inputs) (b : Bool) (check_input : Text → ℕ → Bool) (k : Text) (cs : List Channel)
      (i : ℕ) (h : List Call)
      → (if b then has k (ins.multipart) else has k (ins.msg)) ≡ true
      → serve_channel receive callback ins check_input k (map (flag b) cs) i h
        ≡ ok (until_false (asked b check_input k cs i) h)
  unfolding serve_channel
  serve_channel-asked ins b check_input k [] i h e = refl
  serve_channel-asked ins b check_input k (c ∷ cs) i h e = elim (Bool-cases (check_input k i)) [
    | inr n ↦ rw n (serve_channel-asked ins b check_input k cs (suc i) h e)
    | inl r ↦
        let call : Call = record { parts = b; channel = k; index = i } in
        elim (Bool-cases (handle_input receive callback h call)) [
          | inl p ↦
              rw (r, e, p) (serve_channel-asked ins b check_input k cs (suc i) (h ++ call ∷ []) e)
          | inr p ↦ rw (r, e, p) refl
        ]
  ]

  proceeding_ext :
      (f g : List Call → Outcome (Bool × List Call)) (r : Bool × List Call)
      → ((h : List Call) → f h ≡ g h)
      → proceeding receive callback f r ≡ proceeding receive callback g r
  proceeding_ext f g (true, h) e = e h
  proceeding_ext f g (false, h) e = refl

  -- A piece of the work followed by the rest of it.
  in_turn :
      (cs ds : List Call) (next : List Call → Outcome (Bool × List Call)) (h : List Call)
      → ((h' : List Call) → next h' ≡ ok (until_false ds h'))
      → proceeding receive callback next (until_false cs h) ≡ ok (until_false (cs ++ ds) h)
  in_turn cs ds next h e =
      proceeding_ext next (λ h'. ok (until_false ds h')) (until_false cs h) e
      ∙ sym (until_false-append cs ds h)

  module _ (ins : Inputs) (m marked : List (Text × List Channel)) where
    -- What the marks have made of a channel.
    Flagged : Text → Type 0
    Flagged k = lookup k marked ≡ some (map (flag (has k (ins.multipart))) (sockets m k))

    registered_for :
        (k : Text)
        → IsRegistered ins k
        → (if has k (ins.multipart) then has k (ins.multipart) else has k (ins.msg)) ≡ true
    registered_for k r = elim (Bool-cases (has k (ins.multipart))) [
      | inl e ↦ rw e refl
      | inr e ↦ elim r [ inl f ↦ rw e f | inr f ↦ (let t : true ≡ false = sym f ∙ e in cc) ]
    ]

    serve_channels-asked :
        (check_input : Text → ℕ → Bool) (ks : List Text) (h : List Call)
        → All Flagged ks
        → All (IsRegistered ins) ks
        → serve_channels receive callback ins marked check_input ks h
          ≡ ok (until_false (asked_in ins m check_input ks) h)
    unfolding serve_channels Flagged
    serve_channels-asked check_input [] h f r = refl
    serve_channels-asked check_input (k ∷ ks) h (f, fs) (r, rs) =
        let b = has k (ins.multipart) in
        rw (f, serve_channel-asked ins b check_input k (sockets m k) 0 h (registered_for k r))
          (in_turn (asked b check_input k (sockets m k) 0) (asked_in ins m check_input ks)
            (serve_channels receive callback ins marked check_input ks) h
            (λ h'. serve_channels-asked check_input ks h' fs rs))

    serve_rounds-asked :
        (rounds : List (Text → ℕ → Bool)) (h : List Call)
        → All Flagged (ins.keys)
        → All (IsRegistered ins) (ins.keys)
        → serve_rounds receive callback ins marked rounds h
          ≡ ok (until_false (asked_by ins m rounds) h)
    unfolding serve_rounds
    serve_rounds-asked [] h f r = refl
    serve_rounds-asked (check_input ∷ rounds) h f r =
        rw (serve_channels-asked check_input (ins.keys) h f r) (
          in_turn (asked_in ins m check_input (ins.keys)) (asked_by ins m rounds)
            (serve_rounds receive callback ins marked rounds) h
            (λ h'. serve_rounds-asked rounds h' f r))

  marked-Flagged :
      (ins : Inputs) (m m1 m2 : List (Text × List Channel)) (k : Text)
      → IsChannel m k
      → IsRegistered ins k
      → mark false (ins.msg) m ≡ ok m1
      → mark true (ins.multipart) m1 ≡ ok m2
      → Flagged ins m m2 k
  unfolding Flagged
  marked-Flagged ins m m1 m2 k (cs, h) r e1 e2 =
      let first = mark-lookup false (ins.msg) m m1 k cs e1 h in
      let second = mark-lookup true (ins.multipart) m1 m2 k _ e2 first in
      elim (Bool-cases (has k (ins.multipart))) [
        | inl t ↦
            rw (sockets, h, t) (second ∙ rw t (ap (λ xs. some xs) (once (has k (ins.msg)) cs)))
        | inr t ↦ elim r [
          | inl f ↦ rw (sockets, h, t) (second ∙ rw (t, f) refl)
          | inr f ↦ (let t : true ≡ false = sym f ∙ t in cc)
        ]
      ]
    where
      once :
          (c : Bool) (cs : List Channel)
          → map (flag true) (if c then map (flag false) cs else cs) ≡ map (flag true) cs
      once true cs = map-flag true false cs
      once false cs = refl

  poll_inputs-asked :
      (ins : Inputs) (m m2 : List (Text × List Channel)) (k : Text) (ks : List Text) (t : Transport)
      (rounds : List (Text → ℕ → Bool))
      → ins.keys ≡ k ∷ ks
      → IsOf t m k
      → All (Flagged ins m m2) (ins.keys)
      → All (IsRegistered ins) (ins.keys)
      → poll_inputs receive callback ins m2 rounds
        ≡ ok (polled (until_false (asked_by ins m rounds) []))
  unfolding Flagged
  poll_inputs-asked ins m m2 k ks t rounds e (c, (cs, (h, q))) f r =
      let here : lookup k m2 ≡ some (map (flag (has k (ins.multipart))) (sockets m k)) =
        (subst (All (Flagged ins m m2)) e f).0 in
      let there : lookup k m2 ≡ some (map (flag (has k (ins.multipart))) (c ∷ cs)) =
        here
        ∙ ap (λ o. some (map (flag (has k (ins.multipart))) (elim o [ none ↦ [] | some xs ↦ xs ])))
            h in
      let front : first (ins.keys) ≡ some k = ap first e in
      rw (front, there, serve_rounds-asked ins m m2 rounds [] f r) refl

  -- HandleMultipleChannelInput returns, over any finite number of polls in RUNNING, where OnData was
  -- called at least once, and all names that it was given are of channels that have a subchannel, of
  -- one transport. It has polled by itself and called the handlers of the subchannels that CheckInput
  -- found ready, in the order of the polls, of the registrations and of the subchannels, with the
  -- callback for parts where the channel has one, up to the first that ended it.
  pub handle_multiple_channel_input-asked :
      (t : Transport) (r : Bool × Text) (rs : List (Bool × Text)) (m : List (Text × List Channel))
      (rounds : List (Text → ℕ → Bool))
      → All (λ r. IsOf t m (r.1)) (r ∷ rs)
      → handle_multiple_channel_input receive callback (register (r ∷ rs) no_inputs) m rounds
        ≡ ok (polled (until_false (asked_by (register (r ∷ rs) no_inputs) m rounds) []))
  unfolding handle_multiple_channel_input
  handle_multiple_channel_input-asked t r rs m rounds known =
      let ins = register (r ∷ rs) no_inputs in
      let (a, b, c) = register-AllNames (IsOf t m) (r ∷ rs) no_inputs known (tt, tt, tt) in
      let registered = register-AllRegistered (r ∷ rs) no_inputs tt in
      let (k, ks, e) = some_key (ins.keys) (register_nonempty r rs) in
      let (ys, g) = group_inputs_one t k ks m (subst (All (IsOf t m)) e c) in
      let g' : group_inputs (ins.keys) m [] ≡ ok ((t, ys) ∷ []) =
        ap (λ xs. group_inputs xs m []) e ∙ g in
      let (m1, e1) = mark_returns false (ins.msg) m (channels_of t m (ins.msg) a) in
      let (m2, e2) = mark_returns true (ins.multipart) m1 (
        All-weaken (IsChannel m) (IsChannel m1) (ins.multipart)
          (λ k p. (_, mark-lookup false (ins.msg) m m1 k (p.0) e1 (p.1)))
          (channels_of t m (ins.multipart) b)) in
      let flagged =
        All-weaken (λ k. IsChannel m k × IsRegistered ins k) (Flagged ins m m2) (ins.keys)
          (λ k p. marked-Flagged ins m m1 m2 k (p.0) (p.1) e1 e2)
          (All-both (IsChannel m) (IsRegistered ins) (ins.keys) (channels_of t m (ins.keys) c)
            registered) in
      rw (g', e1, e2)
        (poll_inputs-asked ins m m2 k ks t rounds e ((subst (All (IsOf t m)) e c).0) flagged
          registered)
    where
      some_key : (xs : List Text) → xs ≢ [] → (k : Text) × (ks : List Text) × (xs ≡ k ∷ ks)
      some_key [] n = absurd (n refl)
      some_key (x ∷ xs) n = (x, xs, refl)

      channels_of :
          (t : Transport) (m : List (Text × List Channel)) (xs : List Text)
          → All (IsOf t m) xs
          → All (IsChannel m) xs
      channels_of t m xs = All-weaken (IsOf t m) (IsChannel m) xs (λ k p. (_, p.1.1.0))
