-- ===== src/Device/Init/Attaches.antt =====
-- Which channels FairMQDevice::InitWrapper has attached when it ends (fairmq/FairMQDevice.cxx).
use bachelor_fair_mq.Base.{
  ℕ, suc, List, [], ◌∷◌, Text, get_elem?, set_elem, get_elem?-set_elem, get_elem?-set_elem_other,
  get_elem?-length, Bool, true, false, Option, none, some, ok, or_throw, bind-returns, ok-injective,
  ◌≡◌, ◌≢◌, ◌⊎◌, inl, inr, refl, sym, ◌∙◌, subst, Bool-cases, Option-cases, text_eq, if◌then◌else◌,
  arith,
}
use bachelor_fair_mq.Base.Algorithm.{Algorithm}
use bachelor_fair_mq.Transports.{Transport}
use bachelor_fair_mq.Channel.{Channel, init_transport, update_address}
use bachelor_fair_mq.Channel.Name.{get_channel_prefix, get_channel_index}
use bachelor_fair_mq.Channel.Validate.{validate_channel}
use bachelor_fair_mq.Device.Attach.{
  SocketCall, Attached, store_address, with_socket, chosen, finish, attach_channel,
}
use bachelor_fair_mq.Device.Init.{
  Meets, Pending, tried, try_channel, kept, attach_channels, refresh,
}

-- A channel that AttachChannels has attached: it is not marked modified, and has a socket.
abbrev pub IsAttached : Channel → Type 0
IsAttached c = (c.modified ≡ false) × ((s : ℕ) × (c.socket ≡ some s))

abbrev pub Done : List Channel → ℕ → Type 0
Done cs i = (c : Channel) × ((get_elem? cs i ≡ some c) × IsAttached c)

abbrev pub In : ℕ → List ℕ → Type 0
In j [] = ⊥
In j (i ∷ is) = (j ≡ i) ⊎ In j is

same_or : (i j : ℕ) → (j ≡ i) ⊎ (i ≢ j)
same_or i j = ground arith

-- A try that says so has attached.
abbrev Tries : Bool × Channel → Type 0
Tries (b, d) = b ≡ true → IsAttached d

-- A channel that AttachChannel says that it has attached has a socket.
abbrev HasSocket : Option (Bool × Channel × List SocketCall) → Type 0
HasSocket none = Unit {0}
HasSocket (some (true, n, calls)) = (s : ℕ) × (n.socket ≡ some s)
HasSocket (some (false, n, calls)) = Unit {0}

store_address-socket : (a : Text) (c : Channel) → (store_address a c).socket ≡ c.socket
unfolding update_address
store_address-socket a c = elim (Bool-cases (text_eq a (c.address))) [
  | inl q ↦ rw q refl
  | inr q ↦ rw q refl
]

finish-HasSocket :
    (get_ip : Text → Text) (bind : ℕ → ℕ → Text → Bool) (random_port : ℕ → ℕ → ℕ) (alg : Algorithm)
    (own : Transport) (create_socket : Option ℕ) (c : Channel) (s : ℕ) (o : Option Attached)
    → c.socket ≡ some s
    → HasSocket (finish get_ip bind random_port alg own create_socket c o)
finish-HasSocket get_ip bind random_port alg own create_socket c s none e = tt
finish-HasSocket get_ip bind random_port alg own create_socket c s (some r) e =
    elim (Bool-cases (r.success)) [
      | inl q ↦ rw q (s, store_address-socket _ c ∙ e)
      | inr q ↦ rw q tt
    ]

attach_channel-HasSocket :
    (get_ip : Text → Text) (bind : ℕ → ℕ → Text → Bool) (random_port : ℕ → ℕ → ℕ) (alg : Algorithm)
    (own : Transport) (create_socket : Option ℕ) (c : Channel)
    → HasSocket (attach_channel get_ip bind random_port alg own create_socket c)
unfolding attach_channel
attach_channel-HasSocket get_ip bind random_port alg own create_socket c =
    elim (Option-cases (with_socket create_socket (init_transport c (chosen own (c.transport))))) [
      | inl q ↦ rw (q, attach_channel) tt
      | inr (s, q) ↦
          rw (q, attach_channel)
            (finish-HasSocket get_ip bind random_port alg own create_socket _ s _ refl)
    ]

tried-Tries :
    (o : Option (Bool × Channel × List SocketCall)) (v : Channel) → HasSocket o → Tries (tried o v)
tried-Tries none v h b = cc
tried-Tries (some (true, n, calls)) v h b = (refl, h)
tried-Tries (some (false, n, calls)) v h b = cc

try_valid :
    (b : Bool) (o : Option (Bool × Channel × List SocketCall)) (v : Channel) (r : Bool × Channel)
    → HasSocket o
    → (if b then ok (tried o v) else ok (false, v)) ≡ ok r
    → Tries r
try_valid true o v r h e = subst Tries (ok-injective e) (tried-Tries o v h)
try_valid false o v r h e = subst Tries (ok-injective e) (λ b. cc)

-- One channel tried keeps the others.
others_kept :
    (i j : ℕ) (d : Channel) (is : List ℕ) (cs : List Channel)
    → i ≢ j
    → Done cs j ⊎ In j (i ∷ is)
    → Done (set_elem i d cs) j ⊎ In j is
others_kept i j d is cs n (inl (c, (e, a))) = inl (c, (get_elem?-set_elem_other i j d cs n ∙ e, a))
others_kept i j d is cs n (inr (inl q)) = absurd (n (sym q))
others_kept i j d is cs n (inr (inr m)) = inr m

one_more :
    (b : Bool) (d c : Channel) (i j : ℕ) (is : List ℕ) (cs : List Channel) (rest : Pending)
    → get_elem? cs i ≡ some c
    → Tries (b, d)
    → (Done (set_elem i d cs) j ⊎ In j is → Done (rest.1) j ⊎ In j (rest.0))
    → Done cs j ⊎ In j (i ∷ is)
    → Done ((kept b i rest).1) j ⊎ In j ((kept b i rest).0)
one_more true d c i j is cs rest g t ih x = elim (same_or i j) [
  | inl q ↦ ih (
      inl (
        subst (Done (set_elem i d cs)) (sym q)
          (d, (get_elem?-set_elem i d cs (get_elem?-length cs i c g), t refl))))
  | inr n ↦ ih (others_kept i j d is cs n x)
]
one_more false d c i j is cs rest g t ih x = elim (same_or i j) [
  | inl q ↦ inr (inl q)
  | inr n ↦ elim (ih (others_kept i j d is cs n x)) [ inl y ↦ inl y | inr m ↦ inr (inr m) ]
]

or_throw-ok : (o : Option Channel) (c : Channel) → or_throw o ≡ ok c → o ≡ some c
or_throw-ok none c e = cc
or_throw-ok (some d) c e = cc

module _ (alg : Algorithm) (own : Transport) (get_ip : Text → Text) (meets : ℕ → ℕ → Meets) where
  try_channel-Tries :
      (a n : ℕ) (c : Channel) (r : Bool × Channel)
      → try_channel alg own get_ip meets a n c ≡ ok r
      → Tries r
  unfolding try_channel
  try_channel-Tries a n c r e =
      let (x, f, g) = bind-returns _ (validate_channel alg c) e in
      try_valid (x.0) _ (x.1) r
        (attach_channel-HasSocket get_ip ((meets a n).bind) ((meets a n).random_port) alg own
          ((meets a n).create_socket) (x.1))
        g

  -- AttachChannels keeps what is attached or pending.
  pub attach_channels-Done :
      (a n : ℕ) (is : List ℕ) (cs : List Channel) (p : Pending) (j : ℕ)
      → attach_channels alg own get_ip meets a n is cs ≡ ok p
      → Done cs j ⊎ In j is
      → Done (p.1) j ⊎ In j (p.0)
  unfolding attach_channels
  attach_channels-Done a n [] cs p j e d = subst (λ q. Done (q.1) j ⊎ In j (q.0)) (ok-injective e) d
  attach_channels-Done a n (i ∷ is) cs p j e d =
      let (c, g, e1) = bind-returns _ (or_throw (get_elem? cs i)) e in
      let (r, t, e2) = bind-returns _ (try_channel alg own get_ip meets a n c) e1 in
      let (rest, u, e3) =
        bind-returns _ (attach_channels alg own get_ip meets a (suc n) is (set_elem i (r.1) cs))
          e2 in
      subst (λ q. Done (q.1) j ⊎ In j (q.0)) (ok-injective e3)
        (one_more (r.0) (r.1) c i j is cs rest (or_throw-ok (get_elem? cs i) c g)
          (try_channel-Tries a n c r t)
          (attach_channels-Done a (suc n) is (set_elem i (r.1) cs) rest j u) d)

  -- A look into the configuration keeps what is attached or pending.
  pub refresh-Done :
      (config : Text → Text) (is : List ℕ) (cs cs' : List Channel) (j : ℕ)
      → refresh alg own get_ip meets config is cs ≡ ok cs'
      → Done cs j
      → Done cs' j ⊎ In j is
  unfolding refresh
  refresh-Done config [] cs cs' j e d = inl (subst (λ q. Done q j) (ok-injective e) d)
  refresh-Done config (i ∷ is) cs cs' j e d =
      let (c, g, e1) = bind-returns _ (or_throw (get_elem? cs i)) e in
      let (prefix, h, e2) = bind-returns _ (get_channel_prefix (c.name)) e1 in
      let (index, k, e3) = bind-returns _ (get_channel_index (c.name)) e2 in
      elim (same_or i j) [
        | inl q ↦ inr (inl q)
        | inr n ↦ elim (others_kept i j _ [] cs n (inl d)) [
          | inl f ↦ elim (refresh-Done config is _ cs' j e3 f) [
            | inl y ↦ inl y
            | inr m ↦ inr (inr m)
          ]
          | inr m ↦ absurd m
        ]
      ]
