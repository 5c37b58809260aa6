-- ===== src/Device/Attach/Meaning.antt =====
-- What AttachChannel attaches, and what the address that it writes back says
-- (fairmq/FairMQDevice.cxx).
use bachelor_fair_mq.Base.{
  ℕ, suc, List, [], ◌∷◌, ◌++◌, map, Text, codes, text_eq, eq_of_text_eq, Bool, true, false, Option,
  some, Bool-cases, ◌≡◌, refl, ap, sym, subst, ◌⊎◌, inl, inr, Option-cases,
}
use bachelor_fair_mq.Base.Algorithm.{Algorithm}
use bachelor_fair_mq.Transports.{Transport}
use bachelor_fair_mq.Channel.{Channel, init_transport, update_address}
use bachelor_fair_mq.Device.BindEndpoint.{bind_endpoint-Bound}
use bachelor_fair_mq.Device.Attach.{
  Plan, plan, resolve, SocketCall, linked, socket_options, Attached, attach_endpoint, next_endpoint,
  joined, attach_endpoints, chosen, store_address, with_socket, finish, attach_channel,
}
use bachelor_fair_mq.Device.Attach.Plain.{
  plain_head, plan_unmodified, plan-write_back, candidate_plain, resolve_plain,
}

-- The calls that attach the endpoints of an address, each with the socket's options before it.
abbrev pub calls_for : List SocketCall → Bool → List Text → List SocketCall
calls_for options b [] = []
calls_for options b (e ∷ es) =
    options ++ linked ((plan b e).binds) ((plan b e).address) ∷ calls_for options b es

-- Which of the endpoints are bound.
abbrev pub bindings : Bool → List Text → List Bool
bindings b es = map (λ e. (plan b e).binds) es

-- All endpoints attached, or the loop left.
AttachedAll : List SocketCall → Bool → List Text → Option Attached → Type 0
AttachedAll options b es o =
    (r : Attached) × (o ≡ some r)
    × ((r.success ≡ false)
        ⊎ ((r.success ≡ true)
            × (r.calls ≡ calls_for options b (r.endpoints))
            × (bindings b (r.endpoints) ≡ bindings b es)))

store_address-address : (a : Text) (c : Channel) → (store_address a c).address ≡ a
unfolding update_address
store_address-address a c = elim (Bool-cases (text_eq a (c.address))) [
  | inl e ↦ rw (store_address, e) (sym (eq_of_text_eq a (c.address) e))
  | inr e ↦ rw (store_address, e) refl
]

store_address-factory : (a : Text) (c : Channel) → (store_address a c).factory ≡ c.factory
unfolding update_address
store_address-factory a c = elim (Bool-cases (text_eq a (c.address))) [
  | inl e ↦ rw (store_address, e) refl
  | inr e ↦ rw (store_address, e) refl
]

module _ (get_ip : Text → Text) (bind : ℕ → ℕ → Text → Bool) (random_port : ℕ → ℕ → ℕ) where
  attach_endpoint_returns :
      (n : ℕ) (b : Bool) (a : Text)
      → (good : Bool) × (a' : Text) × (attach_endpoint get_ip bind random_port n b a
          ≡ some (good, a'))
        × (plain_head a ≡ true → plain_head a' ≡ true)
  attach_endpoint_returns n false a = (true, a, refl, λ h. h)
  attach_endpoint_returns n true a = elim (bind_endpoint-Bound (bind n) (random_port n) a) [
    | inl (k, l, r, t, q) ↦ (true, _, q, λ h. candidate_plain (random_port n) a k h)
    | inr (r, q) ↦ (false, _, q, λ h. candidate_plain (random_port n) a 1000 h)
  ]

  next_endpoint-AttachedAll :
      (options : List SocketCall) (b : Bool) (e : Text) (es : List Text) (good : Bool) (a : Text)
      (rest : Option Attached)
      → ((plan b e).modified ≡ true) ⊎ (plain_head a ≡ true)
      → AttachedAll options b es rest
      → AttachedAll options b
          (e ∷ es)
          (next_endpoint get_ip bind random_port (plan b e) options es rest (some (good, a)))
  unfolding AttachedAll
  next_endpoint-AttachedAll options b e es false a rest h (r, q, t) = (_, refl, inl refl)
  next_endpoint-AttachedAll options b e es true a rest h (r, q, inl f) =
      (joined (plan b e) options a r, rw q refl, inl f)
  next_endpoint-AttachedAll options b e es true a rest h (r, q, inr (t, c, m)) =
      let wb = plan-write_back b e a h in
      (
        joined (plan b e) options a r,
        rw q refl,
        inr (t, rw (wb, c) refl, rw wb (ap (λ bs. (plan b e).binds ∷ bs) m)),
      )

  attach_endpoints-AttachedAll :
      (options : List SocketCall) (n : ℕ) (b : Bool) (es : List Text)
      → AttachedAll options b es (attach_endpoints get_ip bind random_port options n b es)
  unfolding AttachedAll attach_endpoints
  attach_endpoints-AttachedAll options n b [] = (_, refl, inr (refl, refl, refl))
  attach_endpoints-AttachedAll options n b (e ∷ es) =
      elim (Option-cases (resolve get_ip ((plan b e).binds) ((plan b e).address))) [
        | inl f ↦ rw (attach_endpoints, f) (_, refl, inl refl)
        | inr (a, f) ↦
            let (good, a', g, h) = attach_endpoint_returns n ((plan b e).binds) a in
            rw (attach_endpoints, f, g)
              (next_endpoint-AttachedAll options b e es good a' _ (plain a a' f h)
                (attach_endpoints-AttachedAll options (suc n) b es))
      ]
    where
      plain :
          (a a' : Text)
          → resolve get_ip ((plan b e).binds) ((plan b e).address) ≡ some a
          → (plain_head a ≡ true → plain_head a' ≡ true)
          → ((plan b e).modified ≡ true) ⊎ (plain_head a' ≡ true)
      plain a a' f h = elim (Bool-cases ((plan b e).modified)) [
        | inl m ↦ inl m
        | inr m ↦
            let (head, p) = plan_unmodified b e m in
            inr (
              h (
                resolve_plain get_ip ((plan b e).binds) ((plan b e).address) a
                  (subst (λ (q : Plan). plain_head (q.address) ≡ true) (sym p) head) f))
      ]

  module _ (alg : Algorithm) (own : Transport) (create_socket : Option ℕ) where
    -- AttachChannel returns: false, or true where it has attached, in order and each behind the options
    -- of the socket, the addresses in the channel's new address, bound or connected as that says, which
    -- is as the address of before said; the channel then holds the factory of its transport.
    pub attach_channel-Attached :
        (c : Channel)
        → ((c' : Channel) × (calls : List SocketCall) × (attach_channel get_ip bind random_port alg
                own create_socket c
              ≡ some (false, c', calls)))
          ⊎ ((c' : Channel) × (new : List Text) × (attach_channel get_ip bind random_port alg own
                  create_socket c
                ≡ some (
                  true,
                  c',
                  calls_for (socket_options c) (text_eq (c.method) (codes "bind")) new,
                ))
              × (c'.address ≡ alg.join b',' new)
              × (bindings (text_eq (c.method) (codes "bind")) new
                  ≡ bindings (text_eq (c.method) (codes "bind")) (alg.split b',' c.address))
              × (c'.factory ≡ some (chosen own (c.transport))))
    unfolding attach_channel AttachedAll init_transport
    attach_channel-Attached c =
        let b = text_eq (c.method) (codes "bind") in
        let c1 = init_transport c (chosen own (c.transport)) in
        elim (Option-cases (with_socket create_socket c1)) [
          | inl e ↦ inl (c1, [], rw (attach_channel, e) refl)
          | inr (s, e) ↦
              let (r, q, t) =
                attach_endpoints-AttachedAll (socket_options c) 0 b (alg.split b',' c.address) in
              elim t [
                | inl f ↦ inl (
                  record c1 { socket = some s },
                  r.calls,
                  rw (attach_channel, e, q, finish, f) refl,
                )
                | inr (u, k, m) ↦ inr (
                  store_address (alg.join b',' r.endpoints) (record c1 { socket = some s }),
                  r.endpoints,
                  rw (attach_channel, e, q, finish, u, k) refl,
                  store_address-address (alg.join b',' r.endpoints) (record c1 { socket = some s }),
                  m,
                  store_address-factory (alg.join b',' r.endpoints) (record c1 { socket = some s }),
                )
              ]
        ]
