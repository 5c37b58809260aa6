-- ===== src/Device/Inputs/Groups.antt =====
-- The channels of the callbacks, grouped by transport (fairmq/FairMQDevice.cxx).
use bachelor_fair_mq.Base.{
  has, List, [], ◌∷◌, ◌++◌, Text, Bool, true, false, some, ok, lookup, All, ◌≡◌, ◌≢◌, refl, inl,
  inr, Bool-cases,
}
use bachelor_fair_mq.Channel.{Channel}
use bachelor_fair_mq.Transports.{Transport, default, zmq, nn, shm, ofi}
use bachelor_fair_mq.Device.Inputs.{
  Inputs, add_key, on_data, register, no_inputs, same_transport, add_input, group_inputs,
}

-- The channel is in the map, has a subchannel, and the first one has the transport.
abbrev pub IsOf : Transport → List (Text × List Channel) → Text → Type 0
IsOf t m k =
    (c : Channel) × ((cs : List Channel) × ((lookup k m ≡ some (c ∷ cs)) × (c.transport ≡ t)))

same_transport_refl : (t : Transport) → same_transport t t ≡ true
same_transport_refl default = refl
same_transport_refl zmq = refl
same_transport_refl nn = refl
same_transport_refl shm = refl
same_transport_refl ofi = refl

more_of_one :
    (t : Transport) (ks xs : List Text) (m : List (Text × List Channel))
    → All (IsOf t m) ks
    → (ys : List Text) × (group_inputs ks m ((t, xs) ∷ []) ≡ ok ((t, ys) ∷ []))
unfolding group_inputs add_input
more_of_one t [] xs m a = (xs, refl)
more_of_one t (k ∷ ks) xs m ((c, (cs, (h, e))), a) =
    rw (h, e, same_transport_refl t) (more_of_one t ks (xs ++ k ∷ []) m a)

-- Channels of one transport make one group.
pub group_inputs_one :
    (t : Transport) (k : Text) (ks : List Text) (m : List (Text × List Channel))
    → All (IsOf t m) (k ∷ ks)
    → (ys : List Text) × (group_inputs (k ∷ ks) m [] ≡ ok ((t, ys) ∷ []))
unfolding group_inputs add_input
group_inputs_one t k ks m ((c, (cs, (h, e))), a) = rw (h, e) (more_of_one t ks (k ∷ []) m a)

add_key_nonempty : (k : Text) (ks : List Text) → add_key k ks ≢ []
unfolding add_key has
add_key_nonempty k [] e = cc
add_key_nonempty k (j ∷ js) e = elim (Bool-cases (has k (j ∷ js))) [
  | inl h ↦ (let f : j ∷ js ≡ [] = rw h at e in cc)
  | inr h ↦ (let f : j ∷ (js ++ k ∷ []) ≡ [] = rw h at e in cc)
]

register_keeps : (rs : List (Bool × Text)) (i : Inputs) → i.keys ≢ [] → (register rs i).keys ≢ []
unfolding on_data
register_keeps [] i n = n
register_keeps ((true, k) ∷ rs) i n =
    register_keeps rs (on_data true k i) (add_key_nonempty k (i.keys))
register_keeps ((false, k) ∷ rs) i n =
    register_keeps rs (on_data false k i) (add_key_nonempty k (i.keys))

-- A registration leaves a key.
pub register_nonempty :
    (r : Bool × Text) (rs : List (Bool × Text)) → (register (r ∷ rs) no_inputs).keys ≢ []
unfolding on_data
register_nonempty (true, k) rs =
    register_keeps rs (on_data true k no_inputs) (add_key_nonempty k [])
register_nonempty (false, k) rs =
    register_keeps rs (on_data false k no_inputs) (add_key_nonempty k [])
