-- ===== src/Channel/Decides.antt =====
-- The loop of ValidateChannel over the endpoints (fairmq/FairMQChannel.cxx), and their form.
use bachelor_fair_mq.Base.{
  ◌≡◌, ◌≢◌, ◌↔◌, inl, inr, refl, sym, ap, ◌∙◌, true, false, List, [], ◌∷◌, Text, ok, starts_with,
  one_of, arith, text_eq, one_of→Listed, Listed→one_of, Bool-cases, All,
}
use bachelor_fair_mq.Channel.Accepts.{
  GoodEndpoint, marked, bare, GoodAddress-check, check-GoodAddress,
}
use bachelor_fair_mq.Channel.Endpoint.{
  socket_methods, is_modifier, check_address, check_endpoint, check_endpoints,
}

check_address_empty : check_address [] ≡ ok false
unfolding check_address starts_with text_eq
check_address_empty = refl

check_empty : (method : Text) → check_endpoint method [] ≢ ok true
unfolding check_endpoint
check_empty method h = ground (arith, check_address_empty)

-- An endpoint of an accepted form passes the check, and one that passes has an accepted form.
pub GoodEndpoint-check :
    (method e : Text) → GoodEndpoint method e → check_endpoint method e ≡ ok true
unfolding check_endpoint
GoodEndpoint-check method e (marked c a p m g) = rw (p, m) (GoodAddress-check a g)
GoodEndpoint-check method e (bare c a p m l g) =
    rw (p, m, Listed→one_of socket_methods method l)
      (ap check_address (sym p) ∙ GoodAddress-check e g)

pub check-GoodEndpoint :
    (method e : Text) → check_endpoint method e ≡ ok true → GoodEndpoint method e
unfolding check_endpoint
check-GoodEndpoint method [] h = absurd (check_empty method h)
check-GoodEndpoint method (c ∷ a) h = elim (Bool-cases (is_modifier c)) [
  | inl m ↦ marked c a refl m (check-GoodAddress a (rw m at h))
  | inr m ↦ elim (Bool-cases (one_of socket_methods method)) [
    | inl l ↦
        bare c a refl m (one_of→Listed socket_methods method l)
          (check-GoodAddress (c ∷ a) (rw (m, l) at h))
    | inr l ↦ absurd (ground arith)
  ]
]

-- The loop over the endpoints passes exactly if each endpoint has one of the accepted forms.
pub check_endpoints_iff :
    (method : Text) (es : List Text)
    → (check_endpoints method es ≡ ok true) ↔ All (GoodEndpoint method) es
unfolding check_endpoints
check_endpoints_iff method [] = (λ _. tt, λ _. refl)
check_endpoints_iff method (e ∷ es) = (
  λ h. (
    check-GoodEndpoint method e (ground arith),
    (check_endpoints_iff method es).0 (ground arith),
  ),
  λ g. rw (GoodEndpoint-check method e g.0) ((check_endpoints_iff method es).1 g.1),
)
