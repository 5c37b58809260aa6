-- ===== src/Device/Attach/Plain.antt =====
-- Modifiers of endpoints in AttachChannel (fairmq/FairMQDevice.cxx): they are neither lost nor made up
-- on the way from an endpoint to the address it is attached to.
use native.Mathlib.Numerals.{add-one}
use bachelor_fair_mq.Base.{
  ℕ, zero, suc, [], ◌∷◌, ◌++◌, Text, codes, text_eq, starts_with, rfind, drop, decimal, contains,
  contains-decimal, Bool, true, false, ◌==◌, ◌||◌, ◌&&◌, not, Option, none, some, Bool-cases, ◌≡◌,
  refl, ap, sym, subst, ◌∙◌, ◌⊎◌, inl, inr, arith, Option-cases,
}
use bachelor_fair_mq.Device.BindEndpoint.{
  bind_endpoint, bind_endpoint-Bound, candidate, replace_port,
}
use bachelor_fair_mq.Device.Attach.{
  Plan, plan, resolve, with_host, host_part, port_part, write_back,
}

-- No modifier stands first.
abbrev pub plain_head : Text → Bool
plain_head [] = true
plain_head (c ∷ s) = not (c == b'+' || c == b'>') && not (c == b'@')

plan_plain :
    (b : Bool) (a : Text)
    → plain_head a ≡ true
    → plan b a ≡ record { modified = false; binds = b; address = a }
plan_plain b [] h = refl
plan_plain b (c ∷ s) h = ground arith

pub plan_unmodified :
    (b : Bool) (e : Text)
    → (plan b e).modified ≡ false
    → (plain_head e ≡ true) × (plan b e ≡ record { modified = false; binds = b; address = e })
plan_unmodified b [] h = (refl, refl)
plan_unmodified b (c ∷ s) h = (ground arith, ground arith)

-- What is written back says again whether to bind, and the address.
pub plan-write_back :
    (b : Bool) (e a : Text)
    → ((plan b e).modified ≡ true) ⊎ (plain_head a ≡ true)
    → plan b (write_back (plan b e) a)
      ≡ record { modified = (plan b e).modified; binds = (plan b e).binds; address = a }
plan-write_back b e a h = elim (Bool-cases ((plan b e).modified)) [
  | inl m ↦ elim (Bool-cases ((plan b e).binds)) [
    | inl d ↦ rw (write_back, m, d) refl
    | inr d ↦ rw (write_back, m, d) refl
  ]
  | inr m ↦
      rw (write_back, m)
        (plan_plain b a (plain m h)
          ∙ ap (λ d. record { modified = false; binds = d; address = a })
              (sym (ap (λ (p : Plan). p.binds) ((plan_unmodified b e m).1))))
]
  where
    plain :
        (plan b e).modified ≡ false
        → ((plan b e).modified ≡ true) ⊎ (plain_head a ≡ true)
        → plain_head a ≡ true
    plain m (inl t) = cc
    plain m (inr t) = t

decimal_plain : (n : ℕ) → plain_head (decimal n) ≡ true
unfolding contains
decimal_plain n =
    no_modifier (decimal n) (contains-decimal b'+' n (inl (omega arith)))
      (contains-decimal b'>' n (inr (omega arith))) (contains-decimal b'@' n (inr (omega arith)))
  where
    no_modifier :
        (s : Text)
        → contains b'+' s ≡ false
        → contains b'>' s ≡ false
        → contains b'@' s ≡ false
        → plain_head s ≡ true
    no_modifier [] f g h = refl
    no_modifier (c ∷ s) f g h = ground arith

replace_port_plain : (a : Text) (n : ℕ) → plain_head a ≡ true → plain_head (replace_port a n) ≡ true
unfolding replace_port rfind
replace_port_plain [] n h = decimal_plain n
replace_port_plain (c ∷ s) n h = elim (Option-cases (rfind b':' (c ∷ s))) [
  | inl e ↦ rw e (decimal_plain n)
  | inr (i, e) ↦ rw (e, add-one) h
]

pub candidate_plain :
    (ports : ℕ → ℕ) (a : Text) (n : ℕ)
    → plain_head a ≡ true
    → plain_head (candidate ports a n) ≡ true
candidate_plain ports a zero h = h
candidate_plain ports a (suc n) h =
    replace_port_plain (candidate ports a n) (ports (suc n)) (candidate_plain ports a n h)

bind_endpoint_plain :
    (bind : ℕ → Text → Bool) (ports : ℕ → ℕ) (a a' : Text) (good : Bool)
    → plain_head a ≡ true
    → bind_endpoint bind ports a ≡ some (good, a')
    → plain_head a' ≡ true
bind_endpoint_plain bind ports a a' good h e = elim (bind_endpoint-Bound bind ports a) [
  | inl (n, l, r, t, q) ↦
      subst (λ s. plain_head s ≡ true)
        (ap (λ (o : Option (Bool × Text)). elim o [ none ↦ a | some s ↦ s.1 ]) (sym q ∙ e))
        (candidate_plain ports a n h)
  | inr (r, q) ↦
      subst (λ s. plain_head s ≡ true)
        (ap (λ (o : Option (Bool × Text)). elim o [ none ↦ a | some s ↦ s.1 ]) (sym q ∙ e))
        (candidate_plain ports a 1000 h)
]

pub resolve_plain :
    (get_ip : Text → Text) (b : Bool) (a a' : Text)
    → plain_head a ≡ true
    → resolve get_ip b a ≡ some a'
    → plain_head a' ≡ true
unfolding resolve
resolve_plain get_ip b a a' h e = elim (Bool-cases (starts_with a (codes "tcp://"))) [
  | inr s ↦ same (rw s at e)
  | inl s ↦ elim (Bool-cases (b && text_eq (host_part (drop 6 a)) (codes "*"))) [
    | inl w ↦ same (rw (s, w) at e)
    | inr w ↦
        with_host_plain (get_ip (host_part (drop 6 a))) (port_part (drop 6 a)) a' (rw (s, w) at e)
  ]
]
  where
    same : some a ≡ some a' → plain_head a' ≡ true
    same e = let q : a ≡ a' = cc in subst (λ t. plain_head t ≡ true) q h

    with_host_plain : (host port a' : Text) → with_host host port ≡ some a' → plain_head a' ≡ true
    with_host_plain [] port a' e = cc
    with_host_plain (c ∷ host) port a' e =
        let here : codes "tcp://" ++ (c ∷ host) ++ b':' ∷ port ≡ a' = cc in
        subst (λ t. plain_head t ≡ true) here refl
