-- ===== src/Device/Init/Ends.antt =====
-- What FairMQDevice::InitWrapper has done when it ends (fairmq/FairMQDevice.cxx).
use mathlib.Core.List.{append_assoc, append-nil}
use bachelor_fair_mq.Base.{
  ℕ, zero, suc, ltb, List, [], ◌∷◌, ◌++◌, Text, none, some, Outcome, ok, throws, exits, ◌>>=◌,
  bind-returns, ok-injective, ◌≡◌, ◌⊎◌, inl, inr, refl, sym, ap, ◌∙◌, subst, if◌then◌else◌,
}
use bachelor_fair_mq.Base.Algorithm.{Algorithm}
use bachelor_fair_mq.Transports.{Transport}
use bachelor_fair_mq.Channel.{Channel}
use bachelor_fair_mq.Fsm.{Event, error_found, internal_device_ready}
use bachelor_fair_mq.Device.Init.{
  Meets, Pending, InitEnd, attempted, attach_channels, refresh, retry, report_ready, reported, left,
  first_attempts, init_channels, of_side, connecting, binding, neither,
}
use bachelor_fair_mq.Device.Init.Attaches.{Done, In, attach_channels-Done, refresh-Done}

-- ERROR_FOUND is among the events.
abbrev pub Reports : List Event → Type 0
Reports events = (l : List Event) × ((r : List Event) × (events ≡ l ++ error_found ∷ r))

Reports-append : (xs ys : List Event) → Reports xs → Reports (xs ++ ys)
Reports-append xs ys (l, (r, e)) =
    (l, (r ++ ys, ap (λ z. z ++ ys) e ∙ append_assoc l (error_found ∷ r) ys))

-- What an end of the retries says of a channel, and of the events before.
abbrev Keeps : (List Channel → Type 0) → List Event → InitEnd → Type 0
Keeps Q events none = Unit {0}
Keeps Q events (some throws) = Unit {0}
Keeps Q events (some exits) = Unit {0}
Keeps Q events (some (ok (cs, later))) = Q cs × ((more : List Event) × (later ≡ events ++ more))

Keeps-before :
    (Q : List Channel → Type 0) (events more : List Event) (o : InitEnd)
    → Keeps Q (events ++ more) o
    → Keeps Q events o
Keeps-before Q events more none k = tt
Keeps-before Q events more (some throws) k = tt
Keeps-before Q events more (some exits) k = tt
Keeps-before Q events more (some (ok (cs, later))) (d, (rest, e)) =
    (d, (more ++ rest, e ∙ append_assoc events more rest))

attempted-Keeps {ℓ} :
    {A : Type ℓ} (Q : List Channel → Type 0) (events : List Event) (o : Outcome A)
    (rest : A → InitEnd)
    → ((p : A) → o ≡ ok p → Keeps Q events (rest p))
    → Keeps Q events (attempted o rest)
attempted-Keeps Q events (ok p) rest f = f p refl
attempted-Keeps Q events throws rest f = tt
attempted-Keeps Q events exits rest f = tt

abbrev unbound_of : List ℕ × Pending → List ℕ
unbound_of (a, p) = a

abbrev pending_of : List ℕ × Pending → Pending
pending_of (a, p) = p

module _ (alg : Algorithm) (own : Transport) (get_ip : Text → Text) (meets : ℕ → ℕ → Meets) where
  looked :
      (config : Text → Text) (is : List ℕ) (cs cs1 : List Channel) (j : ℕ)
      → refresh alg own get_ip meets config is cs ≡ ok cs1
      → Done cs j ⊎ In j is
      → Done cs1 j ⊎ In j is
  looked config is cs cs1 j r (inl d) = refresh-Done alg own get_ip meets config is cs cs1 j r d
  looked config is cs cs1 j r (inr m) = inr m

  retry-Keeps :
      (config : ℕ → Text → Text) (max_attempts fuel attempts : ℕ) (is : List ℕ) (cs : List Channel)
      (events : List Event) (j : ℕ)
      → Done cs j ⊎ In j is
      → Keeps
          (λ ds. Done ds j)
          events
          (retry alg own get_ip meets config max_attempts fuel attempts (is, cs) events)
  unfolding retry
  retry-Keeps config max_attempts fuel attempts [] cs events j (inl d) =
      (d, ([], sym (append-nil events)))
  retry-Keeps config max_attempts fuel attempts [] cs events j (inr m) = absurd m
  retry-Keeps config max_attempts zero attempts (i ∷ is) cs events j x = tt
  retry-Keeps config max_attempts (suc fuel) attempts (i ∷ is) cs events j x =
      attempted-Keeps (λ ds. Done ds j) events
        (refresh alg own get_ip meets (config attempts) (i ∷ is) cs
          >>= attach_channels alg own get_ip meets (suc attempts) 0 (i ∷ is))
        _
        (λ p q.
          let (cs1, r, a) =
            bind-returns (attach_channels alg own get_ip meets (suc attempts) 0 (i ∷ is))
              (refresh alg own get_ip meets (config attempts) (i ∷ is) cs) q in
          Keeps-before (λ ds. Done ds j) events
            (if ltb max_attempts attempts then error_found ∷ [] else []) _
            (retry-Keeps config max_attempts fuel (suc attempts) (p.0) (p.1) _ j (
              attach_channels-Done alg own get_ip meets (suc attempts) 0 (i ∷ is) cs1 p j a
                (looked (config attempts) (i ∷ is) cs cs1 j r x))))

  retry-Extends :
      (config : ℕ → Text → Text) (max_attempts fuel attempts : ℕ) (is : List ℕ) (cs : List Channel)
      (events : List Event)
      → Keeps
          (λ ds. Unit {0})
          events
          (retry alg own get_ip meets config max_attempts fuel attempts (is, cs) events)
  unfolding retry
  retry-Extends config max_attempts fuel attempts [] cs events = (tt, ([], sym (append-nil events)))
  retry-Extends config max_attempts zero attempts (i ∷ is) cs events = tt
  retry-Extends config max_attempts (suc fuel) attempts (i ∷ is) cs events =
      attempted-Keeps (λ ds. Unit {0}) events
        (refresh alg own get_ip meets (config attempts) (i ∷ is) cs
          >>= attach_channels alg own get_ip meets (suc attempts) 0 (i ∷ is))
        _
        (λ p q.
          Keeps-before (λ ds. Unit {0}) events
            (if ltb max_attempts attempts then error_found ∷ [] else []) _
            (retry-Extends config max_attempts fuel (suc attempts) (p.0) (p.1) _))

  first_attempts-Done :
      (cs : List Channel) (unbound : List ℕ) (p : Pending) (j : ℕ)
      → first_attempts alg own get_ip meets cs ≡ ok (unbound, p)
      → (In j (of_side connecting 0 cs) → Done (p.1) j ⊎ In j (p.0))
        × (In j (of_side binding 0 cs) → (Done (p.1) j ⊎ In j (p.0)) ⊎ In j unbound)
  unfolding first_attempts
  first_attempts-Done cs unbound p j e =
      let (b, f, e1) =
        bind-returns _ (attach_channels alg own get_ip meets 0 0 (of_side binding 0 cs) cs) e in
      let (c, g, e2) =
        bind-returns _ (attach_channels alg own get_ip meets 1 0 (of_side connecting 0 cs) (b.1))
          e1 in
      let u : b.0 ≡ unbound = ap unbound_of (ok-injective e2) in
      let v : c ≡ p = ap pending_of (ok-injective e2) in
      let connects =
        attach_channels-Done alg own get_ip meets 1 0 (of_side connecting 0 cs) (b.1) c j g in
      (
        λ m. subst (λ q. Done (q.1) j ⊎ In j (q.0)) v (connects (inr m)),
        λ m.
            elim (attach_channels-Done alg own get_ip meets 0 0 (of_side binding 0 cs) cs b j f
              (inr m)) [
                | inl d ↦ inl (subst (λ q. Done (q.1) j ⊎ In j (q.0)) v (connects (inl d)))
                | inr k ↦ inr (subst (In j) u k)
              ],
      )

  -- What the end of InitWrapper says of a channel.
  abbrev Inits : List ℕ → ℕ → InitEnd → Type 0
  Inits binds j none = Unit {0}
  Inits binds j (some throws) = Unit {0}
  Inits binds j (some exits) = Unit {0}
  Inits binds j (some (ok (later, events))) = Done later j ⊎ (In j binds × Reports events)

  Keeps-report_ready :
      (binds : List ℕ) (j : ℕ) (events : List Event) (o : InitEnd)
      → Keeps (λ ds. Done ds j) events o
      → Inits binds j (report_ready o)
  Keeps-report_ready binds j events none k = tt
  Keeps-report_ready binds j events (some throws) k = tt
  Keeps-report_ready binds j events (some exits) k = tt
  Keeps-report_ready binds j events (some (ok (cs, later))) (d, k) = inl d

  -- Where a channel was left by the binding, the report is among the events.
  left-Reports : (j : ℕ) (is : List ℕ) (before : List Event) → In j is → Reports (before ++ left is)
  left-Reports j [] before m = absurd m
  left-Reports j (i ∷ is) before m = (before, ([], refl))

  reported-report_ready :
      (binds : List ℕ) (j : ℕ) (events : List Event) (o : InitEnd)
      → In j binds
      → Reports events
      → Keeps (λ ds. Unit {0}) events o
      → Inits binds j (report_ready o)
  reported-report_ready binds j events none m r k = tt
  reported-report_ready binds j events (some throws) m r k = tt
  reported-report_ready binds j events (some exits) m r k = tt
  reported-report_ready binds j events (some (ok (cs, later))) m r (u, (more, e)) = inr (
    m,
    subst Reports (sym (ap (λ z. z ++ internal_device_ready ∷ []) e))
        (Reports-append (events ++ more) _ (Reports-append events more r)),
  )

  attempted-Inits {ℓ} :
      {A : Type ℓ} (binds : List ℕ) (j : ℕ) (o : Outcome A) (rest : A → InitEnd)
      → ((p : A) → o ≡ ok p → Inits binds j (rest p))
      → Inits binds j (attempted o rest)
  attempted-Inits binds j (ok p) rest f = f p refl
  attempted-Inits binds j throws rest f = tt
  attempted-Inits binds j exits rest f = tt

  either : {A B C D : Type 0} (x : A ⊎ B) → (A → C) → (B → C ⊎ D) → C ⊎ (B × D)
  either (inl a) f g = inl (f a)
  either (inr b) f g = elim (g b) [ inl c ↦ inl c | inr d ↦ inr (b, d) ]

  init_channels-Inits :
      (config : ℕ → Text → Text) (timeout fuel : ℕ) (cs : List Channel) (j : ℕ)
      → In j (of_side connecting 0 cs) ⊎ In j (of_side binding 0 cs)
      → Inits (of_side binding 0 cs) j (init_channels alg own get_ip meets config timeout fuel cs)
  unfolding init_channels
  init_channels-Inits config timeout fuel cs j x =
      attempted-Inits (of_side binding 0 cs) j (first_attempts alg own get_ip meets cs) _ (λ p q.
        let (f, g) = first_attempts-Done cs (p.0) (p.1) j q in
        let d : (Done (p.1.1) j ⊎ In j (p.1.0)) ⊎ (In j (of_side binding 0 cs) × In j (p.0)) =
          either x f g in
        elim d [
          | inl k ↦ Keeps-report_ready _ j _ _ (retry-Keeps config _ fuel 1 (p.1.0) (p.1.1) _ j k)
          | inr (m, k) ↦
              reported-report_ready _ j _ _ m
                (left-Reports j (p.0) (reported (of_side neither 0 cs)) k)
                (retry-Extends config _ fuel 1 (p.1.0) (p.1.1) _)
        ])

  -- Where InitWrapper ends without an exception: a channel to connect, or to bind, is not marked
  -- modified and has a socket, or it is one to bind, and ERROR_FOUND was asked for.
  pub init_channels-Done :
      (config : ℕ → Text → Text) (timeout fuel : ℕ) (cs later : List Channel) (events : List Event)
      (j : ℕ)
      → In j (of_side connecting 0 cs) ⊎ In j (of_side binding 0 cs)
      → init_channels alg own get_ip meets config timeout fuel cs ≡ some (ok (later, events))
      → Done later j ⊎ (In j (of_side binding 0 cs) × Reports events)
  init_channels-Done config timeout fuel cs later events j x e =
      subst (Inits (of_side binding 0 cs) j) e (init_channels-Inits config timeout fuel cs j x)
