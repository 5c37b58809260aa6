-- ===== src/Fsm/Actions.antt =====
-- What the two halves of an action change.
use bachelor_fair_mq.Base.{
  Bool-cases, subst, sym, ok-injective, bind-returns, or_throw, ap, ◌>>=◌, ◌∷◌, refl, ◌≡◌, ◌≢◌, ◌⊎◌,
  ◌∙◌, Option, none, inl, inr, some, true, ok, if◌then◌else◌, arith,
}
use bachelor_fair_mq.Fsm.{State, error, Event, state_eq}
use bachelor_fair_mq.Fsm.Table.{Action, default_fct, exiting_fct, Row}
use bachelor_fair_mq.Fsm.Machine.{
  after_wait, settle, handled, Machine, begin_action, end_action, state_handlers, Handler,
}
use bachelor_fair_mq.Fsm.Rows.{Fits, needs_handler}

-- The state that fState is meant to show.
abbrev pub view : Machine → State
view m = if state_eq m.health error then error else m.control

-- The flags and the work fit one another.
abbrev pub HasWork : Machine → Type 0
HasWork m = m.work_available ≡ true → (h : Handler) × (m.work ≡ some h)

-- The first half publishes the target.
pub record Begun (r : Row) (m n : Machine) : Type 0 where
  pub published : n.published ≡ r.target
  pub control : n.control ≡ m.control
  pub health : n.health ≡ m.health
  pub active : n.work_active ≡ m.work_active
  pub available : n.work_available ≡ m.work_available
  pub work : n.work ≡ m.work

pub begin_action-Begun : (r : Row) (m : Machine) → Begun r m (begin_action r m)
unfolding begin_action
begin_action-Begun r m = ground arith

-- The second half moves the row's region, and leaves what is published.
pub record Ended (r : Row) (m n : Machine) : Type 0 where
  pub published : n.published ≡ m.published
  pub active : n.work_active ≡ m.work_active
  pub terminated : n.worker_terminated ≡ m.worker_terminated
  pub control : n.control ≡ (if state_eq r.source State.ok then m.control else r.target)
  pub health : n.health ≡ (if state_eq r.source State.ok then r.target else m.health)

-- What the rest of an action leaves alone.
record Kept (m n : Machine) : Type 0 where
  published : n.published ≡ m.published
  active : n.work_active ≡ m.work_active
  terminated : n.worker_terminated ≡ m.worker_terminated
  control : n.control ≡ m.control
  health : n.health ≡ m.health
  work : HasWork m → HasWork n

with_work : (m : Machine) (h : Handler) → Kept m (record m { work_available = true; work = some h })
with_work m h = record {
  published = refl;
  active = refl;
  terminated = refl;
  control = refl;
  health = refl;
  work = λ w k. (h, refl);
}

with_effect : (m : Machine) (h : Handler) → Kept m (record m { effects = handled h ∷ m.effects })
with_effect m h = record {
  published = refl;
  active = refl;
  terminated = refl;
  control = refl;
  health = refl;
  work = λ w. w;
}

unchanged : (m : Machine) → Kept m m
unchanged m = record {
  published = refl;
  active = refl;
  terminated = refl;
  control = refl;
  health = refl;
  work = λ w. w;
}

after_wait-Kept : (a : Action) (e : Event) (m n : Machine) → after_wait a e m ≡ ok n → Kept m n
unfolding after_wait
after_wait-Kept default_fct e m n p =
    let (h, q, r) = bind-returns _ (or_throw (state_handlers e)) p in
    subst (Kept m) (ok-injective r) (with_work m h)
after_wait-Kept exiting_fct e m n p =
    let (h, q, r) = bind-returns _ (or_throw (state_handlers e)) p in
    subst (Kept m) (ok-injective r) (with_effect m h)
after_wait-Kept _ e m n p = subst (Kept m) (ok-injective p) (unchanged m)

settle-Ended : (r : Row) (m n : Machine) → Kept m n → Ended r m (settle r n)
unfolding settle
settle-Ended r m n k = elim (Bool-cases (state_eq r.source State.ok)) [
  | inl e ↦ rw e (record {
    published = k.published;
    active = k.active;
    terminated = k.terminated;
    control = rw e k.control;
    health = rw e refl;
  })
  | inr e ↦ rw e (record {
    published = k.published;
    active = k.active;
    terminated = k.terminated;
    control = rw e refl;
    health = rw e k.health;
  })
]

settle-HasWork : (r : Row) (m : Machine) → HasWork m → HasWork (settle r m)
unfolding settle
settle-HasWork r m w = elim (Bool-cases (state_eq r.source State.ok)) [
  | inl e ↦ rw e w
  | inr e ↦ rw e w
]

pub end_action-Ended : (r : Row) (m n : Machine) → end_action r m ≡ ok n → Ended r m n
unfolding end_action
end_action-Ended r m n h =
    let (k, p, q) = bind-returns _ (after_wait r.action r.event m) h in
    subst (Ended r m) (ok-injective q) (settle-Ended r m k (after_wait-Kept r.action r.event m k p))

pub end_action-HasWork : (r : Row) (m n : Machine) → end_action r m ≡ ok n → HasWork m → HasWork n
unfolding end_action
end_action-HasWork r m n h w =
    let (k, p, q) = bind-returns _ (after_wait r.action r.event m) h in
    subst HasWork (ok-injective q)
      (settle-HasWork r k ((after_wait-Kept r.action r.event m k p).work w))

-- The rest of an action fails only for want of a handler.
after_wait_ok :
    (a : Action) (e : Event) (m : Machine)
    → (needs_handler a ≡ true → (h : Handler) × (state_handlers e ≡ some h))
    → (n : Machine) × (after_wait a e m ≡ ok n)
unfolding after_wait
after_wait_ok default_fct e m f =
    let (h, p) = f refl in
    (
      record m { work_available = true; work = some h },
      ap (λ o. or_throw o >>= λ k. ok (record m { work_available = true; work = some k })) p,
    )
after_wait_ok exiting_fct e m f =
    let (h, p) = f refl in
    (
      record m { effects = handled h ∷ m.effects },
      ap (λ o. or_throw o >>= λ k. ok (record m { effects = handled k ∷ m.effects })) p,
    )
after_wait_ok _ e m f = (m, refl)

-- A row that fits its state never lacks its handler.
pub end_action_ok :
    (s : State) (e : Event) (r : Row) (m : Machine)
    → Fits s e r
    → (n : Machine) × (end_action r m ≡ ok n)
unfolding end_action
end_action_ok s e r m f =
    let (n, p) = after_wait_ok r.action r.event m (λ y.
      subst (λ e'. (h : Handler) × (state_handlers e' ≡ some h)) (sym f.event_eq) (f.handled y)) in
    (settle r n, rw p refl)

-- The work behind an action: DefaultFct's is the handler of the event, the others leave it.
abbrev pub Works : Row → Machine → Machine → Type 0
Works r m n =
    ((r.action ≢ default_fct) × ((n.work_available ≡ m.work_available) × (n.work ≡ m.work)))
    ⊎ ((r.action ≡ default_fct) × (state_handlers r.event ≡ n.work))

after_wait-Works :
    (a : Action) (e : Event) (m n : Machine)
    → after_wait a e m ≡ ok n
    → ((a ≢ default_fct) × ((n.work_available ≡ m.work_available) × (n.work ≡ m.work)))
      ⊎ ((a ≡ default_fct) × (state_handlers e ≡ n.work))
unfolding after_wait
after_wait-Works default_fct e m n p =
    let (h, q, r) = bind-returns _ (or_throw (state_handlers e)) p in
    inr (refl, given (state_handlers e) h q ∙ ap (λ k. k.work) (ok-injective r))
  where
    given : (o : Option Handler) (h : Handler) → or_throw o ≡ ok h → o ≡ some h
    given none h q = absurd (cc)
    given (some k) h q = ap (λ x. some x) (ok-injective q)
after_wait-Works exiting_fct e m n p =
    let (h, q, r) = bind-returns _ (or_throw (state_handlers e)) p in
    inl (
      (λ k. cc),
      (ap (λ k. k.work_available) (sym (ok-injective r)), ap (λ k. k.work) (sym (ok-injective r))),
    )
after_wait-Works _ e m n p = inl (
  (λ k. cc),
  (ap (λ k. k.work_available) (sym (ok-injective p)), ap (λ k. k.work) (sym (ok-injective p))),
)

settle-work :
    (r : Row) (m : Machine)
    → ((settle r m).work_available ≡ m.work_available) × ((settle r m).work ≡ m.work)
unfolding settle
settle-work r m = elim (Bool-cases (state_eq r.source State.ok)) [
  | inl e ↦ rw e (refl, refl)
  | inr e ↦ rw e (refl, refl)
]

pub end_action-Works : (r : Row) (m n : Machine) → end_action r m ≡ ok n → Works r m n
unfolding end_action
end_action-Works r m n h =
    let (k, p, q) = bind-returns _ (after_wait r.action r.event m) h in
    let (a, w) = settle-work r k in
    subst (Works r m) (ok-injective q) (elim (after_wait-Works r.action r.event m k p) [
      | inl (d, (x, y)) ↦ inl (d, (a ∙ x, w ∙ y))
      | inr (d, x) ↦ inr (d, x ∙ sym w)
    ])
