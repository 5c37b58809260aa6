-- ===== src/Fsm/Rows.antt =====
-- What the rows of the transition table have in common, and which of them an event can fire.
use mathlib.Core.Path.{ap₂}
use bachelor_fair_mq.Base.{
  ◌≡◌, refl, sym, ◌∙◌, subst, Option-cases, [], ◌∷◌, ◌++◌, some, Bool, true, false, ◌⊎◌, inl, inr,
  arith, All,
}
use bachelor_fair_mq.Fsm.{
  State, error, idle, initializing_device, device_ready, initializing_task, ready, running, paused,
  resetting_task, resetting_device, Event, init_device, internal_device_ready, init_task,
  internal_ready, run, pause, stop, reset_task, reset_device, internal_idle, end, error_found,
}
use bachelor_fair_mq.Fsm.Table.{
  Action, default_fct, exiting_fct, error_found_fct, Row, transition_table, is_terminate, find_row,
}
use bachelor_fair_mq.Fsm.Machine.{Msm, row_of, state_handlers, Handler, waits}

-- The states of the region that starts in IDLE.
abbrev pub is_control : State → Bool
is_control State.ok = false
is_control error = false
is_control _ = true

-- Whether an action looks its handler up.
abbrev pub needs_handler : Action → Bool
needs_handler default_fct = true
needs_handler exiting_fct = true
needs_handler _ = false

-- The events that the wrappers of a device raise themselves.
abbrev pub is_own : Event → Bool
is_own internal_device_ready = true
is_own internal_ready = true
is_own internal_idle = true
is_own error_found = true
is_own _ = false

-- What is special about the rows of PAUSED and of the error region, and about those for PAUSE.
abbrev pub FromState : State → Row → Type 0
FromState paused r = (r.target ≡ running) × (r.action ≡ default_fct)
FromState State.ok r = r.action ≡ error_found_fct
FromState _ r = Unit {0}

abbrev pub ForEvent : Event → Row → Type 0
ForEvent pause r = r.target ≡ paused
ForEvent _ r = Unit {0}

-- What holds of a row that a state and an event fire.
pub record Fits (s : State) (e : Event) (r : Row) : Type 0 where
  pub source_eq : r.source ≡ s
  pub event_eq : r.event ≡ e
  pub same_region : is_control r.target ≡ is_control s
  pub to_error : is_control s ≡ false → r.target ≡ error
  pub no_wait : is_own e ≡ true → waits r.action ≡ false
  pub from_state : FromState s r
  pub for_event : ForEvent e r
  pub handled : needs_handler r.action ≡ true → (h : Handler) × (state_handlers e ≡ some h)

no_handler {ℓ} : {A : Type ℓ} → false ≡ true → A
no_handler h = absurd (cc)

row_of-Fits : (s : State) (e : Event) → All (Fits s e) (row_of s e)
unfolding find_row state_handlers
row_of-Fits idle init_device = (
  record {
    source_eq = refl;
    event_eq = refl;
    same_region = refl;
    to_error = λ c. no_handler (sym c);
    no_wait = λ o. no_handler o;
    from_state = tt;
    for_event = tt;
    handled = λ h. (_, refl);
  },
  tt,
)
row_of-Fits idle end = (
  record {
    source_eq = refl;
    event_eq = refl;
    same_region = refl;
    to_error = λ c. no_handler (sym c);
    no_wait = λ o. no_handler o;
    from_state = tt;
    for_event = tt;
    handled = λ h. (_, refl);
  },
  tt,
)
row_of-Fits initializing_device internal_device_ready = (
  record {
    source_eq = refl;
    event_eq = refl;
    same_region = refl;
    to_error = λ c. no_handler (sym c);
    no_wait = λ o. refl;
    from_state = tt;
    for_event = tt;
    handled = λ h. no_handler h;
  },
  tt,
)
row_of-Fits device_ready init_task = (
  record {
    source_eq = refl;
    event_eq = refl;
    same_region = refl;
    to_error = λ c. no_handler (sym c);
    no_wait = λ o. no_handler o;
    from_state = tt;
    for_event = tt;
    handled = λ h. (_, refl);
  },
  tt,
)
row_of-Fits device_ready reset_device = (
  record {
    source_eq = refl;
    event_eq = refl;
    same_region = refl;
    to_error = λ c. no_handler (sym c);
    no_wait = λ o. no_handler o;
    from_state = tt;
    for_event = tt;
    handled = λ h. (_, refl);
  },
  tt,
)
row_of-Fits initializing_task internal_ready = (
  record {
    source_eq = refl;
    event_eq = refl;
    same_region = refl;
    to_error = λ c. no_handler (sym c);
    no_wait = λ o. refl;
    from_state = tt;
    for_event = tt;
    handled = λ h. no_handler h;
  },
  tt,
)
row_of-Fits ready run = (
  record {
    source_eq = refl;
    event_eq = refl;
    same_region = refl;
    to_error = λ c. no_handler (sym c);
    no_wait = λ o. no_handler o;
    from_state = tt;
    for_event = tt;
    handled = λ h. (_, refl);
  },
  tt,
)
row_of-Fits ready reset_task = (
  record {
    source_eq = refl;
    event_eq = refl;
    same_region = refl;
    to_error = λ c. no_handler (sym c);
    no_wait = λ o. no_handler o;
    from_state = tt;
    for_event = tt;
    handled = λ h. (_, refl);
  },
  tt,
)
row_of-Fits running pause = (
  record {
    source_eq = refl;
    event_eq = refl;
    same_region = refl;
    to_error = λ c. no_handler (sym c);
    no_wait = λ o. no_handler o;
    from_state = tt;
    for_event = refl;
    handled = λ h. (_, refl);
  },
  tt,
)
row_of-Fits running stop = (
  record {
    source_eq = refl;
    event_eq = refl;
    same_region = refl;
    to_error = λ c. no_handler (sym c);
    no_wait = λ o. no_handler o;
    from_state = tt;
    for_event = tt;
    handled = λ h. no_handler h;
  },
  tt,
)
row_of-Fits running internal_ready = (
  record {
    source_eq = refl;
    event_eq = refl;
    same_region = refl;
    to_error = λ c. no_handler (sym c);
    no_wait = λ o. refl;
    from_state = tt;
    for_event = tt;
    handled = λ h. no_handler h;
  },
  tt,
)
row_of-Fits paused run = (
  record {
    source_eq = refl;
    event_eq = refl;
    same_region = refl;
    to_error = λ c. no_handler (sym c);
    no_wait = λ o. no_handler o;
    from_state = (refl, refl);
    for_event = tt;
    handled = λ h. (_, refl);
  },
  tt,
)
row_of-Fits resetting_task internal_device_ready = (
  record {
    source_eq = refl;
    event_eq = refl;
    same_region = refl;
    to_error = λ c. no_handler (sym c);
    no_wait = λ o. refl;
    from_state = tt;
    for_event = tt;
    handled = λ h. no_handler h;
  },
  tt,
)
row_of-Fits resetting_device internal_idle = (
  record {
    source_eq = refl;
    event_eq = refl;
    same_region = refl;
    to_error = λ c. no_handler (sym c);
    no_wait = λ o. refl;
    from_state = tt;
    for_event = tt;
    handled = λ h. no_handler h;
  },
  tt,
)
row_of-Fits State.ok error_found = (
  record {
    source_eq = refl;
    event_eq = refl;
    same_region = refl;
    to_error = λ c. refl;
    no_wait = λ o. refl;
    from_state = refl;
    for_event = tt;
    handled = λ h. no_handler h;
  },
  tt,
)
row_of-Fits _ _ = tt

-- The two regions have no event in common.
row_of_disjoint :
    (s : State) (e : Event) → is_control s ≡ true → (row_of s e ≡ []) ⊎ (row_of State.ok e ≡ [])
unfolding find_row
row_of_disjoint State.ok e c = no_handler c
row_of_disjoint s error_found c = inl (control_error s c)
  where
    control_error : (s : State) → is_control s ≡ true → row_of s error_found ≡ []
    control_error State.ok c = no_handler c
    control_error error c = refl
    control_error _ c = refl
row_of_disjoint s init_device c = inr refl
row_of_disjoint s _ c = inr refl

row_of_cases : (s : State) (e : Event) → (row_of s e ≡ []) ⊎ ((r : Row) × (row_of s e ≡ r ∷ []))
row_of_cases s e = elim (Option-cases (find_row transition_table s e)) [
  | inl n ↦ inl (rw (n, row_of))
  | inr (r, p) ↦ inr (r, rw (p, row_of))
]

control_open : (s : State) → is_control s ≡ true → is_terminate s ≡ false
control_open error c = no_handler c
control_open _ c = refl

module _ (msm : Msm) where
  -- What an event fires: at most one row, of either region.
  pub data Fires (a b : State) (e : Event) : Type 0 where
    nothing : msm.fired a b e ≡ [] → Fires a b e
    of_control : (r : Row) → msm.fired a b e ≡ r ∷ [] → b ≡ State.ok → Fits a e r → Fires a b e
    of_health : (r : Row) → msm.fired a b e ≡ r ∷ [] → b ≡ State.ok → Fits b e r → Fires a b e

  pub fired-Fires :
      (a b : State) (e : Event) → is_control a ≡ true → is_control b ≡ false → Fires a b e
  fired-Fires a State.ok e c h =
      let p = msm.fired_regions a State.ok e (ground (arith, control_open a c)) in
      elim (row_of_disjoint a e c) [
        | inl n ↦ elim (row_of_cases State.ok e) [
          | inl n' ↦ nothing (p ∙ ap₂ ◌++◌ n n')
          | inr (r, q) ↦
              of_health r (p ∙ ap₂ ◌++◌ n q) refl
                (subst (All (Fits State.ok e)) q (row_of-Fits State.ok e)).0
        ]
        | inr n ↦ elim (row_of_cases a e) [
          | inl n' ↦ nothing (p ∙ ap₂ ◌++◌ n' n)
          | inr (r, q) ↦
              of_control r (p ∙ ap₂ ◌++◌ q n) refl (subst (All (Fits a e)) q (row_of-Fits a e)).0
        ]
      ]
  fired-Fires a error e c h =
      nothing (msm.fired_terminated a error e (ground (arith, control_open a c)))
  fired-Fires a _ e c h = no_handler (sym h)
