-- ===== src/Controller/Moves.antt =====
-- How the requests of RunShutdownSequence move a device, and a measure of what is left to do
-- (fairmq/plugins/Control.cxx).
use bachelor_fair_mq.Base.{
  ℕ, ◌+◌, ◌*◌, ◌<◌, ◌≡◌, ◌≢◌, refl, ◌⊎◌, inl, inr, List, [], ◌∷◌, map, Bool, true, false, none,
  some, length, arith,
}
use bachelor_fair_mq.Fsm.{State, idle, device_ready, ready, running, paused, exiting}
use bachelor_fair_mq.Plugins.{DeviceState}
use bachelor_fair_mq.Plugins.Names.{device_state, transition_event}
use bachelor_fair_mq.Controller.Device.{Reaction, react}
use bachelor_fair_mq.Controller.Sequences.{shutdown_request}

-- The states in which a device waits for a request, and the last one.
pub data AtRest : State → Type 0 where
  at_idle : AtRest idle
  at_device_ready : AtRest device_ready
  at_ready : AtRest ready
  at_running : AtRest running
  at_paused : AtRest paused
  at_exiting : AtRest exiting

-- A report that does not end the loop.
abbrev pub Ordinary : DeviceState → Type 0
Ordinary DeviceState.exiting = ⊥
Ordinary DeviceState.error = ⊥
Ordinary _ = Unit {0}

-- The reports end in the device's own state, and those before it are ordinary.
abbrev pub EndsIn : State → DeviceState → List DeviceState → Type 0
EndsIn d s [] = s ≡ device_state d
EndsIn d s (x ∷ q) = Ordinary s × EndsIn d x q

-- How far the device is from EXITING, and how many PAUSED are reported.
abbrev pub height : State → ℕ
height idle = 1
height device_ready = 2
height ready = 3
height running = 4
height paused = 5
height _ = 0

abbrev pub pause : DeviceState → ℕ
pause DeviceState.paused = 1
pause _ = 0

abbrev pub pauses : List DeviceState → ℕ
pauses [] = 0
pauses (s ∷ q) = pause s + pauses q

-- The rounds that suffice: a stale PAUSED may set a ready device running once more.
abbrev pub rounds : State → DeviceState → List DeviceState → ℕ
rounds d s q = length q + 1 + 3 * height d + 10 * (pause s + pauses q)

-- A reaction that moves the device on, at the cost of a report `s`.
pub record Moves (d : State) (s : DeviceState) (r : Reaction) : Type 0 where
  pub first : State
  pub more : List State
  pub reported : r.reports ≡ first ∷ more
  pub ends : EndsIn r.state (device_state first) (map device_state more)
  pub rest : AtRest r.state
  pub was : Ordinary (device_state d)
  pub cheaper :
      length (map device_state more)
        + 1
        + 3 * height r.state
        + 10 * pauses (map device_state (first ∷ more))
      < 1 + 3 * height d + 10 * pause s

-- What the device makes of the request that a report asks for.
abbrev pub reaction : Bool → State → DeviceState → Reaction
reaction rr d s = elim (shutdown_request s) [
  | none ↦ record { state = d; reports = [] }
  | some t ↦ react rr d (transition_event t)
]

abbrev pub moves :
    (d : State) (s : DeviceState) (r : Reaction) (first : State) (more : List State)
    → r.reports ≡ first ∷ more
    → EndsIn r.state (device_state first) (map device_state more)
    → AtRest r.state
    → Ordinary (device_state d)
    → (length (map device_state more)
          + 1
          + 3 * height r.state
          + 10 * pauses (map device_state (first ∷ more))
        < 1 + 3 * height d + 10 * pause s)
    → Moves d s r
moves d s r first more a b c e f = record {
  first = first;
  more = more;
  reported = a;
  ends = b;
  rest = c;
  was = e;
  cheaper = f;
}

-- Each state that a device rests in, but the last, has a request that moves it on.
pub rest_moves :
    (rr : Bool) (d : State)
    → AtRest d
    → d ≢ exiting
    → Moves d (device_state d) (reaction rr d (device_state d))
unfolding react
rest_moves rr _ at_idle n = moves _ _ _ exiting [] refl refl at_exiting tt (omega arith)
rest_moves rr _ at_device_ready n =
    moves _ _ _ State.resetting_device (idle ∷ []) refl (tt, refl) at_idle tt (omega arith)
rest_moves rr _ at_ready n =
    moves _ _ _ State.resetting_task (device_ready ∷ []) refl (tt, refl) at_device_ready tt
      (omega arith)
rest_moves rr _ at_running n = moves _ _ _ ready [] refl refl at_ready tt (omega arith)
rest_moves true _ at_paused n =
    moves _ _ _ running (running ∷ ready ∷ []) refl (tt, (tt, refl)) at_ready tt (omega arith)
rest_moves false _ at_paused n =
    moves _ _ _ running (running ∷ []) refl (tt, refl) at_running tt (omega arith)
rest_moves rr _ at_exiting n = absurd (n refl)

-- A report of another state is ignored, but that a stale PAUSED sets a ready device running.
pub answer :
    (rr : Bool) (d : State) (s : DeviceState)
    → AtRest d
    → (reaction rr d s ≡ record { state = d; reports = [] }) ⊎ Moves d s (reaction rr d s)
unfolding react
answer rr _ DeviceState.idle at_idle = inr (rest_moves rr _ at_idle (λ h. cc))
answer rr _ DeviceState.idle _ = inl refl
answer rr _ DeviceState.device_ready at_device_ready =
    inr (rest_moves rr _ at_device_ready (λ h. cc))
answer rr _ DeviceState.device_ready _ = inl refl
answer rr _ DeviceState.ready at_ready = inr (rest_moves rr _ at_ready (λ h. cc))
answer rr _ DeviceState.ready _ = inl refl
answer rr _ DeviceState.running at_running = inr (rest_moves rr _ at_running (λ h. cc))
answer rr _ DeviceState.running _ = inl refl
answer rr _ DeviceState.paused at_paused = inr (rest_moves rr _ at_paused (λ h. cc))
answer true _ DeviceState.paused at_ready =
    inr (moves _ _ _ running (ready ∷ []) refl (tt, refl) at_ready tt (omega arith))
answer false _ DeviceState.paused at_ready =
    inr (moves _ _ _ running [] refl refl at_running tt (omega arith))
answer rr _ DeviceState.paused _ = inl refl
answer rr _ _ h = inl refl
