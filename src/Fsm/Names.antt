-- ===== src/Fsm/Names.antt =====
-- The names of the states and the events (fairmq/FairMQStateMachine.cxx), and the lookups by them.
use bachelor_fair_mq.Base.{
  ◌≡◌, refl, List, [], ◌∷◌, Option, some, Text, codes, text_eq, lookup, get_elem?,
}
use bachelor_fair_mq.Fsm.{
  State, error, idle, initializing_device, device_ready, initializing_task, ready, running, paused,
  resetting_task, resetting_device, exiting, Event, init_device, internal_device_ready, init_task,
  internal_ready, run, pause, stop, reset_task, reset_device, internal_idle, end, error_found,
  state_number, event_number,
}

-- stateNames, indexed by the number of the state.
abbrev pub state_names : List Text
state_names =
    codes "OK"
    ∷ codes "Error"
    ∷ codes "IDLE"
    ∷ codes "INITIALIZING_DEVICE"
    ∷ codes "DEVICE_READY"
    ∷ codes "INITIALIZING_TASK"
    ∷ codes "READY"
    ∷ codes "RUNNING"
    ∷ codes "PAUSED"
    ∷ codes "RESETTING_TASK"
    ∷ codes "RESETTING_DEVICE"
    ∷ codes "EXITING"
    ∷ []

-- eventNames.
abbrev pub event_names : List Text
event_names =
    codes "INIT_DEVICE"
    ∷ codes "internal_DEVICE_READY"
    ∷ codes "INIT_TASK"
    ∷ codes "internal_READY"
    ∷ codes "RUN"
    ∷ codes "PAUSE"
    ∷ codes "STOP"
    ∷ codes "RESET_TASK"
    ∷ codes "RESET_DEVICE"
    ∷ codes "internal_IDLE"
    ∷ codes "END"
    ∷ codes "ERROR_FOUND"
    ∷ []

-- stateNumbers.
abbrev pub state_numbers : List (Text × State)
state_numbers =
    (codes "OK", State.ok)
    ∷ (codes "Error", error)
    ∷ (codes "IDLE", idle)
    ∷ (codes "INITIALIZING_DEVICE", initializing_device)
    ∷ (codes "DEVICE_READY", device_ready)
    ∷ (codes "INITIALIZING_TASK", initializing_task)
    ∷ (codes "READY", ready)
    ∷ (codes "RUNNING", running)
    ∷ (codes "PAUSED", paused)
    ∷ (codes "RESETTING_TASK", resetting_task)
    ∷ (codes "RESETTING_DEVICE", resetting_device)
    ∷ (codes "EXITING", exiting)
    ∷ []

-- eventNumbers.
abbrev pub event_numbers : List (Text × Event)
event_numbers =
    (codes "INIT_DEVICE", init_device)
    ∷ (codes "internal_DEVICE_READY", internal_device_ready)
    ∷ (codes "INIT_TASK", init_task)
    ∷ (codes "internal_READY", internal_ready)
    ∷ (codes "RUN", run)
    ∷ (codes "PAUSE", pause)
    ∷ (codes "STOP", stop)
    ∷ (codes "RESET_TASK", reset_task)
    ∷ (codes "RESET_DEVICE", reset_device)
    ∷ (codes "internal_IDLE", internal_idle)
    ∷ (codes "END", end)
    ∷ (codes "ERROR_FOUND", error_found)
    ∷ []

-- GetStateName.
unfoldable pub get_state_name : State → Option Text
get_state_name s = get_elem? state_names (state_number s)

-- GetEventNumber, which throws on another name.
unfoldable pub get_event_number : Text → Option Event
unfolding lookup
get_event_number name = lookup name event_numbers

state_name_agrees :
    (s : State) → (t : Text) × (get_state_name s ≡ some t) × (lookup t state_numbers ≡ some s)
unfolding get_state_name lookup text_eq
state_name_agrees State.ok = (_, refl, refl)
state_name_agrees error = (_, refl, refl)
state_name_agrees idle = (_, refl, refl)
state_name_agrees initializing_device = (_, refl, refl)
state_name_agrees device_ready = (_, refl, refl)
state_name_agrees initializing_task = (_, refl, refl)
state_name_agrees ready = (_, refl, refl)
state_name_agrees running = (_, refl, refl)
state_name_agrees paused = (_, refl, refl)
state_name_agrees resetting_task = (_, refl, refl)
state_name_agrees resetting_device = (_, refl, refl)
state_name_agrees exiting = (_, refl, refl)

event_name_agrees :
    (e : Event)
    → (t : Text) × (get_elem? event_names (event_number e) ≡ some t) × (get_event_number t ≡ some e)
unfolding get_event_number text_eq
event_name_agrees init_device = (_, refl, refl)
event_name_agrees internal_device_ready = (_, refl, refl)
event_name_agrees init_task = (_, refl, refl)
event_name_agrees internal_ready = (_, refl, refl)
event_name_agrees run = (_, refl, refl)
event_name_agrees pause = (_, refl, refl)
event_name_agrees stop = (_, refl, refl)
event_name_agrees reset_task = (_, refl, refl)
event_name_agrees reset_device = (_, refl, refl)
event_name_agrees internal_idle = (_, refl, refl)
event_name_agrees end = (_, refl, refl)
event_name_agrees error_found = (_, refl, refl)

-- Each state has a name, and stateNumbers maps that name to the state; each event number has a
-- name, and GetEventNumber gives that event for it.
pub names_agree :
    ((s : State) → (t : Text) × (get_state_name s ≡ some t) × (lookup t state_numbers ≡ some s))
    × ((e : Event)
        → (t : Text) × (get_elem? event_names (event_number e) ≡ some t)
          × (get_event_number t ≡ some e))
names_agree = (state_name_agrees, event_name_agrees)
