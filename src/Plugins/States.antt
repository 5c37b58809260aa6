-- ===== src/Plugins/States.antt =====
-- How the plugins' states and transitions stand to the states and events of the state machine
-- (fkDeviceStateMap and fkDeviceStateTransitionMap of fairmq/PluginServices.cxx).
use bachelor_fair_mq.Base.{◌≡◌, refl, ◌↔◌, Bool, true, false, arith}
use bachelor_fair_mq.Fsm.{State, Event}
use bachelor_fair_mq.Plugins.{DeviceState, DeviceStateTransition}
use bachelor_fair_mq.Plugins.Names.{device_state, transition_event}

-- The events by which the handlers of the device end a state.
abbrev pub is_internal : Event → Bool
is_internal Event.internal_device_ready = true
is_internal Event.internal_ready = true
is_internal Event.internal_idle = true
is_internal _ = false

-- The machine's state behind a plugin state.
state_behind : (d : DeviceState) → (s : State) × (device_state s ≡ d)
state_behind DeviceState.ok = (State.ok, refl)
state_behind DeviceState.error = (State.error, refl)
state_behind DeviceState.idle = (State.idle, refl)
state_behind DeviceState.initializing_device = (State.initializing_device, refl)
state_behind DeviceState.device_ready = (State.device_ready, refl)
state_behind DeviceState.initializing_task = (State.initializing_task, refl)
state_behind DeviceState.ready = (State.ready, refl)
state_behind DeviceState.running = (State.running, refl)
state_behind DeviceState.paused = (State.paused, refl)
state_behind DeviceState.resetting_task = (State.resetting_task, refl)
state_behind DeviceState.resetting_device = (State.resetting_device, refl)
state_behind DeviceState.exiting = (State.exiting, refl)

device_state-injective : (s t : State) → device_state s ≡ device_state t → s ≡ t
device_state-injective s t h = ground arith

transition_for :
    (e : Event) → is_internal e ≡ false → (t : DeviceStateTransition) × (transition_event t ≡ e)
transition_for Event.init_device h = (DeviceStateTransition.init_device, refl)
transition_for Event.internal_device_ready h = cc
transition_for Event.init_task h = (DeviceStateTransition.init_task, refl)
transition_for Event.internal_ready h = cc
transition_for Event.run h = (DeviceStateTransition.run, refl)
transition_for Event.pause h = (DeviceStateTransition.pause, refl)
transition_for Event.stop h = (DeviceStateTransition.stop, refl)
transition_for Event.reset_task h = (DeviceStateTransition.reset_task, refl)
transition_for Event.reset_device h = (DeviceStateTransition.reset_device, refl)
transition_for Event.internal_idle h = cc
transition_for Event.end h = (DeviceStateTransition.end, refl)
transition_for Event.error_found h = (DeviceStateTransition.error_found, refl)

transition_external : (t : DeviceStateTransition) → is_internal (transition_event t) ≡ false
transition_external t = ground arith

-- Plugin states and machine states correspond one to one, so that GetCurrentDeviceState never
-- throws and never confuses two states; and the events that plugins can ask for are all the events
-- of the machine except the internal ones.
pub plugin_states_correspond :
    ((d : DeviceState)
      → (s : State) × (device_state s ≡ d) × ((t : State) → device_state t ≡ d → t ≡ s))
    × ((e : Event)
        → (is_internal e ≡ false) ↔ ((t : DeviceStateTransition) × (transition_event t ≡ e)))
plugin_states_correspond = (
  λ d. let (s, p) = state_behind d in (s, p, λ t q. device_state-injective t s cc),
  λ e. (transition_for e, λ (t, p). rw (← p) (transition_external t)),
)
