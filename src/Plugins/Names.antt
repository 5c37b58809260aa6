-- ===== src/Plugins/Names.antt =====
-- The maps of fairmq/PluginServices.cxx between names, plugin states and the states and events of
-- the state machine, and the conversions by them (fairmq/PluginServices.h).
use bachelor_fair_mq.Base.{◌≡◌, refl, [], ◌∷◌, List, Option, some, Text, codes, text_eq, lookup}
use bachelor_fair_mq.Fsm.{State, Event}
use bachelor_fair_mq.Plugins.{DeviceState, DeviceStateTransition}

-- fkDeviceStateStrMap.
abbrev pub device_states_by_name : List (Text × DeviceState)
device_states_by_name =
    (codes "OK", DeviceState.ok)
    ∷ (codes "ERROR", DeviceState.error)
    ∷ (codes "IDLE", DeviceState.idle)
    ∷ (codes "INITIALIZING DEVICE", DeviceState.initializing_device)
    ∷ (codes "DEVICE READY", DeviceState.device_ready)
    ∷ (codes "INITIALIZING TASK", DeviceState.initializing_task)
    ∷ (codes "READY", DeviceState.ready)
    ∷ (codes "RUNNING", DeviceState.running)
    ∷ (codes "PAUSED", DeviceState.paused)
    ∷ (codes "RESETTING TASK", DeviceState.resetting_task)
    ∷ (codes "RESETTING DEVICE", DeviceState.resetting_device)
    ∷ (codes "EXITING", DeviceState.exiting)
    ∷ []

-- fkStrDeviceStateMap, which has every state: ToStr.
abbrev pub device_state_name : DeviceState → Text
device_state_name DeviceState.ok = codes "OK"
device_state_name DeviceState.error = codes "ERROR"
device_state_name DeviceState.idle = codes "IDLE"
device_state_name DeviceState.initializing_device = codes "INITIALIZING DEVICE"
device_state_name DeviceState.device_ready = codes "DEVICE READY"
device_state_name DeviceState.initializing_task = codes "INITIALIZING TASK"
device_state_name DeviceState.ready = codes "READY"
device_state_name DeviceState.running = codes "RUNNING"
device_state_name DeviceState.paused = codes "PAUSED"
device_state_name DeviceState.resetting_task = codes "RESETTING TASK"
device_state_name DeviceState.resetting_device = codes "RESETTING DEVICE"
device_state_name DeviceState.exiting = codes "EXITING"

-- fkDeviceStateTransitionStrMap.
abbrev pub transitions_by_name : List (Text × DeviceStateTransition)
transitions_by_name =
    (codes "INIT DEVICE", DeviceStateTransition.init_device)
    ∷ (codes "INIT TASK", DeviceStateTransition.init_task)
    ∷ (codes "RUN", DeviceStateTransition.run)
    ∷ (codes "PAUSE", DeviceStateTransition.pause)
    ∷ (codes "RESUME", DeviceStateTransition.resume)
    ∷ (codes "STOP", DeviceStateTransition.stop)
    ∷ (codes "RESET TASK", DeviceStateTransition.reset_task)
    ∷ (codes "RESET DEVICE", DeviceStateTransition.reset_device)
    ∷ (codes "END", DeviceStateTransition.end)
    ∷ (codes "ERROR FOUND", DeviceStateTransition.error_found)
    ∷ []

-- fkStrDeviceStateTransitionMap.
abbrev pub transition_name : DeviceStateTransition → Text
transition_name DeviceStateTransition.init_device = codes "INIT DEVICE"
transition_name DeviceStateTransition.init_task = codes "INIT TASK"
transition_name DeviceStateTransition.run = codes "RUN"
transition_name DeviceStateTransition.pause = codes "PAUSE"
transition_name DeviceStateTransition.resume = codes "RESUME"
transition_name DeviceStateTransition.stop = codes "STOP"
transition_name DeviceStateTransition.reset_task = codes "RESET TASK"
transition_name DeviceStateTransition.reset_device = codes "RESET DEVICE"
transition_name DeviceStateTransition.end = codes "END"
transition_name DeviceStateTransition.error_found = codes "ERROR FOUND"

-- fkDeviceStateMap.
abbrev pub device_state : State → DeviceState
device_state State.ok = DeviceState.ok
device_state State.error = DeviceState.error
device_state State.idle = DeviceState.idle
device_state State.initializing_device = DeviceState.initializing_device
device_state State.device_ready = DeviceState.device_ready
device_state State.initializing_task = DeviceState.initializing_task
device_state State.ready = DeviceState.ready
device_state State.running = DeviceState.running
device_state State.paused = DeviceState.paused
device_state State.resetting_task = DeviceState.resetting_task
device_state State.resetting_device = DeviceState.resetting_device
device_state State.exiting = DeviceState.exiting

-- fkDeviceStateTransitionMap: resuming is the event RUN.
abbrev pub transition_event : DeviceStateTransition → Event
transition_event DeviceStateTransition.init_device = Event.init_device
transition_event DeviceStateTransition.init_task = Event.init_task
transition_event DeviceStateTransition.run = Event.run
transition_event DeviceStateTransition.pause = Event.pause
transition_event DeviceStateTransition.resume = Event.run
transition_event DeviceStateTransition.stop = Event.stop
transition_event DeviceStateTransition.reset_task = Event.reset_task
transition_event DeviceStateTransition.reset_device = Event.reset_device
transition_event DeviceStateTransition.end = Event.end
transition_event DeviceStateTransition.error_found = Event.error_found

-- ToDeviceState and ToDeviceStateTransition, which throw on another name.
unfoldable pub to_device_state : Text → Option DeviceState
to_device_state name = lookup name device_states_by_name

unfoldable pub to_device_state_transition : Text → Option DeviceStateTransition
to_device_state_transition name = lookup name transitions_by_name

device_state_agrees : (s : DeviceState) → to_device_state (device_state_name s) ≡ some s
unfolding to_device_state lookup text_eq
device_state_agrees DeviceState.ok = refl
device_state_agrees DeviceState.error = refl
device_state_agrees DeviceState.idle = refl
device_state_agrees DeviceState.initializing_device = refl
device_state_agrees DeviceState.device_ready = refl
device_state_agrees DeviceState.initializing_task = refl
device_state_agrees DeviceState.ready = refl
device_state_agrees DeviceState.running = refl
device_state_agrees DeviceState.paused = refl
device_state_agrees DeviceState.resetting_task = refl
device_state_agrees DeviceState.resetting_device = refl
device_state_agrees DeviceState.exiting = refl

transition_agrees :
    (t : DeviceStateTransition) → to_device_state_transition (transition_name t) ≡ some t
unfolding to_device_state_transition lookup text_eq
transition_agrees DeviceStateTransition.init_device = refl
transition_agrees DeviceStateTransition.init_task = refl
transition_agrees DeviceStateTransition.run = refl
transition_agrees DeviceStateTransition.pause = refl
transition_agrees DeviceStateTransition.resume = refl
transition_agrees DeviceStateTransition.stop = refl
transition_agrees DeviceStateTransition.reset_task = refl
transition_agrees DeviceStateTransition.reset_device = refl
transition_agrees DeviceStateTransition.end = refl
transition_agrees DeviceStateTransition.error_found = refl

-- ToDeviceState and ToDeviceStateTransition give each plugin state and each transition back from
-- its name.
pub plugin_names_agree :
    ((s : DeviceState) → to_device_state (device_state_name s) ≡ some s)
    × ((t : DeviceStateTransition) → to_device_state_transition (transition_name t) ≡ some t)
plugin_names_agree = (device_state_agrees, transition_agrees)
