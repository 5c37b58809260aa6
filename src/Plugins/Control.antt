-- ===== src/Plugins/Control.antt =====
-- Who may change the device's state (fairmq/PluginServices.cxx). Each operation holds
-- fDeviceControllerMutex from its first access to its last, also while it is inside
-- FairMQDevice::ChangeState, so that the operations are atomic with respect to each other.
use bachelor_fair_mq.Base.{
  List, [], ◌∷◌, Option, none, some, Bool, false, Text, text_eq, Outcome, ok, throws, if◌then◌else◌,
}
use bachelor_fair_mq.Fsm.{Event}
use bachelor_fair_mq.Plugins.{DeviceStateTransition}
use bachelor_fair_mq.Plugins.Names.{transition_event}

-- fDeviceController, and the calls of fDevice.ChangeState so far, the newest first.
pub record Services : Type 0 where
  pub device_controller : Option Text
  pub requested : List Event

-- The constructor.
abbrev pub new : Services
new = record { device_controller = none; requested = [] }

-- `fDeviceController == controller` on an optional.
abbrev pub controls : Option Text → Text → Bool
controls none controller = false
controls (some c) controller = text_eq c controller

-- `if (!fDeviceController) fDeviceController = controller;`
abbrev pub claim : Option Text → Text → Option Text
claim none controller = some controller
claim (some c) controller = some c

-- A call returns or throws DeviceControlError, and leaves the services in a state.
abbrev pub Reply : Type 0
Reply = Outcome Unit × Services

unfoldable pub change_device_state : Text → DeviceStateTransition → Services → Reply
change_device_state controller next s =
    let s' = record s { device_controller = claim (s.device_controller) controller } in
    if controls (s'.device_controller) controller
    then (ok tt, record s' { requested = transition_event next ∷ s'.requested })
    else (throws, s')

unfoldable pub take_device_control : Text → Services → Reply
take_device_control controller s = elim (s.device_controller) [
  | none ↦ (ok tt, record s { device_controller = some controller })
  | some c ↦ if text_eq c controller then (ok tt, s) else (throws, s)
]

unfoldable pub steal_device_control : Text → Services → Reply
steal_device_control controller s = (ok tt, record s { device_controller = some controller })

unfoldable pub release_device_control : Text → Services → Reply
release_device_control controller s =
    if controls (s.device_controller) controller
    then (ok tt, record s { device_controller = none })
    else (throws, s)

-- The calls that plugins make, and their effects in order.
pub data Call : Type 0 where
  change : Text → DeviceStateTransition → Call
  takes : Text → Call
  steals : Text → Call
  releases : Text → Call

abbrev pub serve : Call → Services → Reply
serve (change c t) s = change_device_state c t s
serve (takes c) s = take_device_control c s
serve (steals c) s = steal_device_control c s
serve (releases c) s = release_device_control c s

abbrev pub serve_all : List Call → Services → Services
serve_all [] s = s
serve_all (c ∷ cs) s = serve_all cs ((serve c s).1)
