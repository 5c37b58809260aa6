-- ===== src/Controller/Sequences.antt =====
-- RunStartupSequence and RunShutdownSequence of the control plugin (fairmq/plugins/Control.cxx), with
-- the queue fEvents of reported states, and the device that answers the requests.
use bachelor_fair_mq.Base.{
  ℕ, zero, suc, List, [], ◌∷◌, ◌++◌, map, Option, none, some, Bool, text_eq, if◌then◌else◌,
}
use bachelor_fair_mq.Fsm.{State, running, internal_ready}
use bachelor_fair_mq.Plugins.{DeviceState, DeviceStateTransition}
use bachelor_fair_mq.Plugins.Names.{device_state, device_state_name, transition_event}
use bachelor_fair_mq.Controller.Device.{target_of, react}

-- The device at rest, and the queue.
pub record World : Type 0 where
  pub device : State
  pub events : List DeviceState

-- How a sequence ends: it is through, the device is in the error state, it waits for a report that
-- does not come, or it reads the front of the empty queue, which is undefined. `out_of_fuel` is the
-- model's.
pub data Ending : Type 0 where
  finished : World → Ending
  device_error : Ending
  waits : Ending
  front_of_empty : Ending
  out_of_fuel : Ending

-- `==` on the states.
abbrev pub same_state : DeviceState → DeviceState → Bool
same_state s t = text_eq (device_state_name s) (device_state_name t)

-- ChangeDeviceState: the reports of the device come into the queue.
abbrev pub change_and_report : Bool → DeviceStateTransition → World → World
change_and_report run_returns t w =
    let r = react run_returns (w.device) (transition_event t) in
    record { device = r.state; events = w.events ++ map device_state (r.reports) }

-- The switch of RunShutdownSequence.
abbrev pub shutdown_request : DeviceState → Option DeviceStateTransition
shutdown_request DeviceState.idle = some DeviceStateTransition.end
shutdown_request DeviceState.device_ready = some DeviceStateTransition.reset_device
shutdown_request DeviceState.ready = some DeviceStateTransition.reset_task
shutdown_request DeviceState.running = some DeviceStateTransition.stop
shutdown_request DeviceState.paused = some DeviceStateTransition.resume
shutdown_request _ = none

abbrev pub serve_state : Bool → DeviceState → World → World
serve_state run_returns s w = elim (shutdown_request s) [
  | none ↦ w
  | some t ↦ change_and_report run_returns t w
]

-- WaitForNextState: the front of the queue, which stays there if it is the error state.
abbrev pub wait_for_next_state : World → (DeviceState → World → Ending) → Ending
wait_for_next_state w k = elim (w.events) [
  | [] ↦ waits
  | s ∷ rest ↦ elim s [
    | DeviceState.error ↦ device_error
    | other ↦ k other (record w { events = rest })
  ]
]

-- The loop of RunShutdownSequence, on fuel, from the state it is to look at.
unfoldable pub shutdown_loop : Bool → ℕ → DeviceState → World → Ending
shutdown_loop run_returns zero s w = out_of_fuel
shutdown_loop run_returns (suc fuel) DeviceState.exiting w = finished w
shutdown_loop run_returns (suc fuel) DeviceState.error w = finished w
shutdown_loop run_returns (suc fuel) s w =
    wait_for_next_state (serve_state run_returns s w) (shutdown_loop run_returns fuel)

-- RunShutdownSequence: the current state is read, and then the queue is emptied; the device may have
-- come from the first world to the second in between.
unfoldable pub run_shutdown_sequence : Bool → ℕ → World → World → Ending
run_shutdown_sequence run_returns fuel read emptied =
    shutdown_loop run_returns fuel (device_state (read.device)) (record emptied { events = [] })

-- `while (WaitForNextState() != target) {}`.
unfoldable pub wait_until : DeviceState → State → List DeviceState → Ending
wait_until target d [] = waits
wait_until target d (DeviceState.error ∷ q) = device_error
wait_until target d (s ∷ q) =
    let rest = wait_until target d q in
    if same_state s target then finished (record { device = d; events = q }) else rest

abbrev pub then_run : Ending → (World → Ending) → Ending
then_run (finished w) k = k w
then_run device_error k = device_error
then_run waits k = waits
then_run front_of_empty k = front_of_empty
then_run out_of_fuel k = out_of_fuel

-- A request, and the reports until a state.
abbrev pub request_until : Bool → DeviceStateTransition → DeviceState → World → Ending
request_until run_returns t target w =
    let w' = change_and_report run_returns t w in wait_until target (w'.device) (w'.events)

-- RunStartupSequence.
unfoldable pub run_startup_sequence : Bool → World → Ending
run_startup_sequence run_returns w =
    then_run
      (then_run
        (request_until run_returns DeviceStateTransition.init_device DeviceState.device_ready w)
        (request_until run_returns DeviceStateTransition.init_task DeviceState.ready))
      (request_until run_returns DeviceStateTransition.run DeviceState.running)

-- The device's Run returns: RunWrapper's event leads from RUNNING to READY, and that is reported.
abbrev pub run_over : World → World
run_over w = elim (w.device) [
  | running ↦ record {
    device = target_of running internal_ready;
    events = w.events ++ device_state (target_of running internal_ready) ∷ [];
  }
  | _ ↦ w
]

-- StaticMode between the two sequences: it waits until there is a report or a request to shut down,
-- and then looks at the front of the queue.
abbrev pub look_at_front : Bool → List DeviceState → Ending → Ending
look_at_front requested [] next = if requested then front_of_empty else waits
look_at_front requested (DeviceState.error ∷ q) next = device_error
look_at_front requested (s ∷ q) next = next

-- StaticMode: whether the device's Run returns while it waits, and whether the request to shut down
-- comes. The device is at rest when the shutdown begins.
unfoldable pub static_mode : Bool → Bool → Bool → ℕ → World → Ending
static_mode run_returns returned requested fuel w =
    then_run (run_startup_sequence run_returns w) (λ w'.
      let behind = if returned then run_over w' else w' in
      look_at_front requested (behind.events)
        (run_shutdown_sequence run_returns fuel behind behind))
