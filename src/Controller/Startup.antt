-- ===== src/Controller/Startup.antt =====
-- RunStartupSequence, and the static mode (fairmq/plugins/Control.cxx).
use bachelor_fair_mq.Base.{
  ◌≡◌, ◌≢◌, refl, ◌∙◌, List, [], ◌∷◌, ◌++◌, Bool, true, false, All, text_eq,
}
use bachelor_fair_mq.Fsm.{State, idle, ready, running, exiting, device_ready}
use bachelor_fair_mq.Plugins.{DeviceState, DeviceStateTransition}
use bachelor_fair_mq.Controller.Device.{react}
use bachelor_fair_mq.Controller.Sequences.{
  World, Ending, finished, waits, front_of_empty, same_state, wait_until, request_until, then_run,
  run_startup_sequence,
}

-- A report that a wait for the target passes over.
abbrev pub Passes : DeviceState → DeviceState → Type 0
Passes target s = (same_state s target ≡ false) × (s ≢ DeviceState.error)

wait_until-append :
    (target : DeviceState) (d : State) (q ys : List DeviceState)
    → All (Passes target) q
    → wait_until target d (q ++ ys) ≡ wait_until target d ys
unfolding wait_until
wait_until-append target d [] ys h = refl
wait_until-append target d (DeviceState.error ∷ q) ys ((f, n), h) = absurd (n refl)
wait_until-append target d (_ ∷ q) ys ((f, n), h) = rw f (wait_until-append target d q ys h)

-- Where the sequence leaves the device.
abbrev pub started : Bool → World
started true = record { device = ready; events = DeviceState.ready ∷ [] }
started false = record { device = running; events = [] }

first_request :
    (rr : Bool) (q : List DeviceState)
    → All (Passes DeviceState.device_ready) q
    → request_until rr DeviceStateTransition.init_device DeviceState.device_ready
        (record { device = idle; events = q })
      ≡ finished (record { device = device_ready; events = [] })
unfolding react
first_request rr q h =
    wait_until-append DeviceState.device_ready device_ready q
      (DeviceState.initializing_device ∷ DeviceState.device_ready ∷ []) h
    ∙ (unfold wait_until in unfold text_eq in refl)

later_requests :
    (rr : Bool)
    → then_run
        (request_until rr DeviceStateTransition.init_task DeviceState.ready
          (record { device = device_ready; events = [] }))
        (request_until rr DeviceStateTransition.run DeviceState.running)
      ≡ finished (started rr)
unfolding react wait_until text_eq
later_requests true = refl
later_requests false = refl

-- RunStartupSequence brings an idle device to RUNNING, past any reports that are in the queue but of
-- DEVICE READY and ERROR, and leaves the queue empty; where the device's Run returns by itself, the
-- device is then in READY, and that is reported.
pub run_startup_sequence-started :
    (run_returns : Bool) (events : List DeviceState)
    → All (Passes DeviceState.device_ready) events
    → run_startup_sequence run_returns (record { device = idle; events = events })
      ≡ finished (started run_returns)
unfolding run_startup_sequence
run_startup_sequence-started rr q h = rw (first_request rr q h) (later_requests rr)

-- How the static mode ends: by whether the device's Run returns in time, and whether the request to
-- shut down comes.
abbrev pub outcome : Bool → Bool → Ending
outcome true requested = finished (record { device = exiting; events = [] })
outcome false true = front_of_empty
outcome false false = waits
