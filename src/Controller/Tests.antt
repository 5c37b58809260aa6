-- ===== src/Controller/Tests.antt =====
-- The control plugin with a device.
use bachelor_fair_mq.Base.{◌≡◌, refl, List, [], ◌∷◌, false}
use bachelor_fair_mq.Fsm.{ready, exiting}
use bachelor_fair_mq.Plugins.{DeviceState}
use bachelor_fair_mq.Controller.Device.{react}
use bachelor_fair_mq.Controller.Sequences.{finished, shutdown_loop}
use bachelor_fair_mq.Controller.Moves.{at_ready, rounds}
use bachelor_fair_mq.Controller.Shutdown.{shutdown_loop-finished}

-- Reports that are still on their way to a device in READY: RUNNING twice, and a pause.
abbrev stale : List DeviceState
stale = DeviceState.paused ∷ DeviceState.running ∷ DeviceState.ready ∷ []

stale_runs :
    shutdown_loop false
      (rounds ready DeviceState.running stale)
      DeviceState.running
      (record { device = ready; events = stale })
    ≡ finished (record { device = exiting; events = [] })
unfolding shutdown_loop react
stale_runs = refl

shutdown_loop-finished_example :
    shutdown_loop false
      (rounds ready DeviceState.running stale)
      DeviceState.running
      (record { device = ready; events = stale })
    ≡ finished (record { device = exiting; events = [] })
shutdown_loop-finished_example =
    shutdown_loop-finished false ready DeviceState.running stale at_ready (tt, (tt, (tt, refl)))
