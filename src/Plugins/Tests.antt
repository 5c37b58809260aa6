-- ===== src/Plugins/Tests.antt =====
-- Plugins that share a device.
use bachelor_fair_mq.Base.{
  ◌≡◌, ◌≢◌, refl, List, [], ◌∷◌, ◌++◌, some, Text, codes, text_eq, text_eq_refl, sym, ap, ◌∙◌, true,
}
use bachelor_fair_mq.Plugins.{DeviceStateTransition}
use bachelor_fair_mq.Plugins.Names.{transition_event}
use bachelor_fair_mq.Plugins.Control.{Services, Call, change, takes, steals, releases, serve_all}
use bachelor_fair_mq.Plugins.Exclusive.{requests_of, control_exclusive}

abbrev control : Text
control = codes "control"

abbrev dds : Text
dds = codes "DDS"

abbrev controlled : Services
controlled = record { device_controller = some control; requested = [] }

abbrev calls : List Call
calls =
    change dds DeviceStateTransition.end
    ∷ change control DeviceStateTransition.init_device
    ∷ releases dds
    ∷ steals control
    ∷ takes dds
    ∷ change control DeviceStateTransition.init_task
    ∷ []

dds-control : dds ≢ control
unfolding text_eq
dds-control h = differ (sym (text_eq_refl dds) ∙ ap (text_eq dds) h)
  where
    differ : true ≡ text_eq dds control → ⊥
    differ e = cc

control_exclusive_example :
    serve_all calls controlled
    ≡ record controlled { requested = requests_of control calls ++ controlled.requested }
control_exclusive_example =
    control_exclusive control calls controlled refl
      (tt, (tt, (dds-control, (refl, (tt, (tt, tt))))))

control_requests :
    requests_of control calls
    ≡ transition_event DeviceStateTransition.init_task
      ∷ transition_event DeviceStateTransition.init_device
      ∷ []
unfolding text_eq
control_requests = refl
