-- ===== src/Plugins/Exclusive.antt =====
-- Who controls the device (fairmq/PluginServices.cxx).
use bachelor_fair_mq.Base.{
  ◌≡◌, ◌≢◌, refl, List, [], ◌∷◌, ◌++◌, Option, none, some, true, Text, text_eq, text_eq_iff,
  text_eq_refl, eq_of_text_eq, ap, ok, throws, exits, ◌∙◌, if◌then◌else◌, arith, inl, inr,
  Bool-cases, All, ◌↔◌,
}
use mathlib.Core.List.{append_assoc}
use bachelor_fair_mq.Plugins.{DeviceStateTransition}
use bachelor_fair_mq.Fsm.{Event}
use bachelor_fair_mq.Plugins.Names.{transition_event}
use bachelor_fair_mq.Plugins.Control.{
  Services, controls, Call, change, takes, steals, releases, serve, serve_all, change_device_state,
  take_device_control, steal_device_control, release_device_control, Reply,
}

-- The call cannot end the control of `c`: it is no release by `c` and no steal by another.
abbrev pub Leaves : Text → Call → Type 0
Leaves c (change d t) = Unit {0}
Leaves c (takes d) = Unit {0}
Leaves c (steals d) = d ≡ c
Leaves c (releases d) = d ≢ c

-- The events that the calls of `c` ask for, the newest first.
abbrev pub requests_of : Text → List Call → List Event
requests_of c [] = []
requests_of c (change d t ∷ cs) =
    let rest = requests_of c cs in if text_eq c d then rest ++ transition_event t ∷ [] else rest
requests_of c (_ ∷ cs) = requests_of c cs

serve_controlled :
    (c : Text) (call : Call) (s : Services)
    → s.device_controller ≡ some c
    → Leaves c call
    → (serve call s).1 ≡ record s { requested = requests_of c (call ∷ []) ++ s.requested }
unfolding change_device_state take_device_control steal_device_control release_device_control
serve_controlled c (change d t) s h l = rw h (ground arith)
serve_controlled c (takes d) s h l = rw h (ground arith)
serve_controlled c (steals d) s h l = rw (h, l) refl
serve_controlled c (releases d) s h l = rw h (ground (arith, text_eq_iff c d))

requests_of-append :
    (c : Text) (call : Call) (cs : List Call) (es : List Event)
    → requests_of c cs ++ (requests_of c (call ∷ []) ++ es) ≡ requests_of c (call ∷ cs) ++ es
requests_of-append c (change d t) cs es = elim (Bool-cases (text_eq c d)) [
  | inl e ↦ rw (e, append_assoc (requests_of c cs) (transition_event t ∷ []) es) refl
  | inr e ↦ rw e refl
]
requests_of-append c (takes d) cs es = refl
requests_of-append c (steals d) cs es = refl
requests_of-append c (releases d) cs es = refl

-- While a plugin controls the device, and no call is a release by it or a steal by another plugin,
-- any sequence of calls by any plugins leaves the control with it, and what reaches the device are
-- exactly the events that its own ChangeDeviceState calls ask for, in their order.
pub control_exclusive :
    (c : Text) (cs : List Call) (s : Services)
    → s.device_controller ≡ some c
    → All (Leaves c) cs
    → serve_all cs s ≡ record s { requested = requests_of c cs ++ s.requested }
control_exclusive c [] s h l = refl
control_exclusive c (call ∷ cs) s h (l, ls) = rw (serve_controlled c call s h l) (
    control_exclusive c cs (record s { requested = requests_of c (call ∷ []) ++ s.requested }) h ls
    ∙ rw (requests_of-append c call cs (s.requested)) refl)

-- A call after one that did not throw.
abbrev pub and_then : Reply → (Services → Reply) → Reply
and_then (ok u, s) f = f s
and_then (throws, s) f = (throws, s)
and_then (exits, s) f = (exits, s)

-- ChangeDeviceState is TakeDeviceControl followed, where that did not throw, by the request for the
-- transition's event; where it threw, nothing has changed.
pub change_device_state-take :
    (c : Text) (t : DeviceStateTransition) (s : Services)
    → (change_device_state c t s
        ≡ and_then
            (take_device_control c s)
            (λ u. (ok tt, record u { requested = transition_event t ∷ u.requested })))
      × ((take_device_control c s).0 ≡ throws → change_device_state c t s ≡ (throws, s))
unfolding change_device_state take_device_control
change_device_state-take c t s = ground (arith, text_eq_refl c)

eq_of_controls : (o : Option Text) (c : Text) → controls o c ≡ true → o ≡ some c
eq_of_controls none c h = cc
eq_of_controls (some d) c h = ap some (eq_of_text_eq d c h)

-- ReleaseDeviceControl returns exactly where the plugin controls the device; behind that release,
-- TakeDeviceControl of any plugin returns and gives that plugin the control.
pub release-take :
    (c d : Text) (s : Services)
    → (((release_device_control c s).0 ≡ ok tt) ↔ (s.device_controller ≡ some c))
      × (s.device_controller ≡ some c
          → and_then (release_device_control c s) (take_device_control d)
            ≡ (ok tt, record s { device_controller = some d }))
unfolding release_device_control take_device_control
release-take c d s = (
  ground (arith, eq_of_controls (s.device_controller) c, text_eq_refl c),
  ground (arith, text_eq_refl c),
)
