-- ===== src/Controller/Shutdown.antt =====
-- RunShutdownSequence and the reports that are in the queue while it runs
-- (fairmq/plugins/Control.cxx).
use mathlib.Core.List.{append-nil}
use bachelor_fair_mq.Base.{
  ℕ, zero, suc, ◌+◌, ◌≤◌, ◌≡◌, ◌≢◌, refl, sym, ap, ◌∙◌, subst, inl, inr, List, [], ◌∷◌, ◌++◌, map,
  Bool, length-append, arith,
}
use bachelor_fair_mq.Fsm.{State, exiting}
use bachelor_fair_mq.Plugins.{DeviceState}
use bachelor_fair_mq.Plugins.Names.{device_state}
use bachelor_fair_mq.Controller.Device.{Reaction}
use bachelor_fair_mq.Controller.Sequences.{
  World, Ending, finished, serve_state, wait_for_next_state, shutdown_loop, run_shutdown_sequence,
}
use bachelor_fair_mq.Controller.Moves.{
  AtRest, at_idle, at_device_ready, at_ready, at_running, at_paused, at_exiting, Ordinary, EndsIn,
  pauses, rounds, Moves, reaction, rest_moves, answer,
}

abbrev queued : List DeviceState → Reaction → World
queued q r = record { device = r.state; events = q ++ map device_state (r.reports) }

serve_state-reaction :
    (rr : Bool) (d : State) (s : DeviceState) (q : List DeviceState)
    → serve_state rr s (record { device = d; events = q }) ≡ queued q (reaction rr d s)
serve_state-reaction rr d s q = ground (arith, append-nil q)

EndsIn-append :
    (d d' : State) (x y : DeviceState) (q ys : List DeviceState)
    → EndsIn d x q
    → Ordinary (device_state d)
    → EndsIn d' y ys
    → EndsIn d' x (q ++ y ∷ ys)
EndsIn-append d d' x y [] ys e o e' = (subst Ordinary (sym e) o, e')
EndsIn-append d d' x y (z ∷ q) ys (o', e) o e' = (o', EndsIn-append d d' z y q ys e o e')

pauses-append : (q ys : List DeviceState) → pauses (q ++ ys) ≡ pauses q + pauses ys
pauses-append [] ys = omega arith
pauses-append (s ∷ q) ys = omega (arith, pauses-append q ys)

-- The front of such a queue is taken off.
next_report :
    (d : State) (x : DeviceState) (q : List DeviceState) (k : DeviceState → World → Ending)
    → AtRest d
    → EndsIn d x q
    → wait_for_next_state (record { device = d; events = x ∷ q }) k
      ≡ k x (record { device = d; events = q })
next_report d DeviceState.error [] k a e = absurd (not_error d a e)
  where
    not_error : (d : State) → AtRest d → DeviceState.error ≢ device_state d
    not_error _ at_idle e = cc
    not_error _ at_device_ready e = cc
    not_error _ at_ready e = cc
    not_error _ at_running e = cc
    not_error _ at_paused e = cc
    not_error _ at_exiting e = cc
next_report d DeviceState.error (y ∷ q) k a (o, e) = absurd o
next_report d _ q k a e = refl

loop_step :
    (rr : Bool) (fuel : ℕ) (s : DeviceState) (w : World)
    → Ordinary s
    → shutdown_loop rr (suc fuel) s w
      ≡ wait_for_next_state (serve_state rr s w) (shutdown_loop rr fuel)
unfolding shutdown_loop
loop_step rr fuel DeviceState.exiting w o = absurd o
loop_step rr fuel DeviceState.error w o = absurd o
loop_step rr fuel _ w o = refl

abbrev Finishes : Bool → ℕ → Type 0
Finishes rr fuel =
    (d : State) (s : DeviceState) (q : List DeviceState)
    → AtRest d
    → EndsIn d s q
    → rounds d s q ≤ fuel
    → shutdown_loop rr fuel s (record { device = d; events = q })
      ≡ finished (record { device = exiting; events = [] })

-- A round whose request moves the device on.
round_moves :
    (rr : Bool) (fuel : ℕ) (d : State) (s : DeviceState) (q : List DeviceState)
    → Finishes rr fuel
    → Ordinary s
    → Moves d s (reaction rr d s)
    → (x : DeviceState) (q' : List DeviceState)
    → q ++ map device_state (reaction rr d s).reports ≡ x ∷ q'
    → EndsIn (reaction rr d s).state x q'
    → rounds (reaction rr d s).state x q' ≤ fuel
    → shutdown_loop rr (suc fuel) s (record { device = d; events = q })
      ≡ finished (record { device = exiting; events = [] })
round_moves rr fuel d s q ih o m x q' e ends f =
    loop_step rr fuel s _ o
    ∙ ap (λ w. wait_for_next_state w (shutdown_loop rr fuel))
        (serve_state-reaction rr d s q
          ∙ ap (λ es. record { device = (reaction rr d s).state; events = es }) e)
    ∙ next_report _ x q' (shutdown_loop rr fuel) (m.rest) ends
    ∙ ih _ x q' (m.rest) ends f

-- The queue is empty, and the device rests in the state that the loop looks at.
moves_last :
    (rr : Bool) (fuel : ℕ) (d : State)
    → Finishes rr fuel
    → Moves d (device_state d) (reaction rr d (device_state d))
    → rounds d (device_state d) [] ≤ suc fuel
    → shutdown_loop rr (suc fuel) (device_state d) (record { device = d; events = [] })
      ≡ finished (record { device = exiting; events = [] })
moves_last rr fuel d ih m f =
    round_moves rr fuel d (device_state d) [] ih (m.was) m (device_state (m.first))
      (map device_state (m.more)) (ap (map device_state) (m.reported)) (m.ends)
      (omega (arith, f, m.cheaper))

last_round :
    (rr : Bool) (fuel : ℕ) (d : State)
    → Finishes rr fuel
    → AtRest d
    → rounds d (device_state d) [] ≤ suc fuel
    → shutdown_loop rr (suc fuel) (device_state d) (record { device = d; events = [] })
      ≡ finished (record { device = exiting; events = [] })
last_round rr fuel _ ih at_idle f = moves_last rr fuel _ ih (rest_moves rr _ at_idle (λ h. cc)) f
last_round rr fuel _ ih at_device_ready f =
    moves_last rr fuel _ ih (rest_moves rr _ at_device_ready (λ h. cc)) f
last_round rr fuel _ ih at_ready f = moves_last rr fuel _ ih (rest_moves rr _ at_ready (λ h. cc)) f
last_round rr fuel _ ih at_running f =
    moves_last rr fuel _ ih (rest_moves rr _ at_running (λ h. cc)) f
last_round rr fuel _ ih at_paused f =
    moves_last rr fuel _ ih (rest_moves rr _ at_paused (λ h. cc)) f
last_round rr fuel _ ih at_exiting f = unfold shutdown_loop in refl

shutdown_loop-Finishes : (rr : Bool) (fuel : ℕ) → Finishes rr fuel
shutdown_loop-Finishes rr zero d s q a e f = absurd (omega (arith, f))
shutdown_loop-Finishes rr (suc fuel) d s [] a e f =
    rw e (last_round rr fuel d (shutdown_loop-Finishes rr fuel) a (rw e at f))
shutdown_loop-Finishes rr (suc fuel) d s (x ∷ q) a (o, e) f = elim (answer rr d s a) [
  | inl r ↦
      loop_step rr fuel s _ o
      ∙ ap (λ w. wait_for_next_state w (shutdown_loop rr fuel))
          (serve_state-reaction rr d s (x ∷ q)
            ∙ ap (queued (x ∷ q)) r
            ∙ ap (λ es. record { device = d; events = es }) (append-nil (x ∷ q)))
      ∙ next_report d x q (shutdown_loop rr fuel) a e
      ∙ shutdown_loop-Finishes rr fuel d x q a e (omega (arith, f))
  | inr m ↦
      round_moves rr fuel d s (x ∷ q) (shutdown_loop-Finishes rr fuel) o m x
        (q ++ map device_state (m.first ∷ m.more))
        (ap (λ rs. x ∷ q ++ map device_state rs) (m.reported))
        (EndsIn-append d _ x _ q _ e (m.was) (m.ends))
        (omega (
          arith,
          f,
          m.cheaper,
          length-append q (map device_state (m.first ∷ m.more)),
          pauses-append q (map device_state (m.first ∷ m.more)),
        ))
]

-- The loop of RunShutdownSequence ends with the device in EXITING also where reports of other states
-- than ERROR and EXITING are still to come, as long as the last of them is the state that the device
-- rests in: as many rounds as `rounds` says suffice.
pub shutdown_loop-finished :
    (run_returns : Bool) (d : State) (s : DeviceState) (events : List DeviceState)
    → AtRest d
    → EndsIn d s events
    → shutdown_loop run_returns (rounds d s events) s (record { device = d; events = events })
      ≡ finished (record { device = exiting; events = [] })
shutdown_loop-finished rr d s events a e =
    shutdown_loop-Finishes rr (rounds d s events) d s events a e (omega arith)

-- RunShutdownSequence finishes where the device rests all the while.
pub run_shutdown_sequence-finished :
    (run_returns : Bool) (read emptied : World) (fuel : ℕ)
    → AtRest (read.device)
    → read.device ≡ emptied.device
    → rounds (read.device) (device_state (read.device)) [] ≤ fuel
    → run_shutdown_sequence run_returns fuel read emptied
      ≡ finished (record { device = exiting; events = [] })
unfolding run_shutdown_sequence
run_shutdown_sequence-finished rr read emptied fuel a e f =
    subst
      (λ d.
        shutdown_loop rr fuel (device_state (read.device)) (record { device = d; events = [] })
        ≡ finished (record { device = exiting; events = [] }))
      e (shutdown_loop-Finishes rr fuel _ _ [] a refl f)
