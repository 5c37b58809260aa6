-- ===== src/Fsm/Table.antt =====
-- The transition table of the state machine, and the states that end it.
use bachelor_fair_mq.Base.{
  List, [], ◌∷◌, Option, none, some, Bool, true, false, ◌&&◌, if◌then◌else◌,
}
use bachelor_fair_mq.Fsm.{
  State, error, idle, initializing_device, device_ready, initializing_task, ready, running, paused,
  resetting_task, resetting_device, exiting, Event, init_device, internal_device_ready, init_task,
  internal_ready, run, pause, stop, reset_task, reset_device, internal_idle, end, error_found,
  state_eq, event_eq,
}

-- AutomaticFct, DefaultFct, StopFct, InternalStopFct, ExitingFct, ErrorFoundFct. No row names PauseFct.
pub data Action : Type 0 where
  automatic_fct default_fct stop_fct internal_stop_fct exiting_fct error_found_fct : Action

pub record Row : Type 0 where
  pub source : State
  pub event : Event
  pub target : State
  pub action : Action

abbrev pub row : State → Event → State → Action → Row
row s e t a = record { source = s; event = e; target = t; action = a }

abbrev pub transition_table : List Row
transition_table =
    row idle init_device initializing_device default_fct
    ∷ row idle end exiting exiting_fct
    ∷ row initializing_device internal_device_ready device_ready automatic_fct
    ∷ row device_ready init_task initializing_task default_fct
    ∷ row device_ready reset_device resetting_device default_fct
    ∷ row initializing_task internal_ready ready automatic_fct
    ∷ row ready run running default_fct
    ∷ row ready reset_task resetting_task default_fct
    ∷ row running pause paused default_fct
    ∷ row running stop ready stop_fct
    ∷ row running internal_ready ready internal_stop_fct
    ∷ row paused run running default_fct
    ∷ row resetting_task internal_device_ready device_ready automatic_fct
    ∷ row resetting_device internal_idle idle automatic_fct
    ∷ row State.ok error_found error error_found_fct
    ∷ []

-- ERROR_FSM_STATE is a `terminate_state`.
abbrev pub is_terminate : State → Bool
is_terminate error = true
is_terminate _ = false

-- The first row of a state for an event.
unfoldable pub find_row : List Row → State → Event → Option Row
find_row [] s e = none
find_row (r ∷ rs) s e =
    if state_eq r.source s && event_eq r.event e then some r else find_row rs s e
