-- ===== src/Fsm.antt =====
-- FairMQStateMachine (fairmq/FairMQStateMachine.h and .cxx): the states and the events, with the
-- numbers that the enumerations give them.
pub mod Names
pub mod Table
pub mod Machine
pub mod Rows
pub mod Actions
pub mod Threads
pub mod Invariant
pub mod Interleavings
pub mod Guarantees
pub mod Own
pub mod Pausing
pub mod Deadlock
pub mod Errors
pub mod Race
mod Tests
use bachelor_fair_mq.Base.{Bool, ◌==◌, ℕ, List, [], ◌∷◌, Option, some, get_elem?, ◌≡◌, refl}

pub data State : Type 0 where
  ok error idle initializing_device device_ready initializing_task ready running paused : State
  resetting_task resetting_device exiting : State

pub data Event : Type 0 where
  init_device internal_device_ready init_task internal_ready run pause stop reset_task : Event
  reset_device internal_idle end error_found : Event

abbrev pub states : List State
states =
    ok ∷ error ∷ idle ∷ initializing_device ∷ device_ready ∷ initializing_task ∷ ready ∷ running
    ∷ paused ∷ resetting_task ∷ resetting_device ∷ exiting ∷ []

abbrev pub events : List Event
events =
    init_device ∷ internal_device_ready ∷ init_task ∷ internal_ready ∷ run ∷ pause ∷ stop
    ∷ reset_task ∷ reset_device ∷ internal_idle ∷ end ∷ error_found ∷ []

-- The value of an enumerator.
abbrev pub state_number : State → ℕ
state_number ok = 0
state_number error = 1
state_number idle = 2
state_number initializing_device = 3
state_number device_ready = 4
state_number initializing_task = 5
state_number ready = 6
state_number running = 7
state_number paused = 8
state_number resetting_task = 9
state_number resetting_device = 10
state_number exiting = 11

abbrev pub event_number : Event → ℕ
event_number init_device = 0
event_number internal_device_ready = 1
event_number init_task = 2
event_number internal_ready = 3
event_number run = 4
event_number pause = 5
event_number stop = 6
event_number reset_task = 7
event_number reset_device = 8
event_number internal_idle = 9
event_number end = 10
event_number error_found = 11

-- `==` on the enumerations.
abbrev pub state_eq : State → State → Bool
state_eq s t = state_number s == state_number t

abbrev pub event_eq : Event → Event → Bool
event_eq e f = event_number e == event_number f
