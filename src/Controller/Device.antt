-- ===== src/Controller/Device.antt =====
-- A device as the control plugin meets it: what a request for an event makes of its state, and which
-- states it reports to the subscribers, by the tables of fairmq/FairMQStateMachine.cxx, ProcessWork
-- there, and the wrappers of fairmq/FairMQDevice.cxx. A request is taken when the device has come to
-- rest from the one before.
use bachelor_fair_mq.Base.{List, [], ◌∷◌, ◌++◌, Option, none, some, Bool, true, false}
use bachelor_fair_mq.Fsm.{State, running, paused, Event, internal_ready}
use bachelor_fair_mq.Fsm.Table.{
  Row, automatic_fct, default_fct, stop_fct, internal_stop_fct, exiting_fct, error_found_fct,
  transition_table, find_row,
}
use bachelor_fair_mq.Fsm.Machine.{Handler, run_wrapper, state_handlers}
use bachelor_fair_mq.Fsm.Threads.{own_event}

-- The state at rest, and the reports on the way, the oldest first.
pub record Reaction : Type 0 where
  pub state : State
  pub reports : List State

-- The row for an event, if there is one, and what it makes of the state.
abbrev pub target_of : State → Event → State
target_of s e = elim (find_row transition_table s e) [ none ↦ s | some r ↦ r.target ]

-- The event by which a handler ends its state. RunWrapper has one only where Run returns by itself.
abbrev pub ending_event : Bool → Handler → Option Event
ending_event run_returns run_wrapper = elim run_returns [
  | true ↦ some internal_ready
  | false ↦ none
]
ending_event run_returns h = own_event h

-- The wrapper reports the state it was started for; behind it, ProcessWork reports the state that
-- the wrapper's own event led to.
abbrev pub handle : Bool → State → Option Handler → Reaction
handle run_returns s none = record { state = s; reports = s ∷ [] }
handle run_returns s (some h) = elim (ending_event run_returns h) [
  | none ↦ record { state = s; reports = s ∷ [] }
  | some e ↦ record { state = target_of s e; reports = s ∷ target_of s e ∷ [] }
]

-- A handler that waits for a change of the state, in RUNNING or PAUSED, ends with the row's action,
-- and ProcessWork reports the new state.
abbrev pub left_behind : State → State → List State
left_behind running target = target ∷ []
left_behind paused target = target ∷ []
left_behind _ target = []

abbrev pub perform : Bool → Event → Row → Reaction
perform run_returns e r =
    let after = handle run_returns r.target (state_handlers e) in
    elim (r.action) [
      | default_fct ↦ record {
        state = after.state;
        reports = left_behind r.source r.target ++ after.reports;
      }
      | stop_fct ↦ record { state = r.target; reports = left_behind r.source r.target }
      | internal_stop_fct ↦ record { state = r.target; reports = left_behind r.source r.target }
      | automatic_fct ↦ record { state = r.target; reports = [] }
      | exiting_fct ↦ record { state = r.target; reports = r.target ∷ [] }
      | error_found_fct ↦ record { state = r.target; reports = r.target ∷ [] }
    ]

-- An event that fires no row is ignored.
unfoldable pub react : Bool → State → Event → Reaction
unfolding find_row state_handlers
react run_returns s e = elim (find_row transition_table s e) [
  | none ↦ record { state = s; reports = [] }
  | some r ↦ perform run_returns e r
]
