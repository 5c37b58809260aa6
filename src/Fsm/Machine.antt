-- ===== src/Fsm/Machine.antt =====
-- Machine_ of fairmq/FairMQStateMachine.cxx: its fields, the actions of its rows, and boost::msm,
-- which chooses the rows, as a parameter.
use bachelor_fair_mq.Base.{
  ◌≡◌, List, [], ◌∷◌, ◌++◌, Option, none, some, Bool, true, false, ◌||◌, Outcome, ok, ◌>>=◌,
  or_throw, if◌then◌else◌,
}
use bachelor_fair_mq.Fsm.{
  State, error, idle, exiting, Event, init_device, init_task, run, pause, reset_task, reset_device,
  end, state_eq,
}
use bachelor_fair_mq.Fsm.Table.{
  Action, automatic_fct, default_fct, stop_fct, internal_stop_fct, exiting_fct, error_found_fct,
  Row, transition_table, is_terminate, find_row,
}

-- The virtual functions that fStateHandlers is filled with.
pub data Handler : Type 0 where
  init_wrapper init_task_wrapper run_wrapper pause_wrapper reset_task_wrapper : Handler
  reset_wrapper exit_handler : Handler

-- What the machine calls outside itself.
pub data Effect : Type 0 where
  state_changed : State → Effect
  unblocked : Effect
  handled : Handler → Effect

-- `control` and `health` are the active states of the two regions; `published` is fState; `effects`
-- has the newest call first.
pub record Machine : Type 0 where
  pub control : State
  pub health : State
  pub published : State
  pub work : Option Handler
  pub worker_terminated : Bool
  pub work_active : Bool
  pub work_available : Bool
  pub effects : List Effect

-- The constructor, with the states that `initial_state` lists, and `on_entry`.
unfoldable pub start : Machine
start = record {
  control = idle;
  health = State.ok;
  published = idle;
  work = none;
  worker_terminated = false;
  work_active = false;
  work_available = false;
  effects = state_changed idle ∷ [];
}

-- fStateHandlers, filled by the constructor of FairMQStateMachine.
unfoldable pub state_handlers : Event → Option Handler
state_handlers init_device = some init_wrapper
state_handlers init_task = some init_task_wrapper
state_handlers run = some run_wrapper
state_handlers pause = some pause_wrapper
state_handlers reset_task = some reset_task_wrapper
state_handlers reset_device = some reset_wrapper
state_handlers end = some exit_handler
state_handlers _ = none

-- DefaultFct and StopFct wait until the worker is idle.
abbrev pub waits : Action → Bool
waits default_fct = true
waits stop_fct = true
waits _ = false

-- An action up to its wait, or to its end.
before_wait : Action → State → Machine → Machine
before_wait automatic_fct target m = record m { published = target }
before_wait default_fct target m = record m { published = target }
before_wait stop_fct target m = record m { published = target; effects = unblocked ∷ m.effects }
before_wait internal_stop_fct target m = record m {
  published = target;
  effects = unblocked ∷ m.effects;
}
before_wait exiting_fct target m = record m {
  published = target;
  worker_terminated = true;
  effects = state_changed exiting ∷ m.effects;
}
before_wait error_found_fct target m = record m {
  published = target;
  effects = state_changed error ∷ m.effects;
}

unfoldable pub begin_action : Row → Machine → Machine
unfolding before_wait
begin_action r m = before_wait r.action r.target m

-- The rest of an action; `fStateHandlers.at` throws where there is no handler.
unfoldable pub after_wait : Action → Event → Machine → Outcome Machine
after_wait default_fct e m = do
  h ← or_throw (state_handlers e)
  ok (record m { work_available = true; work = some h })
after_wait exiting_fct e m = do
  h ← or_throw (state_handlers e)
  ok (record m { effects = handled h ∷ m.effects })
after_wait _ e m = ok m

-- The region that the row belongs to takes on the row's target.
unfoldable pub settle : Row → Machine → Machine
settle r m =
    if state_eq r.source State.ok
    then record m { health = r.target }
    else record m { control = r.target }

unfoldable pub end_action : Row → Machine → Outcome Machine
end_action r m = do m' ← after_wait r.action r.event m; ok (settle r m')

-- A row as a list of at most one.
abbrev pub row_of : State → Event → List Row
row_of s e = elim (find_row transition_table s e) [ none ↦ [] | some r ↦ r ∷ [] ]

-- boost::msm: the rows whose actions an event runs, in two regions. In a `terminate_state` it takes
-- no event; else each region takes its row for the event, if it has one.
pub record Msm : Type 0 where
  pub fired : State → State → Event → List Row
  pub fired_terminated :
      (a b : State) (e : Event) → (is_terminate a || is_terminate b) ≡ true → fired a b e ≡ []
  pub fired_regions :
      (a b : State) (e : Event)
      → (is_terminate a || is_terminate b) ≡ false
      → fired a b e ≡ row_of a e ++ row_of b e

-- A value of the interface.
two_regions : State → State → Event → List Row
two_regions a b e = if is_terminate a || is_terminate b then [] else row_of a e ++ row_of b e

two_regions_terminated :
    (a b : State) (e : Event) → (is_terminate a || is_terminate b) ≡ true → two_regions a b e ≡ []
unfolding two_regions
two_regions_terminated a b e h = rw h

two_regions_open :
    (a b : State) (e : Event)
    → (is_terminate a || is_terminate b) ≡ false
    → two_regions a b e ≡ row_of a e ++ row_of b e
unfolding two_regions
two_regions_open a b e h = rw h

unfoldable pub orthogonal : Msm
unfolding two_regions two_regions_terminated two_regions_open find_row
orthogonal = record {
  fired = two_regions;
  fired_terminated = two_regions_terminated;
  fired_regions = two_regions_open;
}
