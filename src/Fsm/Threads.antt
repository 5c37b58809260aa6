-- ===== src/Fsm/Threads.antt =====
-- The threads of a device: one that calls FairMQStateMachine::ChangeState from outside, and the
-- worker of ProcessWork, which runs the handlers and calls ChangeState from inside them
-- (fairmq/FairMQStateMachine.cxx; the wrappers are those of fairmq/FairMQDevice.cxx).
use bachelor_fair_mq.Base.{◌≡◌, ◌≢◌, [], ◌∷◌, Option, none, some, true, false, ok, ◌⊎◌}
use bachelor_fair_mq.Fsm.{
  State, running, paused, Event, internal_device_ready, internal_ready, internal_idle, error_found,
}
use bachelor_fair_mq.Fsm.Table.{Row}
use bachelor_fair_mq.Fsm.Machine.{
  Machine, start, Msm, begin_action, end_action, waits, Handler, init_wrapper, init_task_wrapper,
  run_wrapper, pause_wrapper, reset_task_wrapper, reset_wrapper, exit_handler,
}

-- Who holds fChangeStateMutex.
pub data Holder : Type 0 where
  nobody by_caller by_worker : Holder

-- The outside caller: between calls, at the mutex, or inside the action of a row.
pub data Caller : Type 0 where
  resting : Caller
  calling : Event → Caller
  inside : Row → Caller

-- The worker: at the top of its loop, in a handler, at the mutex for a handler's own event, inside
-- the action of a row, behind the handler's work, or out of its loop.
pub data Worker : Type 0 where
  looking : Worker
  in_handler : Handler → Worker
  at_mutex : Handler → Event → Worker
  in_row : Handler → Row → Worker
  behind : Handler → Worker
  left : Worker

pub record Threads : Type 0 where
  pub machine : Machine
  pub holder : Holder
  pub caller : Caller
  pub worker : Worker

-- The event by which a wrapper of FairMQDevice ends its state.
abbrev pub own_event : Handler → Option Event
own_event init_wrapper = some internal_device_ready
own_event init_task_wrapper = some internal_ready
own_event run_wrapper = some internal_ready
own_event pause_wrapper = none
own_event reset_task_wrapper = some internal_device_ready
own_event reset_wrapper = some internal_idle
own_event exit_handler = none

-- RunWrapper ends its state only where CheckCurrentState(RUNNING) holds, and Pause polls while
-- CheckCurrentState(PAUSED) holds.
abbrev pub May : Handler → State → Type 0
May run_wrapper s = s ≡ running
May _ s = Unit {0}

abbrev pub MayEnd : Handler → State → Type 0
MayEnd run_wrapper s = s ≢ running
MayEnd pause_wrapper s = s ≢ paused
MayEnd exit_handler s = Unit {0}
MayEnd _ s = ⊥

-- InitWrapper, and the polling threads of RunWrapper, may report an error first.
abbrev pub MayRaise : Handler → Type 0
MayRaise init_wrapper = Unit {0}
MayRaise run_wrapper = Unit {0}
MayRaise _ = ⊥

-- Where a handler goes on behind ChangeState: a reported error does not end it.
abbrev pub resume : Handler → Event → Worker
resume h error_found = in_handler h
resume h _ = behind h

abbrev pub initial : Threads
initial = record { machine = start; holder = nobody; caller = resting; worker = looking }

module _ (msm : Msm) where
  pub data Step (t u : Threads) : Type 0 where
    -- ChangeState is called from outside.
    calls : (e : Event) → t.caller ≡ resting → u ≡ record t { caller = calling e } → Step t u
    -- The caller takes the mutex, and the event fires nothing.
    call_ignored :
        (e : Event)
        → t.caller ≡ calling e
        → t.holder ≡ nobody
        → msm.fired t.machine.control t.machine.health e ≡ []
        → u ≡ record t { caller = resting }
        → Step t u
    -- The caller takes the mutex, and runs a row's action up to its wait.
    call_begins :
        (e : Event) (r : Row)
        → t.caller ≡ calling e
        → t.holder ≡ nobody
        → msm.fired t.machine.control t.machine.health e ≡ r ∷ []
        → u ≡ record t { machine = begin_action r t.machine; holder = by_caller; caller = inside r }
        → Step t u
    -- The caller passes the wait, ends the action, and gives the mutex back.
    call_ends :
        (r : Row) (m : Machine)
        → t.caller ≡ inside r
        → (waits r.action ≡ false) ⊎ (t.machine.work_active ≡ false)
        → end_action r t.machine ≡ ok m
        → u ≡ record t { machine = m; holder = nobody; caller = resting }
        → Step t u
    -- ProcessWork finds work.
    takes :
        (h : Handler)
        → t.worker ≡ looking
        → t.machine.worker_terminated ≡ false
        → t.machine.work_available ≡ true
        → t.machine.work ≡ some h
        → u
          ≡ record t { machine = record (t.machine) { work_active = true }; worker = in_handler h }
        → Step t u
    -- ProcessWork finds itself terminated.
    leaves :
        t.worker ≡ looking
        → t.machine.worker_terminated ≡ true
        → u ≡ record t { worker = left }
        → Step t u
    -- The handler has come to its own event, or to its end without one.
    reaches :
        (h : Handler) (e : Event)
        → t.worker ≡ in_handler h
        → own_event h ≡ some e
        → May h t.machine.published
        → u ≡ record t { worker = at_mutex h e }
        → Step t u
    skips :
        (h : Handler)
        → t.worker ≡ in_handler h
        → MayEnd h t.machine.published
        → u ≡ record t { worker = behind h }
        → Step t u
    raises :
        (h : Handler)
        → t.worker ≡ in_handler h
        → MayRaise h
        → u ≡ record t { worker = at_mutex h error_found }
        → Step t u
    -- One round of the loop in Pause.
    polls : t.worker ≡ in_handler pause_wrapper → t.machine.published ≡ paused → u ≡ t → Step t u
    -- ChangeState from inside a handler.
    own_ignored :
        (h : Handler) (e : Event)
        → t.worker ≡ at_mutex h e
        → t.holder ≡ nobody
        → msm.fired t.machine.control t.machine.health e ≡ []
        → u ≡ record t { worker = resume h e }
        → Step t u
    own_begins :
        (h : Handler) (e : Event) (r : Row)
        → t.worker ≡ at_mutex h e
        → t.holder ≡ nobody
        → msm.fired t.machine.control t.machine.health e ≡ r ∷ []
        → u
          ≡ record t { machine = begin_action r t.machine; holder = by_worker; worker = in_row h r }
        → Step t u
    own_ends :
        (h : Handler) (r : Row) (m : Machine)
        → t.worker ≡ in_row h r
        → (waits r.action ≡ false) ⊎ (t.machine.work_active ≡ false)
        → end_action r t.machine ≡ ok m
        → u ≡ record t { machine = m; holder = nobody; worker = resume h r.event }
        → Step t u
    -- ProcessWork clears both flags behind the handler.
    finishes :
        (h : Handler)
        → t.worker ≡ behind h
        → u ≡ record t {
          machine = record (t.machine) { work_active = false; work_available = false };
          worker = looking;
        }
        → Step t u

  pub data Reach (t : Threads) : Threads → Type 0 where
    here : Reach t t
    next : {u v : Threads} → Reach t u → Step u v → Reach t v
