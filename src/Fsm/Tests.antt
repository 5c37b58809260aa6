-- ===== src/Fsm/Tests.antt =====
-- A device that is started, and the theorems about it.
use bachelor_fair_mq.Base.{◌≡◌, refl, [], ◌∷◌, inl, inr, true, some, false, ◌⊎◌}
use bachelor_fair_mq.Fsm.{
  State, error, idle, initializing_device, device_ready, initializing_task, ready, running,
  init_device, internal_device_ready, init_task, internal_ready, run, stop, error_found,
}
use bachelor_fair_mq.Fsm.Table.{Row, row, default_fct, stop_fct, automatic_fct, error_found_fct}
use bachelor_fair_mq.Fsm.Machine.{
  start, orthogonal, begin_action, end_action, after_wait, settle, state_changed, unblocked,
  init_wrapper, init_task_wrapper, run_wrapper, state_handlers, Handler,
}
use bachelor_fair_mq.Fsm.Threads.{
  Threads, initial, nobody, by_caller, resting, inside, in_handler, looking, Step, calls,
  call_begins, call_ends, takes, reaches, own_begins, own_ends, finishes, raises, Reach, here, next,
  in_row, by_worker,
}
use bachelor_fair_mq.Fsm.Guarantees.{published_agrees, transition_exclusive}
use bachelor_fair_mq.Fsm.Deadlock.{Deadlocked, Returns, Jams, call_progress}
use bachelor_fair_mq.Fsm.Errors.{error_absorbs}
use bachelor_fair_mq.Fsm.Race.{Runs, stops, run_may_deadlock}

-- At rest in a state, behind a handler.
abbrev at_rest : State → Handler → Threads
at_rest s h = record {
  machine = record {
    control = s;
    health = State.ok;
    published = s;
    work = some h;
    worker_terminated = false;
    work_active = false;
    work_available = false;
    effects = state_changed idle ∷ [];
  };
  holder = nobody;
  caller = resting;
  worker = looking;
}

abbrev device_is_ready : Threads
device_is_ready = at_rest device_ready init_wrapper

to_device_ready : Reach orthogonal initial device_is_ready
unfolding orthogonal start begin_action end_action after_wait settle state_handlers
to_device_ready =
    next
      (next
        (next
          (next
            (next
              (next
                (next (next here (calls init_device refl refl)) (
                  call_begins init_device (row idle init_device initializing_device default_fct)
                    refl refl refl refl))
                (call_ends (row idle init_device initializing_device default_fct) _ refl (inr refl)
                  refl refl))
              (takes init_wrapper refl refl refl refl refl))
            (reaches init_wrapper internal_device_ready refl refl tt refl))
          (own_begins init_wrapper internal_device_ready
            (row initializing_device internal_device_ready device_ready automatic_fct) refl refl
            refl refl))
        (own_ends init_wrapper
          (row initializing_device internal_device_ready device_ready automatic_fct) _ refl
          (inl refl) refl refl))
      (finishes init_wrapper refl refl)

to_ready : Reach orthogonal initial (at_rest ready init_task_wrapper)
unfolding orthogonal start begin_action end_action after_wait settle state_handlers
to_ready =
    next
      (next
        (next
          (next
            (next
              (next
                (next (next to_device_ready (calls init_task refl refl)) (
                  call_begins init_task (row device_ready init_task initializing_task default_fct)
                    refl refl refl refl))
                (call_ends (row device_ready init_task initializing_task default_fct) _ refl
                  (inr refl) refl refl))
              (takes init_task_wrapper refl refl refl refl refl))
            (reaches init_task_wrapper internal_ready refl refl tt refl))
          (own_begins init_task_wrapper internal_ready
            (row initializing_task internal_ready ready automatic_fct) refl refl refl refl))
        (own_ends init_task_wrapper (row initializing_task internal_ready ready automatic_fct) _
          refl (inl refl) refl refl))
      (finishes init_task_wrapper refl refl)

-- RUNNING, with RunWrapper at work.
abbrev is_running : Threads
is_running = record {
  machine = record (at_rest running run_wrapper).machine {
    work_active = true;
    work_available = true;
  };
  holder = nobody;
  caller = resting;
  worker = in_handler run_wrapper;
}

to_running : Reach orthogonal initial is_running
unfolding orthogonal start begin_action end_action after_wait settle state_handlers
to_running =
    next
      (next
        (next (next to_ready (calls run refl refl))
          (call_begins run (row ready run running default_fct) refl refl refl refl))
        (call_ends (row ready run running default_fct) _ refl (inr refl) refl refl))
      (takes run_wrapper refl refl refl refl refl)

is_running-Runs : Runs is_running
is_running-Runs = record {
  control = refl;
  health = refl;
  published = refl;
  active = refl;
  holder = refl;
  caller = refl;
  worker = refl;
}

-- A STOP that has begun while RunWrapper is at work.
abbrev stopping : Row
stopping = record { source = running; event = stop; target = ready; action = stop_fct }

abbrev is_stopping : Threads
is_stopping = record {
  machine = record (is_running.machine) {
    published = ready;
    effects = unblocked ∷ state_changed idle ∷ [];
  };
  holder = by_caller;
  caller = inside stopping;
  worker = in_handler run_wrapper;
}

to_stopping : Reach orthogonal initial is_stopping
unfolding orthogonal begin_action
to_stopping =
    next (next to_running (calls stop refl refl)) (call_begins stop stopping refl refl refl refl)

-- An error that the worker reports from RUNNING.
abbrev has_failed : Threads
has_failed = record {
  machine = record (is_running.machine) {
    health = error;
    published = error;
    effects = state_changed error ∷ state_changed idle ∷ [];
  };
  holder = nobody;
  caller = resting;
  worker = in_handler run_wrapper;
}

to_failed : Reach orthogonal initial has_failed
unfolding orthogonal begin_action end_action after_wait settle
to_failed =
    next
      (next (next to_running (raises run_wrapper refl tt refl)) (
        own_begins run_wrapper error_found (row State.ok error_found error error_found_fct) refl
          refl refl refl))
      (own_ends run_wrapper (row State.ok error_found error error_found_fct) _ refl (inl refl) refl
        refl)

published_agrees_example : is_running.machine.published ≡ running
published_agrees_example = published_agrees orthogonal to_running refl

transition_exclusive_example :
    ((r : Row) → is_stopping.caller ≡ inside r → is_stopping.holder ≡ by_caller)
    × ((h : Handler) (r : Row) → is_stopping.worker ≡ in_row h r → is_stopping.holder ≡ by_worker)
    × ((r q : Row) (h : Handler)
        → is_stopping.caller ≡ inside r
        → ¬ (is_stopping.worker ≡ in_row h q))
transition_exclusive_example = transition_exclusive orthogonal to_stopping

call_progress_example : Returns orthogonal is_stopping ⊎ Jams orthogonal is_stopping
call_progress_example = call_progress orthogonal to_stopping (λ e. cc)

run_may_deadlock_example :
    (u : Threads) × Reach orthogonal is_running u
    × Deadlocked u
    × ((v : Threads) → ¬ (Step orthogonal u v))
run_may_deadlock_example = run_may_deadlock orthogonal stop stopping stops is_running-Runs

error_absorbs_example :
    (has_failed.machine.published ≡ error) × (has_failed.machine.control ≡ running)
error_absorbs_example = error_absorbs orthogonal to_failed refl here
