-- ===== src/Fsm/Race.antt =====
-- The race that ends in the deadlock: RunWrapper sees RUNNING, the outside caller begins to leave
-- that state, and then RunWrapper calls ChangeState.
use mathlib.Core.Path.{ap₂}
use bachelor_fair_mq.Base.{◌≡◌, refl, ◌∙◌, [], ◌∷◌, true}
use bachelor_fair_mq.Fsm.{State, running, paused, ready, pause, stop, internal_ready, Event}
use bachelor_fair_mq.Fsm.Table.{Row, default_fct, stop_fct, find_row}
use bachelor_fair_mq.Fsm.Machine.{Msm, run_wrapper, begin_action, waits}
use bachelor_fair_mq.Fsm.Actions.{begin_action-Begun}
use bachelor_fair_mq.Fsm.Threads.{
  nobody, by_caller, resting, inside, in_handler, at_mutex, Threads, Step, calls, call_begins,
  reaches, Reach, here, next,
}
use bachelor_fair_mq.Fsm.Deadlock.{Deadlocked, Deadlocked-stuck}

-- RUNNING, with RunWrapper at work and nobody in ChangeState.
pub record Runs (t : Threads) : Type 0 where
  pub control : t.machine.control ≡ running
  pub health : t.machine.health ≡ State.ok
  pub published : t.machine.published ≡ running
  pub active : t.machine.work_active ≡ true
  pub holder : t.holder ≡ nobody
  pub caller : t.caller ≡ resting
  pub worker : t.worker ≡ in_handler run_wrapper

-- The events by which the outside leaves RUNNING.
pub data Leaves : Event → Row → Type 0 where
  pauses :
      Leaves pause
        (record { source = running; event = pause; target = paused; action = default_fct })
  stops : Leaves stop (record { source = running; event = stop; target = ready; action = stop_fct })

module _ (msm : Msm) where
  Leaves-fired : (e : Event) (r : Row) → Leaves e r → msm.fired running State.ok e ≡ r ∷ []
  unfolding find_row
  Leaves-fired e r pauses = msm.fired_regions running State.ok pause refl
  Leaves-fired e r stops = msm.fired_regions running State.ok stop refl

  Leaves-waits : (e : Event) (r : Row) → Leaves e r → waits r.action ≡ true
  Leaves-waits e r pauses = refl
  Leaves-waits e r stops = refl

  -- From any state in which the device runs, a PAUSE or a STOP from outside can end in the deadlock,
  -- after which nothing can happen.
  pub run_may_deadlock :
      {t : Threads} (e : Event) (r : Row)
      → Leaves e r
      → Runs t
      → (u : Threads) × Reach msm t u × Deadlocked u × ((v : Threads) → ¬ (Step msm u v))
  run_may_deadlock {t} e r l h = (
    _,
    next
        (next (next here (reaches run_wrapper _ h.worker refl h.published refl))
          (calls e h.caller refl))
        (call_begins e r refl h.holder
          (ap₂ (λ a b. msm.fired a b e) h.control h.health ∙ Leaves-fired e r l) refl),
    d,
    λ v. Deadlocked-stuck msm d,
  )
    where
      u : Threads
      u = record t {
        machine = begin_action r t.machine;
        holder = by_caller;
        caller = inside r;
        worker = at_mutex run_wrapper internal_ready;
      }

      d : Deadlocked u
      d = record {
        row = r;
        own = internal_ready;
        handler = run_wrapper;
        caller = refl;
        waiting = Leaves-waits e r l;
        holder = refl;
        active = (begin_action-Begun r t.machine).active ∙ h.active;
        worker = refl;
      }
