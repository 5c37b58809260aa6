-- ===== src/Fsm/Guarantees.antt =====
-- ChangeState and ProcessWork in the interleavings (fairmq/FairMQStateMachine.cxx).
use bachelor_fair_mq.Base.{◌≡◌, ◌⊎◌, inl, inr, some, true, ok, if◌then◌else◌, arith}
use bachelor_fair_mq.Fsm.{State, error, state_eq}
use bachelor_fair_mq.Fsm.Table.{Row}
use bachelor_fair_mq.Fsm.Machine.{Machine, Msm, end_action, Handler}
use bachelor_fair_mq.Fsm.Rows.{Fits}
use bachelor_fair_mq.Fsm.Threads.{
  nobody, by_caller, by_worker, inside, in_row, Threads, initial, Reach,
}
use bachelor_fair_mq.Fsm.Invariant.{Flight}
use bachelor_fair_mq.Fsm.Interleavings.{reached-Inv}
use bachelor_fair_mq.Fsm.Actions.{end_action_ok}

Flight-ends : (m : Machine) (r : Row) → Flight m r → (n : Machine) × (end_action r m ≡ ok n)
Flight-ends m r f = go f.fits.1
  where
    go :
        (Fits m.control f.fits.0 r) ⊎ (Fits State.ok f.fits.0 r)
        → (n : Machine) × (end_action r m ≡ ok n)
    go (inl g) = end_action_ok m.control f.fits.0 r m g
    go (inr g) = end_action_ok State.ok f.fits.0 r m g

module _ (msm : Msm) where
  -- Whenever no call is inside a transition, the state that other threads read is the active state
  -- of the machine, or the error state once an error was reported.
  pub published_agrees :
      {t : Threads}
      → Reach msm initial t
      → t.holder ≡ nobody
      → t.machine.published ≡ (if state_eq t.machine.health error then error else t.machine.control)
  published_agrees r n = (reached-Inv msm r).settled n

  -- The outside caller and the worker are never both inside the action of a row, and each that is
  -- inside one holds the mutex.
  pub transition_exclusive :
      {t : Threads}
      → Reach msm initial t
      → ((r : Row) → t.caller ≡ inside r → t.holder ≡ by_caller)
        × ((h : Handler) (r : Row) → t.worker ≡ in_row h r → t.holder ≡ by_worker)
        × ((r q : Row) (h : Handler) → t.caller ≡ inside r → ¬ (t.worker ≡ in_row h q))
  transition_exclusive r =
      let v = reached-Inv msm r in
      (
        λ q p. ground (arith, v.caller_holds),
        λ h q p. ground (arith, v.worker_holds),
        λ q q' h p p'. ground (arith, v.caller_holds, v.worker_holds),
      )

  -- A transition that has begun never fails for want of a handler: once its wait is over, its action
  -- ends, whoever runs it.
  pub transition_ends :
      {t : Threads}
      → Reach msm initial t
      → ((r : Row) → t.caller ≡ inside r → (m : Machine) × (end_action r t.machine ≡ ok m))
        × ((h : Handler) (r : Row)
            → t.worker ≡ in_row h r
            → (m : Machine) × (end_action r t.machine ≡ ok m))
  transition_ends {t} r =
      let v = reached-Inv msm r in
      (
        λ q p. Flight-ends t.machine q (v.caller_row q p),
        λ h q p. Flight-ends t.machine q (v.worker_row h q p),
      )

  -- Work that is announced to the worker is there: it never calls an empty fWork.
  pub available_work :
      {t : Threads}
      → Reach msm initial t
      → t.machine.work_available ≡ true
      → (h : Handler) × (t.machine.work ≡ some h)
  available_work r a = (reached-Inv msm r).sane.work a
