-- ===== src/Fsm/Deadlock.antt =====
-- ChangeState waits for the worker with fChangeStateMutex held, and the worker may wait for that
-- mutex inside its handler (fairmq/FairMQStateMachine.cxx, FairMQDevice.cxx).
use bachelor_fair_mq.Base.{
  ◌≡◌, ◌≢◌, ◌⊎◌, inl, inr, refl, subst, ap, ◌∙◌, ◌∷◌, [], some, true, false, arith, Bool-cases,
}
use bachelor_fair_mq.Fsm.{State, running, Event, state_eq}
use bachelor_fair_mq.Fsm.Table.{Row}
use bachelor_fair_mq.Fsm.Machine.{
  Msm, init_wrapper, init_task_wrapper, run_wrapper, pause_wrapper, reset_task_wrapper,
  reset_wrapper, exit_handler, Handler, waits,
}
use bachelor_fair_mq.Fsm.Rows.{Fires, nothing, of_control, of_health, fired-Fires}
use bachelor_fair_mq.Fsm.Threads.{
  Holder, nobody, by_caller, by_worker, Caller, resting, calling, inside, Worker, looking,
  in_handler, at_mutex, in_row, behind, left, Threads, initial, Step, calls, call_ignored,
  call_begins, call_ends, takes, leaves, reaches, skips, raises, polls, own_ignored, own_begins,
  own_ends, finishes, Reach, here, next, own_event, May, MayEnd,
}
use bachelor_fair_mq.Fsm.Invariant.{Inv, is_busy}
use bachelor_fair_mq.Fsm.Interleavings.{reached-Inv}
use bachelor_fair_mq.Fsm.Own.{IsOwn, reached-IsOwn}
use bachelor_fair_mq.Fsm.Guarantees.{transition_ends, transition_exclusive}
use bachelor_fair_mq.Fsm.Pausing.{waited_pause}

-- The caller waits in an action for the worker, which waits for the mutex that the caller holds.
pub record Deadlocked (t : Threads) : Type 0 where
  pub row : Row
  pub own : Event
  pub handler : Handler
  pub caller : t.caller ≡ inside row
  pub waiting : waits row.action ≡ true
  pub holder : t.holder ≡ by_caller
  pub active : t.machine.work_active ≡ true
  pub worker : t.worker ≡ at_mutex handler own

running_eq : (s : State) → state_eq s running ≡ true → s ≡ running
running_eq s h = ground arith

running_ne : (s : State) → state_eq s running ≡ false → s ≢ running
running_ne s h e = ground arith

module _ (msm : Msm) where
  first_step : {t u v : Threads} → Step msm t u → Reach msm u v → Reach msm t v
  first_step s here = next here s
  first_step s (next r z) = next (first_step s r) z

  -- Nothing can happen any more.
  pub Deadlocked-stuck : {t u : Threads} → Deadlocked t → ¬ (Step msm t u)
  Deadlocked-stuck d (calls e c p) = absurd (cc (c, d.caller))
  Deadlocked-stuck d (call_ignored e c n f p) = absurd (cc (c, d.caller))
  Deadlocked-stuck d (call_begins e r c n f p) = absurd (cc (c, d.caller))
  Deadlocked-stuck d (call_ends r m c w q p) = ground (arith, d.caller, d.waiting, d.active)
  Deadlocked-stuck d (takes h w n a k p) = absurd (cc (w, d.worker))
  Deadlocked-stuck d (leaves w n p) = absurd (cc (w, d.worker))
  Deadlocked-stuck d (reaches h e w o y p) = absurd (cc (w, d.worker))
  Deadlocked-stuck d (skips h w y p) = absurd (cc (w, d.worker))
  Deadlocked-stuck d (raises h w y p) = absurd (cc (w, d.worker))
  Deadlocked-stuck d (polls w y p) = absurd (cc (w, d.worker))
  Deadlocked-stuck d (own_ignored h e w n f p) = absurd (cc (n, d.holder))
  Deadlocked-stuck d (own_begins h e r w n f p) = absurd (cc (n, d.holder))
  Deadlocked-stuck d (own_ends h r m w y q p) = absurd (cc (w, d.worker))
  Deadlocked-stuck d (finishes h w p) = absurd (cc (w, d.worker))

  -- Steps by which the caller comes to rest: its call returns.
  abbrev pub Returns : Threads → Type 0
  Returns t = (u : Threads) × Reach msm t u × (u.caller ≡ resting)

  -- Steps by which the call and the worker come to wait for each other for ever.
  abbrev pub Jams : Threads → Type 0
  Jams t = (u : Threads) × Reach msm t u × Deadlocked u × ((v : Threads) → ¬ (Step msm u v))

  after_step : {t u : Threads} → Step msm t u → Returns u ⊎ Jams u → Returns t ⊎ Jams t
  after_step s (inl (u, r, p)) = inl (u, first_step s r, p)
  after_step s (inr (u, r, d, n)) = inr (u, first_step s r, d, n)

  -- The wait is over, or there was none.
  passes :
      {t : Threads} (q : Row)
      → Reach msm initial t
      → t.caller ≡ inside q
      → (waits q.action ≡ false) ⊎ (t.machine.work_active ≡ false)
      → Returns t
  passes {t} q r c y =
      let (m, k) = (transition_ends msm r).0 q c in (_, next here (call_ends q m c y k refl), refl)

  -- ProcessWork clears fWorkActive behind the handler, and the caller passes its wait.
  behind-Returns :
      {t : Threads} (q : Row) (h : Handler)
      → Reach msm initial t
      → t.caller ≡ inside q
      → t.worker ≡ behind h
      → Returns t
  behind-Returns {t} q h r c w =
      let s : Step msm t _ = finishes h w refl in
      let (u, later, p) = passes q (next r s) c (inr refl) in (u, first_step s later, p)

  skipped-Returns :
      {t : Threads} (q : Row) (h : Handler)
      → Reach msm initial t
      → t.caller ≡ inside q
      → t.worker ≡ in_handler h
      → MayEnd h t.machine.published
      → Returns t
  skipped-Returns {t} q h r c w y =
      let s : Step msm t _ = skips h w y refl in
      let (u, later, p) = behind-Returns q h (next r s) c refl in (u, first_step s later, p)

  mutex-Jams :
      {t : Threads} (q : Row) (h : Handler) (e : Event)
      → Reach msm initial t
      → t.caller ≡ inside q
      → waits q.action ≡ true
      → t.worker ≡ at_mutex h e
      → Jams t
  mutex-Jams {t} q h e r c y w =
      let d : Deadlocked t = record {
        row = q;
        own = e;
        handler = h;
        caller = c;
        waiting = y;
        holder = ground (arith, (reached-Inv msm r).caller_holds);
        active = (reached-Inv msm r).active ∙ ap is_busy w;
        worker = w;
      } in
      (t, here, d, λ u. Deadlocked-stuck d)

  called-Jams :
      {t : Threads} (q : Row) (h : Handler) (e : Event)
      → Reach msm initial t
      → t.caller ≡ inside q
      → waits q.action ≡ true
      → t.worker ≡ in_handler h
      → own_event h ≡ some e
      → May h t.machine.published
      → Jams t
  called-Jams {t} q h e r c y w o m =
      let s : Step msm t _ = reaches h e w o m refl in
      let (u, later, d, n) = mutex-Jams q h e (next r s) c y refl in (u, first_step s later, d, n)

  -- A handler in its work while the caller waits: a handler whose state is over ends, also Pause.
  handler_leads :
      {t : Threads} (q : Row) (h : Handler)
      → Reach msm initial t
      → t.caller ≡ inside q
      → waits q.action ≡ true
      → t.worker ≡ in_handler h
      → Returns t ⊎ Jams t
  handler_leads q init_wrapper r c y w = inr (called-Jams q init_wrapper _ r c y w refl tt)
  handler_leads q init_task_wrapper r c y w =
      inr (called-Jams q init_task_wrapper _ r c y w refl tt)
  handler_leads {t} q run_wrapper r c y w =
      elim (Bool-cases (state_eq t.machine.published running)) [
        | inl z ↦ inr (called-Jams q run_wrapper _ r c y w refl (running_eq _ z))
        | inr z ↦ inl (skipped-Returns q run_wrapper r c w (λ e. running_ne _ z e))
      ]
  handler_leads q pause_wrapper r c y w =
      inl (skipped-Returns q pause_wrapper r c w (waited_pause msm q r c y w))
  handler_leads q reset_task_wrapper r c y w =
      inr (called-Jams q reset_task_wrapper _ r c y w refl tt)
  handler_leads q reset_wrapper r c y w = inr (called-Jams q reset_wrapper _ r c y w refl tt)
  handler_leads q exit_handler r c y w = inl (skipped-Returns q exit_handler r c w tt)

  worker_leads :
      {t : Threads} (q : Row) (w : Worker)
      → Reach msm initial t
      → t.caller ≡ inside q
      → waits q.action ≡ true
      → t.worker ≡ w
      → Returns t ⊎ Jams t
  worker_leads q looking r c y p =
      inl (passes q r c (inr ((reached-Inv msm r).active ∙ ap is_busy p)))
  worker_leads q left r c y p = inl (passes q r c (inr ((reached-Inv msm r).active ∙ ap is_busy p)))
  worker_leads q (in_handler h) r c y p = handler_leads q h r c y p
  worker_leads q (at_mutex h e) r c y p = inr (mutex-Jams q h e r c y p)
  worker_leads q (in_row h g) r c y p = absurd ((transition_exclusive msm r).2 q g h c p)
  worker_leads q (behind h) r c y p = inl (behind-Returns q h r c p)

  inside_leads :
      {t : Threads} (q : Row) → Reach msm initial t → t.caller ≡ inside q → Returns t ⊎ Jams t
  inside_leads {t} q r c = elim (Bool-cases (waits q.action)) [
    | inr free ↦ inl (passes q r c (inl free))
    | inl wait ↦ worker_leads q t.worker r c wait refl
  ]

  -- The mutex is free: the call takes it.
  free_leads :
      {t : Threads} (e : Event)
      → Reach msm initial t
      → t.caller ≡ calling e
      → t.holder ≡ nobody
      → Returns t ⊎ Jams t
  free_leads {t} e r c n =
      go (fired-Fires msm t.machine.control t.machine.health e v.sane.control v.sane.health)
    where
      v : Inv t
      v = reached-Inv msm r

      begun :
          (q : Row) → msm.fired t.machine.control t.machine.health e ≡ q ∷ [] → Returns t ⊎ Jams t
      begun q p =
          let s : Step msm t _ = call_begins e q c n p refl in
          after_step s (inside_leads q (next r s) refl)

      go : Fires msm t.machine.control t.machine.health e → Returns t ⊎ Jams t
      go (nothing p) = inl (_, next here (call_ignored e c n p refl), refl)
      go (of_control q p b f) = begun q p
      go (of_health q p b f) = begun q p

  calling_leads :
      {t : Threads} (e : Event) (o : Holder)
      → Reach msm initial t
      → t.caller ≡ calling e
      → t.holder ≡ o
      → Returns t ⊎ Jams t
  calling_leads e nobody r c n = free_leads e r c n
  calling_leads e by_caller r c n = absurd (ground (arith, (reached-Inv msm r).caller_holds))
  calling_leads {t} e by_worker r c n = given_back t.worker refl
    where
      given_back : (w : Worker) → t.worker ≡ w → Returns t ⊎ Jams t
      given_back (in_row h q) p =
          let (m, k) = (transition_ends msm r).1 h q p in
          let s : Step msm t _ =
            own_ends h q m p (inl (subst IsOwn p (reached-IsOwn msm r))) k refl in
          after_step s (free_leads e (next r s) c refl)
      given_back _ p = absurd (ground (arith, (reached-Inv msm r).worker_holds))

  -- From each state that the caller and the worker can reach while a call of ChangeState from outside
  -- is pending, a finite sequence of steps leads to its return, or to a state in which the caller
  -- waits in an action for the worker, the worker waits for the mutex that the caller holds, and no
  -- step is possible.
  pub call_progress : {t : Threads} → Reach msm initial t → t.caller ≢ resting → Returns t ⊎ Jams t
  call_progress {t} r c = go t.caller refl
    where
      go : (w : Caller) → t.caller ≡ w → Returns t ⊎ Jams t
      go resting p = absurd (c p)
      go (calling e) p = calling_leads e t.holder r p refl
      go (inside q) p = inside_leads q r p
