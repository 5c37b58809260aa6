-- ===== src/Fsm/Interleavings.antt =====
-- The invariant and the steps of the caller and the worker (fairmq/FairMQStateMachine.cxx).
use bachelor_fair_mq.Base.{◌≡◌, refl, sym, ap, ◌∙◌, subst, [], ◌∷◌, Bool, true, false, ok, arith}
use bachelor_fair_mq.Fsm.{Event}
use bachelor_fair_mq.Fsm.Table.{Row}
use bachelor_fair_mq.Fsm.Machine.{Machine, start, Msm, begin_action, end_action, Handler}
use bachelor_fair_mq.Fsm.Actions.{view, begin_action-Begun, end_action-Ended}
use bachelor_fair_mq.Fsm.Threads.{
  nobody, by_caller, by_worker, resting, calling, inside, Worker, looking, in_handler, at_mutex,
  in_row, Threads, initial, Step, calls, call_ignored, call_begins, call_ends, takes, leaves,
  reaches, skips, raises, polls, own_ignored, own_begins, own_ends, finishes, Reach, here, next,
  resume,
}
use bachelor_fair_mq.Fsm.Invariant.{
  is_inside, is_in_row, is_busy, is_by_caller, is_by_worker, Flight, Sane, Inv, begins-Flight,
  ends-Sane,
}

-- The flags of the worker play no part in these.
flags-Sane :
    (m : Machine) (active available : Bool)
    → (available ≡ true → m.work_available ≡ true)
    → Sane m
    → Sane (record m { work_active = active; work_available = available })
flags-Sane m active available h s = record {
  control = s.control;
  health = s.health;
  work = λ k. s.work (h k);
}

flags-Flight :
    (m : Machine) (active available : Bool) (r : Row)
    → Flight m r
    → Flight (record m { work_active = active; work_available = available }) r
flags-Flight m active available r f = record {
  published = f.published;
  health = f.health;
  fits = f.fits;
}

-- A step of the caller that stays outside a row, or of the worker.
of_threads :
    (t u : Threads)
    → u.machine ≡ t.machine
    → u.holder ≡ t.holder
    → is_inside u.caller ≡ is_inside t.caller
    → is_in_row u.worker ≡ is_in_row t.worker
    → is_busy u.worker ≡ is_busy t.worker
    → ((r : Row) → u.caller ≡ inside r → t.caller ≡ inside r)
    → ((h : Handler) (r : Row) → u.worker ≡ in_row h r → t.worker ≡ in_row h r)
    → Inv t
    → Inv u
of_threads t u m h c w b cr wr v = record {
  sane = subst Sane (sym m) v.sane;
  active = ap (λ n. n.work_active) m ∙ v.active ∙ sym b;
  caller_holds = ap is_by_caller h ∙ v.caller_holds ∙ sym c;
  worker_holds = ap is_by_worker h ∙ v.worker_holds ∙ sym w;
  caller_row = λ r p. subst (λ n. Flight n r) (sym m) (v.caller_row r (cr r p));
  worker_row = λ k r p. subst (λ n. Flight n r) (sym m) (v.worker_row k r (wr k r p));
  settled = λ p. ap (λ n. n.published) m ∙ v.settled (sym h ∙ p) ∙ sym (ap view m);
}

-- `resume` leaves the row and stays busy.
resume_out : (h : Handler) (e : Event) → is_in_row (resume h e) ≡ false
resume_out h Event.error_found = refl
resume_out h _ = refl

resume_busy : (h : Handler) (e : Event) → is_busy (resume h e) ≡ true
resume_busy h Event.error_found = refl
resume_busy h _ = refl

no_row : (h : Handler) (e : Event) (k : Handler) (r : Row) → ¬ (resume h e ≡ in_row k r)
no_row h e k r q = absurd (ground (arith, resume_out h e, q))

-- A step of the worker that sets its flags.
worker_flags :
    (t : Threads) (active available : Bool) (w : Worker)
    → (available ≡ true → t.machine.work_available ≡ true)
    → active ≡ is_busy w
    → is_in_row w ≡ false
    → is_in_row t.worker ≡ false
    → ((k : Handler) (r : Row) → ¬ (w ≡ in_row k r))
    → Inv t
    → Inv (record t {
      machine = record (t.machine) { work_active = active; work_available = available };
      worker = w;
    })
worker_flags t active available w h b o o' out v = record {
  sane = flags-Sane t.machine active available h v.sane;
  active = b;
  caller_holds = v.caller_holds;
  worker_holds = v.worker_holds ∙ o' ∙ sym o;
  caller_row = λ r q. flags-Flight t.machine active available r (v.caller_row r q);
  worker_row = λ k r q. absurd (out k r q);
  settled = v.settled;
}

module _ (msm : Msm) where
  call_begins-Inv :
      (t : Threads) (e : Event) (r : Row)
      → t.caller ≡ calling e
      → t.holder ≡ nobody
      → msm.fired t.machine.control t.machine.health e ≡ r ∷ []
      → Inv t
      → Inv (record t { machine = begin_action r t.machine; holder = by_caller; caller = inside r })
  call_begins-Inv t e r c n f v =
      let (fl, sane') = begins-Flight msm t.machine e r v.sane f in
      record {
        sane = sane';
        active = (begin_action-Begun r t.machine).active ∙ v.active;
        caller_holds = refl;
        worker_holds = ap is_by_worker (sym n) ∙ v.worker_holds;
        caller_row = λ r' q. let g : r ≡ r' = cc in subst (Flight _) g fl;
        worker_row = λ k r' q. absurd (ground (arith, v.worker_holds));
        settled = λ q. absurd (cc);
      }

  call_ends-Inv :
      (t : Threads) (r : Row) (m : Machine)
      → t.caller ≡ inside r
      → end_action r t.machine ≡ ok m
      → Inv t
      → Inv (record t { machine = m; holder = nobody; caller = resting })
  call_ends-Inv t r m c q v =
      let (shown, sane') = ends-Sane msm t.machine m r v.sane (v.caller_row r c) q in
      record {
        sane = sane';
        active = (end_action-Ended r t.machine m q).active ∙ v.active;
        caller_holds = refl;
        worker_holds = ground (arith, v.worker_holds, v.caller_holds);
        caller_row = λ r' p. absurd (cc);
        worker_row = λ k r' p. absurd (ground (arith, v.worker_holds, v.caller_holds));
        settled = λ p. shown;
      }

  own_begins-Inv :
      (t : Threads) (h : Handler) (e : Event) (r : Row)
      → t.worker ≡ at_mutex h e
      → t.holder ≡ nobody
      → msm.fired t.machine.control t.machine.health e ≡ r ∷ []
      → Inv t
      → Inv
          (record t { machine = begin_action r t.machine; holder = by_worker; worker = in_row h r })
  own_begins-Inv t h e r w n f v =
      let (fl, sane') = begins-Flight msm t.machine e r v.sane f in
      record {
        sane = sane';
        active = (begin_action-Begun r t.machine).active ∙ v.active ∙ ap is_busy w;
        caller_holds = ap is_by_caller (sym n) ∙ v.caller_holds;
        worker_holds = refl;
        caller_row = λ r' q. absurd (ground (arith, v.caller_holds));
        worker_row = λ k r' q. let g : r ≡ r' = cc in subst (Flight _) g fl;
        settled = λ q. absurd (cc);
      }

  own_ends-Inv :
      (t : Threads) (h : Handler) (r : Row) (m : Machine)
      → t.worker ≡ in_row h r
      → end_action r t.machine ≡ ok m
      → Inv t
      → Inv (record t { machine = m; holder = nobody; worker = resume h r.event })
  own_ends-Inv t h r m w q v =
      let (shown, sane') = ends-Sane msm t.machine m r v.sane (v.worker_row h r w) q in
      record {
        sane = sane';
        active =
            (end_action-Ended r t.machine m q).active
            ∙ v.active
            ∙ ap is_busy w
            ∙ sym (resume_busy h r.event);
        caller_holds = ground (arith, v.worker_holds, v.caller_holds);
        worker_holds = sym (resume_out h r.event);
        caller_row = λ r' p. absurd (ground (arith, v.worker_holds, v.caller_holds));
        worker_row = λ k r' p. absurd (no_row h r.event k r' p);
        settled = λ p. shown;
      }

  Step-Inv : {t u : Threads} → Step msm t u → Inv t → Inv u
  Step-Inv {t} {u} (calls e c p) v =
      rw p (of_threads t _ refl refl (ground arith) refl refl (λ r q. absurd (cc)) (λ h r q. q) v)
  Step-Inv {t} {u} (call_ignored e c n f p) v =
      rw p (of_threads t _ refl refl (ground arith) refl refl (λ r q. absurd (cc)) (λ h r q. q) v)
  Step-Inv {t} {u} (call_begins e r c n f p) v = rw p (call_begins-Inv t e r c n f v)
  Step-Inv {t} {u} (call_ends r m c w q p) v = rw p (call_ends-Inv t r m c q v)
  Step-Inv {t} {u} (takes h w n a k p) v = rw p (
      worker_flags t true t.machine.work_available (in_handler h) (λ y. y) refl refl (ground arith)
        (λ k r q. cc) v)
  Step-Inv {t} {u} (leaves w n p) v = rw p (
      of_threads t _ refl refl refl (ground arith) (ground arith) (λ r q. q) (λ h r q. absurd (cc))
        v)
  Step-Inv {t} {u} (reaches h e w o y p) v = rw p (
      of_threads t _ refl refl refl (ground arith) (ground arith) (λ r q. q) (λ h r q. absurd (cc))
        v)
  Step-Inv {t} {u} (skips h w y p) v = rw p (
      of_threads t _ refl refl refl (ground arith) (ground arith) (λ r q. q) (λ h r q. absurd (cc))
        v)
  Step-Inv {t} {u} (raises h w y p) v = rw p (
      of_threads t _ refl refl refl (ground arith) (ground arith) (λ r q. q) (λ h r q. absurd (cc))
        v)
  Step-Inv {t} {u} (polls w y p) v = rw p v
  Step-Inv {t} {u} (own_ignored h e w n f p) v = rw p (
      of_threads t _ refl refl refl (resume_out h e ∙ ground arith) (resume_busy h e ∙ ground arith)
        (λ r q. q) (λ k r q. absurd (no_row h e k r q)) v)
  Step-Inv {t} {u} (own_begins h e r w n f p) v = rw p (own_begins-Inv t h e r w n f v)
  Step-Inv {t} {u} (own_ends h r m w y q p) v = rw p (own_ends-Inv t h r m w q v)
  Step-Inv {t} {u} (finishes h w p) v = rw p (
      worker_flags t false false looking (λ y. absurd (cc)) refl refl (ground arith) (λ k r q. cc)
        v)

  initial-Inv : Inv initial
  unfolding start
  initial-Inv = record {
    sane = record { control = refl; health = refl; work = λ h. absurd (cc) };
    active = refl;
    caller_holds = refl;
    worker_holds = refl;
    caller_row = λ r p. absurd (cc);
    worker_row = λ h r p. absurd (cc);
    settled = λ p. refl;
  }

  pub Reach-Inv : {t u : Threads} → Reach msm t u → Inv t → Inv u
  Reach-Inv here v = v
  Reach-Inv (next r s) v = Step-Inv s (Reach-Inv r v)

  pub reached-Inv : {t : Threads} → Reach msm initial t → Inv t
  reached-Inv r = Reach-Inv r initial-Inv
