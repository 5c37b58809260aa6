-- ===== src/Fsm/Pausing.antt =====
-- While Pause runs, the machine is in PAUSED (fairmq/FairMQStateMachine.cxx, FairMQDevice.cxx).
use bachelor_fair_mq.Base.{
  ◌≡◌, ◌≢◌, ◌⊎◌, inl, inr, sym, ap, ◌∙◌, subst, none, some, true, false, ok, arith,
}
use bachelor_fair_mq.Fsm.{State, running, paused, Event, pause}
use bachelor_fair_mq.Fsm.Table.{default_fct, error_found_fct, Row}
use bachelor_fair_mq.Fsm.Machine.{
  Machine, start, Msm, begin_action, end_action, state_handlers, Handler, pause_wrapper, waits,
}
use bachelor_fair_mq.Fsm.Rows.{Fits, FromState, ForEvent}
use bachelor_fair_mq.Fsm.Actions.{
  begin_action-Begun, Ended, end_action-Ended, Works, end_action-Works,
}
use bachelor_fair_mq.Fsm.Threads.{
  inside, Worker, in_handler, at_mutex, in_row, Threads, initial, Step, calls, call_ignored,
  call_begins, call_ends, takes, leaves, reaches, skips, raises, polls, own_ignored, own_begins,
  own_ends, finishes, Reach, here, next, resume, own_event, MayRaise,
}
use bachelor_fair_mq.Fsm.Invariant.{is_busy, Flight, Inv}
use bachelor_fair_mq.Fsm.Interleavings.{reached-Inv}

-- Pause waits for the worker only in PAUSED.
abbrev pub Queued : Machine → Type 0
Queued m = m.work_available ≡ true → m.work ≡ some pause_wrapper → m.control ≡ paused

-- Pause is run in PAUSED, and makes no call of ChangeState.
pub record Pausing (w : Worker) (s : State) : Type 0 where
  pub in_pause : w ≡ in_handler pause_wrapper → s ≡ paused
  pub no_call : (e : Event) → w ≢ at_mutex pause_wrapper e
  pub no_row : (r : Row) → w ≢ in_row pause_wrapper r

handler-pause : (e : Event) → state_handlers e ≡ some pause_wrapper → e ≡ pause
unfolding state_handlers
handler-pause e h = ground arith

-- The row that is taken from PAUSED.
from_paused : (s : State) (r : Row) → FromState s r → s ≡ paused → FromState paused r
from_paused s r f e = subst (λ x. FromState x r) e f

for_pause : (e : Event) (r : Row) → ForEvent e r → e ≡ pause → r.target ≡ paused
for_pause e r f h = subst (λ x. ForEvent x r) h f

control-target :
    (r : Row) (m n : Machine) (e : Event)
    → Fits m.control e r
    → m.control ≢ State.ok
    → Ended r m n
    → n.control ≡ r.target
control-target r m n e g c d = ground (arith, d.control, g.source_eq)

control-kept :
    (r : Row) (m n : Machine) (e : Event) → Fits State.ok e r → Ended r m n → n.control ≡ m.control
control-kept r m n e g d = ground (arith, d.control, g.source_eq)

control-Queued :
    (r : Row) (m n : Machine) (e : Event)
    → Fits m.control e r
    → n.control ≡ r.target
    → Works r m n
    → Queued m
    → Queued n
control-Queued r m n e g c (inl (d, (x, y))) q a w =
    absurd (d ((from_paused m.control r g.from_state (q (sym x ∙ a) (sym y ∙ w))).1))
control-Queued r m n e g c (inr (d, x)) q a w =
    c ∙ for_pause e r g.for_event (sym g.event_eq ∙ handler-pause r.event (x ∙ w))

health-Queued :
    (r : Row) (m n : Machine) (e : Event)
    → Fits State.ok e r
    → n.control ≡ m.control
    → Works r m n
    → Queued m
    → Queued n
health-Queued r m n e g c (inl (d, (x, y))) q a w = c ∙ q (sym x ∙ a) (sym y ∙ w)
health-Queued r m n e g c (inr (d, x)) q a w =
    (let f : r.action ≡ error_found_fct = g.from_state in cc)

in_region : (t : Threads) → Inv t → t.machine.control ≢ State.ok
in_region t v e = ground (arith, v.sane.control)

ends-Queued :
    (t : Threads) (r : Row) (n : Machine)
    → Inv t
    → Flight t.machine r
    → end_action r t.machine ≡ ok n
    → Queued t.machine
    → Queued n
ends-Queued t r n v fl p q = elim fl.fits.1 [
  | inl g ↦
      control-Queued r t.machine n fl.fits.0 g
        (control-target r t.machine n fl.fits.0 g (in_region t v)
          (end_action-Ended r t.machine n p))
        (end_action-Works r t.machine n p) q
  | inr g ↦
      health-Queued r t.machine n fl.fits.0 g
        (control-kept r t.machine n fl.fits.0 g (end_action-Ended r t.machine n p))
        (end_action-Works r t.machine n p) q
]

-- No call takes the machine out of PAUSED while Pause runs.
ends-paused :
    (t : Threads) (r : Row) (n : Machine)
    → Inv t
    → Flight t.machine r
    → (waits r.action ≡ false) ⊎ (t.machine.work_active ≡ false)
    → end_action r t.machine ≡ ok n
    → t.worker ≡ in_handler pause_wrapper
    → t.machine.control ≡ paused
    → n.control ≡ paused
ends-paused t r n v fl y p w c = elim fl.fits.1 [
  | inl g ↦
      let d : r.action ≡ default_fct = (from_paused t.machine.control r g.from_state c).1 in
      let busy : t.machine.work_active ≡ true = v.active ∙ ap is_busy w in
      elim y [
        | inl z ↦ (let x : waits default_fct ≡ false = ap waits (sym d) ∙ z in cc)
        | inr z ↦ (let x : true ≡ false = sym busy ∙ z in cc)
      ]
  | inr g ↦ control-kept r t.machine n fl.fits.0 g (end_action-Ended r t.machine n p) ∙ c
]

resume_handler : (h k : Handler) (e : Event) → resume h e ≡ in_handler k → h ≡ k
resume_handler h k Event.error_found p = cc
resume_handler h k e p = ground (arith, p)

resume_no_call : (h k : Handler) (e f : Event) → resume h e ≢ at_mutex k f
resume_no_call h k e f p = ground (arith, p)

resume_no_row : (h k : Handler) (e : Event) (r : Row) → resume h e ≢ in_row k r
resume_no_row h k e r p = ground (arith, p)

resume-Pausing : (h : Handler) (e : Event) (s : State) → h ≢ pause_wrapper → Pausing (resume h e) s
resume-Pausing h e s n = record {
  in_pause = λ p. absurd (n (resume_handler h pause_wrapper e p));
  no_call = λ f. resume_no_call h pause_wrapper e f;
  no_row = λ r. resume_no_row h pause_wrapper e r;
}

kept :
    (m n : Machine)
    → n.control ≡ m.control
    → n.work ≡ m.work
    → n.work_available ≡ m.work_available
    → Queued m
    → Queued n
kept m n c w a q x y = c ∙ q (sym a ∙ x) (sym w ∙ y)

moved : (w : Worker) (s u : State) → u ≡ s → Pausing w s → Pausing w u
moved w s u e p = subst (Pausing w) (sym e) p

abbrev pub IsPausing : Threads → Type 0
IsPausing t = Pausing t.worker t.machine.control × Queued t.machine

module _ (msm : Msm) where
  Step-IsPausing : {t u : Threads} → Step msm t u → Inv t → IsPausing t → IsPausing u
  Step-IsPausing (calls e c p) v (i, q) = rw p (i, q)
  Step-IsPausing (call_ignored e c n f p) v (i, q) = rw p (i, q)
  Step-IsPausing {t} (call_begins e r c n f p) v (i, q) =
      let b = begin_action-Begun r t.machine in
      rw p (
        moved t.worker _ _ b.control i,
        kept t.machine (begin_action r t.machine) b.control b.work b.available q,
      )
  Step-IsPausing {t} (call_ends r m c y x p) v (i, q) = rw p (
    record {
      in_pause = λ w. ends-paused t r m v (v.caller_row r c) y x w (i.in_pause w);
      no_call = i.no_call;
      no_row = i.no_row;
    },
    ends-Queued t r m v (v.caller_row r c) x q,
  )
  Step-IsPausing {t} (takes h w n a k p) v (i, q) = rw p (
    record {
      in_pause = λ e. (let f : h ≡ pause_wrapper = cc in q a (k ∙ ap (λ x. some x) f));
      no_call = λ e f. cc;
      no_row = λ r f. cc;
    },
    q,
  )
  Step-IsPausing (leaves w n p) v (i, q) =
      rw p (record { in_pause = λ e. absurd (cc); no_call = λ e f. cc; no_row = λ r f. cc }, q)
  Step-IsPausing (reaches h e w o y p) v (i, q) = rw p (
    record {
      in_pause = λ f. absurd (cc);
      no_call = λ g f.
          (let k : h ≡ pause_wrapper = cc in
            let z : none ≡ some e = subst (λ x. own_event x ≡ some e) k o in cc);
      no_row = λ r f. cc;
    },
    q,
  )
  Step-IsPausing (skips h w y p) v (i, q) =
      rw p (record { in_pause = λ e. absurd (cc); no_call = λ e f. cc; no_row = λ r f. cc }, q)
  Step-IsPausing (raises h w y p) v (i, q) = rw p (
    record {
      in_pause = λ f. absurd (cc);
      no_call = λ g f. (let k : h ≡ pause_wrapper = cc in elim (subst MayRaise k y) [ ]);
      no_row = λ r f. cc;
    },
    q,
  )
  Step-IsPausing (polls w y p) v (i, q) = rw p (i, q)
  Step-IsPausing {t} (own_ignored h e w n f p) v (i, q) =
      rw p
        (resume-Pausing h e t.machine.control (λ k. i.no_call e (w ∙ ap (λ x. at_mutex x e) k)), q)
  Step-IsPausing {t} (own_begins h e r w n f p) v (i, q) =
      let b = begin_action-Begun r t.machine in
      rw p (
        record {
          in_pause = λ g. absurd (cc);
          no_call = λ g x. cc;
          no_row =
              λ g x. (let k : h ≡ pause_wrapper = cc in i.no_call e (w ∙ ap (λ z. at_mutex z e) k));
        },
        kept t.machine (begin_action r t.machine) b.control b.work b.available q,
      )
  Step-IsPausing {t} (own_ends h r m w y x p) v (i, q) = rw p (
    resume-Pausing h r.event m.control (λ k. i.no_row r (w ∙ ap (λ z. in_row z r) k)),
    ends-Queued t r m v (v.worker_row h r w) x q,
  )
  Step-IsPausing (finishes h w p) v (i, q) = rw p (
    record { in_pause = λ e. absurd (cc); no_call = λ e f. cc; no_row = λ r f. cc },
    λ a. absurd (cc),
  )

  initial-IsPausing : IsPausing initial
  unfolding start
  initial-IsPausing = (
    record { in_pause = λ e. absurd (cc); no_call = λ e f. cc; no_row = λ r f. cc },
    λ a. absurd (cc),
  )

  reached-IsPausing : {t : Threads} → Reach msm initial t → IsPausing t
  reached-IsPausing here = initial-IsPausing
  reached-IsPausing (next r s) = Step-IsPausing s (reached-Inv msm r) (reached-IsPausing r)

  -- A caller that waits in a row for Pause has published another state.
  pub waited_pause :
      {t : Threads} (r : Row)
      → Reach msm initial t
      → t.caller ≡ inside r
      → waits r.action ≡ true
      → t.worker ≡ in_handler pause_wrapper
      → t.machine.published ≢ paused
  waited_pause {t} r reach c w k e =
      let v = reached-Inv msm reach in
      let fl = v.caller_row r c in
      let (i, q) = reached-IsPausing reach in
      elim fl.fits.1 [
        | inl g ↦
            let to : r.target ≡ running =
              (from_paused t.machine.control r g.from_state (i.in_pause k)).0 in
            let f : paused ≡ running = sym e ∙ fl.published ∙ to in cc
        | inr g ↦
            let a : r.action ≡ error_found_fct = g.from_state in
            let f : waits error_found_fct ≡ true = ap waits (sym a) ∙ w in cc
      ]
