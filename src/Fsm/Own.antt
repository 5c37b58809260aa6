-- ===== src/Fsm/Own.antt =====
-- The worker's own calls of ChangeState (fairmq/FairMQStateMachine.cxx).
use bachelor_fair_mq.Base.{◌≡◌, refl, subst, [], ◌∷◌, some, true, false, arith}
use bachelor_fair_mq.Fsm.{Event}
use bachelor_fair_mq.Fsm.Table.{Row}
use bachelor_fair_mq.Fsm.Machine.{Msm, Handler, waits}
use bachelor_fair_mq.Fsm.Rows.{Fires, nothing, of_control, of_health, fired-Fires, is_own}
use bachelor_fair_mq.Fsm.Threads.{
  Worker, at_mutex, in_row, Threads, initial, Step, calls, call_ignored, call_begins, call_ends,
  takes, leaves, reaches, skips, raises, polls, own_ignored, own_begins, own_ends, finishes, Reach,
  here, next, resume, own_event,
}
use bachelor_fair_mq.Fsm.Invariant.{Inv}
use bachelor_fair_mq.Fsm.Interleavings.{reached-Inv}

-- What the worker is at: only the events of the wrappers, and rows without a wait.
abbrev pub IsOwn : Worker → Type 0
IsOwn (at_mutex h e) = is_own e ≡ true
IsOwn (in_row h r) = waits r.action ≡ false
IsOwn _ = Unit {0}

own_event-is_own : (h : Handler) (e : Event) → own_event h ≡ some e → is_own e ≡ true
own_event-is_own h e p = ground arith

resume-IsOwn : (h : Handler) (e : Event) → IsOwn (resume h e)
resume-IsOwn h Event.error_found = tt
resume-IsOwn h _ = tt

module _ (msm : Msm) where
  fired_own :
      (t : Threads) (e : Event) (r : Row)
      → Inv t
      → msm.fired t.machine.control t.machine.health e ≡ r ∷ []
      → is_own e ≡ true
      → waits r.action ≡ false
  fired_own t e r v f o =
      go (fired-Fires msm t.machine.control t.machine.health e v.sane.control v.sane.health)
    where
      go : Fires msm t.machine.control t.machine.health e → waits r.action ≡ false
      go (nothing p) = absurd (cc)
      go (of_control r' p b g) =
          let q : r' ≡ r = cc in subst (λ x. waits x.action ≡ false) q (g.no_wait o)
      go (of_health r' p b g) =
          let q : r' ≡ r = cc in subst (λ x. waits x.action ≡ false) q (g.no_wait o)

  Step-IsOwn : {t u : Threads} → Step msm t u → Inv t → IsOwn t.worker → IsOwn u.worker
  Step-IsOwn (calls e c p) v o = rw p o
  Step-IsOwn (call_ignored e c n f p) v o = rw p o
  Step-IsOwn (call_begins e r c n f p) v o = rw p o
  Step-IsOwn (call_ends r m c w q p) v o = rw p o
  Step-IsOwn (takes h w n a k p) v o = rw p tt
  Step-IsOwn (leaves w n p) v o = rw p tt
  Step-IsOwn (reaches h e w y z p) v o = rw p (own_event-is_own h e y)
  Step-IsOwn (skips h w y p) v o = rw p tt
  Step-IsOwn (raises h w y p) v o = rw p refl
  Step-IsOwn (polls w y p) v o = rw p o
  Step-IsOwn (own_ignored h e w n f p) v o = rw p (resume-IsOwn h e)
  Step-IsOwn {t} (own_begins h e r w n f p) v o = rw p (fired_own t e r v f (subst IsOwn w o))
  Step-IsOwn (own_ends h r m w y q p) v o = rw p (resume-IsOwn h r.event)
  Step-IsOwn (finishes h w p) v o = rw p tt

  pub reached-IsOwn : {t : Threads} → Reach msm initial t → IsOwn t.worker
  reached-IsOwn here = tt
  reached-IsOwn (next r s) = Step-IsOwn s (reached-Inv msm r) (reached-IsOwn r)
