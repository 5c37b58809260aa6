-- ===== src/Fsm/Invariant.antt =====
-- The invariant of the interleavings of the caller and the worker.
use bachelor_fair_mq.Base.{
  ◌≡◌, ◌⊎◌, inl, inr, refl, sym, ap, ◌∙◌, subst, [], ◌∷◌, Bool, true, false, ok, arith,
}
use bachelor_fair_mq.Fsm.{State, Event}
use bachelor_fair_mq.Fsm.Table.{Row}
use bachelor_fair_mq.Fsm.Machine.{Machine, Msm, begin_action, end_action, Handler}
use bachelor_fair_mq.Fsm.Rows.{Fits, is_control, Fires, nothing, of_control, of_health, fired-Fires}
use bachelor_fair_mq.Fsm.Actions.{
  view, HasWork, Begun, begin_action-Begun, Ended, end_action-Ended, end_action-HasWork,
}
use bachelor_fair_mq.Fsm.Threads.{
  Holder, nobody, by_caller, by_worker, Caller, inside, Worker, looking, in_row, left, Threads,
}

abbrev pub is_inside : Caller → Bool
is_inside (inside r) = true
is_inside _ = false

abbrev pub is_in_row : Worker → Bool
is_in_row (in_row h r) = true
is_in_row _ = false

-- The worker is between `fWorkActive = true` and `fWorkActive = false`.
abbrev pub is_busy : Worker → Bool
is_busy looking = false
is_busy left = false
is_busy _ = true

abbrev pub is_by_caller : Holder → Bool
is_by_caller by_caller = true
is_by_caller _ = false

abbrev pub is_by_worker : Holder → Bool
is_by_worker by_worker = true
is_by_worker _ = false

-- A row whose action has begun and not ended: its target is published already.
pub record Flight (m : Machine) (r : Row) : Type 0 where
  pub published : m.published ≡ r.target
  pub health : m.health ≡ State.ok
  pub fits : (e : Event) × ((Fits m.control e r) ⊎ (Fits State.ok e r))

-- The machine, whoever runs it.
pub record Sane (m : Machine) : Type 0 where
  pub control : is_control m.control ≡ true
  pub health : is_control m.health ≡ false
  pub work : HasWork m

pub record Inv (t : Threads) : Type 0 where
  pub sane : Sane t.machine
  pub active : t.machine.work_active ≡ is_busy t.worker
  pub caller_holds : is_by_caller t.holder ≡ is_inside t.caller
  pub worker_holds : is_by_worker t.holder ≡ is_in_row t.worker
  pub caller_row : (r : Row) → t.caller ≡ inside r → Flight t.machine r
  pub worker_row : (h : Handler) (r : Row) → t.worker ≡ in_row h r → Flight t.machine r
  pub settled : t.holder ≡ nobody → t.machine.published ≡ view t.machine

module _ (msm : Msm) where
  -- A row that is fired is in flight behind the first half of its action.
  pub begins-Flight :
      (m : Machine) (e : Event) (r : Row)
      → Sane m
      → msm.fired m.control m.health e ≡ r ∷ []
      → Flight (begin_action r m) r × Sane (begin_action r m)
  begins-Flight m e r s f = go (fired-Fires msm m.control m.health e s.control s.health)
    where
      b : Begun r m (begin_action r m)
      b = begin_action-Begun r m

      sane' : Sane (begin_action r m)
      sane' = record {
        control = ap is_control b.control ∙ s.control;
        health = ap is_control b.health ∙ s.health;
        work = λ h. let (k, p) = s.work (sym b.available ∙ h) in (k, b.work ∙ p);
      }

      go : Fires msm m.control m.health e → Flight (begin_action r m) r × Sane (begin_action r m)
      go (nothing p) = absurd (cc)
      go (of_control r' p h fits) =
          let q : r' ≡ r = cc in
          (
            record {
              published = b.published;
              health = b.health ∙ h;
              fits = (
                e,
                inl (subst (λ c. Fits c e r) (sym b.control) (subst (Fits m.control e) q fits)),
              );
            },
            sane',
          )
      go (of_health r' p h fits) =
          let q : r' ≡ r = cc in
          (
            record {
              published = b.published;
              health = b.health ∙ h;
              fits = (e, inr (subst (λ c. Fits c e r) h (subst (Fits m.health e) q fits)));
            },
            sane',
          )

  -- The second half ends the flight.
  pub ends-Sane :
      (m n : Machine) (r : Row)
      → Sane m
      → Flight m r
      → end_action r m ≡ ok n
      → (n.published ≡ view n) × Sane n
  ends-Sane m n r s f p = go f.fits.1
    where
      d : Ended r m n
      d = end_action-Ended r m n p

      go :
          (Fits m.control f.fits.0 r) ⊎ (Fits State.ok f.fits.0 r) → (n.published ≡ view n) × Sane n
      go (inl g) = (
        ground (arith, d, s, f, g),
        record {
          control = ground (arith, d, s, f, g);
          health = ground (arith, d, s, f, g);
          work = end_action-HasWork r m n p s.work;
        },
      )
      go (inr g) = (
        ground (arith, d, s, f, g, g.to_error refl),
        record {
          control = ground (arith, d, s, f, g);
          health = ground (arith, d, s, f, g, g.to_error refl);
          work = end_action-HasWork r m n p s.work;
        },
      )
