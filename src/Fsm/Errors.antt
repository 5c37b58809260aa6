-- ===== src/Fsm/Errors.antt =====
-- The state machine behind a reported error (fairmq/FairMQStateMachine.cxx).
use bachelor_fair_mq.Base.{◌≡◌, refl, ap, ◌∙◌, [], ◌∷◌, Bool, true, ◌||◌, arith}
use bachelor_fair_mq.Fsm.{error, Event}
use bachelor_fair_mq.Fsm.Table.{Row, is_terminate}
use bachelor_fair_mq.Fsm.Machine.{Msm}
use bachelor_fair_mq.Fsm.Threads.{
  Holder, nobody, by_caller, by_worker, Caller, inside, Worker, in_row, Threads, initial, Step,
  calls, call_ignored, call_begins, call_ends, takes, leaves, reaches, skips, raises, polls,
  own_ignored, own_begins, own_ends, finishes, Reach, here, next,
}
use bachelor_fair_mq.Fsm.Invariant.{Flight, Inv}
use bachelor_fair_mq.Fsm.Interleavings.{Reach-Inv, reached-Inv}

module _ (msm : Msm) where
  error_fires_nothing :
      (t : Threads) (e : Event) (r : Row)
      → t.machine.health ≡ error
      → ¬ (msm.fired t.machine.control t.machine.health e ≡ r ∷ [])
  error_fires_nothing t e r h f =
      let n =
        msm.fired_terminated t.machine.control error e (or_true (is_terminate t.machine.control)) in
      absurd (ground (arith, ap (λ s. msm.fired t.machine.control s e) h))
    where
      or_true : (b : Bool) → (b || true) ≡ true
      or_true b = ground arith

  not-Flight : (t : Threads) (r : Row) → t.machine.health ≡ error → ¬ (Flight t.machine r)
  not-Flight t r h f = absurd (ground (arith, f.health))

  Step-error :
      {t u : Threads}
      → Step msm t u
      → Inv t
      → t.machine.health ≡ error
      → (u.machine.health ≡ error) × (u.machine.control ≡ t.machine.control)
  Step-error {t} (call_begins e r c n f p) v h = absurd (error_fires_nothing t e r h f)
  Step-error {t} (call_ends r m c w q p) v h = absurd (not-Flight t r h (v.caller_row r c))
  Step-error {t} (own_begins k e r w n f p) v h = absurd (error_fires_nothing t e r h f)
  Step-error {t} (own_ends k r m w y q p) v h = absurd (not-Flight t r h (v.worker_row k r w))
  Step-error (calls e c p) v h = rw p (h, refl)
  Step-error (call_ignored e c n f p) v h = rw p (h, refl)
  Step-error (takes k w n a y p) v h = rw p (h, refl)
  Step-error (leaves w n p) v h = rw p (h, refl)
  Step-error (reaches k e w y z p) v h = rw p (h, refl)
  Step-error (skips k w y p) v h = rw p (h, refl)
  Step-error (raises k w y p) v h = rw p (h, refl)
  Step-error (polls w y p) v h = rw p (h, refl)
  Step-error (own_ignored k e w n f p) v h = rw p (h, refl)
  Step-error (finishes k w p) v h = rw p (h, refl)

  error_published : (t : Threads) → Inv t → t.machine.health ≡ error → t.machine.published ≡ error
  error_published t v h = go t.holder refl t.caller refl t.worker refl
    where
      go :
          (o : Holder)
          → t.holder ≡ o
          → (c : Caller) → t.caller ≡ c
          → (w : Worker) → t.worker ≡ w
          → t.machine.published ≡ error
      go nobody p c q w k = v.settled p ∙ ground (arith, h)
      go by_caller p (inside r) q w k = absurd (not-Flight t r h (v.caller_row r q))
      go by_caller p _ q w k = absurd (ground (arith, v.caller_holds))
      go by_worker p c q (in_row h' r) k = absurd (not-Flight t r h (v.worker_row h' r k))
      go by_worker p c q _ k = absurd (ground (arith, v.worker_holds))

  Reach-error :
      {t u : Threads}
      → Reach msm t u
      → Inv t
      → t.machine.health ≡ error
      → (u.machine.health ≡ error) × (u.machine.control ≡ t.machine.control)
  Reach-error here v h = (h, refl)
  Reach-error (next r s) v h =
      let (h', c) = Reach-error r v h in
      let (h2, c2) = Step-error s (Reach-Inv msm r v) h' in (h2, c2 ∙ c)

  -- Once an error was reported, every later state shows the error state, and the state that the
  -- device was in stays as it is, whatever is called and whatever the handlers do.
  pub error_absorbs :
      {t u : Threads}
      → Reach msm initial t
      → t.machine.health ≡ error
      → Reach msm t u
      → (u.machine.published ≡ error) × (u.machine.control ≡ t.machine.control)
  error_absorbs {t} {u} r h later =
      let v = reached-Inv msm r in
      let (h', c) = Reach-error later v h in (error_published u (Reach-Inv msm later v) h', c)
