-- ===== src/Transfer/Settles.antt =====
-- How the loop of the transports ends.
use bachelor_fair_mq.Base.{
  ℕ, zero, suc, ◌+◌, ◌≤◌, ℤ, pos, negsuc, Bool, true, Option, some, ◌≡◌, ◌≢◌, ◌⊎◌, inl, inr, refl,
  sym, subst, ap, arith, Bool-cases,
}
use bachelor_fair_mq.Zeromq.Send.{next_elapsed, gives_up}
use bachelor_fair_mq.Zeromq.Returns.{Ticks, Enough, limit, limit-Enough}
use bachelor_fair_mq.Zeromq.Arrival.{goes_on, waited}
use bachelor_fair_mq.Transfer.{
  Reply, taken, again, ended, Finish, finished, returned, settle, made_by, rounds_made, rounds, ran,
}

from_zero : (i : ℕ) → 0 + i ≡ i
from_zero i = omega arith

module _ {ℓ} {A : Type ℓ} where
  -- The calls that ask to try again, from one on.
  abbrev pub Tried : (ℕ → Reply A) → ℕ → ℕ → Type ℓ
  Tried reply i zero = Unit
  Tried reply i (suc n) = ((b : Bool) × (reply i ≡ again b)) × Tried reply (suc i) n

  -- What the call behind them leads to: only with a reason to give up, -2.
  abbrev pub Settled : Bool → ℤ → ℕ → Reply A → Finish A → Type ℓ
  Settled dontwait timeout elapsed (taken a) f = f ≡ finished a
  Settled dontwait timeout elapsed (again b) f =
      (gives_up dontwait b timeout elapsed ≡ true) × (f ≡ returned (negsuc 1))
  Settled dontwait timeout elapsed (ended r) f = f ≡ returned r

  -- The loop ends behind some calls that ask to try again.
  pub record Ends (reply : ℕ → Reply A) (dontwait : Bool) (timeout : ℤ) (step i elapsed : ℕ)
      (o : Option (Finish A)) (made : ℕ) : Type ℓ where
    pub tries : ℕ
    pub tried : Tried reply i tries
    pub counted : made ≡ suc tries
    pub result : Finish A
    pub ends_in : o ≡ some result
    pub settled :
        Settled dontwait timeout
          (waited timeout step elapsed (suc tries))
          (reply (tries + i))
          result

  settle-Ends :
      (reply : ℕ → Reply A) (dontwait : Bool) (timeout : ℤ) (step elapsed fuel i : ℕ) (r : Reply A)
      (rest : Option (Finish A)) (made : ℕ)
      → reply i ≡ r
      → Ticks timeout step
      → Enough dontwait timeout elapsed (suc fuel)
      → (1 ≤ fuel
          → Enough dontwait timeout (next_elapsed timeout step elapsed) fuel
          → Ends reply dontwait timeout step (suc i) (next_elapsed timeout step elapsed) rest made)
      → Ends reply dontwait timeout step i elapsed
          (settle dontwait timeout (next_elapsed timeout step elapsed) r rest)
          (made_by dontwait timeout (next_elapsed timeout step elapsed) r made)
  settle-Ends reply dontwait timeout step elapsed fuel i (taken a) rest made h s e ih = record {
    tries = 0;
    tried = tt;
    counted = refl;
    result = finished a;
    ends_in = refl;
    settled = rw (from_zero i, h) refl;
  }
  settle-Ends reply dontwait timeout step elapsed fuel i (ended a) rest made h s e ih = record {
    tries = 0;
    tried = tt;
    counted = refl;
    result = returned a;
    ends_in = refl;
    settled = rw (from_zero i, h) refl;
  }
  settle-Ends reply dontwait timeout step elapsed fuel i (again b) rest made h s e ih =
      elim (Bool-cases (gives_up dontwait b timeout (next_elapsed timeout step elapsed))) [
        | inl q ↦ rw q (record {
          tries = 0;
          tried = tt;
          counted = refl;
          result = returned (negsuc 1);
          ends_in = refl;
          settled = rw (from_zero i, h) (q, refl);
        })
        | inr q ↦ rw q (
            let (f, m) = goes_on dontwait b timeout step elapsed fuel q s e in
            let later = ih f m in
            record {
              tries = suc (later.tries);
              tried = ((b, h), later.tried);
              counted = ap suc (later.counted);
              result = later.result;
              ends_in = later.ends_in;
              settled =
                  subst
                    (λ k.
                      Settled dontwait timeout
                        (waited timeout step elapsed (suc (suc (later.tries)))) (reply k)
                        (later.result))
                    (omega arith) (later.settled);
            })
      ]

  rounds-Ends :
      (reply : ℕ → Reply A) (dontwait : Bool) (timeout : ℤ) (step fuel i elapsed : ℕ)
      → Ticks timeout step
      → 1 ≤ fuel
      → Enough dontwait timeout elapsed fuel
      → Ends reply dontwait timeout step i elapsed
          (rounds reply dontwait timeout step fuel i elapsed)
          (rounds_made reply dontwait timeout step fuel i elapsed)
  unfolding rounds rounds_made
  rounds-Ends reply dontwait timeout step zero i elapsed s f e = absurd (omega (arith, f))
  rounds-Ends reply dontwait timeout step (suc fuel) i elapsed s f e =
      settle-Ends reply dontwait timeout step elapsed fuel i (reply i) _ _ refl s e
        (rounds-Ends reply dontwait timeout step fuel (suc i) (next_elapsed timeout step elapsed) s)

  -- The loop ends within as many rounds as the timeout has milliseconds, and one.
  pub limited-Ends :
      (reply : ℕ → Reply A) (dontwait : Bool) (timeout : ℤ) (step : ℕ)
      → (dontwait ≡ true) ⊎ (timeout ≢ pos 0)
      → Ticks timeout step
      → Ends reply dontwait timeout step 0 0
          (rounds reply dontwait timeout step (limit timeout + 1) 0 0)
          (rounds_made reply dontwait timeout step (limit timeout + 1) 0 0)
  limited-Ends reply dontwait timeout step w s =
      rounds-Ends reply dontwait timeout step (limit timeout + 1) 0 0 s (omega arith)
        (limit-Enough dontwait timeout w)

-- What the answer behind the calls that asked to try again makes of a call's outcome: -2 only with a
-- reason to give up.
module _ {ℓ ℓ'} {A : Type ℓ} {B : Type ℓ'} where
  abbrev pub Leads : (Finish A → B) → Bool → ℤ → ℕ → Reply A → Option B → Type ℓ'
  Leads done dontwait timeout elapsed (taken a) o = o ≡ some (done (finished a))
  Leads done dontwait timeout elapsed (again b) o =
      (gives_up dontwait b timeout elapsed ≡ true) × (o ≡ some (done (returned (negsuc 1))))
  Leads done dontwait timeout elapsed (ended r) o = o ≡ some (done (returned r))

  Settled-Leads :
      (done : Finish A → B) (dontwait : Bool) (timeout : ℤ) (elapsed : ℕ) (r : Reply A)
      (f : Finish A)
      → Settled dontwait timeout elapsed r f
      → Leads done dontwait timeout elapsed r (some (done f))
  Settled-Leads done dontwait timeout elapsed (taken a) f s = rw s refl
  Settled-Leads done dontwait timeout elapsed (again b) f (g, s) = (g, rw s refl)
  Settled-Leads done dontwait timeout elapsed (ended r) f s = rw s refl

  pub limited-Leads :
      (done : Finish A → B) (reply : ℕ → Reply A) (dontwait : Bool) (timeout : ℤ) (step : ℕ)
      → (dontwait ≡ true) ⊎ (timeout ≢ pos 0)
      → Ticks timeout step
      → (n : ℕ) × Tried reply 0 n
        × (rounds_made reply dontwait timeout step (limit timeout + 1) 0 0 ≡ suc n)
        × Leads done dontwait timeout
            (waited timeout step 0 (suc n))
            (reply n)
            (ran done (rounds reply dontwait timeout step (limit timeout + 1) 0 0))
  limited-Leads done reply dontwait timeout step w s =
      let ends = limited-Ends reply dontwait timeout step w s in
      let n : ℕ = ends.tries in
      (
        n,
        ends.tried,
        ends.counted,
        subst
            (λ o.
              Leads done dontwait timeout (waited timeout step 0 (suc n)) (reply n) (ran done o))
            (sym (ends.ends_in))
            (Settled-Leads done dontwait timeout (waited timeout step 0 (suc n)) (reply n)
              (ends.result)
              (subst
                (λ k.
                  Settled dontwait timeout (waited timeout step 0 (suc n)) (reply k) (ends.result))
                (omega arith) (ends.settled))),
      )
