-- ===== src/Base/Outcomes.antt =====
-- What a call of the program ends in: a result, an exception, or exit(EXIT_FAILURE).
use mathlib.Core.Path.{◌≡◌, refl}
use mathlib.Core.Logic.{◌⊎◌, inl, inr}
use mathlib.Core.Option.{Option, none, some}

pub data Outcome {ℓ} (A : Type ℓ) : Type ℓ where
  ok : A → Outcome A
  throws : Outcome A
  exits : Outcome A

pub ok-injective {ℓ} : {A : Type ℓ} {a b : A} → ok a ≡ ok b → a ≡ b
ok-injective h = cc

infixl 5 ◌>>=◌
abbrev pub ◌>>=◌ {ℓ κ} : {A : Type ℓ} {B : Type κ} → Outcome A → (A → Outcome B) → Outcome B
ok a >>= f = f a
throws >>= f = throws
exits >>= f = exits

-- `catch (exception& e) { …; exit(EXIT_FAILURE); }` round a body.
abbrev pub or_exit {ℓ} : {A : Type ℓ} → Outcome A → Outcome A
or_exit (ok a) = ok a
or_exit throws = exits
or_exit exits = exits

-- A call of the standard library that throws where it has no result.
abbrev pub or_throw {ℓ} : {A : Type ℓ} → Option A → Outcome A
or_throw none = throws
or_throw (some a) = ok a

-- A chain that returned went through its first part.
pub bind-returns {ℓ κ} :
    {A : Type ℓ} {B : Type κ} {b : B} (rest : A → Outcome B) (first : Outcome A)
    → first >>= rest ≡ ok b
    → (x : A) × (first ≡ ok x) × (rest x ≡ ok b)
bind-returns rest throws e = cc
bind-returns rest exits e = cc
bind-returns rest (ok x) e = (x, refl, e)

pub Outcome-cases {ℓ} :
    {A : Type ℓ} (m : Outcome A) → ((a : A) × (m ≡ ok a)) ⊎ ((m ≡ throws) ⊎ (m ≡ exits))
Outcome-cases (ok a) = inl (a, refl)
Outcome-cases throws = inr (inl refl)
Outcome-cases exits = inr (inr refl)
