-- ===== src/Base/Decimal.antt =====
-- Numbers printed by `operator<<`, as tools::ToString and std::to_string print them.
use Prim.Native.Nat.{ℕ, zero, suc, ◌+◌, ◌-◌, ◌*◌, ◌/◌, ◌%◌, ◌<◌, ◌≤◌}
use mathlib.Core.Path.{◌≡◌, refl}
use mathlib.Core.Logic.{◌⊎◌, inl, inr}
use mathlib.Core.Bool.{false}
use mathlib.Core.List.{[], ◌∷◌, ◌++◌}
use native.Mathlib.Omega.{arith}
use bachelor_fair_mq.Base.Tests.{ltb, if◌then◌else◌, Bool-cases}
use bachelor_fair_mq.Base.Strings.{Text, contains}

-- The fuel is the number itself, more than it has digits.
digits : ℕ → ℕ → Text
digits zero n = []
digits (suc fuel) n =
    let front = digits fuel (n / 10) in
    if ltb n 10 then (48 + n) ∷ [] else front ++ (48 + n % 10) ∷ []

pub decimal : ℕ → Text
decimal n = digits (suc n) n

-- What a text of digits stands for.
pub value_from : ℕ → Text → ℕ
value_from acc [] = acc
value_from acc (d ∷ ds) = value_from (acc * 10 + d - 48) ds

value_from-append :
    (acc d : ℕ) (l : Text) → 48 ≤ d → value_from acc (l ++ d ∷ []) ≡ value_from acc l * 10 + d - 48
unfolding value_from
value_from-append acc d [] h = refl
value_from-append acc d (x ∷ l) h = value_from-append (acc * 10 + x - 48) d l h

digits-value : (fuel n : ℕ) → n < fuel → value_from 0 (digits fuel n) ≡ n
unfolding digits
digits-value zero n h = absurd (omega arith)
digits-value (suc fuel) n h = elim (Bool-cases (ltb n 10)) [
  | inl t ↦ rw t (unfold value_from in ground arith)
  | inr t ↦
      rw (t, value_from-append 0 (48 + n % 10) (digits fuel (n / 10)) (omega arith))
        (ground (arith, digits-value fuel (n / 10)))
]

-- The printed number reads back, so the fuel suffices.
pub value-decimal : (n : ℕ) → value_from 0 (decimal n) ≡ n
unfolding decimal
value-decimal n = digits-value (suc n) n (omega arith)

pub contains-append_false :
    (c : ℕ) (l r : Text) → contains c l ≡ false → contains c r ≡ false → contains c (l ++ r) ≡ false
unfolding contains
contains-append_false c [] r h k = k
contains-append_false c (x ∷ l) r h k = ground (arith, contains-append_false c l r)

-- The digits are the bytes 48 to 57.
contains-digits : (c fuel n : ℕ) → (c < 48) ⊎ (57 < c) → contains c (digits fuel n) ≡ false
unfolding digits
contains-digits c zero n h = unfold contains in refl
contains-digits c (suc fuel) n h = elim (Bool-cases (ltb n 10)) [
  | inl t ↦ rw t (unfold contains in ground arith)
  | inr t ↦ rw t (
      contains-append_false c (digits fuel (n / 10)) ((48 + n % 10) ∷ [])
        (contains-digits c fuel (n / 10) h) (unfold contains in ground arith))
]

pub contains-decimal : (c n : ℕ) → (c < 48) ⊎ (57 < c) → contains c (decimal n) ≡ false
unfolding decimal
contains-decimal c n h = contains-digits c (suc n) n h
