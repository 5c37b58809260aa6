-- ===== src/Base/Algorithm.antt =====
-- boost/algorithm/string, which the program splits and joins texts with. `split` stands for
-- `split(v, s, is_any_of(c))` at a set of one byte, with tokens not compressed.
use Prim.Native.Nat.{ℕ}
use mathlib.Core.Path.{◌≡◌, refl}
use mathlib.Core.Bool.{false}
use mathlib.Core.List.{List, [], ◌∷◌, ◌++◌}
use native.Mathlib.Omega.{arith}
use bachelor_fair_mq.Base.Tests.{◌==◌, if◌then◌else◌}
use bachelor_fair_mq.Base.Strings.{Text, contains}

pub record Algorithm : Type 0 where
  pub split : ℕ → Text → List Text
  pub join : ℕ → List Text → Text
  -- A text without the separator is one token.
  pub split_none : (c : ℕ) (s : Text) → contains c s ≡ false → split c s ≡ s ∷ []
  -- The first separator ends the first token.
  pub split_first :
      (c : ℕ) (s t : Text) → contains c s ≡ false → split c (s ++ c ∷ t) ≡ s ∷ split c t
  pub join_one : (c : ℕ) (s : Text) → join c (s ∷ []) ≡ s
  pub join_more :
      (c : ℕ) (s t : Text) (ts : List Text) → join c (s ∷ t ∷ ts) ≡ s ++ c ∷ join c (t ∷ ts)

-- A value of the interface.
push_front : ℕ → List Text → List Text
push_front x [] = (x ∷ []) ∷ []
push_front x (t ∷ ts) = (x ∷ t) ∷ ts

split_on : ℕ → Text → List Text
unfolding push_front
split_on c [] = [] ∷ []
split_on c (x ∷ s) = if x == c then [] ∷ split_on c s else push_front x (split_on c s)

join_with : ℕ → List Text → Text
join_with c [] = []
join_with c (s ∷ []) = s
join_with c (s ∷ t ∷ ts) = s ++ c ∷ join_with c (t ∷ ts)

split_on_none : (c : ℕ) (s : Text) → contains c s ≡ false → split_on c s ≡ s ∷ []
unfolding split_on contains
split_on_none c [] h = refl
split_on_none c (x ∷ s) h = ground (arith, split_on_none c s)

split_on_first :
    (c : ℕ) (s t : Text) → contains c s ≡ false → split_on c (s ++ c ∷ t) ≡ s ∷ split_on c t
unfolding split_on contains
split_on_first c [] t h = ground arith
split_on_first c (x ∷ s) t h = ground (arith, split_on_first c s t)

unfoldable pub plain : Algorithm
unfolding split_on join_with split_on_none split_on_first
plain = record {
  split = split_on;
  join = join_with;
  split_none = split_on_none;
  split_first = split_on_first;
  join_one = λ c s. refl;
  join_more = λ c s t ts. refl;
}
