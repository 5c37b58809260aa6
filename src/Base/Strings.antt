-- ===== src/Base/Strings.antt =====
-- std::string as a list of bytes: equality, `compare(0, n, s) == 0`, `substr` and `find`.
use Prim.Native.Nat.{ℕ, suc}
use Prim.Native.Char.{code}
use Prim.Native.String.{String}
use mathlib.Core.Path.{◌≡◌, refl, sym, ap, ◌∙◌}
use mathlib.Core.Logic.{◌↔◌, ◌⊎◌, inl, inr}
use mathlib.Core.Bool.{Bool, true, false, ◌&&◌, ◌||◌}
use mathlib.Core.Option.{Option, none, some}
use mathlib.Core.List.{List, [], ◌∷◌, ◌++◌}
use native.Mathlib.Omega.{arith}
use bachelor_fair_mq.Base.Tests.{ltb, ◌==◌, if◌then◌else◌, Bool-cases}
use bachelor_fair_mq.Base.Lists.{length, take, drop, take-append-drop}

abbrev pub Text : Type 0
Text = List ℕ

abbrev pub codes : String → Text
codes String.[] = []
codes (String.◌∷◌ c s) = code c ∷ codes s

unfoldable pub text_eq : Text → Text → Bool
text_eq [] [] = true
text_eq [] (y ∷ ys) = false
text_eq (x ∷ xs) [] = false
text_eq (x ∷ xs) (y ∷ ys) = (x == y) && text_eq xs ys

pub text_eq_refl : (s : Text) → text_eq s s ≡ true
unfolding text_eq
text_eq_refl [] = refl
text_eq_refl (x ∷ xs) = ground (arith, text_eq_refl xs)

pub eq_of_text_eq : (s t : Text) → text_eq s t ≡ true → s ≡ t
unfolding text_eq
eq_of_text_eq [] [] h = refl
eq_of_text_eq [] (y ∷ ys) h = cc
eq_of_text_eq (x ∷ xs) [] h = cc
eq_of_text_eq (x ∷ xs) (y ∷ ys) h = ground (arith, eq_of_text_eq xs ys)

pub text_eq_iff : (s t : Text) → (text_eq s t ≡ true) ↔ (s ≡ t)
text_eq_iff s t = (eq_of_text_eq s t, λ e. rw e (text_eq_refl t))

-- `s.compare(0, p.size(), p) == 0`.
unfoldable pub starts_with : Text → Text → Bool
starts_with s p = text_eq (take (length p) s) p

pub starts_with-append : (p s : Text) → starts_with (p ++ s) p ≡ true
unfolding starts_with text_eq
starts_with-append [] s = refl
starts_with-append (x ∷ p) s = ground (arith, starts_with-append p s)

pub eq_of_starts_with : (s p : Text) → starts_with s p ≡ true → s ≡ p ++ drop (length p) s
unfolding starts_with
eq_of_starts_with s p h =
    sym (take-append-drop (length p) s) ∙ ap (λ t. t ++ drop (length p) s) (eq_of_text_eq _ p h)

-- `s.substr(n)`, which throws out_of_range past the end.
unfoldable pub substr : Text → ℕ → Option Text
substr s n = if ltb (length s) n then none else some (drop n s)

-- A text behind a prefix is what `substr` gives at the prefix's length.
pub substr-append : (p s : Text) → substr (p ++ s) (length p) ≡ some s
unfolding substr
substr-append [] s = ground arith
substr-append (x ∷ p) s = ground (arith, substr-append p s)

-- `s.find(c)`: the first position of a byte.
unfoldable pub find : ℕ → Text → Option ℕ
find c [] = none
find c (x ∷ xs) =
    if x == c then some 0 else elim (find c xs) [ none ↦ none | some i ↦ some (suc i) ]

-- The byte occurs.
unfoldable pub contains : ℕ → Text → Bool
contains c [] = false
contains c (x ∷ xs) = (x == c) || contains c xs

-- `s.rfind(c)`: the last position of a byte.
unfoldable pub rfind : ℕ → Text → Option ℕ
rfind c [] = none
rfind c (x ∷ xs) = elim (rfind c xs) [
  | some i ↦ some (suc i)
  | none ↦ if x == c then some 0 else none
]

-- The text is one of a set of texts.
unfoldable pub one_of : List Text → Text → Bool
one_of [] t = false
one_of (x ∷ xs) t = text_eq t x || one_of xs t

-- The same as a statement.
abbrev pub Listed : List Text → Text → Type 0
Listed [] t = ⊥
Listed (x ∷ xs) t = (t ≡ x) ⊎ Listed xs t

pub one_of→Listed : (ts : List Text) (t : Text) → one_of ts t ≡ true → Listed ts t
unfolding one_of
one_of→Listed [] t h = cc
one_of→Listed (x ∷ xs) t h = elim (Bool-cases (text_eq t x)) [
  | inl e ↦ inl (eq_of_text_eq t x e)
  | inr e ↦ inr (one_of→Listed xs t (ground arith))
]

pub Listed→one_of : (ts : List Text) (t : Text) → Listed ts t → one_of ts t ≡ true
unfolding one_of
Listed→one_of [] t h = elim h [ ]
Listed→one_of (x ∷ xs) t (inl e) = ground (arith, text_eq_iff t x)
Listed→one_of (x ∷ xs) t (inr h) = ground (arith, Listed→one_of xs t h)

-- A byte that occurs splits the text.
pub contains→split :
    (c : ℕ) (s : Text) → contains c s ≡ true → (l : Text) × (r : Text) × (s ≡ l ++ c ∷ r)
unfolding contains
contains→split c [] h = cc
contains→split c (x ∷ xs) h = elim (Bool-cases (x == c)) [
  | inl e ↦ ([], xs, ground arith)
  | inr e ↦ let (l, r, p) = contains→split c xs (ground arith) in (x ∷ l, r, ap (◌∷◌ x) p)
]

pub contains-append : (c : ℕ) (l r : Text) → contains c (l ++ c ∷ r) ≡ true
unfolding contains
contains-append c [] r = ground arith
contains-append c (x ∷ l) r = ground (arith, contains-append c l r)

-- `find` fails exactly where the byte does not occur.
pub find-contains : (c : ℕ) (s : Text) → (find c s ≡ none) ↔ (contains c s ≡ false)
unfolding find contains
find-contains c [] = (λ _. refl, λ _. refl)
find-contains c (x ∷ xs) = ground (arith, find-contains c xs)

-- The last occurrence of a byte, where none follows.
pub rfind_last :
    (c : ℕ) (l r : Text) → contains c r ≡ false → rfind c (l ++ c ∷ r) ≡ some (length l)
unfolding rfind contains
rfind_last c [] r h = ground (arith, rfind_absent c r)
  where
    rfind_absent : (c : ℕ) (s : Text) → contains c s ≡ false → rfind c s ≡ none
    rfind_absent c [] h = refl
    rfind_absent c (x ∷ xs) h = ground (arith, rfind_absent c xs)
rfind_last c (x ∷ l) r h = ground (arith, rfind_last c l r h)
