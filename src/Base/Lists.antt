-- ===== src/Base/Lists.antt =====
-- Lists measured and indexed by native numbers, under the library's names.
use Prim.Native.Nat.{ℕ, zero, suc, ◌+◌, ◌<◌}
use mathlib.Core.Path.{◌≡◌, refl, ap, subst}
use mathlib.Core.Logic.{◌≢◌}
use mathlib.Core.List.{List, [], ◌∷◌, ◌++◌}
use mathlib.Core.Option.{Option, none, some}
use native.Mathlib.Omega.{arith}

module _ {ℓ} {A : Type ℓ} where
  abbrev pub length : List A → ℕ
  length [] = 0
  length (x ∷ xs) = suc (length xs)

  abbrev pub get_elem? : List A → ℕ → Option A
  get_elem? [] i = none
  get_elem? (x ∷ xs) zero = some x
  get_elem? (x ∷ xs) (suc i) = get_elem? xs i

  -- An assignment to an element of an array; out of range, none.
  abbrev pub set_elem : ℕ → A → List A → List A
  set_elem n a [] = []
  set_elem zero a (x ∷ xs) = a ∷ xs
  set_elem (suc n) a (x ∷ xs) = x ∷ set_elem n a xs

  abbrev pub take : ℕ → List A → List A
  take zero xs = []
  take (suc n) [] = []
  take (suc n) (x ∷ xs) = x ∷ take n xs

  abbrev pub drop : ℕ → List A → List A
  drop zero xs = xs
  drop (suc n) [] = []
  drop (suc n) (x ∷ xs) = drop n xs

  abbrev pub replicate : ℕ → A → List A
  replicate zero a = []
  replicate (suc n) a = a ∷ replicate n a

  -- `P` holds of each element.
  abbrev pub All {κ} : (A → Type κ) → List A → Type κ
  All P [] = Unit
  All P (x ∷ xs) = P x × All P xs

  pub All-append {κ} : (P : A → Type κ) (xs ys : List A) → All P xs → All P ys → All P (xs ++ ys)
  All-append P [] ys a b = b
  All-append P (x ∷ xs) ys (p, a) b = (p, All-append P xs ys a b)

  pub All-replicate {κ} : (P : A → Type κ) (n : ℕ) (a : A) → P a → All P (replicate n a)
  All-replicate P zero a p = tt
  All-replicate P (suc n) a p = (p, All-replicate P n a p)

  pub length-append : (xs ys : List A) → length (xs ++ ys) ≡ length xs + length ys
  length-append [] ys = omega arith
  length-append (x ∷ xs) ys = omega (arith, length-append xs ys)

  pub take-append-drop : (n : ℕ) (xs : List A) → take n xs ++ drop n xs ≡ xs
  take-append-drop zero xs = refl
  take-append-drop (suc n) [] = refl
  take-append-drop (suc n) (x ∷ xs) = rw (take-append-drop n xs)

  pub length-set_elem : (n : ℕ) (a : A) (xs : List A) → length (set_elem n a xs) ≡ length xs
  length-set_elem n a [] = refl
  length-set_elem zero a (x ∷ xs) = refl
  length-set_elem (suc n) a (x ∷ xs) = ap suc (length-set_elem n a xs)

  pub get_elem?-set_elem :
      (n : ℕ) (a : A) (xs : List A) → n < length xs → get_elem? (set_elem n a xs) n ≡ some a
  get_elem?-set_elem n a [] h = absurd (omega arith)
  get_elem?-set_elem zero a (x ∷ xs) h = refl
  get_elem?-set_elem (suc n) a (x ∷ xs) h = get_elem?-set_elem n a xs (omega arith)

  pub get_elem?-set_elem_other :
      (n m : ℕ) (a : A) (xs : List A) → n ≢ m → get_elem? (set_elem n a xs) m ≡ get_elem? xs m
  get_elem?-set_elem_other n m a [] h = refl
  get_elem?-set_elem_other zero zero a (x ∷ xs) h = absurd (h refl)
  get_elem?-set_elem_other zero (suc m) a (x ∷ xs) h = refl
  get_elem?-set_elem_other (suc n) zero a (x ∷ xs) h = refl
  get_elem?-set_elem_other (suc n) (suc m) a (x ∷ xs) h =
      get_elem?-set_elem_other n m a xs (λ e. h (ap suc e))

  pub length-replicate : (n : ℕ) (a : A) → length (replicate n a) ≡ n
  length-replicate zero a = refl
  length-replicate (suc n) a = ap suc (length-replicate n a)

  pub get_elem?-length : (xs : List A) (i : ℕ) (a : A) → get_elem? xs i ≡ some a → i < length xs
  get_elem?-length [] i a h = cc
  get_elem?-length (x ∷ xs) zero a h = omega arith
  get_elem?-length (x ∷ xs) (suc i) a h = omega (arith, get_elem?-length xs i a h)

  pub All-get_elem? {κ} :
      (P : A → Type κ) (xs : List A) (i : ℕ) (a : A) → All P xs → get_elem? xs i ≡ some a → P a
  All-get_elem? P [] i a ps h = cc
  All-get_elem? P (x ∷ xs) zero a (p, ps) h = subst P (cc) p
  All-get_elem? P (x ∷ xs) (suc i) a (p, ps) h = All-get_elem? P xs i a ps h

  pub All-weaken {κ μ} :
      (P : A → Type κ) (Q : A → Type μ) (xs : List A) → ((x : A) → P x → Q x) → All P xs → All Q xs
  All-weaken P Q [] f ps = tt
  All-weaken P Q (x ∷ xs) f (p, ps) = (f x p, All-weaken P Q xs f ps)

  pub All-both {κ μ} :
      (P : A → Type κ) (Q : A → Type μ) (xs : List A)
      → All P xs
      → All Q xs
      → All (λ x. P x × Q x) xs
  All-both P Q [] ps qs = tt
  All-both P Q (x ∷ xs) (p, ps) (q, qs) = ((p, q), All-both P Q xs ps qs)
