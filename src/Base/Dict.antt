-- ===== src/Base/Dict.antt =====
-- Maps keyed by texts, as association lists: `find`/`at`, `insert`, and `operator[]` assigned to.
use mathlib.Core.Path.{◌≡◌, refl}
use mathlib.Core.Option.{Option, none, some}
use mathlib.Core.Bool.{Bool, true, false}
use mathlib.Core.List.{List, [], ◌∷◌, ◌++◌}
use native.Mathlib.Omega.{arith}
use bachelor_fair_mq.Base.Tests.{if◌then◌else◌}
use bachelor_fair_mq.Base.Strings.{Text, text_eq, text_eq_iff}

module _ {ℓ} {V : Type ℓ} where
  -- `map::at`: none where the key is missing.
  unfoldable pub lookup : Text → List (Text × V) → Option V
  lookup k [] = none
  lookup k ((j, v) ∷ m) = if text_eq j k then some v else lookup k m

  -- `m[k] = v`.
  unfoldable pub insert : Text → V → List (Text × V) → List (Text × V)
  insert k v [] = (k, v) ∷ []
  insert k v ((j, w) ∷ m) = if text_eq j k then (j, v) ∷ m else (j, w) ∷ insert k v m

  -- `m.insert({k, v})`, which leaves the value of a key that is there.
  unfoldable pub insert_new : Text → V → List (Text × V) → List (Text × V)
  insert_new k v m = elim (lookup k m) [ none ↦ m ++ (k, v) ∷ [] | some _ ↦ m ]

  pub lookup-insert :
      (k j : Text) (v : V) (m : List (Text × V))
      → lookup j (insert k v m) ≡ (if text_eq k j then some v else lookup j m)
  unfolding lookup insert
  lookup-insert k j v [] = refl
  lookup-insert k j v ((i, w) ∷ m) =
      ground (arith, text_eq_iff k j, text_eq_iff i k, text_eq_iff i j, lookup-insert k j v m)

-- `find(…) != end` on a list of texts.
unfoldable pub has : Text → List Text → Bool
has k [] = false
has k (j ∷ js) = let rest = has k js in if text_eq j k then true else rest
