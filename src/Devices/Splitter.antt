-- ===== src/Devices/Splitter.antt =====
-- FairMQSplitter (fairmq/devices/FairMQSplitter.cxx): each payload goes to one subchannel of the
-- output channel, in turn.
use mathlib.Core.Path.{ap₂}
use native.Mathlib.Nat.{mod_self, mod-eq_of_lt, mod-add-mod}
use bachelor_fair_mq.Base.{
  sym, ap, ◌∙◌, ℕ, zero, suc, ◌+◌, ◌%◌, ◌<◌, List, [], ◌∷◌, leb, if◌then◌else◌, ◌≡◌, some,
  get_elem?, arith, Bool-cases, inl, inr, true,
}

-- fDirection behind a payload.
abbrev pub next_direction : ℕ → ℕ → ℕ
next_direction num_outputs direction = let d = direction + 1 in if leb num_outputs d then 0 else d

-- HandleSingleData and HandleMultipartData, payload after payload: the subchannels that are sent to.
unfoldable pub split_all {ℓ} : {A : Type ℓ} → ℕ → ℕ → List A → List (ℕ × A)
split_all num_outputs direction [] = []
split_all num_outputs direction (payload ∷ payloads) =
    (direction, payload) ∷ split_all num_outputs (next_direction num_outputs direction) payloads

next_direction-mod : (n d : ℕ) → d < n → next_direction n d ≡ (d + 1) % n
next_direction-mod n d h = elim (Bool-cases (leb n (d + 1))) [
  | inl e ↦ rw e (sym (ap (λ k. k % n) (last_direction e) ∙ mod_self n))
  | inr e ↦ rw e (sym (mod-eq_of_lt (ground arith)))
]
  where
    last_direction : leb n (d + 1) ≡ true → d + 1 ≡ n
    last_direction e = ground arith

next_direction-lt : (n d : ℕ) → d < n → next_direction n d < n
next_direction-lt n d h = ground arith

turn_suc : (n d i : ℕ) → d < n → (next_direction n d + i) % n ≡ (d + suc i) % n
turn_suc n d i h =
    rw (next_direction-mod n d h, mod-add-mod (d + 1) n i) (ap (λ k. k % n) (omega arith))

-- The splitter takes the outputs in turn: from a direction below the number of outputs on, the i-th
-- payload goes to the subchannel that lies i places behind the direction, counted round the outputs.
pub split_all-turn {ℓ} :
    {A : Type ℓ} (n d : ℕ) (payloads : List A) (i : ℕ) (payload : A)
    → d < n
    → get_elem? payloads i ≡ some payload
    → get_elem? (split_all n d payloads) i ≡ some ((d + i) % n, payload)
unfolding split_all
split_all-turn n d [] i p h g = cc
split_all-turn n d (q ∷ ps) zero p h g =
    ap some (ap₂ (λ x y. (x, y)) (sym (ap (λ k. k % n) (omega arith) ∙ mod-eq_of_lt h)) cc)
split_all-turn n d (q ∷ ps) (suc i) p h g =
    split_all-turn n (next_direction n d) ps i p (next_direction-lt n d h) g
    ∙ ap (λ k. some (k, p)) (turn_suc n d i h)
